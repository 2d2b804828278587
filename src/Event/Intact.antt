-- ===== src/Event/Intact.antt =====
-- Stored artifacts verify (src/event/r2-store.js).
use text.Mathlib.TextLemmas.{cons-append, nil-append, append_assoc}
use mathlib.Core.List.{cons-eq-cons}
use finalbuilds.Prelude.{
  ℕ, zero, suc, String, true, some, List, [], ◌∷◌, ◌≡◌, refl, sym, ap, ◌∙◌, inl, inr, All, eq_iff,
  eq-cases, eq_refl,
}
use finalbuilds.Prelude.Text.{◌<+>◌, slice}
use finalbuilds.Prelude.Paths.{
  split, is_file_name, IsFileName, IsFileName-no_slash, split-no_slash, split-before, join_inj,
}
use finalbuilds.Prelude.Dict.{Dict, lookup, insert, lookup-insert_self, lookup-insert_ne}
use finalbuilds.Model.Value.{Value}
use finalbuilds.Event.Artifacts.{slice_from, artifact_key, path_of, store, verify, checked}

slice-join : (n : ℕ) (s : String) → slice n s <+> slice_from n s ≡ s
slice-join zero s = nil-append s
slice-join (suc n) String.[] = nil-append ""
slice-join (suc n) (String.◌∷◌ c s) =
    cons-append c (slice n s) (slice_from n s) ∙ ap (String.◌∷◌ c) (slice-join n s)

-- The two parts that a digest is split into are plain names, as those of any 64 hexadecimal digits are.
pub record IsDigest (sha : String) : Type 0 where
  pub front : IsFileName (slice 2 sha)
  pub back : IsFileName (slice_from 2 sha)

abbrev tail_of : String → String → List String
tail_of sha f = "sha256" ∷ slice 2 sha ∷ slice_from 2 sha ∷ f ∷ []

under_artifacts :
    (t : String) → "artifacts/sha256/" <+> t ≡ "artifacts" <+> ("/" <+> ("sha256" <+> ("/" <+> t)))
under_artifacts t =
    append_assoc "artifacts" "/sha256/" t
    ∙ ap (λ u. "artifacts" <+> u)
        (append_assoc "/" "sha256/" t ∙ ap (λ u. "/" <+> u) (append_assoc "sha256" "/" t))

split-artifact_key :
    (sha f : String)
    → IsDigest sha
    → IsFileName f
    → split (artifact_key sha f) ≡ "artifacts" ∷ tail_of sha f
unfolding artifact_key
split-artifact_key sha f d name =
    let s = slice 2 sha in
    let t = slice_from 2 sha in
    ap split (under_artifacts (s <+> ("/" <+> (t <+> ("/" <+> f)))))
    ∙ split-before "artifacts" _ refl
    ∙ ap (λ ps. "artifacts" ∷ ps)
        (split-before "sha256" _ refl
          ∙ ap (λ ps. "sha256" ∷ ps)
              (split-before s (t <+> ("/" <+> f)) (IsFileName-no_slash s d.front)
                ∙ ap (λ ps. s ∷ ps)
                    (split-before t f (IsFileName-no_slash t d.back)
                      ∙ ap (λ ps. t ∷ ps) (split-no_slash f (IsFileName-no_slash f name)))))

tail_of-IsFileName :
    (sha f : String) → IsDigest sha → IsFileName f → All IsFileName ("artifacts" ∷ tail_of sha f)
unfolding is_file_name
tail_of-IsFileName sha f d name = (refl, (refl, (d.front, (d.back, (name, tt)))))

path_of_sha :
    (digest : String → String) (base s t f g : String)
    → IsDigest s
    → IsDigest t
    → IsFileName f
    → IsFileName g
    → path_of digest base s f ≡ path_of digest base t g
    → s ≡ t
unfolding path_of
path_of_sha digest base s t f g ds dt hf hg e =
    let parts =
      join_inj base (artifact_key s f) (artifact_key t g) "artifacts" "artifacts" (tail_of s f)
        (tail_of t g) (split-artifact_key s f ds hf) (split-artifact_key t g dt hg)
        (tail_of-IsFileName s f ds hf) (tail_of-IsFileName t g dt hg) e in
    let digests = (cons-eq-cons.0 (cons-eq-cons.0 parts).1).1 in
    let front = (cons-eq-cons.0 digests).0 in
    let back = (cons-eq-cons.0 (cons-eq-cons.0 digests).1).0 in
    sym (slice-join 2 s)
    ∙ ap (λ u. u <+> slice_from 2 s) front
    ∙ ap (λ u. slice 2 t <+> u) back
    ∙ slice-join 2 t

-- Where the two parts of a digest are plain names, an artifact that is stored under a plain file name
-- verifies under its digest and that name, and one that verified before, under two such parts and a
-- plain file name, still does.
pub store_verifies :
    (digest : String → String) (base contents filename : String) (producer : Value)
    (files : Dict String)
    → ((text : String) → IsDigest (digest text))
    → IsFileName filename
    → (verify digest base
          (digest contents)
          filename
          (store digest base contents filename producer files).1
        ≡ some true)
      × ((sha name : String)
          → IsDigest sha
          → IsFileName name
          → verify digest base sha name files ≡ some true
          → verify digest base sha name (store digest base contents filename producer files).1
            ≡ some true)
unfolding store verify
store_verifies digest base contents filename producer files plain named =
    let key = path_of digest base (digest contents) filename in
    let put = λ (place : String). lookup place (insert key contents files) in
    (
      ap (checked digest base (digest contents)) (lookup-insert_self key contents files)
          ∙ ap some (eq_refl (digest contents)),
      λ sha name clean other verified. elim (eq-cases key (path_of digest base sha name)) [
        | inr (differ, test) ↦
            ap (checked digest base sha)
              (lookup-insert_ne key (path_of digest base sha name) contents files differ)
            ∙ verified
        | inl (same, test) ↦
            let equal =
              path_of_sha digest base (digest contents) sha filename name (plain contents) clean
                named other same in
            ap (λ place. checked digest base sha (put place)) (sym same)
            ∙ ap (checked digest base sha) (lookup-insert_self key contents files)
            ∙ ap some ((eq_iff (digest contents) sha).1 equal)
      ],
    )
