-- ===== src/Domains/Spelling.antt =====
-- Which names `generateCandidates` proposes (src/domain-search/engine.js).
use mathlib.Core.Bool.{false≢true}
use finalbuilds.Prelude.{
  ℕ, zero, suc, ◌-◌, true, false, List, [], ◌∷◌, ◌++◌, ◌≡◌, refl, sym, ap, ◌∙◌, inl, inr, map,
  length, take, leb, arith, All, All-append, append_assoc, append-nil, Bool-cases, subst,
}
use finalbuilds.Contract.Letters.{Codes, lower, same_codes, begins_with}
use finalbuilds.Domains.Meanings.{unhyphened}
use finalbuilds.Domains.Candidates.{
  drop, dashed, under, separated, splits, suffixes, compound, compounds, status_codes, coded, has,
  once_each, generate_candidates,
}

same_codes_refl : (s : Codes) → same_codes s s ≡ true
same_codes_refl [] = refl
same_codes_refl (a ∷ s) = ground (arith, same_codes_refl s)

same_codes_sound : (s t : Codes) → same_codes s t ≡ true → s ≡ t
same_codes_sound [] [] h = refl
same_codes_sound [] (b ∷ t) h = absurd (false≢true h)
same_codes_sound (a ∷ s) [] h = absurd (false≢true h)
same_codes_sound (a ∷ s) (b ∷ t) h = ground (arith, same_codes_sound s t)

begins_with-append : (s t : Codes) → begins_with (s ++ t) s ≡ true
begins_with-append [] [] = refl
begins_with-append [] (b ∷ t) = refl
begins_with-append (a ∷ s) t = ground (arith, begins_with-append s t)

unhyphened-append : (s t : Codes) → unhyphened (s ++ t) ≡ unhyphened s ++ unhyphened t
unhyphened-append [] t = refl
unhyphened-append (a ∷ s) t = ground (arith, unhyphened-append s t)

take-drop : (n : ℕ) (s : Codes) → take n s ++ drop n s ≡ s
take-drop zero s = refl
take-drop (suc n) [] = refl
take-drop (suc n) (a ∷ s) = ap (◌∷◌ a) (take-drop n s)

unhyphened-dashed : (s : Codes) → unhyphened (dashed s) ≡ unhyphened s
unhyphened-dashed [] = refl
unhyphened-dashed (c ∷ []) = refl
unhyphened-dashed (c ∷ d ∷ s) = ground (arith, unhyphened-dashed (d ∷ s))

-- Without its hyphens, the text begins with the word without its own.
abbrev pub Spells : Codes → Codes → Type 0
Spells word s = begins_with (unhyphened s) (unhyphened word) ≡ true

module _ (word : Codes) where
  extends : (s t : Codes) → unhyphened s ≡ unhyphened word → Spells word (s ++ t)
  extends s t e =
      rw (unhyphened-append s t, e) (begins_with-append (unhyphened word) (unhyphened t))

  under-Spells :
      (tlds : List Codes) (s t : Codes)
      → unhyphened s ≡ unhyphened word
      → All (Spells word) (under tlds (s ++ t))
  under-Spells [] s t e = tt
  under-Spells (d ∷ tlds) s t e =
      (rw (append_assoc s t (b'.' ∷ d)) (extends s (t ++ b'.' ∷ d) e), under-Spells tlds s t e)

  name-Spells :
      (tlds : List Codes) (s : Codes)
      → unhyphened s ≡ unhyphened word
      → All (Spells word) (under tlds s)
  name-Spells tlds s e =
      subst (λ t. All (Spells word) (under tlds t)) (append-nil s) (under-Spells tlds s [] e)

  split_same : (i : ℕ) → unhyphened (take i word ++ b'-' ∷ drop i word) ≡ unhyphened word
  split_same i =
      unhyphened-append (take i word) (b'-' ∷ drop i word)
      ∙ sym (unhyphened-append (take i word) (drop i word))
      ∙ ap unhyphened (take-drop i word)

  splits-Spells : (tlds : List Codes) (i n : ℕ) → All (Spells word) (splits tlds word i n)
  splits-Spells tlds i zero = tt
  splits-Spells tlds i (suc n) =
      All-append (Spells word) (under tlds (take i word ++ b'-' ∷ drop i word))
        (splits tlds word (suc i) n) (name-Spells tlds _ (split_same i))
        (splits-Spells tlds (suc i) n)

  compound-Spells : (tlds : List Codes) (s : Codes) → All (Spells word) (compound tlds word s)
  compound-Spells [] s = tt
  compound-Spells (t ∷ tlds) s =
      (extends word _ refl, (extends word _ refl, compound-Spells tlds s))

  compounds-Spells : (tlds ss : List Codes) → All (Spells word) (compounds tlds word ss)
  compounds-Spells tlds [] = tt
  compounds-Spells tlds (s ∷ ss) =
      All-append (Spells word) (compound tlds word s) (compounds tlds word ss)
        (compound-Spells tlds s) (compounds-Spells tlds ss)

  coded-Spells : (tlds cs : List Codes) → All (Spells word) (coded tlds word cs)
  coded-Spells tlds [] = tt
  coded-Spells tlds (c ∷ cs) =
      All-append (Spells word) (under tlds (word ++ c)) (coded tlds word cs)
        (under-Spells tlds word c refl) (coded-Spells tlds cs)

  separated-Spells : (tlds : List Codes) → All (Spells word) (separated tlds word)
  separated-Spells tlds = elim (Bool-cases (leb 3 (length word))) [
    | inl e ↦ rw e (name-Spells tlds (dashed word) (unhyphened-dashed word))
    | inr e ↦ rw e tt
  ]

once_each-All : (P : Codes → Type 0) (seen xs : List Codes) → All P xs → All P (once_each seen xs)
once_each-All P seen [] h = tt
once_each-All P seen (x ∷ xs) (p, h) = elim (Bool-cases (has seen x)) [
  | inl e ↦ rw e (once_each-All P seen xs h)
  | inr e ↦ rw e (p, once_each-All P (x ∷ seen) xs h)
]

-- No two entries are equal.
abbrev pub DistinctCodes : List Codes → Type 0
DistinctCodes [] = Unit
DistinctCodes (x ∷ xs) = (has xs x ≡ false) × DistinctCodes xs

once_each_unseen :
    (seen xs : List Codes) (y : Codes) → has seen y ≡ true → has (once_each seen xs) y ≡ false
once_each_unseen seen [] y h = refl
once_each_unseen seen (x ∷ xs) y h = elim (Bool-cases (has seen x)) [
  | inl e ↦ rw e (once_each_unseen seen xs y h)
  | inr e ↦ elim (Bool-cases (same_codes x y)) [
    | inl same ↦ absurd (false≢true (sym e ∙ ap (has seen) (same_codes_sound x y same) ∙ h))
    | inr differ ↦ rw (e, differ) (once_each_unseen (x ∷ seen) xs y (ground (arith, h)))
  ]
]

once_each-DistinctCodes : (seen xs : List Codes) → DistinctCodes (once_each seen xs)
once_each-DistinctCodes seen [] = tt
once_each-DistinctCodes seen (x ∷ xs) = elim (Bool-cases (has seen x)) [
  | inl e ↦ rw e (once_each-DistinctCodes seen xs)
  | inr e ↦ rw e (
    once_each_unseen (x ∷ seen) xs x (ground (arith, same_codes_refl x)),
    once_each-DistinctCodes (x ∷ seen) xs,
  )
]

-- The candidates for a concept are distinct, and each, read without hyphens, begins with the concept
-- in lower case and without its hyphens.
pub candidates_spell :
    (concept : Codes) (tlds : List Codes)
    → DistinctCodes (generate_candidates concept tlds)
      × All (Spells (map lower concept)) (generate_candidates concept tlds)
unfolding generate_candidates
candidates_spell concept tlds =
    let word = map lower concept in
    (
      once_each-DistinctCodes [] _,
      once_each-All (Spells word) [] _ (
          All-append (Spells word) (separated tlds word) _ (separated-Spells word tlds) (
            All-append (Spells word) (splits tlds word 2 (length word - 2)) _
              (splits-Spells word tlds 2 (length word - 2))
              (All-append (Spells word) (compounds tlds word suffixes) _
                (compounds-Spells word tlds suffixes) (coded-Spells word tlds status_codes)))),
    )
