-- ===== src/Event/LocalR2.antt =====
-- What LocalR2Fallback gives back, and what R2EventStore lists (src/event/r2-store.js).
use text.Mathlib.TextLemmas.{
  append_cancel_left, append_cancel_right, cons-append, nil-append, append_assoc,
}
use text.Mathlib.TextLemmas
use mathlib.Core.List.{cons-eq-cons}
use Prim.Native.Char.{code}
use finalbuilds.Prelude.{
  ℕ, suc, ◌+◌, ◌<◌, String, Bool, true, false, some, [], ◌∷◌, ◌≡◌, ◌≢◌, refl, sym, ap, ◌∙◌, ◌==◌,
  if◌then◌else◌, eq-cases, inl, inr, arith,
}
use finalbuilds.Prelude.Text.{◌<+>◌}
use finalbuilds.Prelude.Paths.{
  no_slash, is_file_name, IsFileName, split, split-no_slash, split-before, join_inj,
}
use finalbuilds.Prelude.Dict.{lookup, insert, lookup-insert_self, lookup-insert_ne}
use finalbuilds.Model.Value.{Value, Document, str, get, truthy}
use finalbuilds.Model.Template.{template}
use finalbuilds.Event.R2.{
  Printer, Files, file_of, local_key, append, get_by_id, read_event, event_key, scan_prefix,
}

abbrev size : String → ℕ
size String.[] = 0
size (String.◌∷◌ c s) = suc (size s)

size-append : (s t : String) → size (s <+> t) ≡ size s + size t
size-append String.[] t =
    let same : size ("" <+> t) ≡ size t = ap size (nil-append t) in omega (arith, same)
size-append (String.◌∷◌ c s) t =
    let head : size (String.◌∷◌ c s <+> t) ≡ suc (size (s <+> t)) = ap size (cons-append c s t) in
    let rest = size-append s t in omega (arith, head, rest)

no_slash-append : (s t : String) → no_slash s ≡ true → no_slash t ≡ true → no_slash (s <+> t) ≡ true
no_slash-append String.[] t h k = ap no_slash (nil-append t) ∙ k
no_slash-append (String.◌∷◌ c s) t h k =
    let rest : no_slash (s <+> t) ≡ true = no_slash-append s t (ground arith) k in
    ap no_slash (cons-append c s t) ∙ ground (arith, rest)

-- The text is longer than a given one.
differs : (s t : String) → size t < size s → (s == t) ≡ false
differs s t longer = elim (eq-cases s t) [
  | inl (same, test) ↦ let sizes : size s ≡ size t = ap size same in absurd (omega (arith, sizes))
  | inr (differ, test) ↦ test
]

-- A name that ends in `.json` and has no slash is plain.
IsFileName-json : (s : String) → no_slash s ≡ true → IsFileName (s <+> ".json")
unfolding is_file_name
IsFileName-json s h =
    let long : size (s <+> ".json") ≡ size s + 5 = size-append s ".json" in
    let whole = no_slash-append s ".json" h refl in
    let filled = differs (s <+> ".json") "" (omega (arith, long)) in
    let no_dot = differs (s <+> ".json") "." (omega (arith, long)) in
    let no_dots = differs (s <+> ".json") ".." (omega (arith, long)) in
    rw (filled, no_dot, no_dots, whole) refl

split-events :
    (id : String)
    → no_slash id ≡ true
    → split ("events/" <+> (id <+> ".json")) ≡ "events" ∷ (id <+> ".json") ∷ []
split-events id h =
    ap split (append_assoc "events" "/" (id <+> ".json"))
    ∙ split-before "events" (id <+> ".json") refl
    ∙ ap (λ ps. "events" ∷ ps) (split-no_slash (id <+> ".json") (no_slash-append id ".json" h refl))

module _ (json : Printer) (base : String) where
  local_key-file_of :
      (id : String) (event : Document)
      → id ≢ ""
      → get "event_id" event ≡ str id
      → local_key json base event ≡ file_of json base id
  unfolding local_key template
  local_key-file_of id event filled names = elim (eq-cases id "") [
    | inl (same, test) ↦ absurd (filled same)
    | inr (differ, test) ↦ rw (names, test) refl
  ]

  file_of_inj :
      (id other : String)
      → no_slash id ≡ true
      → no_slash other ≡ true
      → file_of json base id ≡ file_of json base other
      → id ≡ other
  unfolding file_of is_file_name
  file_of_inj id other h k e =
      let parts =
        join_inj base ("events/" <+> (id <+> ".json")) ("events/" <+> (other <+> ".json")) "events"
          "events" ((id <+> ".json") ∷ []) ((other <+> ".json") ∷ []) (split-events id h)
          (split-events other k) (refl, (IsFileName-json id h, tt))
          (refl, (IsFileName-json other k, tt)) e in
      append_cancel_right id other ".json" (cons-eq-cons.0 (cons-eq-cons.0 parts).1).0

  -- An event with an id that has no slash, whose text parses back to it, is, once appended, what `get`
  -- of its id gives, and `get` of any other id without a slash gives what it gave before.
  pub get_by_id-append :
      (id : String) (event : Document) (files : Files)
      → id ≢ ""
      → no_slash id ≡ true
      → get "event_id" event ≡ str id
      → json.parse (json.stringify event) ≡ some event
      → (get_by_id json base id (append json base event files).1 ≡ some (some event))
        × ((other : String)
            → no_slash other ≡ true
            → id ≢ other
            → get_by_id json base other (append json base event files).1
              ≡ get_by_id json base other files)
  unfolding get_by_id append
  get_by_id-append id event files filled whole names printed =
      let key = local_key-file_of id event filled names in
      let text = json.stringify event in
      (
        ap (λ k. read_event json base (lookup (file_of json base id) (insert k text files))) key
            ∙ ap (read_event json base) (lookup-insert_self (file_of json base id) text files)
            ∙ rw (read_event, printed) refl,
        λ other clean differ.
            ap (λ k. read_event json base (lookup (file_of json base other) (insert k text files)))
              key
            ∙ ap (read_event json base) (
                lookup-insert_ne (file_of json base id) (file_of json base other) text files
                  (λ e. differ (file_of_inj id other whole clean e))),
      )

-- No key of an event begins with what `scan` with a source lists.
pub scan_source_misses :
    (prefix : String) (utc : Value → ℕ × ℕ × ℕ) (event : Document) (source : Value) (rest : String)
    → truthy source ≡ true
    → event_key prefix utc event ≢ scan_prefix prefix source <+> rest
unfolding event_key scan_prefix
scan_source_misses prefix utc event source rest given e =
    let listed = "source=" <+> (template source <+> "/") in
    let in_order : prefix <+> ("events/" <+> ("year=" <+> _))
        ≡ prefix <+> ("events/" <+> (listed <+> rest)) =
      ap (λ t. prefix <+> t) (sym (append_assoc "events/" "year=" _))
      ∙ e
      ∙ ap (λ (b : Bool). (prefix <+> ("events/" <+> (if b then listed else ""))) <+> rest) given
      ∙ append_assoc prefix ("events/" <+> listed) rest
      ∙ ap (λ t. prefix <+> t) (append_assoc "events/" listed rest) in
    let after = append_cancel_left "events/" _ _ (append_cancel_left prefix _ _ in_order) in
    let heads = TextLemmas.cons-eq-cons.0 (
      sym (cons-append "y" "ear=" _)
      ∙ after
      ∙ append_assoc "source=" (template source <+> "/") rest
      ∙ cons-append "s" "ource=" _) in
    let codes : ◌≡◌ {A = ℕ} 121 115 = ap code heads.0 in absurd (omega (arith, codes))
