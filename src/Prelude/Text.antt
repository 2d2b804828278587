-- ===== src/Prelude/Text.antt =====
-- Texts: membership in an array of texts, and keys joined by a separator character.
use Prim.Native.Nat.{ℕ, zero, suc}
use Prim.Native.Char.{Char}
use Prim.Native.String.{String, ◌++◌ as ◌<>◌}
use text.Mathlib.Text.{◌==◌}
use text.Mathlib.TextLemmas.{nil-append, cons-append, cons-eq-cons, append_assoc, append-nil}
use mathlib.Core.Path.{◌≡◌, refl, sym, ap, ◌∙◌}
use mathlib.Core.Logic.{◌≢◌}
use mathlib.Core.Bool.{Bool, false, ◌||◌}
use mathlib.Core.List.{List, [], ◌∷◌, ◌++◌}
use text.Mathlib.TextEquality.{eq_iff}
use native.Mathlib.Omega.{arith}
use mathlib.Core.Logic.{inl, inr}
use finalbuilds.Prelude.Lists.{In}

-- `xs.includes(s)`
abbrev pub includes : List String → String → Bool
includes [] s = false
includes (x ∷ xs) s = x == s || includes xs s

infixr 66 ◌<+>◌
abbrev pub ◌<+>◌ : String → String → String
◌<+>◌ = ◌<>◌

-- `s.slice(0, n)`
abbrev pub slice : ℕ → String → String
slice zero s = ""
slice (suc n) String.[] = ""
slice (suc n) (String.◌∷◌ c s) = String.◌∷◌ c (slice n s)

-- `lines.join('\n')`
abbrev pub join_lines : List String → String
join_lines [] = ""
join_lines (x ∷ []) = x
join_lines (x ∷ y ∷ xs) = x <+> ("\n" <+> join_lines (y ∷ xs))

-- A line stands in the joined text, between what comes before and after.
pub join_lines-In :
    (line : String) (lines : List String)
    → In line lines
    → (before : String) × (after : String) × (join_lines lines ≡ before <+> (line <+> after))
join_lines-In line [] h = absurd h
join_lines-In line (x ∷ []) (inl e) = ("", "", sym (nil-append _ ∙ append-nil line ∙ e))
join_lines-In line (x ∷ []) (inr h) = absurd h
join_lines-In line (x ∷ y ∷ xs) (inl e) = (
  "",
  "\n" <+> join_lines (y ∷ xs),
  sym (nil-append _ ∙ ap (λ l. l <+> ("\n" <+> join_lines (y ∷ xs))) e),
)
join_lines-In line (x ∷ y ∷ xs) (inr h) =
    let (before, after, e) = join_lines-In line (y ∷ xs) h in
    (
      x <+> ("\n" <+> before),
      after,
      ap (λ s. x <+> ("\n" <+> s)) e
          ∙ sym (
              append_assoc x ("\n" <+> before) (line <+> after)
              ∙ ap (λ s. x <+> s) (append_assoc "\n" before (line <+> after))),
    )

-- The character does not occur in the text.
abbrev pub Lacks : Char → String → Type 0
Lacks c String.[] = Unit
Lacks c (String.◌∷◌ d s) = (c ≢ d) × Lacks c s

-- Where the separator is in neither, the part before it is determined.
pub split_unique :
    (c : Char) (s t u v : String)
    → Lacks c s
    → Lacks c t
    → s <+> String.◌∷◌ c u ≡ t <+> String.◌∷◌ c v
    → (s ≡ t) × (u ≡ v)
split_unique c String.[] String.[] u v hs ht e =
    (refl, (cons-eq-cons.0 (sym (nil-append _) ∙ e ∙ nil-append _)).1)
split_unique c String.[] (String.◌∷◌ d t) u v hs ht e =
    absurd (ht.0 (cons-eq-cons.0 (sym (nil-append _) ∙ e ∙ cons-append d t _)).0)
split_unique c (String.◌∷◌ d s) String.[] u v hs ht e =
    absurd (hs.0 (sym (cons-eq-cons.0 (sym (cons-append d s _) ∙ e ∙ nil-append _)).0))
split_unique c (String.◌∷◌ d s) (String.◌∷◌ b t) u v hs ht e =
    let parts = cons-eq-cons.0 (sym (cons-append d s _) ∙ e ∙ cons-append b t _) in
    let rest = split_unique c s t u v hs.1 ht.1 parts.1 in
    (λ i. String.◌∷◌ (parts.0 i) (rest.0 i), rest.1)

-- No text stands twice in the list.
abbrev pub Distinct : List String → Type 0
Distinct [] = Unit
Distinct (x ∷ xs) = (includes xs x ≡ false) × Distinct xs

pub includes-append :
    (x y : String) (xs : List String)
    → includes xs y ≡ false
    → (x ≡ y → ⊥)
    → includes (xs ++ x ∷ []) y ≡ false
includes-append x y [] h differ = ground (arith, eq_iff x y)
includes-append x y (z ∷ xs) h differ = ground (arith, includes-append x y xs)

pub Distinct-append :
    (x : String) (xs : List String) → Distinct xs → includes xs x ≡ false → Distinct (xs ++ x ∷ [])
Distinct-append x [] d new = (refl, tt)
Distinct-append x (z ∷ xs) d new = (
  includes-append x z xs d.0 (λ same. ground (arith, eq_iff z x)),
  Distinct-append x xs d.1 (ground (arith, eq_iff z x)),
)
