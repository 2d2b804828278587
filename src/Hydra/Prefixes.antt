-- ===== src/Hydra/Prefixes.antt =====
-- Which kind of node an id belongs to (src/graph/hydradb/schema.js).
use mathlib.Core.Bool.{false≢true}
use finalbuilds.Prelude.{
  String, Bool, true, false, not, ◌&&◌, ◌||◌, [], ◌∷◌, ◌≡◌, refl, sym, ap, ◌∙◌, ◌≢◌, inl, inr,
  arith, In,
}
use finalbuilds.Prelude.Dict.{Dict}
use finalbuilds.Contract.Letters.{Codes, codes, begins_with}
use finalbuilds.Hydra.Schema.{NodeSchema, node_schemas}

begins_with_both :
    (s p q : Codes)
    → begins_with s p ≡ true
    → begins_with s q ≡ true
    → (begins_with p q || begins_with q p) ≡ true
begins_with_both s [] [] hp hq = refl
begins_with_both s [] (b ∷ q) hp hq = refl
begins_with_both s (a ∷ p) [] hp hq = refl
begins_with_both [] (a ∷ p) (b ∷ q) hp hq = absurd (false≢true hp)
begins_with_both (c ∷ s) (a ∷ p) (b ∷ q) hp hq = ground (arith, begins_with_both s p q)

abbrev is_empty : Codes → Bool
is_empty [] = true
is_empty (c ∷ s) = false

-- Both texts are not empty and one begins with the other.
abbrev clash : Codes → Codes → Bool
clash p q = not (is_empty p) && (not (is_empty q) && (begins_with p q || begins_with q p))

abbrev clear_of : Codes → Dict NodeSchema → Bool
clear_of p [] = true
clear_of p ((b, y) ∷ d) = not (clash p (codes y.id_prefix)) && clear_of p d

abbrev apart : Dict NodeSchema → Bool
apart [] = true
apart ((a, x) ∷ d) = clear_of (codes x.id_prefix) d && apart d

node_schemas-apart : apart node_schemas ≡ true
node_schemas-apart = refl

clear_of-In :
    (p : Codes) (d : Dict NodeSchema) (b : String) (y : NodeSchema)
    → clear_of p d ≡ true
    → In (b, y) d
    → clash p (codes y.id_prefix) ≡ false
clear_of-In p [] b y h i = absurd i
clear_of-In p ((k, z) ∷ d) b y h (inl e) =
    ap (λ (n : String × NodeSchema). clash p (codes n.1.id_prefix)) e
    ∙ head_clear (clash p (codes z.id_prefix)) h
  where
    head_clear : (c : Bool) → (not c && clear_of p d) ≡ true → c ≡ false
    head_clear true h = absurd (false≢true h)
    head_clear false h = refl
clear_of-In p ((k, z) ∷ d) b y h (inr i) = clear_of-In p d b y (ground (arith, h)) i

clash-sym : (p q : Codes) → clash p q ≡ clash q p
clash-sym p q = ground arith

first_clear :
    {k a : String} {z x : NodeSchema} (d : Dict NodeSchema)
    → ◌≡◌ {A = String × NodeSchema} (a, x) (k, z)
    → apart ((k, z) ∷ d) ≡ true
    → clear_of (codes x.id_prefix) d ≡ true
first_clear d e h =
    ap (λ (n : String × NodeSchema). clear_of (codes n.1.id_prefix) d) e ∙ ground (arith, h)

some_code : (s : String) → s ≢ "" → is_empty (codes s) ≡ false
some_code String.[] h = absurd (h refl)
some_code (String.◌∷◌ c s) h = refl

clash_if :
    (p q : Codes)
    → is_empty p ≡ false
    → is_empty q ≡ false
    → (begins_with p q || begins_with q p) ≡ true
    → clash p q ≡ true
clash_if p q hp hq h = ground (arith, hp, hq, h)

one_of :
    (d : Dict NodeSchema) (a b : String) (x y : NodeSchema)
    → apart d ≡ true
    → In (a, x) d
    → In (b, y) d
    → clash (codes x.id_prefix) (codes y.id_prefix) ≡ true
    → a ≡ b
one_of [] a b x y h i j c = absurd i
one_of ((k, z) ∷ d) a b x y h (inl e) (inl f) c = ap (λ n. n.0) (e ∙ sym f)
one_of ((k, z) ∷ d) a b x y h (inl e) (inr j) c =
    absurd (false≢true (sym (clear_of-In (codes x.id_prefix) d b y (first_clear d e h) j) ∙ c))
one_of ((k, z) ∷ d) a b x y h (inr i) (inl f) c = absurd (
    false≢true (
      sym (clear_of-In (codes y.id_prefix) d a x (first_clear d f h) i)
      ∙ clash-sym (codes y.id_prefix) (codes x.id_prefix)
      ∙ c))
one_of ((k, z) ∷ d) a b x y h (inr i) (inr j) c = one_of d a b x y (ground (arith, h)) i j c

-- An id begins with the prefixes of one kind of node at most, kinds without a prefix aside.
pub one_kind_of_id :
    (id a b : String) (x y : NodeSchema)
    → In (a, x) node_schemas
    → In (b, y) node_schemas
    → x.id_prefix ≢ ""
    → y.id_prefix ≢ ""
    → begins_with (codes id) (codes x.id_prefix) ≡ true
    → begins_with (codes id) (codes y.id_prefix) ≡ true
    → a ≡ b
one_kind_of_id id a b x y i j px py hx hy = one_of node_schemas a b x y node_schemas-apart i j (
    clash_if (codes x.id_prefix) (codes y.id_prefix) (some_code x.id_prefix px)
      (some_code y.id_prefix py)
      (begins_with_both (codes id) (codes x.id_prefix) (codes y.id_prefix) hx hy))
