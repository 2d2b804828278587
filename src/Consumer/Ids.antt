-- ===== src/Consumer/Ids.antt =====
-- The set of consumed ids, its list and its file (scripts/outbox-consumer.mjs).
use mathlib.Core.Bool.{false≢true}
use finalbuilds.Prelude.{
  ◌-◌, ◌≤◌, ◌++◌, String, true, false, List, [], ◌∷◌, ◌≡◌, refl, sym, ◌∙◌, ap, subst, inl, inr,
  length, arith, eq_iff, ◌==◌, Bool-cases, append_assoc, append-nil,
}
use finalbuilds.Prelude.Text.{includes, Distinct, Distinct-append}
use finalbuilds.Consumer.Loop.{add, set_of, last_ids, drop}

pub includes-append_self : (id : String) (ids : List String) → includes (ids ++ id ∷ []) id ≡ true
includes-append_self id [] = ground (arith, eq_iff id id)
includes-append_self id (x ∷ ids) = ground (arith, includes-append_self id ids)

pub includes-append_left :
    (x y : String) (ids : List String) → includes ids x ≡ true → includes (ids ++ y ∷ []) x ≡ true
includes-append_left x y (z ∷ ids) h = ground (arith, includes-append_left x y ids)
includes-append_left x y [] h = absurd (false≢true h)

pub add_self : (id : String) (ids : List String) → includes (add id ids) id ≡ true
unfolding add
add_self id ids = ground (arith, includes-append_self id ids)

pub add_keeps :
    (x id : String) (ids : List String) → includes ids x ≡ true → includes (add id ids) x ≡ true
unfolding add
add_keeps x id ids h = ground (arith, includes-append_left x id ids)

pub add-Distinct : (id : String) (ids : List String) → Distinct ids → Distinct (add id ids)
unfolding add
add-Distinct id ids d = elim (Bool-cases (includes ids id)) [
  | inl e ↦ rw e d
  | inr e ↦ rw e (Distinct-append id ids d e)
]

pub set_of-Distinct : (xs ids : List String) → Distinct ids → Distinct (set_of xs ids)
set_of-Distinct [] ids d = d
set_of-Distinct (x ∷ xs) ids d = set_of-Distinct xs (add x ids) (add-Distinct x ids d)

includes-middle :
    (y x : String) (ids xs : List String) → includes (ids ++ x ∷ xs) y ≡ false → (y == x) ≡ false
includes-middle y x [] xs h = ground (arith, eq_iff x y, eq_iff y x)
includes-middle y x (z ∷ ids) xs h = ground (arith, includes-middle y x ids xs)

-- A set that is read back from the list of its ids is that list.
Distinct-new :
    (ids : List String) (x : String) (xs : List String)
    → Distinct (ids ++ x ∷ xs)
    → includes ids x ≡ false
Distinct-new [] x xs d = refl
Distinct-new (y ∷ ids) x xs (d, ds) =
    ground (arith, Distinct-new ids x xs ds, includes-middle y x ids xs d)

pub set_of-append : (xs ids : List String) → Distinct (ids ++ xs) → set_of xs ids ≡ ids ++ xs
unfolding add
set_of-append [] ids d = sym (append-nil ids)
set_of-append (x ∷ xs) ids d = rw (Distinct-new ids x xs d) (
    set_of-append xs (ids ++ x ∷ []) (subst Distinct (sym (append_assoc ids (x ∷ []) xs)) d)
    ∙ append_assoc ids (x ∷ []) xs)

pub last_ids_short : (ids : List String) → length ids ≤ 500 → last_ids ids ≡ ids
last_ids_short ids short =
    let none_over : length ids - 500 ≡ 0 = omega arith in ap (λ n. drop n ids) none_over
