-- ===== src/Prelude/Exec.antt =====
-- Methods that mutate a store and may throw: what was written before a throw stays written, so the
-- store comes back beside the error too. `Preserves P m` says that `m` keeps `P` on both ways out.
use mathlib.Core.Path.{◌≡◌, refl, sym, ap, ◌∙◌, subst}
use mathlib.Core.Logic.{◌⊎◌, inl, inr}
use mathlib.Core.Bool.{Bool, true, false}
use mathlib.Core.List.{List, [], ◌∷◌}

pub data Outcome (E A : Type 0) : Type 0 where
  ok : A → Outcome E A
  err : E → Outcome E A

abbrev pub Exec : Type 0 → Type 0 → Type 0 → Type 0
Exec S E A = S → Outcome E A × S

module _ {S E A : Type 0} where
  abbrev pub pure : A → Exec S E A
  pure a s = (ok a, s)

  abbrev pub throw : E → Exec S E A
  throw e s = (err e, s)

  abbrev pub gets : (S → A) → Exec S E A
  gets f s = (ok (f s), s)

module _ {S E A B : Type 0} where
  abbrev proceed : Outcome E A → (A → Exec S E B) → Exec S E B
  proceed (ok a) f s = f a s
  proceed (err e) f s = (err e, s)

  infixl 5 ◌>>=◌ ◌>>◌
  unfoldable pub ◌>>=◌ : Exec S E A → (A → Exec S E B) → Exec S E B
  ◌>>=◌ m f s = proceed (m s).0 f (m s).1

  unfoldable pub ◌>>◌ : Exec S E A → Exec S E B → Exec S E B
  unfolding ◌>>=◌
  m >> n = m >>= λ _. n

module _ {S E : Type 0} where
  -- `if (b) await m`
  unfoldable pub when : Bool → Exec S E (Unit {0}) → Exec S E (Unit {0})
  when true m = m
  when false m = pure tt

  -- `for (const x of xs) await f(x)`
  unfoldable pub for_each : {A : Type 0} → (A → Exec S E (Unit {0})) → List A → Exec S E (Unit {0})
  unfolding ◌>>◌
  for_each f [] = pure tt
  for_each f (x ∷ xs) = f x >> for_each f xs

-- How a block runs, by how its first action ends, and what a block that has ended has done.
module _ {S E A B : Type 0} (m : Exec S E A) (f : A → Exec S E B) (s : S) where
  pub bind_ok : (a : A) (t : S) → m s ≡ (ok a, t) → (m >>= f) s ≡ f a t
  unfolding ◌>>=◌
  bind_ok a t e = ap (λ r. proceed r.0 f r.1) e

  pub bind_err : (x : E) (t : S) → m s ≡ (err x, t) → (m >>= f) s ≡ (err x, t)
  unfolding ◌>>=◌
  bind_err x t e = ap (λ r. proceed r.0 f r.1) e

  pub bind_cases :
      (r : Outcome E B) (u : S)
      → (m >>= f) s ≡ (r, u)
      → ((a : A) × (t : S) × (m s ≡ (ok a, t)) × (f a t ≡ (r, u)))
        ⊎ ((x : E) × (m s ≡ (err x, u)) × (r ≡ err x))
  unfolding ◌>>=◌
  bind_cases r u = go (m s).0 (m s).1 refl
    where
      go :
          (q : Outcome E A) (t : S)
          → m s ≡ (q, t)
          → proceed q f t ≡ (r, u)
          → ((a : A) × (t : S) × (m s ≡ (ok a, t)) × (f a t ≡ (r, u)))
            ⊎ ((x : E) × (m s ≡ (err x, u)) × (r ≡ err x))
      go (ok a) t e h = inl (a, t, e, h)
      go (err x) t e h = inr (x, e ∙ ap (λ p. (err x, p.1)) h, ap (λ p. p.0) (sym h))

module _ {S E : Type 0} (P : S → Type 0) where
  pub record Preserves {A : Type 0} (m : Exec S E A) : Type 0 where
    pub keep : (s : S) → P s → P (m s).1

module _ {S E : Type 0} {P : S → Type 0} where
  pub Preserves-pure : {A : Type 0} (a : A) → Preserves {E = E} P (pure a)
  Preserves-pure a = record { keep = λ s h. h }

  pub Preserves-bind :
      {A B : Type 0} (m : Exec S E A) (f : A → Exec S E B)
      → Preserves P m
      → ((a : A) → Preserves P (f a))
      → Preserves P (m >>= f)
  unfolding ◌>>=◌
  Preserves-bind {A = A} m f km kf = record { keep = λ s h. go (m s).0 (m s).1 (km.keep s h) }
    where
      go : (r : Outcome E A) (t : S) → P t → P (proceed r f t).1
      go (ok a) t h = (kf a).keep t h
      go (err e) t h = h

  pub Preserves-then :
      {A B : Type 0} (m : Exec S E A) (n : Exec S E B)
      → Preserves P m
      → Preserves P n
      → Preserves P (m >> n)
  unfolding ◌>>◌
  Preserves-then m n km kn = Preserves-bind m (λ _. n) km (λ _. kn)

  pub Preserves-when : (b : Bool) (m : Exec S E (Unit {0})) → Preserves P m → Preserves P (when b m)
  unfolding when
  Preserves-when true m km = km
  Preserves-when false m km = Preserves-pure tt

  pub Preserves-for_each :
      {A : Type 0} (f : A → Exec S E (Unit {0})) (xs : List A)
      → ((a : A) → Preserves P (f a))
      → Preserves P (for_each f xs)
  unfolding for_each
  Preserves-for_each f [] kf = Preserves-pure tt
  Preserves-for_each f (x ∷ xs) kf =
      Preserves-then (f x) (for_each f xs) (kf x) (Preserves-for_each f xs kf)

-- What an action gives, where it does not throw, has the property.
pub record Gives {S E A : Type 0} (P : A → Type 0) (m : Exec S E A) : Type 0 where
  pub given : (s t : S) (a : A) → m s ≡ (ok a, t) → P a

module _ {S E : Type 0} where
  pub Gives-pure : {A : Type 0} (P : A → Type 0) (a : A) → P a → Gives {S = S} {E = E} P (pure a)
  Gives-pure {A = A} P a p = record { given = λ s t b e. go b (ap (λ q. q.0) e) }
    where
      holds : Outcome E A → Type 0
      holds (ok c) = P c
      holds (err x) = Unit

      go : (b : A) → ◌≡◌ {A = Outcome E A} (ok a) (ok b) → P b
      go b e = subst holds e p

  pub Gives-bind :
      {A B : Type 0} (Q : A → Type 0) (P : B → Type 0) (m : Exec S E A) (f : A → Exec S E B)
      → Gives Q m
      → ((a : A) → Q a → Gives P (f a))
      → Gives P (m >>= f)
  Gives-bind Q P m f gm gf = record {
    given = λ s u b e. elim (bind_cases m f s (ok b) u e) [
      | inl (a, t, first, rest) ↦ (gf a (gm.given s t a first)).given t u b rest
      | inr (x, stop, differ) ↦ cc
    ];
  }

  pub Gives-then :
      {A B : Type 0} (P : B → Type 0) (m : Exec S E A) (f : A → Exec S E B)
      → ((a : A) → Gives P (f a))
      → Gives P (m >>= f)
  Gives-then P m f gf =
      Gives-bind (λ _. Unit) P m f (record { given = λ s t a e. tt }) (λ a _. gf a)
