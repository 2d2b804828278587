-- ===== src/Reconcile/Order.antt =====
-- The order of texts, by the codes of their characters, that `>` of src/reconcile/reconciler.js uses.
use finalbuilds.Prelude.{Bool, true, false, ◌≡◌, refl, [], ◌∷◌, ltb, eqb, arith, ◌||◌, ◌&&◌}
use finalbuilds.Contract.Letters.{Codes}

-- `s < t`
unfoldable pub less : Codes → Codes → Bool
less s [] = false
less [] (b ∷ t) = true
less (a ∷ s) (b ∷ t) = ltb a b || (eqb a b && less s t)

pub less_trans : (r s t : Codes) → less r s ≡ true → less s t ≡ true → less r t ≡ true
unfolding less
less_trans [] s [] h k = cc
less_trans [] s (c ∷ t) h k = refl
less_trans (a ∷ r) [] t h k = cc
less_trans (a ∷ r) (b ∷ s) [] h k = cc
less_trans (a ∷ r) (b ∷ s) (c ∷ t) h k = ground (arith, less_trans r s t)

pub less_irrefl : (s : Codes) → less s s ≡ false
unfolding less
less_irrefl [] = refl
less_irrefl (a ∷ s) = ground (arith, less_irrefl s)
