-- ===== src/Reconcile/Latest.antt =====
-- The map that `standardDrift` of src/reconcile/reconciler.js builds holds the latest compliance
-- observation of each pair of a site and a standard version.
use mathlib.Core.Bool.{false≢true}
use mathlib.Core.Option.{some-injective}
use finalbuilds.Prelude.{
  String, Bool, true, false, ◌≡◌, refl, sym, ap, ◌∙◌, subst, inl, inr, In, In-append_left,
  In-append_right, In-append_cases, append_assoc, append-nil, some, List, [], ◌∷◌, ◌++◌, eq-cases,
  Bool-cases, Option-cases,
}
use finalbuilds.Prelude.Dict.{Dict, lookup, insert, lookup-insert_self, lookup-insert_ne}
use finalbuilds.Graph.InMemory.{Graph, Entity}
use finalbuilds.Graph.Index.{IsLinked}
use finalbuilds.Graph.Neighbors.{neighbors_outgoing}
use finalbuilds.Model.RelKind
use finalbuilds.Contract.Letters.{codes}
use finalbuilds.Reconcile.Order.{less, less_trans, less_irrefl}
use finalbuilds.Reconcile.Drift.{
  observed_at, is_compliance, key_of, replaces, tally, Drift, drift_of_site, drift_of_sites,
  standard_drift,
}

-- `o` was observed after `p`.
abbrev pub is_later : Entity → Entity → Bool
is_later o p = less (codes (observed_at p)) (codes (observed_at o))

-- The map has, for each key, a compliance observation of the list with that key, and none of the list
-- with that key is later.
pub record Latest (os : List Entity) (d : Dict Entity) : Type 0 where
  pub from_list :
      (k : String) (o : Entity)
      → lookup k d ≡ some o
      → In o os × (is_compliance o ≡ true) × (key_of o ≡ k)
  pub newest :
      (o : Entity)
      → In o os
      → is_compliance o ≡ true
      → (kept : Entity) × (lookup (key_of o) d ≡ some kept) × (is_later o kept ≡ false)

module _ (o : Entity) (seen : List Entity) (d : Dict Entity) (h : Latest seen d) where
  keep_old :
      ((is_compliance o ≡ true) → replaces o (lookup (key_of o) d) ≡ false)
      → Latest (seen ++ o ∷ []) d
  keep_old stays = record {
    from_list = λ k x found.
        let (at, c, e) = h.from_list k x found in (In-append_left x seen (o ∷ []) at, c, e);
    newest = λ x at c. elim (In-append_cases x seen (o ∷ []) at) [
      | inl old ↦ h.newest x old c
      | inr (inl same) ↦
          subst Kept (sym same) (kept_for_new (subst (λ y. is_compliance y ≡ true) same c))
      | inr (inr nothing) ↦ absurd nothing
    ];
  }
    where
      Kept : Entity → Type 0
      Kept x = (kept : Entity) × (lookup (key_of x) d ≡ some kept) × (is_later x kept ≡ false)

      kept_for_new : is_compliance o ≡ true → Kept o
      kept_for_new c = elim (Option-cases (lookup (key_of o) d)) [
        | inl absent ↦ absurd (false≢true (sym (stays c) ∙ ap (replaces o) absent))
        | inr (kept, found) ↦ (kept, found, sym (ap (replaces o) found) ∙ stays c)
      ]

  take_new :
      is_compliance o ≡ true
      → replaces o (lookup (key_of o) d) ≡ true
      → Latest (seen ++ o ∷ []) (insert (key_of o) o d)
  take_new c newer = record {
    from_list = λ k x found. elim (eq-cases (key_of o) k) [
      | inl same ↦
          let is : some o ≡ some x =
            sym (lookup-insert_self (key_of o) o d)
            ∙ ap (λ j. lookup j (insert (key_of o) o d)) same.0
            ∙ found in
          subst (λ y. In y (seen ++ o ∷ []) × (is_compliance y ≡ true) × (key_of y ≡ k))
            (some-injective o x is) (In-append_right o seen (o ∷ []) (inl refl), c, same.0)
      | inr differ ↦
          let (at, cx, e) =
            h.from_list k x (sym (lookup-insert_ne (key_of o) k o d differ.0) ∙ found) in
          (In-append_left x seen (o ∷ []) at, cx, e)
    ];
    newest = λ x at cx. elim (In-append_cases x seen (o ∷ []) at) [
      | inl old ↦ elim (eq-cases (key_of o) (key_of x)) [
        | inl same ↦ (
          o,
          sym (ap (λ j. lookup j (insert (key_of o) o d)) same.0)
              ∙ lookup-insert_self (key_of o) o d,
          not_later x same.0 (h.newest x old cx),
        )
        | inr differ ↦
            let (kept, found, late) = h.newest x old cx in
            (kept, lookup-insert_ne (key_of o) (key_of x) o d differ.0 ∙ found, late)
      ]
      | inr (inl same) ↦
          subst
            (λ y.
              (kept : Entity) × (lookup (key_of y) (insert (key_of o) o d) ≡ some kept)
              × (is_later y kept ≡ false))
            (sym same) (o, lookup-insert_self (key_of o) o d, less_irrefl (codes (observed_at o)))
      | inr (inr nothing) ↦ absurd nothing
    ];
  }
    where
      not_later :
          (x : Entity)
          → key_of o ≡ key_of x
          → (kept : Entity) × (lookup (key_of x) d ≡ some kept) × (is_later x kept ≡ false)
          → is_later x o ≡ false
      not_later x same (kept, found, late) = elim (Bool-cases (is_later x o)) [
        | inr is_no ↦ is_no
        | inl is_yes ↦
            let before : is_later o kept ≡ true =
              sym (ap (replaces o) (ap (λ j. lookup j d) same ∙ found)) ∙ newer in
            absurd (
              false≢true (
                sym late
                ∙ less_trans (codes (observed_at kept)) (codes (observed_at o))
                    (codes (observed_at x)) before is_yes))
      ]

tally-Latest_from :
    (os seen : List Entity) (d : Dict Entity) → Latest seen d → Latest (seen ++ os) (tally os d)
unfolding tally
tally-Latest_from [] seen d h = subst (λ xs. Latest xs d) (sym (append-nil seen)) h
tally-Latest_from (o ∷ os) seen d h =
    let whole : (seen ++ o ∷ []) ++ os ≡ seen ++ (o ∷ os) = append_assoc seen (o ∷ []) os in
    subst (λ xs. Latest xs (tally (o ∷ os) d)) whole
      (elim (Bool-cases (is_compliance o)) [
        | inr other ↦ rw (other) (
            tally-Latest_from os (seen ++ o ∷ []) d
              (keep_old o seen d h (λ c. absurd (false≢true (sym other ∙ c)))))
        | inl c ↦ elim (Bool-cases (replaces o (lookup (key_of o) d))) [
          | inl newer ↦
              rw (c, newer)
                (tally-Latest_from os (seen ++ o ∷ []) (insert (key_of o) o d)
                  (take_new o seen d h c newer))
          | inr older ↦
              rw (c, older)
                (tally-Latest_from os (seen ++ o ∷ []) d (keep_old o seen d h (λ _. older)))
        ]
      ])

-- The map of a list of observations has, under each of its keys, a compliance observation of the list
-- with that key, and for each compliance observation of the list one with its key that it is not later
-- than.
pub tally-Latest : (os : List Entity) → Latest os (tally os [])
tally-Latest os =
    tally-Latest_from os [] [] (record { from_list = λ k o e. cc; newest = λ o at c. absurd at })

drift_of_sites-total :
    (compliance : Dict Entity) (g : Graph) (sites : List Entity)
    → IsLinked g
    → (drift : List Drift) × (drift_of_sites compliance g sites ≡ some drift)
unfolding drift_of_sites
drift_of_sites-total compliance g [] l = ([], refl)
drift_of_sites-total compliance g (site ∷ sites) l =
    let (desired, found, _) = neighbors_outgoing g site.id (some (RelKind.conforms_to ∷ [])) l in
    let (later, rest) = drift_of_sites-total compliance g sites l in
    (drift_of_site compliance site desired ++ later, rw (drift_of_sites, found, rest))

-- In a linked graph `standardDrift` returns.
standard_drift-total :
    (g : Graph) → IsLinked g → (drift : List Drift) × (standard_drift g ≡ some drift)
unfolding standard_drift
standard_drift-total g l = drift_of_sites-total _ g _ l
