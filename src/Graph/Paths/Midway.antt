-- ===== src/Graph/Paths/Midway.antt =====
-- One round of the search of src/graph/store.js keeps what is known of the depths, and gives every
-- neighbour of the round's item one.
use finalbuilds.Prelude.{
  ℕ, suc, ◌≤◌, ◌≡◌, refl, String, true, false, Option, none, some, List, [], ◌∷◌, ◌++◌, length,
  length-append, arith, In, In-append_cases, Bool-cases, inl, inr, ◌⊎◌, subst, sym, ◌∙◌, eq-cases,
}
use finalbuilds.Prelude.Text.{includes}
use finalbuilds.Prelude.Dict.{Dict, lookup, insert, lookup-insert_self, lookup-insert_ne}
use finalbuilds.Graph.Index.{In-of_includes}
use finalbuilds.Graph.InMemory.{Edge, Entity, Neighbor}
use finalbuilds.Graph.Paths.{
  QueueItem, Search, Options, report, offer, scan, item_of, is_worth, lowest,
}
use finalbuilds.Graph.Paths.Cover.{
  Within, Within-insert, Within-insert_self, Within-le, Closed, Queued, Reported, Busy, Midway,
  Reported-report, Reported-new, known_after, known_new,
}

module _ (options : Options) (from : String)
    (accepts : (e : Entity) (path : List String) (edges : List Edge)
      → options.predicate e path edges ≡ true) where
  open options use {next, max_depth}

  module _ (c : QueueItem) where
    abbrev deeper : Search → Neighbor → Dict ℕ
    deeper s n =
        insert n.entity.id (lowest (lookup n.entity.id s.best_depth) (suc (length c.edges)))
          s.best_depth

    abbrev Standing : Search → Neighbor → ℕ → String → Type 0
    Standing s n b id =
        Queued options from (s.queue ++ item_of c n ∷ []) b id
        ⊎ (Busy options from accepts c b id ⊎ Closed options from (deeper s n) b id)

    written_known :
        (s : Search) (n : Neighbor) (id : String) (b : ℕ)
        → Midway options from accepts c s
        → n.entity.id ≡ id
        → lookup id (deeper s n) ≡ some b
        → Standing s n b id
    written_known s n id b h same found =
        let low = lowest (lookup n.entity.id s.best_depth) (suc (length c.edges)) in
        let written : some low ≡ some b =
          sym (lookup-insert_self n.entity.id low s.best_depth) ∙ (rw (← same) at found) in
        let is_b : low ≡ b = cc in
        subst (Standing s n b) same (
          subst (λ x. Standing s n x n.entity.id) is_b
            (known_new options from accepts c s n (lookup n.entity.id s.best_depth) h.covers refl))

    new_path :
        (s : Search) (n : Neighbor) (id : String)
        → Midway options from accepts c s
        → In id (item_of c n).path
        → Within (deeper s n) (length (item_of c n).edges) id
    new_path s n id h on =
        let longer : suc (length c.edges) ≤ length (item_of c n).edges =
          omega (arith, length-append c.edges (n.edge ∷ [])) in
        Within-le (deeper s n) (suc (length c.edges)) _ id longer
          (by_part (In-append_cases id c.path (n.entity.id ∷ []) on))
      where
        by_part :
            In id c.path ⊎ In id (n.entity.id ∷ []) → Within (deeper s n) (suc (length c.edges)) id
        by_part (inl old) =
            Within-insert s.best_depth (suc (length c.edges)) id n.entity.id (suc (length c.edges))
              (Within-le s.best_depth (length c.edges) (suc (length c.edges)) id (omega arith)
                (h.path id old))
        by_part (inr (inl new)) =
            subst (Within (deeper s n) (suc (length c.edges))) (sym new)
              (Within-insert_self s.best_depth (suc (length c.edges)) n.entity.id)
        by_part (inr (inr none_)) = absurd none_

    -- A new id, or one that may still be worth a shorter walk, is written and queued.
    worth-Midway :
        (s : Search) (n : Neighbor)
        → Midway options from accepts c s
        → Midway options from accepts c (record {
          results = report options c n s.results;
          queue = s.queue ++ item_of c n ∷ [];
          best_depth = deeper s n;
        })
    worth-Midway s n h = record {
      covers = record {
        reported = λ id b found. elim (eq-cases n.entity.id id) [
          | inl same ↦
              subst (Reported options from _) same.0
                (Reported-new options from accepts c n s.results)
          | inr differ ↦ Reported-report options from accepts c n s.results id (
              h.covers.reported id b
                (sym (lookup-insert_ne n.entity.id id _ s.best_depth differ.0) ∙ found))
        ];
        known = λ id b found. elim (eq-cases n.entity.id id) [
          | inl same ↦ written_known s n id b h same.0 found
          | inr differ ↦ known_after options from accepts c s n b id (
              h.covers.known id b
                (sym (lookup-insert_ne n.entity.id id _ s.best_depth differ.0) ∙ found))
        ];
        on_path = λ i at id on. elim (In-append_cases i s.queue (item_of c n ∷ []) at) [
          | inl old ↦
              Within-insert s.best_depth (length i.edges) id n.entity.id (suc (length c.edges))
                (h.covers.on_path i old id on)
          | inr (inl new) ↦
              subst (λ j. In id j.path → Within (deeper s n) (length j.edges) id) (sym new)
                (new_path s n id h) on
          | inr (inr none_) ↦ absurd none_
        ];
        started =
            Within-insert s.best_depth 0 from n.entity.id (suc (length c.edges)) h.covers.started;
      };
      path = λ id on.
          Within-insert s.best_depth (length c.edges) id n.entity.id (suc (length c.edges))
            (h.path id on);
    }

    -- An id that comes too late is reported again and not queued.
    late-Midway :
        (s : Search) (n : Neighbor)
        → Midway options from accepts c s
        → Midway options from accepts c (record s { results = report options c n s.results })
    late-Midway s n h = record {
      covers = record {
        reported = λ id b found.
            Reported-report options from accepts c n s.results id (h.covers.reported id b found);
        known = h.covers.known;
        on_path = h.covers.on_path;
        started = h.covers.started;
      };
      path = h.path;
    }

    late-Within :
        (s : Search) (n : Neighbor) (prev : Option ℕ)
        → lookup n.entity.id s.best_depth ≡ prev
        → is_worth prev (suc (length c.edges)) ≡ false
        → Within s.best_depth (suc (length c.edges)) n.entity.id
    late-Within s n none e late = cc
    late-Within s n (some p) e late = (p, e, ground arith)

    -- One offer keeps what is known, and gives the neighbour a depth.
    offer-Midway :
        (s : Search) (n : Neighbor)
        → Midway options from accepts c s
        → Midway options from accepts c (offer options c s n)
          × Within (offer options c s n).best_depth (suc (length c.edges)) n.entity.id
    unfolding offer
    offer-Midway s n h = elim (Bool-cases (includes c.path n.entity.id)) [
      | inl old ↦
          rw (offer, old)
            (
              h,
              Within-le s.best_depth (length c.edges) (suc (length c.edges)) n.entity.id
                  (omega arith) (h.path n.entity.id (In-of_includes n.entity.id c.path old)),
            )
      | inr new ↦
          elim (Bool-cases (is_worth (lookup n.entity.id s.best_depth) (suc (length c.edges)))) [
            | inl worth ↦
                rw (offer, new, worth)
                  (
                    worth-Midway s n h,
                    Within-insert_self s.best_depth (suc (length c.edges)) n.entity.id,
                  )
            | inr late ↦
                rw (offer, new, late)
                  (late-Midway s n h, late-Within s n (lookup n.entity.id s.best_depth) refl late)
          ]
    ]

    -- No offer loses a depth.
    offer-Within :
        (s : Search) (n : Neighbor) (d : ℕ) (id : String)
        → Within s.best_depth d id
        → Within (offer options c s n).best_depth d id
    unfolding offer
    offer-Within s n d id h = elim (Bool-cases (includes c.path n.entity.id)) [
      | inl old ↦ rw (offer, old) h
      | inr new ↦
          elim (Bool-cases (is_worth (lookup n.entity.id s.best_depth) (suc (length c.edges)))) [
            | inl worth ↦
                rw (offer, new, worth)
                  (Within-insert s.best_depth d id n.entity.id (suc (length c.edges)) h)
            | inr late ↦ rw (offer, new, late) h
          ]
    ]

    scan-Within :
        (ns : List Neighbor) (s : Search) (d : ℕ) (id : String)
        → Within s.best_depth d id
        → Within (scan options c s ns).best_depth d id
    unfolding scan
    scan-Within [] s d id h = h
    scan-Within (n ∷ ns) s d id h =
        scan-Within ns (offer options c s n) d id (offer-Within s n d id h)

    -- The round gives every neighbour a depth.
    pub scan-Midway :
        (ns : List Neighbor) (s : Search)
        → Midway options from accepts c s
        → Midway options from accepts c (scan options c s ns)
          × ((n : Neighbor)
              → In n ns
              → Within (scan options c s ns).best_depth (suc (length c.edges)) n.entity.id)
    unfolding scan
    scan-Midway [] s h = (h, λ n at. absurd at)
    scan-Midway (n ∷ ns) s h =
        let offered = offer-Midway s n h in
        let rest = scan-Midway ns (offer options c s n) offered.0 in
        (
          rest.0,
          λ m at. elim at [
            | inl same ↦
                subst
                  (λ k.
                    Within (scan options c (offer options c s n) ns).best_depth
                      (suc (length c.edges)) k.entity.id)
                  (sym same)
                  (scan-Within ns (offer options c s n) (suc (length c.edges)) n.entity.id
                    offered.1)
            | inr later ↦ rest.1 m later
          ],
        )
