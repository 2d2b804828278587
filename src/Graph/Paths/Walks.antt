-- ===== src/Graph/Paths/Walks.antt =====
-- What the search of src/graph/store.js reports: walks with no id twice, within the depth.
use finalbuilds.Prelude.{
  ℕ, suc, ◌≤◌, ◌<◌, ◌≡◌, String, true, false, some, List, [], ◌∷◌, ◌++◌, length, length-append,
  arith, In, Bool-cases, inl, inr, leb, subst, All, All-append,
}
use finalbuilds.Prelude.Text.{includes}
use finalbuilds.Prelude.Dict.{lookup}
use finalbuilds.Graph.InMemory.{Edge, Neighbor}
use finalbuilds.Graph.Paths.{
  QueueItem, PathHit, Search, Options, report, offer, expand, initial, find_paths, item_of, hit_of,
  is_worth,
}
use finalbuilds.Graph.Paths.Rounds.{Round, loop_inv, scan_inv}

-- A walk from `from`, edge by edge along `next`, that enters no id twice.
pub data Walk (next : String → List Neighbor) (from : String)
    : List String → List Edge → String → Type 0 where
  stay : Walk next from (from ∷ []) [] from
  go :
      {path : List String} {edges : List Edge} {at : String}
      → Walk next from path edges at
      → (n : Neighbor) → In n (next at)
      → includes path n.entity.id ≡ false
      → Walk next from (path ++ n.entity.id ∷ []) (edges ++ n.edge ∷ []) n.entity.id

module _ (options : Options) (from : String) where
  open options use {next, max_depth, predicate}

  pub record IsHit (hit : PathHit) : Type 0 where
    pub walk : Walk next from hit.path hit.edges hit.entity.id
    pub within : length hit.edges ≤ max_depth
    pub accepted : predicate hit.entity hit.path hit.edges ≡ true

  abbrev IsItem : QueueItem → Type 0
  IsItem i = Walk next from i.path i.edges i.id

  record OnlyWalks (s : Search) : Type 0 where
    results : All IsHit s.results
    queue : All IsItem s.queue

  module _ (c : QueueItem) (walk : IsItem c) (shallow : length c.edges < max_depth) where
    report-IsHit :
        (n : Neighbor) (results : List PathHit)
        → In n (next c.id)
        → includes c.path n.entity.id ≡ false
        → All IsHit results
        → All IsHit (report options c n results)
    unfolding report
    report-IsHit n results at new old =
        elim (Bool-cases
          (predicate n.entity (c.path ++ n.entity.id ∷ []) (c.edges ++ n.edge ∷ []))) [
            | inl accepted ↦
                rw (report, accepted)
                  (All-append IsHit results (hit_of c n ∷ []) old (
                    record {
                      walk = go walk n at new;
                      within = omega (arith, length-append c.edges (n.edge ∷ []));
                      accepted = accepted;
                    },
                    tt,
                  ))
            | inr refused ↦ rw (report, refused) old
          ]

    offer-OnlyWalks :
        (n : Neighbor) (s : Search)
        → In n (next c.id)
        → OnlyWalks s
        → OnlyWalks (offer options c s n)
    unfolding offer
    offer-OnlyWalks n s at h = elim (Bool-cases (includes c.path n.entity.id)) [
      | inl old ↦ rw (offer, old) h
      | inr new ↦
          elim (Bool-cases (is_worth (lookup n.entity.id s.best_depth) (suc (length c.edges)))) [
            | inl worth ↦
                rw (offer, new, worth)
                  (record {
                    results = report-IsHit n s.results at new h.results;
                    queue =
                        All-append IsItem s.queue (item_of c n ∷ []) h.queue (go walk n at new, tt);
                  })
            | inr late ↦
                rw (offer, new, late)
                  (record { results = report-IsHit n s.results at new h.results; queue = h.queue })
          ]
    ]

  expand-OnlyWalks : Round options OnlyWalks
  unfolding expand
  expand-OnlyWalks c q s e h =
      let both : All IsItem (c ∷ q) = subst (All IsItem) e h.queue in
      let rest : OnlyWalks (record s { queue = q }) = record {
        results = h.results;
        queue = both.1;
      } in
      elim (Bool-cases (leb max_depth (length c.edges))) [
        | inl deep ↦ rw (expand, deep) rest
        | inr shallow ↦
            rw (expand, shallow)
              (scan_inv options OnlyWalks c (next c.id) _
                (λ n t at. offer-OnlyWalks c both.0 (ground arith) n t at) rest)
      ]

  -- Every reported path is a walk from the start along the store's edges that enters no id twice,
  -- ends at the reported entity, has at most `maxDepth` edges, and is one that the predicate
  -- accepts.
  pub find_paths_sound :
      (fuel : ℕ) (results : List PathHit)
      → find_paths options fuel from ≡ some results
      → All IsHit results
  unfolding find_paths
  find_paths_sound fuel results e =
      let (t, h, _, same) =
        loop_inv options OnlyWalks expand-OnlyWalks fuel (initial options from) results
          (record { results = tt; queue = (stay, tt) }) e in
      subst (All IsHit) same h.results
