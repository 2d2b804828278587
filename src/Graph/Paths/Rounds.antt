-- ===== src/Graph/Paths/Rounds.antt =====
-- The invariant rule of the search's outer loop (src/graph/store.js).
use finalbuilds.Prelude.{ℕ, zero, suc, ◌≡◌, refl, some, List, [], ◌∷◌, inl, inr, In}
use finalbuilds.Graph.InMemory.{Neighbor}
use finalbuilds.Graph.Paths.{QueueItem, PathHit, Search, Options, offer, scan, expand, loop}

module _ (options : Options) (P : Search → Type 0) where
  open options use {next, max_depth}

  abbrev pub Round : Type 0
  Round =
      (c : QueueItem) (q : List QueueItem) (s : Search)
      → s.queue ≡ c ∷ q
      → P s
      → P (expand options c (record s { queue = q }))

  -- When the loop returns, the invariant holds of a last state with nothing queued.
  pub loop_inv :
      Round
      → (fuel : ℕ) (s : Search) (results : List PathHit) → P s
      → loop options fuel s ≡ some results
      → (t : Search) × P t × (t.queue ≡ []) × (t.results ≡ results)
  unfolding loop
  loop_inv round zero s results h e = cc
  loop_inv round (suc fuel) s results h e = by_queue s.queue refl (loop_inv round fuel)
    where
      by_queue :
          (q : List QueueItem)
          → s.queue ≡ q
          → ((t : Search) (rs : List PathHit)
              → P t
              → loop options fuel t ≡ some rs
              → (u : Search) × P u × (u.queue ≡ []) × (u.results ≡ rs))
          → (t : Search) × P t × (t.queue ≡ []) × (t.results ≡ results)
      by_queue [] empty rec =
          let same : some s.results ≡ some results = rw (loop, empty) at e in (s, h, empty, cc)
      by_queue (c ∷ q) more rec =
          rec (expand options c (record s { queue = q })) results (round c q s more h)
            (rw (loop, more) at e)

-- A relation that each offered neighbour extends is kept by the whole inner loop.
module _ (options : Options) (P : Search → Type 0) (c : QueueItem) where
  pub scan_inv :
      (ns : List Neighbor) (s : Search)
      → ((n : Neighbor) (t : Search) → In n ns → P t → P (offer options c t n))
      → P s
      → P (scan options c s ns)
  unfolding scan
  scan_inv [] s step h = h
  scan_inv (n ∷ ns) s step h =
      scan_inv ns (offer options c s n) (λ m t at. step m t (inr at)) (step n s (inl refl) h)
