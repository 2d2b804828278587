-- ===== src/Graph/Paths/Fuel.antt =====
-- The search of src/graph/store.js ends: an item weighs more than all that its round can queue.
use finalbuilds.Prelude.{
  ℕ, zero, suc, ◌+◌, ◌-◌, ◌*◌, ◌≤◌, ◌<◌, ◌≡◌, refl, ap, some, String, List, [], ◌∷◌, ◌++◌, length,
  arith, length-append, leb, Bool-cases, inl, inr,
}
use finalbuilds.Graph.InMemory.{Neighbor}
use finalbuilds.Graph.Paths.{
  QueueItem, PathHit, Search, Options, offer, scan, expand, loop, initial, find_paths, item_of,
}

-- The rounds that an item with `k` more levels below it can cost, at `b` neighbours each.
pub weight : ℕ → ℕ → ℕ
weight b zero = 1
weight b (suc k) = suc (b * weight b k)

module _ (options : Options) (b : ℕ) where
  open options use {next, max_depth}

  abbrev item_weight : QueueItem → ℕ
  item_weight i = weight b (max_depth - length i.edges)

  queue_weight : List QueueItem → ℕ
  queue_weight [] = 0
  queue_weight (i ∷ q) = item_weight i + queue_weight q

  queue_weight-append :
      (q r : List QueueItem) → queue_weight (q ++ r) ≡ queue_weight q + queue_weight r
  unfolding queue_weight
  queue_weight-append [] r = omega arith
  queue_weight-append (i ∷ q) r = omega (arith, queue_weight-append q r)

  weight_pos : (k : ℕ) → 1 ≤ weight b k
  unfolding weight
  weight_pos zero = omega arith
  weight_pos (suc k) = omega arith

  offer-weight :
      (c : QueueItem) (s : Search) (n : Neighbor)
      → queue_weight (offer options c s n).queue
        ≤ queue_weight s.queue + weight b (max_depth - suc (length c.edges))
  unfolding offer queue_weight
  offer-weight c s n =
      ground
        (arith, queue_weight-append s.queue (item_of c n ∷ []), length-append c.edges (n.edge ∷ []))

  scan-weight :
      (c : QueueItem) (s : Search) (ns : List Neighbor)
      → queue_weight (scan options c s ns).queue
        ≤ queue_weight s.queue + length ns * weight b (max_depth - suc (length c.edges))
  unfolding scan
  scan-weight c s [] = omega arith
  scan-weight c s (n ∷ ns) =
      omega (arith, offer-weight c s n, scan-weight c (offer options c s n) ns)

  weight_unfold :
      (d : ℕ) → d < max_depth → weight b (max_depth - d) ≡ suc (b * weight b (max_depth - suc d))
  unfolding weight
  weight_unfold d h = let e : max_depth - d ≡ suc (max_depth - suc d) = omega arith in rw e

  mul_mono : (m n w : ℕ) → m ≤ n → m * w ≤ n * w
  mul_mono m n w h = grind arith

  module _ (bounded : (id : String) → length (next id) ≤ b) where
    expand_open :
        (c : QueueItem) (s : Search)
        → length c.edges < max_depth
        → queue_weight (scan options c s (next c.id)).queue < item_weight c + queue_weight s.queue
    expand_open c s h = omega (
      arith,
      weight_unfold (length c.edges) h,
      scan-weight c s (next c.id),
      mul_mono (length (next c.id)) b (weight b (max_depth - suc (length c.edges))) (bounded c.id),
    )

    expand-weight :
        (c : QueueItem) (s : Search)
        → queue_weight (expand options c s).queue < item_weight c + queue_weight s.queue
    unfolding expand
    expand-weight c s = elim (Bool-cases (leb max_depth (length c.edges))) [
      | inl deep ↦ rw (expand, deep) (omega (arith, weight_pos (max_depth - length c.edges)))
      | inr open_ ↦ rw (expand, open_) (expand_open c s (ground arith))
    ]

    loop-total :
        (fuel : ℕ) (s : Search)
        → queue_weight s.queue < fuel
        → (results : List PathHit) × (loop options fuel s ≡ some results)
    unfolding loop queue_weight
    loop-total zero s h = absurd (omega arith)
    loop-total (suc fuel) s h = go s.queue refl (loop-total fuel)
      where
        go :
            (q : List QueueItem)
            → s.queue ≡ q
            → ((t : Search)
                → queue_weight t.queue < fuel
                → (rs : List PathHit) × (loop options fuel t ≡ some rs))
            → (rs : List PathHit) × (loop options (suc fuel) s ≡ some rs)
        go [] e rec = (s.results, rw (loop, e))
        go (c ∷ q) e rec =
            let t = expand options c (record s { queue = q }) in
            let lighter = expand-weight c (record s { queue = q }) in
            let shifted : queue_weight s.queue ≡ item_weight c + queue_weight q =
              ap queue_weight e in
            rw (loop, e) (rec t (omega arith))

  -- If no entity has more than `b` neighbours, `weight b maxDepth + 2` rounds of the outer loop are
  -- enough for the search to end with its results.
  pub find_paths-total :
      (from : String)
      → ((id : String) → length (next id) ≤ b)
      → (results : List PathHit) × (find_paths options (weight b max_depth + 2) from ≡ some results)
  unfolding find_paths queue_weight
  find_paths-total from bounded =
      let whole : max_depth - 0 ≡ max_depth = omega arith in
      loop-total bounded (weight b max_depth + 2) (initial options from)
        (omega (arith, ap (weight b) whole))
