-- ===== src/Graph/Paths/Complete.antt =====
-- The pruning of the search of src/graph/store.js (`nextDepth <= prev + 2`) loses no entity.
use finalbuilds.Prelude.{
  ℕ, suc, ◌+◌, ◌≤◌, ◌≡◌, ◌≢◌, refl, String, true, some, List, [], ◌∷◌, length, arith, In,
  Bool-cases, inl, inr, ◌⊎◌, leb, subst, sym, eq_iff,
}
use finalbuilds.Prelude.Dict.{lookup}
use finalbuilds.Graph.InMemory.{Edge, Entity}
use finalbuilds.Graph.Paths.{QueueItem, PathHit, Search, Options, expand, initial, find_paths}
use finalbuilds.Graph.Paths.Rounds.{Round, loop_inv}
use finalbuilds.Graph.Paths.Fuel.{weight, find_paths-total}
use finalbuilds.Graph.Paths.Cover.{
  Reach, here, step, Within, Within-le, Closed, Queued, Covers, Busy, Midway,
}
use finalbuilds.Graph.Paths.Midway.{scan-Midway}

module _ (options : Options) (from : String)
    (accepts : (e : Entity) (path : List String) (edges : List Edge)
      → options.predicate e path edges ≡ true) where
  open options use {next, max_depth}

  abbrev Idle : ℕ → String → Type 0
  Idle b id = ⊥

  -- At the end of a round its item's id is closed.
  settle :
      (busy : ℕ → String → Type 0) (s : Search)
      → ((b : ℕ) (id : String) → busy b id → Closed options from s.best_depth b id)
      → Covers options from busy s
      → Covers options from Idle s
  settle busy s over h = record {
    reported = h.reported;
    known = λ id b found. elim (h.known id b found) [
      | inl queued ↦ inl queued
      | inr (inl running) ↦ inr (inr (over b id running))
      | inr (inr closed) ↦ inr (inr closed)
    ];
    on_path = h.on_path;
    started = h.started;
  }

  -- The item is shifted, and its round begins.
  begin :
      (c : QueueItem) (q : List QueueItem) (s : Search)
      → s.queue ≡ c ∷ q
      → Covers options from Idle s
      → Midway options from accepts c (record s { queue = q })
  begin c q s e h = record {
    covers = record {
      reported = h.reported;
      known = λ id b found. elim (h.known id b found) [
        | inl (i, at, same, le) ↦ shifted b id i (subst (In i) e at) same le
        | inr (inl running) ↦ absurd running
        | inr (inr closed) ↦ inr (inr closed)
      ];
      on_path = λ i at. h.on_path i (subst (In i) (sym e) (inr at));
      started = h.started;
    };
    path = h.on_path c (subst (In c) (sym e) (inl refl));
  }
    where
      shifted :
          (b : ℕ) (id : String) (i : QueueItem)
          → In i (c ∷ q)
          → i.id ≡ id
          → length i.edges ≤ b
          → Queued options from q b id
            ⊎ (Busy options from accepts c b id ⊎ Closed options from s.best_depth b id)
      shifted b id i (inl is_c) same le =
          inr (inl (subst (λ j. (j.id ≡ id) × (length j.edges ≤ b)) is_c (same, le)))
      shifted b id i (inr at) same le = inl (i, at, same, le)

  expand-Covers : Round options (Covers options from Idle)
  unfolding expand
  expand-Covers c q s e h =
      let start = begin c q s e h in
      elim (Bool-cases (leb max_depth (length c.edges))) [
        | inl deep ↦
            rw (expand, deep)
              (settle (Busy options from accepts c) _ (λ b id busy. inl (ground arith))
                start.covers)
        | inr shallow ↦
            let done =
              scan-Midway options from accepts c (next c.id) (record s { queue = q }) start in
            rw (expand, shallow)
              (settle (Busy options from accepts c) _
                (λ b id busy. inr (λ n at.
                  Within-le _ (suc (length c.edges)) (suc b) n.entity.id (omega arith)
                    (done.1 n (subst (λ i. In n (next i)) (sym busy.0) at))))
                done.0.covers)
      ]

  -- With nothing queued, every walk within the depth has given its end a depth.
  reached_depth :
      (s : Search) (k : ℕ) (id : String)
      → Covers options from Idle s
      → s.queue ≡ []
      → k ≤ max_depth
      → Reach next from k id
      → Within s.best_depth k id
  reached_depth s k id h empty le here = h.started
  reached_depth s k id h empty le (step {k = j} {at = at} r n out) =
      let (b, found, shallow) = reached_depth s j at h empty (omega arith) r in
      by_standing b shallow (h.known at b found)
    where
      by_standing :
          (b : ℕ)
          → b ≤ j
          → Queued options from s.queue b at ⊎ (⊥ ⊎ Closed options from s.best_depth b at)
          → Within s.best_depth (suc j) n.entity.id
      by_standing b shallow (inl (i, queued, _, _)) = absurd (subst (In i) empty queued)
      by_standing b shallow (inr (inl running)) = absurd running
      by_standing b shallow (inr (inr (inl deep))) = absurd (omega arith)
      by_standing b shallow (inr (inr (inr all))) =
          Within-le s.best_depth (suc b) (suc j) n.entity.id (omega arith) (all n out)

  start_found : lookup from (initial options from).best_depth ≡ some 0
  start_found = ground (arith, eq_iff from from)

  start_only :
      (id : String) (b : ℕ) → lookup id (initial options from).best_depth ≡ some b → from ≡ id
  start_only id b found = ground (arith, eq_iff from id)

  start_path :
      (i : QueueItem) → In i (initial options from).queue → (id : String) → In id i.path → from ≡ id
  start_path i (inl is_start) id on = by_path (subst (λ j. In id j.path) is_start on)
    where
      by_path : In id (from ∷ []) → from ≡ id
      by_path (inl same) = sym same
      by_path (inr none_) = absurd none_
  start_path i (inr none_) id on = absurd none_

  initial-Covers : Covers options from Idle (initial options from)
  initial-Covers = record {
    reported = λ id b found. inl (sym (start_only id b found));
    known = λ id b found. inl (
      record { id = from; path = from ∷ []; edges = [] },
      inl refl,
      start_only id b found,
      omega arith,
    );
    on_path = λ i at id on.
        subst (Within (initial options from).best_depth (length i.edges)) (start_path i at id on)
          (0, start_found, omega arith);
    started = (0, start_found, omega arith);
  }

  -- With a predicate that accepts all, where no entity has more than `b` neighbours, the search ends
  -- within `weight b maxDepth + 2` rounds, and it reports every entity but the start that a walk of at
  -- most `maxDepth` edges reaches.
  pub find_paths_complete :
      (b k : ℕ) (id : String)
      → ((at : String) → length (next at) ≤ b)
      → Reach next from k id
      → k ≤ max_depth
      → id ≢ from
      → (results : List PathHit) × (find_paths options (weight b max_depth + 2) from ≡ some results)
        × ((hit : PathHit) × In hit results × (hit.entity.id ≡ id))
  unfolding find_paths
  find_paths_complete b k id bounded walk le other =
      let (results, returned) = find_paths-total options b from bounded in
      let (t, h, empty, same) =
        loop_inv options (Covers options from Idle) expand-Covers (weight b max_depth + 2)
          (initial options from) results initial-Covers returned in
      let (d, found, _) = reached_depth t k id h empty le walk in
      (
        results,
        returned,
        elim (h.reported id d found) [
          | inl start ↦ absurd (other start)
          | inr (hit, at, e) ↦ (hit, subst (In hit) same at, e)
        ],
      )
