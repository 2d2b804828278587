-- ===== src/Graph/Paths/Cover.antt =====
-- What the search of src/graph/store.js knows of the ids that have a best depth, and how one offered
-- neighbour changes it.
use finalbuilds.Prelude.{
  ℕ, suc, ◌≤◌, ◌≡◌, refl, String, true, Option, none, some, List, [], ◌∷◌, ◌++◌, length,
  length-append, arith, In, In-append_left, In-append_right, inl, inr, ◌⊎◌, ◌∙◌, eq-cases, min,
}
use native.Mathlib.Decide.{dec_le}
use finalbuilds.Prelude.Dict.{Dict, lookup, insert, lookup-insert_self, lookup-insert_ne}
use finalbuilds.Graph.InMemory.{Edge, Entity, Neighbor}
use finalbuilds.Graph.Paths.{QueueItem, PathHit, Search, Options, report, item_of, hit_of, lowest}

-- A walk of `k` edges from `from`.
pub data Reach (next : String → List Neighbor) (from : String) : ℕ → String → Type 0 where
  here : Reach next from 0 from
  step :
      {k : ℕ} {at : String}
      → Reach next from k at
      → (n : Neighbor) → In n (next at)
      → Reach next from (suc k) n.entity.id

-- The best known depth of an id is at most `d`.
abbrev pub Within : Dict ℕ → ℕ → String → Type 0
Within best d id = (b : ℕ) × (lookup id best ≡ some b) × (b ≤ d)

pub Within-insert :
    (best : Dict ℕ) (d : ℕ) (id j : String) (e : ℕ)
    → Within best d id
    → Within (insert j (lowest (lookup j best) e) best) d id
Within-insert best d id j e (b, found, le) = elim (eq-cases j id) [
  | inl same ↦ (
    lowest (lookup j best) e,
    rw same.0 (lookup-insert_self id (lowest (lookup id best) e) best),
    rw (same.0, found) (omega arith),
  )
  | inr differ ↦ (b, lookup-insert_ne j id (lowest (lookup j best) e) best differ.0 ∙ found, le)
]

pub lowest-le : (prev : Option ℕ) (d : ℕ) → lowest prev d ≤ d
lowest-le none d = omega arith
lowest-le (some p) d = omega arith

pub Within-insert_self :
    (best : Dict ℕ) (d : ℕ) (id : String) → Within (insert id (lowest (lookup id best) d) best) d id
Within-insert_self best d id = (
  lowest (lookup id best) d,
  lookup-insert_self id (lowest (lookup id best) d) best,
  lowest-le (lookup id best) d,
)

pub Within-le :
    (best : Dict ℕ) (d e : ℕ) (id : String) → d ≤ e → Within best d id → Within best e id
Within-le best d e id h (b, found, le) = (b, found, omega arith)

module _ (options : Options) (from : String) where
  open options use {next, max_depth, predicate}

  -- All that leads on from the id has a known depth, one more at most.
  abbrev pub Closed : Dict ℕ → ℕ → String → Type 0
  Closed best b id =
      (max_depth ≤ b) ⊎ ((n : Neighbor) → In n (next id) → Within best (suc b) n.entity.id)

  abbrev pub Queued : List QueueItem → ℕ → String → Type 0
  Queued q b id = (i : QueueItem) × In i q × (i.id ≡ id) × (length i.edges ≤ b)

  abbrev pub Reported : List PathHit → String → Type 0
  Reported results id = (id ≡ from) ⊎ ((hit : PathHit) × In hit results × (hit.entity.id ≡ id))

  -- What a state of the search knows of each id with a depth: it is reported, and it is queued, or
  -- its round is running (`busy`), or its round is over.
  pub record Covers (busy : ℕ → String → Type 0) (s : Search) : Type 0 where
    pub reported : (id : String) (b : ℕ) → lookup id s.best_depth ≡ some b → Reported s.results id
    pub known :
        (id : String) (b : ℕ)
        → lookup id s.best_depth ≡ some b
        → Queued s.queue b id ⊎ (busy b id ⊎ Closed s.best_depth b id)
    pub on_path :
        (i : QueueItem)
        → In i s.queue
        → (id : String) → In id i.path
        → Within s.best_depth (length i.edges) id
    pub started : Within s.best_depth 0 from

  module _
      (accepts : (e : Entity) (path : List String) (edges : List Edge)
        → predicate e path edges ≡ true)
      (c : QueueItem) where
    abbrev pub Busy : ℕ → String → Type 0
    Busy b id = (c.id ≡ id) × (length c.edges ≤ b)

    -- The state in the middle of the item's round.
    pub record Midway (s : Search) : Type 0 where
      pub covers : Covers Busy s
      pub path : (id : String) → In id c.path → Within s.best_depth (length c.edges) id

    pub report_all :
        (n : Neighbor) (results : List PathHit)
        → report options c n results ≡ results ++ hit_of c n ∷ []
    unfolding report
    report_all n results =
        rw (report, accepts n.entity (c.path ++ n.entity.id ∷ []) (c.edges ++ n.edge ∷ []))

    pub Reported-report :
        (n : Neighbor) (results : List PathHit) (id : String)
        → Reported results id
        → Reported (report options c n results) id
    Reported-report n results id (inl e) = inl e
    Reported-report n results id (inr (hit, at, e)) =
        inr (hit, rw (report_all n results) (In-append_left hit results (hit_of c n ∷ []) at), e)

    pub Reported-new :
        (n : Neighbor) (results : List PathHit) → Reported (report options c n results) n.entity.id
    Reported-new n results = inr (
      hit_of c n,
      rw (report_all n results) (In-append_right (hit_of c n) results (hit_of c n ∷ []) (inl refl)),
      refl,
    )

    pub Closed-insert :
        (best : Dict ℕ) (j : String) (e b : ℕ) (id : String)
        → Closed best b id
        → Closed (insert j (lowest (lookup j best) e) best) b id
    Closed-insert best j e b id (inl deep) = inl deep
    Closed-insert best j e b id (inr all) =
        inr (λ n at. Within-insert best (suc b) n.entity.id j e (all n at))

    -- An id's standing survives the write of a new depth and a new item.
    pub known_after :
        (s : Search) (n : Neighbor) (b : ℕ) (id : String)
        → Queued s.queue b id ⊎ (Busy b id ⊎ Closed s.best_depth b id)
        → let depth = suc (length c.edges) in
          let best =
            insert n.entity.id (lowest (lookup n.entity.id s.best_depth) depth) s.best_depth in
          Queued (s.queue ++ item_of c n ∷ []) b id ⊎ (Busy b id ⊎ Closed best b id)
    known_after s n b id (inl (i, at, same, le)) =
        inl (i, In-append_left i s.queue (item_of c n ∷ []) at, same, le)
    known_after s n b id (inr (inl busy)) = inr (inl busy)
    known_after s n b id (inr (inr closed)) =
        inr (inr (Closed-insert s.best_depth n.entity.id (suc (length c.edges)) b id closed))

    pub Queued-new :
        (s : Search) (n : Neighbor) (b : ℕ)
        → suc (length c.edges) ≤ b
        → Queued (s.queue ++ item_of c n ∷ []) b n.entity.id
    Queued-new s n b le = (
      item_of c n,
      In-append_right (item_of c n) s.queue (item_of c n ∷ []) (inl refl),
      refl,
      omega (arith, length-append c.edges (n.edge ∷ [])),
    )

    -- The depth written is the new item's, or the old one, whose standing is known.
    pub known_new :
        (s : Search) (n : Neighbor) (prev : Option ℕ)
        → Covers Busy s
        → lookup n.entity.id s.best_depth ≡ prev
        → let depth = suc (length c.edges) in
          let b = lowest prev depth in
          let best =
            insert n.entity.id (lowest (lookup n.entity.id s.best_depth) depth) s.best_depth in
          Queued (s.queue ++ item_of c n ∷ []) b n.entity.id
          ⊎ (Busy b n.entity.id ⊎ Closed best b n.entity.id)
    known_new s n none h e = inl (Queued-new s n (suc (length c.edges)) (omega arith))
    known_new s n (some p) h e = elim (dec_le (suc (length c.edges)) p) [
      | yes le ↦ inl (Queued-new s n (min p (suc (length c.edges))) (omega arith))
      | no gt ↦
          let old : min p (suc (length c.edges)) ≡ p = omega arith in
          rw old (known_after s n p n.entity.id (h.known n.entity.id p e))
    ]
