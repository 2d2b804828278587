-- ===== src/Graph/Neighbors.antt =====
-- `neighbors` of src/graph/inmemory.js against the edges of the graph.
use finalbuilds.Prelude.{
  String, true, ◌≡◌, refl, sym, ◌∙◌, ◌↔◌, ◌⊎◌, inl, inr, Option, some, List, [], ◌∷◌, arith, In,
  Bool-cases, subst,
}
use mathlib.Core.Bool.{false≢true}
use finalbuilds.Prelude.Dict.{lookup, contains}
use finalbuilds.Graph.InMemory.{
  Graph, Edge, Entity, Neighbor, outgoing, incoming, allows, bucket, gather, neighbors,
}
use finalbuilds.Graph.Index.{IsLinked}

-- The neighbour is an edge of the graph from a key of the list, of an allowed kind, with the
-- entity at its far end.
pub record Reads (g : Graph) (kinds : Option (List String)) (far : Edge → String) (ks : List String)
    (n : Neighbor) : Type 0 where
  pub key : String
  pub listed : In key ks
  pub stored : lookup key g.edges ≡ some n.edge
  pub allowed : allows kinds n.edge.kind ≡ true
  pub reached : lookup (far n.edge) g.entities ≡ some n.entity

-- Every listed key has an edge whose far end is an entity.
abbrev Resolves : Graph → (Edge → String) → List String → Type 0
Resolves g far ks =
    (k : String)
    → In k ks
    → (e : Edge) × (lookup k g.edges ≡ some e)
      × ((v : Entity) × (lookup (far e) g.entities ≡ some v))

record Gathers (g : Graph) (kinds : Option (List String)) (far : Edge → String) (ks : List String)
    : Type 0 where
  hits : List Neighbor
  result : gather g kinds far ks ≡ some hits
  sound : (n : Neighbor) → In n hits → Reads g kinds far ks n
  complete : (n : Neighbor) → Reads g kinds far ks n → In n hits

module _ (g : Graph) (kinds : Option (List String)) (far : Edge → String) where
  later :
      (k : String) (ks : List String) (n : Neighbor)
      → Reads g kinds far ks n
      → Reads g kinds far (k ∷ ks) n
  later k ks n r = record {
    key = r.key;
    listed = inr r.listed;
    stored = r.stored;
    allowed = r.allowed;
    reached = r.reached;
  }

  here_or_later :
      (k : String) (ks : List String) (n : Neighbor)
      → Reads g kinds far (k ∷ ks) n
      → ((r : Reads g kinds far (k ∷ ks) n) × (r.key ≡ k)) ⊎ Reads g kinds far ks n
  here_or_later k ks n r = elim r.listed [
    | inl here ↦ inl (r, here)
    | inr there ↦ inr (record {
      key = r.key;
      listed = there;
      stored = r.stored;
      allowed = r.allowed;
      reached = r.reached;
    })
  ]

  -- A read of the key `k` is of the edge that is stored there.
  same_neighbor :
      (k : String) (ks : List String) (e : Edge) (v : Entity) (n : Neighbor)
      → lookup k g.edges ≡ some e
      → lookup (far e) g.entities ≡ some v
      → (r : Reads g kinds far (k ∷ ks) n) → r.key ≡ k
      → (n.edge ≡ e) × (n ≡ record { edge = e; entity = v })
  same_neighbor k ks e v n stored reached r here =
      let edges : some n.edge ≡ some e = sym r.stored ∙ (rw here stored) in
      let edge : n.edge ≡ e = cc in
      let entities : some n.entity ≡ some v = sym r.reached ∙ (rw edge reached) in
      let entity : n.entity ≡ v = cc in (edge, λ i. record { edge = edge i; entity = entity i })

  gather_step :
      (k : String) (ks : List String) (e : Edge) (v : Entity)
      → lookup k g.edges ≡ some e
      → lookup (far e) g.entities ≡ some v
      → Gathers g kinds far ks
      → Gathers g kinds far (k ∷ ks)
  unfolding gather
  gather_step k ks e v stored reached rest = elim (Bool-cases (allows kinds e.kind)) [
    | inl allowed ↦ record {
      hits = record { edge = e; entity = v } ∷ rest.hits;
      result = rw (gather, stored, allowed, reached, rest.result);
      sound = λ n h. elim h [
        | inl same ↦ subst (Reads g kinds far (k ∷ ks)) (sym same) (record {
          key = k;
          listed = inl refl;
          stored = stored;
          allowed = allowed;
          reached = reached;
        })
        | inr rest_hit ↦ later k ks n (rest.sound n rest_hit)
      ];
      complete = λ n r. elim (here_or_later k ks n r) [
        | inl (q, here) ↦ inl (same_neighbor k ks e v n stored reached q here).1
        | inr q ↦ inr (rest.complete n q)
      ];
    }
    | inr barred ↦ record {
      hits = rest.hits;
      result = rw (gather, stored, barred, rest.result);
      sound = λ n h. later k ks n (rest.sound n h);
      complete = λ n r. elim (here_or_later k ks n r) [
        | inl (q, here) ↦
            let edge = (same_neighbor k ks e v n stored reached q here).0 in
            absurd (false≢true (sym barred ∙ (rw edge at q.allowed)))
        | inr q ↦ rest.complete n q
      ];
    }
  ]

  gather_all : (ks : List String) → Resolves g far ks → Gathers g kinds far ks
  unfolding gather
  gather_all [] res = record {
    hits = [];
    result = refl;
    sound = λ n h. absurd h;
    complete = λ n r. absurd r.listed;
  }
  gather_all (k ∷ ks) res =
      let (e, stored, (v, reached)) = res k (inl refl) in
      gather_step k ks e v stored reached (gather_all ks (λ j h. res j (inr h)))

entity_of :
    (id : String) (g : Graph)
    → contains id g.entities ≡ true
    → (v : Entity) × (lookup id g.entities ≡ some v)
entity_of id g h = ground arith

-- The neighbour is an edge of the graph, of an allowed kind, from the id, with the entity it
-- leads to.
pub record Leaves (g : Graph) (kinds : Option (List String)) (id : String) (n : Neighbor)
    : Type 0 where
  pub key : String
  pub stored : lookup key g.edges ≡ some n.edge
  pub starts : n.edge.from_id ≡ id
  pub allowed : allows kinds n.edge.kind ≡ true
  pub reached : lookup n.edge.to_id g.entities ≡ some n.entity

-- The same into the id.
pub record Enters (g : Graph) (kinds : Option (List String)) (id : String) (n : Neighbor)
    : Type 0 where
  pub key : String
  pub stored : lookup key g.edges ≡ some n.edge
  pub ends : n.edge.to_id ≡ id
  pub allowed : allows kinds n.edge.kind ≡ true
  pub reached : lookup n.edge.from_id g.entities ≡ some n.entity

Leaves-of_Reads :
    (g : Graph) (id : String) (kinds : Option (List String)) (n : Neighbor)
    → IsLinked g
    → Reads g kinds (λ e. e.to_id) (bucket id g.out_edges) n
    → Leaves g kinds id n
Leaves-of_Reads g id kinds n l r =
    let (e, stored, starts) = l.outward.sound id r.key r.listed in
    let same : some e ≡ some n.edge = sym stored ∙ r.stored in
    let edge : e ≡ n.edge = cc in
    record {
      key = r.key;
      stored = r.stored;
      starts = rw (← edge) starts;
      allowed = r.allowed;
      reached = r.reached;
    }

Enters-of_Reads :
    (g : Graph) (id : String) (kinds : Option (List String)) (n : Neighbor)
    → IsLinked g
    → Reads g kinds (λ e. e.from_id) (bucket id g.in_edges) n
    → Enters g kinds id n
Enters-of_Reads g id kinds n l r =
    let (e, stored, ends) = l.inward.sound id r.key r.listed in
    let same : some e ≡ some n.edge = sym stored ∙ r.stored in
    let edge : e ≡ n.edge = cc in
    record {
      key = r.key;
      stored = r.stored;
      ends = rw (← edge) ends;
      allowed = r.allowed;
      reached = r.reached;
    }

-- In a linked graph the outgoing neighbours of an id never fault, and they are exactly the edges
-- of the allowed kinds that start there, each with the entity that it leads to.
pub neighbors_outgoing :
    (g : Graph) (id : String) (kinds : Option (List String))
    → IsLinked g
    → (hits : List Neighbor) × (neighbors id outgoing kinds g ≡ some hits)
      × ((n : Neighbor) → In n hits ↔ Leaves g kinds id n)
unfolding neighbors
neighbors_outgoing g id kinds l =
    let found =
      gather_all g kinds (λ e. e.to_id) (bucket id g.out_edges)
        (λ k h.
          let (e, stored, _) = l.outward.sound id k h in
          (e, stored, entity_of e.to_id g (l.edge k e stored).to_present)) in
    (
      found.hits,
      found.result,
      λ n. (
        λ h. Leaves-of_Reads g id kinds n l (found.sound n h),
        λ v. found.complete n (record {
          key = v.key;
          listed =
              subst (λ i. In v.key (bucket i g.out_edges)) v.starts
                (l.outward.complete v.key n.edge v.stored);
          stored = v.stored;
          allowed = v.allowed;
          reached = v.reached;
        }),
      ),
    )

-- In a linked graph the incoming neighbours of an id never fault, and they are exactly the edges
-- of the allowed kinds that end there, each with the entity that it comes from.
pub neighbors_incoming :
    (g : Graph) (id : String) (kinds : Option (List String))
    → IsLinked g
    → (hits : List Neighbor) × (neighbors id incoming kinds g ≡ some hits)
      × ((n : Neighbor) → In n hits ↔ Enters g kinds id n)
unfolding neighbors
neighbors_incoming g id kinds l =
    let found =
      gather_all g kinds (λ e. e.from_id) (bucket id g.in_edges)
        (λ k h.
          let (e, stored, _) = l.inward.sound id k h in
          (e, stored, entity_of e.from_id g (l.edge k e stored).from_present)) in
    (
      found.hits,
      found.result,
      λ n. (
        λ h. Enters-of_Reads g id kinds n l (found.sound n h),
        λ v. found.complete n (record {
          key = v.key;
          listed =
              subst (λ i. In v.key (bucket i g.in_edges)) v.ends
                (l.inward.complete v.key n.edge v.stored);
          stored = v.stored;
          allowed = v.allowed;
          reached = v.reached;
        }),
      ),
    )
