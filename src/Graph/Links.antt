-- ===== src/Graph/Links.antt =====
-- `upsertEntity`, `link` and `clear` (src/graph/inmemory.js) keep the maps of the graph linked.
use finalbuilds.Prelude.{
  String, true, ◌≡◌, sym, ◌∙◌, ◌⊎◌, inl, inr, some, List, ◌==◌, eq_iff, arith, eq-cases,
  Option-cases, Bool-cases, subst,
}
use finalbuilds.Prelude.Dict.{
  Dict, lookup, contains, insert, lookup-insert, lookup-insert_self, lookup-insert_ne,
}
use finalbuilds.Prelude.Exec.{Preserves}
use finalbuilds.Model.Value.{Value, Document, str}
use finalbuilds.Graph.InMemory.{
  Graph, Entity, Edge, EntityInput, empty, id_of, merged, upsert_entity, present, edge_key,
  add_index, connect, link, clear,
}
use finalbuilds.Graph.Index.{
  IsPlain, IsLinked, IsEdge, Indexes, edge_key_inj, In-add_index_self, In-add_index_old,
  In-add_index_cases,
}

pub contains-insert_self {ℓ} :
    {V : Type ℓ} (k : String) (v : V) (d : Dict V) → contains k (insert k v d) ≡ true
contains-insert_self k v d = ground (arith, lookup-insert_self k v d)

pub contains-insert_old {ℓ} :
    {V : Type ℓ} (k j : String) (v : V) (d : Dict V)
    → contains j d ≡ true
    → contains j (insert k v d) ≡ true
contains-insert_old k j v d h = ground (arith, lookup-insert k j v d)

pub contains-insert_cases {ℓ} :
    {V : Type ℓ} (k j : String) (v : V) (d : Dict V)
    → contains j (insert k v d) ≡ true
    → (contains j d ≡ true) ⊎ (k ≡ j)
contains-insert_cases k j v d h = ground (arith, lookup-insert k j v d, eq_iff k j)

-- One more key, written into the bucket of its end, keeps an index exact.
module _ (ends : Edge → String) (edges : Dict Edge) (index : Dict (List String)) (e : Edge)
    (key : String) (same_end : (old : Edge) → lookup key edges ≡ some old → ends old ≡ ends e) where
  sound_old :
      (id k : String) (f : Edge)
      → lookup k edges ≡ some f
      → ends f ≡ id
      → (f : Edge) × (lookup k (insert key e edges) ≡ some f) × (ends f ≡ id)
  sound_old id k f found end = elim (eq-cases key k) [
    | inl same ↦ (
      e,
      rw (← same.0) (lookup-insert_self key e edges),
      sym (same_end f (rw (← same.0) at found)) ∙ end,
    )
    | inr differ ↦ (f, lookup-insert_ne key k e edges differ.0 ∙ found, end)
  ]

  pub add_index-Indexes :
      Indexes ends edges index → Indexes ends (insert key e edges) (add_index index (ends e) key)
  add_index-Indexes ix = record {
    sound = λ id k h. elim (In-add_index_cases index (ends e) key k id h) [
      | inl old ↦ let (f, found, end) = ix.sound id k old in sound_old id k f found end
      | inr new ↦ (e, rw new.0 (lookup-insert_self key e edges), new.1)
    ];
    complete = λ k f h. elim (eq-cases key k) [
      | inl same ↦
          let f_is_e : some e ≡ some f =
            sym (lookup-insert_self key e edges) ∙ (rw (← same.0) at h) in
          let e_is_f : e ≡ f = cc in rw (← e_is_f, ← same.0) (In-add_index_self index (ends e) key)
      | inr differ ↦
          In-add_index_old index (ends e) key k (ends f)
            (ix.complete k f (sym (lookup-insert_ne key k e edges differ.0) ∙ h))
    ];
  }

-- In a linked graph an edge under the key of a link has that link's ends.
same_ends :
    (a kind b : String) (g : Graph) (old : Edge)
    → IsPlain kind
    → contains a g.entities ≡ true
    → IsLinked g
    → lookup (edge_key a kind b) g.edges ≡ some old
    → (old.from_id ≡ a) × (old.to_id ≡ b)
same_ends a kind b g old pk ha l h =
    let known = l.edge (edge_key a kind b) old h in
    let same =
      edge_key_inj a kind b old.from_id old.kind old.to_id (l.plain_ids a ha) pk
        (l.plain_ids old.from_id known.from_present) known.plain_kind known.keyed in
    (sym same.0, sym same.2)

new-IsEdge :
    (a kind b : String) (props : Document) (g : Graph) (k : String) (e : Edge)
    → IsPlain kind
    → contains a g.entities ≡ true
    → contains b g.entities ≡ true
    → IsLinked g
    → lookup k (connect a kind b props g).edges ≡ some e
    → IsEdge g.entities k e
unfolding connect
new-IsEdge a kind b props g k e pk ha hb l h =
    let key = edge_key a kind b in
    let new : Edge = record { from_id = a; kind = kind; to_id = b; props = props } in
    elim (eq-cases key k) [
      | inl same ↦
          let found : some new ≡ some e =
            sym (lookup-insert_self key new g.edges) ∙ (rw (← same.0) at h) in
          let is_new : new ≡ e = cc in
          subst (IsEdge g.entities k) is_new
            (record { keyed = sym same.0; plain_kind = pk; from_present = ha; to_present = hb })
      | inr differ ↦ l.edge k e (sym (lookup-insert_ne key k new g.edges differ.0) ∙ h)
    ]

-- What a link writes is linked again, where its endpoints are there and its kind is plain.
pub connect-IsLinked :
    (a kind b : String) (props : Document) (g : Graph)
    → IsPlain kind
    → contains a g.entities ≡ true
    → contains b g.entities ≡ true
    → IsLinked g
    → IsLinked (connect a kind b props g)
unfolding connect
connect-IsLinked a kind b props g pk ha hb l = record {
  plain_ids = l.plain_ids;
  edge = λ k e h. new-IsEdge a kind b props g k e pk ha hb l h;
  outward =
      add_index-Indexes (λ e. e.from_id) g.edges g.out_edges _ (edge_key a kind b)
        (λ old h. (same_ends a kind b g old pk ha l h).0) l.outward;
  inward =
      add_index-Indexes (λ e. e.to_id) g.edges g.in_edges _ (edge_key a kind b)
        (λ old h. (same_ends a kind b g old pk ha l h).1) l.inward;
}

pub present-eq-some :
    (g : Graph) (v : Value) (s : String) → present g v ≡ some s → contains s g.entities ≡ true
unfolding present
present-eq-some g (str t) s h = ground arith
present-eq-some g v s h = cc

-- `link` keeps the graph linked on both ways out: with both endpoints there it writes an edge and
-- its two index entries, and otherwise it throws and writes nothing.
pub link-IsLinked :
    (from : Value) (kind : String) (to : Value) (props : Document)
    → IsPlain kind
    → Preserves IsLinked (link from kind to props)
unfolding link
link-IsLinked from kind to props pk = record {
  keep = λ g l. elim (Option-cases (present g from)) [
    | inl no_from ↦ rw (link, no_from) l
    | inr (a, ha) ↦ elim (Option-cases (present g to)) [
      | inl no_to ↦ rw (link, ha, no_to) l
      | inr (b, hb) ↦
          rw (link, ha, hb)
            (connect-IsLinked a kind b props g pk (present-eq-some g from a ha)
              (present-eq-some g to b hb) l)
    ]
  ];
}

-- The id of an input, where it has one, is plain.
abbrev pub PlainInput : EntityInput → Type 0
PlainInput input = (id : String) → id_of input.id ≡ some id → IsPlain id

pub insert-IsLinked :
    (id : String) (e : Entity) (g : Graph)
    → IsPlain id
    → IsLinked g
    → IsLinked (record g { entities = insert id e g.entities })
insert-IsLinked id e g plain l = record {
  plain_ids = λ j h. elim (contains-insert_cases id j e g.entities h) [
    | inl old ↦ l.plain_ids j old
    | inr new ↦ subst IsPlain new plain
  ];
  edge = λ k f h.
      let known = l.edge k f h in
      record {
        keyed = known.keyed;
        plain_kind = known.plain_kind;
        from_present = contains-insert_old id f.from_id e g.entities known.from_present;
        to_present = contains-insert_old id f.to_id e g.entities known.to_present;
      };
  outward = l.outward;
  inward = l.inward;
}

-- `upsertEntity` of a plain id keeps the graph linked.
pub upsert_entity-IsLinked :
    (input : EntityInput) → PlainInput input → Preserves IsLinked (upsert_entity input)
unfolding upsert_entity
upsert_entity-IsLinked input plain = record {
  keep = λ g l. elim (Bool-cases (input.type == "")) [
    | inl untyped ↦ rw (upsert_entity, untyped) l
    | inr typed ↦ elim (Option-cases (id_of input.id)) [
      | inl missing ↦ rw (upsert_entity, typed, missing) l
      | inr (id, known) ↦
          rw (upsert_entity, typed, known)
            (insert-IsLinked id (merged (lookup id g.entities) id input) g (plain id known) l)
    ]
  ];
}

pub empty-IsLinked : IsLinked empty
empty-IsLinked = record {
  plain_ids = λ id h. cc;
  edge = λ k e h. cc;
  outward = record { sound = λ id k h. absurd h; complete = λ k e h. cc };
  inward = record { sound = λ id k h. absurd h; complete = λ k e h. cc };
}

pub clear-IsLinked : Preserves IsLinked clear
unfolding clear
clear-IsLinked = record { keep = λ g l. empty-IsLinked }
