-- ===== src/Graph/InMemory.antt =====
-- `InMemoryGraphStore` (src/graph/inmemory.js): the four maps and each method. Ids are texts; an id
-- of another kind is refused like a missing one.
use finalbuilds.Prelude.{
  String, Bool, true, ◌||◌, Option, none, some, List, [], ◌∷◌, ◌++◌, ◌==◌, if◌then◌else◌, keep,
}
use finalbuilds.Prelude.Text.{includes, ◌<+>◌}
use finalbuilds.Prelude.Dict.{Dict, lookup, contains, insert, merge, values}
use finalbuilds.Prelude.Exec.{Exec, ok, err}
use finalbuilds.Model.Value.{Value, undefined, str, Document}

-- `document` is the source's field `data`.
pub record Entity : Type 0 where
  pub id : String
  pub type : String
  pub name : Value
  pub document : Document

pub record Edge : Type 0 where
  pub from_id : String
  pub kind : String
  pub to_id : String
  pub props : Document

-- What a caller hands to `upsertEntity`; its `name` is `none` where the input has no such property.
pub record EntityInput : Type 0 where
  pub id : Value
  pub type : String
  pub name : Option Value
  pub document : Document

-- The values of `outEdges` and `inEdges` are sets: arrays with no key twice.
pub record Graph : Type 0 where
  pub entities : Dict Entity
  pub edges : Dict Edge
  pub out_edges : Dict (List String)
  pub in_edges : Dict (List String)

pub data GraphError : Type 0 where
  entity_requires_id_and_type : GraphError
  link_endpoints_must_exist : Value → Value → GraphError

abbrev pub Action : Type 0 → Type 0
Action = Exec Graph GraphError

abbrev pub empty : Graph
empty = record { entities = []; edges = []; out_edges = []; in_edges = [] }

-- An id that passes `!entity?.id`.
abbrev pub id_of : Value → Option String
id_of (str s) = if s == "" then none else some s
id_of v = none

abbrev pub previous_document : Option Entity → Document
previous_document none = []
previous_document (some e) = e.document

-- The name that the two spreads leave: the input's where it has the property, else the older one.
abbrev pub merged_name : Option Entity → Option Value → Value
merged_name previous (some v) = v
merged_name none none = undefined
merged_name (some e) none = e.name

-- `{ ...previous, ...entity, data: { ...previous.data, ...entity.data } }`
unfoldable pub merged : Option Entity → String → EntityInput → Entity
merged previous id input = record {
  id = id;
  type = input.type;
  name = merged_name previous input.name;
  document = merge (previous_document previous) input.document;
}

unfoldable pub upsert_entity : EntityInput → Action Entity
upsert_entity input g = elim (if input.type == "" then none else id_of input.id) [
  | none ↦ (err entity_requires_id_and_type, g)
  | some id ↦
      let e = merged (lookup id g.entities) id input in
      (ok e, record g { entities = insert id e g.entities })
]

abbrev pub get_entity : String → Graph → Option Entity
get_entity id g = lookup id g.entities

-- The text of an id that the graph has.
unfoldable pub present : Graph → Value → Option String
present g (str s) = if contains s g.entities then some s else none
present g v = none

abbrev pub separator : String
separator = "\u{1f}"

unfoldable pub edge_key : String → String → String → String
edge_key from kind to = from <+> (separator <+> (kind <+> (separator <+> to)))

-- The set of keys that an index holds for an id.
abbrev pub bucket : String → Dict (List String) → List String
bucket id index = elim (lookup id index) [ none ↦ [] | some keys ↦ keys ]

abbrev pub add_key : String → List String → List String
add_key key keys = if includes keys key then keys else keys ++ key ∷ []

unfoldable pub add_index : Dict (List String) → String → String → Dict (List String)
add_index index id key = insert id (add_key key (bucket id index)) index

-- The write of `link`, its endpoints given.
unfoldable pub connect : String → String → String → Document → Graph → Graph
connect from kind to props g =
    let key = edge_key from kind to in
    record g {
      edges =
          insert key (record { from_id = from; kind = kind; to_id = to; props = props }) g.edges;
      out_edges = add_index g.out_edges from key;
      in_edges = add_index g.in_edges to key;
    }

unfoldable pub link : Value → String → Value → Document → Action Edge
link from kind to props g = elim (present g from) [
  | none ↦ (err (link_endpoints_must_exist from to), g)
  | some a ↦ elim (present g to) [
    | none ↦ (err (link_endpoints_must_exist from to), g)
    | some b ↦ (
      ok (record { from_id = a; kind = kind; to_id = b; props = props }),
      connect a kind b props g,
    )
  ]
]

pub data Direction : Type 0 where
  outgoing incoming both : Direction

pub record Neighbor : Type 0 where
  pub edge : Edge
  pub entity : Entity

-- `allowed`: no list of kinds allows all.
abbrev pub allows : Option (List String) → String → Bool
allows none kind = true
allows (some kinds) kind = includes kinds kind

abbrev push_neighbor : Option Entity → Edge → Option (List Neighbor) → Option (List Neighbor)
push_neighbor (some v) e (some hits) = some (record { edge = e; entity = v } ∷ hits)
push_neighbor _ _ _ = none

abbrev pub visit_key :
    Graph
    → Option (List String)
    → (Edge → String)
    → Option Edge
    → Option (List Neighbor)
    → Option (List Neighbor)
visit_key g kinds far none rest = none
visit_key g kinds far (some e) rest =
    if allows kinds e.kind then push_neighbor (lookup (far e) g.entities) e rest else rest

-- One loop of `neighbors` over an index; `none` is the TypeError of a key that has no edge, or of
-- a neighbour that has no entity, whose id every caller reads at once.
unfoldable pub gather :
    Graph → Option (List String) → (Edge → String) → List String → Option (List Neighbor)
gather g kinds far [] = some []
gather g kinds far (k ∷ ks) = visit_key g kinds far (lookup k g.edges) (gather g kinds far ks)

abbrev pub append? : Option (List Neighbor) → Option (List Neighbor) → Option (List Neighbor)
append? (some xs) (some ys) = some (xs ++ ys)
append? _ _ = none

unfoldable pub neighbors :
    String → Direction → Option (List String) → Graph → Option (List Neighbor)
unfolding gather
neighbors id outgoing kinds g = gather g kinds (λ e. e.to_id) (bucket id g.out_edges)
neighbors id incoming kinds g = gather g kinds (λ e. e.from_id) (bucket id g.in_edges)
neighbors id both kinds g =
    append? (gather g kinds (λ e. e.to_id) (bucket id g.out_edges))
      (gather g kinds (λ e. e.from_id) (bucket id g.in_edges))

abbrev has_type : Option String → Entity → Bool
has_type none e = true
has_type (some t) e = t == "" || e.type == t

-- `findEntities({ type, where })`; `where` of the source is `choose`, `λ _. true` where it is null.
unfoldable pub find_entities : Option String → (Entity → Bool) → Graph → List Entity
find_entities type choose g = keep choose (keep (has_type type) (values g.entities))

unfoldable pub clear : Action (Unit {0})
clear g = (ok tt, empty)
