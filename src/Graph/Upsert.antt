-- ===== src/Graph/Upsert.antt =====
-- What `upsertEntity` (src/graph/inmemory.js) stores: the newer document over the older one.
use finalbuilds.Prelude.{
  String, false, ◌≡◌, refl, sym, ap, ◌∙◌, Option, none, some, [], ◌∷◌, ◌==◌, arith, eq_refl,
  if◌then◌else◌,
}
use finalbuilds.Prelude.Dict.{Dict, lookup, insert, merge, lookup-insert}
use finalbuilds.Prelude.Exec.{ok}
use finalbuilds.Model.Value.{Value, Document}
use finalbuilds.Graph.InMemory.{
  Graph, Entity, EntityInput, id_of, merged, previous_document, upsert_entity,
}

module _ {V : Type 0} where
  -- The last entry of a key, which is the one that a spread leaves.
  abbrev pub last_of : String → Dict V → Option V
  last_of j [] = none
  last_of j ((k, v) ∷ d) = elim (last_of j d) [
    | none ↦ if k == j then some v else none
    | some w ↦ some w
  ]

  abbrev pub or_else : Option V → Option V → Option V
  or_else none o = o
  or_else (some v) o = some v

  pub lookup-merge :
      (j : String) (d e : Dict V) → lookup j (merge d e) ≡ or_else (last_of j e) (lookup j d)
  lookup-merge j d [] = refl
  lookup-merge j d ((k, v) ∷ e) =
      ground (arith, lookup-merge j (insert k v d) e, lookup-insert k j v d)

-- The document that the graph has for an id.
unfoldable pub document_of : String → Graph → Document
document_of id g = previous_document (lookup id g.entities)

document_of-some :
    (id : String) (g : Graph) (e : Entity)
    → lookup id g.entities ≡ some e
    → document_of id g ≡ e.document
unfolding document_of
document_of-some id g e found = rw found

or_else_twice : {V : Type 0} (o p : Option V) → or_else o (or_else o p) ≡ or_else o p
or_else_twice none p = refl
or_else_twice (some v) p = refl

module _ (input : EntityInput) (id : String) (known : id_of input.id ≡ some id)
    (typed : (input.type == "") ≡ false) where
  -- An upsert of an input with an id and a type returns the entity that it stores: the input's type;
  -- the input's name where the input has the property, else the name that the graph had for the id;
  -- and a document in which the input's properties win and the older ones stay. Every other entity,
  -- and all edges, are as before.
  pub upsert_entity_stores :
      (g : Graph)
      → let (r, h) = upsert_entity input g in
        (e : Entity) × (r ≡ ok e)
        × (e.type ≡ input.type)
        × ((v : Value) → input.name ≡ some v → e.name ≡ v)
        × ((d : Entity) → input.name ≡ none → lookup id g.entities ≡ some d → e.name ≡ d.name)
        × ((j : String)
            → lookup j e.document
              ≡ or_else (last_of j input.document) (lookup j (document_of id g)))
        × ((j : String) → lookup j h.entities ≡ (if id == j then some e else lookup j g.entities))
        × (h.edges ≡ g.edges)
  unfolding upsert_entity merged document_of
  upsert_entity_stores g = (
    merged (lookup id g.entities) id input,
    rw (upsert_entity, typed, known) refl,
    refl,
    λ v given. rw given,
    λ d missing known_as. rw (missing, known_as),
    λ j. lookup-merge j (document_of id g) input.document,
    λ j. rw (upsert_entity, typed, known) (lookup-insert id j _ g.entities),
    rw (upsert_entity, typed, known) refl,
  )

  -- A second upsert of the same input leaves every property of the document as the first did.
  upsert_entity_twice :
      (g : Graph) (j : String)
      → let h = (upsert_entity input g).1 in
        lookup j (document_of id (upsert_entity input h).1) ≡ lookup j (document_of id h)
  upsert_entity_twice g j =
      let h = (upsert_entity input g).1 in
      let (e, _, _, _, _, doc, first, _) = upsert_entity_stores g in
      let (f, _, _, _, _, again, second, _) = upsert_entity_stores h in
      ap (lookup j) (document_of-some id (upsert_entity input h).1 f (second id ∙ rw (eq_refl id)))
      ∙ again j
      ∙ ap (λ d. or_else (last_of j input.document) (lookup j d))
          (document_of-some id h e (first id ∙ rw (eq_refl id)))
      ∙ ap (or_else (last_of j input.document)) (doc j)
      ∙ or_else_twice (last_of j input.document) (lookup j (document_of id g))
      ∙ sym (doc j)
      ∙ ap (lookup j) (sym (document_of-some id h e (first id ∙ rw (eq_refl id))))
