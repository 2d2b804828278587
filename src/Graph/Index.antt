-- ===== src/Graph/Index.antt =====
-- What links the four maps of the in-memory graph (src/graph/inmemory.js), and the facts on keys
-- and index buckets that keep them linked.
use Prim.Native.Char.{Char}
use text.Mathlib.TextLemmas.{nil-append, cons-append}
use finalbuilds.Prelude.{
  String, true, ◌≡◌, refl, sym, ap, ◌∙◌, ◌≢◌, ◌⊎◌, inl, inr, some, List, [], ◌∷◌, eq_iff, arith, In,
  In-append_left, In-append_right, In-append_cases, Bool-cases, eq-cases,
}
use finalbuilds.Prelude.Text.{includes, ◌<+>◌, Lacks, split_unique}
use finalbuilds.Prelude.Dict.{Dict, lookup, contains, lookup-insert, lookup-insert_ne}
use finalbuilds.Graph.InMemory.{
  Graph, Entity, Edge, separator, edge_key, bucket, add_key, add_index,
}

abbrev pub separator_char : Char
separator_char = "\u{1f}"

-- The text can stand in a key without hiding where its part ends.
abbrev pub IsPlain : String → Type 0
IsPlain = Lacks separator_char

separator-append : (s : String) → separator <+> s ≡ String.◌∷◌ separator_char s
separator-append s = cons-append separator_char "" s ∙ ap (String.◌∷◌ separator_char) (nil-append s)

key_form :
    (a k b : String)
    → edge_key a k b ≡ a <+> String.◌∷◌ separator_char (k <+> String.◌∷◌ separator_char b)
unfolding edge_key
key_form a k b =
    ap (◌<+>◌ a)
      (separator-append _ ∙ ap (λ s. String.◌∷◌ separator_char (k <+> s)) (separator-append b))

-- Two plain triples with one key are one triple.
pub edge_key_inj :
    (a k b a' k' b' : String)
    → IsPlain a
    → IsPlain k
    → IsPlain a'
    → IsPlain k'
    → edge_key a k b ≡ edge_key a' k' b'
    → (a ≡ a') × (k ≡ k') × (b ≡ b')
edge_key_inj a k b a' k' b' pa pk pa' pk' e =
    let first =
      split_unique separator_char a a' _ _ pa pa' (sym (key_form a k b) ∙ e ∙ key_form a' k' b') in
    let second = split_unique separator_char k k' b b' pk pk' first.1 in
    (first.0, second.0, second.1)

pub In-of_includes : (s : String) (xs : List String) → includes xs s ≡ true → In s xs
In-of_includes s [] h = cc
In-of_includes s (x ∷ xs) h = elim (eq-cases x s) [
  | inl same ↦ inl (sym same.0)
  | inr differ ↦ inr (In-of_includes s xs (ground arith))
]

pub includes-of_In : (s : String) (xs : List String) → In s xs → includes xs s ≡ true
includes-of_In s [] h = absurd h
includes-of_In s (x ∷ xs) (inl e) = ground (arith, eq_iff x s)
includes-of_In s (x ∷ xs) (inr h) = ground (arith, includes-of_In s xs h)

pub In-add_key_self : (k : String) (xs : List String) → In k (add_key k xs)
In-add_key_self k xs = elim (Bool-cases (includes xs k)) [
  | inl old ↦ rw old (In-of_includes k xs old)
  | inr new ↦ rw new (In-append_right k xs (k ∷ []) (inl refl))
]

pub In-add_key_old : (j k : String) (xs : List String) → In j xs → In j (add_key k xs)
In-add_key_old j k xs h = elim (Bool-cases (includes xs k)) [
  | inl old ↦ rw old h
  | inr new ↦ rw new (In-append_left j xs (k ∷ []) h)
]

pub In-add_key_cases : (j k : String) (xs : List String) → In j (add_key k xs) → In j xs ⊎ (j ≡ k)
In-add_key_cases j k xs h = elim (Bool-cases (includes xs k)) [
  | inl old ↦ inl (rw old at h)
  | inr new ↦ elim (In-append_cases j xs (k ∷ []) (rw new at h)) [
    | inl l ↦ inl l
    | inr (inl e) ↦ inr e
    | inr (inr n) ↦ absurd n
  ]
]

pub bucket-add_index_self :
    (index : Dict (List String)) (id k : String)
    → bucket id (add_index index id k) ≡ add_key k (bucket id index)
unfolding add_index
bucket-add_index_self index id k =
    ground (arith, lookup-insert id id (add_key k (bucket id index)) index, eq_iff id id)

pub bucket-add_index_ne :
    (index : Dict (List String)) (id j k : String)
    → id ≢ j
    → bucket j (add_index index id k) ≡ bucket j index
unfolding add_index
bucket-add_index_ne index id j k h =
    ground (arith, lookup-insert_ne id j (add_key k (bucket id index)) index h)

module _ (index : Dict (List String)) (i k : String) where
  pub In-add_index_self : In k (bucket i (add_index index i k))
  In-add_index_self = rw (bucket-add_index_self index i k) (In-add_key_self k (bucket i index))

  pub In-add_index_old :
      (j id : String) → In j (bucket id index) → In j (bucket id (add_index index i k))
  In-add_index_old j id h = elim (eq-cases i id) [
    | inl same ↦
        rw (← same.0, bucket-add_index_self index i k)
          (In-add_key_old j k (bucket i index) (rw (← same.0) at h))
    | inr differ ↦ rw (bucket-add_index_ne index i id k differ.0) h
  ]

  pub In-add_index_cases :
      (j id : String)
      → In j (bucket id (add_index index i k))
      → In j (bucket id index) ⊎ ((j ≡ k) × (i ≡ id))
  In-add_index_cases j id h = elim (eq-cases i id) [
    | inl same ↦
        elim (In-add_key_cases j k (bucket i index)
          (rw (bucket-add_index_self index i k) at (rw (← same.0) at h))) [
            | inl old ↦ inl (rw (← same.0) old)
            | inr new ↦ inr (new, same.0)
          ]
    | inr differ ↦ inl (rw (bucket-add_index_ne index i id k differ.0) at h)
  ]

-- The index over `ends` (the `from` or the `to` of an edge) holds exactly the keys of the edges.
pub record Indexes (ends : Edge → String) (edges : Dict Edge) (index : Dict (List String))
    : Type 0 where
  pub sound :
      (id k : String)
      → In k (bucket id index)
      → (e : Edge) × (lookup k edges ≡ some e) × (ends e ≡ id)
  pub complete : (k : String) (e : Edge) → lookup k edges ≡ some e → In k (bucket (ends e) index)

-- The stored key of an edge is its own, and its endpoints are entities.
pub record IsEdge (entities : Dict Entity) (k : String) (e : Edge) : Type 0 where
  pub keyed : k ≡ edge_key e.from_id e.kind e.to_id
  pub plain_kind : IsPlain e.kind
  pub from_present : contains e.from_id entities ≡ true
  pub to_present : contains e.to_id entities ≡ true

pub record IsLinked (g : Graph) : Type 0 where
  pub plain_ids : (id : String) → contains id g.entities ≡ true → IsPlain id
  pub edge : (k : String) (e : Edge) → lookup k g.edges ≡ some e → IsEdge g.entities k e
  pub outward : Indexes (λ e. e.from_id) g.edges g.out_edges
  pub inward : Indexes (λ e. e.to_id) g.edges g.in_edges
