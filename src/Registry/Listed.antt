-- ===== src/Registry/Listed.antt =====
-- What is registered is found (src/registry/capability-registry.js).
use finalbuilds.Prelude.{
  suc, String, Bool, true, false, Option, none, some, List, [], ◌∷◌, ◌≡◌, refl, sym, ap, ◌∙◌, All,
  length, inl, inr, eq-cases,
}
use finalbuilds.Prelude.Dict.{insert, contains, lookup-insert_self, lookup-insert_ne}
use finalbuilds.Model.Value.{Document}
use finalbuilds.Registry.Capabilities.{Registry, id_of, entry_of, register, import_all}

contains-register :
    (now id : String) (c : Document) (r : Registry)
    → contains id r ≡ true
    → contains id (register now c r).1 ≡ true
unfolding register
contains-register now id c r h = elim (eq-cases (id_of c) id) [
  | inl (same, test) ↦
      ap (λ k. contains k (insert (id_of c) (entry_of now c) r)) (sym same)
      ∙ found (lookup-insert_self (id_of c) (entry_of now c) r)
  | inr (differ, test) ↦
      ap (λ o. is_some o) (lookup-insert_ne (id_of c) id (entry_of now c) r differ) ∙ h
]
  where
    is_some : Option Document → Bool
    is_some none = false
    is_some (some d) = true

    found : {o : Option Document} → o ≡ some (entry_of now c) → is_some o ≡ true
    found e = ap is_some e

contains-register_self :
    (now : String) (c : Document) (r : Registry) → contains (id_of c) (register now c r).1 ≡ true
unfolding register
contains-register_self now c r =
    ap (λ (o : Option Document). elim o [ none ↦ false | some _ ↦ true ])
      (lookup-insert_self (id_of c) (entry_of now c) r)

contains-import_all :
    (now id : String) (cs : List Document) (r : Registry)
    → contains id r ≡ true
    → contains id (import_all now cs r).1 ≡ true
unfolding import_all
contains-import_all now id [] r h = h
contains-import_all now id (c ∷ cs) r h =
    contains-import_all now id cs (register now c r).1 (contains-register now id c r h)

-- An import counts the capabilities it is given, and each of them is then in the registry under its id.
pub import_all_registers :
    (now : String) (cs : List Document) (r : Registry)
    → ((import_all now cs r).0 ≡ length cs)
      × All (λ c. contains (id_of c) (import_all now cs r).1 ≡ true) cs
unfolding import_all register
import_all_registers now [] r = (refl, tt)
import_all_registers now (c ∷ cs) r =
    let (counted, there) = import_all_registers now cs (register now c r).1 in
    (
      ap suc counted,
      (
        contains-import_all now (id_of c) cs (register now c r).1 (contains-register_self now c r),
        there,
      ),
    )
