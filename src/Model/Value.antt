-- ===== src/Model/Value.antt =====
-- JavaScript values as the program's JSON documents hold them. A JSON number is an integer here:
-- the modelled code only tests numbers for truth and compares them. `undefined` is what a read of
-- an absent property yields.
use finalbuilds.Prelude.{
  String, zero, suc, Bool, true, false, not, List, [], ◌∷◌, Option, none, some, ◌==◌, if◌then◌else◌,
}
use finalbuilds.Prelude.Int.{ℤ, pos, negsuc}
use finalbuilds.Prelude.Dict.{Dict, lookup}

mutual
  pub data Value : Type 0 where
    undefined null : Value
    bool : Bool → Value
    num : ℤ → Value
    str : String → Value
    obj : Fields → Value
    arr : Items → Value

  pub data Fields : Type 0 where
    end : Fields
    field : String → Value → Fields → Fields

  pub data Items : Type 0 where
    nil : Items
    cons : Value → Items → Items

-- An object whose properties are read one by one.
abbrev pub Document : Type 0
Document = Dict Value

abbrev pub elements : Items → List Value
elements nil = []
elements (cons v xs) = v ∷ elements xs

abbrev pub entries : Fields → Document
entries end = []
entries (field k v fs) = (k, v) ∷ entries fs

abbrev pub items : List Value → Items
items [] = nil
items (v ∷ vs) = cons v (items vs)

abbrev pub fields : Document → Fields
fields [] = end
fields ((k, v) ∷ d) = field k v (fields d)

-- `d.k`
abbrev pub get : String → Document → Value
get k d = elim (lookup k d) [ none ↦ undefined | some v ↦ v ]

-- `v.k`; a read of `undefined` or `null` is guarded by `?.` wherever the source does it.
abbrev pub prop : String → Value → Value
prop k (obj fs) = get k (entries fs)
prop k v = undefined

-- `!!v`
abbrev pub truthy : Value → Bool
truthy undefined = false
truthy null = false
truthy (bool b) = b
truthy (num (pos n)) = elim n [ zero ↦ false | suc _ ↦ true ]
truthy (num (negsuc n)) = true
truthy (str s) = not (s == "")
truthy (arr xs) = true
truthy (obj fs) = true

-- `v ?? w`
abbrev pub or_nullish : Value → Value → Value
or_nullish undefined w = w
or_nullish null w = w
or_nullish v w = v

-- `v || w`
abbrev pub or_falsy : Value → Value → Value
or_falsy v w = if truthy v then v else w

-- `v ?? []`, read as an array; what is no array has no elements here.
abbrev pub array : Value → List Value
array (arr xs) = elements xs
array v = []

-- `v !== undefined`
abbrev pub defined : Value → Bool
defined undefined = false
defined v = true

-- The text of a value that is one.
abbrev pub text? : Value → Option String
text? (str s) = some s
text? v = none
