-- ===== src/Values.antt =====
-- The JavaScript values that the relay finds in replicated records, as far as its code tells them
-- apart: `num` carries no more than what tells 0 from the other numbers and prints an index, and
-- the keys of an object are distinct.
use orbitdb_relay.Prelude.{
  ℕ, zero, suc, Text, text_eq, Bool, true, false, List, [], ◌∷◌, if◌then◌else◌,
}

mutual
  pub data Value : Type 0 where
    undefined null : Value
    bool : Bool → Value
    num : ℕ → Value
    str : Text → Value
    arr : Items → Value
    obj : Fields → Value

  pub data Items : Type 0 where
    nil : Items
    cons : Value → Items → Items

  pub data Fields : Type 0 where
    end : Fields
    field : Text → Value → Fields → Fields

unfoldable pub lookup : Text → Fields → Value
lookup k end = undefined
lookup k (field j v fs) = if text_eq j k then v else lookup k fs

-- `v?.k`
abbrev pub member : Text → Value → Value
member k (obj fs) = lookup k fs
member k _ = undefined

-- `a ?? b`
abbrev pub coalesce : Value → Value → Value
coalesce undefined b = b
coalesce null b = b
coalesce a b = a

-- `v ? true : false`
abbrev pub truthy : Value → Bool
truthy undefined = false
truthy null = false
truthy (bool b) = b
truthy (num zero) = false
truthy (num (suc n)) = true
truthy (str []) = false
truthy (str (c ∷ s)) = true
truthy (arr xs) = true
truthy (obj fs) = true

-- `v === t`
abbrev pub is_text : Text → Value → Bool
is_text t (str s) = text_eq s t
is_text t _ = false

unfoldable pub items : Items → List Value
items nil = []
items (cons v vs) = v ∷ items vs

-- `Object.values(v)`
unfoldable pub field_values : Fields → List Value
field_values end = []
field_values (field k v fs) = v ∷ field_values fs
