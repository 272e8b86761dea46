-- ===== src/Protocol/Json.antt =====
-- JSON as the gateway sees it: `serde_json::Value`, a type of the serde_json crate. The numbers
-- that the gateway reads are naturals or the negative codes of JSON-RPC.
use acp_a2a_gateway.Prelude.{
  ℕ, String, ◌≡◌, refl, Bool, Option, none, some, List, [], ◌∷◌, ◌=ˢ◌, if◌then◌else◌,
}

mutual
  pub data Value : Type 0 where
    null : Value
    bool : Bool → Value
    num : ℕ → Value
    neg : ℕ → Value
    str : String → Value
    arr : Items → Value
    obj : Fields → Value

  -- the entries of an object, in their order
  pub data Fields : Type 0 where
    end : Fields
    field : String → Value → Fields → Fields

  -- the elements of an array
  pub data Items : Type 0 where
    nil : Items
    cons : Value → Items → Items

abbrev pub field? : String → Fields → Option Value
field? k end = none
field? k (field j v fs) = if j =ˢ k then some v else field? k fs

-- value.get(key): nothing unless the value is an object that has the key
abbrev pub get : Value → String → Option Value
get (obj fs) k = field? k fs
get _ k = none

abbrev pub as_str : Value → Option String
as_str (str s) = some s
as_str _ = none

abbrev pub as_bool : Value → Option Bool
as_bool (bool b) = some b
as_bool _ = none

abbrev pub as_u64 : Value → Option ℕ
as_u64 (num n) = some n
as_u64 _ = none

abbrev pub to_list : Items → List Value
to_list nil = []
to_list (cons v vs) = v ∷ to_list vs

abbrev pub of_list : List Value → Items
of_list [] = nil
of_list (v ∷ vs) = cons v (of_list vs)

abbrev pub as_array : Value → Option (List Value)
as_array (arr vs) = some (to_list vs)
as_array _ = none

-- json!(option): `null` for `None`
abbrev pub or_null : Option Value → Value
or_null none = null
or_null (some v) = v

abbrev pub str_or_null : Option String → Value
str_or_null none = null
str_or_null (some s) = str s

pub to_list-of_list : (vs : List Value) → to_list (of_list vs) ≡ vs
to_list-of_list [] = refl
to_list-of_list (v ∷ vs) = λ i. v ∷ to_list-of_list vs i
