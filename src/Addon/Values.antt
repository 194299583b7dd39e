-- ===== src/Addon/Values.antt =====
-- The values of an addon: `MergeValues`, `deepMerge` and `ValidateVariables` of values.go.
use cluster_api_provider_bar.Prelude.{
  String, Text, Bool, true, false, not, ◌&&◌, ◌||◌, Option, none, some, List, [], ◌∷◌, ◌==◌,
  string_eq, text_eq, if◌then◌else◌, is_empty, find?, any, all,
}

-- A value of encoding/json; an object is the list of its fields.
mutual
  pub data Json : Type 0 where
    null : Json
    boolean : Bool → Json
    number : String → Json
    string : String → Json
    array : Items → Json
    object : Fields → Json

  pub data Items : Type 0 where
    no_items : Items
    item : Json → Items → Items

  pub data Fields : Type 0 where
    no_fields : Fields
    field : (name : Text) → Json → Fields → Fields

unfoldable pub get_field : Text → Fields → Option Json
get_field k no_fields = none
get_field k (field name v rest) = if name == k then some v else get_field k rest

unfoldable pub put_field : Text → Json → Fields → Fields
put_field k v no_fields = field k v no_fields
put_field k v (field name old rest) =
    let below = put_field k v rest in if name == k then field name v rest else field name old below

unfoldable mutual
  -- Where both are objects their fields are merged, otherwise the second value is taken.
  pub deep_merge : Json → Json → Json
  deep_merge (object base) (object override) = object (merge_fields base override)
  deep_merge base override = override

  -- The loop over the fields of the second object.
  pub merge_fields : Fields → Fields → Fields
  merge_fields result no_fields = result
  merge_fields result (field k v rest) =
      merge_fields
        (put_field k
          (elim (get_field k result) [ none ↦ v | some existing ↦ deep_merge existing v ]) result)
        rest

-- What becomes of a value, if there is one, under an override.
abbrev pub merge_value : Option Json → Json → Json
merge_value none v = v
merge_value (some existing) v = deep_merge existing v

-- What a value that cannot be decoded, or is absent, leaves unchanged.
abbrev merge_decoded : Option Json → Text → Fields → Fields
merge_decoded none k result = result
merge_decoded (some v) k result = put_field k (merge_value (get_field k result) v) result

module _ (unmarshal : String → Option Json) where
  unfoldable pub apply_defaults : Fields → List (Text × String) → Fields
  apply_defaults result [] = result
  apply_defaults result ((k, raw) ∷ defaults) = elim (unmarshal raw) [
    | none ↦ apply_defaults result defaults
    | some v ↦ apply_defaults (put_field k v result) defaults
  ]

  unfoldable pub apply_overrides : Fields → List (Text × String) → Fields
  apply_overrides result [] = result
  apply_overrides result ((k, raw) ∷ overrides) =
      apply_overrides (merge_decoded (unmarshal raw) k result) overrides

  unfoldable pub merge_values : (defaults overrides : List (Text × String)) → Fields
  merge_values defaults overrides = apply_overrides (apply_defaults no_fields defaults) overrides

pub record AddonVariable : Type 0 where
  pub name : Text
  pub type : String
  pub required : Bool
  pub enum : List String

unfoldable pub validate_type : Json → (expected : String) → Bool
validate_type (string _) expected =
    not (expected == "number" || expected == "boolean" || expected == "object")
validate_type (number _) expected =
    not (expected == "string" || expected == "boolean" || expected == "object")
validate_type (boolean _) expected =
    not (expected == "string" || expected == "number" || expected == "object")
validate_type (object _) expected =
    not (expected == "string" || expected == "number" || expected == "boolean")
validate_type _ expected =
    not (
      expected == "string" || expected == "number" || expected == "boolean" || expected == "object")

unfoldable pub find_variable : List AddonVariable → Text → Option AddonVariable
find_variable vars name = find? (λ v. v.name == name) vars

abbrev pub is_provided : List (Text × String) → AddonVariable → Bool
is_provided values v = not v.required || any (λ e. e.0 == v.name) values

-- A value without a definition passes.
unfoldable pub validate_value :
    (unmarshal : String → Option Json) → List AddonVariable → Text × String → Bool
validate_value unmarshal vars (name, raw) = elim (find_variable vars name) [
  | none ↦ true
  | some def ↦ elim (unmarshal raw) [
    | none ↦ false
    | some v ↦ validate_type v def.type && (is_empty def.enum || any (λ e. e == raw) def.enum)
  ]
]

unfoldable pub validate_variables :
    (unmarshal : String → Option Json) → List (Text × String) → List AddonVariable → Bool
validate_variables unmarshal values vars =
    all (is_provided values) vars && all (validate_value unmarshal vars) values
