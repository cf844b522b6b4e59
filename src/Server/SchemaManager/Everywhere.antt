-- ===== src/Server/SchemaManager/Everywhere.antt =====
-- GraphQLSchemaManager.ts: the loops over all types of a schema and all their fields.
use graphqlade.Common.{
  String, ◌≡◌, refl, ap, ◌∙◌, Bool, true, false, Option, none, some, [], ◌∷◌, string_eq,
  if◌then◌else◌, arith,
}
use graphqlade.Common.Map
use graphqlade.Common.Map.{Map}
use graphqlade.Server.SchemaManager.{
  SchemaField, NamedType, object_type, interface_type, union_type, enum_type, scalar_type,
  input_type, Types, is_hidden, interfaces_of, fields_of,
}
use graphqlade.Server.SchemaManager.Overriding.{option_map}

-- A loop over the entries of an object that mutates each value.
unfoldable pub map_entries : {V : Type 0} → (String → V → V) → Map String V → Map String V
map_entries f [] = []
map_entries f ((name, v) ∷ m) = (name, f name v) ∷ map_entries f m

get-map_entries :
    {V : Type 0} (f : String → V → V) (name : String) (m : Map String V)
    → Map.get name (map_entries f m) ≡ option_map (f name) (Map.get name m)
unfolding map_entries Map.get
get-map_entries f name [] = refl
get-map_entries f name ((n, v) ∷ m) =
    ground (arith, get-map_entries f name m, string_eq.equal_iff n name)

option_map_id : {A : Type 0} (o : Option A) → o ≡ option_map (λ a. a) o
option_map_id none = refl
option_map_id (some a) = refl

module _ {F : Type 0} where
  abbrev pub update_fields : (String → SchemaField F → SchemaField F) → NamedType F → NamedType F
  update_fields f (object_type members is g) = object_type (map_entries f members) is g
  update_fields f (interface_type members is g) = interface_type (map_entries f members) is g
  update_fields f type = type

  -- All types but those of introspection.
  unfoldable pub update_types : (String → SchemaField F → SchemaField F) → Types F → Types F
  unfolding map_entries
  update_types f types =
      map_entries (λ name type. if is_hidden name then type else update_fields f type) types

  abbrev pub field_in : String → Option (NamedType F) → Option (SchemaField F)
  field_in f none = none
  field_in f (some type) = Map.get f (fields_of type)

  -- A field of a type, by their names.
  abbrev pub field_at : String → String → Types F → Option (SchemaField F)
  field_at type f types = field_in f (Map.get type types)

  pub get-update_fields :
      (f : String → SchemaField F → SchemaField F) (name : String) (type : NamedType F)
      → Map.get name (fields_of (update_fields f type))
        ≡ option_map (f name) (Map.get name (fields_of type))
  unfolding Map.get
  get-update_fields f name (object_type members is g) = get-map_entries f name members
  get-update_fields f name (interface_type members is g) = get-map_entries f name members
  get-update_fields f name (union_type g) = refl
  get-update_fields f name (enum_type vs c) = refl
  get-update_fields f name (scalar_type c) = refl
  get-update_fields f name input_type = refl

  pub interfaces_of-update_fields :
      (f : String → SchemaField F → SchemaField F) (type : NamedType F)
      → interfaces_of (update_fields f type) ≡ interfaces_of type
  interfaces_of-update_fields f (object_type members is g) = refl
  interfaces_of-update_fields f (interface_type members is g) = refl
  interfaces_of-update_fields f (union_type g) = refl
  interfaces_of-update_fields f (enum_type vs c) = refl
  interfaces_of-update_fields f (scalar_type c) = refl
  interfaces_of-update_fields f input_type = refl

  pub get-update_types :
      (f : String → SchemaField F → SchemaField F) (name : String) (types : Types F)
      → Map.get name (update_types f types)
        ≡ option_map
            (λ type. if is_hidden name then type else update_fields f type)
            (Map.get name types)
  unfolding update_types
  get-update_types f name types =
      get-map_entries (λ n t. if is_hidden n then t else update_fields f t) name types

  field_in-updated :
      (f : String → SchemaField F → SchemaField F) (hidden : Bool) (name : String)
      (o : Option (NamedType F))
      → field_in name (option_map (λ type. if hidden then type else update_fields f type) o)
        ≡ option_map (λ field. if hidden then field else f name field) (field_in name o)
  field_in-updated f hidden name none = refl
  field_in-updated f true name (some type) = option_map_id (Map.get name (fields_of type))
  field_in-updated f false name (some type) = get-update_fields f name type

  pub field_at-update_types :
      (f : String → SchemaField F → SchemaField F) (type name : String) (types : Types F)
      → field_at type name (update_types f types)
        ≡ option_map
            (λ field. if is_hidden type then field else f name field)
            (field_at type name types)
  unfolding update_types
  field_at-update_types f type name types =
      ap (field_in name)
        (get-map_entries (λ n t. if is_hidden n then t else update_fields f t) type types)
      ∙ field_in-updated f (is_hidden type) name (Map.get type types)
