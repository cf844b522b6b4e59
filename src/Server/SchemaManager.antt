-- ===== src/Server/SchemaManager.antt =====
-- src/server/GraphQLSchemaManager.ts over the named types of a schema. Setting a resolver mutates the
-- types: the code is modelled as functions from the types to the types and a result, so that what
-- was set before an exception stays set.
pub mod Overriding
pub mod Updates
pub mod Kinds
pub mod Precedence
pub mod Rounds
pub mod Known
pub mod Alike
pub mod Acceptance
pub mod Everywhere
pub mod Defaults
pub mod ErrorHandling
mod Tests
use graphqlade.Common.{
  String, Bool, true, false, Option, none, some, List, [], ◌∷◌, concat, if◌then◌else◌, ErrorClass,
  Thrown, error, Result, ok, thrown, plain_error, throw_type_error, ◌⊎◌, inl, inr, ◌===◌, string_eq,
}
use graphqlade.Common.Map
use graphqlade.Common.Map.{Map}
use text.Mathlib.Text.{starts_with}
use graphqlade.Util.ResolverMerging.{
  TypeResolver, scalar, enum, fields, Resolvers, ResolversInput, single, spread, merge_resolvers,
}
use graphqlade.Util.ResolverMerging.Lookup.{first_of}

-- A field of an object or interface type. `F` are the functions, and the values of enums; `none` is
-- `undefined`.
pub record SchemaField (F : Type 0) : Type 0 where
  pub resolve : Option F
  pub subscribe : Option F

-- The functions of an enum type or a scalar type.
pub record Codec (F : Type 0) : Type 0 where
  pub parse_literal : Option F
  pub parse_value : Option F
  pub serialize : Option F

-- An object or interface type has fields, interfaces, and `isTypeOf` or `resolveType`; an enum type
-- has the values of its config.
pub data NamedType (F : Type 0) : Type 0 where
  object_type interface_type : Map String (SchemaField F) → List String → Option F → NamedType F
  union_type : Option F → NamedType F
  enum_type : Map String (Option F) → Codec F → NamedType F
  scalar_type : Codec F → NamedType F
  input_type : NamedType F

-- What `getTypeMap` gives.
abbrev pub Types : Type 0 → Type 0
Types F = Map String (NamedType F)

abbrev pub SchemaResolver : Type 0 → Type 0
SchemaResolver F = TypeResolver (Codec F) (Codec F) (Option F)

abbrev pub SchemaResolvers : Type 0 → Type 0
SchemaResolvers F = Map String (SchemaResolver F)

abbrev pub SchemaInput : Type 0 → Type 0
SchemaInput F = ResolversInput (Codec F) (Codec F) (Option F)

-- `name.startsWith('__')`
abbrev pub is_hidden : String → Bool
is_hidden name = starts_with name "__"

-- `resolver.name`
abbrev pub property : {F : Type 0} → String → Map String (Option F) → Option F
property name m = elim (Map.get name m) [ none ↦ none | some value ↦ value ]

-- What mutates, and may throw on the way.
abbrev pub Change {ℓ} : Type ℓ → Type ℓ
Change S = S → S × Result (Unit {0})

abbrev pub go_on {ℓ} : {S : Type ℓ} → S × Result (Unit {0}) → Change S → S × Result (Unit {0})
go_on (s, ok done) next = next s
go_on (s, thrown e) next = (s, thrown e)

module _ {ℓ} {S : Type ℓ} {X : Type 0} where
  -- A loop that an exception ends.
  unfoldable pub each : (X → Change S) → List X → Change S
  each change [] s = (s, ok tt)
  each change (x ∷ xs) s = go_on (change x s) (each change xs)

abbrev pub undefined_type : String → Thrown
undefined_type name = error (record {
  class = ErrorClass.type_error;
  message = concat ("Cannot set resolver for undefined type " ∷ name ∷ []);
  code = none;
})

module _ {F : Type 0} where
  -- `field[resolveOrSubscribe] = value`, where `subscribes` tells the subscription type.
  abbrev pub put : Bool → Option F → SchemaField F → SchemaField F
  put subscribes value field =
      if subscribes then record field { subscribe = value } else record field { resolve = value }

  -- One round of the loop of `setFieldResolvers`, for the type of the name `type`.
  unfoldable pub set_field_resolver :
      Bool → String → String × Option F → Change (Map String (SchemaField F))
  set_field_resolver subscribes type (name, value) members =
      if is_hidden name then (members, ok tt) else elim (Map.get name members) [
        | none ↦ (
          members,
          throw_type_error
              (concat ("Cannot set field resolver for undefined field " ∷ type ∷ "." ∷ name ∷ [])),
        )
        | some field ↦ (Map.set name (put subscribes value field) members, ok tt)
      ]

  unfoldable pub set_field_resolvers :
      Bool → String → Map String (Option F) → Change (Map String (SchemaField F))
  unfolding set_field_resolver each
  set_field_resolvers subscribes type resolver = each (set_field_resolver subscribes type) resolver

  -- `config.values[key].value = resolver[key]`
  unfoldable pub set_enum_value : String × Option F → Change (Map String (Option F))
  set_enum_value (key, value) values = elim (Map.get key values) [
    | none ↦ (values, throw_type_error "Cannot set properties of undefined (setting 'value')")
    | some _ ↦ (Map.set key value values, ok tt)
  ]

  -- The fallback of `parseValue` is `type.parseLiteral`, which was just set.
  unfoldable pub set_resolvers_to_scalar_type : Codec F → Codec F → Codec F
  set_resolvers_to_scalar_type type resolver =
      let parse_literal = first_of resolver.parse_literal type.parse_literal in
      record {
        parse_literal = parse_literal;
        parse_value = first_of resolver.parse_value parse_literal;
        serialize = first_of resolver.serialize type.serialize;
      }

  abbrev pub set_resolvers_to_union_type : Option F → Map String (Option F) → Option F
  set_resolvers_to_union_type resolve_type resolver =
      first_of (property "__resolveType" resolver) resolve_type

  abbrev pub interfaces_of : NamedType F → List String
  interfaces_of (object_type members interfaces is_type_of) = interfaces
  interfaces_of (interface_type members interfaces resolve_type) = interfaces
  interfaces_of _ = []

  abbrev pub fields_of : NamedType F → Map String (SchemaField F)
  fields_of (object_type members interfaces is_type_of) = members
  fields_of (interface_type members interfaces resolve_type) = members
  fields_of _ = []

-- `type === this.schema.getSubscriptionType()`, for the names of the types.
abbrev pub is_subscription : Option String → String → Bool
is_subscription none type = false
is_subscription (some name) type = type === name

-- `own` gives the properties of a scalar type or an enum type, `new_enum` the functions of a new
-- `GraphQLEnumType` of these values, `not_scalar` what `assertScalarType` throws, and
-- `subscription` the name of the schema's subscription type.
module _ {F : Type 0} (own : Codec F ⊎ Codec F → Map String (Option F))
    (new_enum : Map String (Option F) → Codec F) (not_scalar : SchemaResolver F → Thrown)
    (subscription : Option String) where
  -- What follows the loop over the keys of a resolver that is no enum type.
  abbrev pub use_config :
      Map String (Option F)
      → Codec F
      → Map String (Option F) × Result (Unit {0})
      → NamedType F × Result (Unit {0})
  use_config values codec (config, ok done) = (enum_type values (new_enum config), ok tt)
  use_config values codec (config, thrown e) = (enum_type values codec, thrown e)

  unfoldable pub set_resolvers_to_enum_type :
      Map String (Option F) → Codec F → SchemaResolver F → NamedType F × Result (Unit {0})
  unfolding set_enum_value each
  set_resolvers_to_enum_type values codec (enum new) = (enum_type values new, ok tt)
  set_resolvers_to_enum_type values codec resolver =
      use_config values codec (each set_enum_value (spread own (some resolver)) values)

  -- `name` is the name of the type.
  unfoldable pub set_resolvers_to_type : String → SchemaResolver F → Change (NamedType F)
  unfolding set_field_resolvers set_resolvers_to_scalar_type set_resolvers_to_enum_type
  set_resolvers_to_type name resolver (object_type members interfaces is_type_of) =
      let m = spread own (some resolver) in
      let (members', result) =
        set_field_resolvers (is_subscription subscription name) name m members in
      (object_type members' interfaces (first_of (property "__isTypeOf" m) is_type_of), result)
  set_resolvers_to_type name resolver (interface_type members interfaces resolve_type) =
      let m = spread own (some resolver) in
      let (members', result) =
        set_field_resolvers (is_subscription subscription name) name m members in
      (
        interface_type members' interfaces (first_of (property "__resolveType" m) resolve_type),
        result,
      )
  set_resolvers_to_type name resolver (union_type resolve_type) =
      (union_type (set_resolvers_to_union_type resolve_type (spread own (some resolver))), ok tt)
  set_resolvers_to_type name resolver (enum_type values codec) =
      set_resolvers_to_enum_type values codec resolver
  set_resolvers_to_type name (scalar new) (scalar_type codec) =
      (scalar_type (set_resolvers_to_scalar_type codec new), ok tt)
  set_resolvers_to_type name resolver (scalar_type codec) =
      (scalar_type codec, thrown (not_scalar resolver))
  set_resolvers_to_type name resolver input_type =
      (input_type, thrown (error (plain_error (concat ("Cannot set resolver for " ∷ name ∷ [])))))

  -- `defined(this.schema.getType(name), …)`, and what is done to that type.
  unfoldable pub update_type : String → Change (NamedType F) → Change (Types F)
  update_type name change types = elim (Map.get name types) [
    | none ↦ (types, thrown (undefined_type name))
    | some type ↦ let (type', result) = change type in (Map.set name type' types, result)
  ]

  unfoldable pub set_own : String × SchemaResolver F → Change (Types F)
  unfolding update_type
  set_own (name, resolver) = update_type name (set_resolvers_to_type name resolver)

  unfoldable pub set_resolvers_without_inheritance : SchemaInput F → Change (Types F)
  unfolding merge_resolvers set_own each
  set_resolvers_without_inheritance resolvers = each set_own (merge_resolvers own resolvers)

  -- One round of the loop over the interfaces of the type of the name `name`.
  unfoldable pub inherit_from : SchemaResolvers F → String → String → Change (NamedType F)
  unfolding set_resolvers_to_type
  inherit_from resolvers name interface type = elim (Map.get interface resolvers) [
    | none ↦ (type, ok tt)
    | some resolver ↦ set_resolvers_to_type name resolver type
  ]

  unfoldable pub set_inherited_resolvers_to_type : SchemaResolvers F → String → Change (NamedType F)
  unfolding inherit_from each
  set_inherited_resolvers_to_type resolvers name type =
      each (inherit_from resolvers name) (interfaces_of type) type

  unfoldable pub set_inherited : SchemaResolvers F → String × SchemaResolver F → Change (Types F)
  unfolding update_type set_inherited_resolvers_to_type
  set_inherited resolvers (name, resolver) =
      update_type name (set_inherited_resolvers_to_type resolvers name)

  unfoldable pub set_inherited_resolvers : SchemaInput F → Change (Types F)
  unfolding merge_resolvers set_inherited each
  set_inherited_resolvers resolvers =
      let merged = merge_resolvers own resolvers in each (set_inherited merged) merged

  unfoldable pub set_resolvers : SchemaInput F → Change (Types F)
  unfolding merge_resolvers set_inherited_resolvers set_resolvers_without_inheritance
  set_resolvers resolvers types =
      let merged = merge_resolvers own resolvers in
      go_on (set_inherited_resolvers (single merged) types)
        (set_resolvers_without_inheritance (single merged))

  -- `constant` is the function that returns a text, `sha1` the hash in hexadecimal digits.
  unfoldable pub set_sdl_resolvers : (String → F) → (String → String) → String → Change (Types F)
  unfolding set_resolvers
  set_sdl_resolvers constant sha1 sdl = set_resolvers (
      single (
        (
          "Query",
          fields (("_sdl", some (constant sdl)) ∷ ("_sdlVersion", some (constant (sha1 sdl))) ∷ []),
        )
        ∷ []))
