-- ===== src/Server/SchemaManager/Kinds.antt =====
-- GraphQLSchemaManager.ts: a type keeps its kind and its interfaces.
use graphqlade.Common.{
  String, ◌≡◌, refl, ap, Option, string_eq, inl, Result, ok, thrown, Thrown, ◌⊎◌,
}
use graphqlade.Common.Map.{Map}
use graphqlade.Util.ResolverMerging.{scalar, enum, fields}
use graphqlade.Server.SchemaManager.{
  NamedType, object_type, interface_type, union_type, enum_type, scalar_type, input_type, Codec,
  SchemaResolver, each, set_enum_value, interfaces_of, use_config, set_resolvers_to_enum_type,
  set_resolvers_to_type,
}

module _ {F : Type 0} (own : Codec F ⊎ Codec F → Map String (Option F))
    (new_enum : Map String (Option F) → Codec F) (not_scalar : SchemaResolver F → Thrown)
    (subscription : Option String) where
  use_config_lem :
      (values : Map String (Option F)) (codec : Codec F)
      (p : Map String (Option F) × Result (Unit {0}))
      → (new : Codec F) × ((use_config own new_enum not_scalar subscription values codec p).0
          ≡ enum_type values new)
  use_config_lem values codec (config, ok done) = (new_enum config, refl)
  use_config_lem values codec (config, thrown e) = (codec, refl)

  pub set_resolvers_to_enum_type_lem :
      (values : Map String (Option F)) (codec : Codec F) (r : SchemaResolver F)
      → (new : Codec F) × ((set_resolvers_to_enum_type own new_enum not_scalar subscription values
            codec r).0
          ≡ enum_type values new)
  unfolding set_resolvers_to_enum_type
  set_resolvers_to_enum_type_lem values codec (enum new) = (new, refl)
  set_resolvers_to_enum_type_lem values codec (scalar s) =
      use_config_lem values codec (each set_enum_value (own (inl s)) values)
  set_resolvers_to_enum_type_lem values codec (fields m) =
      use_config_lem values codec (each set_enum_value m values)

  pub interfaces_of-set_resolvers_to_type :
      (name : String) (r : SchemaResolver F) (type : NamedType F)
      → interfaces_of (set_resolvers_to_type own new_enum not_scalar subscription name r type).0
        ≡ interfaces_of type
  unfolding set_resolvers_to_type set_resolvers_to_enum_type
  interfaces_of-set_resolvers_to_type name r (object_type ms is f) = refl
  interfaces_of-set_resolvers_to_type name r (interface_type ms is f) = refl
  interfaces_of-set_resolvers_to_type name r (union_type f) = refl
  interfaces_of-set_resolvers_to_type name r (enum_type vs c) =
      ap interfaces_of (set_resolvers_to_enum_type_lem vs c r).1
  interfaces_of-set_resolvers_to_type name (scalar s) (scalar_type c) = refl
  interfaces_of-set_resolvers_to_type name (enum s) (scalar_type c) = refl
  interfaces_of-set_resolvers_to_type name (fields s) (scalar_type c) = refl
  interfaces_of-set_resolvers_to_type name r input_type = refl
