-- ===== src/Server/SchemaManager/Defaults.antt =====
-- GraphQLSchemaManager.ts: the default resolver.
use graphqlade.Common.{
  String, ◌≡◌, refl, ◌∙◌, Bool, true, false, Option, some, if◌then◌else◌, ◌||◌, string_eq,
}
use graphqlade.Util.ResolverMerging.Lookup.{first_of}
use graphqlade.Server.SchemaManager.{SchemaField, Types, is_hidden}
use graphqlade.Server.SchemaManager.Overriding.{option_map}
use graphqlade.Server.SchemaManager.Everywhere.{update_types, field_at, field_at-update_types}

module _ {F : Type 0} (default_resolver : F) where
  unfoldable pub default_to_field : String → SchemaField F → SchemaField F
  default_to_field name field =
      if is_hidden name
      then field
      else record field { resolve = first_of field.resolve (some default_resolver) }

  unfoldable pub set_default_field_resolver : Types F → Types F
  unfolding default_to_field update_types
  set_default_field_resolver types = update_types default_to_field types

  -- Every field of every type that is not of introspection has a resolver afterwards: its own if it
  -- had one, else the default one. Nothing else of it changes, and the other fields stay.
  pub field_at-set_default_field_resolver :
      (type name : String) (types : Types F)
      → field_at type name (set_default_field_resolver types)
        ≡ option_map
            (λ field.
              if is_hidden type || is_hidden name
              then field
              else record field { resolve = first_of field.resolve (some default_resolver) })
            (field_at type name types)
  unfolding set_default_field_resolver default_to_field
  field_at-set_default_field_resolver type name types =
      field_at-update_types default_to_field type name types
      ∙ both (is_hidden type) (is_hidden name) (field_at type name types)
    where
      both :
          (a b : Bool) (o : Option (SchemaField F))
          → option_map
              (λ field.
                if a
                then field
                else if b
                then field
                else record field { resolve = first_of field.resolve (some default_resolver) })
              o
            ≡ option_map
                (λ field.
                  if a || b
                  then field
                  else record field { resolve = first_of field.resolve (some default_resolver) })
                o
      both true b o = refl
      both false b o = refl
