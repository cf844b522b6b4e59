-- ===== src/Server/GraphqlServer/Bootstrapping.antt =====
-- GraphQLServer.ts: the steps of `bootstrap`.
use graphqlade.Common.{
  String, ◌≡◌, refl, sym, ◌∙◌, ap, Bool, false, not, ◌&&◌, Option, none, some, List, Value, Error,
  Thrown, Result, ok, ◌>>=◌, ◌⊎◌, inl, inr, ◌===◌, string_eq, if◌then◌else◌,
}
use graphqlade.Common.Map
use graphqlade.Common.Map.{Map}
use graphqlade.Util.ResolverMerging.{merge_resolvers}
use graphqlade.Util.ResolverMerging.Lookup.{first_of, lookup, otherwise, AreProper}
use graphqlade.Server.SchemaManager.{
  NamedType, SchemaField, Types, Codec, SchemaResolver, SchemaInput, Change, go_on, is_hidden,
  is_subscription, interfaces_of, fields_of, set_resolvers, set_sdl_resolvers,
}
use graphqlade.Server.SchemaManager.Overriding.{go_on-ok, option_map, with_property}
use graphqlade.Server.SchemaManager.Precedence.{inherited, set_resolvers-IsDecided}
use graphqlade.Server.SchemaManager.Everywhere.{
  update_fields, field_at, field_in, get-update_fields, interfaces_of-update_fields,
  get-update_types,
}
use graphqlade.Server.SchemaManager.Defaults.{default_to_field, set_default_field_resolver}
use graphqlade.Server.SchemaManager.ErrorHandling.{
  Resolve, IsHandled, set_resolver_error_handler, set_resolver_error_handler-IsHandled,
}

-- A `GraphQLSchema`: its named types, and the name of its subscription type.
pub record BuiltSchema (F : Type 0) : Type 0 where
  pub types : Types F
  pub subscription : Option String

-- The options that `bootstrap` reads itself: the schema is one, or the path of a directory.
pub record BootstrapOptions (Call R : Type 0) : Type 0 where
  pub root : Option String
  pub schema : Option (String ⊎ BuiltSchema (Resolve Call R))
  pub default_field_resolver : Option (Resolve Call R)
  pub resolvers : Option (SchemaInput (Resolve Call R))
  pub resolver_error_handler : Option (Error → Call → Result (Option Error))
  pub stitching : Bool

-- `Boolean(sdl)`
abbrev is_given : Option String → Bool
is_given none = false
is_given (some text) = not (text === "")

module _ {Call R : Type 0} (join : String → String → String) (read_dir : String → Result String)
    (build_schema : String → Result (BuiltSchema (Resolve Call R))) where
  -- The text of the schema, if it is read from files, and the schema.
  unfoldable pub load_schema :
      BootstrapOptions Call R → Result (Option String × BuiltSchema (Resolve Call R))
  load_schema options = elim options.schema [
    | some (inr schema) ↦ ok (none, schema)
    | some (inl path) ↦ read_dir (join (otherwise options.root "") path) >>= λ sdl.
        build_schema sdl >>= λ schema. ok (some sdl, schema)
    | none ↦ read_dir (join (otherwise options.root "") "schema") >>= λ sdl.
        build_schema sdl >>= λ schema. ok (some sdl, schema)
  ]

module _ {Call R : Type 0}
    (own : Codec (Resolve Call R) ⊎ Codec (Resolve Call R) → Map String (Option (Resolve Call R)))
    (new_enum : Map String (Option (Resolve Call R)) → Codec (Resolve Call R))
    (not_scalar : SchemaResolver (Resolve Call R) → Thrown) (stringify : Value → String)
    (default_resolver : Resolve Call R) (constant : String → Resolve Call R)
    (sha1 : String → String) where
  abbrev with_default : Option (Resolve Call R) → Types (Resolve Call R) → Types (Resolve Call R)
  with_default none types = types
  with_default (some d) types = set_default_field_resolver d types

  abbrev with_resolvers :
      Option String → Option (SchemaInput (Resolve Call R)) → Change (Types (Resolve Call R))
  with_resolvers subscription none types = (types, ok tt)
  with_resolvers subscription (some resolvers) types =
      set_resolvers own new_enum not_scalar subscription resolvers types

  abbrev with_handler :
      Option (Error → Call → Result (Option Error))
      → Types (Resolve Call R)
      → Types (Resolve Call R)
  with_handler none types = types
  with_handler (some handler) types =
      set_resolver_error_handler stringify default_resolver handler types

  abbrev with_sdl : Option String → Bool → Option String → Change (Types (Resolve Call R))
  with_sdl subscription stitching sdl types =
      if stitching && is_given sdl
      then set_sdl_resolvers own new_enum not_scalar subscription constant sha1 (otherwise sdl "")
          types
      else (types, ok tt)

  -- What `bootstrap` does to the types of the schema.
  unfoldable pub prepare :
      BootstrapOptions Call R → Option String → Option String → Change (Types (Resolve Call R))
  prepare options subscription sdl types =
      go_on
        (with_resolvers subscription options.resolvers
          (with_default options.default_field_resolver types))
        λ t.
          with_sdl subscription options.stitching sdl
            (with_handler options.resolver_error_handler t)

  unfoldable pub bootstrap :
      (String → String → String)
      → (String → Result String)
      → (String → Result (BuiltSchema (Resolve Call R)))
      → BootstrapOptions Call R
      → Result (BuiltSchema (Resolve Call R))
  unfolding load_schema prepare
  bootstrap join read_dir build_schema options =
      load_schema join read_dir build_schema options >>= λ loaded.
      let (types, result) = prepare options loaded.1.subscription loaded.0 loaded.1.types in
      result >>= λ done. ok (record { types = types; subscription = loaded.1.subscription })

  module _ (d : Resolve Call R) (type : NamedType (Resolve Call R)) (name f : String)
      (field : SchemaField (Resolve Call R)) (visible : is_hidden f ≡ false)
      (at_field : Map.get f (fields_of type) ≡ some field) where
    abbrev defaulted : SchemaField (Resolve Call R)
    defaulted = record field { resolve = first_of field.resolve (some d) }

    get-defaulted : Map.get f (fields_of (update_fields (default_to_field d) type)) ≡ some defaulted
    unfolding default_to_field
    get-defaulted =
        get-update_fields (default_to_field d) f type
        ∙ rw (at_field, visible, default_to_field) refl

    type_defaulted :
        (types : Types (Resolve Call R))
        → is_hidden name ≡ false
        → Map.get name types ≡ some type
        → Map.get name (set_default_field_resolver d types)
          ≡ some (update_fields (default_to_field d) type)
    unfolding set_default_field_resolver
    type_defaulted types shown at_type =
        get-update_types (default_to_field d) name types ∙ rw (at_type, shown) refl

    set_resolvers-defaulted :
        (input : SchemaInput (Resolve Call R)) (subscription : Option String)
        (types : Types (Resolve Call R)) (r : SchemaResolver (Resolve Call R))
        → is_hidden name ≡ false
        → Map.get name types ≡ some type
        → AreProper own (merge_resolvers own input)
        → (set_resolvers own new_enum not_scalar subscription input
            (set_default_field_resolver d types)).1
          ≡ ok tt
        → Map.get name (merge_resolvers own input) ≡ some r
        → field_at name f
            (set_resolvers own new_enum not_scalar subscription input
              (set_default_field_resolver d types)).0
          ≡ some (
              with_property
                (is_subscription subscription name)
                (first_of (lookup own name f (merge_resolvers own input)) (
                  inherited own new_enum not_scalar subscription f
                    (merge_resolvers own input)
                    (interfaces_of type)))
                defaulted)
    set_resolvers-defaulted input subscription types r shown at_type proper returned found =
        let merged = merge_resolvers own input in
        let (before, after, at_before, at_after, decided) =
          set_resolvers-IsDecided own new_enum not_scalar subscription f visible input
            (set_default_field_resolver d types) proper returned name r found in
        let T = update_fields (default_to_field d) type in
        let same : before ≡ T = some-inj (sym at_before ∙ type_defaulted types shown at_type) in
        let says = λ (is : List String). with_property (is_subscription subscription name) (
          first_of (lookup own name f merged)
            (inherited own new_enum not_scalar subscription f merged is)) in
        ap (field_in f) at_after
        ∙ decided
        ∙ ap (λ t. option_map (says (interfaces_of t)) (Map.get f (fields_of t))) same
        ∙ ap (λ o. option_map (says (interfaces_of T)) o) get-defaulted
        ∙ ap (λ is. some (says is defaulted))
            (interfaces_of-update_fields (default_to_field d) type)
      where
        some-inj : {a b : NamedType (Resolve Call R)} → some a ≡ some b → a ≡ b
        some-inj h = cc

  -- Let the steps of `bootstrap` return for options with a default resolver, resolvers, an error
  -- handler, and no stitching, where no name occurs twice among the merged resolvers or among those
  -- of a type. Take a field whose type has resolvers of its own, where neither has a name that starts
  -- with two underscores. Its resolver is then, under the error handler, the one that the type's
  -- resolvers give it; else the one of the last of its interfaces whose resolvers do; else the one of
  -- the schema; else the default one. For the subscription type the resolvers give its `subscribe`,
  -- without the handler, and its resolver is the one of the schema or the default one, under it.
  pub prepare-IsHandled :
      (d : Resolve Call R) (input : SchemaInput (Resolve Call R))
      (handler : Error → Call → Result (Option Error)) (options : BootstrapOptions Call R)
      → options.default_field_resolver ≡ some d
      → options.resolvers ≡ some input
      → options.resolver_error_handler ≡ some handler
      → options.stitching ≡ false
      → (subscription sdl : Option String) (types : Types (Resolve Call R))
      → AreProper own (merge_resolvers own input)
      → (prepare options subscription sdl types).1 ≡ ok tt
      → (name f : String) (r : SchemaResolver (Resolve Call R)) → is_hidden name ≡ false
      → is_hidden f ≡ false
      → Map.get name (merge_resolvers own input) ≡ some r
      → (type : NamedType (Resolve Call R)) (field : SchemaField (Resolve Call R))
      → Map.get name types ≡ some type
      → Map.get f (fields_of type) ≡ some field
      → (after : SchemaField (Resolve Call R)) × (field_at name f
            (prepare options subscription sdl types).0
          ≡ some after)
        × IsHandled stringify default_resolver handler
            (with_property
              (is_subscription subscription name)
              (first_of (lookup own name f (merge_resolvers own input)) (
                inherited own new_enum not_scalar subscription f
                  (merge_resolvers own input)
                  (interfaces_of type)))
              (record field { resolve = first_of field.resolve (some d) }))
            after
  unfolding prepare
  prepare-IsHandled d input handler options e_d e_r e_h e_s subscription sdl types proper returned
        name f r shown visible found type field at_type at_field =
      let D = set_default_field_resolver d types in
      let S = set_resolvers own new_enum not_scalar subscription input D in
      let H = set_resolver_error_handler stringify default_resolver handler in
      let next : Change (Types (Resolve Call R)) = λ t. (H t, ok tt) in
      let steps : prepare options subscription sdl types ≡ go_on S next =
        rw (e_d, e_r, e_h, e_s, prepare) refl in
      let (first_ok, last) = go_on-ok S next (sym (ap (λ p. p.1) steps) ∙ returned) in
      let decided =
        set_resolvers-defaulted d type name f field visible at_field input subscription types r
          shown at_type proper first_ok found in
      let (after, at_after, handled) =
        set_resolver_error_handler-IsHandled stringify default_resolver handler name f S.0 _ shown
          decided in
      (after, ap (λ p. field_at name f p.0) (steps ∙ last) ∙ at_after, handled)
