-- ===== src/Server/SchemaManager/Known.antt =====
-- GraphQLSchemaManager.ts: which resolvers a schema accepts.
use graphqlade.Common.{
  String, ◌≡◌, refl, ◌∙◌, ap, Bool, true, false, ◌||◌, Option, some, string_eq, inl, Result, ok,
  thrown, Thrown, ◌⊎◌,
}
use graphqlade.Common.Map
use graphqlade.Common.Map.{Map}
use graphqlade.Util.ResolverMerging.{scalar, enum, fields, spread}
use graphqlade.Server.SchemaManager.Kinds.{
  interfaces_of-set_resolvers_to_type, set_resolvers_to_enum_type_lem,
}
use graphqlade.Server.SchemaManager.{
  SchemaField, NamedType, object_type, interface_type, union_type, enum_type, scalar_type,
  input_type, Codec, SchemaResolver, is_hidden, each, Change, set_enum_value, set_field_resolver,
  set_field_resolvers, interfaces_of, is_subscription, use_config, set_resolvers_to_enum_type,
  set_resolvers_to_type,
}
use graphqlade.Server.SchemaManager.Rounds.{
  all_of, all_of_cong, is_ok, each_keeps, is_ok-each, HasSame, knows, field-HasSame, is_ok-field,
  value-HasSame, is_ok-value,
}

module _ {F : Type 0} (own : Codec F ⊎ Codec F → Map String (Option F))
    (new_enum : Map String (Option F) → Codec F) (not_scalar : SchemaResolver F → Thrown)
    (subscription : Option String) where
  -- An object or interface type accepts resolvers of its fields, an enum type an enum type or values
  -- for its keys, a scalar type a scalar type, a union type any resolvers, an input type none.
  abbrev pub accepts : NamedType F → SchemaResolver F → Bool
  accepts (object_type members is f) r = all_of (knows members) (spread own (some r))
  accepts (interface_type members is f) r = all_of (knows members) (spread own (some r))
  accepts (union_type f) r = true
  accepts (enum_type values codec) (enum e) = true
  accepts (enum_type values codec) (scalar s) =
      all_of (λ (entry : String × Option F). Map.has entry.0 values) (own (inl s))
  accepts (enum_type values codec) (fields m) =
      all_of (λ (entry : String × Option F). Map.has entry.0 values) m
  accepts (scalar_type codec) (scalar s) = true
  accepts (scalar_type codec) r = false
  accepts input_type r = false

  -- What decides the acceptance stays the same.
  pub record IsAlike (type type' : NamedType F) : Type 0 where
    pub interfaces : interfaces_of type' ≡ interfaces_of type
    pub accepting : (r : SchemaResolver F) → accepts type' r ≡ accepts type r

  abbrev pub set_type : String → SchemaResolver F → Change (NamedType F)
  set_type = set_resolvers_to_type own new_enum not_scalar subscription

  knows_more :
      (name : String) (q r : SchemaResolver F) (members : Map String (SchemaField F))
      → all_of
          (knows
            (set_field_resolvers
              (is_subscription subscription name)
              name
              (spread own (some q))
              members).0)
          (spread own (some r))
        ≡ all_of (knows members) (spread own (some r))
  unfolding set_field_resolvers
  knows_more name q r members =
      let s = is_subscription subscription name in
      let now = (set_field_resolvers s name (spread own (some q)) members).0 in
      let same : HasSame members now =
        each_keeps (set_field_resolver s name) (HasSame members) (knows members)
          (field-HasSame s name members) (is_ok-field s name members) (spread own (some q)) members
          (λ n. refl) in
      all_of_cong (knows now) (knows members) (spread own (some r))
        (λ entry. ap (λ b. is_hidden entry.0 || b) (same entry.0))

  same_values :
      (values : Map String (Option F)) (new old : Codec F) (r : SchemaResolver F)
      → accepts (enum_type values new) r ≡ accepts (enum_type values old) r
  same_values values new old (scalar s) = refl
  same_values values new old (enum e) = refl
  same_values values new old (fields m) = refl

  set_type-accepting :
      (name : String) (q : SchemaResolver F) (type : NamedType F) (r : SchemaResolver F)
      → accepts (set_type name q type).0 r ≡ accepts type r
  unfolding set_resolvers_to_type set_field_resolvers
  set_type-accepting name q (object_type members is f) r = knows_more name q r members
  set_type-accepting name q (interface_type members is f) r = knows_more name q r members
  set_type-accepting name q (union_type f) r = refl
  set_type-accepting name q (enum_type values codec) r =
      let (new, e) =
        set_resolvers_to_enum_type_lem own new_enum not_scalar subscription values codec q in
      ap (λ t. accepts t r) e ∙ same_values values new codec r
  set_type-accepting name (scalar s) (scalar_type codec) (scalar s') = refl
  set_type-accepting name (scalar s) (scalar_type codec) (enum s') = refl
  set_type-accepting name (scalar s) (scalar_type codec) (fields s') = refl
  set_type-accepting name (enum s) (scalar_type codec) r = refl
  set_type-accepting name (fields s) (scalar_type codec) r = refl
  set_type-accepting name q input_type r = refl

  pub set_type-IsAlike :
      (name : String) (q : SchemaResolver F) (type type' : NamedType F)
      → IsAlike type type'
      → IsAlike type (set_type name q type').0
  set_type-IsAlike name q type type' h = record {
    interfaces =
        interfaces_of-set_resolvers_to_type own new_enum not_scalar subscription name q type'
        ∙ h.interfaces;
    accepting = λ r. set_type-accepting name q type' r ∙ h.accepting r;
  }

  is_ok-fields :
      (name : String) (r : SchemaResolver F) (members : Map String (SchemaField F))
      → is_ok
          (set_field_resolvers
            (is_subscription subscription name)
            name
            (spread own (some r))
            members).1
        ≡ all_of (knows members) (spread own (some r))
  unfolding set_field_resolvers
  is_ok-fields name r members =
      let s = is_subscription subscription name in
      is_ok-each (set_field_resolver s name) (HasSame members) (knows members)
        (field-HasSame s name members) (is_ok-field s name members) (spread own (some r)) members
        (λ n. refl)

  is_ok-values :
      (m values : Map String (Option F)) (codec : Codec F)
      → is_ok
          (use_config own new_enum not_scalar subscription values codec
            (each set_enum_value m values)).1
        ≡ all_of (λ (entry : String × Option F). Map.has entry.0 values) m
  is_ok-values m values codec =
      is_ok-use_config (each set_enum_value m values)
      ∙ is_ok-each set_enum_value (HasSame values)
          (λ (entry : String × Option F). Map.has entry.0 values) (value-HasSame values)
          (is_ok-value values) m values (λ n. refl)
    where
      is_ok-use_config :
          (p : Map String (Option F) × Result (Unit {0}))
          → is_ok (use_config own new_enum not_scalar subscription values codec p).1 ≡ is_ok p.1
      is_ok-use_config (config, ok done) = refl
      is_ok-use_config (config, thrown e) = refl

  pub is_ok-set_type :
      (name : String) (r : SchemaResolver F) (type : NamedType F)
      → is_ok (set_type name r type).1 ≡ accepts type r
  unfolding set_resolvers_to_type set_field_resolvers set_resolvers_to_enum_type
  is_ok-set_type name r (object_type members is f) = is_ok-fields name r members
  is_ok-set_type name r (interface_type members is f) = is_ok-fields name r members
  is_ok-set_type name r (union_type f) = refl
  is_ok-set_type name (enum e) (enum_type values codec) = refl
  is_ok-set_type name (scalar s) (enum_type values codec) = is_ok-values (own (inl s)) values codec
  is_ok-set_type name (fields m) (enum_type values codec) = is_ok-values m values codec
  is_ok-set_type name (scalar s) (scalar_type codec) = refl
  is_ok-set_type name (enum s) (scalar_type codec) = refl
  is_ok-set_type name (fields s) (scalar_type codec) = refl
  is_ok-set_type name r input_type = refl
