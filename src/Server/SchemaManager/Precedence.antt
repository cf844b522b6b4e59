-- ===== src/Server/SchemaManager/Precedence.antt =====
-- GraphQLSchemaManager.ts: which of several resolvers a field has in the end.
use graphqlade.Common.{
  Bool-cases, String, ◌≡◌, refl, sym, ◌∙◌, ap, subst, Bool, true, false, Option, none, some, List,
  [], ◌∷◌, string_eq, ◌===◌, inl, inr, Option-cases, ok, Thrown, ◌⊎◌, All,
}
use graphqlade.Common.Map
use graphqlade.Common.Map.{Map}
use graphqlade.Util.ResolverMerging.{scalar, enum, fields, spread, merge_resolvers}
use graphqlade.Util.ResolverMerging.Lookup.{first_of, lookup, IsProper, AreProper}
use graphqlade.Server.SchemaManager.{
  SchemaField, NamedType, object_type, interface_type, union_type, enum_type, scalar_type,
  input_type, Types, Codec, SchemaResolver, SchemaResolvers, SchemaInput, is_hidden, each, go_on,
  Change, set_field_resolvers, interfaces_of, fields_of, is_subscription, set_resolvers_to_type,
  set_own, set_resolvers_without_inheritance, inherit_from, set_inherited_resolvers_to_type,
  set_inherited, set_inherited_resolvers, set_resolvers,
}
use graphqlade.Server.SchemaManager.Overriding.{
  go_on-ok, option_map, with_property, get-set_field_resolvers,
}
use graphqlade.Server.SchemaManager.Kinds.{set_resolvers_to_enum_type_lem}
use graphqlade.Server.SchemaManager.Updates.{update_all_at}

with_property-first_of :
    {F : Type 0} (subscribes : Bool) (p q : Option (Option F)) (field : Option (SchemaField F))
    → option_map (with_property subscribes p) (option_map (with_property subscribes q) field)
      ≡ option_map (with_property subscribes (first_of p q)) field
with_property-first_of subscribes p q none = refl
with_property-first_of subscribes none q (some field) = refl
with_property-first_of subscribes (some v) none (some field) = refl
with_property-first_of false (some v) (some w) (some field) = refl
with_property-first_of true (some v) (some w) (some field) = refl

module _ {F : Type 0} (own : Codec F ⊎ Codec F → Map String (Option F))
    (new_enum : Map String (Option F) → Codec F) (not_scalar : SchemaResolver F → Thrown)
    (subscription : Option String) where
  IsProper-spread : (r : SchemaResolver F) → IsProper own r → Map.IsUnique (spread own (some r))
  IsProper-spread (scalar s) p = p
  IsProper-spread (enum e) p = p
  IsProper-spread (fields m) p = p

  IsProper-at :
      (i : String) (merged : SchemaResolvers F) (r : SchemaResolver F)
      → All (λ (entry : String × SchemaResolver F). IsProper own entry.1) merged
      → Map.get i merged ≡ some r
      → IsProper own r
  unfolding Map.get
  IsProper-at i [] r h found = cc
  IsProper-at i ((n, s) ∷ rest) r (p, h) found = elim (Bool-cases (n === i)) [
    | inl here ↦ subst (IsProper own) (some-inj (rw (here, Map.get) at found)) p
    | inr other ↦ IsProper-at i rest r h (rw (other, Map.get) at found)
  ]
    where
      some-inj : {a b : SchemaResolver F} → some a ≡ some b → a ≡ b
      some-inj h = cc

  abbrev passes : SchemaResolvers F → Change (Types F)
  passes merged types =
      go_on (each (set_inherited own new_enum not_scalar subscription merged) merged types)
        (each (set_own own new_enum not_scalar subscription) merged)

  module _ (f : String) where
    abbrev says : String → Option (Option F) → Option (SchemaField F) → Option (SchemaField F)
    says name p = option_map (with_property (is_subscription subscription name) p)

    -- What the last of some interfaces that have a word on a field says of it.
    abbrev pub inherited : SchemaResolvers F → List String → Option (Option F)
    inherited merged [] = none
    inherited merged (i ∷ is) = first_of (inherited merged is) (lookup own i f merged)

    says_nothing : (n : String) (o : Option (SchemaField F)) → says n none o ≡ o
    says_nothing n none = refl
    says_nothing n (some field) = refl

    -- A field of the name `f` has what its type's resolvers say of it; else what the last interface
    -- says; else what it had.
    abbrev pub IsDecided : SchemaResolvers F → String → Types F → Types F → Type 0
    IsDecided merged name types types' =
        (before after : NamedType F) × (Map.get name types ≡ some before)
        × (Map.get name types' ≡ some after)
        × (Map.get f (fields_of after)
            ≡ option_map
                (with_property (is_subscription subscription name)
                  (first_of (lookup own name f merged) (inherited merged (interfaces_of before))))
                (Map.get f (fields_of before)))

  module _ (f : String) (visible : is_hidden f ≡ false) where
    get-set_resolvers_to_type :
        (name : String) (r : SchemaResolver F) (type : NamedType F)
        → IsProper own r
        → (set_resolvers_to_type own new_enum not_scalar subscription name r type).1 ≡ ok tt
        → Map.get f
            (fields_of (set_resolvers_to_type own new_enum not_scalar subscription name r type).0)
          ≡ says f name (Map.get f (spread own (some r))) (Map.get f (fields_of type))
    unfolding set_resolvers_to_type set_field_resolvers Map.get
    get-set_resolvers_to_type name r (object_type ms is g) p returned =
        get-set_field_resolvers (is_subscription subscription name) name f (spread own (some r)) ms
          (IsProper-spread r p) visible returned
    get-set_resolvers_to_type name r (interface_type ms is g) p returned =
        get-set_field_resolvers (is_subscription subscription name) name f (spread own (some r)) ms
          (IsProper-spread r p) visible returned
    get-set_resolvers_to_type name r (union_type g) p returned = refl
    get-set_resolvers_to_type name r (enum_type vs c) p returned =
        ap (λ t. Map.get f (fields_of t))
          (set_resolvers_to_enum_type_lem own new_enum not_scalar subscription vs c r).1
    get-set_resolvers_to_type name (scalar s) (scalar_type c) p returned = refl
    get-set_resolvers_to_type name (enum s) (scalar_type c) p returned = refl
    get-set_resolvers_to_type name (fields s) (scalar_type c) p returned = refl
    get-set_resolvers_to_type name r input_type p returned = refl

    get-inherit_from :
        (merged : SchemaResolvers F) (name i : String) (type : NamedType F)
        → AreProper own merged
        → (inherit_from own new_enum not_scalar subscription merged name i type).1 ≡ ok tt
        → Map.get f
            (fields_of (inherit_from own new_enum not_scalar subscription merged name i type).0)
          ≡ says f name (lookup own i f merged) (Map.get f (fields_of type))
    unfolding inherit_from Map.get
    get-inherit_from merged name i type proper returned = elim (Option-cases (Map.get i merged)) [
      | inl none_there ↦
          rw (none_there, inherit_from) (sym (says_nothing f name (Map.get f (fields_of type))))
      | inr (r, found) ↦
          rw (found, inherit_from)
            (get-set_resolvers_to_type name r type (IsProper-at i merged r proper.1 found)
              (rw (found, inherit_from) at returned))
    ]

    get-each_interface :
        (merged : SchemaResolvers F) (name : String)
        → AreProper own merged
        → (is : List String) (type : NamedType F)
        → (each (inherit_from own new_enum not_scalar subscription merged name) is type).1 ≡ ok tt
        → Map.get f (
            fields_of
              (each (inherit_from own new_enum not_scalar subscription merged name) is type).0)
          ≡ says f name (inherited f merged is) (Map.get f (fields_of type))
    unfolding each
    get-each_interface merged name proper [] type returned =
        sym (says_nothing f name (Map.get f (fields_of type)))
    get-each_interface merged name proper (i ∷ is) type returned =
        let go = inherit_from own new_enum not_scalar subscription merged name in
        let (first_ok, same) = go_on-ok (go i type) (each go is) returned in
        ap (λ p. Map.get f (fields_of p.0)) same
        ∙ get-each_interface merged name proper is (go i type).0
            (sym (ap (λ p. p.1) same) ∙ returned)
        ∙ ap (says f name (inherited f merged is))
            (get-inherit_from merged name i type proper first_ok)
        ∙ with_property-first_of (is_subscription subscription name) (inherited f merged is)
            (lookup own i f merged) (Map.get f (fields_of type))

    passes-IsDecided :
        (merged : SchemaResolvers F) (types : Types F)
        → AreProper own merged
        → (passes merged types).1 ≡ ok tt
        → (name : String) (r : SchemaResolver F) → Map.get name merged ≡ some r
        → IsDecided f merged name types (passes merged types).0
    unfolding set_inherited set_own set_inherited_resolvers_to_type Map.get
    passes-IsDecided merged types proper returned name r found =
        let pass_1 = each (set_inherited own new_enum not_scalar subscription merged) merged in
        let pass_2 = each (set_own own new_enum not_scalar subscription) merged in
        let (ok_1, same) = go_on-ok (pass_1 types) pass_2 returned in
        let ok_2 : (pass_2 (pass_1 types).0).1 ≡ ok tt = sym (ap (λ p. p.1) same) ∙ returned in
        let change_1 = λ (e : String × SchemaResolver F).
          set_inherited_resolvers_to_type own new_enum not_scalar subscription merged e.0 in
        let change_2 = λ (e : String × SchemaResolver F).
          set_resolvers_to_type own new_enum not_scalar subscription e.0 e.1 in
        let (before, at_first, returned_1, at_middle) =
          update_all_at own new_enum not_scalar subscription change_1 merged types proper.0 ok_1
            name r found in
        let (middle, at_middle', returned_2, at_last) =
          update_all_at own new_enum not_scalar subscription change_2 merged (pass_1 types).0
            proper.0 ok_2 name r found in
        let inherits = (change_1 (name, r) before).0 in
        let kept : inherits ≡ middle = some-inj (sym at_middle ∙ at_middle') in
        (
          before,
          (change_2 (name, r) middle).0,
          at_first,
          ap (λ p. Map.get name p.0) same ∙ at_last,
          get-set_resolvers_to_type name r middle (IsProper-at name merged r proper.1 found)
                returned_2
              ∙ ap (λ t. says f name (Map.get f (spread own (some r))) (Map.get f (fields_of t)))
                  (sym kept)
              ∙ ap (says f name (Map.get f (spread own (some r))))
                  (get-each_interface merged name proper (interfaces_of before) before returned_1)
              ∙ with_property-first_of (is_subscription subscription name)
                  (Map.get f (spread own (some r))) (inherited f merged (interfaces_of before))
                  (Map.get f (fields_of before))
              ∙ ap
                  (λ o.
                    says f name
                      (first_of (Map.get f (spread own o))
                        (inherited f merged (interfaces_of before)))
                      (Map.get f (fields_of before)))
                  (sym found),
        )
      where
        some-inj : {a b : NamedType F} → some a ≡ some b → a ≡ b
        some-inj h = cc

    -- Let `setResolvers` return, let no name occur twice among the merged resolvers or among those of
    -- a type, and let a type have resolvers of its own. Then each field of the type whose name does
    -- not start with two underscores has what the type's resolvers say of it; else what the resolvers
    -- of the last of its interfaces say that say something of it; else what it had before. A field of
    -- the subscription type has it as its `subscribe`, a field of another type as its `resolve`.
    pub set_resolvers-IsDecided :
        (resolvers : SchemaInput F) (types : Types F)
        → AreProper own (merge_resolvers own resolvers)
        → (set_resolvers own new_enum not_scalar subscription resolvers types).1 ≡ ok tt
        → (name : String) (r : SchemaResolver F)
        → Map.get name (merge_resolvers own resolvers) ≡ some r
        → IsDecided f
            (merge_resolvers own resolvers)
            name
            types
            (set_resolvers own new_enum not_scalar subscription resolvers types).0
    unfolding set_resolvers set_inherited_resolvers set_resolvers_without_inheritance
        merge_resolvers
    set_resolvers-IsDecided resolvers types proper returned name r found =
        passes-IsDecided (merge_resolvers own resolvers) types proper returned name r found
