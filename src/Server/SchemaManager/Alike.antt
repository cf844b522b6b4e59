-- ===== src/Server/SchemaManager/Alike.antt =====
-- GraphQLSchemaManager.ts: what decides the acceptance of resolvers stays as resolvers are set.
use graphqlade.Common.{
  Bool-cases, String, ◌≡◌, refl, sym, ◌∙◌, ap, subst, Bool, true, false, Option, none, some,
  string_eq, ◌===◌, inl, inr, Option-cases, Thrown, ◌⊎◌,
}
use graphqlade.Common.Map
use graphqlade.Common.Map.{Map}
use graphqlade.Server.SchemaManager.{
  NamedType, Types, Codec, SchemaResolver, SchemaResolvers, Change, interfaces_of, update_type,
  inherit_from, set_inherited_resolvers_to_type,
}
use graphqlade.Server.SchemaManager.Rounds.{all_of, is_ok, each_keeps, is_ok-each}
use graphqlade.Server.SchemaManager.Known.{accepts, IsAlike, set_type-IsAlike, is_ok-set_type}

module _ {F : Type 0} (own : Codec F ⊎ Codec F → Map String (Option F))
    (new_enum : Map String (Option F) → Codec F) (not_scalar : SchemaResolver F → Thrown)
    (subscription : Option String) where
  abbrev pub Alike : NamedType F → NamedType F → Type 0
  Alike = IsAlike own new_enum not_scalar subscription

  abbrev pub accept : NamedType F → SchemaResolver F → Bool
  accept = accepts own new_enum not_scalar subscription

  abbrev pub if_some : {A : Type 0} → Bool → (A → Bool) → Option A → Bool
  if_some otherwise test none = otherwise
  if_some otherwise test (some a) = test a

  -- A type accepts the resolvers of an interface, if there are any.
  abbrev pub inherits : SchemaResolvers F → NamedType F → String → Bool
  inherits resolvers type interface = if_some true (accept type) (Map.get interface resolvers)

  -- The name is that of a type, which passes a test.
  abbrev pub is_type : Types F → String → (NamedType F → Bool) → Bool
  is_type types name test = if_some false test (Map.get name types)

  module _ (resolvers : SchemaResolvers F) (name : String) where
    abbrev from : String → Change (NamedType F)
    from = inherit_from own new_enum not_scalar subscription resolvers name

    abbrev pub inherit_all : Change (NamedType F)
    inherit_all =
        set_inherited_resolvers_to_type own new_enum not_scalar subscription resolvers name

  module _ (resolvers : SchemaResolvers F) (name : String) (type : NamedType F) where
    from-Alike :
        (interface : String) (now : NamedType F)
        → Alike type now
        → Alike type (from resolvers name interface now).0
    unfolding inherit_from
    from-Alike interface now h = elim (Option-cases (Map.get interface resolvers)) [
      | inl missing ↦ rw (missing, inherit_from) h
      | inr (r, found) ↦
          rw (found, inherit_from)
            (set_type-IsAlike own new_enum not_scalar subscription name r type now h)
    ]

    is_ok-from :
        (interface : String) (now : NamedType F)
        → Alike type now
        → is_ok (from resolvers name interface now).1 ≡ inherits resolvers type interface
    unfolding inherit_from
    is_ok-from interface now h = elim (Option-cases (Map.get interface resolvers)) [
      | inl missing ↦ rw (missing, inherit_from) refl
      | inr (r, found) ↦
          rw (found, inherit_from)
            (is_ok-set_type own new_enum not_scalar subscription name r now ∙ h.accepting r)
    ]

    pub inherit_all-Alike :
        (now : NamedType F) → Alike type now → Alike type (inherit_all resolvers name now).0
    unfolding set_inherited_resolvers_to_type
    inherit_all-Alike now h =
        each_keeps (from resolvers name) (Alike type) (inherits resolvers type) from-Alike
          is_ok-from (interfaces_of now) now h

    pub is_ok-inherit_all :
        (now : NamedType F)
        → Alike type now
        → is_ok (inherit_all resolvers name now).1
          ≡ all_of (inherits resolvers type) (interfaces_of type)
    unfolding set_inherited_resolvers_to_type
    is_ok-inherit_all now h =
        is_ok-each (from resolvers name) (Alike type) (inherits resolvers type) from-Alike
          is_ok-from (interfaces_of now) now h
        ∙ ap (all_of (inherits resolvers type)) h.interfaces

  -- The types of all names are alike.
  abbrev pub AlikeAt : Option (NamedType F) → Option (NamedType F) → Type 0
  AlikeAt none o = o ≡ none
  AlikeAt (some type) o = (now : NamedType F) × (o ≡ some now) × Alike type now

  abbrev pub AllAlike : Types F → Types F → Type 0
  AllAlike types now = (n : String) → AlikeAt (Map.get n types) (Map.get n now)

  at_some : {A : Type 0} {a b : A} → some a ≡ some b → a ≡ b
  at_some h = cc

  module _ (types : Types F) (name : String) (change : Change (NamedType F))
      (test : NamedType F → Bool)
      (keeps : (type now : NamedType F) → Alike type now → Alike type (change now).0)
      (decides : (type now : NamedType F) → Alike type now → is_ok (change now).1 ≡ test type) where
    changed-AlikeAt :
        (o : Option (NamedType F)) (now : NamedType F)
        → AlikeAt o (some now)
        → AlikeAt o (some (change now).0)
    changed-AlikeAt none now h = cc
    changed-AlikeAt (some type) now (same, e, alike) =
        ((change now).0, refl, keeps type now (subst (Alike type) (sym (at_some e)) alike))

    is_ok-change :
        (o : Option (NamedType F)) (now : NamedType F)
        → AlikeAt o (some now)
        → is_ok (change now).1 ≡ if_some false test o
    is_ok-change none now h = cc
    is_ok-change (some type) now (same, e, alike) =
        decides type now (subst (Alike type) (sym (at_some e)) alike)

    missing_type : (o : Option (NamedType F)) → AlikeAt o none → false ≡ if_some false test o
    missing_type none h = refl
    missing_type (some type) (same, e, alike) = cc

    pub update_type-AllAlike :
        (now : Types F)
        → AllAlike types now
        → AllAlike types (update_type own new_enum not_scalar subscription name change now).0
    unfolding update_type
    update_type-AllAlike now h = elim (Option-cases (Map.get name now)) [
      | inl missing ↦ rw (missing, update_type) h
      | inr (old, found) ↦
          rw (found, update_type)
            λ n.
              let new = (change old).0 in
              elim (Bool-cases (name === n)) [
                | inr other ↦
                    subst (AlikeAt (Map.get n types)) (sym (Map.get-set_other name n new now other))
                      (h n)
                | inl here ↦
                    subst (λ m. AlikeAt (Map.get m types) (Map.get m (Map.set name new now)))
                      ((string_eq.equal_iff name n).0 here)
                      (subst (AlikeAt (Map.get name types)) (sym (Map.get-set_self name new now)) (
                        changed-AlikeAt (Map.get name types) old
                          (subst (AlikeAt (Map.get name types)) found (h name))))
              ]
    ]

    pub is_ok-update_type :
        (now : Types F)
        → AllAlike types now
        → is_ok (update_type own new_enum not_scalar subscription name change now).1
          ≡ is_type types name test
    unfolding update_type
    is_ok-update_type now h = elim (Option-cases (Map.get name now)) [
      | inl missing ↦
          rw (missing, update_type)
            (missing_type (Map.get name types)
              (subst (AlikeAt (Map.get name types)) missing (h name)))
      | inr (old, found) ↦
          rw (found, update_type)
            (is_ok-change (Map.get name types) old
              (subst (AlikeAt (Map.get name types)) found (h name)))
    ]

  pub AllAlike-refl : (types : Types F) → AllAlike types types
  AllAlike-refl types n = at_refl (Map.get n types)
    where
      at_refl : (o : Option (NamedType F)) → AlikeAt o o
      at_refl none = refl
      at_refl (some type) = (type, refl, record { interfaces = refl; accepting = λ r. refl })
