-- ===== src/Server/SchemaManager/Acceptance.antt =====
-- GraphQLSchemaManager.ts: when setting resolvers returns, and when it throws.
use graphqlade.Common.{
  String, ◌≡◌, refl, sym, ◌∙◌, ap, Bool, true, ◌&&◌, Option, List, [], ◌∷◌, string_eq, arith, inl,
  inr, Option-cases, Result, ok, thrown, Thrown, ◌⊎◌, ◌↔◌,
}
use graphqlade.Common.Map
use graphqlade.Common.Map.{Map}
use graphqlade.Util.ResolverMerging.{merge_resolvers}
use graphqlade.Server.SchemaManager.{
  NamedType, Types, Codec, SchemaResolver, SchemaResolvers, SchemaInput, each, go_on, Change,
  interfaces_of, set_own, set_resolvers_to_type, set_resolvers_without_inheritance, set_inherited,
  set_inherited_resolvers, set_resolvers,
}
use graphqlade.Server.SchemaManager.Rounds.{all_of, is_ok, is_ok-go_on, each_keeps, is_ok-each}
use graphqlade.Server.SchemaManager.Known.{set_type-IsAlike, is_ok-set_type}
use graphqlade.Server.SchemaManager.Alike.{
  accept, inherits, is_type, inherit_all, inherit_all-Alike, is_ok-inherit_all, AllAlike,
  update_type-AllAlike, is_ok-update_type, AllAlike-refl,
}

all_of_and :
    {X : Type 0} (p q r : X → Bool) (xs : List X)
    → ((x : X) → (p x && q x) ≡ r x)
    → (all_of p xs && all_of q xs) ≡ all_of r xs
all_of_and p q r [] h = refl
all_of_and p q r (x ∷ xs) h = ground (arith, h x, all_of_and p q r xs h)

is_ok_iff : (r : Result (Unit {0})) → (r ≡ ok tt) ↔ (is_ok r ≡ true)
is_ok_iff (ok done) = (λ e. refl, λ e. refl)
is_ok_iff (thrown t) = (λ e. cc, λ e. cc)

module _ {F : Type 0} (own : Codec F ⊎ Codec F → Map String (Option F))
    (new_enum : Map String (Option F) → Codec F) (not_scalar : SchemaResolver F → Thrown)
    (subscription : Option String) where
  -- The name of every entry is that of a type, which accepts the resolvers of the entry and those
  -- of its interfaces.
  abbrev pub are_accepted : Types F → SchemaResolvers F → Bool
  are_accepted types resolvers =
      all_of
        (λ (entry : String × SchemaResolver F).
          is_type own new_enum not_scalar subscription types entry.0 (λ type.
            all_of (inherits own new_enum not_scalar subscription resolvers type)
              (interfaces_of type)
            && accept own new_enum not_scalar subscription type entry.1))
        resolvers

  module _ (resolvers : SchemaResolvers F) (types : Types F) where
    abbrev test_own : String × SchemaResolver F → Bool
    test_own entry =
        is_type own new_enum not_scalar subscription types entry.0
          (λ type. accept own new_enum not_scalar subscription type entry.1)

    abbrev change_own : String × SchemaResolver F → Change (NamedType F)
    change_own entry = set_resolvers_to_type own new_enum not_scalar subscription entry.0 entry.1

    abbrev first_pass : Change (Types F)
    first_pass = each (set_inherited own new_enum not_scalar subscription resolvers) resolvers

    abbrev second_pass : Change (Types F)
    second_pass = each (set_own own new_enum not_scalar subscription) resolvers

    abbrev inherits_all : NamedType F → Bool
    inherits_all type =
        all_of (inherits own new_enum not_scalar subscription resolvers type) (interfaces_of type)

    inherited-AllAlike :
        (e : String × SchemaResolver F) (now : Types F)
        → AllAlike own new_enum not_scalar subscription types now
        → AllAlike own new_enum not_scalar subscription types
            (set_inherited own new_enum not_scalar subscription resolvers e now).0
    unfolding set_inherited
    inherited-AllAlike e now h =
        update_type-AllAlike own new_enum not_scalar subscription types e.0
          (inherit_all own new_enum not_scalar subscription resolvers e.0) inherits_all
          (inherit_all-Alike own new_enum not_scalar subscription resolvers e.0)
          (is_ok-inherit_all own new_enum not_scalar subscription resolvers e.0) now h

    is_ok-inherited :
        (e : String × SchemaResolver F) (now : Types F)
        → AllAlike own new_enum not_scalar subscription types now
        → is_ok (set_inherited own new_enum not_scalar subscription resolvers e now).1
          ≡ is_type own new_enum not_scalar subscription types e.0 inherits_all
    unfolding set_inherited
    is_ok-inherited e now h =
        is_ok-update_type own new_enum not_scalar subscription types e.0
          (inherit_all own new_enum not_scalar subscription resolvers e.0) inherits_all
          (inherit_all-Alike own new_enum not_scalar subscription resolvers e.0)
          (is_ok-inherit_all own new_enum not_scalar subscription resolvers e.0) now h

    own-AllAlike :
        (e : String × SchemaResolver F) (now : Types F)
        → AllAlike own new_enum not_scalar subscription types now
        → AllAlike own new_enum not_scalar subscription types
            (set_own own new_enum not_scalar subscription e now).0
    unfolding set_own
    own-AllAlike e now h =
        update_type-AllAlike own new_enum not_scalar subscription types e.0 (change_own e)
          (λ t. accept own new_enum not_scalar subscription t e.1)
          (set_type-IsAlike own new_enum not_scalar subscription e.0 e.1)
          (λ t t' a.
            is_ok-set_type own new_enum not_scalar subscription e.0 e.1 t' ∙ a.accepting e.1)
          now h

    is_ok-own :
        (e : String × SchemaResolver F) (now : Types F)
        → AllAlike own new_enum not_scalar subscription types now
        → is_ok (set_own own new_enum not_scalar subscription e now).1 ≡ test_own e
    unfolding set_own
    is_ok-own e now h =
        is_ok-update_type own new_enum not_scalar subscription types e.0 (change_own e)
          (λ t. accept own new_enum not_scalar subscription t e.1)
          (set_type-IsAlike own new_enum not_scalar subscription e.0 e.1)
          (λ t t' a.
            is_ok-set_type own new_enum not_scalar subscription e.0 e.1 t' ∙ a.accepting e.1)
          now h

    both_tests :
        (e : String × SchemaResolver F)
        → (is_type own new_enum not_scalar subscription types e.0 inherits_all && test_own e)
          ≡ is_type own new_enum not_scalar subscription types e.0
              (λ type. inherits_all type && accept own new_enum not_scalar subscription type e.1)
    both_tests e = elim (Option-cases (Map.get e.0 types)) [
      | inl missing ↦ rw missing refl
      | inr (type, found) ↦ rw found refl
    ]

    is_ok-passes : is_ok (go_on (first_pass types) second_pass).1 ≡ are_accepted types resolvers
    is_ok-passes =
        let middle = (first_pass types).0 in
        let inherited = set_inherited own new_enum not_scalar subscription resolvers in
        let test_1 = λ (e : String × SchemaResolver F).
          is_type own new_enum not_scalar subscription types e.0 inherits_all in
        let ok_1 =
          is_ok-each inherited (AllAlike own new_enum not_scalar subscription types) test_1
            inherited-AllAlike is_ok-inherited resolvers types
            (AllAlike-refl own new_enum not_scalar subscription types) in
        let alike =
          each_keeps inherited (AllAlike own new_enum not_scalar subscription types) test_1
            inherited-AllAlike is_ok-inherited resolvers types
            (AllAlike-refl own new_enum not_scalar subscription types) in
        let ok_2 =
          is_ok-each (set_own own new_enum not_scalar subscription)
            (AllAlike own new_enum not_scalar subscription types) test_own own-AllAlike is_ok-own
            resolvers middle alike in
        is_ok-go_on (first_pass types) second_pass
        ∙ ap (λ b. b && is_ok (second_pass middle).1) ok_1
        ∙ ap (λ b. all_of test_1 resolvers && b) ok_2
        ∙ all_of_and test_1 test_own _ resolvers both_tests

  -- `setResolvers` returns exactly if each name among the merged resolvers is that of a type which
  -- accepts its own resolvers and those of its interfaces: an object or interface type accepts what
  -- names its fields, names with two underscores at the front aside, an enum type an enum type or
  -- what names its values, a scalar type a scalar type, a union type everything, other types
  -- nothing. In all other cases it throws.
  pub set_resolvers_iff :
      (resolvers : SchemaInput F) (types : Types F)
      → ((set_resolvers own new_enum not_scalar subscription resolvers types).1 ≡ ok tt)
        ↔ (are_accepted types (merge_resolvers own resolvers) ≡ true)
  unfolding set_resolvers set_inherited_resolvers set_resolvers_without_inheritance merge_resolvers
  set_resolvers_iff resolvers types =
      let merged = merge_resolvers own resolvers in
      let (there, back) =
        is_ok_iff (set_resolvers own new_enum not_scalar subscription resolvers types).1 in
      (λ e. sym (is_ok-passes merged types) ∙ there e, λ e. back (is_ok-passes merged types ∙ e))
