-- ===== src/Server/SchemaManager/Updates.antt =====
-- GraphQLSchemaManager.ts: what a loop over resolvers does to the types of their names.
use graphqlade.Common.{
  Bool-cases, String, ◌≡◌, refl, sym, ◌∙◌, ap, subst, false, Option, none, some, [], ◌∷◌, string_eq,
  ◌===◌, arith, inl, inr, Option-cases, Result, ok, thrown, Thrown, ◌⊎◌,
}
use graphqlade.Common.Map
use graphqlade.Common.Map.{Map}
use graphqlade.Server.SchemaManager.{
  NamedType, Types, Codec, SchemaResolver, update_type, each, go_on, Change,
}
use graphqlade.Server.SchemaManager.Overriding.{go_on-ok}

module _ {F R : Type 0} (own : Codec F ⊎ Codec F → Map String (Option F))
    (new_enum : Map String (Option F) → Codec F) (not_scalar : SchemaResolver F → Thrown)
    (subscription : Option String) (change : String × R → Change (NamedType F)) where
  abbrev pub update : String × R → Change (Types F)
  update entry = update_type own new_enum not_scalar subscription entry.0 (change entry)

  abbrev pub update_all : Map String R → Change (Types F)
  update_all entries = each update entries

  -- The type of an entry is there, its change returns, and it is the outcome of it.
  abbrev pub IsChanged : String → Option R → Types F → Types F → Type 0
  IsChanged name none types after = Map.get name after ≡ Map.get name types
  IsChanged name (some r) types after =
      (type : NamedType F) × (Map.get name types ≡ some type)
      × ((change (name, r) type).1 ≡ ok tt)
      × (Map.get name after ≡ some (change (name, r) type).0)

  update-IsChanged :
      (name : String) (r : R) (types : Types F)
      → (update (name, r) types).1 ≡ ok tt
      → IsChanged name (some r) types (update (name, r) types).0
  unfolding update_type
  update-IsChanged name r types returned = elim (Option-cases (Map.get name types)) [
    | inl missing ↦ ground arith
    | inr (type, found) ↦ (
      type,
      found,
      rw (found, update_type) at returned,
      rw (found, update_type) (Map.get-set_self name _ types),
    )
  ]

  update_other :
      (name other : String) (r : R) (types : Types F)
      → (name === other) ≡ false
      → Map.get other (update (name, r) types).0 ≡ Map.get other types
  unfolding update_type
  update_other name other r types ne = elim (Option-cases (Map.get name types)) [
    | inl missing ↦ rw (missing, update_type) refl
    | inr (type, found) ↦ rw (found, update_type) (Map.get-set_other name other _ types ne)
  ]

  absent_tail :
      (name n : String) (r : R) (rest : Map String R)
      → Map.get name ((n, r) ∷ rest) ≡ none
      → ((n === name) ≡ false) × (Map.get name rest ≡ none)
  unfolding Map.get
  absent_tail name n r rest absent = elim (Bool-cases (n === name)) [
    | inl same ↦ absurd (ground arith)
    | inr other ↦ (other, rw (other, Map.get) at absent)
  ]

  update_all-none :
      (name : String) (entries : Map String R) (types : Types F)
      → Map.get name entries ≡ none
      → Map.get name (update_all entries types).0 ≡ Map.get name types
  unfolding each
  update_all-none name [] types absent = refl
  update_all-none name ((n, r) ∷ rest) types absent =
      let (other, later) = absent_tail name n r rest absent in
      go_on-get (update (n, r) types) (update_all rest) (update_other n name r types other)
        (λ s. update_all-none name rest s later)
    where
      go_on-get :
          (first : Types F × Result (Unit {0})) (next : Change (Types F))
          → Map.get name first.0 ≡ Map.get name types
          → ((s : Types F) → Map.get name (next s).0 ≡ Map.get name s)
          → Map.get name (go_on first next).0 ≡ Map.get name types
      go_on-get (s, ok done) next h k = k s ∙ h
      go_on-get (s, thrown e) next h k = h

  IsChanged-cong :
      (name : String) (o : Option R) (types types' after after' : Types F)
      → Map.get name types ≡ Map.get name types'
      → Map.get name after ≡ Map.get name after'
      → IsChanged name o types after
      → IsChanged name o types' after'
  IsChanged-cong name none types types' after after' before end h = sym end ∙ h ∙ before
  IsChanged-cong name (some r) types types' after after' before end (type, found, returned, new) =
      (type, sym before ∙ found, returned, sym end ∙ new)

  pub update_all-IsChanged :
      (entries : Map String R) (types : Types F)
      → Map.IsUnique entries
      → (update_all entries types).1 ≡ ok tt
      → (name : String) → IsChanged name (Map.get name entries) types (update_all entries types).0
  unfolding each Map.get
  update_all-IsChanged [] types unique returned name = refl
  update_all-IsChanged ((n, r) ∷ rest) types (fresh, unique) returned name =
      let first = update (n, r) types in
      let (first_ok, same) = go_on-ok first (update_all rest) returned in
      let after = (update_all ((n, r) ∷ rest) types).0 in
      let end : Map.get name (update_all rest first.0).0 ≡ Map.get name after =
        ap (λ p. Map.get name p.0) (sym same) in
      elim (Bool-cases (n === name)) [
        | inr other ↦ rw other (
            IsChanged-cong name (Map.get name rest) first.0 types _ after
              (update_other n name r types other) end
              (update_all-IsChanged rest first.0 unique (sym (ap (λ p. p.1) same) ∙ returned) name))
        | inl here ↦ rw here (
            subst
              (λ m.
                Map.get m (update_all rest first.0).0 ≡ Map.get m after
                → IsChanged m (some r) types after)
              ((string_eq.equal_iff n name).0 here)
              (λ e.
                IsChanged-cong n (some r) types types first.0 after refl
                  (sym (update_all-none n rest first.0 fresh) ∙ e)
                  (update-IsChanged n r types first_ok))
              end)
      ]

  pub update_all_at :
      (entries : Map String R) (types : Types F)
      → Map.IsUnique entries
      → (update_all entries types).1 ≡ ok tt
      → (name : String) (r : R) → Map.get name entries ≡ some r
      → IsChanged name (some r) types (update_all entries types).0
  update_all_at entries types unique returned name r found =
      subst (λ o. IsChanged name o types (update_all entries types).0) found
        (update_all-IsChanged entries types unique returned name)
