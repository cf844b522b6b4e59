-- ===== src/Server/SchemaManager/Overriding.antt =====
-- GraphQLSchemaManager.ts: what setting resolvers to one type does to a field of it.
use graphqlade.Common.{
  Bool-cases, String, ◌≡◌, refl, sym, ◌∙◌, ap, Bool, false, Option, none, some, [], ◌∷◌, string_eq,
  ◌===◌, if◌then◌else◌, arith, inl, inr, Option-cases, Result, ok, thrown,
}
use graphqlade.Common.Map
use graphqlade.Common.Map.{Map}
use graphqlade.Server.SchemaManager.{
  SchemaField, put, is_hidden, set_field_resolver, set_field_resolvers, each, go_on, Change,
}

abbrev pub option_map : {A B : Type 0} → (A → B) → Option A → Option B
option_map f none = none
option_map f (some a) = some (f a)

-- If a sequence returns, so did both of its parts.
pub go_on-ok {ℓ} :
    {S : Type ℓ} (first : S × Result (Unit {0})) (next : Change S)
    → (go_on first next).1 ≡ ok tt
    → (first.1 ≡ ok tt) × (go_on first next ≡ next first.0)
go_on-ok (s, ok done) next h = (refl, refl)
go_on-ok (s, thrown e) next h = cc

module _ {F : Type 0} (subscribes : Bool) where
  -- A field with what a resolver says of it.
  abbrev pub with_property : Option (Option F) → SchemaField F → SchemaField F
  with_property none field = field
  with_property (some value) field = put subscribes value field

  set_field_resolver_lem :
      (type f name : String) (value : Option F) (members : Map String (SchemaField F))
      → is_hidden f ≡ false
      → (set_field_resolver subscribes type (name, value) members).1 ≡ ok tt
      → Map.get f (set_field_resolver subscribes type (name, value) members).0
        ≡ option_map (with_property (if name === f then some value else none)) (Map.get f members)
  unfolding set_field_resolver
  set_field_resolver_lem type f name value members visible returned =
      let here = λ (field : SchemaField F). put subscribes value field in
      elim (Option-cases (Map.get name members)) [
        | inl missing ↦ elim (Bool-cases (is_hidden name)) [
          | inl hidden ↦ ground (arith, string_eq.equal_iff name f)
          | inr shown ↦ ground (arith)
        ]
        | inr (field, found) ↦
            ground (arith, string_eq.equal_iff name f, Map.get-set name f (here field) members)
      ]

  with_property_twice :
      (name f : String) (value : Option F) (rest : Map String (Option F))
      (field : Option (SchemaField F))
      → Map.get name rest ≡ none
      → option_map
          (with_property (Map.get f rest))
          (option_map (with_property (if name === f then some value else none)) field)
        ≡ option_map (with_property (Map.get f ((name, value) ∷ rest))) field
  unfolding Map.get
  with_property_twice name f value rest none fresh = refl
  with_property_twice name f value rest (some field) fresh =
      ground (arith, string_eq.equal_iff name f)

  -- If the code returns, a field has what the resolver says of it.
  pub get-set_field_resolvers :
      (type f : String) (resolver : Map String (Option F)) (members : Map String (SchemaField F))
      → Map.IsUnique resolver
      → is_hidden f ≡ false
      → (set_field_resolvers subscribes type resolver members).1 ≡ ok tt
      → Map.get f (set_field_resolvers subscribes type resolver members).0
        ≡ option_map (with_property (Map.get f resolver)) (Map.get f members)
  unfolding set_field_resolvers each Map.get
  get-set_field_resolvers type f [] members unique visible returned =
      elim (Option-cases (Map.get f members)) [
        | inl missing ↦ rw missing refl
        | inr (field, found) ↦ rw found refl
      ]
  get-set_field_resolvers type f ((name, value) ∷ rest) members (fresh, unique) visible returned =
      let first = set_field_resolver subscribes type (name, value) members in
      let (first_ok, same) = go_on-ok first (set_field_resolvers subscribes type rest) returned in
      ap (λ p. Map.get f p.0) same
      ∙ get-set_field_resolvers type f rest first.0 unique visible
          (sym (ap (λ p. p.1) same) ∙ returned)
      ∙ ap (option_map (with_property (Map.get f rest)))
          (set_field_resolver_lem type f name value members visible first_ok)
      ∙ with_property_twice name f value rest (Map.get f members) fresh
