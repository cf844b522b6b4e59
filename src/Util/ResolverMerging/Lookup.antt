-- ===== src/Util/ResolverMerging/Lookup.antt =====
-- Which of several objects a merged resolver comes from.
use graphqlade.Common.{
  Bool-cases, subst, String, ◌≡◌, refl, sym, ◌∙◌, ap, false, Option, none, some, List, [], ◌∷◌,
  string_eq, ◌===◌, All, arith, inl, inr, ◌⊎◌,
}
use graphqlade.Common.Map
use graphqlade.Common.Map.{Map}
use graphqlade.Util.ResolverMerging.{
  TypeResolver, scalar, enum, fields, Resolvers, several, assign, spread, merge_type, merge_into,
  merge_all, merge_resolvers,
}

abbrev pub otherwise {ℓ} : {A : Type ℓ} → Option A → A → A
otherwise none a = a
otherwise (some b) a = b

abbrev pub first_of {ℓ} : {A : Type ℓ} → Option A → Option A → Option A
first_of none o = o
first_of (some a) o = some a

module _ {Scalar Enum Field : Type 0} (own : Scalar ⊎ Enum → Map String Field) where
  abbrev pub said : Option Field → Option (Option Field)
  said none = none
  said (some v) = some (some v)

  -- What an object says of a field: nothing, or which resolver it has, if any. A scalar type says
  -- all of its fields.
  abbrev pub says_of_type : String → Option (TypeResolver Scalar Enum Field) → Option (Option Field)
  says_of_type field none = none
  says_of_type field (some (scalar s)) = some (Map.get field (own (inl s)))
  says_of_type field (some (enum e)) = said (Map.get field (own (inr e)))
  says_of_type field (some (fields m)) = said (Map.get field m)

  abbrev pub says : String → String → Resolvers Scalar Enum Field → Option (Option Field)
  says type field resolvers = says_of_type field (Map.get type resolvers)

  -- The last object that says something of a field.
  abbrev pub latest : String → String → List (Resolvers Scalar Enum Field) → Option (Option Field)
  latest type field [] = none
  latest type field (resolvers ∷ rest) =
      first_of (latest type field rest) (says type field resolvers)

  abbrev pub lookup : String → String → Resolvers Scalar Enum Field → Option Field
  lookup type field resolvers = Map.get field (spread own (Map.get type resolvers))

  -- No object has two properties of one name.
  abbrev pub IsProper : TypeResolver Scalar Enum Field → Type 0
  IsProper (scalar s) = Map.IsUnique (own (inl s))
  IsProper (enum e) = Map.IsUnique (own (inr e))
  IsProper (fields m) = Map.IsUnique m

  abbrev pub AreProper : Resolvers Scalar Enum Field → Type 0
  AreProper resolvers =
      Map.IsUnique resolvers
      × All (λ (entry : String × TypeResolver Scalar Enum Field). IsProper entry.1) resolvers

  get-assign :
      (field : String) (object more : Map String Field)
      → Map.IsUnique more
      → Map.get field (assign object more) ≡ first_of (Map.get field more) (Map.get field object)
  unfolding Map.get
  get-assign field object [] u = refl
  get-assign field object ((name, value) ∷ more) (fresh, u) = ground (
    arith,
    get-assign field (Map.set name value object) more u,
    Map.get-set name field value object,
    string_eq.equal_iff name field,
  )

  get-merge_type :
      (field : String) (merged : Option (TypeResolver Scalar Enum Field))
      (r : TypeResolver Scalar Enum Field)
      → IsProper r
      → Map.get field (spread own (some (merge_type own merged r)))
        ≡ otherwise (says_of_type field (some r)) (Map.get field (spread own merged))
  get-merge_type field merged (scalar s) u = refl
  get-merge_type field merged (enum e) u =
      ground (arith, get-assign field (spread own merged) (own (inr e)) u)
  get-merge_type field merged (fields m) u =
      ground (arith, get-assign field (spread own merged) m u)

  module _ (field name : String) (r : TypeResolver Scalar Enum Field)
      (merged rest : Resolvers Scalar Enum Field) where
    abbrev updated : Resolvers Scalar Enum Field
    updated = Map.set name (merge_type own (Map.get name merged) r) merged

    -- The first entry has its say before the rest, for any type.
    abbrev IsHeard : String → Type 0
    IsHeard type =
        otherwise (says type field rest) (lookup type field updated)
        ≡ otherwise (says type field ((name, r) ∷ rest)) (lookup type field merged)

    own_type-IsHeard : Map.get name rest ≡ none → IsProper r → IsHeard name
    unfolding Map.get
    own_type-IsHeard fresh p =
        rw
          (
            fresh,
            (string_eq.equal_iff name name).1 refl,
            Map.get-set_self name (merge_type own (Map.get name merged) r) merged,
          )
          (get-merge_type field (Map.get name merged) r p)

    other_type-IsHeard : (type : String) → (name === type) ≡ false → IsHeard type
    unfolding Map.get
    other_type-IsHeard type other =
        rw
          (other, Map.get-set_other name type (merge_type own (Map.get name merged) r) merged other)
          refl

  lookup-merge_into :
      (type field : String) (merged resolvers : Resolvers Scalar Enum Field)
      → AreProper resolvers
      → lookup type field (merge_into own merged resolvers)
        ≡ otherwise (says type field resolvers) (lookup type field merged)
  unfolding merge_into Map.get
  lookup-merge_into type field merged [] proper = refl
  lookup-merge_into type field merged ((name, r) ∷ rest) ((fresh, unique), (p, proper)) =
      lookup-merge_into type field (updated field name r merged rest) rest (unique, proper)
      ∙ elim (Bool-cases (name === type)) [
        | inl same ↦
            subst (IsHeard field name r merged rest) ((string_eq.equal_iff name type).0 same)
              (own_type-IsHeard field name r merged rest fresh p)
        | inr other ↦ other_type-IsHeard field name r merged rest type other
      ]

  otherwise-first_of :
      {A : Type 0} (a b : Option A) (x : A)
      → otherwise (first_of a b) x ≡ otherwise a (otherwise b x)
  otherwise-first_of none b x = refl
  otherwise-first_of (some _) b x = refl

  lookup-merge_all :
      (type field : String) (merged : Resolvers Scalar Enum Field)
      (inputs : List (Resolvers Scalar Enum Field))
      → All AreProper inputs
      → lookup type field (merge_all own merged inputs)
        ≡ otherwise (latest type field inputs) (lookup type field merged)
  unfolding merge_all
  lookup-merge_all type field merged [] proper = refl
  lookup-merge_all type field merged (resolvers ∷ rest) (p, proper) =
      lookup-merge_all type field (merge_into own merged resolvers) rest proper
      ∙ ap (otherwise (latest type field rest)) (lookup-merge_into type field merged resolvers p)
      ∙ sym (otherwise-first_of (latest type field rest) (says type field resolvers) _)

  -- In the merged resolvers of several objects, each with properties of different names, a field of
  -- a type has the resolver that the last object with a word on it gives, where an object that has a
  -- scalar type for the type decides all of its fields; it has none if no object has a word on it.
  pub lookup-merge_resolvers :
      (type field : String) (inputs : List (Resolvers Scalar Enum Field))
      → All AreProper inputs
      → lookup type field (merge_resolvers own (several inputs))
        ≡ otherwise (latest type field inputs) none
  unfolding merge_resolvers Map.get
  lookup-merge_resolvers type field inputs proper = lookup-merge_all type field [] inputs proper
