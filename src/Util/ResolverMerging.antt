-- ===== src/Util/ResolverMerging.antt =====
-- src/util/mergeResolvers.ts: resolvers by the name of their type, from one object or from several.
pub mod Lookup
mod Tests
use graphqlade.Common.{String, Option, none, some, List, [], ◌∷◌, string_eq, ◌⊎◌, inl, inr}
use graphqlade.Common.Map
use graphqlade.Common.Map.{Map}

-- A `GraphQLScalarType`, a `GraphQLEnumType`, or a plain object: the resolvers of a type's fields, or
-- the values of an enum.
pub data TypeResolver (Scalar Enum Field : Type 0) : Type 0 where
  scalar : Scalar → TypeResolver Scalar Enum Field
  enum : Enum → TypeResolver Scalar Enum Field
  fields : Map String Field → TypeResolver Scalar Enum Field

abbrev pub Resolvers : Type 0 → Type 0 → Type 0 → Type 0
Resolvers Scalar Enum Field = Map String (TypeResolver Scalar Enum Field)

pub data ResolversInput (Scalar Enum Field : Type 0) : Type 0 where
  single : Resolvers Scalar Enum Field → ResolversInput Scalar Enum Field
  several : List (Resolvers Scalar Enum Field) → ResolversInput Scalar Enum Field

-- `{ ...object, ...more }`, for an object that is built up.
abbrev pub assign {ℓ} : {Field : Type ℓ} → Map String Field → Map String Field → Map String Field
assign object [] = object
assign object ((name, value) ∷ more) = assign (Map.set name value object) more

-- `own` gives the enumerable properties that a spread copies from a scalar type or an enum type.
module _ {Scalar Enum Field : Type 0} (own : Scalar ⊎ Enum → Map String Field) where
  -- What a spread copies. Nothing is copied from `undefined`.
  abbrev pub spread : Option (TypeResolver Scalar Enum Field) → Map String Field
  spread none = []
  spread (some (scalar s)) = own (inl s)
  spread (some (enum e)) = own (inr e)
  spread (some (fields m)) = m

  abbrev pub merge_type :
      Option (TypeResolver Scalar Enum Field)
      → TypeResolver Scalar Enum Field
      → TypeResolver Scalar Enum Field
  merge_type merged (scalar s) = scalar s
  merge_type merged (enum e) = fields (assign (spread merged) (spread (some (enum e))))
  merge_type merged (fields m) = fields (assign (spread merged) m)

  -- The loop over `Object.entries(resolvers)`.
  unfoldable pub merge_into :
      Resolvers Scalar Enum Field → Resolvers Scalar Enum Field → Resolvers Scalar Enum Field
  merge_into merged [] = merged
  merge_into merged ((name, resolver) ∷ rest) =
      merge_into (Map.set name (merge_type (Map.get name merged) resolver) merged) rest

  unfoldable pub merge_all :
      Resolvers Scalar Enum Field → List (Resolvers Scalar Enum Field) → Resolvers Scalar Enum Field
  unfolding merge_into
  merge_all merged [] = merged
  merge_all merged (resolvers ∷ rest) = merge_all (merge_into merged resolvers) rest

  unfoldable pub merge_resolvers : ResolversInput Scalar Enum Field → Resolvers Scalar Enum Field
  unfolding merge_all
  merge_resolvers (single resolvers) = resolvers
  merge_resolvers (several inputs) = merge_all [] inputs
