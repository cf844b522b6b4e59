-- ===== src/Server/SchemaManager/Tests.antt =====
-- Runs of GraphQLSchemaManager.ts over a small schema, and its theorems at it.
use graphqlade.Common.{
  ap, ℕ, String, ◌≡◌, refl, true, Option, none, some, [], ◌∷◌, Error, Thrown, error, Result, ok,
  thrown, string_eq, ◌===◌, plain_error, ◌⊎◌, inl, inr, ◌↔◌, Value, if◌then◌else◌,
}
use graphqlade.Common.Map
use graphqlade.Common.Map.{Map}
use graphqlade.Util.ResolverMerging.{scalar, enum, fields, single, several, merge_resolvers}
use graphqlade.Util.ResolverMerging.Lookup.{AreProper}
use graphqlade.Server.SchemaManager.{
  SchemaField, object_type, interface_type, enum_type, scalar_type, input_type, Types, Codec,
  SchemaResolver, SchemaResolvers, set_resolvers, undefined_type,
}
use graphqlade.Server.SchemaManager.Precedence.{IsDecided, set_resolvers-IsDecided}
use graphqlade.Server.SchemaManager.Acceptance.{are_accepted, set_resolvers_iff}
use graphqlade.Server.SchemaManager.Everywhere.{field_at}
use graphqlade.Server.SchemaManager.ErrorHandling.{
  Resolve, plain, IsHandled, set_resolver_error_handler, set_resolver_error_handler-IsHandled,
}

abbrev unset : {F : Type 0} → SchemaField F
unset = record { resolve = none; subscribe = none }

abbrev codec : ℕ → Codec ℕ
codec n = record { parse_literal = some n; parse_value = none; serialize = some n }

-- interface Node { id } type User implements Node { id name } type Subscription { ticks }
-- enum Color { RED } scalar Date type Query { _sdl _sdlVersion } input Filter
abbrev types : Types ℕ
types =
    ("Node", interface_type (("id", unset) ∷ []) [] none)
    ∷ ("User", object_type (("id", unset) ∷ ("name", unset) ∷ []) ("Node" ∷ []) none)
    ∷ ("Subscription", object_type (("ticks", unset) ∷ []) [] none)
    ∷ ("Color", enum_type (("RED", none) ∷ []) (codec 0))
    ∷ ("Date", scalar_type (codec 0))
    ∷ ("Query", object_type (("_sdl", unset) ∷ ("_sdlVersion", unset) ∷ []) [] none)
    ∷ ("Filter", input_type)
    ∷ []

abbrev own : Codec ℕ ⊎ Codec ℕ → Map String (Option ℕ)
own (inl c) = ("serialize", c.serialize) ∷ []
own (inr c) = ("name", some 9) ∷ []

abbrev new_enum : Map String (Option ℕ) → Codec ℕ
new_enum values = codec 5

abbrev not_scalar : SchemaResolver ℕ → Thrown
not_scalar r = error (plain_error "Expected a GraphQL Scalar type.")

abbrev resolvers : SchemaResolvers ℕ
resolvers =
    ("Node", fields (("id", some 1) ∷ ("__resolveType", some 2) ∷ []))
    ∷ ("User", fields (("name", some 3) ∷ []))
    ∷ ("Subscription", fields (("ticks", some 4) ∷ []))
    ∷ ("Color", fields (("RED", some 6) ∷ []))
    ∷ ("Date", scalar (record { parse_literal = none; parse_value = none; serialize = some 7 }))
    ∷ []

abbrev done : Types ℕ
done =
    (
      "Node",
      interface_type (("id", record { resolve = some 1; subscribe = none }) ∷ []) [] (some 2),
    )
    ∷ (
      "User",
      object_type
          (("id", record { resolve = some 1; subscribe = none })
            ∷ ("name", record { resolve = some 3; subscribe = none })
            ∷ [])
          ("Node" ∷ []) none,
    )
    ∷ (
      "Subscription",
      object_type (("ticks", record { resolve = none; subscribe = some 4 }) ∷ []) [] none,
    )
    ∷ ("Color", enum_type (("RED", none) ∷ []) (codec 5))
    ∷ (
      "Date",
      scalar_type (record { parse_literal = some 0; parse_value = some 0; serialize = some 7 }),
    )
    ∷ ("Query", object_type (("_sdl", unset) ∷ ("_sdlVersion", unset) ∷ []) [] none)
    ∷ ("Filter", input_type)
    ∷ []

manage :
    set_resolvers own new_enum not_scalar (some "Subscription") (single resolvers) types
    ≡ (done, ok tt)
unfolding set_resolvers Map.get Map.set
manage = refl

-- An enum type among several objects is spread, and its properties are no values.
spread_enum :
    (set_resolvers own new_enum not_scalar none
      (several ((("Color", enum (codec 8)) ∷ []) ∷ []))
      types).1
    ≡ (set_resolvers own new_enum not_scalar none
        (single (("Color", fields (("name", some 9) ∷ [])) ∷ []))
        types).1
unfolding set_resolvers Map.get Map.set
spread_enum = refl

alone_enum :
    (set_resolvers own new_enum not_scalar none (single (("Color", enum (codec 8)) ∷ [])) types).1
    ≡ ok tt
unfolding set_resolvers Map.get Map.set
alone_enum = refl

unknown_type :
    (set_resolvers own new_enum not_scalar none (single (("Usr", fields []) ∷ [])) types).1
    ≡ thrown (undefined_type "Usr")
unfolding set_resolvers Map.get Map.set
unknown_type = refl

resolvers_proper : AreProper own (merge_resolvers own (single resolvers))
unfolding merge_resolvers Map.get
resolvers_proper = (
  (refl, (refl, (refl, (refl, (refl, tt))))),
  ((refl, (refl, tt)), ((refl, tt), ((refl, tt), ((refl, tt), ((refl, tt), tt))))),
)

set_resolvers-IsDecided_example :
    IsDecided own new_enum not_scalar
      (some "Subscription")
      "id"
      resolvers
      "User"
      types
      (set_resolvers own new_enum not_scalar (some "Subscription") (single resolvers) types).0
unfolding merge_resolvers Map.get
set_resolvers-IsDecided_example =
    set_resolvers-IsDecided own new_enum not_scalar (some "Subscription") "id" refl
      (single resolvers) types resolvers_proper (ap (λ p. p.1) manage) "User"
      (fields (("name", some 3) ∷ [])) refl

set_resolvers_iff_example :
    ((set_resolvers own new_enum not_scalar (some "Subscription") (single resolvers) types).1
      ≡ ok tt)
    ↔ (are_accepted own new_enum not_scalar
          (some "Subscription")
          types
          (merge_resolvers own (single resolvers))
        ≡ true)
set_resolvers_iff_example =
    set_resolvers_iff own new_enum not_scalar (some "Subscription") (single resolvers) types

-- Resolvers that are called with a number; a handler that knows one message.
abbrev failing : Types (Resolve ℕ String)
failing =
    (
      "Query",
      object_type
          ((
            "now",
            record { resolve = some (λ n. thrown (error (plain_error "down"))); subscribe = none },
          )
            ∷ [])
          [] none,
    )
    ∷ []

abbrev apologise : Error → ℕ → Result (Option Error)
apologise e n = ok (if e.message === "down" then some (plain_error "Sorry") else none)

abbrev text_of : Value → String
text_of v = "?"

abbrev default_resolver : Resolve ℕ String
default_resolver n = ok (plain "default")

set_resolver_error_handler-IsHandled_example :
    (after : SchemaField (Resolve ℕ String)) × (field_at "Query" "now"
        (set_resolver_error_handler text_of default_resolver apologise failing)
      ≡ some after)
    × IsHandled text_of default_resolver apologise
        (record { resolve = some (λ n. thrown (error (plain_error "down"))); subscribe = none })
        after
unfolding Map.get
set_resolver_error_handler-IsHandled_example =
    set_resolver_error_handler-IsHandled text_of default_resolver apologise "Query" "now" failing
      (record { resolve = some (λ n. thrown (error (plain_error "down"))); subscribe = none }) refl
      refl
