-- ===== src/Server/GraphqlServer/Tests.antt =====
-- Requests and subscriptions to a small GraphQLServer, and the steps of its bootstrap.
use graphqlade.Common.{
  ℕ, String, ◌≡◌, refl, false, Option, none, some, List, [], ◌∷◌, map, null, num, str, undefined,
  Error, Thrown, error, plain_error, Result, ok, thrown, ◌⊎◌, inr, if◌then◌else◌, ◌===◌, string_eq,
}
use graphqlade.Common.Map
use graphqlade.Common.Map.{Map}
use graphqlade.Util.ResolverMerging.{fields, single, merge_resolvers}
use graphqlade.Util.ResolverMerging.Lookup.{AreProper}
use graphqlade.Server.ArgsParser.{Options}
use graphqlade.Http.HttpServer.Tests.{env, get}
use graphqlade.Server.SchemaManager.{
  SchemaField, object_type, interface_type, Types, Codec, SchemaResolver, SchemaInput,
  set_resolvers,
}
use graphqlade.Server.SchemaManager.Everywhere.{field_at, map_entries}
use graphqlade.Server.SchemaManager.Defaults.{set_default_field_resolver}
use graphqlade.Server.SchemaManager.ErrorHandling.{
  Resolve, plain, IsHandled, set_resolver_error_handler,
}
use graphqlade.Server.GraphqlServer.{
  Environment, Event, requests, subscribes, handle, shared_parser,
}
use graphqlade.Server.GraphqlServer.Equivalence.{serve, serve_all-init}
use graphqlade.Server.GraphqlServer.Bootstrapping.{BootstrapOptions, prepare, prepare-IsHandled}

abbrev both : Environment (Option ℕ) (Unit {0}) ℕ ℕ ℕ
both = record {
  http = env;
  create_socket_context =
      λ payload args. elim payload [ num user ↦ ok user | _ ↦ thrown (error (plain_error "Who?")) ];
  graphql_subscribe = λ schema user args. ok user;
}

abbrev events : List (Event (Option ℕ))
events =
    requests (get "ping" (some 7))
    ∷ subscribes (num 7)
        (record { query = str "ping"; operation_name = undefined; variables = undefined })
    ∷ subscribes null
        (record { query = str "pong"; operation_name = undefined; variables = undefined })
    ∷ requests (get "pong" (some 7))
    ∷ []

abbrev one_entry : Options
one_entry = record { cache_size = some 1; max_depth = none }

serve_all-init_example :
    serve both tt events (shared_parser none one_entry)
    ≡ map (λ event. (handle both tt event (shared_parser none one_entry)).1) events
serve_all-init_example = serve_all-init both tt one_entry events

abbrev F : Type 0
F = Resolve ℕ String

abbrev says : String → F
says text n = ok (plain text)

abbrev fails : F
fails n = thrown (error (plain_error "down"))

abbrev unset : SchemaField F
unset = record { resolve = none; subscribe = none }

-- interface Node { id } type User implements Node { id name }
abbrev types : Types F
types =
    ("Node", interface_type (("id", unset) ∷ []) [] none)
    ∷ ("User", object_type (("id", unset) ∷ ("name", unset) ∷ []) ("Node" ∷ []) none)
    ∷ []

abbrev resolvers : SchemaInput F
resolvers = single (("Node", fields (("id", some fails) ∷ [])) ∷ ("User", fields []) ∷ [])

abbrev apologise : Error → ℕ → Result (Option Error)
apologise e n = ok (if e.message === "down" then some (plain_error "Sorry") else none)

abbrev options : BootstrapOptions ℕ String
options = record {
  root = none;
  schema = some (inr (record { types = types; subscription = none }));
  default_field_resolver = some (says "default");
  resolvers = some resolvers;
  resolver_error_handler = some apologise;
  stitching = false;
}

abbrev own : Codec F ⊎ Codec F → Map String (Option F)
own codec = []

abbrev new_enum : Map String (Option F) → Codec F
new_enum values = record { parse_literal = none; parse_value = none; serialize = none }

abbrev not_scalar : SchemaResolver F → Thrown
not_scalar r = error (plain_error "Expected a GraphQL Scalar type.")

returned :
    (prepare own new_enum not_scalar
      (λ v. "?")
      (says "own property")
      says
      (λ t. t)
      options
      none
      none
      types).1
    ≡ ok tt
unfolding prepare set_resolvers set_default_field_resolver set_resolver_error_handler map_entries
    Map.get Map.set
returned = refl

resolvers_proper : AreProper own (merge_resolvers own resolvers)
unfolding merge_resolvers Map.get
resolvers_proper = ((refl, (refl, tt)), ((refl, tt), (tt, tt)))

prepare-IsHandled_example :
    (after : SchemaField F) × (field_at "User" "id"
        (prepare own new_enum not_scalar
          (λ v. "?")
          (says "own property")
          says
          (λ t. t)
          options
          none
          none
          types).0
      ≡ some after)
    × IsHandled
        (λ v. "?")
        (says "own property")
        apologise
        (record { resolve = some fails; subscribe = none })
        after
unfolding merge_resolvers Map.get
prepare-IsHandled_example =
    prepare-IsHandled own new_enum not_scalar (λ v. "?") (says "own property") says (λ t. t)
      (says "default") resolvers apologise options refl refl refl refl none none types
      resolvers_proper returned "User" "id" (fields []) refl refl refl
      (object_type (("id", unset) ∷ ("name", unset) ∷ []) ("Node" ∷ []) none) unset refl refl
