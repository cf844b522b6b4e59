-- ===== src/Http/HttpServer/Tests.antt =====
-- Runs of GraphQLHttpServer.ts over a small schema, and its theorems at concrete requests.
use graphqlade.Common.{
  ℕ, String, ◌≡◌, refl, Option, none, some, List, [], ◌∷◌, map, undefined, str, obj, Fields, field,
  end, ErrorClass, error, ok, thrown, string_eq, prop,
}
use graphqlade.Graphql.{Definition, operation, OperationKind}
use graphqlade.Server.ArgsParser
use graphqlade.Server.ArgsParser.{ArgsParser, Options}
use graphqlade.Server.ArgsParser.Tests.{parse_text, no_limit, parse_json, all_valid}
use graphqlade.Http.HttpServer.{Request, Environment, execute, parse, raw_args_of, validate, answer}
use graphqlade.Http.HttpServer.Statuses.{execute-IsServed, IsServed}
use graphqlade.Http.HttpServer.Equivalence.{serve, serve-init}
use graphqlade.Http.HttpServer.Depth.{parser_after, execute-IsShallow}
use graphqlade.Graphql.Visit.{walk_definitions}
use graphqlade.Util.DepthLimit.{limit_depth}
use graphqlade.Util.DepthLimit.Arrival.{IsShallow}
use graphqlade.Util.DepthLimit.Tests.{walk_visit, walk_visit-IsVisit}

abbrev first_kind : List Definition → Option OperationKind
first_kind (operation kind name sub ∷ _) = some kind
first_kind _ = none

-- The context is the number of the user; execution returns it.
abbrev pub env : Environment (Option ℕ) (Unit {0}) ℕ ℕ
env = record {
  to_upper = λ s. s;
  limit_depth = no_limit;
  graphql_parse = parse_text;
  json_parse = parse_json;
  get_operation = λ document name. first_kind document.definitions;
  graphql_validate = all_valid;
  create_context = λ request args. elim request.headers [
    | none ↦ thrown (error (record { class = ErrorClass.plain; message = "Who?"; code = none }))
    | some user ↦ ok user
  ];
  graphql_execute = λ schema context args. ok context;
}

abbrev pub fresh_parser : ArgsParser
fresh_parser = record {
  max_depth = none;
  parse_query_cache = record { cache = []; index = 0; max_size = 50 };
  validate_cache = record { cache = []; index = 0; max_size = 50 };
}

abbrev fields : String → Fields
fields text = field "query" (str text) end

abbrev pub get : String → Option ℕ → Request (Option ℕ)
get text user = record {
  method = "GET";
  headers = user;
  query = some (fields text);
  body = undefined;
}

abbrev post : String → Option ℕ → Request (Option ℕ)
post text user = record { method = "POST"; headers = user; query = none; body = obj (fields text) }

abbrev put : Request (Option ℕ)
put = record { method = "PUT"; headers = none; query = none; body = undefined }

statuses :
    ((execute env tt (get "ping" (some 7)) fresh_parser).1.status ≡ 200)
    × ((execute env tt (get "change" (some 7)) fresh_parser).1.status ≡ 400)
    × ((execute env tt (post "change" (some 7)) fresh_parser).1.status ≡ 200)
    × ((execute env tt (post "pong" (some 7)) fresh_parser).1.status ≡ 400)
    × ((execute env tt (get "ping" none) fresh_parser).1.status ≡ 500)
    × ((execute env tt put fresh_parser).1.status ≡ 405)
unfolding execute parse raw_args_of validate answer ArgsParser.Tests.running prop
statuses = (refl, refl, refl, refl, refl, refl)

-- `validate` throws for a schema that is itself invalid.
abbrev invalid_schema : Environment (Option ℕ) (Unit {0}) ℕ ℕ
invalid_schema = record env {
  graphql_validate = λ schema document.
      thrown (error (record { class = ErrorClass.plain; message = "No query type."; code = none }));
}

invalid_schema_500 : (execute invalid_schema tt (get "ping" (some 7)) fresh_parser).1.status ≡ 500
unfolding execute parse raw_args_of validate answer ArgsParser.Tests.running prop
invalid_schema_500 = refl

execute-IsServed_example :
    IsServed env tt
      (get "ping" (some 7))
      fresh_parser
      (execute env tt (get "ping" (some 7)) fresh_parser).1
execute-IsServed_example = execute-IsServed env tt (get "ping" (some 7)) fresh_parser statuses.0

abbrev traffic : List (Request (Option ℕ))
traffic = get "ping" (some 7) ∷ get "ping" (some 8) ∷ post "pong" none ∷ put ∷ []

abbrev small : Options
small = record { cache_size = some 1; max_depth = none }

serve-init_example :
    serve env tt traffic (ArgsParser.init small)
    ≡ map (λ request. (execute env tt request (ArgsParser.init small)).1) traffic
serve-init_example = serve-init env tt small traffic

-- A server that limits the depth to 1.
abbrev limiting : Environment (Option ℕ) (Unit {0}) ℕ ℕ
limiting = record env { limit_depth = limit_depth walk_visit }

abbrev shallow_options : Options
shallow_options = record { cache_size = some 1; max_depth = some 1 }

served_twice :
    (execute limiting tt
      (get "ping" (some 7))
      (parser_after limiting tt (get "ping" none ∷ []) (ArgsParser.init shallow_options))).1.status
    ≡ 200
unfolding execute parse raw_args_of validate answer ArgsParser.Tests.running prop parser_after
    limit_depth walk_visit walk_definitions
served_twice = refl

execute-IsShallow_example :
    (served : IsServed limiting tt
      (get "ping" (some 7))
      (parser_after limiting tt (get "ping" none ∷ []) (ArgsParser.init shallow_options))
      (execute limiting tt
        (get "ping" (some 7))
        (parser_after limiting tt (get "ping" none ∷ []) (ArgsParser.init shallow_options))).1)
    × IsShallow served.args.document 1
execute-IsShallow_example =
    execute-IsShallow limiting tt walk_visit walk_visit-IsVisit (λ document n. refl) 0
      shallow_options refl (get "ping" none ∷ []) (get "ping" (some 7)) served_twice
