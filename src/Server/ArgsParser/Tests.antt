-- ===== src/Server/ArgsParser/Tests.antt =====
-- Runs of the parser of GraphQLExecutionArgsParser.ts, and its theorems at concrete requests.
use graphqlade.Common.{
  ℕ, String, ◌≡◌, refl, Option, none, some, List, [], ◌∷◌, map, Value, null, num, str, obj, Fields,
  end, Error, ErrorClass, error, Result, ok, thrown, throw_type_error, ◌⊎◌, inl, inr, ◌===◌,
  string_eq, if◌then◌else◌,
}
use graphqlade.Common.Map
use graphqlade.Graphql.{
  Document, GraphqlError, operation, scalar_type_definition, OperationKind, no_selections,
}
use graphqlade.Util.LruCache
use graphqlade.Util.CleanOperations.{clean_operations}
use graphqlade.Server.ArgsParser.{
  RawExecutionArgs, ParsedExecutionArgs, Options, init, load, check_depth, parse_query,
  parse_operation_name, parse_variables, parse, validate,
}
use graphqlade.Server.ArgsParser.Session.{check, check_all, check_fresh, check_all-init}

unfoldable pub running : Unit {0}
unfolding check_all check parse validate parse_query load check_depth clean_operations init
    LruCache.get LruCache.set Map.get Map.set parse_operation_name parse_variables
running = tt

abbrev pub ping : Document
ping = record { definitions = operation OperationKind.query (some "ping") no_selections ∷ [] }

abbrev syntax_problem : Error
syntax_problem = record { class = ErrorClass.graphql_error; message = "Syntax Error"; code = none }

-- A parser that knows three texts.
abbrev pub parse_text : String → Result Document
parse_text text =
    if text === "ping"
    then ok (record { definitions = scalar_type_definition "T" ∷ ping.definitions })
    else if text === "change"
    then ok (record { definitions = operation OperationKind.mutation none no_selections ∷ [] })
    else thrown (error syntax_problem)

abbrev pub no_limit : Document → ℕ → Result (Unit {0})
no_limit document n = ok tt

abbrev pub parse_json : String → String ⊎ Value
parse_json text = if text === "{}" then inr (obj end) else inl "Unexpected token"

abbrev pub all_valid : Unit {0} → Document → Result (List GraphqlError)
all_valid schema document = ok []

abbrev ask : String → Value → RawExecutionArgs
ask text variables = record { query = str text; operation_name = str ""; variables = variables }

abbrev requests : List RawExecutionArgs
requests =
    ask "ping" (str "{}")
    ∷ ask "ping" (str "{")
    ∷ ask "pong" null
    ∷ ask "ping" (num 1)
    ∷ ask "ping" (str "null")
    ∷ []

abbrev limited : Options
limited = record { cache_size = some 1; max_depth = some 3 }

abbrev ping_args : Option Fields → ParsedExecutionArgs
ping_args variables = record {
  document = ping;
  operation_name = none;
  variable_values = variables;
  original_query = "ping";
}

answers :
    (check_all no_limit parse_text parse_json all_valid tt requests (init limited)).1
    ≡ ok (ping_args (some end), [])
      ∷ throw_type_error "Invalid variables, failed to parse JSON: Unexpected token"
      ∷ thrown (error syntax_problem)
      ∷ throw_type_error "Invalid variables, expected object"
      ∷ ok (ping_args none, [])
      ∷ []
unfolding running
answers = refl

check_all-init_example :
    (check_all no_limit parse_text parse_json all_valid tt requests (init limited)).1
    ≡ map (check_fresh no_limit parse_text parse_json all_valid tt (some 3)) requests
check_all-init_example = check_all-init no_limit parse_text parse_json all_valid tt limited requests
