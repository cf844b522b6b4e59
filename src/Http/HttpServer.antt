-- ===== src/Http/HttpServer.antt =====
-- src/http/GraphQLHttpServer.ts: one request through `execute`. The parser with its caches is the
-- server's state. The context factory, `graphql`'s `getOperationAST`, `validate` and `execute`, and
-- `toUpperCase` are parameters; a promise is represented by what it settles to.
pub mod Statuses
pub mod Equivalence
pub mod Depth
pub mod Tests
use graphqlade.Common.{
  ℕ, ltb, String, Bool, true, false, ◌&&◌, ◌||◌, Option, none, some, List, [], ◌∷◌, map, length,
  if◌then◌else◌, Value, undefined, null, str, obj, Fields, prop, Error, ErrorClass, Thrown, error,
  value, Result, ok, thrown, ◌>>=◌, throw_type_error, concat, ◌===◌, string_eq, ◌⊎◌, inl, inr,
}
use graphqlade.Graphql.{Document, GraphqlError, OperationKind, mutation}
use graphqlade.Util.Guards.{assert, is_record}
use graphqlade.Server.ArgsParser
use graphqlade.Server.ArgsParser.{RawExecutionArgs, ParsedExecutionArgs, ArgsParser}

pub record Request (H : Type 0) : Type 0 where
  pub method : String
  pub headers : H
  pub query : Option Fields
  pub body : Value

-- An entry of `errors`: a `GraphQLError` as it is, or an object that has just a message.
pub data ResponseError : Type 0 where
  graphql : GraphqlError → ResponseError
  with_message : Value → ResponseError

pub data Body (B : Type 0) : Type 0 where
  errors : List ResponseError → Body B
  executed : B → Body B

pub record Response (C B : Type 0) : Type 0 where
  pub status : ℕ
  pub headers : List (String × String)
  pub body : Body B
  pub context : Option C

-- `value ?? 'Internal Server Error'`
abbrev message_or_default : Value → Value
message_or_default undefined = str "Internal Server Error"
message_or_default null = str "Internal Server Error"
message_or_default v = v

abbrev thrown_message : Value → Value
thrown_message (obj fs) = message_or_default (prop "message" fs)
thrown_message _ = str "Internal Server Error"

abbrev error_entry : Error → ErrorClass → ResponseError
error_entry e ErrorClass.graphql_error = graphql (record { message = e.message })
error_entry e _ = with_message (str e.message)

unfoldable pub serialize_error : Thrown → ResponseError
serialize_error (error e) = error_entry e e.class
serialize_error (value v) = with_message (thrown_message v)

abbrev query_prop : String → Option Fields → Value
query_prop name none = undefined
query_prop name (some fs) = prop name fs

abbrev raw_args : Fields → RawExecutionArgs
raw_args fs = record {
  query = prop "query" fs;
  operation_name = prop "operationName" fs;
  variables = prop "variables" fs;
}

unfoldable pub parse_body : Value → Result Fields
parse_body body = elim (is_record body) [
  | none ↦ throw_type_error "Invalid body, expected object"
  | some fs ↦ ok fs
]

module _ {H : Type 0} where
  unfoldable pub get_args : Request H → RawExecutionArgs
  get_args request = record {
    query = query_prop "query" request.query;
    operation_name = query_prop "operationName" request.query;
    variables = query_prop "variables" request.query;
  }

  -- The arguments that `parse` hands to the parser, or what it throws before that.
  unfoldable pub raw_args_of : (String → String) → Request H → Result RawExecutionArgs
  unfolding get_args parse_body
  raw_args_of to_upper request =
      if request.method === "GET"
      then ok (get_args request)
      else if request.method === "POST"
      then (parse_body request.body >>= λ fs. ok (raw_args fs))
      else throw_type_error (concat ("Unsupported method: " ∷ to_upper request.method ∷ []))

abbrev is_mutation : Option OperationKind → Bool
is_mutation (some mutation) = true
is_mutation _ = false

-- Everything that the server takes from outside.
pub record Environment (H Schema C B : Type 0) : Type 0 where
  pub to_upper : String → String
  pub limit_depth : Document → ℕ → Result (Unit {0})
  pub graphql_parse : String → Result Document
  pub json_parse : String → String ⊎ Value
  pub get_operation : Document → Option String → Option OperationKind
  pub graphql_validate : Schema → Document → Result (List GraphqlError)
  pub create_context : Request H → ParsedExecutionArgs → Result C
  pub graphql_execute : Schema → C → ParsedExecutionArgs → Result B

module _ {H Schema C B : Type 0} (env : Environment H Schema C B) (schema : Schema) where
  open env use {
    to_upper, limit_depth, graphql_parse, json_parse, get_operation, graphql_validate,
    create_context, graphql_execute,
  }

  abbrev failed : ℕ → List ResponseError → Response C B
  failed status es = record { status = status; headers = []; body = errors es; context = none }

  pub parse_raw : Result RawExecutionArgs → ArgsParser → ArgsParser × Result ParsedExecutionArgs
  parse_raw (thrown e) p = (p, thrown e)
  parse_raw (ok raw) p = ArgsParser.parse limit_depth graphql_parse json_parse raw p

  unfoldable pub parse : Request H → ArgsParser → ArgsParser × Result ParsedExecutionArgs
  unfolding parse_raw raw_args_of
  parse request p = parse_raw (raw_args_of to_upper request) p

  abbrev mutations_via_get : ResponseError
  mutations_via_get = with_message (str "Mutations are not allowed via GET")

  abbrev is_get_mutation : Request H → ParsedExecutionArgs → Bool
  is_get_mutation request args =
      is_mutation (get_operation args.document args.operation_name) && request.method === "GET"

  unfoldable pub validate :
      Request H → ParsedExecutionArgs → ArgsParser → ArgsParser × Result (List ResponseError)
  validate request args p =
      if is_get_mutation request args
      then (p, ok (mutations_via_get ∷ []))
      else let (q, r) = ArgsParser.validate graphql_validate schema args p in
        (q, r >>= λ es. ok (map graphql es))

  -- The second half of `execute`: the context, the execution, and status 500 if either throws.
  unfoldable pub answer : Request H → ParsedExecutionArgs → Response C B
  answer request args = elim (create_context request args) [
    | thrown e ↦ failed 500 (serialize_error e ∷ [])
    | ok context ↦ elim (graphql_execute schema context args) [
      | thrown e ↦ failed 500 (serialize_error e ∷ [])
      | ok result ↦ record {
        status = 200;
        headers = [];
        body = executed result;
        context = some context;
      }
    ]
  ]

  respond : Request H → ParsedExecutionArgs → Result (List ResponseError) → Response C B
  respond request args (ok []) = answer request args
  respond request args (ok (e ∷ es)) = failed 400 (e ∷ es)
  respond request args (thrown e) = failed 500 (serialize_error e ∷ [])

  execute_parsed : Request H → ArgsParser → Result ParsedExecutionArgs → ArgsParser × Response C B
  unfolding respond
  execute_parsed request p (thrown e) = (p, failed 400 (serialize_error e ∷ []))
  execute_parsed request p (ok args) =
      let (q, r) = validate request args p in (q, respond request args r)

  abbrev is_supported : String → Bool
  is_supported method = method === "GET" || method === "POST"

  unsupported : Request H → Response C B
  unsupported request =
      let message = str (concat ("Unsupported method: " ∷ to_upper request.method ∷ [])) in
      failed 405 (serialize_error (value (obj (Fields.field "message" message Fields.end))) ∷ [])

  unfoldable pub execute : Request H → ArgsParser → ArgsParser × Response C B
  unfolding execute_parsed unsupported
  execute request p =
      if is_supported request.method
      then execute_parsed request (parse request p).0 (parse request p).1
      else (p, unsupported request)
