-- ===== src/Server/ArgsParser.antt =====
-- src/server/GraphQLExecutionArgsParser.ts. The parser's two caches are its state; each method
-- returns the new state with its result. `graphql`'s `parse` (with the parse options applied) and
-- `validate`, `JSON.parse`, and the depth check are the section's parameters.
pub mod Caching
pub mod Session
pub mod Tests
use graphqlade.Common.{
  ℕ, zero, suc, String, Bool, true, false, Option, none, some, List, [], ◌∷◌, if◌then◌else◌, ◌||◌,
  Value, undefined, null, bool, num, str, arr, obj, Fields, Result, ok, thrown, ◌>>=◌, ◌>>◌,
  throw_type_error, concat, ◌===◌, string_eq, ◌⊎◌, inl, inr,
}
use graphqlade.Graphql.{Document, GraphqlError}
use graphqlade.Util.LruCache.{LruCache}
use graphqlade.Util.LruCache
use graphqlade.Util.Guards.{assert, is_record}
use graphqlade.Util.CleanOperations.{clean_operations}

pub record RawExecutionArgs : Type 0 where
  pub query : Value
  pub operation_name : Value
  pub variables : Value

pub record ParsedExecutionArgs : Type 0 where
  pub document : Document
  pub operation_name : Option String
  pub variable_values : Option Fields
  pub original_query : String

pub record ArgsParser : Type 0 where
  pub max_depth : Option ℕ
  pub parse_query_cache : LruCache String Document
  pub validate_cache : LruCache String (List GraphqlError)

pub record Options : Type 0 where
  pub cache_size : Option ℕ
  pub max_depth : Option ℕ

abbrev pub or_default {ℓ} : {A : Type ℓ} → Option A → A → A
or_default none d = d
or_default (some a) d = a

-- The constructor. A cache of size 0 is possible: `??` only replaces a missing size.
unfoldable pub init : Options → ArgsParser
init options = record {
  max_depth = options.max_depth;
  parse_query_cache = LruCache.empty (or_default options.cache_size 50);
  validate_cache = LruCache.empty (or_default options.cache_size 50);
}

abbrev pub parse_operation_name_string : String → Option String
parse_operation_name_string name = if name === "" then none else some name

unfoldable pub parse_operation_name : Value → Result (Option String)
parse_operation_name undefined = ok none
parse_operation_name null = ok none
parse_operation_name (str name) = ok (parse_operation_name_string name)
parse_operation_name _ = throw_type_error "Invalid operationName, expected string"

abbrev expect_record : Value → Result (Option Fields)
expect_record v = elim (is_record v) [
  | none ↦ throw_type_error "Invalid variables, expected object"
  | some fields ↦ ok (some fields)
]

abbrev parsed_variables : String ⊎ Value → Result (Option Fields)
parsed_variables (inl message) =
    throw_type_error (concat ("Invalid variables, failed to parse JSON: " ∷ message ∷ []))
parsed_variables (inr v) = expect_record v

-- `args.query as string`, of a query that is one.
abbrev pub source_of : Value → String
source_of (str s) = s
source_of _ = ""

-- `json_parse` is `JSON.parse`: a value, or the message of the error that it throws.
module _ (json_parse : String → String ⊎ Value) where
  unfoldable pub parse_variables : Value → Result (Option Fields)
  parse_variables undefined = ok none
  parse_variables null = ok none
  parse_variables (str s) =
      if s === "" || s === "null" then ok none else parsed_variables (json_parse s)
  parse_variables v = expect_record v

  -- The rest of `parse`, once the query is parsed.
  abbrev pub finish : RawExecutionArgs → String → Document → Result ParsedExecutionArgs
  finish args source document = do
    operation_name ← parse_operation_name args.operation_name
    variables ← parse_variables args.variables
    ok (record {
      document = document;
      operation_name = operation_name;
      variable_values = variables;
      original_query = source;
    })

-- `if (this.maxDepth) limitDepth(document, this.maxDepth)`: a depth of 0 is no limit.
module _ (limit_depth : Document → ℕ → Result (Unit {0})) where
  unfoldable pub check_depth : Option ℕ → Document → Result (Unit {0})
  check_depth none document = ok tt
  check_depth (some zero) document = ok tt
  check_depth (some (suc n)) document = limit_depth document (suc n)

  -- What `parseQuery` does on a cache miss, before it stores the document.
  module _ (graphql_parse : String → Result Document) where
    unfoldable pub load : Option ℕ → String → Result Document
    load max_depth source = do
      raw ← graphql_parse source
      let document = clean_operations raw
      check_depth max_depth document
      ok document

    store : String → Result Document → ArgsParser → ArgsParser × Result Document
    store source (ok document) p = (
      record p { parse_query_cache = LruCache.set source document p.parse_query_cache },
      ok document,
    )
    store source (thrown e) p = (p, thrown e)

    -- `cached` is the answer of the cache, and `p` the parser after asking it.
    lookup_or_load : String → Option Document → ArgsParser → ArgsParser × Result Document
    unfolding store
    lookup_or_load source (some document) p = (p, ok document)
    lookup_or_load source none p = store source (load p.max_depth source) p

    unfoldable pub parse_query : Value → ArgsParser → ArgsParser × Result Document
    unfolding lookup_or_load
    parse_query (str source) p =
        let (cache, cached) = LruCache.get source p.parse_query_cache in
        lookup_or_load source cached (record p { parse_query_cache = cache })
    parse_query _ p = (p, throw_type_error "Invalid query, expected string")

    module _ (json_parse : String → String ⊎ Value) where
      unfoldable pub parse : RawExecutionArgs → ArgsParser → ArgsParser × Result ParsedExecutionArgs
      parse args p =
          let (p', document) = parse_query args.query p in
          (p', document >>= finish json_parse args (source_of args.query))

-- `validate` caches the errors by the text of the query.
module _ {ℓ} {Schema : Type ℓ}
    (graphql_validate : Schema → Document → Result (List GraphqlError)) where
  -- What is stored after a cache miss: nothing, if `validate` throws.
  store_errors :
      String → Result (List GraphqlError) → ArgsParser → ArgsParser × Result (List GraphqlError)
  store_errors source (ok errors) p =
      (record p { validate_cache = LruCache.set source errors p.validate_cache }, ok errors)
  store_errors source (thrown e) p = (p, thrown e)

  validate_miss :
      Schema
      → ParsedExecutionArgs
      → Option (List GraphqlError)
      → ArgsParser
      → ArgsParser × Result (List GraphqlError)
  unfolding store_errors
  validate_miss schema args (some errors) p = (p, ok errors)
  validate_miss schema args none p =
      store_errors args.original_query (graphql_validate schema args.document) p

  unfoldable pub validate :
      Schema → ParsedExecutionArgs → ArgsParser → ArgsParser × Result (List GraphqlError)
  unfolding validate_miss
  validate schema args p =
      let (cache, cached) = LruCache.get args.original_query p.validate_cache in
      validate_miss schema args cached (record p { validate_cache = cache })
