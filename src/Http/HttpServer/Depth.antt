-- ===== src/Http/HttpServer/Depth.antt =====
-- GraphQLHttpServer.ts over limitDepth.ts: how deep the documents are that it executes.
use graphqlade.Common.{
  ℕ, suc, ◌≡◌, sym, ◌∙◌, subst, Option, some, List, [], ◌∷◌, ok, bind-eq-ok, ◌⊎◌,
}
use graphqlade.Graphql.{Document}
use graphqlade.Graphql.Visit.{Visitor}
use graphqlade.Util.CleanOperations.{clean_operations}
use graphqlade.Util.DepthLimit.{Stop, limit_depth}
use graphqlade.Util.DepthLimit.Arrival.{IsShallow}
use graphqlade.Util.DepthLimit.Correct.{IsVisit, limit_depth_iff}
use graphqlade.Server.ArgsParser
use graphqlade.Server.ArgsParser.{ParsedExecutionArgs, ArgsParser, Options, load, check_depth}
use graphqlade.Http.HttpServer.{Request, Environment, raw_args_of, parse, execute}
use graphqlade.Http.HttpServer.Statuses.{IsServed, execute-IsServed}
use graphqlade.Http.HttpServer.Equivalence.{
  Coherent, Faithful, parse_raw_lem, fresh-Faithful, execute_lem, options-Coherent,
}

module _ {H Schema C B : Type 0} (env : Environment H Schema C B) (schema : Schema) where
  -- The parser after a sequence of requests.
  unfoldable pub parser_after : List (Request H) → ArgsParser → ArgsParser
  parser_after [] p = p
  parser_after (request ∷ rest) p = parser_after rest (execute env schema request p).0

  parser_after-Coherent :
      (max_depth : Option ℕ) (requests : List (Request H)) (p : ArgsParser)
      → Coherent env schema max_depth p
      → Coherent env schema max_depth (parser_after requests p)
  unfolding parser_after
  parser_after-Coherent max_depth [] p h = h
  parser_after-Coherent max_depth (request ∷ rest) p h =
      parser_after-Coherent max_depth rest (execute env schema request p).0
        (execute_lem env schema max_depth request p h).1

  -- Parsed arguments have the document that their text gives, whatever is cached.
  parse-Faithful :
      (max_depth : Option ℕ) (request : Request H) (p : ArgsParser) (args : ParsedExecutionArgs)
      → Coherent env schema max_depth p
      → (parse env schema request p).1 ≡ ok args
      → Faithful env schema max_depth args
  unfolding parse
  parse-Faithful max_depth request p args h parsed =
      let raw = raw_args_of env.to_upper request in
      fresh-Faithful env schema max_depth raw args
        (sym (parse_raw_lem env schema max_depth raw p h).0 ∙ parsed)

  module _ (visit : Document → Visitor ℕ Stop → ℕ → Stop ⊎ ℕ) (walks : IsVisit visit)
      (limits : (document : Document) (n : ℕ)
        → env.limit_depth document n ≡ limit_depth visit document n) where
    Faithful-IsShallow :
        (n : ℕ) (args : ParsedExecutionArgs)
        → Faithful env schema (some (suc n)) args
        → IsShallow args.document (suc n)
    unfolding load check_depth
    Faithful-IsShallow n args loaded =
        let (raw, _, checked) = bind-eq-ok (env.graphql_parse args.original_query) _ loaded in
        let document = clean_operations raw in
        let (_, passed, same) = bind-eq-ok (env.limit_depth document (suc n)) _ checked in
        let same_document : document ≡ args.document = cc same in
        subst (λ d. IsShallow d (suc n)) same_document
          ((limit_depth_iff visit walks document (suc n)).0
            (sym (limits document (suc n)) ∙ passed))

    -- Let `limitDepth`, over a `visit` that walks as graphql documents, be the check of the arguments
    -- parser, and let the server limit the depth to a number above zero. After any requests to the new server, each document that a response with
    -- status 200 comes from nests no field deeper than that number and spreads no fragment inside
    -- itself, though its check may be one that the cache has remembered.
    pub execute-IsShallow :
        (n : ℕ) (options : Options)
        → options.max_depth ≡ some (suc n)
        → (requests : List (Request H)) (request : Request H)
        → (execute env schema request (parser_after requests (ArgsParser.init options))).1.status
          ≡ 200
        → (served : IsServed env schema request
            (parser_after requests (ArgsParser.init options))
            (execute env schema request (parser_after requests (ArgsParser.init options))).1)
          × IsShallow served.args.document (suc n)
    execute-IsShallow n options limited requests request h =
        let p = parser_after requests (ArgsParser.init options) in
        let coherent = parser_after-Coherent (some (suc n)) requests (ArgsParser.init options) (
          subst (λ m. Coherent env schema m (ArgsParser.init options)) limited
            (options-Coherent env schema options)) in
        let served = execute-IsServed env schema request p h in
        (
          served,
          Faithful-IsShallow n served.args
              (parse-Faithful (some (suc n)) request p served.args coherent served.parsed),
        )
