-- ===== src/Http/HttpServer/Equivalence.antt =====
-- What the answer of GraphQLHttpServer.ts does not depend on: earlier requests, and whether the
-- arguments come by GET or by POST.
use mathlib.Core.Path.{fun_ext}
use graphqlade.Common.{
  ℕ, ◌≡◌, refl, sym, ap, ◌∙◌, Option, List, [], ◌∷◌, map, if◌then◌else◌, Result, ok, thrown, ◌>>=◌,
  string_eq, Bool-cases, inl, inr,
}
use graphqlade.Server.ArgsParser
use graphqlade.Server.ArgsParser.{ParsedExecutionArgs, RawExecutionArgs, ArgsParser, Options}
use graphqlade.Server.ArgsParser.Caching.{IsFaithful, parse_fresh, parse_fresh-IsFaithful}
use graphqlade.Server.ArgsParser.Session.{
  IsCoherent, init-IsCoherent, parse-IsCoherent, validate-IsCoherent,
}
use graphqlade.Http.HttpServer.{
  Request, Response, ResponseError, Environment, failed, serialize_error, graphql, raw_args_of,
  is_supported, is_get_mutation, mutations_via_get, parse, parse_raw, validate, respond,
  execute_parsed, unsupported, execute,
}

module _ {H Schema C B : Type 0} (env : Environment H Schema C B) (schema : Schema) where
  abbrev pub Coherent : Option ℕ → ArgsParser → Type 0
  Coherent = IsCoherent env.limit_depth env.graphql_parse env.json_parse env.graphql_validate schema

  -- A request answered with no cache.
  abbrev pub fresh : Option ℕ → Result RawExecutionArgs → Result ParsedExecutionArgs
  fresh max_depth (thrown e) = thrown e
  fresh max_depth (ok raw) =
      parse_fresh env.limit_depth env.graphql_parse env.json_parse max_depth raw

  abbrev pub Faithful : Option ℕ → ParsedExecutionArgs → Type 0
  Faithful = IsFaithful env.limit_depth env.graphql_parse env.json_parse

  pub parse_raw_lem :
      (max_depth : Option ℕ) (raw : Result RawExecutionArgs) (p : ArgsParser)
      → Coherent max_depth p
      → ((parse_raw env schema raw p).1 ≡ fresh max_depth raw)
        × Coherent max_depth (parse_raw env schema raw p).0
  unfolding parse_raw
  parse_raw_lem max_depth (thrown e) p h = (refl, h)
  parse_raw_lem max_depth (ok raw) p h =
      parse-IsCoherent env.limit_depth env.graphql_parse env.json_parse env.graphql_validate schema
        max_depth raw p h

  pub fresh-Faithful :
      (max_depth : Option ℕ) (raw : Result RawExecutionArgs) (args : ParsedExecutionArgs)
      → fresh max_depth raw ≡ ok args
      → Faithful max_depth args
  fresh-Faithful max_depth (thrown e) args h = cc
  fresh-Faithful max_depth (ok raw) args h =
      parse_fresh-IsFaithful env.limit_depth env.graphql_parse env.json_parse max_depth raw args h

  abbrev errors_of : Request H → ParsedExecutionArgs → Result (List ResponseError)
  errors_of request args =
      if is_get_mutation env schema request args
      then ok (mutations_via_get env schema ∷ [])
      else (env.graphql_validate schema args.document >>= λ es. ok (map graphql es))

  validate_lem :
      (max_depth : Option ℕ) (request : Request H) (args : ParsedExecutionArgs) (p : ArgsParser)
      → Faithful max_depth args
      → Coherent max_depth p
      → ((validate env schema request args p).1 ≡ errors_of request args)
        × Coherent max_depth (validate env schema request args p).0
  unfolding validate
  validate_lem max_depth request args p faithful h =
      elim (Bool-cases (is_get_mutation env schema request args)) [
        | inl refused ↦ rw refused (refl, h)
        | inr allowed ↦
            let (same, kept) =
              validate-IsCoherent env.limit_depth env.graphql_parse env.json_parse
                env.graphql_validate schema max_depth args p faithful h in
            rw allowed (ap (λ r. r >>= λ es. ok (map graphql es)) same, kept)
      ]

  abbrev respond_fresh : Request H → Result ParsedExecutionArgs → Response C B
  respond_fresh request (thrown e) = failed env schema 400 (serialize_error e ∷ [])
  respond_fresh request (ok args) = respond env schema request args (errors_of request args)

  execute_parsed_lem :
      (max_depth : Option ℕ) (request : Request H) (p : ArgsParser) (r : Result ParsedExecutionArgs)
      → Coherent max_depth p
      → ((args : ParsedExecutionArgs) → r ≡ ok args → Faithful max_depth args)
      → ((execute_parsed env schema request p r).1 ≡ respond_fresh request r)
        × Coherent max_depth (execute_parsed env schema request p r).0
  unfolding execute_parsed
  execute_parsed_lem max_depth request p (thrown e) h f = (refl, h)
  execute_parsed_lem max_depth request p (ok args) h f =
      let (same, kept) = validate_lem max_depth request args p (f args refl) h in
      (ap (respond env schema request args) same, kept)

  pub execute_fresh : Option ℕ → Request H → Response C B
  execute_fresh max_depth request =
      if is_supported env schema request.method
      then respond_fresh request (fresh max_depth (raw_args_of env.to_upper request))
      else unsupported env schema request

  pub execute_lem :
      (max_depth : Option ℕ) (request : Request H) (p : ArgsParser)
      → Coherent max_depth p
      → ((execute env schema request p).1 ≡ execute_fresh max_depth request)
        × Coherent max_depth (execute env schema request p).0
  unfolding execute execute_fresh parse
  execute_lem max_depth request p h = elim (Bool-cases (is_supported env schema request.method)) [
    | inr bad ↦ rw bad (refl, h)
    | inl good ↦
        let raw = raw_args_of env.to_upper request in
        let (same, coherent) = parse_raw_lem max_depth raw p h in
        let (answered, kept) =
          execute_parsed_lem max_depth request _ _ coherent
            λ args e. fresh-Faithful max_depth raw args (sym same ∙ e) in
        rw good (answered ∙ ap (respond_fresh request) same, kept)
  ]

  -- The responses to a sequence of requests.
  pub serve : List (Request H) → ArgsParser → List (Response C B)
  serve [] p = []
  serve (request ∷ rest) p =
      (execute env schema request p).1 ∷ serve rest (execute env schema request p).0

  serve_lem :
      (max_depth : Option ℕ) (requests : List (Request H)) (p : ArgsParser)
      → Coherent max_depth p
      → serve requests p ≡ map (execute_fresh max_depth) requests
  unfolding serve
  serve_lem max_depth [] p h = refl
  serve_lem max_depth (request ∷ rest) p h =
      let (same, coherent) = execute_lem max_depth request p h in
      λ i. same i ∷ serve_lem max_depth rest _ coherent i

  pub options-Coherent : (options : Options) → Coherent options.max_depth (ArgsParser.init options)
  options-Coherent options =
      init-IsCoherent env.limit_depth env.graphql_parse env.json_parse env.graphql_validate schema
        options

  -- The response to a request does not depend on the requests before it: each is answered as the
  -- first request to a new server with the same options is.
  pub serve-init :
      (options : Options) (requests : List (Request H))
      → serve requests (ArgsParser.init options)
        ≡ map (λ request. (execute env schema request (ArgsParser.init options)).1) requests
  serve-init options requests =
      serve_lem options.max_depth requests (ArgsParser.init options) (options-Coherent options)
      ∙ ap (λ f. map f requests)
          (fun_ext λ request.
            sym
              (execute_lem options.max_depth request (ArgsParser.init options)
                (options-Coherent options)).0)
