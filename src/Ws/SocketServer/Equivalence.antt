-- ===== src/Ws/SocketServer/Equivalence.antt =====
-- The answer of GraphQLWebSocketServer's `subscribe` does not depend on earlier subscriptions.
use mathlib.Core.Path.{fun_ext}
use graphqlade.Common.{
  ℕ, ◌≡◌, refl, sym, ap, ◌∙◌, Option, List, [], ◌∷◌, map, Value, Result, ok, thrown,
}
use graphqlade.Server.ArgsParser
use graphqlade.Server.ArgsParser.{ArgsParser, RawExecutionArgs, ParsedExecutionArgs, Options}
use graphqlade.Server.ArgsParser.Caching.{IsFaithful, parse_fresh, parse_fresh-IsFaithful}
use graphqlade.Server.ArgsParser.Session.{
  IsCoherent, init-IsCoherent, parse-IsCoherent, validate-IsCoherent,
}
use graphqlade.Ws.SocketServer.{
  Answer, Environment, caught, unless_errors, subscribe_validated, subscribe_parsed, subscribe,
}

module _ {Schema C B : Type 0} (env : Environment Schema C B) (schema : Schema) where
  open env use {limit_depth, graphql_parse, json_parse, graphql_validate}

  abbrev pub Coherent : Option ℕ → ArgsParser → Type 0
  Coherent = IsCoherent limit_depth graphql_parse json_parse graphql_validate schema

  -- A subscription answered with no cache.
  abbrev pub answer_fresh : Value → Result ParsedExecutionArgs → Answer B
  answer_fresh payload (thrown e) = caught env schema (thrown e)
  answer_fresh payload (ok args) =
      unless_errors env schema (graphql_validate schema args.document)
        (subscribe_validated env schema payload args)

  abbrev pub subscribe_fresh : Option ℕ → Value → RawExecutionArgs → Answer B
  subscribe_fresh max_depth payload raw =
      answer_fresh payload (parse_fresh limit_depth graphql_parse json_parse max_depth raw)

  subscribe_parsed_lem :
      (max_depth : Option ℕ) (payload : Value) (r : Result ParsedExecutionArgs) (p : ArgsParser)
      → Coherent max_depth p
      → ((args : ParsedExecutionArgs)
          → r ≡ ok args
          → IsFaithful limit_depth graphql_parse json_parse max_depth args)
      → ((subscribe_parsed env schema payload r p).1 ≡ answer_fresh payload r)
        × Coherent max_depth (subscribe_parsed env schema payload r p).0
  subscribe_parsed_lem max_depth payload (thrown e) p h faithful = (refl, h)
  subscribe_parsed_lem max_depth payload (ok args) p h faithful =
      let (same, kept) =
        validate-IsCoherent limit_depth graphql_parse json_parse graphql_validate schema max_depth
          args p (faithful args refl) h in
      (
        ap (λ es. unless_errors env schema es (subscribe_validated env schema payload args)) same,
        kept,
      )

  pub subscribe_lem :
      (max_depth : Option ℕ) (payload : Value) (raw : RawExecutionArgs) (p : ArgsParser)
      → Coherent max_depth p
      → ((subscribe env schema payload raw p).1 ≡ subscribe_fresh max_depth payload raw)
        × Coherent max_depth (subscribe env schema payload raw p).0
  unfolding subscribe
  subscribe_lem max_depth payload raw p h =
      let (same, coherent) =
        parse-IsCoherent limit_depth graphql_parse json_parse graphql_validate schema max_depth raw
          p h in
      let (answered, kept) = subscribe_parsed_lem max_depth payload _ _ coherent λ args e.
        parse_fresh-IsFaithful limit_depth graphql_parse json_parse max_depth raw args
          (sym same ∙ e) in
      (answered ∙ ap (answer_fresh payload) same, kept)

  -- The answers to a sequence of subscriptions, each with the payload of its socket.
  pub serve : List (Value × RawExecutionArgs) → ArgsParser → List (Answer B)
  serve [] p = []
  serve ((payload, raw) ∷ rest) p =
      (subscribe env schema payload raw p).1 ∷ serve rest (subscribe env schema payload raw p).0

  serve_lem :
      (max_depth : Option ℕ) (requests : List (Value × RawExecutionArgs)) (p : ArgsParser)
      → Coherent max_depth p
      → serve requests p
        ≡ map (λ (r : Value × RawExecutionArgs). subscribe_fresh max_depth r.0 r.1) requests
  unfolding serve
  serve_lem max_depth [] p h = refl
  serve_lem max_depth ((payload, raw) ∷ rest) p h =
      let (same, coherent) = subscribe_lem max_depth payload raw p h in
      λ i. same i ∷ serve_lem max_depth rest _ coherent i

  -- The answer to a subscription does not depend on those before it, of whichever socket: each is
  -- answered as the first one of a new server with the same options is.
  pub serve_subscriptions-init :
      (options : Options) (requests : List (Value × RawExecutionArgs))
      → serve requests (ArgsParser.init options)
        ≡ map
            (λ (r : Value × RawExecutionArgs).
              (subscribe env schema r.0 r.1 (ArgsParser.init options)).1)
            requests
  serve_subscriptions-init options requests =
      serve_lem options.max_depth requests (ArgsParser.init options) start
      ∙ ap (λ f. map f requests)
          (fun_ext
            λ r. sym (subscribe_lem options.max_depth r.0 r.1 (ArgsParser.init options) start).0)
    where
      start : Coherent options.max_depth (ArgsParser.init options)
      start = init-IsCoherent limit_depth graphql_parse json_parse graphql_validate schema options
