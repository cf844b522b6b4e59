-- ===== src/Server/ArgsParser/Session.antt =====
-- A sequence of requests through one parser of GraphQLExecutionArgsParser.ts: each request is
-- parsed and, if that succeeds, validated, as the HTTP and the WebSocket server do.
use mathlib.Core.Path.{subst₂}
use graphqlade.Common.{
  ℕ, String, ◌≡◌, refl, sym, ap, ◌∙◌, Option, List, [], ◌∷◌, map, Value, Result, ok, thrown, ◌>>=◌,
  ◌⊎◌,
}
use graphqlade.Graphql.{Document, GraphqlError}
use graphqlade.Util.LruCache.{LruCache}
use graphqlade.Util.LruCache.Contents.{Each}
use graphqlade.Server.ArgsParser.{
  RawExecutionArgs, ParsedExecutionArgs, ArgsParser, Options, init, parse, validate,
}
use graphqlade.Server.ArgsParser.Caching.{
  HasFreshDocuments, HasFreshErrors, IsFaithful, parse_fresh, parse_fresh-IsFaithful, parse_lem,
  validate_lem, Loads, Judges,
}

module _ {ℓ} {Schema : Type ℓ} (limit_depth : Document → ℕ → Result (Unit {0}))
    (graphql_parse : String → Result Document) (json_parse : String → String ⊎ Value)
    (graphql_validate : Schema → Document → Result (List GraphqlError)) (schema : Schema) where
  abbrev pub Checked : Type 0
  Checked = Result (ParsedExecutionArgs × List GraphqlError)

  validate_parsed : ArgsParser → Result ParsedExecutionArgs → ArgsParser × Checked
  validate_parsed p (thrown e) = (p, thrown e)
  validate_parsed p (ok args) =
      let (q, r) = validate graphql_validate schema args p in (q, r >>= λ errors. ok (args, errors))

  unfoldable pub check : RawExecutionArgs → ArgsParser → ArgsParser × Checked
  unfolding validate_parsed
  check args p =
      let (q, parsed) = parse limit_depth graphql_parse json_parse args p in
      validate_parsed q parsed

  unfoldable pub check_all : List RawExecutionArgs → ArgsParser → ArgsParser × List Checked
  check_all [] p = (p, [])
  check_all (args ∷ rest) p =
      let (q, r) = check args p in let (q', rs) = check_all rest q in (q', r ∷ rs)

  -- The same with no cache at all.
  abbrev judge : Result ParsedExecutionArgs → Checked
  judge (thrown e) = thrown e
  judge (ok args) = graphql_validate schema args.document >>= λ errors. ok (args, errors)

  abbrev pub check_fresh : Option ℕ → RawExecutionArgs → Checked
  check_fresh max_depth args =
      judge (parse_fresh limit_depth graphql_parse json_parse max_depth args)

  pub record IsCoherent (max_depth : Option ℕ) (p : ArgsParser) : Type 0 where
    pub depth : p.max_depth ≡ max_depth
    pub documents : HasFreshDocuments limit_depth graphql_parse p
    pub errors : HasFreshErrors limit_depth graphql_parse graphql_validate schema p

  pub init-IsCoherent : (options : Options) → IsCoherent options.max_depth (init options)
  unfolding init
  init-IsCoherent options = record { depth = refl; documents = tt; errors = tt }

  -- Parsing from coherent caches gives what a parser without them gives, and keeps them coherent.
  pub parse-IsCoherent :
      (max_depth : Option ℕ) (args : RawExecutionArgs) (p : ArgsParser)
      → IsCoherent max_depth p
      → ((parse limit_depth graphql_parse json_parse args p).1
          ≡ parse_fresh limit_depth graphql_parse json_parse max_depth args)
        × IsCoherent max_depth (parse limit_depth graphql_parse json_parse args p).0
  parse-IsCoherent max_depth args p h =
      let (same, documents, (depth, cache)) =
        parse_lem limit_depth graphql_parse json_parse args p h.documents in
      (
        rw (← h.depth) same,
        record {
          depth = depth ∙ h.depth;
          documents = documents;
          errors =
              subst₂
                (λ d (c : LruCache String (List GraphqlError)).
                  Each (Judges limit_depth graphql_parse graphql_validate schema d) c.cache)
                (sym depth) (sym cache) h.errors;
        },
      )

  -- So does validating arguments that were parsed.
  pub validate-IsCoherent :
      (max_depth : Option ℕ) (args : ParsedExecutionArgs) (p : ArgsParser)
      → IsFaithful limit_depth graphql_parse json_parse max_depth args
      → IsCoherent max_depth p
      → ((validate graphql_validate schema args p).1 ≡ graphql_validate schema args.document)
        × IsCoherent max_depth (validate graphql_validate schema args p).0
  validate-IsCoherent max_depth args p faithful h =
      let (same, errors, (depth, cache)) =
        validate_lem limit_depth graphql_parse graphql_validate schema args p (rw h.depth faithful)
          h.errors in
      (
        same,
        record {
          depth = depth ∙ h.depth;
          documents =
              subst₂
                (λ d (c : LruCache String Document).
                  Each (Loads limit_depth graphql_parse d) c.cache)
                (sym depth) (sym cache) h.documents;
          errors = errors;
        },
      )

  validate_parsed_lem :
      (max_depth : Option ℕ) (p : ArgsParser) (r : Result ParsedExecutionArgs)
      → IsCoherent max_depth p
      → ((args : ParsedExecutionArgs)
          → r ≡ ok args
          → IsFaithful limit_depth graphql_parse json_parse max_depth args)
      → ((validate_parsed p r).1 ≡ judge r) × IsCoherent max_depth (validate_parsed p r).0
  unfolding validate_parsed
  validate_parsed_lem max_depth p (thrown e) h f = (refl, h)
  validate_parsed_lem max_depth p (ok args) h f =
      let (same, kept) = validate-IsCoherent max_depth args p (f args refl) h in
      (ap (λ r. r >>= λ errors. ok (args, errors)) same, kept)

  -- Whatever was parsed before, a request is answered as by a parser that caches nothing, and the
  -- caches stay coherent.
  check_lem :
      (max_depth : Option ℕ) (args : RawExecutionArgs) (p : ArgsParser)
      → IsCoherent max_depth p
      → ((check args p).1 ≡ check_fresh max_depth args) × IsCoherent max_depth (check args p).0
  unfolding check
  check_lem max_depth args p h =
      let (same, coherent) = parse-IsCoherent max_depth args p h in
      let (answer, kept) = validate_parsed_lem max_depth _ _ coherent λ a e.
        parse_fresh-IsFaithful limit_depth graphql_parse json_parse max_depth args a
          (sym same ∙ e) in
      (answer ∙ ap judge same, kept)

  check_all_lem :
      (max_depth : Option ℕ) (requests : List RawExecutionArgs) (p : ArgsParser)
      → IsCoherent max_depth p
      → (check_all requests p).1 ≡ map (check_fresh max_depth) requests
  unfolding check_all
  check_all_lem max_depth [] p h = refl
  check_all_lem max_depth (args ∷ rest) p h =
      let (same, coherent) = check_lem max_depth args p h in
      λ i. same i ∷ check_all_lem max_depth rest (check args p).0 coherent i

  -- A new parser answers any sequence of requests as one that caches nothing would, whatever the
  -- size of its caches.
  pub check_all-init :
      (options : Options) (requests : List RawExecutionArgs)
      → (check_all requests (init options)).1 ≡ map (check_fresh options.max_depth) requests
  check_all-init options requests =
      check_all_lem options.max_depth requests (init options) (init-IsCoherent options)
