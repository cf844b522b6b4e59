-- ===== src/Server/ArgsParser/Caching.antt =====
-- The caches are transparent: for GraphQLExecutionArgsParser.ts, answers with the caches are those
-- of a parser without them.
use graphqlade.Common.{
  ℕ, String, ◌≡◌, refl, sym, ap, ◌∙◌, Option, none, some, List, Value, undefined, str, Result, ok,
  thrown, ◌>>=◌, bind-eq-ok, throw_type_error, ◌⊎◌, arith, string_eq,
}
use graphqlade.Graphql.{Document, GraphqlError}
use graphqlade.Util.LruCache.{LruCache}
use graphqlade.Util.LruCache
use graphqlade.Util.LruCache.Contents.{Each, set-Each, get-Each, get_sound}
use graphqlade.Server.ArgsParser.{
  RawExecutionArgs, ParsedExecutionArgs, ArgsParser, load, store, lookup_or_load, parse_query,
  parse_operation_name, parse_variables, finish, source_of, parse, store_errors, validate_miss,
  validate,
}

module _ (limit_depth : Document → ℕ → Result (Unit {0}))
    (graphql_parse : String → Result Document) where
  -- The document of a query text, with no cache.
  abbrev pub Loads : Option ℕ → String → Document → Type 0
  Loads max_depth source document = load limit_depth graphql_parse max_depth source ≡ ok document

  abbrev pub query_of : Option ℕ → Value → Result Document
  query_of max_depth (str source) = load limit_depth graphql_parse max_depth source
  query_of max_depth _ = throw_type_error "Invalid query, expected string"

  -- Every cached document is the one that its query text gives.
  abbrev pub HasFreshDocuments : ArgsParser → Type 0
  HasFreshDocuments p = Each (Loads p.max_depth) p.parse_query_cache.cache

  store-eq :
      (source : String) (r : Result Document) (p : ArgsParser)
      → (store limit_depth graphql_parse source r p).1 ≡ r
  unfolding store
  store-eq source (ok d) p = refl
  store-eq source (thrown e) p = refl

  store-HasFreshDocuments :
      (source : String) (r : Result Document) (p : ArgsParser)
      → load limit_depth graphql_parse p.max_depth source ≡ r
      → HasFreshDocuments p
      → HasFreshDocuments (store limit_depth graphql_parse source r p).0
  unfolding store
  store-HasFreshDocuments source (ok d) p e h =
      set-Each (Loads p.max_depth) source d p.parse_query_cache e h
  store-HasFreshDocuments source (thrown t) p e h = h

  -- Neither the depth limit nor the other cache is changed.
  abbrev pub Same : ArgsParser → ArgsParser → Type 0
  Same p q = (p.max_depth ≡ q.max_depth) × (p.validate_cache ≡ q.validate_cache)

  store-Same :
      (source : String) (r : Result Document) (p : ArgsParser)
      → Same (store limit_depth graphql_parse source r p).0 p
  unfolding store
  store-Same source (ok d) p = (refl, refl)
  store-Same source (thrown t) p = (refl, refl)

  -- What parsing gives and keeps, as one statement over the old state, the new one and the result.
  abbrev pub Agrees : ArgsParser → Result Document → ArgsParser × Result Document → Type 0
  Agrees p r (q, r') = (r' ≡ r) × HasFreshDocuments q × Same q p

  lookup_or_load_lem :
      (source : String) (cached : Option Document) (p : ArgsParser)
      → ((d : Document) → cached ≡ some d → Loads p.max_depth source d)
      → HasFreshDocuments p
      → Agrees p
          (load limit_depth graphql_parse p.max_depth source)
          (lookup_or_load limit_depth graphql_parse source cached p)
  unfolding lookup_or_load
  lookup_or_load_lem source (some d) p sound h = (sym (sound d refl), h, (refl, refl))
  lookup_or_load_lem source none p sound h =
      let r = load limit_depth graphql_parse p.max_depth source in
      (store-eq source r p, store-HasFreshDocuments source r p refl h, store-Same source r p)

  pub parse_query_lem :
      (query : Value) (p : ArgsParser)
      → HasFreshDocuments p
      → Agrees p (query_of p.max_depth query) (parse_query limit_depth graphql_parse query p)
  unfolding parse_query
  parse_query_lem (str source) p h =
      lookup_or_load_lem source (LruCache.get source p.parse_query_cache).1
        (record p { parse_query_cache = (LruCache.get source p.parse_query_cache).0 })
        (λ d hit. get_sound (Loads p.max_depth) source d p.parse_query_cache hit h)
        (get-Each (Loads p.max_depth) source p.parse_query_cache h)
  parse_query_lem undefined p h = (refl, h, (refl, refl))
  parse_query_lem _ p h = (refl, h, (refl, refl))

  module _ (json_parse : String → String ⊎ Value) where
    -- Parsing with no cache.
    abbrev pub parse_fresh : Option ℕ → RawExecutionArgs → Result ParsedExecutionArgs
    parse_fresh max_depth args =
        query_of max_depth args.query >>= finish json_parse args (source_of args.query)

    -- The document of parsed arguments is the one that their text gives.
    abbrev pub IsFaithful : Option ℕ → ParsedExecutionArgs → Type 0
    IsFaithful max_depth args = Loads max_depth args.original_query args.document

    finish-IsFaithful :
        (args : RawExecutionArgs) (source : String) (d : Document) (a : ParsedExecutionArgs)
        → finish json_parse args source d ≡ ok a
        → (a.document ≡ d) × (a.original_query ≡ source)
    finish-IsFaithful args source d a e =
        let (name, _, e') = bind-eq-ok (parse_operation_name args.operation_name) _ e in
        let (vars, _, e'') = bind-eq-ok (parse_variables json_parse args.variables) _ e' in
        (ground arith, ground arith)

    query-IsFaithful :
        (max_depth : Option ℕ) (query : Value) (d : Document)
        → query_of max_depth query ≡ ok d
        → Loads max_depth (source_of query) d
    query-IsFaithful max_depth (str source) d e = e
    query-IsFaithful max_depth undefined d e = cc
    query-IsFaithful max_depth _ d e = cc

    pub parse_fresh-IsFaithful :
        (max_depth : Option ℕ) (args : RawExecutionArgs) (a : ParsedExecutionArgs)
        → parse_fresh max_depth args ≡ ok a
        → IsFaithful max_depth a
    parse_fresh-IsFaithful max_depth args a e =
        let (d, loaded, e') = bind-eq-ok (query_of max_depth args.query) _ e in
        let (same_d, same_s) = finish-IsFaithful args (source_of args.query) d a e' in
        rw (same_d, same_s) (query-IsFaithful max_depth args.query d loaded)

    pub parse_lem :
        (args : RawExecutionArgs) (p : ArgsParser)
        → HasFreshDocuments p
        → let (q, r) = parse limit_depth graphql_parse json_parse args p in
          (r ≡ parse_fresh p.max_depth args) × HasFreshDocuments q × Same q p
    unfolding parse
    parse_lem args p h =
        let (same_r, fresh, same) = parse_query_lem args.query p h in
        (ap (λ r. r >>= finish json_parse args (source_of args.query)) same_r, fresh, same)

  module _ {ℓ} {Schema : Type ℓ} (graphql_validate : Schema → Document → Result (List GraphqlError))
      (schema : Schema) where
    abbrev pub Judges : Option ℕ → String → List GraphqlError → Type 0
    Judges max_depth source errors =
        (d : Document) → Loads max_depth source d → graphql_validate schema d ≡ ok errors

    -- Cached errors are those of the document that their query text gives.
    abbrev pub HasFreshErrors : ArgsParser → Type 0
    HasFreshErrors p = Each (Judges p.max_depth) p.validate_cache.cache

    Loads-unique :
        (max_depth : Option ℕ) (source : String) (d d' : Document)
        → Loads max_depth source d
        → Loads max_depth source d'
        → d ≡ d'
    Loads-unique max_depth source d d' e e' = ground arith

    abbrev pub Judged :
        ArgsParser → Result (List GraphqlError) → ArgsParser × Result (List GraphqlError) → Type 0
    Judged p r (q, r') =
        (r' ≡ r)
        × HasFreshErrors q
        × ((q.max_depth ≡ p.max_depth) × (q.parse_query_cache ≡ p.parse_query_cache))

    store_errors_lem :
        (args : ParsedExecutionArgs) (r : Result (List GraphqlError)) (p : ArgsParser)
        → Loads p.max_depth args.original_query args.document
        → graphql_validate schema args.document ≡ r
        → HasFreshErrors p
        → Judged p r (store_errors graphql_validate args.original_query r p)
    unfolding store_errors
    store_errors_lem args (thrown e) p faithful judged h = (refl, h, (refl, refl))
    store_errors_lem args (ok errors) p faithful judged h = (
      refl,
      set-Each (Judges p.max_depth) args.original_query errors p.validate_cache
          (λ d e.
            ap (graphql_validate schema)
              (Loads-unique p.max_depth args.original_query d args.document e faithful)
            ∙ judged)
          h,
      (refl, refl),
    )

    validate_miss_lem :
        (args : ParsedExecutionArgs) (cached : Option (List GraphqlError)) (p : ArgsParser)
        → Loads p.max_depth args.original_query args.document
        → ((errors : List GraphqlError)
            → cached ≡ some errors
            → Judges p.max_depth args.original_query errors)
        → HasFreshErrors p
        → Judged p
            (graphql_validate schema args.document)
            (validate_miss graphql_validate schema args cached p)
    unfolding validate_miss
    validate_miss_lem args (some errors) p faithful sound h =
        (sym (sound errors refl args.document faithful), h, (refl, refl))
    validate_miss_lem args none p faithful sound h =
        store_errors_lem args (graphql_validate schema args.document) p faithful refl h

    pub validate_lem :
        (args : ParsedExecutionArgs) (p : ArgsParser)
        → Loads p.max_depth args.original_query args.document
        → HasFreshErrors p
        → Judged p (graphql_validate schema args.document) (validate graphql_validate schema args p)
    unfolding validate
    validate_lem args p faithful h =
        validate_miss_lem args (LruCache.get args.original_query p.validate_cache).1
          (record p { validate_cache = (LruCache.get args.original_query p.validate_cache).0 })
          faithful
          (λ errors hit.
            get_sound (Judges p.max_depth) args.original_query errors p.validate_cache hit h)
          (get-Each (Judges p.max_depth) args.original_query p.validate_cache h)
