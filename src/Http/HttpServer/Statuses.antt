-- ===== src/Http/HttpServer/Statuses.antt =====
-- When GraphQLHttpServer.ts answers with each status, and what a successful answer rests on.
use graphqlade.Common.{
  ◌≤◌, ◌≡◌, ◌≢◌, refl, ◌∙◌, ◌↔◌, true, some, List, [], ◌∷◌, Result, ok, thrown, string_eq, ◌⊎◌, inl,
  inr, Bool-cases, Result-cases, arith, if_split,
}
use text.Mathlib.TextEquality.{eq_iff}
use graphqlade.Graphql.{mutation}
use graphqlade.Server.ArgsParser.{ParsedExecutionArgs, ArgsParser}
use graphqlade.Http.HttpServer.{
  Request, Response, ResponseError, executed, errors, unsupported, Environment, is_supported, parse,
  validate, answer, respond, execute_parsed, execute,
}

module _ {H Schema C B : Type 0} (env : Environment H Schema C B) (schema : Schema)
    (request : Request H) where
  -- What a response with status 200 rests on.
  pub record IsServed (p : ArgsParser) (response : Response C B) : Type 0 where
    pub args : ParsedExecutionArgs
    pub context : C
    pub result : B
    pub method : (request.method ≡ "GET") ⊎ (request.method ≡ "POST")
    pub parsed : (parse env schema request p).1 ≡ ok args
    pub allowed :
        request.method ≡ "GET" → env.get_operation args.document args.operation_name ≢ some mutation
    pub valid : (validate env schema request args (parse env schema request p).0).1 ≡ ok []
    pub created : env.create_context request args ≡ ok context
    pub ran : env.graphql_execute schema context args ≡ ok result
    pub same :
        response
        ≡ record { status = 200; headers = []; body = executed result; context = some context }

  supported_iff :
      (is_supported env schema request.method ≡ true)
      ↔ ((request.method ≡ "GET") ⊎ (request.method ≡ "POST"))
  supported_iff = ground (arith, eq_iff request.method "GET", eq_iff request.method "POST")

  answer-ne-405 : (args : ParsedExecutionArgs) → (answer env schema request args).status ≢ 405
  unfolding answer
  answer-ne-405 args = ground arith

  execute_parsed-ne-405 :
      (p : ArgsParser) (r : Result ParsedExecutionArgs)
      → (execute_parsed env schema request p r).1.status ≢ 405
  unfolding execute_parsed
  execute_parsed-ne-405 p (thrown e) = λ h. omega arith
  execute_parsed-ne-405 p (ok args) = responds (validate env schema request args p).1
    where
      responds :
          (r : Result (List ResponseError)) → (respond env schema request args r).status ≢ 405
      responds (ok []) = answer-ne-405 args
      responds (ok (e ∷ es)) = λ h. omega arith
      responds (thrown e) = λ h. omega arith

  -- 405 is the answer exactly to the methods other than GET and POST.
  pub status_405_iff :
      (p : ArgsParser)
      → ((execute env schema request p).1.status ≡ 405)
        ↔ ((request.method ≢ "GET") × (request.method ≢ "POST"))
  unfolding execute
  status_405_iff p = ground (
    arith,
    eq_iff request.method "GET",
    eq_iff request.method "POST",
    execute_parsed-ne-405 (parse env schema request p).0 (parse env schema request p).1,
  )

  -- The two ways to 500 and the one to 200, once the arguments are parsed and valid.
  answer_200 :
      (args : ParsedExecutionArgs)
      → (answer env schema request args).status ≡ 200
      → (c : C) × (b : B) × (env.create_context request args ≡ ok c)
        × (env.graphql_execute schema c args ≡ ok b)
        × (answer env schema request args
            ≡ record { status = 200; headers = []; body = executed b; context = some c })
  unfolding answer
  answer_200 args h = elim (Result-cases (env.create_context request args)) [
    | inr (e, failed_to) ↦ absurd (omega (arith, rw (failed_to, answer) at h))
    | inl (c, created) ↦ elim (Result-cases (env.graphql_execute schema c args)) [
      | inr (e, failed_to) ↦ absurd (ground arith)
      | inl (b, ran) ↦ (c, b, created, ran, rw (created, answer) (rw ran))
    ]
  ]

  respond_200 :
      (args : ParsedExecutionArgs) (r : Result (List ResponseError))
      → (respond env schema request args r).status ≡ 200
      → (r ≡ ok [])
        × ((answer env schema request args).status ≡ 200)
        × (respond env schema request args r ≡ answer env schema request args)
  unfolding respond
  respond_200 args (ok []) h = (refl, h, refl)
  respond_200 args (ok (e ∷ es)) h = absurd (omega arith)
  respond_200 args (thrown e) h = absurd (omega arith)

  execute_parsed_200 :
      (p : ArgsParser) (r : Result ParsedExecutionArgs)
      → (execute_parsed env schema request p r).1.status ≡ 200
      → (args : ParsedExecutionArgs) × (r ≡ ok args)
        × ((validate env schema request args p).1 ≡ ok [])
        × ((answer env schema request args).status ≡ 200)
        × ((execute_parsed env schema request p r).1 ≡ answer env schema request args)
  unfolding execute_parsed
  execute_parsed_200 p (thrown e) h = absurd (omega arith)
  execute_parsed_200 p (ok args) h =
      let (valid, ok_200, same) = respond_200 args (validate env schema request args p).1 h in
      (args, refl, valid, ok_200, same)

  validate_get_mutation :
      (args : ParsedExecutionArgs) (p : ArgsParser)
      → (validate env schema request args p).1 ≡ ok []
      → request.method ≡ "GET"
      → env.get_operation args.document args.operation_name ≢ some mutation
  unfolding validate
  validate_get_mutation args p valid get is = ground (arith, (eq_iff request.method "GET").1 get)

  -- A response with status 200 comes from a GET or a POST whose arguments were parsed, that is no
  -- mutation over GET, that has no validation error, whose context was created, and whose
  -- execution returned; it carries the result of that execution and that context.
  pub execute-IsServed :
      (p : ArgsParser)
      → (execute env schema request p).1.status ≡ 200
      → IsServed p (execute env schema request p).1
  unfolding execute
  execute-IsServed p h = elim (Bool-cases (is_supported env schema request.method)) [
    | inr bad ↦ absurd (ground arith)
    | inl good ↦
        let q = (parse env schema request p).0 in
        let (args, parsed, valid, ok_200, same) =
          execute_parsed_200 q (parse env schema request p).1 (rw (good, execute) at h) in
        let (c, b, created, ran, answered) = answer_200 args ok_200 in
        record {
          args = args;
          context = c;
          result = b;
          method = supported_iff.0 good;
          parsed = parsed;
          allowed = validate_get_mutation args q valid;
          valid = valid;
          created = created;
          ran = ran;
          same = rw (good, execute) (same ∙ answered);
        }
  ]

module _ {H Schema C B : Type 0} (env : Environment H Schema C B) (schema : Schema) where
  -- An answer that does not carry the result of an execution has an error, and a status of failure.
  abbrev IsComplete : Response C B → Type 0
  IsComplete answer =
      ((result : B) × (answer.status ≡ 200) × (answer.body ≡ executed result))
      ⊎ ((e : ResponseError) × (es : List ResponseError) × (answer.body ≡ errors (e ∷ es))
          × (400 ≤ answer.status))

  answer-IsComplete :
      (request : Request H) (args : ParsedExecutionArgs)
      → IsComplete (answer env schema request args)
  unfolding answer
  answer-IsComplete request args = elim (Result-cases (env.create_context request args)) [
    | inr (e, stopped) ↦ rw (stopped, answer) (inr (_, [], refl, omega arith))
    | inl (context, created) ↦ elim (Result-cases (env.graphql_execute schema context args)) [
      | inr (e, stopped) ↦ rw (created, stopped, answer) (inr (_, [], refl, omega arith))
      | inl (result, ran) ↦ rw (created, ran, answer) (inl (result, refl, refl))
    ]
  ]

  execute_parsed-IsComplete :
      (request : Request H) (p : ArgsParser) (r : Result ParsedExecutionArgs)
      → IsComplete (execute_parsed env schema request p r).1
  unfolding execute_parsed
  execute_parsed-IsComplete request p (thrown e) = inr (_, [], refl, omega arith)
  execute_parsed-IsComplete request p (ok args) = responds (validate env schema request args p).1
    where
      responds : (r : Result (List ResponseError)) → IsComplete (respond env schema request args r)
      responds (ok []) = answer-IsComplete request args
      responds (ok (e ∷ es)) = inr (e, es, refl, omega arith)
      responds (thrown e) = inr (_, [], refl, omega arith)

  pub execute_body :
      (request : Request H) (p : ArgsParser) → IsComplete (execute env schema request p).1
  unfolding execute unsupported
  execute_body request p =
      if_split (λ (r : ArgsParser × Response C B). IsComplete r.1)
        (is_supported env schema request.method)
        (λ _.
          execute_parsed-IsComplete request (parse env schema request p).0
            (parse env schema request p).1)
        (λ _. inr (_, [], refl, omega arith))
