-- ===== src/Http/Adapters/Next.antt =====
-- How often the handler for Express calls `next`, and with what.
use graphqlade.Common.{
  ◌≡◌, Option, none, some, List, [], ◌∷◌, Error, Thrown, Option-cases, inl, inr,
}
use graphqlade.Server.ArgsParser.{ArgsParser}
use graphqlade.Http.HttpServer.{Request, Response, Environment, execute}
use graphqlade.Http.Adapters.{
  ExpressCall, status, set, json, next, attempt, express_calls, pass_on, handle_express,
}

-- The calls of `next` among some calls.
abbrev pub nexts : {B : Type 0} → List (ExpressCall B) → List (Option Error)
nexts [] = []
nexts (next e ∷ calls) = e ∷ nexts calls
nexts (_ ∷ calls) = nexts calls

-- The first of the outcomes that is an exception, as `next` gets it.
abbrev pub first_error : (Thrown → Error) → List (Option Thrown) → Option Error
first_error to_error [] = none
first_error to_error (none ∷ outcomes) = first_error to_error outcomes
first_error to_error (some t ∷ outcomes) = some (to_error t)

module _ {H Schema C B : Type 0} (env : Environment H Schema C B) (schema : Schema)
    (to_error : Thrown → Error) (throws : ExpressCall B → Option Thrown) where
  abbrev pub outcomes : Response C B → List (Option Thrown)
  outcomes response =
      throws (status response.status)
      ∷ throws (set response.headers)
      ∷ throws (json response.body)
      ∷ []

  pass_on_next :
      (response : Response C B)
      → throws (next none) ≡ none
      → nexts
          (pass_on env schema to_error throws
            (attempt throws (express_calls env schema response))).0
        ≡ first_error to_error (outcomes response) ∷ []
  unfolding attempt
  pass_on_next response quiet = elim (Option-cases (throws (status response.status))) [
    | inr (t, failed) ↦ simp (failed, attempt)
    | inl fine ↦ elim (Option-cases (throws (set response.headers))) [
      | inr (t, failed) ↦ simp (fine, failed, attempt)
      | inl sent ↦ elim (Option-cases (throws (json response.body))) [
        | inr (t, failed) ↦ simp (fine, sent, failed, attempt)
        | inl done ↦ simp (fine, sent, done, quiet, attempt)
      ]
    ]
  ]

  -- Unless `next()` throws, the handler for Express calls `next` exactly once: with the first error
  -- that a call on the response threw, or with nothing if none did.
  pub handle_express-next :
      (request : Request H) (p : ArgsParser)
      → throws (next none) ≡ none
      → nexts (handle_express env schema to_error throws request p).1.0
        ≡ first_error to_error (outcomes (execute env schema request p).1) ∷ []
  unfolding handle_express
  handle_express-next request p quiet = pass_on_next (execute env schema request p).1 quiet
