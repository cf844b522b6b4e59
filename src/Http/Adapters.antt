-- ===== src/Http/Adapters.antt =====
-- The handlers of src/http/GraphQLHttpServer.ts for Express and Koa: which calls they make on the
-- objects of the framework. What such a call throws, if it throws, is a parameter.
pub mod Next
mod Tests
use graphqlade.Common.{
  ◌++◌, Bool, true, false, ℕ, String, Option, none, some, List, [], ◌∷◌, Error, Thrown, Result, ok,
  thrown,
}
use graphqlade.Server.ArgsParser.{ArgsParser}
use graphqlade.Http.HttpServer.{Request, Response, Body, Environment, execute}

-- `res.status(…)`, `.set(…)`, `.json(…)`; `next()` or `next(err)`.
pub data ExpressCall (B : Type 0) : Type 0 where
  status : ℕ → ExpressCall B
  set : List (String × String) → ExpressCall B
  json : Body B → ExpressCall B
  next : Option Error → ExpressCall B

-- `ctx.status = …`, `ctx.set(…)`, `ctx.body = …`; `next()`.
pub data KoaCall (B : Type 0) : Type 0 where
  sets_status : ℕ → KoaCall B
  sets_headers : List (String × String) → KoaCall B
  sets_body : Body B → KoaCall B
  awaits_next : KoaCall B

-- Calls in their order, up to one that throws; and what it throws.
unfoldable pub attempt {ℓ} :
    {Call : Type ℓ} → (Call → Option Thrown) → List Call → List Call × Option Thrown
attempt throws [] = ([], none)
attempt throws (call ∷ calls) =
    let (made, failure) = attempt throws calls in
    elim (throws call) [ none ↦ (call ∷ made, failure) | some t ↦ (call ∷ [], some t) ]

module _ {H Schema C B : Type 0} (env : Environment H Schema C B) (schema : Schema) where
  abbrev pub express_calls : Response C B → List (ExpressCall B)
  express_calls response =
      status response.status ∷ set response.headers ∷ json response.body ∷ next none ∷ []

  abbrev pub koa_calls : Response C B → List (KoaCall B)
  koa_calls response =
      sets_status response.status ∷ sets_headers response.headers ∷ sets_body response.body ∷ []

  -- The `catch` of `handleExpress`.
  abbrev pub pass_on :
      (Thrown → Error)
      → (ExpressCall B → Option Thrown)
      → List (ExpressCall B) × Option Thrown
      → List (ExpressCall B) × Option Thrown
  pass_on to_error throws (made, none) = (made, none)
  pass_on to_error throws (made, some t) =
      (made ++ next (some (to_error t)) ∷ [], throws (next (some (to_error t))))

  unfoldable pub handle_express :
      (Thrown → Error)
      → (ExpressCall B → Option Thrown)
      → Request H
      → ArgsParser
      → ArgsParser × (List (ExpressCall B) × Option Thrown)
  unfolding attempt
  handle_express to_error throws request p =
      let (q, response) = execute env schema request p in
      (q, pass_on to_error throws (attempt throws (express_calls response)))

  -- `next` is optional.
  abbrev pub koa_next : Bool → List (KoaCall B)
  koa_next true = awaits_next ∷ []
  koa_next false = []

  unfoldable pub handle_koa :
      (KoaCall B → Option Thrown)
      → Bool
      → Request H
      → ArgsParser
      → ArgsParser × (List (KoaCall B) × Option Thrown)
  unfolding attempt
  handle_koa throws has_next request p =
      let (q, response) = execute env schema request p in
      (q, attempt throws (koa_calls response ++ koa_next has_next))
