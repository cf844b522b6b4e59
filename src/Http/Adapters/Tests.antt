-- ===== src/Http/Adapters/Tests.antt =====
-- A request answered through Express, with a framework whose `set` fails, and through Koa.
use graphqlade.Common.{
  ℕ, ◌≡◌, refl, true, Option, none, some, [], ◌∷◌, plain_error, Error, Thrown, error, value, prop,
}
use graphqlade.Server.ArgsParser
use graphqlade.Http.HttpServer.{executed, execute, parse, raw_args_of, validate, answer}
use graphqlade.Http.HttpServer.Tests.{env, fresh_parser, get}
use graphqlade.Http.Adapters.{
  ExpressCall, status, set, next, KoaCall, sets_status, sets_headers, sets_body, awaits_next,
  handle_express, handle_koa, attempt,
}

abbrev as_error : Thrown → Error
as_error (error e) = e
as_error (value v) = plain_error "Unknown error"

abbrev broken : ExpressCall ℕ → Option Thrown
broken (set headers) = some (error (plain_error "Headers sent"))
broken _ = none

broken_calls :
    (handle_express env tt as_error broken (get "ping" (some 7)) fresh_parser).1.0
    ≡ (status 200 ∷ set [] ∷ next (some (plain_error "Headers sent")) ∷ [])
unfolding handle_express attempt execute parse raw_args_of validate answer ArgsParser.Tests.running
    prop
broken_calls = refl

abbrev working : KoaCall ℕ → Option Thrown
working call = none

koa_answer :
    (handle_koa env tt working true (get "ping" (some 7)) fresh_parser).1.0
    ≡ (sets_status 200 ∷ sets_headers [] ∷ sets_body (executed 7) ∷ awaits_next ∷ [])
unfolding handle_koa attempt execute parse raw_args_of validate answer ArgsParser.Tests.running prop
koa_answer = refl
