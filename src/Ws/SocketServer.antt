-- ===== src/Ws/SocketServer.antt =====
-- src/ws/GraphQLWebSocketServer.ts: the `subscribe` function that it gives to its sockets, over its
-- arguments parser, and the sockets that it keeps. `graphql`'s functions and the context factory are
-- parameters, as for the HTTP server; a promise is represented by what it settles to.
pub mod Equivalence
pub mod Connections
mod Tests
use graphqlade.Common.{
  ℕ, String, Option, List, [], ◌∷◌, map, Value, Error, Thrown, Result, ok, thrown, ◌>>=◌, ◌⊎◌,
}
use graphqlade.Graphql.{Document, GraphqlError}
use graphqlade.Server.ArgsParser
use graphqlade.Server.ArgsParser.{ArgsParser, RawExecutionArgs, ParsedExecutionArgs}
use graphqlade.Http.HttpServer.{ResponseError, graphql, serialize_error}

-- What `subscribe` gives to a socket: errors, or what `graphql`'s `subscribe` gave.
pub data Answer (B : Type 0) : Type 0 where
  refused : List ResponseError → Answer B
  subscribed : B → Answer B

pub record Environment (Schema C B : Type 0) : Type 0 where
  pub limit_depth : Document → ℕ → Result (Unit {0})
  pub graphql_parse : String → Result Document
  pub json_parse : String → String ⊎ Value
  pub graphql_validate : Schema → Document → Result (List GraphqlError)
  pub create_context : Value → ParsedExecutionArgs → Result C
  pub graphql_subscribe : Schema → C → ParsedExecutionArgs → Result B

module _ {Schema C B : Type 0} (env : Environment Schema C B) (schema : Schema) where
  open env use {
    limit_depth, graphql_parse, json_parse, graphql_validate, create_context, graphql_subscribe,
  }

  abbrev pub subscribe_validated : Value → ParsedExecutionArgs → Result B
  subscribe_validated payload args =
      create_context payload args >>= λ context. graphql_subscribe schema context args

  -- The `catch` of `subscribe`.
  abbrev pub caught : Result B → Answer B
  caught (ok result) = subscribed result
  caught (thrown e) = refused (serialize_error e ∷ [])

  abbrev pub unless_errors : Result (List GraphqlError) → Result B → Answer B
  unless_errors (thrown e) result = caught (thrown e)
  unless_errors (ok []) result = caught result
  unless_errors (ok errors) result = refused (map graphql errors)

  abbrev pub subscribe_parsed :
      Value → Result ParsedExecutionArgs → ArgsParser → ArgsParser × Answer B
  subscribe_parsed payload (thrown e) p = (p, caught (thrown e))
  subscribe_parsed payload (ok args) p =
      let (q, errors) = ArgsParser.validate graphql_validate schema args p in
      (q, unless_errors errors (subscribe_validated payload args))

  unfoldable pub subscribe : Value → RawExecutionArgs → ArgsParser → ArgsParser × Answer B
  subscribe payload raw p =
      let (q, args) = ArgsParser.parse limit_depth graphql_parse json_parse raw p in
      subscribe_parsed payload args q
