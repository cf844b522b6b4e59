-- ===== src/Server/GraphqlServer.antt =====
-- src/server/GraphQLServer.ts: an HTTP server and a web socket server over one arguments parser, and
-- the steps of `bootstrap`.
pub mod Equivalence
pub mod Bootstrapping
mod Tests
use graphqlade.Common.{
  String, Bool, true, false, Option, none, some, List, [], ◌∷◌, Value, Error, Result, ok, thrown,
  ◌>>=◌, ◌⊎◌, inl, inr,
}
use graphqlade.Server.ArgsParser
use graphqlade.Util.ResolverMerging.Lookup.{otherwise}
use graphqlade.Server.ArgsParser.{ArgsParser, Options, RawExecutionArgs, ParsedExecutionArgs}
use graphqlade.Http.HttpServer
use graphqlade.Http.HttpServer.{Request, Response}
use graphqlade.Ws.SocketServer
use graphqlade.Ws.SocketServer.{Answer}
use graphqlade.Server.SchemaManager.{
  Types, Codec, SchemaResolver, SchemaInput, Change, go_on, set_resolvers, set_sdl_resolvers,
}
use graphqlade.Server.SchemaManager.Defaults.{set_default_field_resolver}
use graphqlade.Server.SchemaManager.ErrorHandling.{Resolve, set_resolver_error_handler}

-- What the two servers take from outside: they share graphql's functions, and have their own
-- contexts and executions.
pub record Environment (H Schema C B S : Type 0) : Type 0 where
  pub http : HttpServer.Environment H Schema C B
  pub create_socket_context : Value → ParsedExecutionArgs → Result C
  pub graphql_subscribe : Schema → C → ParsedExecutionArgs → Result S

-- A request, or a subscription with the payload of its socket.
pub data Event (H : Type 0) : Type 0 where
  requests : Request H → Event H
  subscribes : Value → RawExecutionArgs → Event H

pub data Reply (C B S : Type 0) : Type 0 where
  responds : Response C B → Reply C B S
  answers : Answer S → Reply C B S

module _ {H Schema C B S : Type 0} (env : Environment H Schema C B S) (schema : Schema) where
  abbrev pub ws : SocketServer.Environment Schema C S
  ws = record {
    limit_depth = env.http.limit_depth;
    graphql_parse = env.http.graphql_parse;
    json_parse = env.http.json_parse;
    graphql_validate = env.http.graphql_validate;
    create_context = env.create_socket_context;
    graphql_subscribe = env.graphql_subscribe;
  }

  -- Both servers use the same parser, and change it.
  unfoldable pub handle : Event H → ArgsParser → ArgsParser × Reply C B S
  handle (requests request) p =
      let (q, response) = HttpServer.execute env.http schema request p in (q, responds response)
  handle (subscribes payload raw) p =
      let (q, answer) = SocketServer.subscribe ws schema payload raw p in (q, answers answer)

-- The parser that the constructor gives to both servers.
abbrev pub shared_parser : Option ArgsParser → Options → ArgsParser
shared_parser given options = otherwise given (ArgsParser.init options)
