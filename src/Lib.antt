-- ===== src/Lib.antt =====
-- A verification library for GraphQLade's runtime: the arguments parser with its caches, the HTTP
-- server on top of it and its client, the push iterator, both ends of a web socket connection, and the
-- server that holds these parts together with its schema manager.
--
-- The program's parts and how they interact. GraphQLHttpServer.execute takes a request, has its
-- query, operation name and variables parsed by GraphQLExecutionArgsParser, which keeps the last
-- documents and the results of their validation in two LRUCaches, and executes the operation. A
-- GraphQLServerWebSocket speaks the protocol of graphql-transport-ws on one socket: it asks an
-- `acknowledge` function about the initialisation and a `subscribe` function for each
-- subscription, and sends what the iterators yield. Such iterators are made by AsyncPushIterator.
-- A GraphQLWebSocketServer makes the sockets, gives them a `subscribe` function over an arguments
-- parser of its own, and closes them. A GraphQLClientWebSocket is the other end: it waits for the
-- acknowledgement, subscribes under ids of its own, and pushes what arrives to its push iterators. A
-- GraphQLWebSocketClient makes such sockets, and reconnects with growing delays. A GraphQLServer is a
-- GraphQLSchemaManager, which sets the resolvers of a schema, with an HTTP server and a web socket
-- server that share one arguments parser; limitDepth is that parser's check of documents.
--
-- Files and what they model:
-- - Common and its children: what all modules share. Values holds JavaScript's values, Results
--   what a call returns or throws, Map a `Map` in insertion order.
-- - Graphql: the parts of graphql's syntax trees and errors that the code looks at.
-- - Util/LruCache: src/util/LRUCache.ts. `get` and `set` return the new cache.
-- - Util/Guards, Util/CleanOperations: the helpers of src/util of these names.
-- - Util/ResolverMerging: src/util/mergeResolvers.ts.
-- - Util/PushIterator: src/util/AsyncPushIterator.ts, with the calls of `next` that are pending.
--   `step` takes one action of the user, of `setup` or of the event loop.
-- - Server/ArgsParser: src/server/GraphQLExecutionArgsParser.ts, with both caches as state.
-- - Util/DepthLimit: src/util/limitDepth.ts, over Graphql/Visit, which says how graphql documents its
--   `visit`. The model's `level` is `currentDepth` + 1. Arrival says what a document's depth is, and
--   Passes, Known and Fuel what one call of `traverse` finds.
-- - Server/SchemaManager: src/server/GraphQLSchemaManager.ts. The state is the map of the named types.
--   Everywhere holds its loops over all types, Defaults the default resolver, ErrorHandling the
--   handler of errors. Overriding and Updates say what the loops over resolvers do to a field and to
--   a type, Kinds and Precedence which resolver a field has in the end, Rounds, Known, Alike and
--   Acceptance which resolvers a schema accepts.
-- - Server/GraphqlServer: src/server/GraphQLServer.ts. Equivalence is about the two servers over one
--   parser, Bootstrapping about the steps of `bootstrap`.
-- - Http/HttpServer: src/http/GraphQLHttpServer.ts; its Depth puts the depth limit in. Http/Adapters:
--   its handlers for Express and Koa.
-- - Client/HttpClient: src/client/GraphQLClient.ts with its error class. ServerAnswers puts it at the
--   other end of the HTTP server.
-- - Ws/Messages: src/ws/GraphQLWebSocketMessage.ts. Ws/ServerParsers: the parsers of
--   src/ws/GraphQLServerWebSocket.ts. Ws/ServerSocket: the rest of that file. State holds the
--   fields and the low-level methods, Handlers what the handlers do between two awaits, Steps
--   what one event does. Protocol lists the moves that a server may make, and Refinement and
--   HandlerMoves compare the code with them.
-- - Ws/ClientParsers: the parsers of src/ws/GraphQLClientWebSocket.ts. Ws/ClientSocket: the rest of
--   that file, with its iterators as the worlds of Util/PushIterator, numbered in the order of the
--   calls of `subscribe`. State holds the fields and the low-level methods, Steps what one event
--   does, Protocol the moves that a client may make, Registry and Registration which iterator an
--   id belongs to, Endings what a close does to the iterators.
-- - Ws/SocketClient: src/ws/GraphQLWebSocketClient.ts. Connection holds the options, the sockets and
--   the delay, Steps the subscriptions and what one event does, Changes how events change the
--   connection, Settling what they leave of subscriptions, Callbacks the loop of
--   `subscribeAsync`. The delays are exact fractions: the rounding of floating-point numbers is
--   left out.
-- - Ws/Wire: the objects that the two ends give to JSON.stringify, and what JSON.parse gives back.
-- - Ws/SocketServer: src/ws/GraphQLWebSocketServer.ts. Connections holds the sockets that the
--   server keeps, and what `handleConnection` and `close` do to them. `serializeError` is the one
--   of the HTTP server, whose text is the same.
--
-- Parameters. graphql's parse, validate, execute and getOperationAST, JSON.parse, the depth
-- limit of the arguments parser, graphql's visit, buildSchema, default resolver and
-- assertScalarType, the functions of a new GraphQLEnumType, createContext, fetch, `acknowledge` and
-- `subscribe`, `setup` and the conversion of thrown values to text are arguments of the definitions, or events; so is the text of the numbers from
-- which a client makes ids, where different numbers have different texts. Numbers that the code only
-- passes on are naturals.
--
-- Fuel. Only the depth limit needs it, for the recursion of `traverse` through fragment spreads: as
-- many units as the document has spreads, and two more. No spread is on a path twice before the
-- code throws, so this is enough. Every other loop of the code is over a list, and the loops over
-- iterators and the waiting for promises are sequences of events.
--
-- Not modelled: the variants of `subscribe` by name and the timeout of `subscribeAsync`, directives
-- and projections, servers handed to a GraphQLServer ready-made, code generation, and what only
-- reads, writes or watches files. The properties of objects are their own: none is looked up on a
-- prototype.
mod Common
pub mod Graphql
pub mod Util
pub mod Server
pub mod Http
pub mod Ws
pub mod Client
