-- ===== src/Server/GraphqlServer/Equivalence.antt =====
-- GraphQLServer.ts: requests and subscriptions do not disturb each other.
use mathlib.Core.Path.{fun_ext}
use graphqlade.Common.{ℕ, none, ◌≡◌, refl, sym, ap, ◌∙◌, Option, List, [], ◌∷◌, map}
use graphqlade.Server.ArgsParser.{ArgsParser, Options}
use graphqlade.Http.HttpServer.Equivalence.{Coherent, execute_fresh, execute_lem, options-Coherent}
use graphqlade.Ws.SocketServer.Equivalence.{subscribe_fresh, subscribe_lem}
use graphqlade.Server.GraphqlServer.{
  Environment, Event, requests, subscribes, Reply, responds, answers, ws, handle, shared_parser,
}

module _ {H Schema C B S : Type 0} (env : Environment H Schema C B S) (schema : Schema) where
  abbrev handle_fresh : Option ℕ → Event H → Reply C B S
  handle_fresh max_depth (requests request) =
      responds (execute_fresh env.http schema max_depth request)
  handle_fresh max_depth (subscribes payload raw) =
      answers (subscribe_fresh (ws env schema) schema max_depth payload raw)

  handle_lem :
      (max_depth : Option ℕ) (event : Event H) (p : ArgsParser)
      → Coherent env.http schema max_depth p
      → ((handle env schema event p).1 ≡ handle_fresh max_depth event)
        × Coherent env.http schema max_depth (handle env schema event p).0
  unfolding handle
  handle_lem max_depth (requests request) p h =
      let (same, kept) = execute_lem env.http schema max_depth request p h in
      (ap responds same, kept)
  handle_lem max_depth (subscribes payload raw) p h =
      let (same, kept) = subscribe_lem (ws env schema) schema max_depth payload raw p h in
      (ap answers same, kept)

  -- The replies to a sequence of events.
  pub serve : List (Event H) → ArgsParser → List (Reply C B S)
  serve [] p = []
  serve (event ∷ rest) p = (handle env schema event p).1 ∷ serve rest (handle env schema event p).0

  serve_lem :
      (max_depth : Option ℕ) (events : List (Event H)) (p : ArgsParser)
      → Coherent env.http schema max_depth p
      → serve events p ≡ map (handle_fresh max_depth) events
  unfolding serve
  serve_lem max_depth [] p h = refl
  serve_lem max_depth (event ∷ rest) p h =
      let (same, coherent) = handle_lem max_depth event p h in
      λ i. same i ∷ serve_lem max_depth rest _ coherent i

  -- Whatever requests and subscriptions come before, in whatever order and through the one parser
  -- that both servers use: each is answered as the first one to a new server with the same options
  -- is.
  pub serve_all-init :
      (options : Options) (events : List (Event H))
      → serve events (shared_parser none options)
        ≡ map (λ event. (handle env schema event (shared_parser none options)).1) events
  serve_all-init options events =
      let start = options-Coherent env.http schema options in
      serve_lem options.max_depth events (shared_parser none options) start
      ∙ ap (λ f. map f events)
          (fun_ext
            λ event. sym (handle_lem options.max_depth event (shared_parser none options) start).0)
