-- ===== src/Ws/SocketServer/Connections.antt =====
-- The sockets that a GraphQLWebSocketServer keeps: `handleConnection` and `close`.
pub mod Listening
pub mod Shutdown
use graphqlade.Common.{
  ℕ, suc, ℤ, pos, String, Bool, true, false, ◌||◌, Option, none, some, List, [], ◌∷◌, ◌++◌,
  if◌then◌else◌, keep, not, Value, Error, Thrown, nat_eq, ◌===◌,
}
use graphqlade.Common.Map
use graphqlade.Common.Map.{Map}
use graphqlade.Ws.ServerSocket.State
use graphqlade.Ws.ServerSocket.State.{ServerSocket, Event, close_event, error_event, setup}
use graphqlade.Ws.ServerSocket.Steps.{step}

-- All sockets that were ever connected, by number, and the numbers in `graphqlSockets`.
pub record SocketServer : Type 0 where
  pub sockets : Map ℕ ServerSocket
  pub graphql_sockets : List ℕ
  pub next_socket : ℕ

abbrev pub start : SocketServer
start = record { sockets = []; graphql_sockets = []; next_socket = 0 }

-- A socket of some protocol is connected; an event happens to a socket; the server is closed.
pub data Action : Type 0 where
  connects : String → Action
  receives : ℕ → Event → Action
  shuts_down : Option ℤ → Option String → Action

abbrev pub handle_connection : String → SocketServer → SocketServer
handle_connection protocol s = record {
  sockets = Map.set s.next_socket (setup protocol) s.sockets;
  graphql_sockets = s.graphql_sockets ++ s.next_socket ∷ [];
  next_socket = suc s.next_socket;
}

-- `this.graphqlSockets.delete(graphqlSocket)`
abbrev pub forget : ℕ → List ℕ → List ℕ
forget n ns = keep (λ k. not (k === n)) ns

-- The listeners that `handleConnection` adds.
abbrev pub tracked_after : Event → ℕ → List ℕ → List ℕ
tracked_after (close_event _ _) n ns = forget n ns
tracked_after (error_event _) n ns = forget n ns
tracked_after _ n ns = ns

abbrev pub or_default : {A : Type 0} → Option A → A → A
or_default none a = a
or_default (some b) a = b

abbrev pub close_one : ℤ → String → ℕ → Map ℕ ServerSocket → Map ℕ ServerSocket
close_one code reason n m = elim (Map.get n m) [
  | none ↦ m
  | some s ↦ Map.set n (State.close code reason s) m
]

abbrev pub close_each : ℤ → String → List ℕ → Map ℕ ServerSocket → Map ℕ ServerSocket
close_each code reason [] m = m
close_each code reason (n ∷ ns) m = close_each code reason ns (close_one code reason n m)

unfoldable pub close : Option ℤ → Option String → SocketServer → SocketServer
close code reason s = record s {
  sockets =
      close_each (or_default code (pos 1000)) (or_default reason "Normal Closure") s.graphql_sockets
        s.sockets;
  graphql_sockets = [];
}

module _ (to_error : Thrown → Error) (show : Value → String) where
  abbrev pub receive : ℕ → Event → Option ServerSocket → SocketServer → SocketServer
  receive n e none s = s
  receive n e (some socket) s = record s {
    sockets = Map.set n (step to_error show e socket) s.sockets;
    graphql_sockets = tracked_after e n s.graphql_sockets;
  }

  unfoldable pub act : Action → SocketServer → SocketServer
  unfolding close
  act (connects protocol) s = handle_connection protocol s
  act (receives n e) s = receive n e (Map.get n s.sockets) s
  act (shuts_down code reason) s = close code reason s

  unfoldable pub run : List Action → SocketServer → SocketServer
  unfolding act
  run [] s = s
  run (a ∷ actions) s = run actions (act a s)
