-- ===== src/Ws/SocketClient/Sockets.antt =====
-- A GraphQLWebSocketClient has one socket at a time.
use graphqlade.Common.{
  ℕ, ◌≡◌, refl, ap, ◌⊎◌, inl, inr, true, false, some, Option-cases, Bool-cases, List, if_split, All,
  Value, Thrown, Error, nat_eq, nat_equal_iff, ◌===◌, Steps-keep, arith, ◌∷◌, [],
}
use graphqlade.Common.Map
use graphqlade.Common.Map.{Map}
use graphqlade.Ws.ClientSocket.State.{Ready, connecting, opened, closed, is_open_or_connecting}
use graphqlade.Ws.SocketClient.{run}
use graphqlade.Ws.SocketClient.Connection.{
  Settings, Socket, Connection, start, start_delay, require_socket, increase_delay, change_socket,
  reset_delay, is_alive, is_connected, new_socket, open_socket, close_socket, settle_socket,
}
use graphqlade.Ws.SocketClient.Steps.{Event, continues, init}
use graphqlade.Ws.SocketClient.Changes.{
  IsRandom, Change, provides, waits, stops_waiting, requires, resets, increases, opens, shuts,
  settles, run-Changes,
}

-- The socket that is open or connecting is the current one.
IsSingle : Connection → Type 0
IsSingle c = (i : ℕ) → is_alive i c.sockets ≡ true → c.current ≡ some i

-- A change does not bring a closed socket back.
NoRevival : (Socket → Socket) → Type 0
NoRevival change =
    (socket : Socket)
    → is_open_or_connecting (change socket).ready ≡ true
    → is_open_or_connecting socket.ready ≡ true

open_socket-NoRevival : NoRevival open_socket
unfolding NoRevival
open_socket-NoRevival socket alive = ready_cases socket.ready alive
  where
    ready_cases :
        (r : Ready)
        → is_open_or_connecting (open_socket (record socket { ready = r })).ready ≡ true
        → is_open_or_connecting r ≡ true
    ready_cases connecting e = refl
    ready_cases opened e = refl
    ready_cases closed e = e

close_socket-NoRevival : NoRevival close_socket
unfolding NoRevival
close_socket-NoRevival socket alive = cc

is_alive-set :
    (i j : ℕ) (socket : Socket) (sockets : Map ℕ Socket)
    → is_alive j (Map.set i socket sockets) ≡ true
    → ((i ≡ j) × (is_open_or_connecting socket.ready ≡ true)) ⊎ (is_alive j sockets ≡ true)
unfolding is_alive
is_alive-set i j socket sockets alive = elim (Bool-cases (i === j)) [
  | inl same ↦
      let e = (nat_equal_iff i j).0 same in inl (e, ground (arith, Map.get-set i j socket sockets))
  | inr other ↦ inr (ground (arith, Map.get-set_other i j socket sockets other))
]

change_socket-IsSingle :
    (change : Socket → Socket)
    → NoRevival change
    → (i : ℕ) (c : Connection) → IsSingle c
    → IsSingle (change_socket change i c)
unfolding change_socket IsSingle NoRevival is_alive
change_socket-IsSingle change quiet i c single = elim (Option-cases (Map.get i c.sockets)) [
  | inl absent ↦ rw (absent, change_socket) single
  | inr (socket, here) ↦
      rw (here, change_socket)
        (λ j alive. elim (is_alive-set i j (change socket) c.sockets alive) [
          | inl (same, living) ↦ single j (ground (arith, quiet socket living))
          | inr living ↦ single j living
        ])
]

is_connected-current :
    (c : Connection) (j : ℕ)
    → IsSingle c
    → is_alive j c.sockets ≡ true
    → is_connected c.current c.sockets ≡ false
    → ⊥
unfolding is_connected IsSingle
is_connected-current c j single living gone =
    let e = single j living in cc (living, rw (e, is_connected) at gone)

require_socket-IsSingle : (c : Connection) → IsSingle c → IsSingle (require_socket c)
unfolding require_socket IsSingle
require_socket-IsSingle c single =
    if_split IsSingle (is_connected c.current c.sockets) (λ _. single)
      (λ gone j alive.
        elim (is_alive-set c.next_socket j (new_socket c.init_payload) c.sockets alive) [
          | inl (same, living) ↦ ap some same
          | inr living ↦ absurd (is_connected-current c j single living gone)
        ])

Change-IsSingle : (c d : Connection) → Change (λ random. Unit) c d → IsSingle c → IsSingle d
unfolding start_delay reset_delay increase_delay IsSingle NoRevival
Change-IsSingle c d (provides payload) single = single
Change-IsSingle c d (waits waiting) single =
    if_split IsSingle c.delaying (λ _. single) (λ _. single)
Change-IsSingle c d stops_waiting single = single
Change-IsSingle c d requires single = require_socket-IsSingle c single
Change-IsSingle c d (resets payload) single = single
Change-IsSingle c d (increases random fair) single = single
Change-IsSingle c d (opens i) single =
    change_socket-IsSingle open_socket open_socket-NoRevival i c single
Change-IsSingle c d (shuts i) single =
    change_socket-IsSingle close_socket close_socket-NoRevival i c single
Change-IsSingle c d (settles i a) single =
    change_socket-IsSingle (settle_socket a) (λ socket alive. alive) i c single

any-IsRandom : (events : List Event) → All (IsRandom (λ random. Unit)) events
any-IsRandom [] = tt
any-IsRandom (e ∷ events) = (one e, any-IsRandom events)
  where
    one : (e : Event) → IsRandom (λ random. Unit) e
    one (continues n random) = tt
    one _ = tt

-- Whatever happened to a client, no two of its sockets are open or connecting.
pub run_one_alive :
    (to_error : Thrown → Error) (settings : Settings) (payload : Value) (events : List Event)
    (i j : ℕ)
    → is_alive i (run to_error events (init settings payload)).connection.sockets ≡ true
    → is_alive j (run to_error events (init settings payload)).connection.sockets ≡ true
    → i ≡ j
unfolding init start IsSingle is_alive Map.get
run_one_alive to_error settings payload events i j first second =
    let single =
      Steps-keep IsSingle Change-IsSingle
        (run-Changes (λ random. Unit) to_error events (init settings payload) (any-IsRandom events))
        (λ k alive. cc) in
    cc (single i first, single j second)
