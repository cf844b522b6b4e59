-- ===== src/Ws/SocketClient/Steps.antt =====
-- The subscriptions of a GraphQLWebSocketClient, and one event.
use graphqlade.Common.{
  ℕ, suc, ℤ, pos, negsuc, ltb, nat_beq, String, Bool, true, false, not, ◌||◌, Option, none, some,
  List, [], ◌∷◌, ◌++◌, if◌then◌else◌, keep, Value, Thrown, Error, nat_eq,
}
use graphqlade.Common.Map
use graphqlade.Common.Map.{Map}
use graphqlade.Util.PushIterator
use graphqlade.Util.PushIterator.{World, Action, pushes, finishes_early, aborts, setup_returns}
use graphqlade.Ws.Messages.{SubscribePayload}
use graphqlade.Ws.ServerSocket.State.{Deferred, unsettled, resolved, rejected}
use graphqlade.Ws.ClientSocket.State.{Use, calls_next, is_raised}
use graphqlade.Ws.ClientSocket.Steps.{action_of}
use graphqlade.Ws.SocketClient.Connection.{
  Settings, Socket, Connection, start, is_connected, must_wait, start_delay, end_delay,
  require_socket, reset_delay, increase_delay, change_socket, open_socket, close_socket,
  settle_socket, or_default,
}

-- Where the function `run` of a subscription stands: before it first runs, at the two awaits of
-- `requireConnection`, with the delay over or not needed, in the loop over its inner iterator,
-- before the timeout of a retry, or at its end.
pub data Progress : Type 0 where
  idle in_delay delayed iterating retrying over : Progress
  in_ack : ℕ → Progress

-- An iterator that `subscribe` made; `inner` is the number of `innerIt`.
pub record Subscription : Type 0 where
  pub it : World Value Thrown
  pub payload : SubscribePayload
  pub inner : Option ℕ
  pub progress : Progress

pub data Effect : Type 0 where
  subscribes_at : ℕ → ℕ → SubscribePayload → Effect
  returns_from : ℕ → Effect
  closes : ℕ → ℤ → String → Effect

-- `open` is the set `subscriptions`; `streams` are all iterators that were made.
pub record SocketClient : Type 0 where
  pub connection : Connection
  pub streams : Map ℕ Subscription
  pub next_stream : ℕ
  pub listed : List ℕ
  pub next_inner : ℕ
  pub log : List Effect

pub data Event : Type 0 where
  sets_payload : Value → Event
  subscribes : SubscribePayload → Event
  uses : ℕ → Use → Event
  setup_ends : ℕ → Event
  delay_ends : Event
  continues : ℕ → ℕ → Event
  yields : ℕ → Value → Event
  ends : ℕ → Event
  fails : ℕ → Thrown → Event
  retries : ℕ → Event
  closes_all : Option ℤ → Option String → Event
  socket_opens socket_closes : ℕ → Event
  socket_settles : ℕ → Deferred → Event

unfoldable pub init : Settings → Value → SocketClient
init settings payload = record {
  connection = start settings payload;
  streams = [];
  next_stream = 0;
  listed = [];
  next_inner = 0;
  log = [];
}

abbrev pub perform : Effect → SocketClient → SocketClient
perform effect s = record s { log = effect ∷ s.log }

-- `innerIt?.return()`
unfoldable pub return_inner : Option ℕ → SocketClient → SocketClient
return_inner none s = s
return_inner (some inner) s = perform (returns_from inner) s

abbrev pub set_stream : ℕ → Subscription → SocketClient → SocketClient
set_stream n sub s = record s { streams = Map.set n sub s.streams }

abbrev pub set_progress : ℕ → Subscription → Progress → SocketClient → SocketClient
set_progress n sub progress s = set_stream n (record sub { progress = progress }) s

-- The teardown function of `subscribe`.
unfoldable pub teardown : ℕ → Option ℕ → SocketClient → SocketClient
unfolding return_inner
teardown n inner s =
    let s' = return_inner inner s in record s' { listed = keep (λ k. not (nat_beq k n)) s'.listed }

-- An action on the iterator numbered `n`, after which `run` stands at `progress`; the teardown
-- function is called if the action calls it.
unfoldable pub act : Action Value Thrown → Progress → ℕ → Subscription → SocketClient → SocketClient
unfolding teardown
act action progress n sub s =
    let w = PushIterator.step is_raised action sub.it in
    let s' = set_stream n (record sub { it = w; progress = progress }) s in
    if ltb sub.it.torn w.torn then teardown n sub.inner s' else s'

-- `run`, as far as its first await.
unfoldable pub start_run : ℕ → Subscription → SocketClient → SocketClient
start_run n sub s =
    if must_wait s.connection
    then set_progress n sub in_delay (record s { connection = start_delay s.connection })
    else set_progress n sub delayed s

-- The first call of `next`, which calls the setup function.
unfoldable pub begin : ℕ → Option Subscription → SocketClient → SocketClient
unfolding start_run
begin n none s = s
begin n (some sub) s = start_run n sub (record s { listed = s.listed ++ n ∷ [] })

abbrev is_first : Use → Subscription → Bool
is_first calls_next sub = not sub.it.initialized
is_first _ sub = false

unfoldable pub use_stream : Use → ℕ → Subscription → SocketClient → SocketClient
unfolding act begin
use_stream how n sub s =
    let s' = act (action_of how) sub.progress n sub s in
    if is_first how sub then begin n (Map.get n s'.streams) s' else s'

-- All that wait for the delay go on.
abbrev pub wake : Progress → Progress
wake in_delay = delayed
wake progress = progress

unfoldable pub wake_all : Map ℕ Subscription → Map ℕ Subscription
wake_all [] = []
wake_all ((n, sub) ∷ subs) = (n, record sub { progress = wake sub.progress }) ∷ wake_all subs

-- `shouldRetry`
abbrev pub is_retryable : ℕ → Bool
is_retryable n =
    nat_beq n 1000
    || nat_beq n 1005
    || nat_beq n 1006
    || nat_beq n 1012
    || nat_beq n 1013
    || nat_beq n 1014

unfoldable pub should_retry : Option ℤ → Bool
should_retry none = false
should_retry (some (pos n)) = is_retryable n
should_retry (some (negsuc n)) = nat_beq n 0

-- `await this.graphqlSocket.requireAck()` returned: the inner iterator is made on the socket that
-- is the current one by now.
unfoldable pub subscribe_at : Option ℕ → ℕ → Subscription → SocketClient → SocketClient
subscribe_at none n sub s = s
subscribe_at (some i) n sub s = perform (subscribes_at s.next_inner i sub.payload) (
    set_stream n (record sub { inner = some s.next_inner; progress = iterating })
      (record s { next_inner = suc s.next_inner }))

abbrev pub ack_at : ℕ → Map ℕ Socket → Deferred
ack_at i sockets = elim (Map.get i sockets) [ none ↦ unsettled | some socket ↦ socket.ack ]

-- `requireConnection` after its delay.
unfoldable pub await_ack : Option ℕ → ℕ → Subscription → SocketClient → SocketClient
await_ack none n sub s = s
await_ack (some i) n sub s = set_progress n sub (in_ack i) s

-- The loop of `close`.
unfoldable pub finish_all : List ℕ → SocketClient → SocketClient
unfolding act
finish_all [] s = s
finish_all (n ∷ ns) s = elim (Map.get n s.streams) [
  | none ↦ finish_all ns s
  | some sub ↦ finish_all ns (act finishes_early sub.progress n sub s)
]

unfoldable pub close_current : Option ℕ → ℤ → String → SocketClient → SocketClient
close_current none code reason s = s
close_current (some i) code reason s =
    if is_connected (some i) s.connection.sockets
    then perform (closes i code reason)
        (record s { connection = change_socket close_socket i s.connection })
    else s

abbrev is_iterating : Progress → Bool
is_iterating iterating = true
is_iterating _ = false

abbrev is_retrying : Progress → Bool
is_retrying retrying = true
is_retrying _ = false

-- Whether an event can happen.
abbrev pub is_due : Event → Subscription → Bool
is_due (yields _ _) sub = is_iterating sub.progress
is_due (ends _) sub = is_iterating sub.progress
is_due (fails _ _) sub = is_iterating sub.progress
is_due (retries _) sub = is_retrying sub.progress
is_due _ sub = true

abbrev pub new_subscription : SubscribePayload → Subscription
new_subscription payload = record {
  it = PushIterator.init;
  payload = payload;
  inner = none;
  progress = idle;
}

module _ (to_error : Thrown → Error) where
  -- The branches of `catch`, and `finally`.
  unfoldable pub fail : Thrown → ℕ → Subscription → SocketClient → SocketClient
  unfolding act return_inner
  fail t n sub s = return_inner sub.inner (
      if should_retry (to_error t).code
      then set_progress n sub retrying s
      else act (aborts t) over n sub s)

  unfoldable pub after_ack : Deferred → ℕ → ℕ → Subscription → SocketClient → SocketClient
  unfolding fail subscribe_at
  after_ack unsettled random n sub s = s
  after_ack (resolved payload) random n sub s =
      subscribe_at s.connection.current n sub
        (record s { connection = reset_delay payload s.connection })
  after_ack (rejected t) random n sub s =
      fail t n sub (record s { connection = increase_delay random s.connection })

  unfoldable pub continue : Progress → ℕ → ℕ → Subscription → SocketClient → SocketClient
  unfolding after_ack await_ack
  continue delayed random n sub s =
      let c = require_socket s.connection in await_ack c.current n sub (record s { connection = c })
  continue (in_ack i) random n sub s = after_ack (ack_at i s.connection.sockets) random n sub s
  continue _ random n sub s = s

  -- What an event does to the subscription that it is about.
  unfoldable pub handle : Event → ℕ → Subscription → SocketClient → SocketClient
  unfolding use_stream act continue fail start_run
  handle (uses _ how) n sub s = use_stream how n sub s
  handle (setup_ends _) n sub s = act (setup_returns 0 (some none)) sub.progress n sub s
  handle (continues _ random) n sub s = continue sub.progress random n sub s
  handle (yields _ v) n sub s = act (pushes v) iterating n sub s
  handle (ends _) n sub s = return_inner sub.inner (act finishes_early over n sub s)
  handle (fails _ t) n sub s = fail t n sub s
  handle (retries _) n sub s = start_run n sub s
  handle _ n sub s = s

  unfoldable pub handle_at : Event → ℕ → SocketClient → SocketClient
  unfolding handle
  handle_at e n s = elim (Map.get n s.streams) [
    | none ↦ s
    | some sub ↦ if is_due e sub then handle e n sub s else s
  ]

  unfoldable pub step : Event → SocketClient → SocketClient
  unfolding handle_at finish_all close_current wake_all
  step (sets_payload payload) s = record s {
    connection = record s.connection { init_payload = payload };
  }
  step (subscribes payload) s = record (set_stream s.next_stream (new_subscription payload) s) {
    next_stream = suc s.next_stream;
  }
  step delay_ends s =
      if s.connection.delaying
      then record s { connection = end_delay s.connection; streams = wake_all s.streams }
      else s
  step (closes_all code reason) s =
      close_current s.connection.current (or_default code (pos 1000))
        (or_default reason "Normal Closure") (finish_all s.listed s)
  step (socket_opens i) s = record s { connection = change_socket open_socket i s.connection }
  step (socket_closes i) s = record s { connection = change_socket close_socket i s.connection }
  step (socket_settles i d) s = record s {
    connection = change_socket (settle_socket d) i s.connection;
  }
  step (uses n how) s = handle_at (uses n how) n s
  step (setup_ends n) s = handle_at (setup_ends n) n s
  step (continues n random) s = handle_at (continues n random) n s
  step (yields n v) s = handle_at (yields n v) n s
  step (ends n) s = handle_at (ends n) n s
  step (fails n t) s = handle_at (fails n t) n s
  step (retries n) s = handle_at (retries n) n s
