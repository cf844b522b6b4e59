-- ===== src/Ws/SocketClient/Tests.antt =====
-- A client that reconnects, and the theorems on its runs at it.
use graphqlade.Common.{
  Value, Bool, false, string_eq, ℕ, pos, ◌≡◌, refl, ◌⊎◌, true, Option, none, some, List, [], ◌∷◌,
  All, null, undefined, Thrown, error, Fields, field, end, str, prop, truthy, nat_eq, arith,
}
use graphqlade.Common.Map
use graphqlade.Util.PushIterator
use graphqlade.Ws.Messages.{SubscribePayload}
use graphqlade.Ws.ServerSocket.State.{resolved, rejected, make_closing_error}
use graphqlade.Ws.ServerSocket.Tests.{as_error, show_text}
use graphqlade.Ws.ClientSocket.State.{calls_next, returns}
use graphqlade.Ws.SocketClient.{run}
use graphqlade.Ws.SocketClient.Connection.{
  Options, Settings, configure, start, is_alive, must_wait, start_delay, require_socket,
  change_socket, increase_delay, reset_delay,
}
use graphqlade.Ws.SocketClient.Steps.{
  Subscription, subscribes_at, Event, subscribes, uses, setup_ends, delay_ends, continues, fails,
  retries, socket_closes, socket_settles, init, step, new_subscription, over, should_retry,
}
use graphqlade.Ws.SocketClient.Changes.{IsRandom}
use graphqlade.Ws.SocketClient.Bounds.{IsBelowOne, IsDelay, IsSane, run-IsDelay}
use graphqlade.Ws.SocketClient.Sockets.{run_one_alive}
use graphqlade.Ws.SocketClient.Endings.{run_over}
use graphqlade.Ws.SocketClient.Callbacks.{
  Callback, on_data, on_error, breaks, consume, callback_of, has_errors,
}

abbrev options : Options
options = record {
  url = "http://localhost/graphql";
  protocol = none;
  connection_init_payload = undefined;
  connection_ack_timeout = none;
  auto_reconnect = none;
  min_reconnect_delay = none;
  max_reconnect_delay = none;
  reconnect_delay_multiplier = none;
  operations = none;
}

-- The options that are not given have their defaults.
abbrev settings : Settings
settings = configure (λ old new text. text) options

defaults : (settings.min_reconnect_delay ≡ 500) × (settings.max_reconnect_delay ≡ 30000)
unfolding configure
defaults = (refl, refl)

abbrev payload : SubscribePayload
payload = record {
  query = "subscription { now }";
  operation_name = undefined;
  variables = undefined;
}

abbrev lost : Thrown
lost = error (make_closing_error (pos 1006) "lost")

abbrev broken : Thrown
broken = error (make_closing_error (pos 4400) "broken")

-- The first socket is lost, the second one accepts the subscription and then fails for good.
abbrev history : List Event
history =
    subscribes payload
    ∷ uses 0 calls_next
    ∷ continues 0 0
    ∷ socket_closes 0
    ∷ socket_settles 0 (rejected lost)
    ∷ continues 0 4503599627370496
    ∷ retries 0
    ∷ delay_ends
    ∷ continues 0 0
    ∷ socket_settles 1 (resolved null)
    ∷ continues 0 0
    ∷ fails 0 broken
    ∷ []

-- The one delay is 2 * 500 + 0.5 * 500.
delays_of_history : (run as_error history (init settings undefined)).connection.delays ≡ 1250 ∷ []
unfolding run step Map.get Map.set init start PushIterator.step PushIterator.call_next
    PushIterator.resume_next PushIterator.take PushIterator.close PushIterator.abort must_wait
    require_socket change_socket should_retry increase_delay reset_delay configure start_delay
    is_alive
delays_of_history = refl

-- After enough failures the delay is above the greatest: 30000 + 0.5 * 500.
above_maximum :
    (increase_delay 4503599627370496
      (record (start settings undefined) { reconnect_delay = 30000 })).reconnect_delay
    ≡ 30250
unfolding increase_delay configure start
above_maximum = refl

abbrev waiter : Subscription
waiter = new_subscription payload

abbrev held : Option Subscription → Subscription
held none = waiter
held (some sub) = sub

abbrev last : Subscription
last = held (Map.get 0 (run as_error history (init settings undefined)).streams)

settings-IsSane : IsSane settings
unfolding configure
settings-IsSane = record { ordered = omega arith; whole = omega arith; grows = omega arith }

history-IsRandom : All (IsRandom IsBelowOne) history
history-IsRandom = (
  tt,
  (
    tt,
    (
      omega arith,
      (tt, (tt, (omega arith, (tt, (tt, (omega arith, (tt, (omega arith, (tt, tt))))))))),
    ),
  ),
)

run-IsDelay_example :
    let c = (run as_error history (init settings undefined)).connection in
    All (IsDelay settings) c.delays × ((c.reconnect_delay ≡ 0) ⊎ IsDelay settings c.reconnect_delay)
run-IsDelay_example =
    run-IsDelay settings settings-IsSane as_error undefined history history-IsRandom

second_alive : is_alive 1 (run as_error history (init settings undefined)).connection.sockets ≡ true
unfolding run step Map.get Map.set init start PushIterator.step PushIterator.call_next
    PushIterator.resume_next PushIterator.take PushIterator.close PushIterator.abort must_wait
    require_socket change_socket should_retry increase_delay reset_delay configure start_delay
    is_alive
second_alive = refl

run_one_alive_example : ◌≡◌ {A = ℕ} 1 1
run_one_alive_example =
    run_one_alive as_error settings undefined history 1 1 second_alive second_alive

last_found : Map.get 0 (run as_error history (init settings undefined)).streams ≡ some last
unfolding run step Map.get Map.set init start PushIterator.step PushIterator.call_next
    PushIterator.resume_next PushIterator.take PushIterator.close PushIterator.abort must_wait
    require_socket change_socket should_retry increase_delay reset_delay configure start_delay
    is_alive
last_found = refl

last_over : last.progress ≡ over
unfolding run step Map.get Map.set init start PushIterator.step PushIterator.call_next
    PushIterator.resume_next PushIterator.take PushIterator.close PushIterator.abort must_wait
    require_socket change_socket should_retry increase_delay reset_delay configure start_delay
    is_alive
last_over = refl

run_over_example : (last.it.finished ≡ true) ⊎ (last.it.done ≡ true)
run_over_example = run_over as_error settings undefined history 0 last last_found last_over

-- The user returns while the client waits for the acknowledgement: the client subscribes all the
-- same, and the inner iterator is not returned from.
abbrev early_return : List Event
early_return =
    subscribes payload
    ∷ uses 0 calls_next
    ∷ setup_ends 0
    ∷ continues 0 0
    ∷ uses 0 returns
    ∷ socket_settles 0 (resolved null)
    ∷ continues 0 0
    ∷ []

early_return_log :
    (run as_error early_return (init settings undefined)).log ≡ subscribes_at 0 0 payload ∷ []
unfolding run step Map.get Map.set init start PushIterator.step PushIterator.call_next
    PushIterator.resume_next PushIterator.take PushIterator.close PushIterator.abort must_wait
    require_socket change_socket should_retry increase_delay reset_delay configure start_delay
    is_alive
early_return_log = refl

abbrev now : Fields
now = field "data" (str "12:00") end

abbrev has_length : Value → Bool
has_length v = false

-- The callback for the data throws nothing.
abbrev quiet : Callback → Option Thrown
quiet callback = none

told :
    consume show_text has_length as_error quiet (now ∷ []) (breaks lost)
    ≡ on_data (str "12:00") ∷ on_error (make_closing_error (pos 1006) "lost") ∷ []
unfolding consume callback_of has_errors prop truthy
told = refl
