-- ===== src/Ws/ClientSocket/Steps.antt =====
-- One event of a GraphQLClientWebSocket.
use graphqlade.Common.{
  ℕ, zero, suc, ◌++◌, pos, negsuc, String, Bool, true, false, not, ◌&&◌, Option, none, some, List,
  [], ◌∷◌, if◌then◌else◌, Value, arr, Fields, prop, Thrown, error, Error, ErrorClass, Result, ok,
  thrown, plain_error, ◌⊎◌, inl, inr, concat, join, string_eq, nat_eq,
}
use graphqlade.Common.Map
use graphqlade.Common.Map.{Map, is_some}
use graphqlade.Util.Guards.{is_record}
use graphqlade.Util.PushIterator
use graphqlade.Util.PushIterator.{
  Action, Pending, in_setup, pushes, finishes_early, aborts, setup_returns, setup_throws,
}
use graphqlade.Ws.Messages.{
  connection_init, subscribe, SubscribePayload, ServerMessage, connection_ack, next,
}
use graphqlade.Ws.ClientParsers.{parse_message, check_errors}
use graphqlade.Ws.ServerSocket.State.{Deferred, unsettled, resolved, rejected, make_closing_error}
use graphqlade.Ws.ServerSocket.Handlers.{is_scheduled, unschedule}
use graphqlade.Ws.ClientSocket.State.{
  Stream, Ready, connecting, opened, closed, ClientSocket, Use, calls_next, returns, throws,
  resumes, Event, inits, opens, subscribes, shuts, message_event, close_event, error_event,
  ack_timeout, lost_timeout, setup_continues, uses, expires, is_open, send, clear_timer, close,
  close_by_error, settle, set_stream, act, act_at,
}

-- `init`
unfoldable pub init : Value → ClientSocket → ClientSocket
init payload s =
    let timed = record s {
      timer = true;
      lost_timers = if s.timer then suc s.lost_timers else s.lost_timers;
    } in
    if is_open s.ready
    then send (connection_init payload) timed
    else record timed { opening = s.opening ++ payload ∷ [] }

-- The listeners for `open`.
unfoldable pub send_inits : List Value → ClientSocket → ClientSocket
send_inits [] s = s
send_inits (payload ∷ payloads) s = send_inits payloads (send (connection_init payload) s)

-- The event `open` of a socket that was connecting.
unfoldable pub open_socket : Ready → ClientSocket → ClientSocket
unfolding send_inits
open_socket connecting s = send_inits s.opening (record s { ready = opened })
open_socket _ s = s

-- A new iterator, whose setup has not begun.
abbrev pub new_stream : SubscribePayload → Stream
new_stream payload = record { it = PushIterator.init; payload = payload; id = none }

abbrev pub add_stream : SubscribePayload → ClientSocket → ClientSocket
add_stream payload s = record (set_stream s.next_stream (new_stream payload) s) {
  next_stream = suc s.next_stream;
}

-- `err.message` of each error of a message, which its parser has checked.
abbrev pub messages : Result (List String) → List String
messages (ok texts) = texts
messages (thrown t) = []

abbrev pub error_texts : Value → List String
error_texts (arr errors) = messages (check_errors errors)
error_texts _ = []

abbrev pub subscription_error : Value → Thrown
subscription_error errors =
    error (plain_error (concat ("Subscription error: " ∷ join " / " (error_texts errors) ∷ [])))

-- `this.requireSubscription(id)`, and what is done with the iterator.
unfoldable pub with_subscription : String → Action Value Thrown → ClientSocket → ClientSocket
unfolding act_at
with_subscription id action s = elim (Map.get id s.subscriptions) [
  | none ↦
      close_by_error
        (make_closing_error (pos 4409) (concat ("Subscriber for " ∷ id ∷ " does not exist" ∷ []))) s
  | some n ↦ act_at action n s
]

unfoldable pub handle_message : ServerMessage → ClientSocket → ClientSocket
unfolding with_subscription
handle_message (connection_ack payload) s = settle (resolved payload) (clear_timer s)
handle_message (next id payload) s = with_subscription id (pushes payload) s
handle_message (ServerMessage.error id errors) s =
    with_subscription id (aborts (subscription_error errors)) s
handle_message (ServerMessage.complete id) s = with_subscription id finishes_early s

-- The loop over the subscriptions of `handleCloseEvent` and `handleErrorEvent`.
unfoldable pub throw_all : Thrown → Map String ℕ → ClientSocket → ClientSocket
unfolding act_at
throw_all t [] s = s
throw_all t ((id, n) ∷ m) s = throw_all t m (act_at (aborts t) n s)

unfoldable pub handle_end : Error → ClientSocket → ClientSocket
unfolding throw_all
handle_end e s = throw_all (error e) s.subscriptions (settle (rejected (error e)) (clear_timer s))

abbrev is_in_setup : Option Pending → Bool
is_in_setup (some in_setup) = true
is_in_setup _ = false

-- The setup of an iterator waits for the acknowledgement: it has no id yet, and the call of `next`
-- that runs it, the first one, is there.
abbrev pub awaits_ack : Stream → Bool
awaits_ack stream = not (is_some stream.id) && is_in_setup (Map.get 0 stream.it.calls)

abbrev pub action_of : Use → Action Value Thrown
action_of calls_next = Action.calls_next
action_of returns = Action.returns
action_of (throws t) = aborts t
action_of (resumes k) = Action.resumes k

abbrev pub timeout : ClientSocket → ClientSocket
timeout s = close (pos 4408) "Connection acknowledgement timeout" s

abbrev pub lost_timeouts : ℕ → ClientSocket → ClientSocket
lost_timeouts zero s = s
lost_timeouts (suc k) s = timeout (record s { lost_timers = k })

unfoldable pub expire : String → ClientSocket → ClientSocket
expire id s =
    if is_scheduled id s.expiring
    then record s {
      subscriptions = Map.delete id s.subscriptions;
      expiring = unschedule id s.expiring;
    }
    else s

module _ (to_string : ℕ → String) where
  -- The rest of the setup of an iterator, once there is an acknowledgement.
  unfoldable pub register : ℕ → Stream → ClientSocket → ClientSocket
  unfolding act
  register n stream s =
      let id = to_string s.next_subscription_id in
      let stream' = record stream { id = some id } in
      act (setup_returns 0 (some none)) n stream' (
        send (subscribe id stream.payload) (record s {
          next_subscription_id = suc s.next_subscription_id;
          subscriptions = Map.set id n s.subscriptions;
          streams = Map.set n stream' s.streams;
        }))

  unfoldable pub acknowledged : Deferred → ℕ → Stream → ClientSocket → ClientSocket
  unfolding register
  acknowledged unsettled n stream s = s
  acknowledged (resolved payload) n stream s = register n stream s
  acknowledged (rejected t) n stream s = act (setup_throws 0 t) n stream s

  unfoldable pub continue_setup : ℕ → Option Stream → ClientSocket → ClientSocket
  unfolding acknowledged
  continue_setup n none s = s
  continue_setup n (some stream) s = if awaits_ack stream then acknowledged s.ack n stream s else s

module _ (to_error : Thrown → Error) (show : Value → String) where
  unfoldable pub dispatch : Fields → Option (Result ServerMessage) → ClientSocket → ClientSocket
  unfolding handle_message
  dispatch fields none s =
      close (pos 4400) (concat ("Invalid message type " ∷ show (prop "type" fields) ∷ [])) s
  dispatch fields (some (ok message)) s = handle_message message s
  dispatch fields (some (thrown t)) s = close_by_error (to_error t) s

  unfoldable pub not_a_record : Error
  not_a_record = record { class = ErrorClass.type_error; message = "Assertion failed"; code = none }

  unfoldable pub handle_message_event : Error ⊎ Value → ClientSocket → ClientSocket
  unfolding dispatch not_a_record
  handle_message_event (inl syntax_error) s = close_by_error syntax_error s
  handle_message_event (inr v) s = elim (is_record v) [
    | none ↦ close_by_error not_a_record s
    | some fields ↦ dispatch fields (parse_message fields) s
  ]

module _ (to_error : Thrown → Error) (show : Value → String) (to_string : ℕ → String) where
  unfoldable pub step : Event → ClientSocket → ClientSocket
  unfolding init open_socket handle_message_event handle_end continue_setup act_at expire
  step (inits payload) s = init payload s
  step opens s = open_socket s.ready s
  step (subscribes payload) s = add_stream payload s
  step (shuts code reason) s = close code reason s
  step (message_event parsed) s = handle_message_event to_error show parsed s
  step (close_event code reason) s =
      handle_end (make_closing_error code reason) (record s { ready = closed })
  step error_event s = handle_end (make_closing_error (negsuc 0) "Web socket error") s
  step ack_timeout s = if s.timer then timeout s else s
  step lost_timeout s = lost_timeouts s.lost_timers s
  step (setup_continues n) s = continue_setup to_string n (Map.get n s.streams) s
  step (uses n how) s = act_at (action_of how) n s
  step (expires id) s = expire id s
