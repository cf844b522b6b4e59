-- ===== src/Ws/ServerSocket/Steps.antt =====
-- One event of a GraphQLServerWebSocket: which handler runs, or goes on, and what it does.
use graphqlade.Common.{
  ℕ, pos, String, false, Option, none, some, List, [], ◌∷◌, if◌then◌else◌, Value, Fields, prop,
  Thrown, Error, ErrorClass, Result, ok, thrown, string_eq, nat_eq, ◌⊎◌, inl, inr, concat,
}
use graphqlade.Common.Map
use graphqlade.Common.Map.{Map}
use graphqlade.Util.Guards.{is_record, defined}
use graphqlade.Ws.Messages.{ClientMessage, ServerMessage}
use graphqlade.Ws.ServerParsers.{parse_message}
use graphqlade.Ws.ServerSocket.State.{
  Deferred, unsettled, resolved, rejected, Progress, pending, iterating, exhausted, one_shot,
  failed, Subscription, Task, acknowledging, subscribing, completing, returning, closing, logged,
  ServerSocket, Event, message_event, close_event, error_event, init_timeout, acknowledge_returns,
  acknowledge_throws, continues, subscribe_iterates, subscribe_answers, subscribe_throws, yields,
  ends, iteration_throws, expires, perform, send, close, make_closing_error, close_by_error, settle,
}
use graphqlade.Ws.ServerSocket.Handlers.{
  leave, clear_timer, handle_message, acknowledge, start_subscription, require_subscription,
  unvisited, progress_of, error_message, set_progress, expire_later, expire, call_return,
  handle_end,
}

-- The subscription numbered `n`, if it is where the event finds it.
abbrev pub if_pending : Progress → Subscription → Option Subscription
if_pending pending sub = some sub
if_pending _ sub = none

abbrev pub waiting : Option Subscription → Option Subscription
waiting none = none
waiting (some sub) = if_pending sub.progress sub

abbrev pub if_iterating : Progress → Subscription → Option Subscription
if_iterating iterating sub = some sub
if_iterating _ sub = none

abbrev pub running : Option Subscription → Option Subscription
running none = none
running (some sub) = if_iterating sub.progress sub

module _ (to_error : Thrown → Error) (show : Value → String) where
  -- The `switch` of `handleMessageEvent`, its default case, and its `catch`.
  unfoldable pub dispatch : Fields → Option (Result ClientMessage) → ServerSocket → ServerSocket
  unfolding handle_message
  dispatch fields none s =
      close (pos 4400) (concat ("Invalid message type: " ∷ show (prop "type" fields) ∷ [])) s
  dispatch fields (some (ok message)) s = handle_message message s
  dispatch fields (some (thrown t)) s = close_by_error (to_error t) s

  unfoldable pub not_a_record : Error
  not_a_record = record { class = ErrorClass.type_error; message = "Assertion failed"; code = none }

  unfoldable pub handle_message_event : Error ⊎ Value → ServerSocket → ServerSocket
  unfolding not_a_record dispatch
  handle_message_event (inl syntax_error) s = close_by_error syntax_error s
  handle_message_event (inr v) s = elim (is_record v) [
    | none ↦ close_by_error not_a_record s
    | some fields ↦ dispatch fields (parse_message fields) s
  ]

  -- A handler after `await this.requireAck()`; `go` is what it does with the payload.
  unfoldable pub after_ack :
      ℕ → Deferred → (Value → ServerSocket → ServerSocket) → ServerSocket → ServerSocket
  after_ack n unsettled go s = s
  after_ack n (resolved payload) go s = go payload (leave n s)
  after_ack n (rejected t) go s = close_by_error (to_error t) (leave n s)

  -- `handleCompleteMessage` after `await this.requireSubscription(…)`.
  unfoldable pub after_subscription : ℕ → ℕ → Progress → ServerSocket → ServerSocket
  unfolding call_return
  after_subscription n k pending s = s
  after_subscription n k (failed t) s = close_by_error (to_error t) (leave n s)
  after_subscription n k progress s = call_return k progress (leave n s)

  -- One round of the loop of `handleCloseEvent`, over the subscription numbered `k`.
  unfoldable pub visit : ℕ → List ℕ → ℕ → Progress → ServerSocket → ServerSocket
  unfolding call_return
  visit n seen k pending s = s
  visit n seen k (failed t) s =
      perform (logged (to_error t)) (record s { tasks = Map.set n (closing (k ∷ seen)) s.tasks })
  visit n seen k progress s =
      call_return k progress (record s { tasks = Map.set n (closing (k ∷ seen)) s.tasks })

  unfoldable pub close_round : ℕ → List ℕ → Option ℕ → ServerSocket → ServerSocket
  unfolding visit
  close_round n seen none s = leave n s
  close_round n seen (some k) s = visit n seen k (progress_of (Map.get k s.promises)) s

  -- The task numbered `n` goes on, if what it waits for is settled.
  unfoldable pub continue : ℕ → Option Task → ServerSocket → ServerSocket
  unfolding after_ack start_subscription require_subscription after_subscription close_round
      unvisited
  continue n (some (subscribing id payload)) s =
      after_ack n s.init_payload (start_subscription id payload) s
  continue n (some (completing id)) s =
      after_ack n s.init_payload (λ payload. require_subscription id) s
  continue n (some (returning k)) s = after_subscription n k (progress_of (Map.get k s.promises)) s
  continue n (some (closing seen)) s = close_round n seen (unvisited seen s.subscriptions) s
  continue n _ s = s

  unfoldable pub unauthorized : Thrown → Error
  unauthorized t =
      make_closing_error (pos 4401) (concat ("Unauthorized: " ∷ (to_error t).message ∷ []))

  -- The `catch` around `acknowledge`, and what catches the error that it throws.
  unfoldable pub reject_init : Thrown → ServerSocket → ServerSocket
  unfolding unauthorized
  reject_init t s =
      close_by_error (unauthorized t) (settle (rejected (Thrown.error (unauthorized t))) s)

  unfoldable pub after_acknowledge : ℕ → Option Task → Result Value → ServerSocket → ServerSocket
  unfolding reject_init
  after_acknowledge n (some (acknowledging payload)) (ok answer) s =
      acknowledge payload answer (leave n s)
  after_acknowledge n (some (acknowledging payload)) (thrown t) s = reject_init t (leave n s)
  after_acknowledge n _ result s = s

  -- A result that is no iterator: its errors are sent, if it has any.
  unfoldable pub answer_once : ℕ → Subscription → Result Value → ServerSocket → ServerSocket
  answer_once n sub (ok errors) s =
      set_progress n sub one_shot (send (some n) (ServerMessage.error sub.id errors) s)
  answer_once n sub (thrown t) s = set_progress n sub (failed t) s

  -- What `subscribe` settles to: an iterator, a result with these errors, or a rejection.
  unfoldable pub subscribe_settles : ℕ → Option Subscription → Event → ServerSocket → ServerSocket
  unfolding answer_once
  subscribe_settles n none e s = s
  subscribe_settles n (some sub) (subscribe_iterates _) s = set_progress n sub iterating s
  subscribe_settles n (some sub) (subscribe_answers _ errors) s =
      answer_once n sub (defined errors (some "Received non-async-iterable without errors")) s
  subscribe_settles n (some sub) (subscribe_throws _ t) s = set_progress n sub (failed t) s
  subscribe_settles n (some sub) e s = s

  -- The loop over the iterator, and its `catch` and `finally`.
  unfoldable pub pump : ℕ → Option Subscription → Event → ServerSocket → ServerSocket
  pump n none e s = s
  pump n (some sub) (yields _ r) s = send (some n) (ServerMessage.next sub.id r) s
  pump n (some sub) (ends _) s =
      expire_later sub.id
        (set_progress n sub exhausted (send (some n) (ServerMessage.complete sub.id) s))
  pump n (some sub) (iteration_throws _ t) s = expire_later sub.id (
      set_progress n sub exhausted
        (send (some n) (ServerMessage.error sub.id (error_message (to_error t))) s))
  pump n (some sub) e s = s

  unfoldable pub handle : Event → ServerSocket → ServerSocket
  unfolding handle_message_event handle_end continue after_acknowledge subscribe_settles pump expire
  handle (message_event parsed) s = handle_message_event parsed s
  handle (close_event code reason) s =
      handle_end (Thrown.error (make_closing_error code reason)) (record s { is_open = false })
  handle (error_event t) s = handle_end t s
  handle init_timeout s =
      if s.timer then close (pos 4408) "Connection initialization timeout" (clear_timer s) else s
  handle (acknowledge_returns n answer) s = after_acknowledge n (Map.get n s.tasks) (ok answer) s
  handle (acknowledge_throws n t) s = after_acknowledge n (Map.get n s.tasks) (thrown t) s
  handle (continues n) s = continue n (Map.get n s.tasks) s
  handle (subscribe_iterates n) s =
      subscribe_settles n (waiting (Map.get n s.promises)) (subscribe_iterates n) s
  handle (subscribe_answers n errors) s =
      subscribe_settles n (waiting (Map.get n s.promises)) (subscribe_answers n errors) s
  handle (subscribe_throws n t) s =
      subscribe_settles n (waiting (Map.get n s.promises)) (subscribe_throws n t) s
  handle (yields n r) s = pump n (running (Map.get n s.promises)) (yields n r) s
  handle (ends n) s = pump n (running (Map.get n s.promises)) (ends n) s
  handle (iteration_throws n t) s = pump n (running (Map.get n s.promises)) (iteration_throws n t) s
  handle (expires id) s = expire id s

  -- Without listeners nothing happens.
  unfoldable pub step : Event → ServerSocket → ServerSocket
  unfolding handle
  step e s = if s.listens then handle e s else s
