-- ===== src/Ws/ServerSocket/HandlerMoves.antt =====
-- What the handlers of a GraphQLServerWebSocket do between two awaits are moves of the protocol.
use graphqlade.Common.{
  stays, moves, Steps-trans, single, ℕ, suc, ℤ, String, ◌≡◌, true, false, not, ◌&&◌, [], if_split,
  Option-cases, inl, inr, Value, Thrown, Error, ErrorClass, string_eq, nat_eq, ◌===◌,
}
use graphqlade.Common.Map
use graphqlade.Ws.Messages.{ClientMessage, connection_init, subscribe, SubscribePayload}
use graphqlade.Ws.ServerSocket.State.{
  resolved, Progress, iterating, exhausted, Task, acknowledging, subscribing, completing, returning,
  closing, ServerSocket, perform, send, close, close_by_class, close_by_error, settle,
}
use graphqlade.Ws.ServerSocket.Handlers.{
  await, leave, clear_timer, handle_connection_init, require_ack, handle_message, acknowledge,
  start_subscription, require_subscription, expire, is_scheduled, unschedule, call_return,
  handle_end,
}
use graphqlade.Ws.ServerSocket.Protocol.{
  Move, schedules, forgets, closes, logs, begins, confirms, accepts, rejects, subscribes,
  stops_iterator, Moves,
}

pub close-Moves : (code : ℤ) (reason : String) (s : ServerSocket) → Moves s (close code reason s)
unfolding close
close-Moves code reason s =
    if_split (Moves s) s.is_open (λ live. single (closes code reason live)) (λ _. stays)

pub close_by_class-Moves :
    (c : ErrorClass) (e : Error) (s : ServerSocket) → Moves s (close_by_class c e s)
close_by_class-Moves ErrorClass.type_error e s = close-Moves _ _ s
close_by_class-Moves ErrorClass.plain e s =
    Steps-trans (single (logs e)) (close-Moves _ _ (perform _ s))
close_by_class-Moves _ e s = Steps-trans (single (logs e)) (close-Moves _ _ (perform _ s))

pub close_by_error-Moves : (e : Error) (s : ServerSocket) → Moves s (close_by_error e s)
unfolding close_by_error
close_by_error-Moves e s = elim (Option-cases e.code) [
  | inl plain ↦ rw (plain, close_by_error) (close_by_class-Moves e.class e s)
  | inr (code, coded) ↦ rw (coded, close_by_error) (close-Moves code e.message s)
]

pub await-Move : (task : Task) (s : ServerSocket) → Move s (await task s)
await-Move task s =
    schedules (Map.set s.next_task task s.tasks) (suc s.next_task) s.timer s.expiring

pub leave-Move : (n : ℕ) (s : ServerSocket) → Move s (leave n s)
leave-Move n s = schedules (Map.delete n s.tasks) s.next_task s.timer s.expiring

pub clear_timer-Move : (s : ServerSocket) → Move s (clear_timer s)
clear_timer-Move s = schedules s.tasks s.next_task false s.expiring

pub handle_connection_init-Moves :
    (payload : Value) (s : ServerSocket) → Moves s (handle_connection_init payload s)
unfolding handle_connection_init
handle_connection_init-Moves payload s =
    if_split (Moves s) s.initialized (λ _. close_by_error-Moves _ s)
      λ first. moves (single (begins payload first)) (
        schedules (Map.set s.next_task (acknowledging payload) s.tasks) (suc s.next_task) false
          s.expiring)

pub require_ack-Moves : (task : Task) (s : ServerSocket) → Moves s (require_ack task s)
unfolding require_ack
require_ack-Moves task s =
    if_split (Moves s) (s.protocol === "graphql-transport-ws" && not s.acknowledged)
      (λ _. close_by_error-Moves _ s) (λ _. single (await-Move task s))

pub handle_message-Moves : (m : ClientMessage) (s : ServerSocket) → Moves s (handle_message m s)
unfolding handle_message
handle_message-Moves (connection_init payload) s = handle_connection_init-Moves payload s
handle_message-Moves (subscribe id payload) s = require_ack-Moves (subscribing id payload) s
handle_message-Moves (ClientMessage.complete id) s = require_ack-Moves (completing id) s

pub acknowledge-Moves :
    (payload answer : Value) (s : ServerSocket) → Moves s (acknowledge payload answer s)
unfolding acknowledge send
acknowledge-Moves payload answer s =
    if_split (λ t. Moves s (record (settle (resolved payload) t) { acknowledged = true })) s.is_open
      (λ live. moves (single (confirms answer live)) (accepts payload))
      (λ _. single (accepts payload))

pub start_subscription-Moves :
    (id : String) (payload : SubscribePayload) (init : Value) (s : ServerSocket)
    → s.init_payload ≡ resolved init
    → Moves s (start_subscription id payload init s)
unfolding start_subscription Map.has
start_subscription-Moves id payload init s acked =
    elim (Option-cases (Map.get id s.subscriptions)) [
      | inl unused ↦
          rw (unused, start_subscription, Map.has)
            (single (subscribes id payload init acked unused))
      | inr (n, taken) ↦ rw (taken, start_subscription, Map.has) (close_by_error-Moves _ s)
    ]

pub require_subscription-Moves :
    (id : String) (s : ServerSocket) → Moves s (require_subscription id s)
unfolding require_subscription
require_subscription-Moves id s = elim (Option-cases (Map.get id s.subscriptions)) [
  | inl missing ↦ rw (missing, require_subscription) (close_by_error-Moves _ s)
  | inr (n, found) ↦ rw (found, require_subscription) (single (await-Move (returning n) s))
]

pub expire-Moves : (id : String) (s : ServerSocket) → Moves s (expire id s)
unfolding expire
expire-Moves id s =
    if_split (Moves s) (is_scheduled id s.expiring)
      (λ _.
        moves (single (forgets id))
          (schedules s.tasks s.next_task s.timer (unschedule id s.expiring)))
      (λ _. stays)

pub call_return-Moves : (k : ℕ) (p : Progress) (s : ServerSocket) → Moves s (call_return k p s)
unfolding call_return
call_return-Moves k iterating s = single (stops_iterator k)
call_return-Moves k exhausted s = single (stops_iterator k)
call_return-Moves k _ s = stays

pub handle_end-Moves : (t : Thrown) (s : ServerSocket) → Moves s (handle_end t s)
unfolding handle_end
handle_end-Moves t s =
    moves (moves (single (clear_timer-Move s)) (rejects t)) (await-Move (closing []) _)
