-- ===== src/Ws/ServerSocket/Handlers.antt =====
-- What the handlers of a GraphQLServerWebSocket do between two awaits.
use graphqlade.Common.{
  ℕ, suc, pos, String, Bool, true, false, not, ◌||◌, ◌&&◌, Option, none, some, List, [], ◌∷◌,
  if◌then◌else◌, Value, str, arr, obj, field, end, item, no_items, Thrown, Error, ◌===◌, string_eq,
  nat_eq, concat,
}
use graphqlade.Common.Map
use graphqlade.Common.Map.{Map}
use graphqlade.Ws.Messages.{
  ClientMessage, connection_init, subscribe, SubscribePayload, connection_ack,
}
use graphqlade.Ws.ServerSocket.State.{
  resolved, rejected, Progress, pending, iterating, exhausted, Subscription, Task, acknowledging,
  subscribing, completing, returning, closing, calls_acknowledge, calls_subscribe, calls_return,
  ServerSocket, perform, send, make_closing_error, close_by_error, settle,
}

-- A handler comes to an `await`.
abbrev pub await : Task → ServerSocket → ServerSocket
await task s = record s { tasks = Map.set s.next_task task s.tasks; next_task = suc s.next_task }

-- It goes on.
abbrev pub leave : ℕ → ServerSocket → ServerSocket
leave n s = record s { tasks = Map.delete n s.tasks }

abbrev pub clear_timer : ServerSocket → ServerSocket
clear_timer s = record s { timer = false }

-- `handleConnectionInitMessage` up to `await this.acknowledge(…)`.
unfoldable pub handle_connection_init : Value → ServerSocket → ServerSocket
handle_connection_init payload s =
    if s.initialized
    then close_by_error (make_closing_error (pos 4429) "Too many initialization requests") s
    else await (acknowledging payload)
        (perform (calls_acknowledge payload) (clear_timer (record s { initialized = true })))

-- `requireAck` up to its promise; `task` is the handler that waits for it.
unfoldable pub require_ack : Task → ServerSocket → ServerSocket
require_ack task s =
    if s.protocol === "graphql-transport-ws" && not s.acknowledged
    then close_by_error (make_closing_error (pos 4401) "Unauthorized") s
    else await task s

unfoldable pub handle_message : ClientMessage → ServerSocket → ServerSocket
unfolding handle_connection_init require_ack
handle_message (connection_init payload) s = handle_connection_init payload s
handle_message (subscribe id payload) s = require_ack (subscribing id payload) s
handle_message (ClientMessage.complete id) s = require_ack (completing id) s

-- The rest of `handleConnectionInitMessage`, when `acknowledge` returned.
unfoldable pub acknowledge : Value → Value → ServerSocket → ServerSocket
acknowledge payload answer s =
    record (settle (resolved payload) (send none (connection_ack answer) s)) { acknowledged = true }

-- The rest of `handleSubscribeMessage`, once the payload of the initialisation is there.
unfoldable pub start_subscription : String → SubscribePayload → Value → ServerSocket → ServerSocket
start_subscription id payload init s =
    if Map.has id s.subscriptions
    then close_by_error
        (make_closing_error (pos 4409) (concat ("Subscriber for " ∷ id ∷ " already exists" ∷ []))) s
    else let n = s.next_number in
      perform (calls_subscribe n id payload init) (record s {
        subscriptions = Map.set id n s.subscriptions;
        promises = Map.set n (record { id = id; progress = pending }) s.promises;
        next_number = suc n;
      })

-- `requireSubscription` in `handleCompleteMessage`.
unfoldable pub require_subscription : String → ServerSocket → ServerSocket
require_subscription id s = elim (Map.get id s.subscriptions) [
  | none ↦
      close_by_error
        (make_closing_error (pos 4409) (concat ("Subscriber for " ∷ id ∷ " does not exist" ∷ []))) s
  | some n ↦ await (returning n) s
]

-- The first entry of `subscriptions` that the loop of `handleCloseEvent` has not been through.
unfoldable pub unvisited : List ℕ → Map String ℕ → Option ℕ
unvisited seen [] = none
unvisited seen ((id, n) ∷ m) = if visited n seen then unvisited seen m else some n
  where
    visited : ℕ → List ℕ → Bool
    visited n [] = false
    visited n (k ∷ ks) = k === n || visited n ks

abbrev pub progress_of : Option Subscription → Progress
progress_of none = pending
progress_of (some subscription) = subscription.progress

abbrev pub error_message : Error → Value
error_message e = arr (item (obj (field "message" (str e.message) end)) no_items)

abbrev pub set_progress : ℕ → Subscription → Progress → ServerSocket → ServerSocket
set_progress n subscription progress s = record s {
  promises = Map.set n (record subscription { progress = progress }) s.promises;
}

-- `setTimeout(() => this.subscriptions.delete(id), 3000)`
abbrev pub expire_later : String → ServerSocket → ServerSocket
expire_later id s = record s { expiring = id ∷ s.expiring }

-- One of the scheduled deletions of an id is carried out.
abbrev pub is_scheduled : String → List String → Bool
is_scheduled id [] = false
is_scheduled id (j ∷ js) = j === id || is_scheduled id js

abbrev pub unschedule : String → List String → List String
unschedule id [] = []
unschedule id (j ∷ js) = if j === id then js else j ∷ unschedule id js

unfoldable pub expire : String → ServerSocket → ServerSocket
expire id s =
    if is_scheduled id s.expiring
    then record s {
      subscriptions = Map.delete id s.subscriptions;
      expiring = unschedule id s.expiring;
    }
    else s

-- `(await subscription).return?.()`: an iterator has a `return`, a single result has none.
unfoldable pub call_return : ℕ → Progress → ServerSocket → ServerSocket
call_return k iterating s = perform (calls_return k) s
call_return k exhausted s = perform (calls_return k) s
call_return k _ s = s

-- `handleCloseEvent` and `handleErrorEvent`, up to the loop over the subscriptions.
unfoldable pub handle_end : Thrown → ServerSocket → ServerSocket
handle_end reason s = await (closing []) (settle (rejected reason) (clear_timer s))
