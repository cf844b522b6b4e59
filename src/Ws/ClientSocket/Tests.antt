-- ===== src/Ws/ClientSocket/Tests.antt =====
-- A conversation of a GraphQLClientWebSocket, and the theorems on its runs at it.

use graphqlade.Common.{
  ℕ, zero, suc, pos, String, ◌≡◌, ◌≢◌, refl, ap, ◌⊎◌, inr, true, Option, none, some, List, [], ◌∷◌,
  Value, str, obj, undefined, Fields, field, end, Distinct, string_eq, nat_eq, prop,
}
use graphqlade.Common.Map
use graphqlade.Util.PushIterator
use graphqlade.Ws.Messages.{connection_init, subscribe, SubscribePayload}
use graphqlade.Ws.ClientParsers.{parse_message}
use graphqlade.Ws.ServerSocket.State.{resolved}
use graphqlade.Ws.ServerSocket.Tests.{as_error, show_text}
use graphqlade.Ws.ClientSocket.{run}
use graphqlade.Ws.ClientSocket.State.{
  Stream, connecting, sent, ClientSocket, calls_next, returns, Event, inits, opens, subscribes,
  message_event, close_event, setup_continues, uses, connect,
}
use graphqlade.Ws.ClientSocket.Steps.{step, new_stream}
use graphqlade.Ws.ClientSocket.Protocol.{Moves}
use graphqlade.Ws.ClientSocket.Refinement.{step_client-Moves}
use graphqlade.Ws.ClientSocket.Ids.{ids, run-Distinct, run_acked}
use graphqlade.Ws.ClientSocket.Registry.{Owns}
use graphqlade.Ws.ClientSocket.Routing.{run_routes}
use graphqlade.Ws.ClientSocket.Endings.{by_close, run_end}

-- Numbers as tallies, which are different for different numbers.
abbrev tally : ℕ → String
tally zero = ""
tally (suc n) = String.◌∷◌ "1" (tally n)

tally_injective : (j k : ℕ) → tally j ≡ tally k → j ≡ k
tally_injective zero zero e = refl
tally_injective zero (suc k) e = cc
tally_injective (suc j) zero e = cc
tally_injective (suc j) (suc k) e = ap suc (tally_injective j k cc)

abbrev payload : SubscribePayload
payload = record {
  query = "subscription { now }";
  operation_name = undefined;
  variables = undefined;
}

abbrev ack_message : Value
ack_message = obj (field "type" (str "connection_ack") end)

abbrev now : Fields
now = field "now" (str "12:00") end

abbrev next_message : Fields
next_message = field "type" (str "next") (field "id" (str "1") (field "payload" (obj now) end))

-- The socket opens, the connection is acknowledged, and an iterator is iterated.
abbrev conversation : List Event
conversation =
    inits undefined
    ∷ subscribes payload
    ∷ uses 0 calls_next
    ∷ opens
    ∷ message_event (inr ack_message)
    ∷ setup_continues 0
    ∷ []

abbrev fresh : ClientSocket
fresh = connect connecting

conversation_log :
    (run as_error show_text tally conversation fresh).log
    ≡ (sent (subscribe "1" payload) ∷ sent (connection_init undefined) ∷ [])
unfolding run step Map.get parse_message prop Map.set connect PushIterator.step
    PushIterator.call_next PushIterator.resume_next PushIterator.take
conversation_log = refl

-- The iterator of the conversation.
abbrev talking : ClientSocket
talking = run as_error show_text tally conversation fresh

conversation_ids : ids talking.log ≡ ("1" ∷ [])
unfolding run step Map.get parse_message prop Map.set connect PushIterator.step
    PushIterator.call_next PushIterator.resume_next PushIterator.take
conversation_ids = refl

run-Distinct_example : Distinct (ids talking.log)
run-Distinct_example = run-Distinct as_error show_text tally tally_injective connecting conversation

run_acked_example :
    (ids talking.log ≡ []) ⊎ ((acknowledgement : Value) × (talking.ack ≡ resolved acknowledgement))
run_acked_example = run_acked as_error show_text tally tally_injective connecting conversation

step_client-Moves_example :
    Moves tally talking (step as_error show_text tally (close_event (pos 1001) "gone") talking)
step_client-Moves_example =
    step_client-Moves as_error show_text tally (close_event (pos 1001) "gone") talking

abbrev held : Option Stream → Stream
held (some a) = a
held none = new_stream payload

abbrev talker : Stream
talker = held (Map.get 0 talking.streams)

talker-Owns : Owns talking.streams 0 talker "1"
unfolding run step Map.get parse_message prop Map.set connect PushIterator.step
    PushIterator.call_next PushIterator.resume_next PushIterator.take
talker-Owns = record { here = refl; named = refl }

talker_alive : talker.it.torn ≡ 0
unfolding run step Map.get parse_message prop Map.set connect PushIterator.step
    PushIterator.call_next PushIterator.resume_next PushIterator.take
talker_alive = refl

run_routes_example :
    (step as_error show_text tally (message_event (inr (obj next_message))) talking).streams
    ≡ Map.set 0 (record talker { it = PushIterator.push (obj now) talker.it }) talking.streams
unfolding parse_message prop
run_routes_example =
    run_routes as_error show_text tally tally_injective connecting conversation 0 talker "1"
      (obj next_message) (obj now) next_message talker-Owns talker_alive refl refl

-- The call of `next` that waits while the socket is open.
talker_waits : Map.get 0 talker.it.calls ≡ some PushIterator.waits
unfolding run step Map.get parse_message prop Map.set connect PushIterator.step
    PushIterator.call_next PushIterator.resume_next PushIterator.take Map.delete
talker_waits = refl

run_end_example :
    (b : Stream) × (Map.get 0
        (step as_error show_text tally (close_event (pos 1001) "gone") talking).streams
      ≡ some b)
    × (b.it.done ≡ true)
    × (Map.get 0 b.it.calls ≢ some PushIterator.waits)
run_end_example =
    run_end as_error show_text tally tally_injective connecting conversation
      (close_event (pos 1001) "gone") 0 talker "1" 0 (by_close (pos 1001) "gone") talker-Owns

-- The user returns from an iterator whose setup waits for the acknowledgement: it is subscribed all
-- the same, and no `complete` message follows.
abbrev early_return : List Event
early_return =
    opens
    ∷ subscribes payload
    ∷ uses 0 calls_next
    ∷ uses 0 returns
    ∷ message_event (inr ack_message)
    ∷ setup_continues 0
    ∷ []

early_return_log :
    (run as_error show_text tally early_return fresh).log ≡ (sent (subscribe "1" payload) ∷ [])
unfolding run step Map.get parse_message prop Map.set connect PushIterator.step
    PushIterator.call_next PushIterator.resume_next PushIterator.take PushIterator.close
early_return_log = refl
