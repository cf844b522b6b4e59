-- ===== src/Ws/ServerSocket/Tests.antt =====
-- A conversation with a GraphQLServerWebSocket, and the theorems on its runs at it.
use graphqlade.Common.{
  pos, String, ◌≡◌, refl, true, false, none, some, List, [], ◌∷◌, ◌↔◌, inr, Value, str, obj,
  undefined, null, Fields, field, end, Thrown, Error, error, value, plain_error, ok, string_eq,
  prop,
}
use graphqlade.Common.Map
use graphqlade.Ws.Messages.{subscribe, SubscribePayload, ServerMessage, connection_ack, next}
use graphqlade.Ws.ServerParsers.{
  parse_message, parse_subscribe_message, parse_subscribe_message_iff, IsSubscribe,
}
use graphqlade.Ws.ServerSocket.{run}
use graphqlade.Ws.ServerSocket.State.{
  sent, closed, calls_acknowledge, calls_subscribe, ServerSocket, Event, message_event,
  acknowledge_returns, continues, subscribe_iterates, subscribe_answers, yields, ends, expires,
  setup, close_by_error, close, send,
}
use graphqlade.Ws.ServerSocket.Handlers.{acknowledge}
use graphqlade.Ws.ServerSocket.Steps.{step, handle, continue}
use graphqlade.Ws.ServerSocket.Protocol.{Moves}
use graphqlade.Ws.ServerSocket.Refinement.{step-Moves}
use graphqlade.Ws.ServerSocket.Gate.{Gated, run-Gated}
use graphqlade.Ws.ServerSocket.Closing.{ends_with_close, frames, run-ends_with_close, run_shut}
use graphqlade.Ws.ServerSocket.Finals.{ends_with_final, run-ends_with_final}

abbrev pub as_error : Thrown → Error
as_error (error e) = e
as_error (value v) = plain_error "Unknown error"

abbrev pub show_text : Value → String
show_text (str s) = s
show_text _ = "?"

abbrev pub init_message : Value
init_message = obj (field "type" (str "connection_init") (field "payload" null end))

abbrev query_fields : Fields
query_fields = field "query" (str "subscription { now }") end

abbrev subscribe_fields : Fields
subscribe_fields =
    field "type" (str "subscribe") (field "id" (str "a") (field "payload" (obj query_fields) end))

abbrev query_payload : SubscribePayload
query_payload = record {
  query = "subscription { now }";
  operation_name = undefined;
  variables = undefined;
}

-- Initialisation, then a subscription that yields once, ends, and is forgotten.
abbrev conversation : List Event
conversation =
    message_event (inr init_message)
    ∷ acknowledge_returns 0 (str "welcome")
    ∷ message_event (inr (obj subscribe_fields))
    ∷ continues 1
    ∷ subscribe_iterates 0
    ∷ yields 0 (str "now")
    ∷ ends 0
    ∷ expires "a"
    ∷ []

abbrev hello : ServerSocket
hello = setup "graphql-transport-ws"

conversation_log : (run as_error show_text conversation hello).log ≡ (
    sent (some 0) (ServerMessage.complete "a")
    ∷ sent (some 0) (next "a" (str "now"))
    ∷ calls_subscribe 0 "a" query_payload null
    ∷ sent none (connection_ack (str "welcome"))
    ∷ calls_acknowledge null
    ∷ [])
unfolding run step handle setup continue parse_message prop Map.get Map.set acknowledge send
    Map.delete Map.has
conversation_log = refl

-- `subscribe` answers with errors; the id is then still in use.
abbrev answered : List Event
answered =
    message_event (inr init_message)
    ∷ acknowledge_returns 0 null
    ∷ message_event (inr (obj subscribe_fields))
    ∷ continues 1
    ∷ subscribe_answers 0 (str "errors")
    ∷ expires "a"
    ∷ message_event (inr (obj subscribe_fields))
    ∷ continues 2
    ∷ []

answered_log : (run as_error show_text answered hello).log ≡ (
    closed (pos 4409) "Subscriber for a already exists"
    ∷ sent (some 0) (ServerMessage.error "a" (str "errors"))
    ∷ calls_subscribe 0 "a" query_payload null
    ∷ sent none (connection_ack null)
    ∷ calls_acknowledge null
    ∷ [])
unfolding run step handle setup continue parse_message prop Map.get Map.set acknowledge send
    Map.delete Map.has close_by_error close
answered_log = refl

unauthorized_log :
    (run as_error show_text (message_event (inr (obj subscribe_fields)) ∷ []) hello).log
    ≡ (closed (pos 4401) "Unauthorized" ∷ [])
unfolding run step handle setup continue parse_message prop Map.get Map.set acknowledge send
    Map.delete Map.has close_by_error close
unauthorized_log = refl

step-Moves_example : Moves hello (step as_error show_text (message_event (inr init_message)) hello)
step-Moves_example = step-Moves as_error show_text (message_event (inr init_message)) hello

run-Gated_example : Gated (run as_error show_text conversation hello)
run-Gated_example = run-Gated as_error show_text "graphql-transport-ws" conversation

run-ends_with_close_example : ends_with_close (run as_error show_text answered hello).log ≡ true
run-ends_with_close_example = run-ends_with_close as_error show_text "graphql-transport-ws" answered

abbrev left : ServerSocket
left = record hello { is_open = false }

run_shut_example :
    ((run as_error show_text conversation left).is_open ≡ false)
    × (frames (run as_error show_text conversation left).log ≡ [])
unfolding setup
run_shut_example = run_shut as_error show_text conversation left left_shut
  where
    left_shut : left.is_open ≡ false
    left_shut = refl

run-ends_with_final_example :
    ends_with_final 0 (run as_error show_text conversation hello).log ≡ true
run-ends_with_final_example =
    run-ends_with_final as_error show_text 0 "graphql-transport-ws" conversation

parse_subscribe_message_iff_example :
    (parse_subscribe_message subscribe_fields ≡ ok (subscribe "a" query_payload))
    ↔ IsSubscribe subscribe_fields "a" query_payload
parse_subscribe_message_iff_example = parse_subscribe_message_iff subscribe_fields "a" query_payload
