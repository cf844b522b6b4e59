-- ===== src/Ws/Wire/RoundTrip.antt =====
-- Either end reads the messages of the other as they were sent.
use graphqlade.Common.{
  ap, subst, ◌∙◌, String, ◌≡◌, refl, Option, none, some, List, Value, Items, item, no_items, [],
  ◌∷◌, undefined, null, str, arr, obj, Fields, field, end, prop, Result, ok, string_eq, arith,
}
use graphqlade.Util.Guards.{is_record}
use graphqlade.Ws.Messages.{
  ClientMessage, connection_init, subscribe, ServerMessage, connection_ack, next,
}
use graphqlade.Ws.ServerParsers
use graphqlade.Ws.ServerParsers.{IsOptionalString, IsOptionalRecord}
use graphqlade.Ws.ClientParsers
use graphqlade.Ws.ClientParsers.{check_errors}
use graphqlade.Ws.Wire.{encode_client, encode_server, json}

-- A value that JSON.stringify and JSON.parse give back as it is: no property and no item within it
-- is undefined.
abbrev pub IsJson : Value → Type 0
IsJson v = json v ≡ v

-- The messages that a client may send.
abbrev pub IsClientMessage : ClientMessage → Type 0
IsClientMessage (connection_init payload) = IsOptionalRecord payload × IsJson payload
IsClientMessage (subscribe id p) =
    IsOptionalString p.operation_name × IsOptionalRecord p.variables × IsJson p.variables
IsClientMessage (ClientMessage.complete id) = Unit

-- The parser of the server, at a value.
abbrev pub read_client : Value → Option (Result ClientMessage)
read_client v = elim (is_record v) [
  | none ↦ none
  | some fields ↦ ServerParsers.parse_message fields
]

read_connection_init :
    (payload : Value)
    → IsOptionalRecord payload
    → IsJson payload
    → read_client (json (encode_client (connection_init payload)))
      ≡ some (ok (connection_init payload))
unfolding encode_client json ServerParsers.parse_message prop
read_connection_init undefined shape plain = refl
read_connection_init null shape plain = refl
read_connection_init (obj fs) shape plain = rw plain refl
read_connection_init _ shape plain = ground arith

read_subscribe :
    (id query : String) (name variables : Value)
    → IsOptionalString name
    → IsOptionalRecord variables
    → IsJson variables
    → read_client (
        json (
          encode_client (
            subscribe id (record { query = query; operation_name = name; variables = variables }))))
      ≡ some (
          ok
            (subscribe id (record { query = query; operation_name = name; variables = variables })))
unfolding encode_client json ServerParsers.parse_message prop
read_subscribe id query undefined undefined named shape plain = refl
read_subscribe id query undefined null named shape plain = refl
read_subscribe id query undefined (obj fs) named shape plain = rw plain refl
read_subscribe id query null undefined named shape plain = refl
read_subscribe id query null null named shape plain = refl
read_subscribe id query null (obj fs) named shape plain = rw plain refl
read_subscribe id query (str name) undefined named shape plain = refl
read_subscribe id query (str name) null named shape plain = refl
read_subscribe id query (str name) (obj fs) named shape plain = rw plain refl
read_subscribe id query _ _ named shape plain = ground arith

-- A message that a client sends, whose optional parts are of the types that the interface gives
-- them, is read by the server's parser as it was sent, if JSON.stringify and JSON.parse give the
-- payload of the initialisation and the variables back as they are.
pub read_client-encode :
    (m : ClientMessage) → IsClientMessage m → read_client (json (encode_client m)) ≡ some (ok m)
unfolding encode_client json ServerParsers.parse_message prop
read_client-encode (connection_init payload) (shape, plain) =
    read_connection_init payload shape plain
read_client-encode (subscribe id p) (named, shape, plain) =
    read_subscribe id p.query p.operation_name p.variables named shape plain
read_client-encode (ClientMessage.complete id) shape = refl

-- The errors that GraphQL allows in a message: objects with a text as their message.
abbrev pub AreErrors : Items → Type 0
AreErrors no_items = Unit
AreErrors (item (obj fs) vs) =
    ((message : String) × (prop "message" fs ≡ str message)) × AreErrors vs
AreErrors (item _ vs) = ⊥

-- The messages that a server may send.
abbrev pub IsServerMessage : ServerMessage → Type 0
IsServerMessage (connection_ack payload) = IsOptionalRecord payload × IsJson payload
IsServerMessage (next id payload) = ((fs : Fields) × (payload ≡ obj fs)) × IsJson payload
IsServerMessage (ServerMessage.error id errors) =
    ((vs : Items) × (errors ≡ arr vs) × AreErrors vs) × IsJson errors
IsServerMessage (ServerMessage.complete id) = Unit

-- The parser of the client, at a value.
abbrev pub read_server : Value → Option (Result ServerMessage)
read_server v = elim (is_record v) [
  | none ↦ none
  | some fields ↦ ClientParsers.parse_message fields
]

read_connection_ack :
    (payload : Value)
    → IsOptionalRecord payload
    → IsJson payload
    → read_server (json (encode_server (connection_ack payload)))
      ≡ some (ok (connection_ack payload))
unfolding encode_server json ClientParsers.parse_message prop
read_connection_ack undefined shape plain = refl
read_connection_ack null shape plain = refl
read_connection_ack (obj fs) shape plain = rw plain refl
read_connection_ack _ shape plain = ground arith

read_next :
    (id : String) (payload : Value) (fs : Fields)
    → payload ≡ obj fs
    → IsJson payload
    → read_server (json (encode_server (next id payload))) ≡ some (ok (next id payload))
unfolding encode_server json ClientParsers.parse_message prop
read_next id (obj gs) fs shape plain = rw plain refl
read_next id _ fs shape plain = cc

json_error :
    (id : String) (vs : Items)
    → IsJson (arr vs)
    → json (encode_server (ServerMessage.error id (arr vs)))
      ≡ encode_server (ServerMessage.error id (arr vs))
unfolding encode_server json
json_error id vs plain =
    ap
      (λ (v : Value).
        obj (field "type" (str "error") (field "id" (str id) (field "payload" v end))))
      plain

check_errors-ok :
    (vs : Items) → AreErrors vs → (messages : List String) × (check_errors vs ≡ ok messages)
unfolding prop
check_errors-ok no_items shape = ([], refl)
check_errors-ok (item (obj fs) vs) ((message, here), shape) =
    let (messages, checked) = check_errors-ok vs shape in
    (message ∷ messages, rw (here, checked) refl)
check_errors-ok (item _ vs) shape = absurd shape

read_error :
    (id : String) (vs : Items)
    → AreErrors vs
    → read_server (encode_server (ServerMessage.error id (arr vs)))
      ≡ some (ok (ServerMessage.error id (arr vs)))
unfolding encode_server ClientParsers.parse_message prop
read_error id vs shape = let (messages, checked) = check_errors-ok vs shape in rw checked refl

-- A message that a server sends is read by the client's parser as it was sent, if the payload of
-- an acknowledgement is an object, null or undefined, a result is an object, errors are a list of
-- objects with a text as their message, and JSON.stringify and JSON.parse give these back as they
-- are.
pub read_server-encode :
    (m : ServerMessage) → IsServerMessage m → read_server (json (encode_server m)) ≡ some (ok m)
unfolding encode_server json ClientParsers.parse_message prop
read_server-encode (connection_ack payload) (shape, plain) = read_connection_ack payload shape plain
read_server-encode (next id payload) ((fs, shape), plain) = read_next id payload fs shape plain
read_server-encode (ServerMessage.error id errors) ((vs, shape, listed), plain) =
    rw shape
      (ap read_server (json_error id vs (subst IsJson shape plain)) ∙ read_error id vs listed)
read_server-encode (ServerMessage.complete id) shape = refl
