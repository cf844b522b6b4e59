-- ===== src/Ws/Wire.antt =====
-- Messages on the socket: the objects that both ends of a connection give to `JSON.stringify`, and
-- what `JSON.parse` makes of that text.
pub mod RoundTrip
mod Tests
use graphqlade.Common.{
  Bool, true, false, Value, Items, undefined, null, bool, num, str, arr, obj, item, no_items,
  Fields, field, end, if◌then◌else◌,
}
use graphqlade.Ws.Messages.{
  ClientMessage, connection_init, subscribe, SubscribePayload, ServerMessage, connection_ack, next,
}

-- `payload` of `subscribe`.
abbrev pub encode_payload : SubscribePayload → Value
encode_payload p = obj (
    field "query" (str p.query)
      (field "operationName" p.operation_name (field "variables" p.variables end)))

-- What a client sends.
unfoldable pub encode_client : ClientMessage → Value
encode_client (connection_init payload) =
    obj (field "type" (str "connection_init") (field "payload" payload end))
encode_client (subscribe id payload) = obj (
    field "type" (str "subscribe")
      (field "id" (str id) (field "payload" (encode_payload payload) end)))
encode_client (ClientMessage.complete id) =
    obj (field "type" (str "complete") (field "id" (str id) end))

-- What a server sends.
unfoldable pub encode_server : ServerMessage → Value
encode_server (connection_ack payload) =
    obj (field "type" (str "connection_ack") (field "payload" payload end))
encode_server (next id payload) =
    obj (field "type" (str "next") (field "id" (str id) (field "payload" payload end)))
encode_server (ServerMessage.error id errors) =
    obj (field "type" (str "error") (field "id" (str id) (field "payload" errors end)))
encode_server (ServerMessage.complete id) =
    obj (field "type" (str "complete") (field "id" (str id) end))

-- What is left of a value after `JSON.stringify` and `JSON.parse`: a property that is undefined is
-- left out, an undefined item becomes null.
unfoldable mutual
  pub json : Value → Value
  json (arr vs) = arr (json_items vs)
  json (obj fs) = obj (json_fields fs)
  json v = v

  pub json_items : Items → Items
  json_items no_items = no_items
  json_items (item undefined vs) = item null (json_items vs)
  json_items (item v vs) = item (json v) (json_items vs)

  pub json_fields : Fields → Fields
  json_fields end = end
  json_fields (field k undefined fs) = json_fields fs
  json_fields (field k v fs) = field k (json v) (json_fields fs)
