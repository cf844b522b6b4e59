-- ===== src/Ws/ClientParsers.antt =====
-- The message parsers of src/ws/GraphQLClientWebSocket.ts.
use graphqlade.Common.{
  String, ◌||◌, Option, none, some, List, [], ◌∷◌, Value, Items, undefined, null, arr, obj, item,
  no_items, Fields, prop, Result, ok, ◌>>=◌, ◌>>◌, throw_type_error, ◌===◌, string_eq,
  if◌then◌else◌,
}
use graphqlade.Ws.Messages.{ServerMessage, connection_ack, next}
use graphqlade.Ws.ServerParsers.{expect_string, expect_record, check_optional_record, type_of}

unfoldable pub parse_connection_ack_message : Fields → Result ServerMessage
parse_connection_ack_message message = do
  check_optional_record (prop "payload" message)
  ok (connection_ack (prop "payload" message))

unfoldable pub parse_next_message : Fields → Result ServerMessage
parse_next_message message = do
  id ← expect_string (prop "id" message)
  payload ← expect_record (prop "payload" message)
  ok (next id (obj payload))

-- `error.message`, which throws where `error` is undefined or null.
abbrev pub message_of : Value → Result Value
message_of undefined = throw_type_error "Cannot read properties of undefined (reading 'message')"
message_of null = throw_type_error "Cannot read properties of null (reading 'message')"
message_of (obj fs) = ok (prop "message" fs)
message_of _ = ok undefined

-- The loop over the errors, with their messages.
abbrev pub check_errors : Items → Result (List String)
check_errors no_items = ok []
check_errors (item error errors) = do
  value ← message_of error
  message ← expect_string value
  messages ← check_errors errors
  ok (message ∷ messages)

-- `assert(Array.isArray(v))`, with the items.
abbrev pub expect_array : Value → Result Items
expect_array (arr vs) = ok vs
expect_array _ = throw_type_error "Assertion failed"

unfoldable pub parse_error_message : Fields → Result ServerMessage
parse_error_message message = do
  id ← expect_string (prop "id" message)
  errors ← expect_array (prop "payload" message)
  messages ← check_errors errors
  ok (ServerMessage.error id (arr errors))

unfoldable pub parse_complete_message : Fields → Result ServerMessage
parse_complete_message message = do
  id ← expect_string (prop "id" message)
  ok (ServerMessage.complete id)

-- The `switch` of `handleMessageEvent`, legacy names included; `none` is its default case.
unfoldable pub parse_message : Fields → Option (Result ServerMessage)
unfolding parse_connection_ack_message parse_next_message parse_error_message parse_complete_message
parse_message message =
    let name = type_of (prop "type" message) in
    if name === "connection_ack"
    then some (parse_connection_ack_message message)
    else if name === "next" || name === "data"
    then some (parse_next_message message)
    else if name === "error"
    then some (parse_error_message message)
    else if name === "complete" || name === "stop"
    then some (parse_complete_message message)
    else none
