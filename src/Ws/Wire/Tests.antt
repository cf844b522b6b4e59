-- ===== src/Ws/Wire/Tests.antt =====
-- Messages at concrete values, and the round trips at them.
use graphqlade.Common.{
  ◌≡◌, refl, inl, inr, some, undefined, null, str, num, arr, obj, item, no_items, field, end, ok,
  prop,
}
use graphqlade.Ws.Messages.{ClientMessage, subscribe, ServerMessage}
use graphqlade.Ws.Wire.{encode_client, encode_server, json}
use graphqlade.Ws.Wire.RoundTrip.{read_client, read_server, read_client-encode, read_server-encode}

-- An undefined property is left out, an undefined item is not.
json_example :
    json (obj (field "a" undefined (field "b" (arr (item undefined (item (num 1) no_items))) end)))
    ≡ obj (field "b" (arr (item null (item (num 1) no_items))) end)
unfolding json
json_example = refl

abbrev ask : ClientMessage
ask = subscribe "1" (record {
  query = "subscription { now }";
  operation_name = undefined;
  variables = obj (field "zone" (str "UTC") end);
})

read_client-encode_example : read_client (json (encode_client ask)) ≡ some (ok ask)
unfolding json
read_client-encode_example = read_client-encode ask (inl refl, inr (inr (_, refl)), refl)

abbrev refusal : ServerMessage
refusal = ServerMessage.error "1" (arr (item (obj (field "message" (str "No") end)) no_items))

read_server-encode_example : read_server (json (encode_server refusal)) ≡ some (ok refusal)
unfolding json prop
read_server-encode_example = read_server-encode refusal ((_, refl, (("No", refl), tt)), refl)
