-- ===== src/Client/HttpClient/ServerAnswers.antt =====
-- What a GraphQLClient makes of the answers of a GraphQLHttpServer.
use graphqlade.Common.{
  ℕ, String, concat, join, ltb, leb, Bool, false, List, [], ◌∷◌, map, if◌then◌else◌, Value, Items,
  str, arr, obj, item, no_items, Fields, field, end, ok, string_eq,
}
use graphqlade.Server.ArgsParser.{ArgsParser}
use graphqlade.Http.HttpServer
use graphqlade.Http.HttpServer.{ResponseError, graphql, with_message, Body, errors, executed}
use graphqlade.Client.HttpClient.{Client, Response, item_text}

-- The message of an error in an answer.
abbrev pub message_in : ResponseError → Value
message_in (graphql e) = str e.message
message_in (with_message message) = message

-- The errors as JSON, as far as the client reads them.
abbrev pub error_items : List ResponseError → Items
error_items [] = no_items
error_items (e ∷ es) = item (obj (field "message" (message_in e) end)) (error_items es)

-- The body of an answer, where `encode` gives that of an execution.
abbrev pub body_json : {B : Type 0} → (B → Fields) → Body B → Value
body_json encode (errors es) = obj (field "errors" (arr (error_items es)) end)
body_json encode (executed result) = obj (encode result)

-- What the client gets for an answer.
abbrev pub deliver :
    {B C : Type 0} → (B → Fields) → (ℕ → String) → HttpServer.Response C B → Response
deliver encode status_text answer = record {
  ok = if ltb answer.status 300 then leb 200 answer.status else false;
  status = answer.status;
  status_text = status_text answer.status;
  json = ok (body_json encode answer.body);
}

-- The text of a request error for a response of a status that is not ok.
module _ (status_text to_string : ℕ → String) (show : Value → String)
    (is_positive : Value → Bool) where
  abbrev pub refusal_text : List ResponseError → ℕ → String
  refusal_text es status = concat (
      "GraphQL error(s): "
      ∷ join "; " (map (item_text to_string show is_positive) (map message_in es))
      ∷ concat (" (" ∷ to_string status ∷ " " ∷ status_text status ∷ ")" ∷ [])
      ∷ [])
