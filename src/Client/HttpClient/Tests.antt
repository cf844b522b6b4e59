-- ===== src/Client/HttpClient/Tests.antt =====
-- Calls of a GraphQLClient, and its theorems at them.
use graphqlade.Common.{
  ℕ, String, ◌≡◌, refl, ◌↔◌, Bool, true, false, none, some, [], ◌∷◌, if◌then◌else◌, Value,
  undefined, str, num, arr, obj, item, no_items, Fields, field, end, prop, ok, string_eq, ltb,
  truthy,
}
use graphqlade.Common.Map
use graphqlade.Http.HttpServer.Tests.{get}
use graphqlade.Ws.ServerSocket.Tests.{as_error, show_text}
use graphqlade.Client.HttpClient.{
  as_result, messages_of, filter_items, RequestInit, Response, Client, RequestOptions, returned,
  refused, request_error, no_init, has_prop, parse_response, call_of, post, messages_of,
  filter_items,
}
use graphqlade.Client.HttpClient.Answers.{IsAnswer, parse_response_iff}
use graphqlade.Client.HttpClient.Headers.{get-call_of, first_of}

-- The text of a status.
abbrev decimal : ℕ → String
decimal n = if ltb n 300 then "200" else "400"

abbrev is_not_zero : Value → Bool
is_not_zero (num n) = ltb 0 n
is_not_zero _ = false

-- A server that answers with an error that is a warning.
abbrev warned : Fields
warned =
    field "data" (obj end)
      (field "errors" (arr (item (obj (field "message" (str "old") end)) no_items)) end)

abbrev warning : Response
warning = record { ok = true; status = 200; status_text = "OK"; json = ok (obj warned) }

abbrev is_severe : Value → Bool
is_severe v = false

abbrev client : Client
client = record {
  url = "/graphql";
  fetch = λ url call. ok warning;
  init = record {
    headers = some (("accept", "text/plain") ∷ []);
    error_filter = none;
    others = [];
  };
  operations = ("Ping", "query Ping { ping }") ∷ [];
}

abbrev tolerant : RequestInit
tolerant = record no_init { error_filter = some is_severe }

abbrev ping : RequestOptions
ping = record {
  query = str "{ ping }";
  variables = undefined;
  operation_name = undefined;
  init = tolerant;
}

-- The filter decides between the result and the error.
answers :
    (post decimal show_text is_not_zero as_error show_text client ping ≡ returned warned)
    × (parse_response decimal show_text is_not_zero as_error client warning no_init
        ≡ refused (request_error "GraphQL error(s): old" warning (some warned) undefined))
unfolding post parse_response as_result has_prop truthy prop filter_items messages_of
answers = (refl, refl)

get-call_of_example :
    Map.get "accept" (call_of show_text client ping).headers
    ≡ first_of none (first_of (some "text/plain") (some "application/json"))
unfolding Map.get
get-call_of_example = get-call_of show_text client ping "accept" (refl, tt) tt

parse_response_iff_example :
    (parse_response decimal show_text is_not_zero as_error client warning tolerant
      ≡ returned warned)
    ↔ IsAnswer (some is_severe) (ok (obj warned)) warned
unfolding prop
parse_response_iff_example =
    parse_response_iff decimal show_text is_not_zero as_error client warning tolerant warned tt

-- The JSON of an execution that returned a number.
abbrev encode : ℕ → Fields
encode n = field "data" (num n) end

abbrev status_text : ℕ → String
status_text n = "Bad Request"
