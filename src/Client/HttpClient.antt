-- ===== src/Client/HttpClient.antt =====
-- src/client/GraphQLClient.ts with its errors. `fetch`, JSON.stringify, the text of numbers and
-- values and the comparison of a value with 0 are parameters; a promise is represented by what it
-- settles to. `errorFilter` is not among what `fetch` gets here, which does not read it.
pub mod Answers
pub mod Headers
pub mod ServerAnswers
mod Tests
use graphqlade.Common.{
  ℕ, String, Bool, true, false, ◌||◌, Option, none, some, List, [], ◌∷◌, map, keep, if◌then◌else◌,
  Value, Items, undefined, null, bool, num, str, arr, obj, item, no_items, Fields, field, end, prop,
  truthy, Error, ErrorClass, Thrown, error, Result, ok, thrown, ◌>>=◌, throw_type_error, concat,
  join, ◌===◌, string_eq,
}
use graphqlade.Common.Map
use graphqlade.Common.Map.{Map}
use graphqlade.Ws.ClientParsers.{message_of}

-- `GraphQLRequestInit`; `others` are the options that only `fetch` reads.
pub record RequestInit : Type 0 where
  pub headers : Option (Map String String)
  pub error_filter : Option (Value → Bool)
  pub others : Map String Value

-- What `fetch` gets after the URL.
pub record Call : Type 0 where
  pub others : Map String Value
  pub method : String
  pub headers : Map String String
  pub body : String

pub record Response : Type 0 where
  pub ok : Bool
  pub status : ℕ
  pub status_text : String
  pub json : Result Value

-- `GraphQLRequestError`
pub record RequestError : Type 0 where
  pub message : String
  pub response : Response
  pub result : Option Fields
  pub json : Value

pub data Answer : Type 0 where
  returned : Fields → Answer
  refused : RequestError → Answer
  failed : Thrown → Answer

-- `GraphQLClient`
pub record Client : Type 0 where
  pub url : String
  pub fetch : String → Call → Result Response
  pub init : RequestInit
  pub operations : Map String String

pub record Options : Type 0 where
  pub url : String
  pub fetch : Option (String → Call → Result Response)
  pub init : Option RequestInit
  pub typings : Option (Map String String)

pub record RequestOptions : Type 0 where
  pub query : Value
  pub variables : Value
  pub operation_name : Value
  pub init : RequestInit

-- `{ ...m, ...entries }`
unfoldable pub spread {ℓ} : {V : Type ℓ} → Map String V → Map String V → Map String V
spread [] m = m
spread ((k, v) ∷ entries) m = spread entries (Map.set k v m)

abbrev pub or_empty {ℓ} : {V : Type ℓ} → Option (Map String V) → Map String V
or_empty none = []
or_empty (some m) = m

abbrev pub or_else {ℓ} : {A : Type ℓ} → Option A → A → A
or_else none a = a
or_else (some b) a = b

abbrev pub no_init : RequestInit
no_init = record { headers = none; error_filter = none; others = [] }

-- The constructor, on a platform with its own `fetch`.
unfoldable pub connect : (String → Call → Result Response) → Options → Client
connect platform_fetch options =
    let given = or_else options.init no_init in
    record {
      url = options.url;
      fetch = or_else options.fetch platform_fetch;
      init = record given { headers = some (spread (or_empty given.headers) []) };
      operations = or_empty options.typings;
    }

unfoldable pub set_headers : Map String String → Client → Client
set_headers headers client = record client { init = record client.init { headers = some headers } }

-- `new GraphQLRequestError(...)`
abbrev pub request_error : String → Response → Option Fields → Value → RequestError
request_error message response (some result) json = record {
  message = message;
  response = response;
  result = some result;
  json = obj result;
}
request_error message response none json = record {
  message = message;
  response = response;
  result = none;
  json = json;
}

-- `name in o`
unfoldable pub has_prop : String → Fields → Bool
has_prop name end = false
has_prop name (field k v fs) = k === name || has_prop name fs

-- `isResult`, with the object.
unfoldable pub as_result : Value → Option Fields
as_result (obj fs) = if has_prop "data" fs || has_prop "errors" fs then some fs else none
as_result _ = none

unfoldable pub filter_items : (Value → Bool) → Items → Items
filter_items p no_items = no_items
filter_items p (item v vs) = let rest = filter_items p vs in if p v then item v rest else rest

-- `errors.map((err) => err.message)`
unfoldable pub messages_of : Items → Result (List Value)
messages_of no_items = ok []
messages_of (item v vs) = do
  message ← message_of v
  messages ← messages_of vs
  ok (message ∷ messages)

-- Calling a property that is not a function.
abbrev not_a_function : String → Thrown
not_a_function called = error (record {
  class = ErrorClass.type_error;
  message = concat (called ∷ " is not a function" ∷ []);
  code = none;
})

abbrev pub default_headers : Map String String
default_headers = ("accept", "application/json") ∷ ("content-type", "application/json") ∷ []

abbrev pub body_of : RequestOptions → Value
body_of options = obj (
    field "query" options.query
      (field "variables" options.variables (field "operationName" options.operation_name end)))

module _ (stringify : Value → String) where
  -- What `post` gives to `fetch`.
  unfoldable pub call_of : Client → RequestOptions → Call
  call_of client options = record {
    others = spread options.init.others (spread client.init.others []);
    method = "POST";
    headers =
        spread (or_empty options.init.headers)
          (spread (or_empty client.init.headers) default_headers);
    body = stringify (body_of options);
  }

-- `init?.errorFilter ?? this.init.errorFilter`
abbrev pub filter_of : Client → RequestInit → Option (Value → Bool)
filter_of client init = elim init.error_filter [ none ↦ client.init.error_filter | some p ↦ some p ]

module _ (to_string : ℕ → String) (show : Value → String) (is_positive : Value → Bool) where
  abbrev pub suffix : Response → String
  suffix response =
      if response.ok
      then ""
      else concat (" (" ∷ to_string response.status ∷ " " ∷ response.status_text ∷ ")" ∷ [])

  -- What an item contributes to `join`.
  abbrev pub item_text : Value → String
  item_text undefined = ""
  item_text null = ""
  item_text v = show v

  abbrev pub error_text : List Value → Response → String
  error_text messages response =
      concat ("GraphQL error(s): " ∷ join "; " (map item_text messages) ∷ suffix response ∷ [])

  refuse : Response → Fields → Result (List Value) → Answer
  refuse response result (thrown t) = failed t
  refuse response result (ok messages) =
      refused (request_error (error_text messages response) response (some result) undefined)

  -- `if (errors.length > 0)`, for a list and for what JSON may give in its place.
  check_list : Response → Fields → Items → Answer
  unfolding refuse
  check_list response result no_items = returned result
  check_list response result (item v vs) = refuse response result (messages_of (item v vs))

  check_unlisted : Response → Fields → Value → Answer
  check_unlisted response result (str s) = failed (not_a_function "errors.map")
  check_unlisted response result (obj fs) =
      if is_positive (prop "length" fs)
      then failed (not_a_function "errors.map")
      else returned result
  check_unlisted response result _ = returned result

  check_filtered : Option (Value → Bool) → Response → Fields → Value → Answer
  unfolding check_list check_unlisted
  check_filtered none response result (arr vs) = check_list response result vs
  check_filtered none response result v = check_unlisted response result v
  check_filtered (some p) response result (arr vs) = check_list response result (filter_items p vs)
  check_filtered (some p) response result v = failed (not_a_function "errors.filter")

  check_result : Option (Value → Bool) → Response → Value → Answer
  unfolding check_filtered
  check_result filter response json = elim (as_result json) [
    | none ↦ refused (
        request_error (concat ("Not a GraphQL response" ∷ suffix response ∷ [])) response none json)
    | some result ↦
        let errors = prop "errors" result in
        if truthy errors then check_filtered filter response result errors else returned result
  ]

  module _ (to_error : Thrown → Error) where
    check_json : Option (Value → Bool) → Response → Result Value → Answer
    unfolding check_result
    check_json filter response (thrown t) = refused (
        request_error
          (concat ("Not a GraphQL response: " ∷ (to_error t).message ∷ suffix response ∷ []))
          response none undefined)
    check_json filter response (ok json) = check_result filter response json

    unfoldable pub parse_response : Client → Response → RequestInit → Answer
    unfolding check_json
    parse_response client response init = check_json (filter_of client init) response response.json

    abbrev answer : Client → RequestInit → Result Response → Answer
    answer client init (thrown t) = failed t
    answer client init (ok response) = parse_response client response init

    module _ (stringify : Value → String) where
      unfoldable pub post : Client → RequestOptions → Answer
      unfolding call_of
      post client options =
          answer client (record options.init { headers = none })
            (client.fetch client.url (call_of stringify client options))

      -- `this.operations[operationName]`
      abbrev pub operation_text : Option String → Value
      operation_text none = undefined
      operation_text (some text) = str text

      unfoldable pub post_named : Client → String → Value → RequestInit → Answer
      unfolding post
      post_named client operation_name variables init = post client (record {
        query = operation_text (Map.get operation_name client.operations);
        variables = variables;
        operation_name = str operation_name;
        init = init;
      })
