-- ===== src/Ws/ServerParsers.antt =====
-- The message parsers of src/ws/GraphQLServerWebSocket.ts, and which messages they accept.
use graphqlade.Common.{
  String, ◌≡◌, refl, ◌↔◌, ◌⊎◌, inl, inr, ◌||◌, Option, none, some, Value, undefined, null, str, obj,
  Fields, prop, Result, ok, ◌>>=◌, ◌>>◌, bind-eq-ok, subst, ap, ◌∙◌, throw_type_error, ◌===◌,
  string_eq, if◌then◌else◌, arith,
}
use graphqlade.Ws.Messages.{ClientMessage, connection_init, subscribe, SubscribePayload}

-- `assert(typeof v === 'string')`, with the string.
abbrev pub expect_string : Value → Result String
expect_string (str s) = ok s
expect_string _ = throw_type_error "Assertion failed"

-- `assert(isRecord(v))`, with the properties.
abbrev pub expect_record : Value → Result Fields
expect_record (obj fs) = ok fs
expect_record _ = throw_type_error "Assertion failed"

-- `if (typeof v !== 'undefined' && v !== null) assert(isRecord(v))`
abbrev pub check_optional_record : Value → Result (Unit {0})
check_optional_record undefined = ok tt
check_optional_record null = ok tt
check_optional_record (obj fs) = ok tt
check_optional_record _ = throw_type_error "Assertion failed"

abbrev pub check_optional_string : Value → Result (Unit {0})
check_optional_string undefined = ok tt
check_optional_string null = ok tt
check_optional_string (str s) = ok tt
check_optional_string _ = throw_type_error "Assertion failed"

unfoldable pub parse_connection_init_message : Fields → Result ClientMessage
parse_connection_init_message message = do
  check_optional_record (prop "payload" message)
  ok (connection_init (prop "payload" message))

unfoldable pub parse_subscribe_message : Fields → Result ClientMessage
parse_subscribe_message message = do
  id ← expect_string (prop "id" message)
  payload ← expect_record (prop "payload" message)
  query ← expect_string (prop "query" payload)
  check_optional_string (prop "operationName" payload)
  check_optional_record (prop "variables" payload)
  ok (
      subscribe id (record {
        query = query;
        operation_name = prop "operationName" payload;
        variables = prop "variables" payload;
      }))

unfoldable pub parse_complete_message : Fields → Result ClientMessage
parse_complete_message message = do
  id ← expect_string (prop "id" message)
  ok (ClientMessage.complete id)

-- `message.type` is compared with strings only.
abbrev pub type_of : Value → String
type_of (str s) = s
type_of _ = ""

-- The `switch` of `handleMessageEvent`, legacy names included; `none` is its default case.
unfoldable pub parse_message : Fields → Option (Result ClientMessage)
unfolding parse_connection_init_message parse_subscribe_message parse_complete_message
parse_message message =
    let name = type_of (prop "type" message) in
    if name === "connection_init"
    then some (parse_connection_init_message message)
    else if name === "subscribe" || name === "start"
    then some (parse_subscribe_message message)
    else if name === "complete" || name === "stop"
    then some (parse_complete_message message)
    else none

-- A value that may be left out.
abbrev pub IsOptionalString : Value → Type 0
IsOptionalString v = (v ≡ undefined) ⊎ (v ≡ null) ⊎ ((s : String) × (v ≡ str s))

abbrev pub IsOptionalRecord : Value → Type 0
IsOptionalRecord v = (v ≡ undefined) ⊎ (v ≡ null) ⊎ ((fs : Fields) × (v ≡ obj fs))

-- The shape of a `subscribe` message.
pub record IsSubscribe (message : Fields) (id : String) (p : SubscribePayload) : Type 0 where
  pub payload : Fields
  pub has_id : prop "id" message ≡ str id
  pub has_payload : prop "payload" message ≡ obj payload
  pub has_query : prop "query" payload ≡ str p.query
  pub operation_name : prop "operationName" payload ≡ p.operation_name
  pub variables : prop "variables" payload ≡ p.variables
  pub named : IsOptionalString p.operation_name
  pub given : IsOptionalRecord p.variables

expect_string-eq : (v : Value) (s : String) → expect_string v ≡ ok s → v ≡ str s
expect_string-eq (str t) s e = cc
expect_string-eq undefined s e = cc
expect_string-eq _ s e = cc

expect_record-eq : (v : Value) (fs : Fields) → expect_record v ≡ ok fs → v ≡ obj fs
expect_record-eq (obj gs) fs e = cc
expect_record-eq undefined fs e = cc
expect_record-eq _ fs e = cc

check_optional_string_iff : (v : Value) → (check_optional_string v ≡ ok tt) ↔ IsOptionalString v
check_optional_string_iff undefined = (λ _. inl refl, λ _. refl)
check_optional_string_iff null = (λ _. inr (inl refl), λ _. refl)
check_optional_string_iff (str s) = (λ _. inr (inr (s, refl)), λ _. refl)
check_optional_string_iff _ = (λ e. cc, λ h. ground arith)

check_optional_record_iff : (v : Value) → (check_optional_record v ≡ ok tt) ↔ IsOptionalRecord v
check_optional_record_iff undefined = (λ _. inl refl, λ _. refl)
check_optional_record_iff null = (λ _. inr (inl refl), λ _. refl)
check_optional_record_iff (obj fs) = (λ _. inr (inr (fs, refl)), λ _. refl)
check_optional_record_iff _ = (λ e. cc, λ h. ground arith)

parse_subscribe_sound :
    (message : Fields) (id : String) (p : SubscribePayload)
    → parse_subscribe_message message ≡ ok (subscribe id p)
    → IsSubscribe message id p
unfolding parse_subscribe_message
parse_subscribe_sound message id p e =
    let (i, has_id, e₁) = bind-eq-ok (expect_string (prop "id" message)) _ e in
    let (fs, has_payload, e₂) = bind-eq-ok (expect_record (prop "payload" message)) _ e₁ in
    let (q, has_query, e₃) = bind-eq-ok (expect_string (prop "query" fs)) _ e₂ in
    let (_, named, e₄) = bind-eq-ok (check_optional_string (prop "operationName" fs)) _ e₃ in
    let (_, given, e₅) = bind-eq-ok (check_optional_record (prop "variables" fs)) _ e₄ in
    let same = parts i _ e₅ in
    record {
      payload = fs;
      has_id = rw (← same.0) (expect_string-eq _ i has_id);
      has_payload = expect_record-eq _ fs has_payload;
      has_query =
          expect_string-eq _ q has_query ∙ ap (λ (r : SubscribePayload). str r.query) same.1;
      operation_name = ap (λ (r : SubscribePayload). r.operation_name) same.1;
      variables = ap (λ (r : SubscribePayload). r.variables) same.1;
      named =
          subst IsOptionalString (ap (λ (r : SubscribePayload). r.operation_name) same.1)
            ((check_optional_string_iff _).0 named);
      given =
          subst IsOptionalRecord (ap (λ (r : SubscribePayload). r.variables) same.1)
            ((check_optional_record_iff _).0 given);
    }
  where
    parts :
        (i : String) (r : SubscribePayload)
        → ◌≡◌ {A = Result ClientMessage} (ok (subscribe i r)) (ok (subscribe id p))
        → (i ≡ id) × (r ≡ p)
    parts i r h = (cc, cc)

parse_subscribe_complete :
    (message : Fields) (id : String) (p : SubscribePayload)
    → IsSubscribe message id p
    → parse_subscribe_message message ≡ ok (subscribe id p)
unfolding parse_subscribe_message
parse_subscribe_complete message id p h = simp (
  h.has_id,
  h.has_payload,
  h.has_query,
  h.operation_name,
  h.variables,
  (check_optional_string_iff p.operation_name).1 h.named,
  (check_optional_record_iff p.variables).1 h.given,
)

-- The parser accepts exactly the messages with a string `id` and a record `payload` that has a
-- string `query` and, if present and not null, a string `operationName` and a record `variables`;
-- it returns these parts.
pub parse_subscribe_message_iff :
    (message : Fields) (id : String) (p : SubscribePayload)
    → (parse_subscribe_message message ≡ ok (subscribe id p)) ↔ IsSubscribe message id p
parse_subscribe_message_iff message id p =
    (parse_subscribe_sound message id p, parse_subscribe_complete message id p)
