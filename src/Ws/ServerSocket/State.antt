-- ===== src/Ws/ServerSocket/State.antt =====
-- The state of a GraphQLServerWebSocket, what it does to the outside, and the events it reacts to.
use graphqlade.Common.{
  ℕ, ℤ, pos, String, Bool, true, false, ◌||◌, Option, none, some, List, [], ◌∷◌, if◌then◌else◌,
  Value, Thrown, Error, ErrorClass, ◌===◌, string_eq, ◌⊎◌, concat,
}
use graphqlade.Common.Map.{Map}
use graphqlade.Ws.Messages.{ServerMessage, SubscribePayload}

-- A `DeferredPromise`.
pub data Deferred : Type 0 where
  unsettled : Deferred
  resolved : Value → Deferred
  rejected : Thrown → Deferred

-- The promise that is stored for a subscription, and its iteration: `subscribe` has not answered;
-- it gave an iterator that is iterated, or was; it gave a single result; it threw.
pub data Progress : Type 0 where
  pending iterating exhausted one_shot : Progress
  failed : Thrown → Progress

pub record Subscription : Type 0 where
  pub id : String
  pub progress : Progress

-- A handler that waits: for `acknowledge`; for `requireAck` in `handleSubscribeMessage` and in
-- `handleCompleteMessage`; for the subscription in the latter; in the loop over the subscriptions
-- after a close or an error, with the subscriptions it has been through.
pub data Task : Type 0 where
  acknowledging : Value → Task
  subscribing : String → SubscribePayload → Task
  completing : String → Task
  returning : ℕ → Task
  closing : List ℕ → Task

-- Calls to the outside. `sent` notes the number of the subscription that a message belongs to.
pub data Effect : Type 0 where
  sent : Option ℕ → ServerMessage → Effect
  closed : ℤ → String → Effect
  logged : Error → Effect
  calls_acknowledge : Value → Effect
  calls_subscribe : ℕ → String → SubscribePayload → Value → Effect
  calls_return : ℕ → Effect

-- `subscriptions` maps an id to the number of its subscription in `promises`. `listens` says
-- whether `setup` added the event listeners, `timer` whether the initialisation timer runs,
-- `expiring` which deletions are scheduled, by id. The log has the newest effect first.
pub record ServerSocket : Type 0 where
  pub protocol : String
  pub listens : Bool
  pub is_open : Bool
  pub timer : Bool
  pub initialized : Bool
  pub init_payload : Deferred
  pub acknowledged : Bool
  pub subscriptions : Map String ℕ
  pub promises : Map ℕ Subscription
  pub next_number : ℕ
  pub tasks : Map ℕ Task
  pub next_task : ℕ
  pub expiring : List String
  pub log : List Effect

-- What JSON.parse gives for the data of a message: a value, or the error that it throws.
pub data Event : Type 0 where
  message_event : Error ⊎ Value → Event
  close_event : ℤ → String → Event
  error_event : Thrown → Event
  init_timeout : Event
  acknowledge_returns : ℕ → Value → Event
  acknowledge_throws : ℕ → Thrown → Event
  continues : ℕ → Event
  subscribe_iterates : ℕ → Event
  subscribe_answers : ℕ → Value → Event
  subscribe_throws : ℕ → Thrown → Event
  yields : ℕ → Value → Event
  ends : ℕ → Event
  iteration_throws : ℕ → Thrown → Event
  expires : String → Event

abbrev pub perform : Effect → ServerSocket → ServerSocket
perform effect s = record s { log = effect ∷ s.log }

-- `send`
unfoldable pub send : Option ℕ → ServerMessage → ServerSocket → ServerSocket
send number message s = if s.is_open then perform (sent number message) s else s

-- `close`. A socket whose `close` was called is no longer open.
unfoldable pub close : ℤ → String → ServerSocket → ServerSocket
close code reason s =
    if s.is_open then perform (closed code reason) (record s { is_open = false }) else s

-- `makeClosingError`
abbrev pub make_closing_error : ℤ → String → Error
make_closing_error code reason = record {
  class = ErrorClass.plain;
  message = reason;
  code = some code;
}

abbrev pub internal_error : Error → ServerSocket → ServerSocket
internal_error e s =
    close (pos 1011) (concat ("Internal server error: " ∷ e.message ∷ [])) (perform (logged e) s)

abbrev pub close_by_class : ErrorClass → Error → ServerSocket → ServerSocket
close_by_class ErrorClass.type_error e s =
    close (pos 4400) (concat ("Invalid message: " ∷ e.message ∷ [])) s
close_by_class _ e s = internal_error e s

-- `closeByError`
unfoldable pub close_by_error : Error → ServerSocket → ServerSocket
unfolding close
close_by_error e s = elim e.code [
  | some code ↦ close code e.message s
  | none ↦ close_by_class e.class e s
]

abbrev pub settle_with : Deferred → Deferred → Deferred
settle_with unsettled new = new
settle_with old new = old

-- `resolve` and `reject` of a promise: only the first one counts.
abbrev pub settle : Deferred → ServerSocket → ServerSocket
settle new s = record s { init_payload = settle_with s.init_payload new }

abbrev pub is_supported : String → Bool
is_supported protocol = protocol === "graphql-transport-ws" || protocol === "graphql-ws"

abbrev pub fresh : String → ServerSocket
fresh protocol = record {
  protocol = protocol;
  listens = false;
  is_open = true;
  timer = false;
  initialized = false;
  init_payload = unsettled;
  acknowledged = false;
  subscriptions = [];
  promises = [];
  next_number = 0;
  tasks = [];
  next_task = 0;
  expiring = [];
  log = [];
}

-- The constructor with `setup`, for an open socket.
unfoldable pub setup : String → ServerSocket
unfolding close
setup protocol =
    if is_supported protocol
    then record (fresh protocol) { listens = true; timer = true }
    else close (pos 1002) (concat ("Unsupported web socket protocol " ∷ protocol ∷ []))
        (fresh protocol)
