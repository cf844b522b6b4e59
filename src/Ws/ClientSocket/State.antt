-- ===== src/Ws/ClientSocket/State.antt =====
-- The state of a GraphQLClientWebSocket, its iterators included, and what it does to the socket.
use graphqlade.Common.{
  ℕ, ℤ, pos, String, Bool, true, false, Option, none, some, List, [], ◌∷◌, if◌then◌else◌, ltb,
  Value, truthy, Thrown, error, value, Error, ErrorClass, ◌⊎◌, concat, string_eq, nat_eq,
}
use graphqlade.Common.Map
use graphqlade.Common.Map.{Map}
use graphqlade.Util.PushIterator
use graphqlade.Util.PushIterator.{World, Action}
use graphqlade.Ws.Messages.{ClientMessage, SubscribePayload}
use graphqlade.Ws.ServerSocket.State.{Deferred, unsettled, settle_with}

-- An iterator that `subscribe` made, and the id that its setup gave it.
pub record Stream : Type 0 where
  pub it : World Value Thrown
  pub payload : SubscribePayload
  pub id : Option String

-- `readyState`, where `closed` stands for CLOSING and CLOSED.
pub data Ready : Type 0 where
  connecting opened closed : Ready

pub data Effect : Type 0 where
  sent : ClientMessage → Effect
  closes : ℤ → String → Effect

-- `timer` says whether the timer of `connectionAckWaitTimeoutId` runs; `lost_timers` counts those
-- whose id a further call of `init` overwrote. `opening` holds the payloads of the listeners that
-- `init` added for `open`. `subscriptions` maps an id to the number of its iterator in `streams`;
-- `expiring` are the deletions that are scheduled. The log has the newest effect first.
pub record ClientSocket : Type 0 where
  pub ready : Ready
  pub timer : Bool
  pub lost_timers : ℕ
  pub opening : List Value
  pub ack : Deferred
  pub subscriptions : Map String ℕ
  pub next_subscription_id : ℕ
  pub streams : Map ℕ Stream
  pub next_stream : ℕ
  pub expiring : List String
  pub log : List Effect

-- What the user of an iterator does, and the continuation of a call of `next` that waited.
pub data Use : Type 0 where
  calls_next returns : Use
  throws : Thrown → Use
  resumes : ℕ → Use

pub data Event : Type 0 where
  inits : Value → Event
  opens : Event
  subscribes : SubscribePayload → Event
  shuts : ℤ → String → Event
  message_event : Error ⊎ Value → Event
  close_event : ℤ → String → Event
  error_event : Event
  ack_timeout lost_timeout : Event
  setup_continues : ℕ → Event
  uses : ℕ → Use → Event
  expires : String → Event

-- The constructor, on a socket in some state.
unfoldable pub connect : Ready → ClientSocket
connect ready = record {
  ready = ready;
  timer = false;
  lost_timers = 0;
  opening = [];
  ack = unsettled;
  subscriptions = [];
  next_subscription_id = 1;
  streams = [];
  next_stream = 0;
  expiring = [];
  log = [];
}

abbrev pub perform : Effect → ClientSocket → ClientSocket
perform effect s = record s { log = effect ∷ s.log }

-- `isOpen`
abbrev pub is_open : Ready → Bool
is_open opened = true
is_open _ = false

-- `isOpenOrConnecting`
abbrev pub is_open_or_connecting : Ready → Bool
is_open_or_connecting closed = false
is_open_or_connecting _ = true

unfoldable pub send : ClientMessage → ClientSocket → ClientSocket
send message s = if is_open s.ready then perform (sent message) s else s

abbrev pub clear_timer : ClientSocket → ClientSocket
clear_timer s = record s { timer = false }

abbrev pub shut : ℤ → String → ClientSocket → ClientSocket
shut code reason s =
    if is_open_or_connecting s.ready
    then perform (closes code reason) (record s { ready = closed })
    else s

unfoldable pub close : ℤ → String → ClientSocket → ClientSocket
close code reason s = shut code reason (clear_timer s)

abbrev pub close_by_class : ErrorClass → String → ClientSocket → ClientSocket
close_by_class ErrorClass.type_error message s =
    close (pos 4400) (concat ("Invalid message: " ∷ message ∷ [])) s
close_by_class _ message s = close (pos 4500) (concat ("Client error: " ∷ message ∷ [])) s

unfoldable pub close_by_error : Error → ClientSocket → ClientSocket
unfolding close
close_by_error e s = elim e.code [
  | some code ↦ close code e.message s
  | none ↦ close_by_class e.class e.message s
]

abbrev pub settle : Deferred → ClientSocket → ClientSocket
settle d s = record s { ack = settle_with s.ack d }

-- Whether a thrown value passes `if (this.error)`.
abbrev pub is_raised : Thrown → Bool
is_raised (error e) = true
is_raised (value v) = truthy v

abbrev pub set_stream : ℕ → Stream → ClientSocket → ClientSocket
set_stream n stream s = record s { streams = Map.set n stream s.streams }

-- `setTimeout(() => this.subscriptions.delete(id), 3000)`
abbrev pub expire_later : String → ClientSocket → ClientSocket
expire_later id s = record s { expiring = id ∷ s.expiring }

-- The teardown function that the setup of an iterator returns.
unfoldable pub teardown : Option String → ClientSocket → ClientSocket
unfolding send
teardown none s = s
teardown (some id) s = expire_later id (send (ClientMessage.complete id) s)

-- One action of the iterator numbered `n`, with its teardown function, if the action calls it.
unfoldable pub act : Action Value Thrown → ℕ → Stream → ClientSocket → ClientSocket
unfolding teardown
act action n stream s =
    let w = PushIterator.step is_raised action stream.it in
    let s' = set_stream n (record stream { it = w }) s in
    if ltb stream.it.torn w.torn then teardown stream.id s' else s'

unfoldable pub act_at : Action Value Thrown → ℕ → ClientSocket → ClientSocket
unfolding act
act_at action n s = elim (Map.get n s.streams) [ none ↦ s | some stream ↦ act action n stream s ]
