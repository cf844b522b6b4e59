-- ===== src/Ws/SocketClient/Connection.antt =====
-- The connection of a GraphQLWebSocketClient, and the delay before it reconnects.
use Prim.Native.Nat.{min, max}
use graphqlade.Common.{
  ℕ, suc, ◌+◌, ◌*◌, ◌/◌, nat_beq, String, Bool, true, false, not, ◌&&◌, Option, none, some, List,
  [], ◌∷◌, if◌then◌else◌, Value, undefined, null, nat_eq,
}
use graphqlade.Common.Map
use graphqlade.Common.Map.{Map}
use graphqlade.Ws.ServerSocket.State.{Deferred, unsettled, settle_with}
use graphqlade.Ws.ClientSocket.State.{Ready, connecting, opened, closed, is_open_or_connecting}

-- A number that need not be whole: `numerator / denominator`.
pub record Ratio : Type 0 where
  pub numerator : ℕ
  pub denominator : ℕ

-- `GraphQLWebSocketClientOptions`
pub record Options : Type 0 where
  pub url : String
  pub protocol : Option String
  pub connection_init_payload : Value
  pub connection_ack_timeout : Option ℕ
  pub auto_reconnect : Option Bool
  pub min_reconnect_delay : Option ℕ
  pub max_reconnect_delay : Option ℕ
  pub reconnect_delay_multiplier : Option Ratio
  pub operations : Option (Map String String)

-- What the constructor makes of them.
pub record Settings : Type 0 where
  pub url : String
  pub protocol : String
  pub connection_ack_timeout : ℕ
  pub auto_reconnect : Bool
  pub min_reconnect_delay : ℕ
  pub max_reconnect_delay : ℕ
  pub reconnect_delay_multiplier : Ratio
  pub operations : Map String String

abbrev pub or_default {ℓ} : {A : Type ℓ} → Option A → A → A
or_default none a = a
or_default (some b) a = b

-- The constructor; `replace` is that of strings.
unfoldable pub configure : (String → String → String → String) → Options → Settings
configure replace options = record {
  url = replace "http://" "ws://" (replace "https://" "wss://" options.url);
  protocol = or_default options.protocol "graphql-transport-ws";
  connection_ack_timeout = or_default options.connection_ack_timeout 3000;
  auto_reconnect = or_default options.auto_reconnect true;
  min_reconnect_delay = max (or_default options.min_reconnect_delay 500) 10;
  max_reconnect_delay = or_default options.max_reconnect_delay 30000;
  reconnect_delay_multiplier =
      or_default options.reconnect_delay_multiplier (record { numerator = 2; denominator = 1 });
  operations = or_default options.operations [];
}

-- A GraphQLClientWebSocket, as far as the client looks at it.
pub record Socket : Type 0 where
  pub ready : Ready
  pub ack : Deferred
  pub init_payload : Value

-- `delaying` says whether there is a `reconnectDelayPromise`, `current` is the number of
-- `graphqlSocket`. `delays` are the delays whose timers were started, the newest first.
pub record Connection : Type 0 where
  pub settings : Settings
  pub init_payload : Value
  pub ack_payload : Value
  pub reconnect_delay : ℕ
  pub delaying : Bool
  pub sockets : Map ℕ Socket
  pub next_socket : ℕ
  pub current : Option ℕ
  pub delays : List ℕ

unfoldable pub start : Settings → Value → Connection
start settings payload = record {
  settings = settings;
  init_payload = payload;
  ack_payload = undefined;
  reconnect_delay = 0;
  delaying = false;
  sockets = [];
  next_socket = 0;
  current = none;
  delays = [];
}

-- `setConnectionInitPayload`
abbrev pub set_init_payload : Value → Connection → Connection
set_init_payload payload c = record c { init_payload = payload }

-- `isOpenOrConnecting` of a socket.
unfoldable pub is_alive : ℕ → Map ℕ Socket → Bool
is_alive i sockets = elim (Map.get i sockets) [
  | none ↦ false
  | some socket ↦ is_open_or_connecting socket.ready
]

-- `this.graphqlSocket?.isOpenOrConnecting()`
unfoldable pub is_connected : Option ℕ → Map ℕ Socket → Bool
unfolding is_alive
is_connected none sockets = false
is_connected (some i) sockets = is_alive i sockets

-- Whether `awaitReconnectDelay` waits.
unfoldable pub must_wait : Connection → Bool
unfolding is_connected
must_wait c = not (is_connected c.current c.sockets) && not (nat_beq c.reconnect_delay 0)

-- `if (!this.reconnectDelayPromise)`
unfoldable pub start_delay : Connection → Connection
start_delay c =
    if c.delaying then c else record c { delaying = true; delays = c.reconnect_delay ∷ c.delays }

abbrev pub end_delay : Connection → Connection
end_delay c = record c { delaying = false }

abbrev pub new_socket : Value → Socket
new_socket payload = record { ready = connecting; ack = unsettled; init_payload = payload }

-- The socket that `requireConnection` waits for.
unfoldable pub require_socket : Connection → Connection
unfolding is_connected
require_socket c = if is_connected c.current c.sockets then c else record c {
  sockets = Map.set c.next_socket (new_socket c.init_payload) c.sockets;
  current = some c.next_socket;
  next_socket = suc c.next_socket;
}

-- `payload ?? undefined`
abbrev pub ack_of : Value → Value
ack_of null = undefined
ack_of v = v

-- `resetReconnectDelay`, and the line before it.
unfoldable pub reset_delay : Value → Connection → Connection
reset_delay payload c = record c {
  ack_payload = ack_of payload;
  reconnect_delay = c.settings.min_reconnect_delay;
}

abbrev pub random_units : ℕ
random_units = 9007199254740992

-- `Math.floor(Math.min(multiplier * delay, most) + random * least)`, over a common denominator.
unfoldable pub next_delay : Ratio → ℕ → ℕ → ℕ → ℕ → ℕ
next_delay multiplier delay most least random =
    (min (multiplier.numerator * delay) (most * multiplier.denominator) * random_units
      + random * least * multiplier.denominator)
    / (multiplier.denominator * random_units)

-- `increaseReconnectDelay`
unfoldable pub increase_delay : ℕ → Connection → Connection
unfolding next_delay
increase_delay random c = record c {
  reconnect_delay =
      next_delay c.settings.reconnect_delay_multiplier
        (max c.reconnect_delay c.settings.min_reconnect_delay) c.settings.max_reconnect_delay
        c.settings.min_reconnect_delay random;
}

-- A socket opens or closes, or its acknowledgement settles.
abbrev pub opens_up : Ready → Ready
opens_up connecting = opened
opens_up ready = ready

unfoldable pub change_socket : (Socket → Socket) → ℕ → Connection → Connection
change_socket change i c = elim (Map.get i c.sockets) [
  | none ↦ c
  | some socket ↦ record c { sockets = Map.set i (change socket) c.sockets }
]

abbrev pub open_socket : Socket → Socket
open_socket socket = record socket { ready = opens_up socket.ready }

abbrev pub close_socket : Socket → Socket
close_socket socket = record socket { ready = closed }

abbrev pub settle_socket : Deferred → Socket → Socket
settle_socket d socket = record socket { ack = settle_with socket.ack d }
