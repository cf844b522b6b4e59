-- ===== src/Ws/SocketClient.antt =====
-- src/ws/GraphQLWebSocketClient.ts as a state machine. An event is one turn of the event loop: a call
-- of a method, a timer, the continuation of an `await`, or what a socket or an iterator on a socket
-- does. The delays are whole milliseconds, the multiplier is a fraction, and what Math.random gives
-- is a multiple of 2^-53; their arithmetic is exact here.
pub mod Connection
pub mod Steps
pub mod Backoff
pub mod Changes
pub mod Bounds
pub mod Sockets
pub mod Settling
pub mod Endings
pub mod Callbacks
mod Tests
use graphqlade.Common.{ℕ, List, [], ◌∷◌, String, Value, Thrown, Error}
use Steps.{SocketClient, Event, step}

module _ (to_error : Thrown → Error) where
  unfoldable pub run : List Event → SocketClient → SocketClient
  run [] s = s
  run (e ∷ events) s = run events (step to_error e s)
