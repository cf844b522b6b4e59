-- ===== src/Ws/ClientSocket.antt =====
-- src/ws/GraphQLClientWebSocket.ts as a state machine. An event is one turn of the event loop: a call
-- of a method, an event of the socket, a timer, the continuation of the setup of an iterator after
-- `await this.requireAck()`, or a step of the iterators, which are those of Util.PushIterator.
pub mod State
pub mod Steps
pub mod Protocol
pub mod Refinement
pub mod Ids
pub mod Registry
pub mod Registration
pub mod Routing
pub mod Endings
mod Tests
use graphqlade.Common.{ℕ, List, [], ◌∷◌, Value, String, Thrown, Error}
use State.{ClientSocket, Event}
use Steps.{step}

module _ (to_error : Thrown → Error) (show : Value → String) (to_string : ℕ → String) where
  unfoldable pub run : List Event → ClientSocket → ClientSocket
  run [] s = s
  run (e ∷ events) s = run events (step to_error show to_string e s)
