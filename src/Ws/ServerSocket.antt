-- ===== src/Ws/ServerSocket.antt =====
-- src/ws/GraphQLServerWebSocket.ts as a state machine. An event is one turn of the event loop: an
-- event of the socket, a timer, the settling of a promise of the `acknowledge` or `subscribe`
-- function, a step of an iteration, or the continuation of a handler after an `await`. Where an
-- awaited promise is already rejected, the rejection is handled in the same turn.
pub mod State
pub mod Handlers
pub mod Steps
pub mod Protocol
pub mod HandlerMoves
pub mod Refinement
pub mod Gate
pub mod Closing
pub mod Finals
pub mod Tests
use Steps.{step}
use graphqlade.Common.{List, [], ◌∷◌, Value, String, Thrown, Error}
use State.{ServerSocket, Event}

module _ (to_error : Thrown → Error) (show : Value → String) where
  unfoldable pub run : List Event → ServerSocket → ServerSocket
  run [] s = s
  run (e ∷ events) s = run events (step to_error show e s)
