-- ===== src/Ws/Messages.antt =====
-- src/ws/GraphQLWebSocketMessage.ts
use graphqlade.Common.{String, Value}

pub record SubscribePayload : Type 0 where
  pub query : String
  pub operation_name : Value
  pub variables : Value

-- What a client sends and a server accepts.
pub data ClientMessage : Type 0 where
  connection_init : Value → ClientMessage
  subscribe : String → SubscribePayload → ClientMessage
  complete : String → ClientMessage

-- What a server sends and a client accepts.
pub data ServerMessage : Type 0 where
  connection_ack : Value → ServerMessage
  next : String → Value → ServerMessage
  error : String → Value → ServerMessage
  complete : String → ServerMessage
