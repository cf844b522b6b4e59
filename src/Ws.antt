-- ===== src/Ws.antt =====
-- src/ws: the messages of the WebSocket protocol and the two ends of a connection.
pub mod Messages
pub mod ServerParsers
pub mod ClientParsers
pub mod Wire
pub mod ServerSocket
pub mod SocketServer
pub mod ClientSocket
pub mod SocketClient
