-- ===== src/Ws/SocketServer/Tests.antt =====
-- Connections of a small GraphQLWebSocketServer, and its theorem on them.
use graphqlade.Common.{◌≡◌, refl, false, none, List, [], ◌∷◌, inr}
use graphqlade.Ws.ServerSocket.State.{message_event}
use graphqlade.Ws.ServerSocket.Tests.{as_error, show_text, init_message}
use graphqlade.Ws.SocketServer.Connections.{Action, connects, receives, start, run, close}
use graphqlade.Ws.SocketServer.Connections.Listening.{is_open_at}
use graphqlade.Ws.SocketServer.Connections.Shutdown.{close-run}

abbrev visits : List Action
visits =
    connects "graphql-transport-ws"
    ∷ connects "graphql-ws"
    ∷ receives 0 (message_event (inr init_message))
    ∷ connects "unknown"
    ∷ []

close-run_example : is_open_at 0 (close none none (run as_error show_text visits start)) ≡ false
close-run_example =
    close-run as_error show_text 0 visits none none (refl, (refl, (refl, (refl, tt))))
