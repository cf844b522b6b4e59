-- ===== src/Ws/ServerSocket/Closing.antt =====
-- What a GraphQLServerWebSocket does to its socket after it is closed.
use graphqlade.Common.{
  Steps-keep, ◌≡◌, refl, Bool, true, false, ◌&&◌, List, [], ◌∷◌, String, Value, Thrown, Error,
  if_split,
}
use graphqlade.Ws.ServerSocket.{run}
use graphqlade.Ws.ServerSocket.State.{
  Effect, sent, closed, ServerSocket, Event, setup, close, is_supported,
}
use graphqlade.Ws.ServerSocket.Protocol.{
  Move, schedules, forgets, shuts, closes, logs, begins, confirms, accepts, rejects, subscribes,
  turns, streams, finishes, stops, stops_iterator,
}
use graphqlade.Ws.ServerSocket.Refinement.{run-Moves}

-- The socket was not closed by the server.
abbrev pub is_unclosed : List Effect → Bool
is_unclosed [] = true
is_unclosed (closed _ _ ∷ log) = false
is_unclosed (_ ∷ log) = is_unclosed log

-- Every message and every close came before any close. The log has the newest effect first.
abbrev pub ends_with_close : List Effect → Bool
ends_with_close [] = true
ends_with_close (sent _ _ ∷ log) = is_unclosed log && ends_with_close log
ends_with_close (closed _ _ ∷ log) = is_unclosed log && ends_with_close log
ends_with_close (_ ∷ log) = ends_with_close log

-- The calls of `send` and `close` on the socket.
abbrev pub frames : List Effect → List Effect
frames [] = []
frames (sent number message ∷ log) = sent number message ∷ frames log
frames (closed code reason ∷ log) = closed code reason ∷ frames log
frames (_ ∷ log) = frames log

record IsClosing (is_open : Bool) (log : List Effect) : Type 0 where
  unclosed : is_open ≡ true → is_unclosed log ≡ true
  ordered : ends_with_close log ≡ true

abbrev Closing : ServerSocket → Type 0
Closing s = IsClosing s.is_open s.log

sends-ordered :
    (s : ServerSocket)
    → s.is_open ≡ true
    → Closing s
    → (is_unclosed s.log && ends_with_close s.log) ≡ true
sends-ordered s live c = rw (c.unclosed live) c.ordered

Move-Closing : (s t : ServerSocket) → Move s t → Closing s → Closing t
Move-Closing s t (schedules _ _ _ _) c = c
Move-Closing s t (forgets _) c = c
Move-Closing s t (shuts) c = record { unclosed = λ live. cc; ordered = c.ordered }
Move-Closing s t (turns _ _ _ _ _) c = c
Move-Closing s t (stops _ _ _ _ _ _) c = c
Move-Closing s t (closes _ _ live) c = record {
  unclosed = λ live. cc;
  ordered = sends-ordered s live c;
}
Move-Closing s t (logs _) c = record { unclosed = c.unclosed; ordered = c.ordered }
Move-Closing s t (confirms _ live) c = record {
  unclosed = c.unclosed;
  ordered = sends-ordered s live c;
}
Move-Closing s t (streams _ _ _ live _ _) c = record {
  unclosed = c.unclosed;
  ordered = sends-ordered s live c;
}
Move-Closing s t (finishes _ _ _ _ live _ _ _) c = record {
  unclosed = c.unclosed;
  ordered = sends-ordered s live c;
}
Move-Closing s t (stops_iterator _) c = record { unclosed = c.unclosed; ordered = c.ordered }
Move-Closing s t (begins _ _) c = record { unclosed = c.unclosed; ordered = c.ordered }
Move-Closing s t (accepts _) c = c
Move-Closing s t (rejects _) c = c
Move-Closing s t (subscribes _ _ _ _ _) c = record { unclosed = c.unclosed; ordered = c.ordered }

setup-Closing : (protocol : String) → Closing (setup protocol)
unfolding setup close
setup-Closing protocol =
    if_split Closing (is_supported protocol) (λ _. record { unclosed = λ _. refl; ordered = refl })
      (λ _. record { unclosed = λ live. cc; ordered = refl })

-- Not open, and the calls on the socket are these.
abbrev Shut : List Effect → ServerSocket → Type 0
Shut calls s = (s.is_open ≡ false) × (frames s.log ≡ calls)

Move-Shut : (calls : List Effect) (s t : ServerSocket) → Move s t → Shut calls s → Shut calls t
Move-Shut calls s t (schedules _ _ _ _) h = h
Move-Shut calls s t (forgets _) h = h
Move-Shut calls s t (shuts) h = (refl, h.1)
Move-Shut calls s t (turns _ _ _ _ _) h = h
Move-Shut calls s t (stops _ _ _ _ _ _) h = h
Move-Shut calls s t (closes _ _ live) h = cc (h.0, live)
Move-Shut calls s t (logs _) h = h
Move-Shut calls s t (confirms _ live) h = cc (h.0, live)
Move-Shut calls s t (streams _ _ _ live _ _) h = cc (h.0, live)
Move-Shut calls s t (finishes _ _ _ _ live _ _ _) h = cc (h.0, live)
Move-Shut calls s t (stops_iterator _) h = h
Move-Shut calls s t (begins _ _) h = h
Move-Shut calls s t (accepts _) h = h
Move-Shut calls s t (rejects _) h = h
Move-Shut calls s t (subscribes _ _ _ _ _) h = h

module _ (to_error : Thrown → Error) (show : Value → String) where
  -- Whatever happens to a socket after `setup`, no message and no second close comes after the
  -- server has closed it.
  pub run-ends_with_close :
      (protocol : String) (events : List Event)
      → ends_with_close (run to_error show events (setup protocol)).log ≡ true
  run-ends_with_close protocol events =
      (Steps-keep Closing Move-Closing (run-Moves to_error show events (setup protocol))
        (setup-Closing protocol)).ordered

  -- A socket that is not open is not opened again by any events, and `send` and `close` are not
  -- called on it any more.
  pub run_shut :
      (events : List Event) (s : ServerSocket)
      → s.is_open ≡ false
      → ((run to_error show events s).is_open ≡ false)
        × (frames (run to_error show events s).log ≡ frames s.log)
  run_shut events s shut =
      Steps-keep (Shut (frames s.log)) (Move-Shut (frames s.log)) (run-Moves to_error show events s)
        (shut, refl)
