-- ===== src/Ws/ServerSocket/Gate.antt =====
-- Access to the subscriptions of a GraphQLServerWebSocket: only by way of its `acknowledge`.
use graphqlade.Common.{
  Steps-keep, ℕ, suc, ◌≤◌, String, ◌≡◌, refl, Bool, false, List, [], ◌∷◌, Value, Thrown, Error,
  arith, All, if_split,
}
use graphqlade.Ws.ServerSocket.{run}
use graphqlade.Ws.ServerSocket.State.{
  Deferred, resolved, rejected, Effect, sent, closed, logged, calls_acknowledge, calls_subscribe,
  calls_return, ServerSocket, Event, settle_with, setup, close, is_supported,
}
use graphqlade.Ws.ServerSocket.Protocol.{
  Move, schedules, forgets, shuts, closes, logs, begins, confirms, accepts, rejects, subscribes,
  turns, streams, finishes, stops, stops_iterator,
}
use graphqlade.Ws.ServerSocket.Refinement.{run-Moves}

-- How often `acknowledge` was called.
abbrev pub requests : List Effect → ℕ
requests [] = 0
requests (calls_acknowledge payload ∷ log) = suc (requests log)
requests (_ ∷ log) = requests log

-- `subscribe` is called with the payload that the promise of the initialisation holds.
abbrev pub IsAdmitted : Deferred → Effect → Type 0
IsAdmitted d (calls_subscribe number id payload init) = d ≡ resolved init
IsAdmitted d _ = Unit

pub record IsGated (initialized : Bool) (payload : Deferred) (log : List Effect) : Type 0 where
  pub unasked : initialized ≡ false → requests log ≡ 0
  pub asked_once : requests log ≤ 1
  pub admitted : All (IsAdmitted payload) log

module _ (new : Deferred) where
  settle-IsAdmitted :
      (d : Deferred) (e : Effect) → IsAdmitted d e → IsAdmitted (settle_with d new) e
  settle-IsAdmitted d (calls_subscribe number id payload init) h = rw h refl
  settle-IsAdmitted d (sent _ _) h = tt
  settle-IsAdmitted d (closed _ _) h = tt
  settle-IsAdmitted d (logged _) h = tt
  settle-IsAdmitted d (calls_acknowledge _) h = tt
  settle-IsAdmitted d (calls_return _) h = tt

  settle-All :
      (d : Deferred) (log : List Effect)
      → All (IsAdmitted d) log
      → All (IsAdmitted (settle_with d new)) log
  settle-All d [] h = tt
  settle-All d (e ∷ log) (p, h) = (settle-IsAdmitted d e p, settle-All d log h)

  settle-IsGated :
      {initialized : Bool} {d : Deferred} {log : List Effect}
      → IsGated initialized d log
      → IsGated initialized (settle_with d new) log
  settle-IsGated {d = d} {log = log} g = record {
    unasked = g.unasked;
    asked_once = g.asked_once;
    admitted = settle-All d log g.admitted;
  }

abbrev pub Gated : ServerSocket → Type 0
Gated s = IsGated s.initialized s.init_payload s.log

Move-Gated : (s t : ServerSocket) → Move s t → Gated s → Gated t
Move-Gated s t (schedules _ _ _ _) g = g
Move-Gated s t (forgets _) g = g
Move-Gated s t (shuts) g = g
Move-Gated s t (turns _ _ _ _ _) g = g
Move-Gated s t (stops _ _ _ _ _ _) g = g
Move-Gated s t (closes _ _ _) g = record {
  unasked = g.unasked;
  asked_once = g.asked_once;
  admitted = (tt, g.admitted);
}
Move-Gated s t (logs _) g = record {
  unasked = g.unasked;
  asked_once = g.asked_once;
  admitted = (tt, g.admitted);
}
Move-Gated s t (confirms _ _) g = record {
  unasked = g.unasked;
  asked_once = g.asked_once;
  admitted = (tt, g.admitted);
}
Move-Gated s t (streams _ _ _ _ _ _) g = record {
  unasked = g.unasked;
  asked_once = g.asked_once;
  admitted = (tt, g.admitted);
}
Move-Gated s t (finishes _ _ _ _ _ _ _ _) g = record {
  unasked = g.unasked;
  asked_once = g.asked_once;
  admitted = (tt, g.admitted);
}
Move-Gated s t (stops_iterator _) g = record {
  unasked = g.unasked;
  asked_once = g.asked_once;
  admitted = (tt, g.admitted);
}
Move-Gated s t (begins payload first) g = record {
  unasked = λ again. cc;
  asked_once = omega (arith, g.unasked first);
  admitted = (tt, g.admitted);
}
Move-Gated s t (accepts payload) g = settle-IsGated (resolved payload) g
Move-Gated s t (rejects reason) g = settle-IsGated (rejected reason) g
Move-Gated s t (subscribes id payload init accepted _) g = record {
  unasked = g.unasked;
  asked_once = g.asked_once;
  admitted = (accepted, g.admitted);
}

setup-Gated : (protocol : String) → Gated (setup protocol)
unfolding setup close
setup-Gated protocol =
    if_split Gated (is_supported protocol)
      (λ _. record { unasked = λ _. refl; asked_once = omega arith; admitted = tt })
      (λ _. record { unasked = λ _. refl; asked_once = omega arith; admitted = (tt, tt) })

module _ (to_error : Thrown → Error) (show : Value → String) where
  -- Whatever happens to a socket after `setup`, it calls `acknowledge` at most once, and each call
  -- of `subscribe` gets the payload with which the promise of the initialisation was resolved.
  pub run-Gated :
      (protocol : String) (events : List Event) → Gated (run to_error show events (setup protocol))
  run-Gated protocol events =
      Steps-keep Gated Move-Gated (run-Moves to_error show events (setup protocol))
        (setup-Gated protocol)
