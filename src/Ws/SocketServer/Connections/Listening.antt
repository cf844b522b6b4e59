-- ===== src/Ws/SocketServer/Connections/Listening.antt =====
-- Open sockets have their listeners, do not reopen, and are found in the list of sockets.
use graphqlade.Common.{
  Steps-keep, ℕ, ℤ, String, ◌≡◌, refl, Bool, true, false, ◌||◌, Option, none, some, List, [], ◌∷◌,
  ◌++◌, if_split, Bool-cases, inl, inr, Value, Error, Thrown, nat_eq, nat_equal_iff, ◌===◌, arith,
}
use graphqlade.Common.Map
use graphqlade.Common.Map.{Map}
use graphqlade.Ws.ServerSocket
use graphqlade.Ws.ServerSocket.State
use graphqlade.Ws.ServerSocket.State.{
  ServerSocket, Event, message_event, close_event, error_event, init_timeout, setup, is_supported,
}
use graphqlade.Ws.ServerSocket.Handlers.{handle_end}
use graphqlade.Ws.ServerSocket.Steps.{step, handle}
use graphqlade.Ws.ServerSocket.Protocol.{
  Move, schedules, forgets, shuts, closes, logs, begins, confirms, accepts, rejects, subscribes,
  turns, streams, finishes, stops, stops_iterator,
}
use graphqlade.Ws.ServerSocket.Refinement.{step-Moves}
use graphqlade.Ws.ServerSocket.Closing.{run_shut}
use graphqlade.Ws.SocketServer.Connections.{SocketServer, forget}

-- An open socket has its listeners.
abbrev pub Listens : ServerSocket → Type 0
Listens s = s.is_open ≡ true → s.listens ≡ true

Move-Listens : (s t : ServerSocket) → Move s t → Listens s → Listens t
Move-Listens s t (shuts) h = λ live. cc
Move-Listens s t (closes _ _ _) h = λ live. cc
Move-Listens s t (schedules _ _ _ _) h = h
Move-Listens s t (forgets _) h = h
Move-Listens s t (logs _) h = h
Move-Listens s t (begins _ _) h = h
Move-Listens s t (confirms _ _) h = h
Move-Listens s t (accepts _) h = h
Move-Listens s t (rejects _) h = h
Move-Listens s t (subscribes _ _ _ _ _) h = h
Move-Listens s t (turns _ _ _ _ _) h = h
Move-Listens s t (streams _ _ _ _ _ _) h = h
Move-Listens s t (finishes _ _ _ _ _ _ _ _) h = h
Move-Listens s t (stops _ _ _ _ _ _) h = h
Move-Listens s t (stops_iterator _) h = h

pub setup-Listens : (protocol : String) → Listens (setup protocol)
unfolding setup State.close
setup-Listens protocol = if_split Listens (is_supported protocol) (λ _ _. refl) (λ _ live. cc)

abbrev pub contains : ℕ → List ℕ → Bool
contains n [] = false
contains n (k ∷ ks) = k === n || contains n ks

pub contains-append : (n : ℕ) (ns : List ℕ) → contains n (ns ++ n ∷ []) ≡ true
contains-append n [] = ground (arith, nat_equal_iff n n)
contains-append n (k ∷ ks) = ground (arith, contains-append n ks)

pub contains-append_left :
    (n k : ℕ) (ns : List ℕ) → contains n ns ≡ true → contains n (ns ++ k ∷ []) ≡ true
contains-append_left n k [] h = cc
contains-append_left n k (j ∷ ns) h = ground (arith, contains-append_left n k ns)

pub contains-forget :
    (n k : ℕ) (ns : List ℕ)
    → (k === n) ≡ false
    → contains n ns ≡ true
    → contains n (forget k ns) ≡ true
contains-forget n k [] other h = h
contains-forget n k (j ∷ ns) other h =
    ground
      (arith, contains-forget n k ns other, nat_equal_iff j k, nat_equal_iff j n, nat_equal_iff k n)

-- The socket is open.
abbrev pub is_live : Option ServerSocket → Bool
is_live none = false
is_live (some s) = s.is_open

abbrev pub is_open_at : ℕ → SocketServer → Bool
is_open_at n s = is_live (Map.get n s.sockets)

abbrev pub AllListen : Option ServerSocket → Type 0
AllListen none = Unit
AllListen (some s) = Listens s

module _ (to_error : Thrown → Error) (show : Value → String) where
  pub step-Listens : (e : Event) (s : ServerSocket) → Listens s → Listens (step to_error show e s)
  step-Listens e s h = Steps-keep Listens Move-Listens (step-Moves to_error show e s) h

  step-stays_shut :
      (e : Event) (s : ServerSocket) → s.is_open ≡ false → (step to_error show e s).is_open ≡ false
  unfolding ServerSocket.run
  step-stays_shut e s shut = (run_shut to_error show (e ∷ []) s shut).0

  pub step-was_open :
      (e : Event) (s : ServerSocket) → (step to_error show e s).is_open ≡ true → s.is_open ≡ true
  step-was_open e s live = elim (Bool-cases s.is_open) [
    | inl up ↦ up
    | inr shut ↦ cc (step-stays_shut e s shut, live)
  ]

  pub step-close :
      (code : ℤ) (reason : String) (s : ServerSocket)
      → Listens s
      → (step to_error show (close_event code reason) s).is_open ≡ false
  unfolding step handle handle_end
  step-close code reason s h = elim (Bool-cases s.listens) [
    | inl up ↦ rw (up, step) refl
    | inr deaf ↦ elim (Bool-cases s.is_open) [
      | inl live ↦ cc (h live, deaf)
      | inr shut ↦ rw (deaf, step) shut
    ]
  ]
