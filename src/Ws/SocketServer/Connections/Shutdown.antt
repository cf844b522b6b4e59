-- ===== src/Ws/SocketServer/Connections/Shutdown.antt =====
-- What `close` of a GraphQLWebSocketServer reaches.
use graphqlade.Common.{
  ℕ, ℤ, pos, String, ◌≡◌, refl, sym, ap, ◌∙◌, subst, Bool, true, false, Option, none, some, List,
  [], ◌∷◌, if_split, Bool-cases, Option-cases, inl, inr, Value, Error, Thrown, nat_eq,
  nat_equal_iff, ◌===◌, All,
}
use graphqlade.Common.Map
use graphqlade.Common.Map.{Map}
use graphqlade.Ws.ServerSocket.State
use graphqlade.Ws.ServerSocket.State.{
  ServerSocket, Event, message_event, close_event, error_event, init_timeout, setup, is_supported,
}
use graphqlade.Ws.ServerSocket.Steps.{step}
use graphqlade.Ws.SocketServer.Connections.{
  or_default, SocketServer, start, Action, connects, receives, shuts_down, handle_connection,
  tracked_after, close_one, close_each, close, receive, act, run,
}
use graphqlade.Ws.SocketServer.Connections.Listening.{
  setup-Listens, contains, contains-append, contains-append_left, contains-forget, is_live,
  is_open_at, AllListen, step-Listens, step-was_open, step-close,
}

-- No event but an error makes the server forget an open socket.
abbrev pub is_calm : Action → Bool
is_calm (receives n (error_event _)) = false
is_calm _ = true

-- The socket numbered `n` is tracked while it is open.
record IsTracked (n : ℕ) (found : Option ServerSocket) (tracked : List ℕ) : Type 0 where
  kept : is_live found ≡ true → contains n tracked ≡ true
  listening : AllListen found

abbrev Tracked : ℕ → SocketServer → Type 0
Tracked n s = IsTracked n (Map.get n s.sockets) s.graphql_sockets

handle_connection-Tracked :
    (n : ℕ) (protocol : String) (s : SocketServer)
    → Tracked n s
    → Tracked n (handle_connection protocol s)
handle_connection-Tracked n protocol s h = elim (Bool-cases (s.next_socket === n)) [
  | inl same ↦
      subst (λ k. Tracked k (handle_connection protocol s)) ((nat_equal_iff s.next_socket n).0 same)
        (rw (Map.get-set_self s.next_socket (setup protocol) s.sockets) (record {
          kept = λ _. contains-append s.next_socket s.graphql_sockets;
          listening = setup-Listens protocol;
        }))
  | inr other ↦ rw (Map.get-set_other s.next_socket n (setup protocol) s.sockets other) (record {
    kept = λ live. contains-append_left n s.next_socket s.graphql_sockets (h.kept live);
    listening = h.listening;
  })
]

module _ (to_error : Thrown → Error) (show : Value → String) where
  tracked_self :
      (n : ℕ) (e : Event) (s : ServerSocket) (ns : List ℕ)
      → is_calm (receives n e) ≡ true
      → IsTracked n (some s) ns
      → (step to_error show e s).is_open ≡ true
      → contains n (tracked_after e n ns) ≡ true
  tracked_self n (close_event code reason) s ns calm h live =
      cc (step-close to_error show code reason s h.listening, live)
  tracked_self n (error_event t) s ns calm h live = cc
  tracked_self n e s ns calm h live = h.kept (step-was_open to_error show e s live)

  tracked_other :
      (n k : ℕ) (e : Event) (ns : List ℕ)
      → (k === n) ≡ false
      → contains n ns ≡ true
      → contains n (tracked_after e k ns) ≡ true
  tracked_other n k (close_event _ _) ns other h = contains-forget n k ns other h
  tracked_other n k (error_event _) ns other h = contains-forget n k ns other h
  tracked_other n k e ns other h = h

  receive-Tracked :
      (n k : ℕ) (e : Event) (socket : ServerSocket) (s : SocketServer)
      → is_calm (receives k e) ≡ true
      → Map.get k s.sockets ≡ some socket
      → Tracked n s
      → Tracked n (receive to_error show k e (some socket) s)
  receive-Tracked n k e socket s calm found h = elim (Bool-cases (k === n)) [
    | inl same ↦
        subst (λ j. Tracked j s → Tracked j (receive to_error show k e (some socket) s))
          ((nat_equal_iff k n).0 same)
          (λ g.
            rw (Map.get-set_self k (step to_error show e socket) s.sockets)
              (here (subst (λ o. IsTracked k o s.graphql_sockets) found g)))
          h
    | inr other ↦ rw (Map.get-set_other k n (step to_error show e socket) s.sockets other) (record {
      kept = λ live. tracked_other n k e s.graphql_sockets other (h.kept live);
      listening = h.listening;
    })
  ]
    where
      here :
          IsTracked k (some socket) s.graphql_sockets
          → IsTracked k (some (step to_error show e socket)) (tracked_after e k s.graphql_sockets)
      here g = record {
        kept = tracked_self k e socket s.graphql_sockets calm g;
        listening = step-Listens to_error show e socket g.listening;
      }

module _ (code : ℤ) (reason : String) where
  abbrev shut : Option ServerSocket → Option ServerSocket
  shut none = none
  shut (some s) = some (State.close code reason s)

  close-shuts : (s : ServerSocket) → (State.close code reason s).is_open ≡ false
  unfolding State.close
  close-shuts s =
      if_split (λ (t : ServerSocket). t.is_open ≡ false) s.is_open (λ _. refl) (λ down. down)

  shut-Listens : (found : Option ServerSocket) → AllListen (shut found)
  shut-Listens none = tt
  shut-Listens (some s) = λ live. cc (close-shuts s, live)

  is_live-shut : (found : Option ServerSocket) → is_live (shut found) ≡ false
  is_live-shut none = refl
  is_live-shut (some s) = close-shuts s

  get-close_one_self :
      (n : ℕ) (m : Map ℕ ServerSocket) → Map.get n (close_one code reason n m) ≡ shut (Map.get n m)
  get-close_one_self n m = elim (Option-cases (Map.get n m)) [
    | inl absent ↦ rw (absent, close_one) absent
    | inr (s, found) ↦ rw (found, close_one) (Map.get-set_self n (State.close code reason s) m)
  ]

  get-close_one_other :
      (n k : ℕ) (m : Map ℕ ServerSocket)
      → (k === n) ≡ false
      → Map.get n (close_one code reason k m) ≡ Map.get n m
  get-close_one_other n k m other = elim (Option-cases (Map.get k m)) [
    | inl absent ↦ rw (absent, close_one) refl
    | inr (s, found) ↦
        rw (found, close_one) (Map.get-set_other k n (State.close code reason s) m other)
  ]

  -- A socket after the loop is as before it, if it was not in the list, and else shut.
  close_each_self :
      (n : ℕ) (ns : List ℕ) (m : Map ℕ ServerSocket)
      → AllListen (Map.get n m)
      → AllListen (Map.get n (close_each code reason ns m))
        × (is_live (Map.get n (close_each code reason ns m)) ≡ true
            → (contains n ns ≡ false) × (is_live (Map.get n m) ≡ true))
  close_each_self n [] m h = (h, λ live. (refl, live))
  close_each_self n (k ∷ ns) m h = elim (Bool-cases (k === n)) [
    | inl same ↦
        let closed =
          subst (λ j. Map.get j (close_one code reason k m) ≡ shut (Map.get j m))
            ((nat_equal_iff k n).0 same) (get-close_one_self k m) in
        let (listening, only) =
          close_each_self n ns (close_one code reason k m)
            (subst AllListen (sym closed) (shut-Listens (Map.get n m))) in
        (listening, λ live. cc (ap is_live closed, is_live-shut (Map.get n m), (only live).1))
    | inr other ↦
        let kept = get-close_one_other n k m other in
        let (listening, only) =
          close_each_self n ns (close_one code reason k m) (subst AllListen (sym kept) h) in
        (listening, λ live. (rw other (only live).0, ap is_live (sym kept) ∙ (only live).1))
  ]

close-shuts_all :
    (n : ℕ) (code : Option ℤ) (reason : Option String) (s : SocketServer)
    → Tracked n s
    → (is_open_at n (close code reason s) ≡ false) × Tracked n (close code reason s)
unfolding close
close-shuts_all n code reason s h =
    (down, record { kept = λ live. cc (live, down); listening = loop.0 })
  where
    loop :
        AllListen (Map.get n (close code reason s).sockets)
        × (is_open_at n (close code reason s) ≡ true
            → (contains n s.graphql_sockets ≡ false) × (is_live (Map.get n s.sockets) ≡ true))
    loop =
        close_each_self (or_default code (pos 1000)) (or_default reason "Normal Closure") n
          s.graphql_sockets s.sockets h.listening

    down : is_open_at n (close code reason s) ≡ false
    down = elim (Bool-cases (is_open_at n (close code reason s))) [
      | inl live ↦ cc (h.kept (loop.1 live).1, (loop.1 live).0)
      | inr shut ↦ shut
    ]

module _ (to_error : Thrown → Error) (show : Value → String) where
  act-Tracked :
      (n : ℕ) (a : Action) (s : SocketServer)
      → is_calm a ≡ true
      → Tracked n s
      → Tracked n (act to_error show a s)
  unfolding act
  act-Tracked n (connects protocol) s calm h = handle_connection-Tracked n protocol s h
  act-Tracked n (shuts_down code reason) s calm h = (close-shuts_all n code reason s h).1
  act-Tracked n (receives k e) s calm h = elim (Option-cases (Map.get k s.sockets)) [
    | inl absent ↦ rw (absent, act) h
    | inr (socket, found) ↦
        rw (found, act) (receive-Tracked to_error show n k e socket s calm found h)
  ]

  run-Tracked :
      (n : ℕ) (actions : List Action) (s : SocketServer)
      → All (λ a. is_calm a ≡ true) actions
      → Tracked n s
      → Tracked n (run to_error show actions s)
  unfolding run
  run-Tracked n [] s calm h = h
  run-Tracked n (a ∷ actions) s (quiet, calm) h =
      run-Tracked n actions (act to_error show a s) calm (act-Tracked n a s quiet h)

  start-Tracked : (n : ℕ) → Tracked n start
  unfolding Map.get
  start-Tracked n = record { kept = λ live. cc; listening = tt }

  -- After any connections, events other than errors and closings of the server, closing the server
  -- leaves none of the sockets that were ever connected open.
  pub close-run :
      (n : ℕ) (actions : List Action) (code : Option ℤ) (reason : Option String)
      → All (λ a. is_calm a ≡ true) actions
      → is_open_at n (close code reason (run to_error show actions start)) ≡ false
  close-run n actions code reason calm =
      (close-shuts_all n code reason _ (run-Tracked n actions start calm (start-Tracked n))).0
