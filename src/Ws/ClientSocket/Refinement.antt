-- ===== src/Ws/ClientSocket/Refinement.antt =====
-- Every event of a GraphQLClientWebSocket is handled by moves of its protocol.
use graphqlade.Common.{
  ℕ, zero, suc, ◌<◌, ltb, ltb→lt, ℤ, String, ◌≡◌, refl, true, false, Option, none, some, List, [],
  ◌∷◌, ◌++◌, if◌then◌else◌, if_split, Option-cases, inl, inr, ◌⊎◌, Value, Fields, Thrown, error,
  Error, ErrorClass, Result, ok, thrown, arith, stays, moves, single, Steps-trans, string_eq,
  nat_eq,
}
use graphqlade.Common.Map
use graphqlade.Common.Map.{Map}
use graphqlade.Util.Guards.{is_record}
use graphqlade.Util.PushIterator
use graphqlade.Util.PushIterator.{Action, aborts, setup_returns, setup_throws}
use graphqlade.Ws.Messages.{ClientMessage, ServerMessage, connection_ack, next}
use graphqlade.Ws.ClientParsers.{parse_message}
use graphqlade.Ws.ServerSocket.State.{Deferred, unsettled, resolved, rejected}
use graphqlade.Ws.ServerSocket.Handlers.{is_scheduled}
use graphqlade.Ws.ClientSocket.{run}
use graphqlade.Ws.ClientSocket.State.{
  expire_later, Stream, Ready, connecting, opened, closed, ClientSocket, Event, inits, opens,
  subscribes, shuts, message_event, close_event, error_event, ack_timeout, lost_timeout,
  setup_continues, uses, expires, is_open, is_open_or_connecting, is_raised, send, clear_timer,
  close, close_by_class, close_by_error, set_stream, teardown, act, act_at,
}
use graphqlade.Ws.ClientSocket.Steps.{
  init, send_inits, open_socket, with_subscription, handle_message, throw_all, handle_end,
  awaits_ack, register, acknowledged, continue_setup, dispatch, handle_message_event, lost_timeouts,
  expire, step,
}
use graphqlade.Ws.ClientSocket.Protocol.{
  IsControl, greets, completes, enrol, Move, waits, opens_up, shuts_down, closes_down, settles,
  controls, adds, enrols, runs, retires, forgets, Moves,
}

module _ (to_string : ℕ → String) where
  clear_timer-Move : (s : ClientSocket) → Move to_string s (clear_timer s)
  clear_timer-Move s = waits false s.lost_timers s.opening

  send-Moves : (m : ClientMessage) (s : ClientSocket) → IsControl m → Moves to_string s (send m s)
  unfolding send
  send-Moves m s control =
      if_split (Moves to_string s) (is_open s.ready) (λ live. single (controls m control live))
        (λ _. stays)

  close-Moves :
      (code : ℤ) (reason : String) (s : ClientSocket) → Moves to_string s (close code reason s)
  unfolding close
  close-Moves code reason s = Steps-trans (single (clear_timer-Move s)) (
      if_split (Moves to_string (clear_timer s)) (is_open_or_connecting s.ready)
        (λ live. single (closes_down code reason live)) (λ _. stays))

  close_by_class-Moves :
      (c : ErrorClass) (message : String) (s : ClientSocket)
      → Moves to_string s (close_by_class c message s)
  close_by_class-Moves ErrorClass.type_error message s = close-Moves _ _ s
  close_by_class-Moves ErrorClass.plain message s = close-Moves _ _ s
  close_by_class-Moves _ message s = close-Moves _ _ s

  close_by_error-Moves : (e : Error) (s : ClientSocket) → Moves to_string s (close_by_error e s)
  unfolding close_by_error
  close_by_error-Moves e s = elim (Option-cases e.code) [
    | inl plain ↦ rw (plain, close_by_error) (close_by_class-Moves e.class e.message s)
    | inr (code, coded) ↦ rw (coded, close_by_error) (close-Moves code e.message s)
  ]

  teardown-Moves :
      (n : ℕ) (stream : Stream) (s : ClientSocket)
      → Map.get n s.streams ≡ some stream
      → 0 < stream.it.torn
      → Moves to_string s (teardown stream.id s)
  unfolding teardown send
  teardown-Moves n stream s here torn = elim (Option-cases stream.id) [
    | inl none_yet ↦ rw (none_yet, teardown) stays
    | inr (id, named) ↦
        rw (named, teardown)
          (if_split (λ t. Moves to_string s (expire_later id t)) (is_open s.ready)
            (λ live.
              moves (single (controls (ClientMessage.complete id) (completes id) live))
                (retires n stream id here named torn))
            (λ _. single (retires n stream id here named torn)))
  ]

  act-Moves :
      (action : Action Value Thrown) (n : ℕ) (stream : Stream) (s : ClientSocket)
      → Map.get n s.streams ≡ some stream
      → Moves to_string s (act action n stream s)
  unfolding act
  act-Moves action n stream s here =
      let w = PushIterator.step is_raised action stream.it in
      let stream' : Stream = record stream { it = w } in
      let s' = set_stream n stream' s in
      Steps-trans (single (runs n stream action here)) (
        if_split (Moves to_string s') (ltb stream.it.torn w.torn)
          (λ torn.
            teardown-Moves n stream' s' (Map.get-set_self n stream' s.streams)
              (omega (arith, ltb→lt stream.it.torn w.torn torn)))
          (λ _. stays))

  pub act_at-Moves :
      (action : Action Value Thrown) (n : ℕ) (s : ClientSocket)
      → Moves to_string s (act_at action n s)
  unfolding act_at
  act_at-Moves action n s = elim (Option-cases (Map.get n s.streams)) [
    | inl absent ↦ rw (absent, act_at) stays
    | inr (stream, here) ↦ rw (here, act_at) (act-Moves action n stream s here)
  ]

  init-Moves : (payload : Value) (s : ClientSocket) → Moves to_string s (init payload s)
  unfolding init
  init-Moves payload s =
      let lost = if s.timer then suc s.lost_timers else s.lost_timers in
      if_split (Moves to_string s) (is_open s.ready)
        (λ live. Steps-trans (single (waits true lost s.opening)) (send-Moves _ _ (greets payload)))
        (λ _. single (waits true lost (s.opening ++ payload ∷ [])))

  send_inits-Moves :
      (payloads : List Value) (s : ClientSocket) → Moves to_string s (send_inits payloads s)
  unfolding send_inits
  send_inits-Moves [] s = stays
  send_inits-Moves (payload ∷ payloads) s =
      Steps-trans (send-Moves _ s (greets payload)) (send_inits-Moves payloads _)

  open_socket-Moves :
      (ready : Ready) (s : ClientSocket) → s.ready ≡ ready → Moves to_string s (open_socket ready s)
  unfolding open_socket
  open_socket-Moves connecting s e =
      Steps-trans (single (opens_up e)) (send_inits-Moves s.opening (record s { ready = opened }))
  open_socket-Moves _ s e = stays

  with_subscription-Moves :
      (id : String) (action : Action Value Thrown) (s : ClientSocket)
      → Moves to_string s (with_subscription id action s)
  unfolding with_subscription
  with_subscription-Moves id action s = elim (Option-cases (Map.get id s.subscriptions)) [
    | inl missing ↦ rw (missing, with_subscription) (close_by_error-Moves _ s)
    | inr (n, found) ↦ rw (found, with_subscription) (act_at-Moves action n s)
  ]

  handle_message-Moves :
      (m : ServerMessage) (s : ClientSocket) → Moves to_string s (handle_message m s)
  unfolding handle_message
  handle_message-Moves (connection_ack payload) s =
      moves (single (clear_timer-Move s)) (settles (resolved payload))
  handle_message-Moves (next id payload) s = with_subscription-Moves id _ s
  handle_message-Moves (ServerMessage.error id errors) s = with_subscription-Moves id _ s
  handle_message-Moves (ServerMessage.complete id) s = with_subscription-Moves id _ s

  pub throw_all-Moves :
      (t : Thrown) (m : Map String ℕ) (s : ClientSocket) → Moves to_string s (throw_all t m s)
  unfolding throw_all
  throw_all-Moves t [] s = stays
  throw_all-Moves t ((id, n) ∷ m) s =
      Steps-trans (act_at-Moves (aborts t) n s) (throw_all-Moves t m _)

  handle_end-Moves : (e : Error) (s : ClientSocket) → Moves to_string s (handle_end e s)
  unfolding handle_end
  handle_end-Moves e s =
      Steps-trans (moves (single (clear_timer-Move s)) (settles (rejected (error e))))
        (throw_all-Moves (error e) s.subscriptions _)

  expire-Moves : (id : String) (s : ClientSocket) → Moves to_string s (expire id s)
  unfolding expire
  expire-Moves id s =
      if_split (Moves to_string s) (is_scheduled id s.expiring) (λ due. single (forgets id due))
        (λ _. stays)

  get-enrol :
      (n : ℕ) (stream : Stream) (s : ClientSocket)
      → Map.get n (enrol to_string n stream s).streams
        ≡ some (record stream { id = some (to_string s.next_subscription_id) })
  unfolding send
  get-enrol n stream s =
      if_split
        (λ (t : ClientSocket).
          Map.get n t.streams
          ≡ some (record stream { id = some (to_string s.next_subscription_id) }))
        (is_open s.ready) (λ _. Map.get-set_self n _ s.streams)
        (λ _. Map.get-set_self n _ s.streams)

  register-Moves :
      (n : ℕ) (stream : Stream) (payload : Value) (s : ClientSocket)
      → s.ack ≡ resolved payload
      → Map.get n s.streams ≡ some stream
      → awaits_ack stream ≡ true
      → Moves to_string s (register to_string n stream s)
  unfolding register
  register-Moves n stream payload s e here waiting =
      let stream' : Stream = record stream { id = some (to_string s.next_subscription_id) } in
      Steps-trans (single (enrols n stream payload here waiting e)) (
        act-Moves (setup_returns 0 (some none)) n stream' (enrol to_string n stream s)
          (get-enrol n stream s))

  acknowledged-Moves :
      (d : Deferred) (n : ℕ) (stream : Stream) (s : ClientSocket)
      → s.ack ≡ d
      → Map.get n s.streams ≡ some stream
      → awaits_ack stream ≡ true
      → Moves to_string s (acknowledged to_string d n stream s)
  unfolding acknowledged
  acknowledged-Moves unsettled n stream s e here waiting = stays
  acknowledged-Moves (resolved payload) n stream s e here waiting =
      register-Moves n stream payload s e here waiting
  acknowledged-Moves (rejected t) n stream s e here waiting =
      act-Moves (setup_throws 0 t) n stream s here

  continue_setup-Moves :
      (n : ℕ) (found : Option Stream) (s : ClientSocket)
      → Map.get n s.streams ≡ found
      → Moves to_string s (continue_setup to_string n found s)
  unfolding continue_setup
  continue_setup-Moves n none s here = stays
  continue_setup-Moves n (some stream) s here =
      if_split (Moves to_string s) (awaits_ack stream)
        (λ waiting. acknowledged-Moves s.ack n stream s refl here waiting) (λ _. stays)

  lost_timeouts-Moves : (k : ℕ) (s : ClientSocket) → Moves to_string s (lost_timeouts k s)
  lost_timeouts-Moves zero s = stays
  lost_timeouts-Moves (suc k) s =
      Steps-trans (single (waits s.timer k s.opening))
        (close-Moves _ _ (record s { lost_timers = k }))

module _ (to_error : Thrown → Error) (show : Value → String) (to_string : ℕ → String) where
  dispatch-Moves :
      (fields : Fields) (parsed : Option (Result ServerMessage)) (s : ClientSocket)
      → Moves to_string s (dispatch to_error show fields parsed s)
  unfolding dispatch
  dispatch-Moves fields none s = close-Moves to_string _ _ s
  dispatch-Moves fields (some (ok message)) s = handle_message-Moves to_string message s
  dispatch-Moves fields (some (thrown t)) s = close_by_error-Moves to_string _ s

  handle_message_event-Moves :
      (parsed : Error ⊎ Value) (s : ClientSocket)
      → Moves to_string s (handle_message_event to_error show parsed s)
  unfolding handle_message_event
  handle_message_event-Moves (inl syntax_error) s = close_by_error-Moves to_string _ s
  handle_message_event-Moves (inr v) s = elim (Option-cases (is_record v)) [
    | inl other ↦ rw (other, handle_message_event) (close_by_error-Moves to_string _ s)
    | inr (fields, found) ↦
        rw (found, handle_message_event) (dispatch-Moves fields (parse_message fields) s)
  ]

  -- Whatever the state and the event, the code's step is a sequence of moves of the client's
  -- protocol.
  pub step_client-Moves :
      (e : Event) (s : ClientSocket) → Moves to_string s (step to_error show to_string e s)
  unfolding step
  step_client-Moves (inits payload) s = init-Moves to_string payload s
  step_client-Moves opens s = open_socket-Moves to_string s.ready s refl
  step_client-Moves (subscribes payload) s = single (adds payload)
  step_client-Moves (shuts code reason) s = close-Moves to_string code reason s
  step_client-Moves (message_event parsed) s = handle_message_event-Moves parsed s
  step_client-Moves (close_event code reason) s =
      Steps-trans (single shuts_down) (handle_end-Moves to_string _ (record s { ready = closed }))
  step_client-Moves error_event s = handle_end-Moves to_string _ s
  step_client-Moves ack_timeout s =
      if_split (Moves to_string s) s.timer (λ _. close-Moves to_string _ _ s) (λ _. stays)
  step_client-Moves lost_timeout s = lost_timeouts-Moves to_string s.lost_timers s
  step_client-Moves (setup_continues n) s = continue_setup-Moves to_string n _ s refl
  step_client-Moves (uses n how) s = act_at-Moves to_string _ n s
  step_client-Moves (expires id) s = expire-Moves to_string id s

  pub run_client-Moves :
      (events : List Event) (s : ClientSocket)
      → Moves to_string s (run to_error show to_string events s)
  unfolding run
  run_client-Moves [] s = stays
  run_client-Moves (e ∷ events) s = Steps-trans (step_client-Moves e s) (run_client-Moves events _)
