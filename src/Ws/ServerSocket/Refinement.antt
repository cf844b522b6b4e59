-- ===== src/Ws/ServerSocket/Refinement.antt =====
-- Every event of a GraphQLServerWebSocket is handled by moves of the protocol.
use graphqlade.Common.{
  stays, moves, Steps-trans, single, ℕ, String, ◌≡◌, refl, sym, false, Option, none, some, List, [],
  ◌∷◌, if_split, Option-cases, inl, inr, ◌⊎◌, Value, Fields, Thrown, Error, Result, ok, thrown,
  string_eq, nat_eq, subst,
}
use graphqlade.Common.Map
use graphqlade.Util.Guards.{is_record}
use graphqlade.Ws.Messages.{ClientMessage, ServerMessage}
use graphqlade.Ws.ServerParsers.{parse_message}
use graphqlade.Ws.ServerSocket.State.{
  Deferred, unsettled, resolved, rejected, Progress, pending, iterating, exhausted, one_shot,
  failed, Subscription, Task, acknowledging, subscribing, completing, returning, closing,
  ServerSocket, Event, message_event, close_event, error_event, init_timeout, acknowledge_returns,
  acknowledge_throws, continues, subscribe_iterates, subscribe_answers, subscribe_throws, yields,
  ends, iteration_throws, expires, send,
}
use graphqlade.Ws.ServerSocket.Handlers.{
  leave, clear_timer, start_subscription, require_subscription, unvisited, progress_of,
  set_progress, expire_later,
}
use graphqlade.Ws.ServerSocket.Steps.{
  if_pending, if_iterating, waiting, running, dispatch, handle_message_event, after_ack,
  after_subscription, visit, close_round, continue, unauthorized, reject_init, after_acknowledge,
  answer_once, subscribe_settles, pump, handle, step,
}
use graphqlade.Ws.ServerSocket.{run}
use graphqlade.Ws.ServerSocket.Protocol.{
  IsFinal, completes, errs, Ends, exhausts, answers, Turns, iterates, fails, Move, schedules, shuts,
  logs, rejects, turns, streams, finishes, stops, Moves,
}
use graphqlade.Ws.ServerSocket.HandlerMoves.{
  close-Moves, close_by_error-Moves, leave-Move, clear_timer-Move, handle_message-Moves,
  acknowledge-Moves, start_subscription-Moves, require_subscription-Moves, expire-Moves,
  call_return-Moves, handle_end-Moves,
}

module _ (P : Option Subscription → Type 0) (absent : P none) where
  if_pending_split :
      (p : Progress) (sub : Subscription) → (p ≡ pending → P (some sub)) → P (if_pending p sub)
  if_pending_split pending sub here = here refl
  if_pending_split _ sub here = absent

  if_iterating_split :
      (p : Progress) (sub : Subscription) → (p ≡ iterating → P (some sub)) → P (if_iterating p sub)
  if_iterating_split iterating sub here = here refl
  if_iterating_split _ sub here = absent

  waiting_split :
      (found : Option Subscription)
      → ((sub : Subscription) → found ≡ some sub → sub.progress ≡ pending → P (some sub))
      → P (waiting found)
  waiting_split none here = absent
  waiting_split (some sub) here = if_pending_split sub.progress sub (here sub refl)

  running_split :
      (found : Option Subscription)
      → ((sub : Subscription) → found ≡ some sub → sub.progress ≡ iterating → P (some sub))
      → P (running found)
  running_split none here = absent
  running_split (some sub) here = if_iterating_split sub.progress sub (here sub refl)

module _ (n : ℕ) (sub : Subscription) (s : ServerSocket)
    (here : Map.get n s.promises ≡ some sub) where
  iterates-Move : sub.progress ≡ pending → Move s (set_progress n sub iterating s)
  iterates-Move p = turns n sub iterating here (subst (λ q. Turns q iterating) (sym p) iterates)

  fails-Move : (t : Thrown) → sub.progress ≡ pending → Move s (set_progress n sub (failed t) s)
  fails-Move t p = turns n sub (failed t) here (subst (λ q. Turns q (failed t)) (sym p) (fails t))

  -- A final message is sent, if the socket is open, and the subscription is over.
  final-Moves :
      (to : Progress) (message : ServerMessage)
      → Ends sub.progress to
      → IsFinal sub.id message
      → Moves s (set_progress n sub to (send (some n) message s))
  unfolding send
  final-Moves to message over final =
      if_split (λ t. Moves s (set_progress n sub to t)) s.is_open
        (λ live. single (finishes n sub to message live here over final))
        (λ shut. single (stops n sub to shut here over))

  next-Moves :
      (r : Value)
      → sub.progress ≡ iterating
      → Moves s (send (some n) (ServerMessage.next sub.id r) s)
  unfolding send
  next-Moves r p =
      if_split (Moves s) s.is_open (λ live. single (streams n sub r live here p)) (λ _. stays)

expire_later-Move : (id : String) (s : ServerSocket) → Move s (expire_later id s)
expire_later-Move id s = schedules s.tasks s.next_task s.timer (id ∷ s.expiring)

module _ (to_error : Thrown → Error) (show : Value → String) where
  dispatch-Moves :
      (fields : Fields) (parsed : Option (Result ClientMessage)) (s : ServerSocket)
      → Moves s (dispatch to_error show fields parsed s)
  unfolding dispatch
  dispatch-Moves fields none s = close-Moves _ _ s
  dispatch-Moves fields (some (ok message)) s = handle_message-Moves message s
  dispatch-Moves fields (some (thrown t)) s = close_by_error-Moves _ s

  handle_message_event-Moves :
      (parsed : Error ⊎ Value) (s : ServerSocket)
      → Moves s (handle_message_event to_error show parsed s)
  unfolding handle_message_event
  handle_message_event-Moves (inl syntax_error) s = close_by_error-Moves _ s
  handle_message_event-Moves (inr v) s = elim (Option-cases (is_record v)) [
    | inl other ↦ rw (other, handle_message_event) (close_by_error-Moves _ s)
    | inr (fields, found) ↦
        rw (found, handle_message_event) (dispatch-Moves fields (parse_message fields) s)
  ]

  after_ack-Moves :
      (n : ℕ) (d : Deferred) (go : Value → ServerSocket → ServerSocket) (s : ServerSocket)
      → ((payload : Value) → d ≡ resolved payload → Moves (leave n s) (go payload (leave n s)))
      → Moves s (after_ack to_error show n d go s)
  unfolding after_ack
  after_ack-Moves n unsettled go s going = stays
  after_ack-Moves n (resolved payload) go s going =
      Steps-trans (single (leave-Move n s)) (going payload refl)
  after_ack-Moves n (rejected t) go s going =
      Steps-trans (single (leave-Move n s)) (close_by_error-Moves _ (leave n s))

  after_subscription-Moves :
      (n k : ℕ) (p : Progress) (s : ServerSocket)
      → Moves s (after_subscription to_error show n k p s)
  unfolding after_subscription
  after_subscription-Moves n k pending s = stays
  after_subscription-Moves n k (failed t) s =
      Steps-trans (single (leave-Move n s)) (close_by_error-Moves _ (leave n s))
  after_subscription-Moves n k p s =
      Steps-trans (single (leave-Move n s)) (call_return-Moves k p (leave n s))

  visit-Moves :
      (n : ℕ) (seen : List ℕ) (k : ℕ) (p : Progress) (s : ServerSocket)
      → Moves s (visit to_error show n seen k p s)
  unfolding visit
  visit-Moves n seen k pending s = stays
  visit-Moves n seen k (failed t) s =
      moves
        (single (schedules (Map.set n (closing (k ∷ seen)) s.tasks) s.next_task s.timer s.expiring))
        (logs (to_error t))
  visit-Moves n seen k p s =
      Steps-trans
        (single (schedules (Map.set n (closing (k ∷ seen)) s.tasks) s.next_task s.timer s.expiring))
        (call_return-Moves k p _)

  close_round-Moves :
      (n : ℕ) (seen : List ℕ) (next : Option ℕ) (s : ServerSocket)
      → Moves s (close_round to_error show n seen next s)
  unfolding close_round
  close_round-Moves n seen none s = single (leave-Move n s)
  close_round-Moves n seen (some k) s = visit-Moves n seen k (progress_of (Map.get k s.promises)) s

  continue-Moves :
      (n : ℕ) (task : Option Task) (s : ServerSocket) → Moves s (continue to_error show n task s)
  unfolding continue
  continue-Moves n none s = stays
  continue-Moves n (some (acknowledging _)) s = stays
  continue-Moves n (some (subscribing id payload)) s =
      after_ack-Moves n s.init_payload (start_subscription id payload) s
        λ init. start_subscription-Moves id payload init (leave n s)
  continue-Moves n (some (completing id)) s =
      after_ack-Moves n s.init_payload (λ _. require_subscription id) s
        λ _ _. require_subscription-Moves id (leave n s)
  continue-Moves n (some (returning k)) s =
      after_subscription-Moves n k (progress_of (Map.get k s.promises)) s
  continue-Moves n (some (closing seen)) s =
      close_round-Moves n seen (unvisited seen s.subscriptions) s

  reject_init-Moves : (t : Thrown) (s : ServerSocket) → Moves s (reject_init to_error show t s)
  unfolding reject_init
  reject_init-Moves t s =
      Steps-trans (single (rejects (Thrown.error (unauthorized to_error show t))))
        (close_by_error-Moves _ _)

  after_acknowledge-Moves :
      (n : ℕ) (task : Option Task) (answer : Result Value) (s : ServerSocket)
      → Moves s (after_acknowledge to_error show n task answer s)
  unfolding after_acknowledge
  after_acknowledge-Moves n (some (acknowledging payload)) (ok answer) s =
      Steps-trans (single (leave-Move n s)) (acknowledge-Moves payload answer (leave n s))
  after_acknowledge-Moves n (some (acknowledging payload)) (thrown t) s =
      Steps-trans (single (leave-Move n s)) (reject_init-Moves t (leave n s))
  after_acknowledge-Moves n none answer s = stays
  after_acknowledge-Moves n (some _) answer s = stays

  answer_once-Moves :
      (n : ℕ) (sub : Subscription) (answer : Result Value) (s : ServerSocket)
      → Map.get n s.promises ≡ some sub
      → sub.progress ≡ pending
      → Moves s (answer_once to_error show n sub answer s)
  unfolding answer_once
  answer_once-Moves n sub (ok errors) s here p =
      final-Moves n sub s here one_shot _ (subst (λ q. Ends q one_shot) (sym p) answers)
        (errs errors)
  answer_once-Moves n sub (thrown t) s here p = single (fails-Move n sub s here t p)

  settled-Moves :
      (n : ℕ) (sub : Subscription) (e : Event) (s : ServerSocket)
      → Map.get n s.promises ≡ some sub
      → sub.progress ≡ pending
      → Moves s (subscribe_settles to_error show n (some sub) e s)
  unfolding subscribe_settles
  settled-Moves n sub (subscribe_iterates _) s here p = single (iterates-Move n sub s here p)
  settled-Moves n sub (subscribe_answers _ errors) s here p = answer_once-Moves n sub _ s here p
  settled-Moves n sub (subscribe_throws _ t) s here p = single (fails-Move n sub s here t p)
  settled-Moves n sub _ s here p = stays

  subscribe_settles-Moves :
      (n : ℕ) (e : Event) (s : ServerSocket)
      → Moves s (subscribe_settles to_error show n (waiting (Map.get n s.promises)) e s)
  unfolding subscribe_settles
  subscribe_settles-Moves n e s =
      waiting_split (λ found. Moves s (subscribe_settles to_error show n found e s)) stays
        (Map.get n s.promises) (λ sub here p. settled-Moves n sub e s here p)

  pumped-Moves :
      (n : ℕ) (sub : Subscription) (e : Event) (s : ServerSocket)
      → Map.get n s.promises ≡ some sub
      → sub.progress ≡ iterating
      → Moves s (pump to_error show n (some sub) e s)
  unfolding pump
  pumped-Moves n sub (yields _ r) s here p = next-Moves n sub s here r p
  pumped-Moves n sub (ends _) s here p =
      moves
        (final-Moves n sub s here exhausted _ (subst (λ q. Ends q exhausted) (sym p) exhausts)
          completes)
        (expire_later-Move _ _)
  pumped-Moves n sub (iteration_throws _ t) s here p =
      moves
        (final-Moves n sub s here exhausted _ (subst (λ q. Ends q exhausted) (sym p) exhausts)
          (errs _))
        (expire_later-Move _ _)
  pumped-Moves n sub _ s here p = stays

  pump-Moves :
      (n : ℕ) (e : Event) (s : ServerSocket)
      → Moves s (pump to_error show n (running (Map.get n s.promises)) e s)
  unfolding pump
  pump-Moves n e s =
      running_split (λ found. Moves s (pump to_error show n found e s)) stays (Map.get n s.promises)
        (λ sub here p. pumped-Moves n sub e s here p)

  handle-Moves : (e : Event) (s : ServerSocket) → Moves s (handle to_error show e s)
  unfolding handle
  handle-Moves (message_event parsed) s = handle_message_event-Moves parsed s
  handle-Moves (close_event code reason) s =
      Steps-trans (single shuts) (handle_end-Moves _ (record s { is_open = false }))
  handle-Moves (error_event t) s = handle_end-Moves t s
  handle-Moves init_timeout s =
      if_split (Moves s) s.timer
        (λ _. Steps-trans (single (clear_timer-Move s)) (close-Moves _ _ (clear_timer s)))
        (λ _. stays)
  handle-Moves (acknowledge_returns n answer) s = after_acknowledge-Moves n (Map.get n s.tasks) _ s
  handle-Moves (acknowledge_throws n t) s = after_acknowledge-Moves n (Map.get n s.tasks) _ s
  handle-Moves (continues n) s = continue-Moves n (Map.get n s.tasks) s
  handle-Moves (subscribe_iterates n) s = subscribe_settles-Moves n _ s
  handle-Moves (subscribe_answers n _) s = subscribe_settles-Moves n _ s
  handle-Moves (subscribe_throws n _) s = subscribe_settles-Moves n _ s
  handle-Moves (yields n _) s = pump-Moves n _ s
  handle-Moves (ends n) s = pump-Moves n _ s
  handle-Moves (iteration_throws n _) s = pump-Moves n _ s
  handle-Moves (expires id) s = expire-Moves id s

  -- Whatever the state and the event, the code's step is a sequence of moves that the protocol
  -- allows.
  pub step-Moves : (e : Event) (s : ServerSocket) → Moves s (step to_error show e s)
  unfolding step
  step-Moves e s = if_split (Moves s) s.listens (λ _. handle-Moves e s) (λ _. stays)

  pub run-Moves : (events : List Event) (s : ServerSocket) → Moves s (run to_error show events s)
  unfolding run
  run-Moves [] s = stays
  run-Moves (e ∷ events) s = Steps-trans (step-Moves e s) (run-Moves events _)
