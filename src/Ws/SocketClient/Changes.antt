-- ===== src/Ws/SocketClient/Changes.antt =====
-- How the events of a GraphQLWebSocketClient change its connection.
use graphqlade.Common.{
  ℕ, ltb, ℤ, String, ◌≡◌, refl, sym, ◌∙◌, subst, inl, inr, true, Option, none, some, List, [], ◌∷◌,
  if_split, Option-cases, Value, Thrown, Error, Steps, All, stays, single, Steps-trans, nat_eq,
}
use graphqlade.Common.Map
use graphqlade.Common.Map.{Map}
use graphqlade.Util.PushIterator
use graphqlade.Util.PushIterator.{Action, finishes_early}
use graphqlade.Ws.ServerSocket.State.{Deferred, unsettled, resolved, rejected}
use graphqlade.Ws.ClientSocket.State.{Use, is_raised}
use graphqlade.Ws.ClientSocket.Steps.{action_of}
use graphqlade.Ws.SocketClient.{run}
use graphqlade.Ws.SocketClient.Connection.{
  Connection, must_wait, start_delay, end_delay, require_socket, reset_delay, increase_delay,
  change_socket, open_socket, close_socket, settle_socket, is_connected,
}
use graphqlade.Ws.SocketClient.Steps.{
  Progress, in_ack, delayed, over, iterating, Subscription, SocketClient, Event, sets_payload,
  subscribes, uses, setup_ends, delay_ends, continues, yields, ends, fails, retries, closes_all,
  socket_opens, socket_closes, socket_settles, return_inner, teardown, act, start_run, begin,
  use_stream, subscribe_at, await_ack, ack_at, finish_all, close_current, should_retry, fail,
  after_ack, continue, handle, handle_at, is_due, step,
}

return_inner-connection :
    (inner : Option ℕ) (s : SocketClient) → (return_inner inner s).connection ≡ s.connection
unfolding return_inner
return_inner-connection none s = refl
return_inner-connection (some i) s = refl

act-connection :
    (action : Action Value Thrown) (progress : Progress) (n : ℕ) (sub : Subscription)
    (s : SocketClient)
    → (act action progress n sub s).connection ≡ s.connection
unfolding act teardown
act-connection action progress n sub s =
    if_split (λ (t : SocketClient). t.connection ≡ s.connection)
      (ltb sub.it.torn (PushIterator.step is_raised action sub.it).torn)
      (λ _. return_inner-connection sub.inner _) (λ _. refl)

-- `Fair` holds of the numbers that Math.random gives.
module _ (Fair : ℕ → Type 0) where
  abbrev pub IsRandom : Event → Type 0
  IsRandom (continues n random) = Fair random
  IsRandom _ = Unit

  pub data Change (c : Connection) : Connection → Type 0 where
    provides : (payload : Value) → Change c (record c { init_payload = payload })
    waits : must_wait c ≡ true → Change c (start_delay c)
    stops_waiting : Change c (end_delay c)
    requires : Change c (require_socket c)
    resets : (payload : Value) → Change c (reset_delay payload c)
    increases : (random : ℕ) → Fair random → Change c (increase_delay random c)
    opens : (i : ℕ) → Change c (change_socket open_socket i c)
    shuts : (i : ℕ) → Change c (change_socket close_socket i c)
    settles : (i : ℕ) (d : Deferred) → Change c (change_socket (settle_socket d) i c)

  abbrev Changes : SocketClient → SocketClient → Type 0
  Changes s t = Steps Change s.connection t.connection

  -- A change of the subscriptions alone is none of the connection.
  same-Changes : (s t : SocketClient) → t.connection ≡ s.connection → Changes s t
  same-Changes s t e = subst (Steps Change s.connection) (sym e) stays

  act-Changes :
      (action : Action Value Thrown) (progress : Progress) (n : ℕ) (sub : Subscription)
      (s : SocketClient)
      → Changes s (act action progress n sub s)
  act-Changes action progress n sub s =
      same-Changes s (act action progress n sub s) (act-connection action progress n sub s)

  start_run-Changes :
      (n : ℕ) (sub : Subscription) (s : SocketClient) → Changes s (start_run n sub s)
  unfolding start_run
  start_run-Changes n sub s =
      if_split (Changes s) (must_wait s.connection) (λ h. single (waits h)) (λ _. stays)

  begin-Changes : (n : ℕ) (sub : Option Subscription) (s : SocketClient) → Changes s (begin n sub s)
  unfolding begin
  begin-Changes n none s = stays
  begin-Changes n (some sub) s = start_run-Changes n sub _

  use_stream-Changes :
      (how : Use) (n : ℕ) (sub : Subscription) (s : SocketClient)
      → Changes s (use_stream how n sub s)
  unfolding use_stream
  use_stream-Changes how n sub s =
      let s' = act (action_of how) sub.progress n sub s in
      let acted = same-Changes s s' (act-connection (action_of how) sub.progress n sub s) in
      if_split (Changes s) _ (λ _. Steps-trans acted (begin-Changes n (Map.get n s'.streams) s'))
        (λ _. acted)

  finish_all-connection :
      (ns : List ℕ) (s : SocketClient) → (finish_all ns s).connection ≡ s.connection
  unfolding finish_all
  finish_all-connection [] s = refl
  finish_all-connection (n ∷ ns) s = elim (Option-cases (Map.get n s.streams)) [
    | inl absent ↦ rw (absent, finish_all) (finish_all-connection ns s)
    | inr (sub, here) ↦
        rw (here, finish_all)
          (finish_all-connection ns _ ∙ act-connection finishes_early sub.progress n sub s)
  ]

  close_current-Changes :
      (current : Option ℕ) (code : ℤ) (reason : String) (s : SocketClient)
      → Changes s (close_current current code reason s)
  unfolding close_current
  close_current-Changes none code reason s = stays
  close_current-Changes (some i) code reason s =
      if_split (Changes s) (is_connected (some i) s.connection.sockets) (λ _. single (shuts i))
        (λ _. stays)

  await_ack-Changes :
      (current : Option ℕ) (n : ℕ) (sub : Subscription) (s : SocketClient)
      → Changes s (await_ack current n sub s)
  unfolding await_ack
  await_ack-Changes none n sub s = stays
  await_ack-Changes (some i) n sub s = stays

  subscribe_at-Changes :
      (current : Option ℕ) (n : ℕ) (sub : Subscription) (s : SocketClient)
      → Changes s (subscribe_at current n sub s)
  unfolding subscribe_at
  subscribe_at-Changes none n sub s = stays
  subscribe_at-Changes (some i) n sub s = stays

  module _ (to_error : Thrown → Error) where
    fail-connection :
        (t : Thrown) (n : ℕ) (sub : Subscription) (s : SocketClient)
        → (fail to_error t n sub s).connection ≡ s.connection
    unfolding fail
    fail-connection t n sub s =
        return_inner-connection sub.inner _
        ∙ if_split (λ (u : SocketClient). u.connection ≡ s.connection)
            (should_retry (to_error t).code) (λ _. refl) (λ _. act-connection _ over n sub s)

    after_ack-Changes :
        (d : Deferred) (random n : ℕ) (sub : Subscription) (s : SocketClient)
        → Fair random
        → Changes s (after_ack to_error d random n sub s)
    unfolding after_ack
    after_ack-Changes unsettled random n sub s fair = stays
    after_ack-Changes (resolved payload) random n sub s fair =
        let s' = record s { connection = reset_delay payload s.connection } in
        Steps-trans (single (resets payload)) (subscribe_at-Changes s.connection.current n sub s')
    after_ack-Changes (rejected t) random n sub s fair =
        let s' = record s { connection = increase_delay random s.connection } in
        Steps-trans (single (increases random fair))
          (same-Changes s' (fail to_error t n sub s') (fail-connection t n sub s'))

    continue-Changes :
        (progress : Progress) (random n : ℕ) (sub : Subscription) (s : SocketClient)
        → Fair random
        → Changes s (continue to_error progress random n sub s)
    unfolding continue
    continue-Changes delayed random n sub s fair =
        let c = require_socket s.connection in
        Steps-trans (single requires)
          (await_ack-Changes c.current n sub (record s { connection = c }))
    continue-Changes (in_ack i) random n sub s fair =
        after_ack-Changes (ack_at i s.connection.sockets) random n sub s fair
    continue-Changes _ random n sub s fair = stays

    handle-Changes :
        (e : Event) (n : ℕ) (sub : Subscription) (s : SocketClient)
        → IsRandom e
        → Changes s (handle to_error e n sub s)
    unfolding handle
    handle-Changes (uses _ how) n sub s fair = use_stream-Changes how n sub s
    handle-Changes (setup_ends _) n sub s fair = act-Changes _ sub.progress n sub s
    handle-Changes (continues _ random) n sub s fair =
        continue-Changes sub.progress random n sub s fair
    handle-Changes (yields _ v) n sub s fair = act-Changes _ iterating n sub s
    handle-Changes (ends _) n sub s fair =
        let s' = act finishes_early over n sub s in
        Steps-trans (act-Changes finishes_early over n sub s)
          (same-Changes s' (return_inner sub.inner s') (return_inner-connection sub.inner s'))
    handle-Changes (fails _ t) n sub s fair =
        same-Changes s (fail to_error t n sub s) (fail-connection t n sub s)
    handle-Changes (retries _) n sub s fair = start_run-Changes n sub s
    handle-Changes _ n sub s fair = stays

    handle_at-Changes :
        (e : Event) (n : ℕ) (s : SocketClient) → IsRandom e → Changes s (handle_at to_error e n s)
    unfolding handle_at
    handle_at-Changes e n s fair = elim (Option-cases (Map.get n s.streams)) [
      | inl absent ↦ rw (absent, handle_at) stays
      | inr (sub, here) ↦
          rw (here, handle_at)
            (if_split (Changes s) (is_due e sub) (λ _. handle-Changes e n sub s fair) (λ _. stays))
    ]

    step-Changes : (e : Event) (s : SocketClient) → IsRandom e → Changes s (step to_error e s)
    unfolding step
    step-Changes (sets_payload payload) s fair = single (provides payload)
    step-Changes (subscribes payload) s fair = stays
    step-Changes delay_ends s fair =
        if_split (Changes s) s.connection.delaying (λ _. single stops_waiting) (λ _. stays)
    step-Changes (closes_all code reason) s fair =
        Steps-trans (same-Changes s (finish_all s.listed s) (finish_all-connection s.listed s))
          (close_current-Changes _ _ _ _)
    step-Changes (socket_opens i) s fair = single (opens i)
    step-Changes (socket_closes i) s fair = single (shuts i)
    step-Changes (socket_settles i d) s fair = single (settles i d)
    step-Changes (uses n how) s fair = handle_at-Changes (uses n how) n s fair
    step-Changes (setup_ends n) s fair = handle_at-Changes (setup_ends n) n s fair
    step-Changes (continues n random) s fair = handle_at-Changes (continues n random) n s fair
    step-Changes (yields n v) s fair = handle_at-Changes (yields n v) n s fair
    step-Changes (ends n) s fair = handle_at-Changes (ends n) n s fair
    step-Changes (fails n t) s fair = handle_at-Changes (fails n t) n s fair
    step-Changes (retries n) s fair = handle_at-Changes (retries n) n s fair

    pub run-Changes :
        (events : List Event) (s : SocketClient)
        → All IsRandom events
        → Changes s (run to_error events s)
    unfolding run
    run-Changes [] s fair = stays
    run-Changes (e ∷ events) s (fair, rest) =
        Steps-trans (step-Changes e s fair) (run-Changes events (step to_error e s) rest)
