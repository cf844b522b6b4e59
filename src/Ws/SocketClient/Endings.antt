-- ===== src/Ws/SocketClient/Endings.antt =====
-- How the subscriptions of a GraphQLWebSocketClient end.
use graphqlade.Common.{
  ℕ, ◌≡◌, refl, sym, subst, ◌⊎◌, inl, inr, true, some, List, [], ◌∷◌, if_split, Option-cases, Value,
  Thrown, Error, nat_eq,
}
use graphqlade.Common.Map
use graphqlade.Common.Map.{Map}
use graphqlade.Util.PushIterator.{finishes_early, aborts, pushes}
use graphqlade.Util.PushIterator.Progress.{step_aborts-done, step_finishes-finished}
use graphqlade.Ws.ServerSocket.State.{Deferred, unsettled, resolved, rejected}
use graphqlade.Ws.ClientSocket.State.{is_raised}
use graphqlade.Ws.SocketClient.{run}
use graphqlade.Ws.SocketClient.Connection.{
  Settings, require_socket, end_delay, reset_delay, increase_delay,
}
use graphqlade.Ws.SocketClient.Steps.{
  Progress, in_ack, delayed, retrying, over, iterating, Subscription, SocketClient, Event,
  sets_payload, subscribes, uses, setup_ends, delay_ends, continues, yields, ends, fails, retries,
  closes_all, socket_opens, socket_closes, socket_settles, init, act, wake, wake_all, ack_at,
  finish_all, should_retry, fail, after_ack, continue, handle, handle_at, is_due, step,
  new_subscription,
}
use graphqlade.Ws.SocketClient.Settling.{
  IsClosed, Settles, set-Settles, return_inner-Settles, act-Settles, act_on-Settles,
  start_run-Settles, use_stream-Settles, wake-over, wake_all-get, finish_all-Settles,
  close_current-Settles, await_ack-Settles, subscribe_at-Settles,
}

module _ (to_error : Thrown → Error) where
  fail-Settles :
      (t : Thrown) (n : ℕ) (sub : Subscription) (s : SocketClient)
      → Settles s
      → Settles (fail to_error t n sub s)
  unfolding fail
  fail-Settles t n sub s h = return_inner-Settles sub.inner _ (
      if_split Settles (should_retry (to_error t).code)
        (λ _. set-Settles n (record sub { progress = retrying }) s _ refl (λ e. cc) h)
        (λ _.
          act-Settles (aborts t) over n sub s (λ _. inr (step_aborts-done is_raised t sub.it)) h))

  after_ack-Settles :
      (d : Deferred) (random n : ℕ) (sub : Subscription) (s : SocketClient)
      → Settles s
      → Settles (after_ack to_error d random n sub s)
  unfolding after_ack Settles
  after_ack-Settles unsettled random n sub s h = h
  after_ack-Settles (resolved payload) random n sub s h =
      subscribe_at-Settles s.connection.current n sub
        (record s { connection = reset_delay payload s.connection }) h
  after_ack-Settles (rejected t) random n sub s h =
      fail-Settles t n sub (record s { connection = increase_delay random s.connection }) h

  continue-Settles :
      (progress : Progress) (random n : ℕ) (sub : Subscription) (s : SocketClient)
      → Settles s
      → Settles (continue to_error progress random n sub s)
  unfolding continue Settles
  continue-Settles delayed random n sub s h =
      let c = require_socket s.connection in
      await_ack-Settles c.current n sub (record s { connection = c }) h
  continue-Settles (in_ack i) random n sub s h =
      after_ack-Settles (ack_at i s.connection.sockets) random n sub s h
  continue-Settles _ random n sub s h = h

  handle-Settles :
      (e : Event) (n : ℕ) (sub : Subscription) (s : SocketClient)
      → Map.get n s.streams ≡ some sub
      → Settles s
      → Settles (handle to_error e n sub s)
  unfolding handle
  handle-Settles (uses _ how) n sub s here h = use_stream-Settles how n sub s here h
  handle-Settles (setup_ends _) n sub s here h = act_on-Settles _ n sub s here h
  handle-Settles (continues _ random) n sub s here h =
      continue-Settles sub.progress random n sub s h
  handle-Settles (yields _ v) n sub s here h = act-Settles (pushes v) iterating n sub s (λ e. cc) h
  handle-Settles (ends _) n sub s here h =
      return_inner-Settles sub.inner (act finishes_early over n sub s) (
        act-Settles finishes_early over n sub s (λ _. inl (step_finishes-finished is_raised sub.it))
          h)
  handle-Settles (fails _ t) n sub s here h = fail-Settles t n sub s h
  handle-Settles (retries _) n sub s here h = start_run-Settles n sub s h
  handle-Settles _ n sub s here h = h

  handle_at-Settles :
      (e : Event) (n : ℕ) (s : SocketClient) → Settles s → Settles (handle_at to_error e n s)
  unfolding handle_at
  handle_at-Settles e n s h = elim (Option-cases (Map.get n s.streams)) [
    | inl absent ↦ rw (absent, handle_at) h
    | inr (sub, here) ↦
        rw (here, handle_at)
          (if_split Settles (is_due e sub) (λ _. handle-Settles e n sub s here h) (λ _. h))
  ]

  wake_all-Settles : (s t : SocketClient) → t.streams ≡ wake_all s.streams → Settles s → Settles t
  unfolding Settles
  wake_all-Settles s t e h n b found ended =
      let (a, here, same) =
        wake_all-get n s.streams b (sym (subst (λ m. some b ≡ Map.get n m) e (sym found))) in
      let awake : wake a.progress ≡ over = cc (same, ended) in
      let closed = h n a here (wake-over a.progress awake) in
      subst (λ (c : Subscription). IsClosed c.it) (sym same) closed

  step-Settles : (e : Event) (s : SocketClient) → Settles s → Settles (step to_error e s)
  unfolding step Settles
  step-Settles (sets_payload payload) s h = h
  step-Settles (subscribes payload) s h =
      set-Settles s.next_stream (new_subscription payload) s (step to_error (subscribes payload) s)
        refl (λ e. cc) h
  step-Settles delay_ends s h =
      if_split Settles s.connection.delaying
        (λ _.
          wake_all-Settles s
            (record s { connection = end_delay s.connection; streams = wake_all s.streams }) refl h)
        (λ _. h)
  step-Settles (closes_all code reason) s h =
      close_current-Settles _ _ _ (finish_all s.listed s) (finish_all-Settles s.listed s h)
  step-Settles (socket_opens i) s h = h
  step-Settles (socket_closes i) s h = h
  step-Settles (socket_settles i d) s h = h
  step-Settles (uses n how) s h = handle_at-Settles (uses n how) n s h
  step-Settles (setup_ends n) s h = handle_at-Settles (setup_ends n) n s h
  step-Settles (continues n random) s h = handle_at-Settles (continues n random) n s h
  step-Settles (yields n v) s h = handle_at-Settles (yields n v) n s h
  step-Settles (ends n) s h = handle_at-Settles (ends n) n s h
  step-Settles (fails n t) s h = handle_at-Settles (fails n t) n s h
  step-Settles (retries n) s h = handle_at-Settles (retries n) n s h

  run-Settles :
      (events : List Event) (s : SocketClient) → Settles s → Settles (run to_error events s)
  unfolding run
  run-Settles [] s h = h
  run-Settles (e ∷ events) s h = run-Settles events (step to_error e s) (step-Settles e s h)

  -- Whatever happened to a client, a subscription whose loop over inner iterators has ended, with
  -- no retry to come, has an iterator that is finished or done.
  pub run_over :
      (settings : Settings) (payload : Value) (events : List Event) (n : ℕ) (sub : Subscription)
      → Map.get n (run to_error events (init settings payload)).streams ≡ some sub
      → sub.progress ≡ over
      → (sub.it.finished ≡ true) ⊎ (sub.it.done ≡ true)
  unfolding init Settles Map.get
  run_over settings payload events n sub found ended =
      run-Settles events (init settings payload) (λ k a here e. cc here) n sub found ended
