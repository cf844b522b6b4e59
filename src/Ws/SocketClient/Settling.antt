-- ===== src/Ws/SocketClient/Settling.antt =====
-- What the parts of an event of a GraphQLWebSocketClient leave of subscriptions that are over.
use graphqlade.Common.{
  ℕ, ltb, ℤ, String, ◌≡◌, refl, sym, subst, ◌⊎◌, inl, inr, true, Option, none, some, List, [], ◌∷◌,
  ◌++◌, if_split, Option-cases, Bool-cases, Value, Thrown, nat_eq, ◌===◌,
}
use graphqlade.Common.Map
use graphqlade.Common.Map.{Map}
use graphqlade.Util.PushIterator
use graphqlade.Util.PushIterator.{World, Action, finishes_early, aborts, pushes}
use graphqlade.Util.PushIterator.Progress.{step-Grows}
use graphqlade.Ws.ClientSocket.State.{Use, is_raised}
use graphqlade.Ws.ClientSocket.Steps.{action_of}
use graphqlade.Ws.SocketClient.Connection.{must_wait, is_connected}
use graphqlade.Ws.SocketClient.Steps.{
  Progress, idle, in_ack, delayed, in_delay, retrying, over, iterating, Subscription, SocketClient,
  return_inner, teardown, act, start_run, begin, use_stream, wake, wake_all, subscribe_at,
  await_ack, finish_all, close_current,
}

-- The iterator takes no more values.
abbrev pub IsClosed : World Value Thrown → Type 0
IsClosed w = (w.finished ≡ true) ⊎ (w.done ≡ true)

-- If `run` is over, the iterator takes no more values.
abbrev pub IsSettled : Progress → World Value Thrown → Type 0
IsSettled progress w = progress ≡ over → IsClosed w

unfoldable pub Settles : SocketClient → Type 0
Settles s =
    (n : ℕ) (sub : Subscription) → Map.get n s.streams ≡ some sub → IsSettled sub.progress sub.it

step-IsClosed :
    (a : Action Value Thrown) (w : World Value Thrown)
    → IsClosed w
    → IsClosed (PushIterator.step is_raised a w)
step-IsClosed a w (inl h) = inl ((step-Grows is_raised a w).stays_finished h)
step-IsClosed a w (inr h) = inr ((step-Grows is_raised a w).stays_done h)

pub set-Settles :
    (k : ℕ) (b : Subscription) (s t : SocketClient)
    → t.streams ≡ Map.set k b s.streams
    → IsSettled b.progress b.it
    → Settles s
    → Settles t
unfolding Settles
set-Settles k b s t e settled h n sub found =
    elim (Map.get-set_cases k n b s.streams
      (sym (subst (λ m. some sub ≡ Map.get n m) e (sym found)))) [
        | inl (same, here) ↦ subst (λ (c : Subscription). IsSettled c.progress c.it) here settled
        | inr (other, here) ↦ h n sub here
      ]

return_inner-streams :
    (inner : Option ℕ) (s : SocketClient) → (return_inner inner s).streams ≡ s.streams
unfolding return_inner
return_inner-streams none s = refl
return_inner-streams (some i) s = refl

pub return_inner-Settles :
    (inner : Option ℕ) (s : SocketClient) → Settles s → Settles (return_inner inner s)
unfolding Settles
return_inner-Settles inner s h n sub found =
    h n sub (sym (subst (λ m. some sub ≡ Map.get n m) (return_inner-streams inner s) (sym found)))

act-streams :
    (action : Action Value Thrown) (progress : Progress) (n : ℕ) (sub : Subscription)
    (s : SocketClient)
    → (act action progress n sub s).streams
      ≡ Map.set n
          (record sub { it = PushIterator.step is_raised action sub.it; progress = progress })
          s.streams
unfolding act teardown
act-streams action progress n sub s =
    let w = PushIterator.step is_raised action sub.it in
    if_split
      (λ (t : SocketClient).
        t.streams ≡ Map.set n (record sub { it = w; progress = progress }) s.streams)
      (ltb sub.it.torn w.torn) (λ _. return_inner-streams sub.inner _) (λ _. refl)

pub act-Settles :
    (action : Action Value Thrown) (progress : Progress) (n : ℕ) (sub : Subscription)
    (s : SocketClient)
    → IsSettled progress (PushIterator.step is_raised action sub.it)
    → Settles s
    → Settles (act action progress n sub s)
act-Settles action progress n sub s settled h =
    set-Settles n
      (record sub { it = PushIterator.step is_raised action sub.it; progress = progress }) s
      (act action progress n sub s) (act-streams action progress n sub s) settled h

-- An action that leaves `run` where it is.
pub act_on-Settles :
    (action : Action Value Thrown) (n : ℕ) (sub : Subscription) (s : SocketClient)
    → Map.get n s.streams ≡ some sub
    → Settles s
    → Settles (act action sub.progress n sub s)
unfolding Settles
act_on-Settles action n sub s here h =
    act-Settles action sub.progress n sub s
      (λ ended. step-IsClosed action sub.it (h n sub here ended)) h

pub start_run-Settles :
    (n : ℕ) (sub : Subscription) (s : SocketClient) → Settles s → Settles (start_run n sub s)
unfolding start_run
start_run-Settles n sub s h =
    if_split Settles (must_wait s.connection)
      (λ _. set-Settles n (record sub { progress = in_delay }) s _ refl (λ e. cc) h)
      (λ _. set-Settles n (record sub { progress = delayed }) s _ refl (λ e. cc) h)

begin-Settles :
    (n : ℕ) (sub : Option Subscription) (s : SocketClient) → Settles s → Settles (begin n sub s)
unfolding begin Settles
begin-Settles n none s h = h
begin-Settles n (some sub) s h =
    start_run-Settles n sub (record s { listed = s.listed ++ n ∷ [] }) h

pub use_stream-Settles :
    (how : Use) (n : ℕ) (sub : Subscription) (s : SocketClient)
    → Map.get n s.streams ≡ some sub
    → Settles s
    → Settles (use_stream how n sub s)
unfolding use_stream
use_stream-Settles how n sub s here h =
    let s' = act (action_of how) sub.progress n sub s in
    let h' = act_on-Settles (action_of how) n sub s here h in
    if_split Settles _ (λ _. begin-Settles n (Map.get n s'.streams) s' h') (λ _. h')

pub wake-over : (progress : Progress) → wake progress ≡ over → progress ≡ over
wake-over in_delay e = cc
wake-over idle e = e
wake-over delayed e = e
wake-over iterating e = e
wake-over retrying e = e
wake-over over e = e
wake-over (in_ack i) e = e

pub wake_all-get :
    (n : ℕ) (subs : Map ℕ Subscription) (b : Subscription)
    → Map.get n (wake_all subs) ≡ some b
    → (a : Subscription) × (Map.get n subs ≡ some a) × (b ≡ record a { progress = wake a.progress })
unfolding wake_all Map.get
wake_all-get n [] b found = cc
wake_all-get n ((k, a) ∷ subs) b found = elim (Bool-cases (k === n)) [
  | inl same ↦ (a, rw same refl, cc (rw same at found))
  | inr other ↦
      let (c, here, e) = wake_all-get n subs b (rw other at found) in (c, rw other here, e)
]

pub finish_all-Settles : (ns : List ℕ) (s : SocketClient) → Settles s → Settles (finish_all ns s)
unfolding finish_all
finish_all-Settles [] s h = h
finish_all-Settles (n ∷ ns) s h = elim (Option-cases (Map.get n s.streams)) [
  | inl absent ↦ rw (absent, finish_all) (finish_all-Settles ns s h)
  | inr (sub, here) ↦
      rw (here, finish_all)
        (finish_all-Settles ns (act finishes_early sub.progress n sub s)
          (act_on-Settles finishes_early n sub s here h))
]

pub close_current-Settles :
    (current : Option ℕ) (code : ℤ) (reason : String) (s : SocketClient)
    → Settles s
    → Settles (close_current current code reason s)
unfolding close_current Settles
close_current-Settles none code reason s h = h
close_current-Settles (some i) code reason s h =
    if_split Settles (is_connected (some i) s.connection.sockets) (λ _. h) (λ _. h)

pub await_ack-Settles :
    (current : Option ℕ) (n : ℕ) (sub : Subscription) (s : SocketClient)
    → Settles s
    → Settles (await_ack current n sub s)
unfolding await_ack
await_ack-Settles none n sub s h = h
await_ack-Settles (some i) n sub s h =
    set-Settles n (record sub { progress = in_ack i }) s _ refl (λ e. cc) h

pub subscribe_at-Settles :
    (current : Option ℕ) (n : ℕ) (sub : Subscription) (s : SocketClient)
    → Settles s
    → Settles (subscribe_at current n sub s)
unfolding subscribe_at
subscribe_at-Settles none n sub s h = h
subscribe_at-Settles (some i) n sub s h =
    set-Settles n (record sub { inner = some s.next_inner; progress = iterating }) s _ refl
      (λ e. cc) h
