-- ===== src/Util/PushIterator/Progress.antt =====
-- What an action on an AsyncPushIterator never takes back.
use graphqlade.Util.PushIterator.Teardown.{nexts}
use graphqlade.Common.{
  ℕ, zero, suc, ◌∙◌, ◌≤◌, ◌<◌, ◌≡◌, refl, Bool, true, false, none, List, [], ◌∷◌, nat_eq, arith,
}
use graphqlade.Common.Map
use graphqlade.Util.PushIterator.{
  throws, World, settle, close, abort, push, finish, take, resume_next, call_next, count, leave,
  equip, Action, calls_next, setup_returns, setup_throws, resumes, pushes, finishes_early, returns,
  aborts, step, run, init,
}

module _ {T E : Type 0} where
  -- Teardowns are counted upwards, an iterator that is done or finished stays so, and it is done if it was torn
  -- down.
  pub record Grows (w w' : World T E) : Type 0 where
    pub counted : w.torn ≤ w'.torn
    pub stays_done : w.done ≡ true → w'.done ≡ true
    pub stays_finished : w.finished ≡ true → w'.finished ≡ true
    pub torn_done : (0 < w.torn → w.done ≡ true) → 0 < w'.torn → w'.done ≡ true

  close-Grows : (w : World T E) → Grows w (close w)
  unfolding close
  close-Grows w = ground arith

  abort-Grows : (e : E) (w : World T E) → Grows w (abort e w)
  unfolding abort
  abort-Grows e w = ground arith

  push-Grows : (v : T) (w : World T E) → Grows w (push v w)
  unfolding push
  push-Grows v w = ground arith

  finish-Grows : (w : World T E) → Grows w (finish w)
  unfolding finish
  finish-Grows w = ground arith

module _ {T E : Type 0} (truthy : E → Bool) where
  take-Grows : (id : ℕ) (vs : List T) (w : World T E) → Grows w (take truthy id vs w)
  unfolding take
  take-Grows id (v ∷ vs) w = ground arith
  take-Grows id [] w = ground (arith, close-Grows w)

  resume_next-Grows : (id : ℕ) (w : World T E) → Grows w (resume_next truthy id w)
  unfolding resume_next
  resume_next-Grows id w = ground (arith, take-Grows id w.queue w)

  pub step-Grows : (a : Action T E) (w : World T E) → Grows w (step truthy a w)
  unfolding step call_next
  step-Grows calls_next w = ground (arith, resume_next-Grows w.next_call (count w))
  step-Grows (setup_returns id t) w = ground (arith, resume_next-Grows id (equip t (leave id w)))
  step-Grows (setup_throws id e) w = ground arith
  step-Grows (resumes id) w = ground (arith, resume_next-Grows id (leave id w))
  step-Grows (pushes v) w = push-Grows v w
  step-Grows finishes_early w = finish-Grows w
  step-Grows returns w = close-Grows w
  step-Grows (aborts e) w = abort-Grows e w

  -- A `throw` leaves the iterator done.
  pub step_aborts-done : (e : E) (w : World T E) → (step truthy (aborts e) w).done ≡ true
  unfolding step abort
  step_aborts-done e w = ground arith

  pub step_finishes-finished : (w : World T E) → (step truthy finishes_early w).finished ≡ true
  unfolding step finish
  step_finishes-finished w = ground arith

  -- Nothing to give, and no end in sight.
  record IsIdle (w : World T E) : Type 0 where
    started : w.initialized ≡ true
    empty : w.queue ≡ []
    open_ended : w.finished ≡ false
    live : w.done ≡ false
    quiet : w.error ≡ none

  step_next-IsIdle :
      (w : World T E)
      → IsIdle w
      → IsIdle (step truthy calls_next w) × ((step truthy calls_next w).settled ≡ w.settled)
  unfolding step call_next resume_next take
  step_next-IsIdle w h = ground arith

  nexts-IsIdle : (k : ℕ) (w : World T E) → IsIdle w → (run truthy (nexts k) w).settled ≡ w.settled
  unfolding run
  nexts-IsIdle zero w h = refl
  nexts-IsIdle (suc k) w h =
      let (idle, same) = step_next-IsIdle w h in
      nexts-IsIdle k (step truthy calls_next w) idle ∙ same

  -- If setup throws, the call of `next` that ran it throws, and however often `next` is called
  -- after that, none of these calls settles.
  pub failed_setup :
      (e : E) (k : ℕ)
      → (run {T = T} truthy (calls_next ∷ setup_throws 0 e ∷ nexts k) init).settled ≡ throws e ∷ []
  unfolding run step call_next Map.get Map.set Map.delete
  failed_setup e k =
      nexts-IsIdle k (settle (throws e) (leave 0 (call_next truthy init)))
        (record { started = refl; empty = refl; open_ended = refl; live = refl; quiet = refl })
