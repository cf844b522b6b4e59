-- ===== src/Util/PushIterator/Waiting.antt =====
-- No call of `next` of AsyncPushIterator.ts sleeps through a push, a finish, a return or a throw.
use graphqlade.Common.{
  ℕ, ◌≡◌, ◌≢◌, refl, Bool, true, false, ◌&&◌, none, some, List, [], ◌∷◌, map, nat_eq, arith,
  Option-cases, Bool-cases, if_split, inl, inr,
}
use graphqlade.Common.Map
use graphqlade.Common.Map.{Map}
use graphqlade.Util.PushIterator.{
  Settled, finishes, throws, Pending, waits, in_setup, resumed, World, init, settle, wake,
  wake_call, close, abort, push, finish, raised, is_in_setup, is_resumed, take, resume_next,
  call_next, count, leave, equip, Action, calls_next, setup_returns, setup_throws, resumes, pushes,
  finishes_early, returns, aborts, step, run,
}

abbrev moves : Pending → Bool
moves waits = false
moves _ = true

-- No call awaits the promise of `wait`.
pub none_waits : Map ℕ Pending → Bool
none_waits [] = true
none_waits ((id, p) ∷ m) = moves p && none_waits m

none_waits-wake : (m : Map ℕ Pending) → none_waits (map wake_call m) ≡ true
unfolding none_waits
none_waits-wake [] = refl
none_waits-wake ((id, in_setup) ∷ m) = none_waits-wake m
none_waits-wake ((id, waits) ∷ m) = none_waits-wake m
none_waits-wake ((id, resumed) ∷ m) = none_waits-wake m

none_waits-delete :
    (k : ℕ) (m : Map ℕ Pending) → none_waits m ≡ true → none_waits (Map.delete k m) ≡ true
unfolding none_waits Map.delete
none_waits-delete k [] h = refl
none_waits-delete k ((id, p) ∷ m) h = ground (arith, none_waits-delete k m)

none_waits-set :
    (k : ℕ) (m : Map ℕ Pending) → none_waits m ≡ true → none_waits (Map.set k in_setup m) ≡ true
unfolding none_waits Map.set
none_waits-set k [] h = refl
none_waits-set k ((id, p) ∷ m) h = ground (arith, none_waits-set k m)

not_waits : (k : ℕ) (m : Map ℕ Pending) → none_waits m ≡ true → Map.get k m ≡ some waits → ⊥
unfolding none_waits Map.get
not_waits k [] h e = cc
not_waits k ((id, p) ∷ m) h e = ground (arith, not_waits k m)

module _ {T E : Type 0} where
  -- While calls wait there is nothing for them to do; otherwise none waits.
  pub record IsAwake (w : World T E) : Type 0 where
    pub idle : w.waiting ≡ true → (w.queue ≡ []) × (w.finished ≡ false) × (w.done ≡ false)
    pub woken : w.waiting ≡ false → none_waits w.calls ≡ true
    pub unharmed : w.done ≡ false → w.error ≡ none

  wake-IsAwake :
      (w : World T E)
      → (w.waiting ≡ false → none_waits w.calls ≡ true)
      → (w.done ≡ false → w.error ≡ none)
      → IsAwake (wake w)
  unfolding wake
  wake-IsAwake w woken unharmed = ground (arith, none_waits-wake w.calls)

  close-IsAwake : (w : World T E) → IsAwake w → IsAwake (close w)
  unfolding close
  close-IsAwake w h = ground (arith, none_waits-wake w.calls, h.idle, h.woken, h.unharmed)

  abort-IsAwake : (e : E) (w : World T E) → IsAwake w → IsAwake (abort e w)
  unfolding abort
  abort-IsAwake e w h = ground (arith, none_waits-wake w.calls, h.idle, h.woken, h.unharmed)

  push-IsAwake : (v : T) (w : World T E) → IsAwake w → IsAwake (push v w)
  unfolding push
  push-IsAwake v w h = ground (arith, none_waits-wake w.calls, h.idle, h.woken, h.unharmed)

  finish-IsAwake : (w : World T E) → IsAwake w → IsAwake (finish w)
  unfolding finish
  finish-IsAwake w h = ground (arith, none_waits-wake w.calls, h.idle, h.woken, h.unharmed)

  settle-IsAwake : (r : Settled T E) (w : World T E) → IsAwake w → IsAwake (settle r w)
  settle-IsAwake r w h = record { idle = h.idle; woken = h.woken; unharmed = h.unharmed }

  leave-IsAwake : (id : ℕ) (w : World T E) → IsAwake w → IsAwake (leave id w)
  leave-IsAwake id w h = record {
    idle = h.idle;
    woken = λ e. none_waits-delete id w.calls (h.woken e);
    unharmed = h.unharmed;
  }

module _ {T E : Type 0} (truthy : E → Bool) where
  take-IsAwake :
      (id : ℕ) (vs : List T) (w : World T E)
      → w.queue ≡ vs
      → w.done ≡ false
      → IsAwake w
      → IsAwake (take truthy id vs w)
  unfolding take
  take-IsAwake id (v ∷ vs) w e live h = record {
    idle = λ waiting. ground (arith, h.idle waiting);
    woken = h.woken;
    unharmed = h.unharmed;
  }
  take-IsAwake id [] w e live h =
      if_split IsAwake w.finished (λ _. settle-IsAwake finishes (close w) (close-IsAwake w h))
        λ open_. record { idle = λ _. (e, open_, live); woken = λ ne. cc; unharmed = h.unharmed }

  resume_next-IsAwake : (id : ℕ) (w : World T E) → IsAwake w → IsAwake (resume_next truthy id w)
  unfolding resume_next
  resume_next-IsAwake id w h = elim (Option-cases (raised truthy w.error)) [
    | inl quiet ↦
        rw (quiet, resume_next)
          (if_split IsAwake w.done (λ _. settle-IsAwake finishes w h)
            (λ live. take-IsAwake id w.queue w refl live h))
    | inr (e, loud) ↦ rw (loud, resume_next) (settle-IsAwake (throws e) w h)
  ]

  pub step-IsAwake : (a : Action T E) (w : World T E) → IsAwake w → IsAwake (step truthy a w)
  unfolding step call_next
  step-IsAwake calls_next w h =
      if_split IsAwake w.initialized
        (λ _.
          resume_next-IsAwake w.next_call (count w)
            (record { idle = h.idle; woken = h.woken; unharmed = h.unharmed }))
        λ _. record {
          idle = h.idle;
          woken = λ e. none_waits-set w.next_call w.calls (h.woken e);
          unharmed = h.unharmed;
        }
  step-IsAwake (setup_returns id t) w h =
      let left = leave-IsAwake id w h in
      if_split IsAwake (is_in_setup (Map.get id w.calls))
        (λ _.
          resume_next-IsAwake id (equip t (leave id w))
            (record { idle = left.idle; woken = left.woken; unharmed = left.unharmed }))
        (λ _. h)
  step-IsAwake (setup_throws id e) w h =
      if_split IsAwake (is_in_setup (Map.get id w.calls))
        (λ _. settle-IsAwake (throws e) (leave id w) (leave-IsAwake id w h)) (λ _. h)
  step-IsAwake (resumes id) w h =
      if_split IsAwake (is_resumed (Map.get id w.calls))
        (λ _. resume_next-IsAwake id (leave id w) (leave-IsAwake id w h)) (λ _. h)
  step-IsAwake (pushes v) w h = push-IsAwake v w h
  step-IsAwake finishes_early w h = finish-IsAwake w h
  step-IsAwake returns w h = close-IsAwake w h
  step-IsAwake (aborts e) w h = abort-IsAwake e w h

  run-IsAwake :
      (actions : List (Action T E)) (w : World T E) → IsAwake w → IsAwake (run truthy actions w)
  unfolding run
  run-IsAwake [] w h = h
  run-IsAwake (a ∷ actions) w h = run-IsAwake actions (step truthy a w) (step-IsAwake a w h)

  pub init-IsAwake : IsAwake {T = T} {E = E} init
  unfolding none_waits
  init-IsAwake = record { idle = λ e. cc; woken = λ _. refl; unharmed = λ _. refl }

  -- No call awaits the promise of `wait` of an iterator that is done.
  pub done-ne-waits :
      (w : World T E) (id : ℕ) → IsAwake w → w.done ≡ true → Map.get id w.calls ≢ some waits
  done-ne-waits w id h over waiting = elim (Bool-cases w.waiting) [
    | inr awake ↦ not_waits id w.calls (h.woken awake) waiting
    | inl asleep ↦ cc ((h.idle asleep).2, over)
  ]

  -- After any history, a call of `next` that waits has nothing to miss: no value is queued, and
  -- the iterator is neither finished nor done and holds no error.
  pub run_waits :
      (actions : List (Action T E)) (id : ℕ)
      → Map.get id (run truthy actions init).calls ≡ some waits
      → let w = run truthy actions init in
        (w.queue ≡ []) × (w.finished ≡ false) × (w.done ≡ false) × (w.error ≡ none)
  run_waits actions id waiting =
      let h = run-IsAwake actions init init-IsAwake in
      let w = run truthy actions init in
      elim (Bool-cases w.waiting) [
        | inr awake ↦ absurd (not_waits id w.calls (h.woken awake) waiting)
        | inl asleep ↦
            let (empty, open_, live) = h.idle asleep in (empty, open_, live, h.unharmed live)
      ]
