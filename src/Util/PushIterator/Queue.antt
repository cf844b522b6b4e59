-- ===== src/Util/PushIterator/Queue.antt =====
-- Values come out of the iterator of AsyncPushIterator.ts in the order in which they were pushed,
-- each once.
use graphqlade.Common.{
  ℕ, ◌≡◌, refl, ap, Bool, List, [], ◌∷◌, ◌++◌, nat_eq, arith, Option-cases, if_split, inl, inr,
}
use mathlib.Core.List.{append_assoc, append-nil}
use graphqlade.Common.Map
use graphqlade.Util.PushIterator.{
  Settled, yields, finishes, throws, World, init, settle, close, abort, push, finish, raised,
  is_in_setup, is_resumed, take, resume_next, call_next, count, leave, equip, Action, calls_next,
  setup_returns, setup_throws, resumes, pushes, finishes_early, returns, aborts, step, run,
}

module _ {T E : Type 0} where
  -- The values that calls of `next` gave, in order.
  abbrev pub delivered : List (Settled T E) → List T
  delivered [] = []
  delivered (yields v ∷ rs) = v ∷ delivered rs
  delivered (finishes ∷ rs) = delivered rs
  delivered (throws e ∷ rs) = delivered rs

  pub delivered-append :
      (rs ss : List (Settled T E)) → delivered (rs ++ ss) ≡ delivered rs ++ delivered ss
  delivered-append [] ss = refl
  delivered-append (yields v ∷ rs) ss = ap (◌∷◌ v) (delivered-append rs ss)
  delivered-append (finishes ∷ rs) ss = delivered-append rs ss
  delivered-append (throws e ∷ rs) ss = delivered-append rs ss

  -- What was accepted is what was delivered, followed by what is queued.
  pub record IsFifo (w : World T E) : Type 0 where
    pub fifo : w.accepted ≡ delivered w.settled ++ w.queue

  close-IsFifo : (w : World T E) → IsFifo w → IsFifo (close w)
  unfolding close
  close-IsFifo w h = ground arith

  abort-IsFifo : (e : E) (w : World T E) → IsFifo w → IsFifo (abort e w)
  unfolding abort
  abort-IsFifo e w h = ground arith

  finish-IsFifo : (w : World T E) → IsFifo w → IsFifo (finish w)
  unfolding finish
  finish-IsFifo w h = ground arith

  push-IsFifo : (v : T) (w : World T E) → IsFifo w → IsFifo (push v w)
  unfolding push
  push-IsFifo v w h = ground (arith, append_assoc (delivered w.settled) w.queue (v ∷ []))

  -- A call that settles without a value leaves the values as they are.
  settle-IsFifo :
      (r : Settled T E) (w : World T E) → delivered (r ∷ []) ≡ [] → IsFifo w → IsFifo (settle r w)
  settle-IsFifo r w e h = record {
    fifo = rw (delivered-append w.settled (r ∷ []), e, append-nil) h.fifo;
  }

  yield-IsFifo :
      (v : T) (vs : List T) (w : World T E)
      → w.queue ≡ v ∷ vs
      → IsFifo w
      → IsFifo (settle (yields v) (record w { it = record w.it { queue = vs } }))
  yield-IsFifo v vs w e h = record {
    fifo = rw (delivered-append w.settled (yields v ∷ []), append_assoc, ← e) h.fifo;
  }

module _ {T E : Type 0} (truthy : E → Bool) where
  take-IsFifo :
      (id : ℕ) (vs : List T) (w : World T E)
      → w.queue ≡ vs
      → IsFifo w
      → IsFifo (take truthy id vs w)
  unfolding take
  take-IsFifo id (v ∷ vs) w e h = yield-IsFifo v vs w e h
  take-IsFifo id [] w e h =
      if_split IsFifo w.finished (λ _. settle-IsFifo finishes (close w) refl (close-IsFifo w h))
        (λ _. record { fifo = h.fifo })

  resume_next-IsFifo : (id : ℕ) (w : World T E) → IsFifo w → IsFifo (resume_next truthy id w)
  unfolding resume_next
  resume_next-IsFifo id w h = elim (Option-cases (raised truthy w.error)) [
    | inl quiet ↦
        rw (quiet, resume_next)
          (if_split IsFifo w.done (λ _. settle-IsFifo finishes w refl h)
            (λ _. take-IsFifo id w.queue w refl h))
    | inr (e, loud) ↦ rw (loud, resume_next) (settle-IsFifo (throws e) w refl h)
  ]

  call_next-IsFifo : (w : World T E) → IsFifo w → IsFifo (call_next truthy w)
  unfolding call_next
  call_next-IsFifo w h =
      if_split IsFifo w.initialized
        (λ _. resume_next-IsFifo w.next_call (count w) (record { fifo = h.fifo }))
        (λ _. record { fifo = h.fifo })

  step-IsFifo : (a : Action T E) (w : World T E) → IsFifo w → IsFifo (step truthy a w)
  unfolding step
  step-IsFifo calls_next w h = call_next-IsFifo w h
  step-IsFifo (setup_returns id t) w h =
      if_split IsFifo (is_in_setup (Map.get id w.calls))
        (λ _. resume_next-IsFifo id (equip t (leave id w)) (record { fifo = h.fifo })) (λ _. h)
  step-IsFifo (setup_throws id e) w h =
      if_split IsFifo (is_in_setup (Map.get id w.calls))
        (λ _. settle-IsFifo (throws e) (leave id w) refl (record { fifo = h.fifo })) (λ _. h)
  step-IsFifo (resumes id) w h =
      if_split IsFifo (is_resumed (Map.get id w.calls))
        (λ _. resume_next-IsFifo id (leave id w) (record { fifo = h.fifo })) (λ _. h)
  step-IsFifo (pushes v) w h = push-IsFifo v w h
  step-IsFifo finishes_early w h = finish-IsFifo w h
  step-IsFifo returns w h = close-IsFifo w h
  step-IsFifo (aborts e) w h = abort-IsFifo e w h

  run-IsFifo :
      (actions : List (Action T E)) (w : World T E) → IsFifo w → IsFifo (run truthy actions w)
  unfolding run
  run-IsFifo [] w h = h
  run-IsFifo (a ∷ actions) w h = run-IsFifo actions (step truthy a w) (step-IsFifo a w h)

  -- In any history of calls, of settled promises and of continuations, the values that `next` gave
  -- are, in order, those that `push` accepted, up to the ones that are still queued.
  pub run_fifo :
      (actions : List (Action T E))
      → (run truthy actions init).accepted
        ≡ delivered (run truthy actions init).settled ++ (run truthy actions init).queue
  run_fifo actions = (run-IsFifo actions init (record { fifo = refl })).fifo
