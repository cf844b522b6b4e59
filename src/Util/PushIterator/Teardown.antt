-- ===== src/Util/PushIterator/Teardown.antt =====
-- How often the teardown function of AsyncPushIterator.ts runs, and what draining the queue gives.
use graphqlade.Common.{
  ℕ, zero, suc, ◌+◌, ◌≤◌, ◌≡◌, refl, ap, ◌∙◌, Bool, true, false, Option, none, some, List, [], ◌∷◌,
  ◌++◌, map, nat_eq, arith, if_split, length,
}
use mathlib.Core.List.{append_assoc}
use graphqlade.Common.Map
use graphqlade.Common.Map.{Map}
use graphqlade.Util.PushIterator.{
  yields, finishes, Pending, waits, in_setup, resumed, Teardown, World, init, settle, wake,
  wake_call, close, abort, push, finish, is_in_setup, is_resumed, take, resume_next, call_next,
  count, leave, equip, Action, calls_next, setup_returns, setup_throws, resumes, pushes,
  finishes_early, returns, aborts, step, run,
}

get-wake :
    (k : ℕ) (m : Map ℕ Pending)
    → Map.get k m ≡ some in_setup
    → Map.get k (map wake_call m) ≡ some in_setup
unfolding Map.get
get-wake k [] h = cc
get-wake k ((id, in_setup) ∷ m) h = ground (arith, get-wake k m)
get-wake k ((id, waits) ∷ m) h = ground (arith, get-wake k m)
get-wake k ((id, resumed) ∷ m) h = ground (arith, get-wake k m)

get-close :
    {T E : Type 0} (k : ℕ) (w : World T E)
    → Map.get k w.calls ≡ some in_setup
    → Map.get k (close w).calls ≡ some in_setup
unfolding close
get-close k w h = ground (arith, get-wake k w.calls h)

module _ {T E : Type 0} where
  -- As many calls of `next`.
  abbrev pub nexts : ℕ → List (Action T E)
  nexts zero = []
  nexts (suc n) = calls_next ∷ nexts n

module _ {T E : Type 0} (truthy : E → Bool) where
  -- Once the iterator is done, nothing calls the teardown function.
  pub record IsOver (n : ℕ) (w : World T E) : Type 0 where
    pub done : w.done ≡ true
    pub torn : w.torn ≡ n

  resume_next-IsOver : (n id : ℕ) (w : World T E) → IsOver n w → IsOver n (resume_next truthy id w)
  unfolding resume_next
  resume_next-IsOver n id w h = ground arith

  resume_next-teardown :
      (id : ℕ) (w : World T E) → w.done ≡ true → (resume_next truthy id w).teardown ≡ w.teardown
  unfolding resume_next
  resume_next-teardown id w h = ground arith

  close-IsOver : (w : World T E) → w.done ≡ false → w.teardown ≡ none → IsOver w.torn (close w)
  unfolding close
  close-IsOver w live bare = ground arith

  wake-IsOver : (n : ℕ) (w : World T E) → IsOver n w → IsOver n (wake w)
  unfolding wake
  wake-IsOver n w h = ground arith

  step-IsOver : (n : ℕ) (a : Action T E) (w : World T E) → IsOver n w → IsOver n (step truthy a w)
  unfolding step call_next push finish close abort
  step-IsOver n calls_next w h =
      if_split (IsOver n) w.initialized
        (λ _. resume_next-IsOver n w.next_call (count w) (record { done = h.done; torn = h.torn }))
        λ _. record { done = h.done; torn = h.torn }
  step-IsOver n (setup_returns id t) w h =
      if_split (IsOver n) (is_in_setup (Map.get id w.calls))
        (λ _.
          resume_next-IsOver n id (equip t (leave id w)) (record { done = h.done; torn = h.torn }))
        (λ _. h)
  step-IsOver n (setup_throws id e) w h =
      if_split (IsOver n) (is_in_setup (Map.get id w.calls))
        (λ _. record { done = h.done; torn = h.torn }) (λ _. h)
  step-IsOver n (resumes id) w h =
      if_split (IsOver n) (is_resumed (Map.get id w.calls))
        (λ _. resume_next-IsOver n id (leave id w) (record { done = h.done; torn = h.torn }))
        (λ _. h)
  step-IsOver n (pushes v) w h = ground arith
  step-IsOver n finishes_early w h = ground arith
  step-IsOver n returns w h = ground arith
  step-IsOver n (aborts e) w h = ground arith

  run-IsOver :
      (n : ℕ) (actions : List (Action T E)) (w : World T E)
      → IsOver n w
      → IsOver n (run truthy actions w)
  unfolding run
  run-IsOver n [] w h = h
  run-IsOver n (a ∷ actions) w h = run-IsOver n actions (step truthy a w) (step-IsOver n a w h)

  -- An iterator that is returned while its setup is still running never tears down: it keeps the
  -- teardown function that the setup returns later, and calls it in no continuation.
  pub return_during_setup :
      (w : World T E) (id : ℕ) (t : Teardown E) (actions : List (Action T E))
      → Map.get id w.calls ≡ some in_setup
      → w.done ≡ false
      → w.teardown ≡ none
      → ((run truthy (returns ∷ setup_returns id (some t) ∷ []) w).teardown ≡ some t)
        × ((run truthy (returns ∷ setup_returns id (some t) ∷ actions) w).torn ≡ w.torn)
  unfolding run step close
  return_during_setup w id t actions pending live bare = (
    rw (get-close id w pending) (
        resume_next-teardown id (equip (some t) (leave id (close w)))
          (close-IsOver w live bare).done),
    (run-IsOver w.torn actions _
        (step-IsOver w.torn (setup_returns id (some t)) (close w) (close-IsOver w live bare))).torn,
  )

-- How many calls of a teardown function the parts of a world still allow.
abbrev armed : {E : Type 0} → Option (Teardown E) → ℕ
armed none = 0
armed (some t) = 1

abbrev unset : Bool → ℕ
unset true = 0
unset false = 1

setups : Map ℕ Pending → ℕ
setups [] = 0
setups ((id, in_setup) ∷ m) = suc (setups m)
setups ((id, _) ∷ m) = setups m

setups-wake : (m : Map ℕ Pending) → setups (map wake_call m) ≡ setups m
unfolding setups
setups-wake [] = refl
setups-wake ((id, in_setup) ∷ m) = ap suc (setups-wake m)
setups-wake ((id, waits) ∷ m) = setups-wake m
setups-wake ((id, resumed) ∷ m) = setups-wake m

setups-delete : (k : ℕ) (m : Map ℕ Pending) → setups (Map.delete k m) ≤ setups m
unfolding setups Map.delete
setups-delete k [] = omega arith
setups-delete k ((id, in_setup) ∷ m) = ground (arith, setups-delete k m)
setups-delete k ((id, waits) ∷ m) = ground (arith, setups-delete k m)
setups-delete k ((id, resumed) ∷ m) = ground (arith, setups-delete k m)

setups-delete_in_setup :
    (k : ℕ) (m : Map ℕ Pending)
    → Map.get k m ≡ some in_setup
    → suc (setups (Map.delete k m)) ≤ setups m
unfolding setups Map.delete Map.get
setups-delete_in_setup k [] h = cc
setups-delete_in_setup k ((id, in_setup) ∷ m) h = ground (arith, setups-delete_in_setup k m)
setups-delete_in_setup k ((id, waits) ∷ m) h = ground (arith, setups-delete_in_setup k m)
setups-delete_in_setup k ((id, resumed) ∷ m) h = ground (arith, setups-delete_in_setup k m)

setups-set_waits : (k : ℕ) (m : Map ℕ Pending) → setups (Map.set k waits m) ≤ setups m
unfolding setups Map.set
setups-set_waits k [] = omega arith
setups-set_waits k ((id, in_setup) ∷ m) = ground (arith, setups-set_waits k m)
setups-set_waits k ((id, waits) ∷ m) = ground (arith, setups-set_waits k m)
setups-set_waits k ((id, resumed) ∷ m) = ground (arith, setups-set_waits k m)

setups-set_in_setup : (k : ℕ) (m : Map ℕ Pending) → setups (Map.set k in_setup m) ≤ suc (setups m)
unfolding setups Map.set
setups-set_in_setup k [] = omega arith
setups-set_in_setup k ((id, in_setup) ∷ m) = ground (arith, setups-set_in_setup k m)
setups-set_in_setup k ((id, waits) ∷ m) = ground (arith, setups-set_in_setup k m)
setups-set_in_setup k ((id, resumed) ∷ m) = ground (arith, setups-set_in_setup k m)

module _ {T E : Type 0} (truthy : E → Bool) where
  abbrev allowance : World T E → ℕ
  allowance w = w.torn + armed w.teardown + setups w.calls + unset w.initialized

  close-allowance : (w : World T E) → allowance (close w) ≡ allowance w
  unfolding close
  close-allowance w = ground (arith, setups-wake w.calls)

  abort-allowance : (e : E) (w : World T E) → allowance (abort e w) ≡ allowance w
  unfolding abort
  abort-allowance e w = ground (arith, setups-wake w.calls)

  push-allowance : (v : T) (w : World T E) → allowance (push v w) ≡ allowance w
  unfolding push
  push-allowance v w = ground (arith, setups-wake w.calls)

  finish-allowance : (w : World T E) → allowance (finish w) ≡ allowance w
  unfolding finish
  finish-allowance w = ground (arith, setups-wake w.calls)

  resume_next-allowance :
      (id : ℕ) (w : World T E) → allowance (resume_next truthy id w) ≤ allowance w
  unfolding resume_next take
  resume_next-allowance id w = ground (arith, close-allowance w, setups-set_waits id w.calls)

  step-allowance : (a : Action T E) (w : World T E) → allowance (step truthy a w) ≤ allowance w
  unfolding step call_next
  step-allowance calls_next w =
      ground (
        arith,
        resume_next-allowance w.next_call (count w),
        setups-set_in_setup w.next_call w.calls,
      )
  step-allowance (setup_returns id t) w =
      ground
        (arith, resume_next-allowance id (equip t (leave id w)), setups-delete_in_setup id w.calls)
  step-allowance (setup_throws id e) w = ground (arith, setups-delete id w.calls)
  step-allowance (resumes id) w =
      ground (arith, resume_next-allowance id (leave id w), setups-delete id w.calls)
  step-allowance (pushes v) w = omega (arith, push-allowance v w)
  step-allowance finishes_early w = omega (arith, finish-allowance w)
  step-allowance returns w = omega (arith, close-allowance w)
  step-allowance (aborts e) w = omega (arith, abort-allowance e w)

  run-allowance :
      (actions : List (Action T E)) (w : World T E) → allowance (run truthy actions w) ≤ allowance w
  unfolding run
  run-allowance [] w = omega arith
  run-allowance (a ∷ actions) w =
      omega (arith, run-allowance actions (step truthy a w), step-allowance a w)

  -- In any history the teardown function is called at most once.
  pub run_torn : (actions : List (Action T E)) → (run truthy actions init).torn ≤ 1
  unfolding setups
  run_torn actions = omega (arith, run-allowance actions init)

  close-settled : (w : World T E) → (close w).settled ≡ w.settled
  unfolding close
  close-settled w = ground arith

  call_next-finishes :
      (w : World T E)
      → w.queue ≡ []
      → w.initialized ≡ true
      → w.finished ≡ true
      → w.done ≡ false
      → w.error ≡ none
      → (call_next truthy w).settled ≡ w.settled ++ finishes ∷ []
  unfolding call_next resume_next take
  call_next-finishes w q i f d e = ground (arith, close-settled (count w))

  -- The world after a call of `next` that takes the head of the queue.
  abbrev taken : T → List T → World T E → World T E
  taken v vs w = settle (yields v) (record (count w) { it = record w.it { queue = vs } })

  call_next-yields :
      (v : T) (vs : List T) (w : World T E)
      → w.queue ≡ v ∷ vs
      → w.initialized ≡ true
      → w.done ≡ false
      → w.error ≡ none
      → call_next truthy w ≡ taken v vs w
  unfolding call_next resume_next take
  call_next-yields v vs w q i d e = ground arith

  -- An iterator whose setup has started and that is finished, but neither done nor in error, gives
  -- what is queued, in order, and then ends, when `next` is called once more often than values are
  -- queued.
  pub run_drains :
      (vs : List T) (w : World T E)
      → w.queue ≡ vs
      → w.initialized ≡ true
      → w.finished ≡ true
      → w.done ≡ false
      → w.error ≡ none
      → (run truthy (nexts (suc (length vs))) w).settled
        ≡ w.settled ++ (map yields vs ++ finishes ∷ [])
  unfolding run step
  run_drains [] w q i f d e = call_next-finishes w q i f d e
  run_drains (v ∷ vs) w q i f d e =
      ap (λ u. (run truthy (nexts (suc (length vs))) u).settled) (call_next-yields v vs w q i d e)
      ∙ run_drains vs (taken v vs w) refl i f d e
      ∙ append_assoc w.settled (yields v ∷ []) (map yields vs ++ finishes ∷ [])
