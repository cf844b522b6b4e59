-- ===== src/Util/PushIterator/Tests.antt =====
-- Histories of the iterator of AsyncPushIterator.ts, and its theorems at concrete histories.
use graphqlade.Common.{ℕ, ◌≤◌, ◌≡◌, refl, Bool, true, none, some, List, [], ◌∷◌, ◌++◌, nat_eq}
use graphqlade.Common.Map
use graphqlade.Util.PushIterator.{
  yields, finishes, throws, in_setup, World, init, close, abort, push, finish, take, resume_next,
  call_next, Action, calls_next, setup_returns, resumes, pushes, finishes_early, returns, aborts,
  step, run,
}
use graphqlade.Util.PushIterator.Queue.{delivered, run_fifo}
use graphqlade.Util.PushIterator.Waiting.{run_waits}
use graphqlade.Util.PushIterator.Teardown.{run_torn, return_during_setup, run_drains, nexts}

running : Unit {0}
unfolding run step call_next resume_next take push finish close abort Map.get Map.set Map.delete
running = tt

abbrev always : ℕ → Bool
always e = true

-- Two calls of `next` wait; one push wakes both, one of them takes the value, and the other waits
-- again until the iterator is finished.
abbrev history : List (Action ℕ ℕ)
history =
    calls_next
    ∷ setup_returns 0 (some none)
    ∷ calls_next
    ∷ pushes 5
    ∷ resumes 1
    ∷ resumes 0
    ∷ pushes 6
    ∷ pushes 7
    ∷ resumes 0
    ∷ finishes_early
    ∷ calls_next
    ∷ calls_next
    ∷ []

told :
    ((run always history init).settled ≡ yields 5 ∷ yields 6 ∷ yields 7 ∷ finishes ∷ [])
    × ((run always history init).torn ≡ 1)
unfolding running
told = (refl, refl)

abbrev start : List (Action ℕ ℕ)
start = calls_next ∷ setup_returns 0 none ∷ []

-- An error that the teardown throws replaces the one that was given to `throw`.
failing :
    (run {T = ℕ} always
      (calls_next ∷ setup_returns 0 (some (some 9)) ∷ aborts 8 ∷ resumes 0 ∷ calls_next ∷ [])
      (init {T = ℕ})).settled
    ≡ throws 9 ∷ throws 9 ∷ []
unfolding running
failing = refl

run_fifo_example :
    (run always history init).accepted
    ≡ delivered (run always history init).settled ++ (run always history init).queue
run_fifo_example = run_fifo always history

run_waits_example : (run always start init).queue ≡ []
unfolding running
run_waits_example = (run_waits always start 0 refl).0

run_torn_example : (run always history init).torn ≤ 1
run_torn_example = run_torn always history

abbrev in_progress : World ℕ ℕ
in_progress = record init {
  it = record init.it { initialized = true };
  calls = (0, in_setup) ∷ [];
  next_call = 1;
}

return_during_setup_example :
    (run always
      (returns ∷ setup_returns 0 (some none) ∷ calls_next ∷ returns ∷ [])
      in_progress).torn
    ≡ 0
unfolding Map.get
return_during_setup_example =
    (return_during_setup always in_progress 0 none (calls_next ∷ returns ∷ []) refl refl refl).1

abbrev ended : World ℕ ℕ
ended = record init {
  it = record init.it { initialized = true; finished = true; queue = 1 ∷ 2 ∷ [] };
}

run_drains_example : (run always (nexts 3) ended).settled ≡ yields 1 ∷ yields 2 ∷ finishes ∷ []
run_drains_example = run_drains always (1 ∷ 2 ∷ []) ended refl refl refl refl refl
