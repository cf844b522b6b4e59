-- ===== src/Util/PushIterator.antt =====
-- src/util/AsyncPushIterator.ts as a state machine. A world is the iterator with the calls of
-- `next` that have not settled; an action is one turn of the event loop: a call of a method, the
-- settling of the promise that `setup` returned, or the continuation of a `next` that waited.
pub mod Queue
pub mod Waiting
pub mod Teardown
pub mod Progress
mod Tests
use graphqlade.Common.{
  ℕ, suc, ◌≡◌, Bool, true, false, Option, none, some, List, [], ◌∷◌, ◌++◌, map, if◌then◌else◌,
  nat_eq, ◌&&◌,
}
use graphqlade.Common.Map
use graphqlade.Common.Map.{Map}

-- What a call of `next` settles to: `{ done: false, value }`, `{ done: true }`, or a rejection.
pub data Settled (T E : Type 0) : Type 0 where
  yields : T → Settled T E
  finishes : Settled T E
  throws : E → Settled T E

-- Where a call of `next` stands that has not settled: before `await this.setup(this)` or before
-- `await this.wait()` returns, or after the promise of `wait` was resolved.
pub data Pending : Type 0 where
  in_setup waits resumed : Pending

-- A teardown function, by what it throws when it is called.
abbrev pub Teardown : Type 0 → Type 0
Teardown E = Option E

-- `waiting` stands for the fields `waiting` and `resolveWait`, which are set and cleared together.
pub record PushIterator (T E : Type 0) : Type 0 where
  pub initialized : Bool
  pub finished : Bool
  pub done : Bool
  pub error : Option E
  pub queue : List T
  pub waiting : Bool
  pub teardown : Option (Teardown E)

-- The last three fields record history: values that `push` accepted, and how often the teardown
-- function was called.
pub record World (T E : Type 0) : Type 0 where
  pub it : PushIterator T E
  pub open it use *
  pub calls : Map ℕ Pending
  pub next_call : ℕ
  pub settled : List (Settled T E)
  pub accepted : List T
  pub torn : ℕ

-- Resolving the promise of `wait` makes every call that awaits it runnable.
abbrev pub wake_call : ℕ × Pending → ℕ × Pending
wake_call (id, waits) = (id, resumed)
wake_call (id, p) = (id, p)

module _ {T E : Type 0} where
  abbrev pub init : World T E
  init = record {
    it = record {
      initialized = false;
      finished = false;
      done = false;
      error = none;
      queue = [];
      waiting = false;
      teardown = none;
    };
    calls = [];
    next_call = 0;
    settled = [];
    accepted = [];
    torn = 0;
  }

  abbrev pub settle : Settled T E → World T E → World T E
  settle result w = record w { settled = w.settled ++ result ∷ [] }

  abbrev pub count : World T E → World T E
  count w = record w { next_call = suc w.next_call }

  -- The call numbered `id` goes on.
  abbrev pub leave : ℕ → World T E → World T E
  leave id w = record w { calls = Map.delete id w.calls }

  abbrev pub equip : Option (Teardown E) → World T E → World T E
  equip teardown w = record w { it = record w.it { teardown = teardown } }

  -- `continue`
  unfoldable pub wake : World T E → World T E
  wake w =
      if w.waiting
      then record w { it = record w.it { waiting = false }; calls = map wake_call w.calls }
      else w

  -- `teardownOnce`. An error of the teardown replaces the iterator's error.
  abbrev pub tear : Teardown E → World T E → World T E
  tear none w = record w { it = record w.it { teardown = none }; torn = suc w.torn }
  tear (some e) w = record w {
    it = record w.it { teardown = none; error = some e };
    torn = suc w.torn;
  }

  unfoldable pub teardown_once : World T E → World T E
  teardown_once w = elim w.teardown [ none ↦ w | some t ↦ tear t w ]

  -- The body of `return` and of `throw`, under `if (!this.done)`.
  unfoldable pub close : World T E → World T E
  unfolding wake teardown_once
  close w =
      if w.done
      then w
      else wake (teardown_once (record w { it = record w.it { done = true; finished = true } }))

  unfoldable pub abort : E → World T E → World T E
  unfolding wake teardown_once
  abort e w =
      if w.done
      then w
      else wake (teardown_once (record w { it = record w.it { done = true; error = some e } }))

  unfoldable pub push : T → World T E → World T E
  unfolding wake
  push v w =
      if w.finished
      then w
      else wake (record w {
        it = record w.it { queue = w.queue ++ v ∷ [] };
        accepted = w.accepted ++ v ∷ [];
      })

  unfoldable pub finish : World T E → World T E
  unfolding wake
  finish w = if w.finished then w else wake (record w { it = record w.it { finished = true } })

module _ {E : Type 0} (truthy : E → Bool) where
  -- `if (this.error)`
  abbrev pub raised : Option E → Option E
  raised none = none
  raised (some e) = if truthy e then some e else none

module _ {T E : Type 0} (truthy : E → Bool) where
  -- `next` from its test of `queue.length` on, for the call numbered `id`.
  unfoldable pub take : ℕ → List T → World T E → World T E
  take id (v ∷ vs) w = settle (yields v) (record w { it = record w.it { queue = vs } })
  take id [] w =
      if w.finished
      then settle finishes (close w)
      else record w { it = record w.it { waiting = true }; calls = Map.set id waits w.calls }

  -- `next` from its test of `error` on.
  unfoldable pub resume_next : ℕ → World T E → World T E
  resume_next id w = elim (raised truthy w.error) [
    | some e ↦ settle (throws e) w
    | none ↦ if w.done then settle finishes w else take id w.queue w
  ]

  unfoldable pub call_next : World T E → World T E
  call_next w = if w.initialized then resume_next w.next_call (count w) else record w {
    it = record w.it { initialized = true };
    calls = Map.set w.next_call in_setup w.calls;
    next_call = suc w.next_call;
  }

abbrev is_in_setup : Option Pending → Bool
is_in_setup (some in_setup) = true
is_in_setup _ = false

abbrev is_resumed : Option Pending → Bool
is_resumed (some resumed) = true
is_resumed _ = false

pub data Action (T E : Type 0) : Type 0 where
  calls_next : Action T E
  setup_returns : ℕ → Option (Teardown E) → Action T E
  setup_throws : ℕ → E → Action T E
  resumes : ℕ → Action T E
  pushes : T → Action T E
  finishes_early returns : Action T E
  aborts : E → Action T E

module _ {T E : Type 0} (truthy : E → Bool) where
  -- An action that is not possible changes nothing.
  unfoldable pub step : Action T E → World T E → World T E
  step calls_next w = call_next truthy w
  step (setup_returns id teardown) w =
      if is_in_setup (Map.get id w.calls)
      then resume_next truthy id (equip teardown (leave id w))
      else w
  step (setup_throws id e) w =
      if is_in_setup (Map.get id w.calls) then settle (throws e) (leave id w) else w
  step (resumes id) w =
      if is_resumed (Map.get id w.calls) then resume_next truthy id (leave id w) else w
  step (pushes v) w = push v w
  step finishes_early w = finish w
  step returns w = close w
  step (aborts e) w = abort e w

  unfoldable pub run : List (Action T E) → World T E → World T E
  run [] w = w
  run (a ∷ actions) w = run actions (step a w)
