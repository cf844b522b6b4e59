-- ===== src/Ws/ServerSocket/Finals.antt =====
-- The messages that a GraphQLServerWebSocket sends for one of its subscriptions.
use graphqlade.Common.{
  Steps-keep, subst, ap, Bool-cases, inl, inr, nat_equal_iff, ℕ, suc, ◌≤◌, ◌≡◌, refl, sym, ◌∙◌,
  Bool, true, false, not, ◌&&◌, ◌||◌, Option, none, some, List, [], ◌∷◌, String, Value, Thrown,
  Error, arith, if_split, nat_eq, ◌===◌,
}
use graphqlade.Common.Map
use graphqlade.Common.Map.{Map}
use graphqlade.Ws.Messages.{ServerMessage, next}
use graphqlade.Ws.ServerSocket.{run}
use graphqlade.Ws.ServerSocket.State.{
  Progress, pending, iterating, Subscription, Effect, sent, ServerSocket, Event, setup, close,
  is_supported,
}
use graphqlade.Ws.ServerSocket.Protocol.{
  Ends, exhausts, answers, Turns, iterates, fails, Move, schedules, forgets, shuts, closes, logs,
  begins, confirms, accepts, rejects, subscribes, turns, streams, finishes, stops, stops_iterator,
}
use graphqlade.Ws.ServerSocket.Refinement.{run-Moves}

abbrev pub is_final : ServerMessage → Bool
is_final (ServerMessage.complete _) = true
is_final (ServerMessage.error _ _) = true
is_final _ = false

-- The effect is a message for the subscription numbered `n`.
abbrev pub is_for : ℕ → Effect → Bool
is_for n (sent (some k) message) = k === n
is_for n _ = false

-- The effect is a final one of them.
abbrev pub concludes : ℕ → Effect → Bool
concludes n (sent (some k) message) = k === n && is_final message
concludes n _ = false

abbrev pub is_concluded : ℕ → List Effect → Bool
is_concluded n [] = false
is_concluded n (e ∷ log) = concludes n e || is_concluded n log

-- No message for the subscription comes after a final one. The log has the newest effect first.
abbrev pub ends_with_final : ℕ → List Effect → Bool
ends_with_final n [] = true
ends_with_final n (e ∷ log) = not (is_for n e && is_concluded n log) && ends_with_final n log

-- The subscription can still send something: it waits for `subscribe`, or is iterated.
abbrev live_progress : Progress → Bool
live_progress pending = true
live_progress iterating = true
live_progress _ = false

abbrev is_live : Option Subscription → Bool
is_live none = false
is_live (some sub) = live_progress sub.progress

record IsFinishing (n : ℕ) (promises : Map ℕ Subscription) (next_number : ℕ) (log : List Effect)
    : Type 0 where
  unborn : next_number ≤ n → (Map.get n promises ≡ none) × (is_concluded n log ≡ false)
  alive : is_live (Map.get n promises) ≡ true → is_concluded n log ≡ false
  ordered : ends_with_final n log ≡ true

abbrev Finishing : ℕ → ServerSocket → Type 0
Finishing n s = IsFinishing n s.promises s.next_number s.log

module _ (n k : ℕ) (s : ServerSocket) (sub : Subscription) (to : Progress) where
  abbrev changed : Map ℕ Subscription
  changed = Map.set k (record sub { progress = to }) s.promises

  get-changed_same : k ≡ n → Map.get n changed ≡ some (record sub { progress = to })
  get-changed_same same =
      subst (λ j. Map.get j changed ≡ some (record sub { progress = to })) same
        (Map.get-set_self k _ s.promises)

  get-changed_other : (k === n) ≡ false → Map.get n changed ≡ Map.get n s.promises
  get-changed_other other = Map.get-set_other k n (record sub { progress = to }) s.promises other

  module _ (here : Map.get k s.promises ≡ some sub) where
    changed-unborn : (Map.get n s.promises ≡ none) → Map.get n changed ≡ none
    changed-unborn absent = elim (Bool-cases (k === n)) [
      | inl same ↦ cc (here, absent, (nat_equal_iff k n).0 same)
      | inr other ↦ get-changed_other other ∙ absent
    ]

    changed-live :
        is_live (some sub) ≡ true
        → is_live (Map.get n changed) ≡ true
        → is_live (Map.get n s.promises) ≡ true
    changed-live live up = elim (Bool-cases (k === n)) [
      | inl same ↦
          subst (λ j. is_live (Map.get j s.promises) ≡ true) ((nat_equal_iff k n).0 same)
            (rw here live)
      | inr other ↦ ap is_live (sym (get-changed_other other)) ∙ up
    ]

    -- A subscription changes, and nothing is sent.
    turn-Finishing :
        is_live (some sub) ≡ true → Finishing n s → IsFinishing n changed s.next_number s.log
    turn-Finishing live f = record {
      unborn = λ later. (changed-unborn (f.unborn later).0, (f.unborn later).1);
      alive = λ up. f.alive (changed-live live up);
      ordered = f.ordered;
    }

module _ (n k : ℕ) (s : ServerSocket) (sub : Subscription) (here : Map.get k s.promises ≡ some sub)
    (live : is_live (some sub) ≡ true) (f : Finishing n s) where
  found-live : k ≡ n → is_live (Map.get n s.promises) ≡ true
  found-live same = subst (λ j. is_live (Map.get j s.promises) ≡ true) same (rw here live)

  not_unborn : s.next_number ≤ n → (k === n) ≡ false
  not_unborn later = elim (Bool-cases (k === n)) [
    | inl same ↦ cc (here, (f.unborn later).0, (nat_equal_iff k n).0 same)
    | inr other ↦ other
  ]

  send-ordered :
      (message : ServerMessage) → ends_with_final n (sent (some k) message ∷ s.log) ≡ true
  send-ordered message = ground (arith, found-live, f.alive, f.ordered, nat_equal_iff k n)

  send-unborn :
      (message : ServerMessage)
      → s.next_number ≤ n
      → is_concluded n (sent (some k) message ∷ s.log) ≡ false
  send-unborn message later = rw (not_unborn later) (f.unborn later).1

  next-Finishing :
      (r : Value) → IsFinishing n s.promises s.next_number (sent (some k) (next sub.id r) ∷ s.log)
  next-Finishing r = record {
    unborn = λ later. ((f.unborn later).0, send-unborn (next sub.id r) later);
    alive = λ up. ground (arith, f.alive up);
    ordered = send-ordered (next sub.id r);
  }

  final-Finishing :
      (to : Progress) (message : ServerMessage)
      → is_live (some (record sub { progress = to })) ≡ false
      → IsFinishing n
          (Map.set k (record sub { progress = to }) s.promises)
          s.next_number
          (sent (some k) message ∷ s.log)
  final-Finishing to message dead = record {
    unborn =
        λ later. (changed-unborn n k s sub to here (f.unborn later).0, send-unborn message later);
    alive = λ up. elim (Bool-cases (k === n)) [
      | inl same ↦ cc (get-changed_same n k s sub to ((nat_equal_iff k n).0 same), dead, up)
      | inr other ↦ rw other (f.alive (changed-live n k s sub to here live up))
    ];
    ordered = send-ordered message;
  }

lt-differ : {k n : ℕ} → suc k ≤ n → (k === n) ≡ false
lt-differ later = ground arith

-- A new subscription is pending, and nothing was sent for it.
subscribe-Finishing :
    (n : ℕ) (id : String) (s : ServerSocket) (log : List Effect)
    → Finishing n s
    → (is_concluded n log ≡ is_concluded n s.log)
    → (ends_with_final n log ≡ true)
    → IsFinishing n
        (Map.set s.next_number (record { id = id; progress = pending }) s.promises)
        (suc s.next_number)
        log
subscribe-Finishing n id s log f same ordered = record {
  unborn = λ later.
      let other = lt-differ later in
      (
        Map.get-set_other s.next_number n _ s.promises other ∙ (f.unborn (omega (arith, later))).0,
        same ∙ (f.unborn (omega (arith, later))).1,
      );
  alive = λ up. same ∙ elim (Bool-cases (s.next_number === n)) [
    | inl here ↦ (f.unborn (omega (arith, (nat_equal_iff s.next_number n).0 here))).1
    | inr other ↦
        f.alive (ap is_live (sym (Map.get-set_other s.next_number n _ s.promises other)) ∙ up)
  ];
  ordered = ordered;
}

Turns-live : {from to : Progress} → Turns from to → live_progress from ≡ true
Turns-live iterates = refl
Turns-live (fails t) = refl

Ends-live :
    {from to : Progress} → Ends from to → (live_progress from ≡ true) × (live_progress to ≡ false)
Ends-live exhausts = (refl, refl)
Ends-live answers = (refl, refl)

Move-Finishing : (n : ℕ) (s t : ServerSocket) → Move s t → Finishing n s → Finishing n t
Move-Finishing n s t (schedules _ _ _ _) f = f
Move-Finishing n s t (forgets _) f = f
Move-Finishing n s t (shuts) f = f
Move-Finishing n s t (turns k sub to here turn) f =
    turn-Finishing n k s sub to here (Turns-live turn) f
Move-Finishing n s t (stops k sub to _ here over) f =
    turn-Finishing n k s sub to here (Ends-live over).0 f
Move-Finishing n s t (closes _ _ _) f = record {
  unborn = f.unborn;
  alive = f.alive;
  ordered = f.ordered;
}
Move-Finishing n s t (logs _) f = record { unborn = f.unborn; alive = f.alive; ordered = f.ordered }
Move-Finishing n s t (confirms _ _) f = record {
  unborn = f.unborn;
  alive = f.alive;
  ordered = f.ordered;
}
Move-Finishing n s t (streams k sub r _ here running) f =
    next-Finishing n k s sub here (ap live_progress running) f r
Move-Finishing n s t (finishes k sub to message _ here over _) f =
    final-Finishing n k s sub here (Ends-live over).0 f to message (Ends-live over).1
Move-Finishing n s t (stops_iterator _) f = record {
  unborn = f.unborn;
  alive = f.alive;
  ordered = f.ordered;
}
Move-Finishing n s t (begins _ _) f = record {
  unborn = f.unborn;
  alive = f.alive;
  ordered = f.ordered;
}
Move-Finishing n s t (accepts _) f = f
Move-Finishing n s t (rejects _) f = f
Move-Finishing n s t (subscribes id _ _ _ _) f = subscribe-Finishing n id s _ f refl f.ordered

setup-Finishing : (n : ℕ) (protocol : String) → Finishing n (setup protocol)
unfolding setup close Map.get
setup-Finishing n protocol =
    if_split (Finishing n) (is_supported protocol)
      (λ _. record { unborn = λ _. (refl, refl); alive = λ _. refl; ordered = refl })
      (λ _. record { unborn = λ _. (refl, refl); alive = λ _. refl; ordered = refl })

module _ (to_error : Thrown → Error) (show : Value → String) where
  -- Whatever happens to a socket after `setup`, no message for a subscription comes after its
  -- `complete` or `error`.
  pub run-ends_with_final :
      (n : ℕ) (protocol : String) (events : List Event)
      → ends_with_final n (run to_error show events (setup protocol)).log ≡ true
  run-ends_with_final n protocol events =
      (Steps-keep (Finishing n) (Move-Finishing n) (run-Moves to_error show events (setup protocol))
        (setup-Finishing n protocol)).ordered
