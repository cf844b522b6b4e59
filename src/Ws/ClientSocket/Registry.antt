-- ===== src/Ws/ClientSocket/Registry.antt =====
-- How the iterators of a GraphQLClientWebSocket and its subscriptions belong together.
use graphqlade.Common.{
  Option-cases, ℕ, ◌≤◌, ◌<◌, String, ◌≡◌, refl, sym, ◌∙◌, subst, inl, inr, true, none, some, List,
  [], ◌∷◌, Value, Thrown, arith, nat_eq, nat_equal_iff, string_eq, ◌===◌, Bool-cases,
}
use graphqlade.Common.Map
use graphqlade.Common.Map.{Map}
use graphqlade.Util.PushIterator
use graphqlade.Util.PushIterator.{Action}
use graphqlade.Util.PushIterator.Progress.{Grows, step-Grows}
use graphqlade.Util.PushIterator.Waiting.{IsAwake, step-IsAwake}
use graphqlade.Ws.ServerSocket.Handlers.{is_scheduled, unschedule}
use graphqlade.Ws.ClientSocket.State.{Stream, is_raised}

-- The iterator numbered `n`, with an id.
pub record Owns (streams : Map ℕ Stream) (n : ℕ) (stream : Stream) (id : String) : Type 0 where
  pub here : Map.get n streams ≡ some stream
  pub named : stream.id ≡ some id

pub record IsRegistry (to_string : ℕ → String) (streams : Map ℕ Stream)
    (subscriptions : Map String ℕ) (next_id next_stream : ℕ) (expiring : List String) : Type 0 where
  pub fresh : (n : ℕ) → next_stream ≤ n → Map.get n streams ≡ none
  pub numbered :
      (n : ℕ) (a : Stream) (id : String)
      → Owns streams n a id
      → (k : ℕ) × (k < next_id) × (id ≡ to_string k)
  pub owner :
      (n m : ℕ) (a b : Stream) (id : String) → Owns streams n a id → Owns streams m b id → n ≡ m
  pub listed :
      (n : ℕ) (a : Stream) (id : String)
      → Owns streams n a id
      → a.it.torn ≡ 0
      → Map.get id subscriptions ≡ some n
  pub retired :
      (id : String)
      → is_scheduled id expiring ≡ true
      → (n : ℕ) × (a : Stream) × Owns streams n a id × (0 < a.it.torn)
  pub over : (n : ℕ) (a : Stream) → Map.get n streams ≡ some a → 0 < a.it.torn → a.it.done ≡ true
  pub awake : (n : ℕ) (a : Stream) → Map.get n streams ≡ some a → IsAwake a.it
  pub unique : Map.IsUnique subscriptions

-- An action on one iterator keeps the id, and only adds to its history.
pub record Evolves (a b : Stream) : Type 0 where
  same_id : b.id ≡ a.id
  grows : Grows a.it b.it
  wakes : IsAwake a.it → IsAwake b.it

pub run-Evolves :
    (action : Action Value Thrown) (a : Stream)
    → Evolves a (record a { it = PushIterator.step is_raised action a.it })
run-Evolves action a = record {
  same_id = refl;
  grows = step-Grows is_raised action a.it;
  wakes = step-IsAwake is_raised action a.it;
}

Evolves-refl : (a : Stream) → Evolves a a
Evolves-refl a = record {
  same_id = refl;
  grows = record {
    counted = omega arith;
    stays_done = λ h. h;
    stays_finished = λ h. h;
    torn_done = λ h. h;
  };
  wakes = λ h. h;
}

pub is_scheduled-unschedule :
    (id j : String) (xs : List String)
    → is_scheduled j (unschedule id xs) ≡ true
    → is_scheduled j xs ≡ true
is_scheduled-unschedule id j [] h = cc
is_scheduled-unschedule id j (x ∷ xs) h = ground (arith, is_scheduled-unschedule id j xs)

-- Every iterator of either map has a counterpart in the other.
pub record Follows (old new : Map ℕ Stream) : Type 0 where
  back :
      (n : ℕ) (b : Stream)
      → Map.get n new ≡ some b
      → (a : Stream) × (Map.get n old ≡ some a) × Evolves a b
  forth :
      (n : ℕ) (a : Stream)
      → Map.get n old ≡ some a
      → (b : Stream) × (Map.get n new ≡ some b) × Evolves a b

pub set-Follows :
    (k : ℕ) (a b : Stream) (old : Map ℕ Stream)
    → Map.get k old ≡ some a
    → Evolves a b
    → Follows old (Map.set k b old)
set-Follows k a b old here evolves = record { back = back; forth = forth }
  where
    back :
        (n : ℕ) (c : Stream)
        → Map.get n (Map.set k b old) ≡ some c
        → (a' : Stream) × (Map.get n old ≡ some a') × Evolves a' c
    back n c found = elim (Map.get-set_cases k n b old found) [
      | inl (same, e) ↦
          (a, subst (λ j. Map.get j old ≡ some a) same here, subst (Evolves a) e evolves)
      | inr (other, found') ↦ (c, found', Evolves-refl c)
    ]

    forth :
        (n : ℕ) (c : Stream)
        → Map.get n old ≡ some c
        → (b' : Stream) × (Map.get n (Map.set k b old) ≡ some b') × Evolves c b'
    forth n c found = elim (Bool-cases (k === n)) [
      | inl same ↦
          let e = (nat_equal_iff k n).0 same in
          (
            b,
            subst (λ j. Map.get j (Map.set k b old) ≡ some b) e (Map.get-set_self k b old),
            subst (λ d. Evolves d b) (cc (here, found, e)) evolves,
          )
      | inr other ↦ (c, Map.get-set_other k n b old other ∙ found, Evolves-refl c)
    ]

module _ (to_string : ℕ → String) (streams : Map ℕ Stream) (subscriptions : Map String ℕ)
    (next_id next_stream : ℕ) (expiring : List String)
    (r : IsRegistry to_string streams subscriptions next_id next_stream expiring) where
  pub follow :
      (new : Map ℕ Stream)
      → Follows streams new
      → IsRegistry to_string new subscriptions next_id next_stream expiring
  follow new f = record {
    fresh = λ n late. elim (Option-cases (Map.get n new)) [
      | inl absent ↦ absent
      | inr (b, found) ↦ let (a, here, _) = f.back n b found in cc (here, r.fresh n late)
    ];
    numbered = λ n b id o. let (a, old, _) = origin n b id o in r.numbered n a id old;
    owner = λ n m b d id o p.
        let (a, old, _) = origin n b id o in
        let (c, old', _) = origin m d id p in r.owner n m a c id old old';
    listed = λ n b id o alive.
        let (a, old, e) = origin n b id o in
        r.listed n a id old (omega (arith, e.grows.counted, alive));
    retired = λ id due.
        let (n, a, o, torn) = r.retired id due in
        let (b, here, e) = f.forth n a o.here in
        (
          n,
          b,
          record { here = here; named = e.same_id ∙ o.named },
          omega (arith, e.grows.counted, torn),
        );
    over = λ n b found torn.
        let (a, here, e) = f.back n b found in e.grows.torn_done (r.over n a here) torn;
    awake = λ n b found. let (a, here, e) = f.back n b found in e.wakes (r.awake n a here);
    unique = r.unique;
  }
    where
      origin :
          (n : ℕ) (b : Stream) (id : String)
          → Owns new n b id
          → (a : Stream) × Owns streams n a id × Evolves a b
      origin n b id o =
          let (a, here, e) = f.back n b o.here in
          (a, record { here = here; named = sym e.same_id ∙ o.named }, e)
