-- ===== src/Ws/ClientSocket/Ids.antt =====
-- The ids under which a GraphQLClientWebSocket subscribes.
use graphqlade.Common.{
  ℕ, suc, ◌<◌, String, ◌≡◌, ◌≢◌, refl, sym, ◌∙◌, subst, ◌⊎◌, inl, inr, List, [], ◌∷◌, if_split,
  Value, Thrown, Error, All, Distinct, arith, Steps-keep,
}
use graphqlade.Ws.Messages.{ClientMessage, subscribe}
use graphqlade.Ws.ServerSocket.State.{Deferred, resolved, settle_with}
use graphqlade.Ws.ClientSocket.{run}
use graphqlade.Ws.ClientSocket.State.{
  Ready, Effect, sent, ClientSocket, Event, connect, is_open, send,
}
use graphqlade.Ws.ClientSocket.Protocol.{
  IsControl, greets, completes, Move, waits, opens_up, shuts_down, closes_down, settles, controls,
  adds, enrols, runs, retires, forgets,
}
use graphqlade.Ws.ClientSocket.Refinement.{run_client-Moves}

-- The ids of the `subscribe` messages, the newest first.
abbrev pub ids : List Effect → List String
ids [] = []
ids (sent (subscribe id payload) ∷ log) = id ∷ ids log
ids (_ ∷ log) = ids log

ids-control : (m : ClientMessage) (log : List Effect) → IsControl m → ids (sent m ∷ log) ≡ ids log
ids-control m log (greets payload) = refl
ids-control m log (completes id) = refl

module _ (to_string : ℕ → String) where
  -- An id that was given out.
  IsTaken : ℕ → String → Type 0
  IsTaken next id = (k : ℕ) × (k < next) × (id ≡ to_string k)

  record IsNumbered (ack : Deferred) (next : ℕ) (sent_ids : List String) : Type 0 where
    acked : (sent_ids ≡ []) ⊎ ((payload : Value) × (ack ≡ resolved payload))
    taken : All (IsTaken next) sent_ids
    distinct : Distinct sent_ids

  abbrev Numbered : ClientSocket → Type 0
  Numbered s = IsNumbered s.ack s.next_subscription_id (ids s.log)

  All-IsTaken_suc :
      (next : ℕ) (xs : List String) → All (IsTaken next) xs → All (IsTaken (suc next)) xs
  unfolding IsTaken
  All-IsTaken_suc next [] h = tt
  All-IsTaken_suc next (x ∷ xs) ((k, lt, e), h) = ((k, omega arith, e), All-IsTaken_suc next xs h)

  settle-acked :
      (ack new : Deferred) (xs : List String)
      → (xs ≡ []) ⊎ ((payload : Value) × (ack ≡ resolved payload))
      → (xs ≡ []) ⊎ ((payload : Value) × (settle_with ack new ≡ resolved payload))
  settle-acked ack new xs (inl nothing) = inl nothing
  settle-acked ack new xs (inr (payload, e)) = inr (payload, rw e refl)

  module _ (injective : (j k : ℕ) → to_string j ≡ to_string k → j ≡ k) where
    All-ne_fresh :
        (next : ℕ) (xs : List String) → All (IsTaken next) xs → All (λ x. x ≢ to_string next) xs
    unfolding IsTaken
    All-ne_fresh next [] h = tt
    All-ne_fresh next (x ∷ xs) ((k, lt, e), h) =
        (λ same. absurd (omega (arith, injective k next (sym e ∙ same))), All-ne_fresh next xs h)

    enrol-IsNumbered :
        (ack : Deferred) (payload : Value) (next : ℕ) (xs : List String)
        → ack ≡ resolved payload
        → IsNumbered ack next xs
        → IsNumbered ack (suc next) (to_string next ∷ xs)
    unfolding IsTaken
    enrol-IsNumbered ack payload next xs e h = record {
      acked = inr (payload, e);
      taken = ((next, omega arith, refl), All-IsTaken_suc next xs h.taken);
      distinct = (All-ne_fresh next xs h.taken, h.distinct);
    }

    Move-Numbered : (s t : ClientSocket) → Move to_string s t → Numbered s → Numbered t
    unfolding send
    Move-Numbered s t (waits _ _ _) h = h
    Move-Numbered s t (opens_up _) h = h
    Move-Numbered s t shuts_down h = h
    Move-Numbered s t (closes_down _ _ _) h = h
    Move-Numbered s t (settles d) h = record {
      acked = settle-acked s.ack d (ids s.log) h.acked;
      taken = h.taken;
      distinct = h.distinct;
    }
    Move-Numbered s t (controls m control _) h =
        subst (IsNumbered s.ack s.next_subscription_id) (sym (ids-control m s.log control)) h
    Move-Numbered s t (adds _) h = h
    Move-Numbered s t (enrols n stream payload _ _ e) h =
        if_split (λ (u : ClientSocket). IsNumbered u.ack u.next_subscription_id (ids u.log))
          (is_open s.ready)
          (λ _. enrol-IsNumbered s.ack payload s.next_subscription_id (ids s.log) e h)
          (λ _. record {
            acked = h.acked;
            taken = All-IsTaken_suc s.next_subscription_id (ids s.log) h.taken;
            distinct = h.distinct;
          })
    Move-Numbered s t (runs _ _ _ _) h = h
    Move-Numbered s t (retires _ _ _ _ _ _) h = h
    Move-Numbered s t (forgets _ _) h = h

    connect-Numbered : (ready : Ready) → Numbered (connect ready)
    unfolding connect
    connect-Numbered ready = record { acked = inl refl; taken = tt; distinct = tt }

module _ (to_error : Thrown → Error) (show : Value → String) (to_string : ℕ → String) where
  -- If numbers with the same text are equal, then whatever happens to a new client socket, no two
  -- of its `subscribe` messages have the same id.
  pub run-Distinct :
      ((j k : ℕ) → to_string j ≡ to_string k → j ≡ k)
      → (ready : Ready) (events : List Event)
      → Distinct (ids (run to_error show to_string events (connect ready)).log)
  run-Distinct injective ready events =
      (Steps-keep (Numbered to_string) (Move-Numbered to_string injective)
        (run_client-Moves to_error show to_string events (connect ready))
        (connect-Numbered to_string injective ready)).distinct

  -- If numbers with the same text are equal, then a new client socket to which anything may have
  -- happened has sent no `subscribe` message, or its connection was acknowledged.
  pub run_acked :
      ((j k : ℕ) → to_string j ≡ to_string k → j ≡ k)
      → (ready : Ready) (events : List Event)
      → (ids (run to_error show to_string events (connect ready)).log ≡ [])
        ⊎ ((payload : Value) × ((run to_error show to_string events (connect ready)).ack
              ≡ resolved payload))
  run_acked injective ready events =
      (Steps-keep (Numbered to_string) (Move-Numbered to_string injective)
        (run_client-Moves to_error show to_string events (connect ready))
        (connect-Numbered to_string injective ready)).acked
