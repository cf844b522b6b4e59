-- ===== src/Ws/ClientSocket/Routing.antt =====
-- Which iterator of a GraphQLClientWebSocket a message reaches.
use graphqlade.Common.{
  ℕ, ltb, String, ◌≡◌, refl, inl, inr, true, Option, none, some, List, Value, Fields, Thrown, Error,
  ok, Steps-keep, Option-cases, if_split, arith, nat_eq, string_eq,
}
use graphqlade.Common.Map
use graphqlade.Common.Map.{Map, is_some}
use graphqlade.Util.Guards.{is_record}
use graphqlade.Util.PushIterator
use graphqlade.Util.PushIterator.{Action, pushes, aborts}
use graphqlade.Ws.Messages.{next}
use graphqlade.Ws.ClientParsers.{parse_message}
use graphqlade.Ws.ClientSocket.{run}
use graphqlade.Ws.ClientSocket.State.{
  Stream, Ready, ClientSocket, Event, message_event, connect, is_open, is_raised, send, teardown,
  act, act_at,
}
use graphqlade.Ws.ClientSocket.Steps.{
  with_subscription, handle_message, awaits_ack, dispatch, handle_message_event, step,
}
use graphqlade.Ws.ClientSocket.Protocol.{
  enrol, Move, waits, opens_up, shuts_down, closes_down, settles, controls, adds, enrols, runs,
  retires, forgets,
}
use graphqlade.Ws.ClientSocket.Refinement.{run_client-Moves}
use graphqlade.Ws.ClientSocket.Registry.{Owns, IsRegistry, follow, run-Evolves, set-Follows}
use graphqlade.Ws.ClientSocket.Registration.{add, retire, forget, enrol_registry}

awaits_ack-bare : (a : Stream) → awaits_ack a ≡ true → a.id ≡ none
awaits_ack-bare a waiting = elim (Option-cases a.id) [
  | inl bare ↦ bare
  | inr (id, named) ↦ ground arith
]

module _ (to_string : ℕ → String) (injective : (j k : ℕ) → to_string j ≡ to_string k → j ≡ k) where
  abbrev pub Registered : ClientSocket → Type 0
  Registered s =
      IsRegistry to_string s.streams s.subscriptions s.next_subscription_id s.next_stream s.expiring

  module _ (s : ClientSocket) (r : Registered s) where
    enrol-Registered :
        (n : ℕ) (a : Stream)
        → Map.get n s.streams ≡ some a
        → a.id ≡ none
        → Registered (enrol to_string n a s)
    unfolding send
    enrol-Registered n a here bare =
        let kept =
          enrol_registry to_string s.streams s.subscriptions s.next_subscription_id s.next_stream
            s.expiring r injective n a here bare in
        if_split Registered (is_open s.ready) (λ _. kept) (λ _. kept)

  pub Move-Registered : (s t : ClientSocket) → Move to_string s t → Registered s → Registered t
  Move-Registered s t (waits _ _ _) r = r
  Move-Registered s t (opens_up _) r = r
  Move-Registered s t shuts_down r = r
  Move-Registered s t (closes_down _ _ _) r = r
  Move-Registered s t (settles _) r = r
  Move-Registered s t (controls _ _ _) r = r
  Move-Registered s t (adds payload) r = add to_string _ _ _ _ _ r payload
  Move-Registered s t (enrols n a payload here waiting _) r =
      enrol-Registered s r n a here (awaits_ack-bare a waiting)
  Move-Registered s t (runs n a action here) r =
      follow to_string _ _ _ _ _ r _ (set-Follows n a _ s.streams here (run-Evolves action a))
  Move-Registered s t (retires n a id here named torn) r =
      retire to_string _ _ _ _ _ r n a id (record { here = here; named = named }) torn
  Move-Registered s t (forgets id due) r = forget to_string _ _ _ _ _ r id due

  connect-Registered : (ready : Ready) → Registered (connect ready)
  unfolding connect Map.get
  connect-Registered ready = record {
    fresh = λ n late. refl;
    numbered = λ n a id o. cc o.here;
    owner = λ n m a b id o p. cc o.here;
    listed = λ n a id o alive. cc o.here;
    retired = λ id due. cc;
    over = λ n a found torn. cc;
    awake = λ n a found. cc found;
    unique = tt;
  }

teardown-streams : (id : Option String) (s : ClientSocket) → (teardown id s).streams ≡ s.streams
unfolding teardown send
teardown-streams none s = refl
teardown-streams (some id) s =
    if_split (λ (t : ClientSocket). t.streams ≡ s.streams) (is_open s.ready) (λ _. refl) (λ _. refl)

-- An action on one iterator leaves the others as they are.
pub act-streams :
    (action : Action Value Thrown) (n : ℕ) (a : Stream) (s : ClientSocket)
    → (act action n a s).streams
      ≡ Map.set n (record a { it = PushIterator.step is_raised action a.it }) s.streams
unfolding act
act-streams action n a s =
    if_split
      (λ (t : ClientSocket).
        t.streams ≡ Map.set n (record a { it = PushIterator.step is_raised action a.it }) s.streams)
      (ltb a.it.torn (PushIterator.step is_raised action a.it).torn) (λ _. teardown-streams a.id _)
      (λ _. refl)

module _ (to_error : Thrown → Error) (show : Value → String) (to_string : ℕ → String)
    (injective : (j k : ℕ) → to_string j ≡ to_string k → j ≡ k) where
  pub run-Registered :
      (ready : Ready) (events : List Event)
      → Registered to_string injective (run to_error show to_string events (connect ready))
  run-Registered ready events =
      Steps-keep (Registered to_string injective) (Move-Registered to_string injective)
        (run_client-Moves to_error show to_string events (connect ready))
        (connect-Registered to_string injective ready)

  -- If numbers with the same text are equal, then after any history a `next` message with the id of
  -- an iterator that was not torn down is pushed to that iterator, and to no other.
  pub run_routes :
      (ready : Ready) (events : List Event) (n : ℕ) (a : Stream) (id : String) (v payload : Value)
      (fields : Fields)
      → Owns (run to_error show to_string events (connect ready)).streams n a id
      → a.it.torn ≡ 0
      → is_record v ≡ some fields
      → parse_message fields ≡ some (ok (next id payload))
      → let s = run to_error show to_string events (connect ready) in
        (step to_error show to_string (message_event (inr v)) s).streams
        ≡ Map.set n (record a { it = PushIterator.push payload a.it }) s.streams
  unfolding step handle_message_event dispatch handle_message with_subscription act_at
      PushIterator.step
  run_routes ready events n a id v payload fields o alive is_object parsed =
      let s = run to_error show to_string events (connect ready) in
      let r = run-Registered ready events in
      rw
        (
          is_object,
          parsed,
          r.listed n a id o alive,
          o.here,
          step,
          handle_message_event,
          dispatch,
          handle_message,
          with_subscription,
          act_at,
        )
        (act-streams (pushes payload) n a s)
