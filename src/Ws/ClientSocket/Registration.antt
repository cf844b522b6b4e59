-- ===== src/Ws/ClientSocket/Registration.antt =====
-- Adding, enrolling and retiring iterators keeps the registry of a GraphQLClientWebSocket.
use graphqlade.Common.{
  ◌⊎◌, ℕ, suc, ◌<◌, String, ◌≡◌, sym, ◌∙◌, ap, subst, inl, inr, true, false, none, some, List, ◌∷◌,
  arith, nat_eq, nat_equal_iff, string_eq, ◌===◌, Bool-cases,
}
use graphqlade.Common.Map
use graphqlade.Common.Map.{Map}
use graphqlade.Util.PushIterator.Waiting.{IsAwake, init-IsAwake}
use graphqlade.Ws.Messages.{SubscribePayload}
use graphqlade.Ws.ServerSocket.Handlers.{is_scheduled, unschedule}
use graphqlade.Ws.ClientSocket.State.{Stream, is_raised}
use graphqlade.Ws.ClientSocket.Steps.{new_stream}
use graphqlade.Ws.ClientSocket.Registry.{Owns, IsRegistry, is_scheduled-unschedule}

module _ (to_string : ℕ → String) (streams : Map ℕ Stream) (subscriptions : Map String ℕ)
    (next_id next_stream : ℕ) (expiring : List String)
    (r : IsRegistry to_string streams subscriptions next_id next_stream expiring) where
  -- An owner of the enlarged map is one of the old map, or has the new key.
  owned_before :
      (k n : ℕ) (b a : Stream) (id : String)
      → Owns (Map.set k b streams) n a id
      → ((k ≡ n) × (b ≡ a)) ⊎ Owns streams n a id
  owned_before k n b a id o = elim (Map.get-set_cases k n b streams o.here) [
    | inl same ↦ inl same
    | inr (other, found) ↦ inr (record { here = found; named = o.named })
  ]

  owned_after :
      (k n : ℕ) (b a : Stream) (id : String)
      → (k === n) ≡ false
      → Owns streams n a id
      → Owns (Map.set k b streams) n a id
  owned_after k n b a id other o = record {
    here = Map.get-set_other k n b streams other ∙ o.here;
    named = o.named;
  }

  -- The key of an owner is not one of an iterator without id.
  differs :
      (k n : ℕ) (a : Stream) (id : String)
      → ((c : Stream) → Map.get k streams ≡ some c → c.id ≡ none)
      → Owns streams n a id
      → (k === n) ≡ false
  differs k n a id unnamed o = elim (Bool-cases (k === n)) [
    | inl same ↦
        let e = (nat_equal_iff k n).0 same in
        let bare = unnamed a (rw e o.here) in cc (bare, o.named)
    | inr other ↦ other
  ]

  pub add :
      (payload : SubscribePayload)
      → IsRegistry to_string
          (Map.set next_stream (new_stream payload) streams)
          subscriptions
          next_id
          (suc next_stream)
          expiring
  add payload = record {
    fresh = λ n late.
        Map.get-set_other next_stream n _ streams (ground arith) ∙ r.fresh n (omega (arith, late));
    numbered = λ n a id o. r.numbered n a id (before n a id o);
    owner = λ n m a b id o p. r.owner n m a b id (before n a id o) (before m b id p);
    listed = λ n a id o alive. r.listed n a id (before n a id o) alive;
    retired = λ id due.
        let (n, a, o, torn) = r.retired id due in
        (
          n,
          a,
          owned_after next_stream n (new_stream payload) a id (differs next_stream n a id unnamed o)
              o,
          torn,
        );
    over = λ n a found torn.
        elim (Map.get-set_cases next_stream n (new_stream payload) streams found) [
          | inl (same, e) ↦ absurd (omega (arith, ap (λ (c : Stream). c.it.torn) e, torn))
          | inr (other, found') ↦ r.over n a found' torn
        ];
    awake = λ n a found. elim (Map.get-set_cases next_stream n (new_stream payload) streams found) [
      | inl (same, e) ↦ subst (λ (c : Stream). IsAwake c.it) e (init-IsAwake is_raised)
      | inr (other, found') ↦ r.awake n a found'
    ];
    unique = r.unique;
  }
    where
      before :
          (n : ℕ) (a : Stream) (id : String)
          → Owns (Map.set next_stream (new_stream payload) streams) n a id
          → Owns streams n a id
      before n a id o = elim (owned_before next_stream n (new_stream payload) a id o) [
        | inl (same, e) ↦ cc (ap (λ (c : Stream). c.id) e, o.named)
        | inr old ↦ old
      ]

      unnamed : (c : Stream) → Map.get next_stream streams ≡ some c → c.id ≡ none
      unnamed c found = cc (found, r.fresh next_stream (omega arith))

  pub retire :
      (n : ℕ) (a : Stream) (id : String)
      → Owns streams n a id
      → 0 < a.it.torn
      → IsRegistry to_string streams subscriptions next_id next_stream (id ∷ expiring)
  retire n a id o torn = record {
    fresh = r.fresh;
    numbered = r.numbered;
    owner = r.owner;
    listed = r.listed;
    retired = λ j due. elim (Bool-cases (id === j)) [
      | inl same ↦ (n, a, subst (Owns streams n a) ((string_eq.equal_iff id j).0 same) o, torn)
      | inr other ↦ r.retired j (rw other at due)
    ];
    over = r.over;
    awake = r.awake;
    unique = r.unique;
  }

  pub forget :
      (id : String)
      → is_scheduled id expiring ≡ true
      → IsRegistry to_string streams
          (Map.delete id subscriptions)
          next_id
          next_stream
          (unschedule id expiring)
  forget id due = record {
    fresh = r.fresh;
    numbered = r.numbered;
    owner = r.owner;
    listed = λ n a j o alive. elim (Bool-cases (id === j)) [
      | inl same ↦
          let (m, c, p, torn) = r.retired id due in
          let p' = subst (Owns streams m c) ((string_eq.equal_iff id j).0 same) p in
          let e = r.owner n m a c j o p' in
          let same_stream : c ≡ a = cc (p'.here, o.here, e) in
          absurd (omega (arith, ap (λ (s : Stream). s.it.torn) same_stream, torn, alive))
      | inr other ↦ rw (Map.get-delete id j subscriptions r.unique, other) (r.listed n a j o alive)
    ];
    retired = λ j due'. r.retired j (is_scheduled-unschedule id j expiring due');
    over = r.over;
    awake = r.awake;
    unique = Map.delete-IsUnique id subscriptions r.unique;
  }

  module _ (injective : (j k : ℕ) → to_string j ≡ to_string k → j ≡ k) (k : ℕ) (a : Stream)
      (here : Map.get k streams ≡ some a) (bare : a.id ≡ none) where
    abbrev pub new_id : String
    new_id = to_string next_id

    abbrev pub named_stream : Stream
    named_stream = record a { id = some new_id }

    abbrev pub enrolled : Map ℕ Stream
    enrolled = Map.set k named_stream streams

    unnamed : (c : Stream) → Map.get k streams ≡ some c → c.id ≡ none
    unnamed c found = let e : a ≡ c = cc (here, found) in ap (λ (s : Stream). s.id) (sym e) ∙ bare

    -- No iterator has the new id yet.
    unowned : (n : ℕ) (b : Stream) → ¬ Owns streams n b new_id
    unowned n b o =
        let (j, lt, e) = r.numbered n b new_id o in
        absurd (omega (arith, injective next_id j e, lt))

    cases_of :
        (n : ℕ) (b : Stream) (id : String)
        → Owns enrolled n b id
        → ((k ≡ n) × (named_stream ≡ b) × (new_id ≡ id)) ⊎ Owns streams n b id
    cases_of n b id o = elim (owned_before k n named_stream b id o) [
      | inl (same, e) ↦ inl (same, e, cc (ap (λ (s : Stream). s.id) e, o.named))
      | inr old ↦ inr old
    ]

    enrol_owner :
        (n m : ℕ) (b c : Stream) (id : String) → Owns enrolled n b id → Owns enrolled m c id → n ≡ m
    enrol_owner n m b c id o p = elim (cases_of n b id o) [
      | inl (same, _, e) ↦ elim (cases_of m c id p) [
        | inl (same', _, _) ↦ sym same ∙ same'
        | inr old ↦ absurd (unowned m c (subst (Owns streams m c) (sym e) old))
      ]
      | inr old ↦ elim (cases_of m c id p) [
        | inl (_, _, e) ↦ absurd (unowned n b (subst (Owns streams n b) (sym e) old))
        | inr old' ↦ r.owner n m b c id old old'
      ]
    ]

    enrol_listed :
        (n : ℕ) (b : Stream) (id : String)
        → Owns enrolled n b id
        → b.it.torn ≡ 0
        → Map.get id (Map.set new_id k subscriptions) ≡ some n
    enrol_listed n b id o alive = elim (cases_of n b id o) [
      | inl (same, _, e) ↦
          subst (λ j. Map.get j (Map.set new_id k subscriptions) ≡ some n) e
            (Map.get-set_self new_id k subscriptions ∙ ap some same)
      | inr old ↦ elim (Bool-cases (new_id === id)) [
        | inl e ↦
            absurd (
              unowned n b
                (subst (Owns streams n b) (sym ((string_eq.equal_iff new_id id).0 e)) old))
        | inr other ↦ Map.get-set_other new_id id k subscriptions other ∙ r.listed n b id old alive
      ]
    ]

    pub enrol_registry :
        IsRegistry to_string enrolled
          (Map.set new_id k subscriptions)
          (suc next_id)
          next_stream
          expiring
    enrol_registry = record {
      fresh = λ n late. elim (Bool-cases (k === n)) [
        | inl same ↦
            cc (here, ap (λ j. Map.get j streams) ((nat_equal_iff k n).0 same), r.fresh n late)
        | inr other ↦ Map.get-set_other k n named_stream streams other ∙ r.fresh n late
      ];
      numbered = λ n b id o. elim (cases_of n b id o) [
        | inl (_, _, e) ↦ (next_id, omega arith, sym e)
        | inr old ↦ let (j, lt, e) = r.numbered n b id old in (j, omega (arith, lt), e)
      ];
      owner = enrol_owner;
      listed = enrol_listed;
      retired = λ id due.
          let (n, b, o, torn) = r.retired id due in
          (n, b, owned_after k n named_stream b id (differs k n b id unnamed o) o, torn);
      over = λ n b found torn. elim (Map.get-set_cases k n named_stream streams found) [
        | inl (_, e) ↦
            subst (λ (c : Stream). 0 < c.it.torn → c.it.done ≡ true) e (r.over k a here) torn
        | inr (other, found') ↦ r.over n b found' torn
      ];
      awake = λ n b found. elim (Map.get-set_cases k n named_stream streams found) [
        | inl (_, e) ↦ subst (λ (c : Stream). IsAwake c.it) e (r.awake k a here)
        | inr (other, found') ↦ r.awake n b found'
      ];
      unique = Map.set-IsUnique new_id k subscriptions r.unique;
    }
