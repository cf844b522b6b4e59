-- ===== src/Ws/ClientSocket/Endings.antt =====
-- What a close or an error of the socket does to the iterators of a GraphQLClientWebSocket.
use graphqlade.Common.{
  ltb→lt, ltb_false→le, ℕ, ltb, ℤ, String, ◌≡◌, ◌≢◌, refl, sym, ◌∙◌, ap, subst, inl, inr, true,
  false, some, List, [], ◌∷◌, Value, Thrown, error, Error, Steps-keep, Option-cases, Bool-cases,
  if_split, arith, nat_eq, nat_equal_iff, string_eq, ◌===◌,
}
use graphqlade.Common.Map
use graphqlade.Common.Map.{Map, is_some}
use graphqlade.Util.PushIterator
use graphqlade.Util.PushIterator.{Action, pushes, aborts}
use graphqlade.Util.PushIterator.Waiting.{done-ne-waits}
use graphqlade.Util.PushIterator.Progress.{step-Grows, step_aborts-done}
use graphqlade.Ws.ServerSocket.State.{rejected}
use graphqlade.Ws.ClientSocket.{run}
use graphqlade.Ws.ClientSocket.State.{
  Stream, Ready, closed, ClientSocket, Event, close_event, error_event, connect, is_open, is_raised,
  send, clear_timer, settle, act_at,
}
use graphqlade.Ws.ClientSocket.Steps.{throw_all, handle_end, step}
use graphqlade.Ws.ClientSocket.Protocol.{
  Move, waits, opens_up, shuts_down, closes_down, settles, controls, adds, enrols, runs, retires,
  forgets,
}
use graphqlade.Ws.ClientSocket.Refinement.{act_at-Moves, throw_all-Moves, step_client-Moves}
use graphqlade.Ws.ClientSocket.Registry.{Owns}
use graphqlade.Ws.ClientSocket.Routing.{Registered, Move-Registered, run-Registered, act-streams}

-- The iterator numbered `n` is done.
record IsDone (n : ℕ) (s : ClientSocket) : Type 0 where
  stream : Stream
  here : Map.get n s.streams ≡ some stream
  over : stream.it.done ≡ true

aborts-IsDone :
    (t : Thrown) (n : ℕ) (a : Stream) (s : ClientSocket)
    → Map.get n s.streams ≡ some a
    → IsDone n (act_at (aborts t) n s)
unfolding act_at
aborts-IsDone t n a s here = record {
  stream = record a { it = PushIterator.step is_raised (aborts t) a.it };
  here =
      rw (here, act_at)
        (ap (Map.get n) (act-streams (aborts t) n a s) ∙ Map.get-set_self n _ s.streams);
  over = step_aborts-done is_raised t a.it;
}

act_at-other :
    (action : Action Value Thrown) (k n : ℕ) (s : ClientSocket)
    → (k === n) ≡ false
    → Map.get n (act_at action k s).streams ≡ Map.get n s.streams
unfolding act_at
act_at-other action k n s other = elim (Option-cases (Map.get k s.streams)) [
  | inl absent ↦ rw (absent, act_at) refl
  | inr (a, here) ↦
      rw (here, act_at)
        (ap (Map.get n) (act-streams action k a s) ∙ Map.get-set_other k n _ s.streams other)
]

module _ (to_string : ℕ → String) (injective : (j k : ℕ) → to_string j ≡ to_string k → j ≡ k) where
  abbrev Over : ℕ → ClientSocket → Type 0
  Over n s = Registered to_string injective s × IsDone n s

  set-IsDone :
      (n k : ℕ) (a b : Stream) (s : ClientSocket)
      → Map.get k s.streams ≡ some a
      → (a.it.done ≡ true → b.it.done ≡ true)
      → IsDone n s
      → (c : Stream) × (Map.get n (Map.set k b s.streams) ≡ some c) × (c.it.done ≡ true)
  set-IsDone n k a b s here keeps d = elim (Bool-cases (k === n)) [
    | inl same ↦
        let e = (nat_equal_iff k n).0 same in
        let same_stream : d.stream ≡ a = cc (here, d.here, e) in
        (
          b,
          subst (λ j. Map.get j (Map.set k b s.streams) ≡ some b) e
              (Map.get-set_self k b s.streams),
          keeps (subst (λ (c : Stream). c.it.done ≡ true) same_stream d.over),
        )
    | inr other ↦ (d.stream, Map.get-set_other k n b s.streams other ∙ d.here, d.over)
  ]

  Move-IsDone :
      (n : ℕ) (s t : ClientSocket)
      → Move to_string s t
      → Registered to_string injective s
      → IsDone n s
      → IsDone n t
  unfolding send
  Move-IsDone n s t (waits _ _ _) r d = record { stream = d.stream; here = d.here; over = d.over }
  Move-IsDone n s t (opens_up _) r d = record { stream = d.stream; here = d.here; over = d.over }
  Move-IsDone n s t shuts_down r d = record { stream = d.stream; here = d.here; over = d.over }
  Move-IsDone n s t (closes_down _ _ _) r d = record {
    stream = d.stream;
    here = d.here;
    over = d.over;
  }
  Move-IsDone n s t (settles _) r d = record { stream = d.stream; here = d.here; over = d.over }
  Move-IsDone n s t (controls _ _ _) r d = record {
    stream = d.stream;
    here = d.here;
    over = d.over;
  }
  Move-IsDone n s t (retires _ _ _ _ _ _) r d = record {
    stream = d.stream;
    here = d.here;
    over = d.over;
  }
  Move-IsDone n s t (forgets _ _) r d = record { stream = d.stream; here = d.here; over = d.over }
  Move-IsDone n s t (adds payload) r d = record {
    stream = d.stream;
    here = elim (Bool-cases (s.next_stream === n)) [
      | inl same ↦ cc (d.here, r.fresh n (omega (arith, (nat_equal_iff s.next_stream n).0 same)))
      | inr other ↦ Map.get-set_other s.next_stream n _ s.streams other ∙ d.here
    ];
    over = d.over;
  }
  Move-IsDone n s t (runs k a action here) r d =
      let (c, found, over) =
        set-IsDone n k a _ s here (step-Grows is_raised action a.it).stays_done d in
      record { stream = c; here = found; over = over }
  Move-IsDone n s t (enrols k a payload here waiting _) r d =
      let (c, found, over) =
        set-IsDone n k a (record a { id = some (to_string s.next_subscription_id) }) s here (λ h. h)
          d in
      if_split (IsDone n) (is_open s.ready) (λ _. record { stream = c; here = found; over = over })
        (λ _. record { stream = c; here = found; over = over })

  Move-Over : (n : ℕ) (s t : ClientSocket) → Move to_string s t → Over n s → Over n t
  Move-Over n s t m (r, d) = (Move-Registered to_string injective s t m r, Move-IsDone n s t m r d)

  throw_all-IsDone :
      (t : Thrown) (id : String) (n : ℕ) (a : Stream) (m : Map String ℕ) (s : ClientSocket)
      → Registered to_string injective s
      → Map.get id m ≡ some n
      → Map.get n s.streams ≡ some a
      → IsDone n (throw_all t m s)
  unfolding throw_all Map.get
  throw_all-IsDone t id n a [] s r found here = cc
  throw_all-IsDone t id n a ((j, k) ∷ m) s r found here =
      let r' =
        Steps-keep (Registered to_string injective) (Move-Registered to_string injective)
          (act_at-Moves to_string (aborts t) k s) r in
      elim (Bool-cases (k === n)) [
        | inl same ↦
            let e = (nat_equal_iff k n).0 same in
            let hit =
              subst (λ i. IsDone i (act_at (aborts t) k s)) e
                (aborts-IsDone t k a s (subst (λ i. Map.get i s.streams ≡ some a) (sym e) here)) in
            (Steps-keep (Over n) (Move-Over n) (throw_all-Moves to_string t m _) (r', hit)).1
        | inr other ↦
            throw_all-IsDone t id n a m (act_at (aborts t) k s) r' (later other)
              (act_at-other (aborts t) k n s other ∙ here)
      ]
    where
      later : (k === n) ≡ false → Map.get id m ≡ some n
      later other = elim (Bool-cases (j === id)) [
        | inl same ↦ let e : k ≡ n = cc (rw same at found) in cc (other, (nat_equal_iff k n).1 e)
        | inr differs ↦ rw differs at found
      ]

  handle_end-IsDone :
      (e : Error) (n : ℕ) (a : Stream) (id : String) (s : ClientSocket)
      → Registered to_string injective s
      → Owns s.streams n a id
      → IsDone n (handle_end e s)
  unfolding handle_end
  handle_end-IsDone e n a id s r o =
      let ended = settle (rejected (error e)) (clear_timer s) in
      elim (Bool-cases (ltb 0 a.it.torn)) [
        | inl torn ↦
            let over : IsDone n ended = record {
              stream = a;
              here = o.here;
              over = r.over n a o.here (ltb→lt 0 a.it.torn torn);
            } in
            (Steps-keep (Over n) (Move-Over n)
              (throw_all-Moves to_string (error e) s.subscriptions ended) (r, over)).1
        | inr alive ↦
            throw_all-IsDone (error e) id n a s.subscriptions ended r
              (r.listed n a id o (omega (arith, ltb_false→le 0 a.it.torn alive))) o.here
      ]

-- The socket was closed, or failed.
pub data IsEnd : Event → Type 0 where
  by_close : (code : ℤ) (reason : String) → IsEnd (close_event code reason)
  by_error : IsEnd error_event

module _ (to_error : Thrown → Error) (show : Value → String) (to_string : ℕ → String)
    (injective : (j k : ℕ) → to_string j ≡ to_string k → j ≡ k) where
  step-IsDone :
      (e : Event) (n : ℕ) (a : Stream) (id : String) (s : ClientSocket)
      → IsEnd e
      → Registered to_string injective s
      → Owns s.streams n a id
      → IsDone n (step to_error show to_string e s)
  unfolding step
  step-IsDone e n a id s (by_close code reason) r o =
      handle_end-IsDone to_string injective _ n a id (record s { ready = closed }) r o
  step-IsDone e n a id s by_error r o = handle_end-IsDone to_string injective _ n a id s r o

  -- If numbers with the same text are equal, then after a close or an error of a client socket with
  -- any history, every iterator whose subscription was sent is done, and no call of its `next`
  -- awaits the promise of `wait` any longer: the promise of each call that did is resolved.
  pub run_end :
      (ready : Ready) (events : List Event) (e : Event) (n : ℕ) (a : Stream) (id : String)
      (call : ℕ)
      → IsEnd e
      → Owns (run to_error show to_string events (connect ready)).streams n a id
      → let s = run to_error show to_string events (connect ready) in
        (b : Stream) × (Map.get n (step to_error show to_string e s).streams ≡ some b)
        × (b.it.done ≡ true)
        × (Map.get call b.it.calls ≢ some PushIterator.waits)
  run_end ready events e n a id call end o =
      let s = run to_error show to_string events (connect ready) in
      let r = run-Registered to_error show to_string injective ready events in
      let d = step-IsDone e n a id s end r o in
      let r' =
        Steps-keep (Registered to_string injective) (Move-Registered to_string injective)
          (step_client-Moves to_error show to_string e s) r in
      (
        d.stream,
        d.here,
        d.over,
        done-ne-waits is_raised d.stream.it call (r'.awake n d.stream d.here) d.over,
      )
