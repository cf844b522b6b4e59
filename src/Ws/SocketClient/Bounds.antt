-- ===== src/Ws/SocketClient/Bounds.antt =====
-- The delays after which a GraphQLWebSocketClient reconnects.
use Prim.Native.Nat.{max}
use graphqlade.Common.{
  ℕ, ◌+◌, ◌≤◌, ◌<◌, ◌≡◌, refl, sym, subst, ◌⊎◌, inl, inr, true, List, if_split, Option-cases,
  nat_eq, All, Value, Thrown, Error, arith, Steps-keep,
}
use graphqlade.Common.Map
use graphqlade.Ws.SocketClient.{run}
use graphqlade.Ws.SocketClient.Connection.{
  Socket, next_delay, Settings, Connection, start, must_wait, start_delay, require_socket,
  increase_delay, change_socket, reset_delay, random_units, is_connected,
}
use graphqlade.Ws.SocketClient.Steps.{Event, init}
use graphqlade.Ws.SocketClient.Backoff.{next_delay-le, le-next_delay}
use graphqlade.Ws.SocketClient.Changes.{
  IsRandom, Change, provides, waits, stops_waiting, requires, resets, increases, opens, shuts,
  settles, run-Changes,
}

max-ge_right : (a b : ℕ) → b ≤ max a b
max-ge_right a b = ground arith

-- Math.random gives less than 1.
abbrev pub IsBelowOne : ℕ → Type 0
IsBelowOne random = random < random_units

module _ (settings : Settings) where
  abbrev pub IsDelay : ℕ → Type 0
  IsDelay d =
      (settings.min_reconnect_delay ≤ d)
      × (d ≤ settings.max_reconnect_delay + settings.min_reconnect_delay)

  record IsBounded (c : Connection) : Type 0 where
    same : c.settings ≡ settings
    next : (c.reconnect_delay ≡ 0) ⊎ IsDelay c.reconnect_delay
    started : All IsDelay c.delays

  -- The least delay is not above the most, and the multiplier is a number from 1 on.
  pub record IsSane : Type 0 where
    pub ordered : settings.min_reconnect_delay ≤ settings.max_reconnect_delay
    pub whole : 0 < settings.reconnect_delay_multiplier.denominator
    pub grows :
        settings.reconnect_delay_multiplier.denominator
        ≤ settings.reconnect_delay_multiplier.numerator

  change_socket-IsBounded :
      (change : Socket → Socket) (i : ℕ) (c : Connection)
      → IsBounded c
      → IsBounded (change_socket change i c)
  unfolding change_socket
  change_socket-IsBounded change i c b = elim (Option-cases (Map.get i c.sockets)) [
    | inl absent ↦ rw (absent, change_socket) b
    | inr (socket, here) ↦
        rw (here, change_socket) (record { same = b.same; next = b.next; started = b.started })
  ]

  must_wait-IsDelay :
      (c : Connection)
      → must_wait c ≡ true
      → (c.reconnect_delay ≡ 0) ⊎ IsDelay c.reconnect_delay
      → IsDelay c.reconnect_delay
  unfolding must_wait
  must_wait-IsDelay c waiting (inr d) = d
  must_wait-IsDelay c waiting (inl none_yet) = ground arith

  module _ (sane : IsSane) where
    next_delay-IsDelay :
        (delay random : ℕ)
        → random < random_units
        → IsDelay (
            next_delay settings.reconnect_delay_multiplier
              (max delay settings.min_reconnect_delay)
              settings.max_reconnect_delay
              settings.min_reconnect_delay
              random)
    next_delay-IsDelay delay random fair =
        let least : settings.min_reconnect_delay ≤ max delay settings.min_reconnect_delay =
          max-ge_right delay settings.min_reconnect_delay in
        (
          le-next_delay settings.reconnect_delay_multiplier _ _ _ random sane.whole sane.grows least
              sane.ordered,
          next_delay-le settings.reconnect_delay_multiplier _ _ _ random fair,
        )

    Change-IsBounded : (c d : Connection) → Change IsBelowOne c d → IsBounded c → IsBounded d
    unfolding start_delay require_socket increase_delay change_socket reset_delay
    Change-IsBounded c d (provides payload) b = record {
      same = b.same;
      next = b.next;
      started = b.started;
    }
    Change-IsBounded c d (waits waiting) b =
        if_split IsBounded c.delaying (λ _. b)
          (λ _. record {
            same = b.same;
            next = b.next;
            started = (must_wait-IsDelay c waiting b.next, b.started);
          })
    Change-IsBounded c d stops_waiting b = record {
      same = b.same;
      next = b.next;
      started = b.started;
    }
    Change-IsBounded c d requires b =
        if_split IsBounded (is_connected c.current c.sockets) (λ _. b)
          (λ _. record { same = b.same; next = b.next; started = b.started })
    Change-IsBounded c d (resets payload) b = record {
      same = b.same;
      next = inr (
          subst (λ (t : Settings). IsDelay t.min_reconnect_delay) (sym b.same)
            (omega arith, omega (arith, sane.ordered)));
      started = b.started;
    }
    Change-IsBounded c d (increases random fair) b = record {
      same = b.same;
      next = inr (
          subst
            (λ (t : Settings). IsDelay (
              next_delay t.reconnect_delay_multiplier (max c.reconnect_delay t.min_reconnect_delay)
                t.max_reconnect_delay t.min_reconnect_delay random))
            (sym b.same) (next_delay-IsDelay c.reconnect_delay random fair));
      started = b.started;
    }
    Change-IsBounded c d (opens i) b = change_socket-IsBounded _ i c b
    Change-IsBounded c d (shuts i) b = change_socket-IsBounded _ i c b
    Change-IsBounded c d (settles i a) b = change_socket-IsBounded _ i c b

    -- Where the least delay is at most the greatest, the multiplier is at least 1, and Math.random
    -- gives numbers below 1, a client to which anything has happened has started only delays
    -- between the least and the sum of the greatest and the least, and the next one is 0 or one of
    -- these. A delay may thus be above the greatest, but by no more than the least.
    pub run-IsDelay :
        (to_error : Thrown → Error) (payload : Value) (events : List Event)
        → All (IsRandom IsBelowOne) events
        → let c = (run to_error events (init settings payload)).connection in
          All IsDelay c.delays × ((c.reconnect_delay ≡ 0) ⊎ IsDelay c.reconnect_delay)
    unfolding init start
    run-IsDelay to_error payload events fair =
        let b =
          Steps-keep IsBounded Change-IsBounded
            (run-Changes IsBelowOne to_error events (init settings payload) fair)
            (record { same = refl; next = inl refl; started = tt }) in
        (b.started, b.next)
