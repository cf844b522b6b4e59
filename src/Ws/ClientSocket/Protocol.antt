-- ===== src/Ws/ClientSocket/Protocol.antt =====
-- What a GraphQLClientWebSocket may do, one change at a time, whichever event makes it.
use graphqlade.Common.{
  ℕ, suc, ◌<◌, ℤ, String, ◌≡◌, Bool, true, some, List, Value, Thrown, Steps, string_eq, nat_eq,
}
use graphqlade.Common.Map
use graphqlade.Common.Map.{Map}
use graphqlade.Util.PushIterator
use graphqlade.Util.PushIterator.{Action}
use graphqlade.Ws.Messages.{ClientMessage, connection_init, subscribe, SubscribePayload}
use graphqlade.Ws.ServerSocket.State.{Deferred, resolved}
use graphqlade.Ws.ServerSocket.Handlers.{is_scheduled, unschedule}
use graphqlade.Ws.ClientSocket.State.{
  Stream, connecting, opened, closed, sent, closes, ClientSocket, perform, is_open,
  is_open_or_connecting, is_raised, send, settle, set_stream, expire_later,
}
use graphqlade.Ws.ClientSocket.Steps.{add_stream, awaits_ack}

-- The messages that may be sent at any time.
pub data IsControl : ClientMessage → Type 0 where
  greets : (payload : Value) → IsControl (connection_init payload)
  completes : (id : String) → IsControl (ClientMessage.complete id)

module _ (to_string : ℕ → String) where
  -- The iterator numbered `n` gets the next id, and its subscription is sent.
  abbrev pub enrol : ℕ → Stream → ClientSocket → ClientSocket
  enrol n stream s = send (subscribe (to_string s.next_subscription_id) stream.payload) (record s {
    next_subscription_id = suc s.next_subscription_id;
    subscriptions = Map.set (to_string s.next_subscription_id) n s.subscriptions;
    streams = Map.set n (record stream { id = some (to_string s.next_subscription_id) }) s.streams;
  })

  pub data Move (s : ClientSocket) : ClientSocket → Type 0 where
    -- Timers and listeners come and go.
    waits :
        (timer : Bool) (lost_timers : ℕ) (opening : List Value)
        → Move s (record s { timer = timer; lost_timers = lost_timers; opening = opening })
    opens_up : s.ready ≡ connecting → Move s (record s { ready = opened })
    shuts_down : Move s (record s { ready = closed })
    -- The client closes the socket, unless it is closed.
    closes_down :
        (code : ℤ) (reason : String)
        → is_open_or_connecting s.ready ≡ true
        → Move s (perform (closes code reason) (record s { ready = closed }))
    settles : (d : Deferred) → Move s (settle d s)
    controls :
        (m : ClientMessage) → IsControl m → is_open s.ready ≡ true → Move s (perform (sent m) s)
    adds : (payload : SubscribePayload) → Move s (add_stream payload s)
    -- An iterator whose setup waits is enrolled once there is an acknowledgement.
    enrols :
        (n : ℕ) (stream : Stream) (payload : Value)
        → Map.get n s.streams ≡ some stream
        → awaits_ack stream ≡ true
        → s.ack ≡ resolved payload
        → Move s (enrol n stream s)
    runs :
        (n : ℕ) (stream : Stream) (action : Action Value Thrown)
        → Map.get n s.streams ≡ some stream
        → Move s
            (set_stream n (record stream { it = PushIterator.step is_raised action stream.it }) s)
    -- An id is given up only after its iterator was torn down.
    retires :
        (n : ℕ) (stream : Stream) (id : String)
        → Map.get n s.streams ≡ some stream
        → stream.id ≡ some id
        → 0 < stream.it.torn
        → Move s (expire_later id s)
    forgets :
        (id : String)
        → is_scheduled id s.expiring ≡ true
        → Move s (record s {
          subscriptions = Map.delete id s.subscriptions;
          expiring = unschedule id s.expiring;
        })

  abbrev pub Moves : ClientSocket → ClientSocket → Type 0
  Moves = Steps Move
