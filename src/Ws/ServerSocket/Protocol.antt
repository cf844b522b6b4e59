-- ===== src/Ws/ServerSocket/Protocol.antt =====
-- What a GraphQLServerWebSocket may do, one effect at a time, whichever handler does it.
use graphqlade.Common.{
  Steps, ℕ, suc, ℤ, String, ◌≡◌, Bool, true, false, none, some, List, Value, Thrown, Error,
  string_eq, nat_eq,
}
use graphqlade.Common.Map
use graphqlade.Common.Map.{Map}
use graphqlade.Ws.Messages.{SubscribePayload, ServerMessage, connection_ack}
use graphqlade.Ws.ServerSocket.State.{
  resolved, rejected, Progress, pending, iterating, exhausted, one_shot, failed, Subscription, Task,
  sent, closed, logged, calls_acknowledge, calls_subscribe, calls_return, ServerSocket, perform,
  settle,
}
use graphqlade.Ws.ServerSocket.Handlers.{set_progress}

-- A message that ends a subscription.
pub data IsFinal (id : String) : ServerMessage → Type 0 where
  completes : IsFinal id (ServerMessage.complete id)
  errs : (errors : Value) → IsFinal id (ServerMessage.error id errors)

-- How far a subscription is when a message ends it, and where it stands afterwards.
pub data Ends : Progress → Progress → Type 0 where
  exhausts : Ends iterating exhausted
  answers : Ends pending one_shot

-- A change of progress that sends nothing by itself.
pub data Turns : Progress → Progress → Type 0 where
  iterates : Turns pending iterating
  fails : (t : Thrown) → Turns pending (failed t)

pub data Move (s : ServerSocket) : ServerSocket → Type 0 where
  -- Tasks, timers and scheduled deletions come and go.
  schedules :
      (tasks : Map ℕ Task) (next_task : ℕ) (timer : Bool) (expiring : List String)
      → Move s
          (record s { tasks = tasks; next_task = next_task; timer = timer; expiring = expiring })
  forgets : (id : String) → Move s (record s { subscriptions = Map.delete id s.subscriptions })
  -- The socket is closed by the peer, or by the server.
  shuts : Move s (record s { is_open = false })
  closes :
      (code : ℤ) (reason : String)
      → s.is_open ≡ true
      → Move s (perform (closed code reason) (record s { is_open = false }))
  logs : (e : Error) → Move s (perform (logged e) s)
  -- `acknowledge` is called once, before it has an answer.
  begins :
      (payload : Value)
      → s.initialized ≡ false
      → Move s (perform (calls_acknowledge payload) (record s { initialized = true }))
  confirms :
      (answer : Value) → s.is_open ≡ true → Move s (perform (sent none (connection_ack answer)) s)
  accepts :
      (payload : Value) → Move s (record (settle (resolved payload) s) { acknowledged = true })
  rejects : (t : Thrown) → Move s (settle (rejected t) s)
  -- A subscription needs the payload of an accepted initialisation, and an unused id.
  subscribes :
      (id : String) (payload : SubscribePayload) (init : Value)
      → s.init_payload ≡ resolved init
      → Map.get id s.subscriptions ≡ none
      → Move s (
          perform (calls_subscribe s.next_number id payload init) (record s {
            subscriptions = Map.set id s.next_number s.subscriptions;
            promises = Map.set s.next_number (record { id = id; progress = pending }) s.promises;
            next_number = suc s.next_number;
          }))
  turns :
      (n : ℕ) (sub : Subscription) (to : Progress)
      → Map.get n s.promises ≡ some sub
      → Turns sub.progress to
      → Move s (set_progress n sub to s)
  -- A result belongs to an iteration that runs.
  streams :
      (n : ℕ) (sub : Subscription) (r : Value)
      → s.is_open ≡ true
      → Map.get n s.promises ≡ some sub
      → sub.progress ≡ iterating
      → Move s (perform (sent (some n) (ServerMessage.next sub.id r)) s)
  -- A final message is sent while the subscription is alive, and ends it.
  finishes :
      (n : ℕ) (sub : Subscription) (to : Progress) (message : ServerMessage)
      → s.is_open ≡ true
      → Map.get n s.promises ≡ some sub
      → Ends sub.progress to
      → IsFinal sub.id message
      → Move s (set_progress n sub to (perform (sent (some n) message) s))
  -- On a closed socket it ends without the message.
  stops :
      (n : ℕ) (sub : Subscription) (to : Progress)
      → s.is_open ≡ false
      → Map.get n s.promises ≡ some sub
      → Ends sub.progress to
      → Move s (set_progress n sub to s)
  stops_iterator : (k : ℕ) → Move s (perform (calls_return k) s)

-- Any number of moves.
abbrev pub Moves : ServerSocket → ServerSocket → Type 0
Moves = Steps Move
