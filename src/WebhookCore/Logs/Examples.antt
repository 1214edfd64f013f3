-- ===== src/WebhookCore/Logs/Examples.antt =====
-- Streams of /logs, and the theorems about them at concrete runs.
use contextmatrix_backendkit.Prelude.{
  ℕ, ◌≡◌, refl, List, [], ◌∷◌, ◌++◌, map, Option, none, some, true, false, Bytes, bytes, bytes_dec,
  ℕ_discrete, arith,
}
use contextmatrix_backendkit.Prelude.Assoc.{lookup, insert, delete}
use contextmatrix_backendkit.LogBridge.Hub.{
  Hub, new_hub, observe_drop, retain, release, backlog, subscribe, holds, trim, requeue,
  unsubscribe, matches, offer, attach, count_drop, publish_loop, append_backlog, key_for, publish,
  receive,
}
use contextmatrix_backendkit.LogBridge.Hub.Subs.{holders, waiting}
use contextmatrix_backendkit.LogBridge.Hub.Fifo.{pending}
use contextmatrix_backendkit.LogBridge.Hub.History.{
  Op, publishes, subscribes, receives, unsubscribes, apply, run, sent, got, got_by, AllAllowed,
}
use contextmatrix_backendkit.WebhookCore.Logs.{
  connected, Stream, Wake, ticks, delivers, disconnects, elsewhere, streams, finish, write_chunk,
  start_logs, write_entry, deliver, wake_open, wake, run_logs,
}
use contextmatrix_backendkit.WebhookCore.Logs.Delivery.{events, published, AllHealthy}
use contextmatrix_backendkit.WebhookCore.Logs.Following
use contextmatrix_backendkit.WebhookCore.Logs.Ending
use contextmatrix_backendkit.WebhookCore.Logs.Reconnecting

program : Unit {0}
unfolding new_hub observe_drop retain release backlog subscribe holds trim requeue unsubscribe
    matches offer attach count_drop publish_loop append_backlog key_for publish receive holders
    waiting pending apply run sent got got_by lookup insert delete bytes_dec ℕ_discrete finish
    write_chunk start_logs write_entry deliver wake_open wake run_logs events published
program = tt

-- An entry is a session and a number.
abbrev Entry : Type 0
Entry = Bytes × ℕ

abbrev session : Entry → Bytes
session e = e.0

abbrev encode : Entry → Bytes
encode e = e.1 ∷ []

abbrev marshal : Entry → Option Bytes
marshal e = some (encode e)

abbrev a : Bytes
a = bytes "a"

abbrev b : Bytes
b = bytes "b"

abbrev start : Hub Entry
start = retain a (new_hub (some session) (some 0))

abbrev opened : Hub Entry → Stream Entry
opened h = record {
  hub = (subscribe a h).0;
  id = (subscribe a h).1;
  client = connected ∷ [];
  is_open = true;
}

-- A consumer reads one entry and leaves, and two more wait.
abbrev pre : List (Op Entry)
pre =
    publishes (a, 1)
    ∷ subscribes a
    ∷ publishes (a, 2)
    ∷ receives 1
    ∷ publishes (b, 9)
    ∷ unsubscribes 1
    ∷ publishes (a, 3)
    ∷ []

abbrev stream : Stream Entry
stream = opened (run pre start)

drained :
    events (run_logs marshal (delivers true ∷ delivers true ∷ []) stream).client
    ≡ (2 ∷ []) ∷ (3 ∷ []) ∷ []
unfolding program
drained = refl

start_logs-drained_example :
    let s' = run_logs marshal (map (λ e. delivers true) (pending a stream.hub)) stream in
    (map encode (sent a session pre) ≡ map encode (got a session pre start) ++ events s'.client)
    × (pending a s'.hub ≡ [])
unfolding program
start_logs-drained_example =
    Following.start_logs-drained a session refl marshal encode (λ e. refl) pre (some 0) stream
      (omega arith) refl refl

abbrev before : List (Op Entry)
before = publishes (a, 1) ∷ []

abbrev between : List (Op Entry)
between = publishes (a, 3) ∷ []

-- One entry is read, one comes in, and the client goes.
abbrev stream1 : Stream Entry
stream1 = record {
  hub = record {
    subs = (1, record { queue = (a, 1) ∷ []; cap = 257; filter = a }) ∷ [];
    next_id = 1;
    key_of = some session;
    drop_observer = some 0;
    retained = (a, []) ∷ [];
  };
  id = 1;
  client = connected ∷ [];
  is_open = true;
}

abbrev first : List (Wake Entry)
first = delivers true ∷ elsewhere (publishes (a, 2)) ∷ []

abbrev left : Stream Entry
left = wake marshal disconnects (run_logs marshal first stream1)

-- The next client's stream, and what it reads.
abbrev stream2 : Stream Entry
stream2 = record {
  hub = record {
    subs = (2, record { queue = (a, 2) ∷ (a, 3) ∷ []; cap = 258; filter = a }) ∷ [];
    next_id = 2;
    key_of = some session;
    drop_observer = some 0;
    retained = (a, []) ∷ [];
  };
  id = 2;
  client = connected ∷ [];
  is_open = true;
}

abbrev second : List (Wake Entry)
second = delivers true ∷ ticks true ∷ []

started1 : start_logs true true a (run before start) ≡ streams stream1
unfolding program
started1 = refl

started2 : start_logs true true a (run between left.hub) ≡ streams stream2
unfolding program
started2 = refl

healthy1 : AllHealthy a session marshal first stream1
unfolding program
healthy1 = (refl, ((omega arith, tt), tt))

allowed1 : AllAllowed a session before start
unfolding program
allowed1 = (omega arith, tt)

allowed2 : AllAllowed a session between left.hub
unfolding program
allowed2 = (omega arith, tt)

unheld1 : holders a (run before start).subs ≡ 0
unfolding program
unheld1 = refl

unheld2 : holders a (run between left.hub).subs ≡ 0
unfolding program
unheld2 = refl

resumed : events (run_logs marshal second stream2).client ≡ (2 ∷ []) ∷ []
unfolding program
resumed = refl

start_logs-resumed_example :
    map encode (
      sent a session before
      ++ (published a session first ++ (sent a session between ++ published a session second)))
    ≡ map encode (got a session before start)
      ++ (events left.client
          ++ (map encode (got a session between left.hub)
              ++ (events (run_logs marshal second stream2).client
                  ++ map encode (pending a (run_logs marshal second stream2).hub))))
start_logs-resumed_example =
    Reconnecting.start_logs-resumed a session refl marshal encode (λ e. refl) before between
      (some 0) first second disconnects stream1 stream2 allowed1 unheld1 started1 healthy1 tt
      allowed2 unheld2 started2 (refl, (refl, tt))

run_logs-ended_example :
    ((wake marshal (ticks false) stream).is_open ≡ false)
    × (lookup ℕ_discrete stream.id (wake marshal (ticks false) stream).hub.subs ≡ none)
    × ((run_logs marshal
          (ticks false ∷ elsewhere (publishes (a, 4)) ∷ delivers true ∷ [])
          stream).client
        ≡ stream.client)
run_logs-ended_example =
    Ending.run_logs-ended marshal (ticks false) (elsewhere (publishes (a, 4)) ∷ delivers true ∷ [])
      stream refl refl
