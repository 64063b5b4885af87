-- ===== src/Rpc/MuxBroker.antt =====
-- rpc/mux_broker.go: streams of one session that are brokered by their identifiers. Goroutines are
-- threads that take turns; a thread that wants the mutex waits until it is free.
pub mod Ids
pub mod Matches
pub mod Stuck
use packer_plugin_sdk.Prelude.{
  ℕ, suc, ◌+◌, ◌%◌, ◌≡◌, Bool, true, false, ◌&&◌, Option, none, some, List, [], ◌∷◌, ◌++◌, String,
  if◌then◌else◌, ◌==◌,
}

-- A stream of the session, with the identifier that is the first thing read from it.
pub record Conn : Type 0 where
  pub id : ℕ
  pub stream : ℕ

-- `muxBrokerPending`: what its channel of capacity one holds, and whether `doneCh` is closed.
pub record Pending : Type 0 where
  pub ch : Option Conn
  pub done : Bool

-- `muxBroker`. Pendings are shared: they stand at numbers of a store, of which those from `fresh` on are
-- free, and `streams` has the number of the one that an identifier leads to. `closed` has the streams that
-- were closed, and `crashed` says whether a goroutine has panicked, which ends the process.
pub record Broker : Type 0 where
  pub next_id : ℕ
  pub streams : ℕ → Option ℕ
  pub pendings : ℕ → Pending
  pub fresh : ℕ
  pub locked : Bool
  pub closed : List ℕ
  pub crashed : Bool

abbrev pub empty : Pending
empty = record { ch = none; done = false }

-- `newMuxBroker`
abbrev pub new_mux_broker : Broker
new_mux_broker = record {
  next_id = 0;
  streams = λ id. none;
  pendings = λ n. empty;
  fresh = 0;
  locked = false;
  closed = [];
  crashed = false;
}

-- `NextId`, whose counter is a uint32: the broker, and the identifier.
unfoldable pub next_id : Broker → Broker × ℕ
next_id b = let id = (b.next_id + 1) % 0x100000000 in (record b { next_id = id }, id)

abbrev pub at_id : {A : Type 0} → (ℕ → A) → ℕ → A → ℕ → A
at_id f id v j = if j == id then v else f j

abbrev pub set_pending : ℕ → Pending → Broker → Broker
set_pending n p b = record b { pendings = at_id b.pendings n p }

-- `getStream`: the broker, and the number of the pending.
unfoldable pub get_stream : ℕ → Broker → Broker × ℕ
get_stream id b = elim (b.streams id) [
  | some n ↦ (b, n)
  | none ↦ (
    set_pending b.fresh empty
        (record b { streams = at_id b.streams id (some b.fresh); fresh = suc b.fresh }),
    b.fresh,
  )
]

-- `delete(m.streams, id)`
abbrev pub forget : ℕ → Broker → Broker
forget id b = record b { streams = at_id b.streams id none }

-- `select { case p.ch <- stream: default: }`
unfoldable pub offer : ℕ → Conn → Broker → Broker
offer n c b = elim (b.pendings n).ch [
  | some d ↦ b
  | none ↦ set_pending n (record (b.pendings n) { ch = some c }) b
]

abbrev pub take : ℕ → Broker → Broker
take n b = set_pending n (record (b.pendings n) { ch = none }) b

-- `close(p.doneCh)`, which panics if it is closed.
unfoldable pub close_done : ℕ → Broker → Broker
close_done n b =
    if (b.pendings n).done
    then record b { crashed = true }
    else set_pending n (record (b.pendings n) { done = true }) b

abbrev pub close : Conn → Broker → Broker
close c b = record b { closed = c.stream ∷ b.closed }

abbrev pub set_locked : Bool → Broker → Broker
set_locked l b = record b { locked = l }

-- Where a goroutine stands.
pub data Thread : Type 0 where
  -- `Run` waits for a stream; it has one, and its pending.
  running : Thread
  brought : ℕ → ℕ → Conn → Thread
  -- `Accept` waits for a stream or the time; has a stream; has told so, and acknowledges; returns the
  -- stream; its time is up.
  accepting : ℕ → ℕ → Thread
  taken : ℕ → ℕ → Conn → Thread
  acking : ℕ → Conn → Thread
  accepted : ℕ → Conn → Thread
  late : ℕ → Thread
  -- `timeoutWait` waits; wants the mutex, after a timeout or not; has it, and waits for a stream.
  waiting : ℕ → ℕ → Thread
  waking : ℕ → ℕ → Bool → Thread
  draining : ℕ → ℕ → Thread
  -- The goroutine has ended, `Accept` with an error.
  over : Thread

-- One action of a thread: the thread and the broker before it and after it, and the threads it starts.
pub data Act (b : Broker) : Thread → Thread → List Thread → Broker → Type 0 where
  -- `run_bad`: the identifier cannot be read. `run_end`: the session is closed.
  run_get :
      (c : Conn)
      → b.locked ≡ false
      → Act b running (brought c.id (get_stream c.id b).1 c) [] (get_stream c.id b).0
  run_bad : (c : Conn) → Act b running running [] (close c b)
  run_end : Act b running over [] b
  run_put : (id n : ℕ) (c : Conn) → Act b (brought id n c) running (waiting id n ∷ []) (offer n c b)
  accept_take :
      (id n : ℕ) (c : Conn)
      → (b.pendings n).ch ≡ some c
      → Act b (accepting id n) (taken id n c) [] (take n b)
  accept_done : (id n : ℕ) (c : Conn) → Act b (taken id n c) (acking id c) [] (close_done n b)
  accept_ack : (id : ℕ) (c : Conn) → Act b (acking id c) (accepted id c) [] b
  accept_fail : (id : ℕ) (c : Conn) → Act b (acking id c) over [] (close c b)
  accept_timeout : (id n : ℕ) → Act b (accepting id n) (late id) [] b
  accept_delete : (id : ℕ) → b.locked ≡ false → Act b (late id) over [] (forget id b)
  wait_done :
      (id n : ℕ) → (b.pendings n).done ≡ true → Act b (waiting id n) (waking id n false) [] b
  wait_timeout : (id n : ℕ) → Act b (waiting id n) (waking id n true) [] b
  wake_done : (id n : ℕ) → b.locked ≡ false → Act b (waking id n false) over [] (forget id b)
  wake_timeout :
      (id n : ℕ)
      → b.locked ≡ false
      → Act b (waking id n true) (draining id n) [] (set_locked true (forget id b))
  drain :
      (id n : ℕ) (c : Conn)
      → (b.pendings n).ch ≡ some c
      → Act b (draining id n) over [] (set_locked false (close c (take n b)))

pub record System : Type 0 where
  pub broker : Broker
  pub threads : List Thread

abbrev pub system : Broker → List Thread → System
system b ts = record { broker = b; threads = ts }

-- While the process is not ended by a panic, a thread acts, or `Accept` is called.
pub data Step : System → System → Type 0 where
  act :
      (b b' : Broker) (xs ys new : List Thread) (t t' : Thread)
      → b.crashed ≡ false
      → Act b t t' new b'
      → Step (system b (xs ++ (t ∷ ys))) (system b' (xs ++ (t' ∷ (new ++ ys))))
  accept :
      (b : Broker) (ts : List Thread) (id : ℕ)
      → b.crashed ≡ false
      → b.locked ≡ false
      → Step (system b ts) (system (get_stream id b).0 (accepting id (get_stream id b).1 ∷ ts))

pub data Reach (s : System) : System → Type 0 where
  here : Reach s s
  next : {t u : System} → Reach s t → Step t u → Reach s u

-- A broker on which `Run` was started.
abbrev pub started : System
started = system new_mux_broker (running ∷ [])

-- A value or an error.
pub data Dialled : Type 0 where
  refused : String → Dialled
  dialled : ℕ → Dialled

-- `Dial`: the stream of the session or its error, the error of the write, the number that is read or
-- the error of that, and the message of a bad number.
unfoldable pub dial : ℕ → Dialled → Option String → Dialled → (ℕ → ℕ → String) → Dialled
dial id opened written read bad_ack = elim opened [
  | refused e ↦ refused e
  | dialled stream ↦ elim written [
    | some e ↦ refused e
    | none ↦ elim read [
      | refused e ↦ refused e
      | dialled ack ↦ if ack == id then dialled stream else refused (bad_ack ack id)
    ]
  ]
]
