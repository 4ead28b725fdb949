-- ===== src/Server/Pool.antt =====
-- The worker threads of `DatabaseServer` in src/network/server.cpp, and the queue of requests that
-- they share: `worker_thread_function`, `process_request_async`, and the part of `stop` that wakes
-- them. Each step of the relation is what one thread does without a chance for another to
-- interfere: a critical section of `queue_mutex_` that does not wait is one step, and a worker that
-- has found nothing to do holds the mutex until it blocks. `process_request` and the callback run
-- without that mutex and are two steps, between which other workers go on. `process_request` is one
-- step here; requests whose calls of the database alternate are in Server/Overlap.
use mathlib.Core.List.{map}
use custom_database.Prelude.{
  ℕ, zero, suc, ◌+◌, ◌-◌, ◌<◌, ◌≡◌, Bool, true, false, List, [], ◌∷◌, ◌++◌,
}
use custom_database.Protocol.Message.{Message}
use custom_database.Server.Request.{RequestIo, ServerState, process_request}

abbrev pub max_worker_threads : ℕ
max_worker_threads = 8

-- Where a worker stands.
pub data Worker : Type 0 where
  -- at the test of the `while`
  looping : Worker
  -- about to lock the mutex and to look at the queue: at `lock`, or woken in `wait`
  locking : Worker
  -- in `wait`, with the mutex, having found neither a request nor the end
  blocking : Worker
  -- blocked in `wait`, without the mutex
  waiting : Worker
  -- between the `pop` and the end of `process_request`
  processing : Message → Worker
  -- with the response, before the end of the callback
  responding : (request response : Message) → Worker
  -- returned
  finished : Worker

-- What the threads share. `notifications` are the calls of `notify_one` that are due; `notified` says
-- that `stop` has called `notify_all`. The last three fields are history: the requests in the order
-- in which they were pushed and popped, and the calls of the callbacks.
pub record Shared : Type 0 where
  pub running : Bool
  pub held : Bool
  pub queue : List Message
  pub notifications : ℕ
  pub notified : Bool
  pub server : ServerState
  pub pushed : List Message
  pub taken : List Message
  pub answered : List (Message × Message)

pub record Pool : Type 0 where
  pub shared : Shared
  pub workers : List Worker

-- One step of a worker.
pub data Move (m : Shared) : Worker → Shared → Worker → Type 0 where
  go_on : m.running ≡ true → Move m looping m locking
  leave : m.running ≡ false → Move m looping m finished
  take :
      {t : Message} {q : List Message}
      → m.held ≡ false
      → m.queue ≡ t ∷ q
      → Move m locking (record m { queue = q; taken = m.taken ++ (t ∷ []) }) (processing t)
  quit : m.held ≡ false → m.queue ≡ [] → m.running ≡ false → Move m locking m finished
  settle :
      m.held ≡ false
      → m.queue ≡ []
      → m.running ≡ true
      → Move m locking (record m { held = true }) blocking
  block : Move m blocking (record m { held = false }) waiting
  process :
      {t : Message} (io : RequestIo)
      → Move m
          (processing t)
          (record m { server = (process_request io t m.server).1 })
          (responding t (process_request io t m.server).0)
  answer :
      {t response : Message}
      → Move m
          (responding t response)
          (record m { answered = m.answered ++ ((t, response) ∷ []) })
          looping

abbrev pub is_waiting : Worker → ℕ
is_waiting waiting = 1
is_waiting _ = 0

-- How many workers stand there.
unfoldable pub tally : (Worker → ℕ) → List Worker → ℕ
tally f [] = 0
tally f (w ∷ ws) = f w + tally f ws

-- A worker that is notified.
abbrev pub wake : Worker → Worker
wake waiting = locking
wake w = w

-- One step of a worker, of a `notify_one` that is due, or of `stop`.
pub data Step (s : Pool) : Pool → Type 0 where
  pick :
      (before after : List Worker) {w w' : Worker} {m : Shared}
      → s.workers ≡ before ++ (w ∷ after)
      → Move s.shared w m w'
      → Step s (record { shared = m; workers = before ++ (w' ∷ after) })
  notify :
      (before after : List Worker)
      → s.workers ≡ before ++ (waiting ∷ after)
      → 0 < s.shared.notifications
      → Step s (record {
        shared = record s.shared { notifications = s.shared.notifications - 1 };
        workers = before ++ (locking ∷ after);
      })
  notify_nobody :
      tally is_waiting s.workers ≡ 0
      → 0 < s.shared.notifications
      → Step s
          (record s { shared = record s.shared { notifications = s.shared.notifications - 1 } })
  stop_flag : Step s (record s { shared = record s.shared { running = false } })
  notify_all :
      s.shared.running ≡ false
      → s.shared.notified ≡ false
      → Step s
          (record { shared = record s.shared { notified = true }; workers = map wake s.workers })

-- What comes from outside: a call of `process_request_async`, up to its `notify_one`, and a worker
-- that wakes without a notification, as the standard allows.
pub data Outside (s : Pool) : Pool → Type 0 where
  push :
      (t : Message)
      → s.shared.held ≡ false
      → Outside s (record s {
        shared = record s.shared {
          queue = s.shared.queue ++ (t ∷ []);
          notifications = s.shared.notifications + 1;
          pushed = s.shared.pushed ++ (t ∷ []);
        };
      })
  spurious :
      (before after : List Worker)
      → s.workers ≡ before ++ (waiting ∷ after)
      → Outside s (record s { workers = before ++ (locking ∷ after) })

abbrev pub started_workers : ℕ → List Worker
started_workers zero = []
started_workers (suc n) = looping ∷ started_workers n

-- After `start`, with this many worker threads.
abbrev pub started : ℕ → ServerState → Pool
started n server = record {
  shared = record {
    running = true;
    held = false;
    queue = [];
    notifications = 0;
    notified = false;
    server = server;
    pushed = [];
    taken = [];
    answered = [];
  };
  workers = started_workers n;
}

-- The states that can be reached, with requests that come in.
pub data Reach (n : ℕ) (server : ServerState) : Pool → Type 0 where
  start : Reach n server (started n server)
  inner : {s t : Pool} → Reach n server s → Step s t → Reach n server t
  outer : {s t : Pool} → Reach n server s → Outside s t → Reach n server t

-- The states that can be reached from one while nothing comes from outside.
pub data Drain (s : Pool) : Pool → Type 0 where
  stay : Drain s s
  next : {t u : Pool} → Drain s t → Step t u → Drain s u

-- The states that can be reached from one, with requests that come in.
pub data Onward (s : Pool) : Pool → Type 0 where
  here : Onward s s
  by_step : {t u : Pool} → Onward s t → Step t u → Onward s u
  by_event : {t u : Pool} → Onward s t → Outside t u → Onward s u
