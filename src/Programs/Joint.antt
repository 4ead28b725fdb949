-- ===== src/Programs/Joint.antt =====
-- The threads of `run_concurrent_benchmark` in src/benchmark_main.cpp together, on one server, as a
-- relation of steps: each step is one call of `put` or `get` by one thread. What is printed on
-- the time, and on `std::cerr`, is left out.
use mathlib.Core.List.{map}
use custom_database.Prelude.{
  ℕ, ◌+◌, ◌^◌, ◌<◌, ◌≡◌, ◌≢◌, Bool, Option, some, List, [], ◌∷◌, ◌++◌, ok, throw, length,
  if◌then◌else◌,
}
use custom_database.Database.State.{Database}
use custom_database.Server.Connection.{header}
use custom_database.Server.Refinement.{taking}
use custom_database.Server.Request.{RequestIo}
use custom_database.Client.Call.{Client, new_client, connect}
use custom_database.Client.Link.{Link, link}
use custom_database.Client.LinkLaws.{at}
use custom_database.Client.Crowd.{lend}
use custom_database.Programs.Bench.{Counts, write_part, read_part}

-- Where a thread stands: about to `put`, about to `get`, or returned because it was not connected.
pub data Stage : Type 0 where
  writing reading ended : Stage

pub record Thread : Type 0 where
  pub stage : Stage
  pub round : ℕ
  pub client : Client Link

-- The threads, and what they share. The database is that of the server.
pub record Joint : Type 0 where
  pub database : Option Database
  pub counts : Counts
  pub threads : List Thread

-- The next call of thread `i`, from its stage and its round.
unfoldable pub advance : RequestIo → ℕ → Stage → ℕ → Client Link → Counts → Thread × Counts
unfolding write_part read_part
advance io i writing j c counts =
    let (c', stored) = write_part (link io) i j c in
    (
      elim stored [
        | throw what ↦ record { stage = writing; round = j + 1; client = c' }
        | ok success ↦ record { stage = reading; round = j; client = c' }
      ],
      counts,
    )
advance io i reading j c counts =
    let (c', counts') = read_part (link io) i j c counts in
    (record { stage = writing; round = j + 1; client = c' }, counts')
advance io i ended j c counts = (record { stage = ended; round = j; client = c }, counts)

-- After a call of the thread that stands behind these.
unfoldable pub after_call : RequestIo → List Thread → Thread → List Thread → Joint → Joint
after_call io before t after s =
    let (t', counts') =
      advance io (length before) t.stage t.round (lend s.database t.client) s.counts in
    record {
      database = t'.client.peer.database;
      counts = counts';
      threads = before ++ (t' ∷ after);
    }

-- One thread that has rounds left makes its next call, while the device takes what it is given.
pub data Step (operations_per_client : ℕ) (s : Joint) : Joint → Type 0 where
  call :
      (now later : ℕ) (before after : List Thread) (t : Thread)
      → now < 2 ^ 64
      → later < 2 ^ 64
      → s.threads ≡ before ++ (t ∷ after)
      → t.stage ≢ ended
      → t.round < operations_per_client
      → Step operations_per_client s (after_call (taking now later) before t after s)

-- A thread that has constructed and connected its client; `reached` says whether it could.
abbrev pub started_thread : Database → Bool → Thread
started_thread db reached =
    let (c, connected) = connect reached (new_client (at 0 header db [] [])) in
    record { stage = if connected then writing else ended; round = 0; client = c }

-- The threads that were started, one for each success or failure of a connection.
abbrev pub started : Database → List Bool → Joint
started db reached = record {
  database = some db;
  counts = record { total = 0; successful = 0 };
  threads = map (started_thread db) reached;
}

pub data Reach (operations_per_client : ℕ) (s : Joint) : Joint → Type 0 where
  start : Reach operations_per_client s s
  next :
      {t u : Joint}
      → Reach operations_per_client s t
      → Step operations_per_client t u
      → Reach operations_per_client s u
