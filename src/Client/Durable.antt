-- ===== src/Client/Durable.antt =====
-- What the log's file holds of the operations of a client.
use mathlib.Core.List.{map}
use custom_database.Prelude.{arith, ℕ, ◌≡◌, ap, ◌∙◌, some, List, Bytes, All}
use custom_database.Table.{find}
use custom_database.Wal.Reader.{max_record_size, read_records}
use custom_database.Wal.Log.{Wal}
use custom_database.Wal.Append.{log_bytes}
use custom_database.Database.State.{Database}
use custom_database.Database.Synced.{replay}
use custom_database.Database.Durability.{log_bytes-IsSynced}
use custom_database.Server.Spec.{Store}
use custom_database.Client.Call.{Client}
use custom_database.Client.Link.{Link}
use custom_database.Client.LinkLaws.{online}
use custom_database.Client.Contract.{perform_all, expect_all}
use custom_database.Client.Keeping.{IsOnline, IsShort}
use custom_database.Client.Promise.{Turn, IsTurn, on_link, perform_all-expect_all}

-- The lookups in the data that a recovery makes of a log's file.
abbrev pub recovered : Wal → Store
recovered w k = find k (replay (read_records (log_bytes w)))

-- Take a client that is connected, over a connection that loses nothing and has nothing on the
-- way, to a server whose database serves, and a plain map that holds what lookups in the database
-- find, all of whose values fit a response. After whatever `get`, `put`, `del` and `ping` it calls
-- one after the other, at times of 64 bits, with keys and values that fit a request, and with a
-- device that takes what it is given: it is connected to a database with a log, and lookups in the
-- data that replaying the records read from the bytes of the log's file makes find what the map
-- holds after the same operations.
pub perform_all-recovered :
    (n : ℕ) (ts : List Turn) {store : Store} {c : Client Link}
    → All (IsTurn max_record_size) ts
    → IsOnline n store c
    → IsShort store
    → (db : Database) × (w : Wal) × (id : ℕ) × ((perform_all (map on_link ts) c).0 ≡ online n db id)
      × (db.wal ≡ some w)
      × ((k : Bytes) → recovered w k ≡ (expect_all (map (λ t. t.operation) ts) store).1 k)
perform_all-recovered n ts h on short =
    let last =
      (perform_all-expect_all n max_record_size (omega arith) (omega arith) ts h on short).1 in
    let s = last.serving.synced in
    (
      last.db,
      s.log,
      last.id,
      last.client_eq,
      s.attached,
      λ k. ap (find k) (log_bytes-IsSynced s) ∙ ap (λ m. m k) last.store_eq,
    )
