-- ===== src/Server/OverlapStand.antt =====
-- Where a thread stands, among requests that are processed at once, and what a step of it does.
use custom_database.Prelude.{
  ◌+◌, ◌^◌, ◌≤◌, ◌<◌, ◌≡◌, ◌≢◌, ◌⊎◌, refl, ◌∙◌, arith, List, [], ◌∷◌, Bytes, text, Result, ok,
  length,
}
use custom_database.Wal.Record.{WalRecord}
use custom_database.Wal.Reader.{max_record_size}
use custom_database.Protocol.Message.{MessageType, Message, success, error, pong}
use custom_database.Protocol.Message
use custom_database.Database.State.{Transaction, Database}
use custom_database.Database.Synced.{IsSynced}
use custom_database.Server.Request.{Reply, respond}
use custom_database.Server.RequestLaws.{found}
use custom_database.Server.Untouched.{Alike}
use custom_database.Server.Served.{Outcome}
use custom_database.Server.Spec.{Store}
use custom_database.Server.Refinement.{view, IsServing}
use custom_database.Server.Overlap.{Task, waiting, opened, settling, replied, reply_with}

-- A request that is no SCAN, and that is not too large for the log's reader.
pub record IsSmall (m : Message) : Type 0 where
  pub keyed : m.type ≢ Message.scan
  pub fits : 25 + length m.key + length m.value ≤ max_record_size

-- A request whose case has a transaction.
abbrev pub IsKeyed : Message → Type 0
IsKeyed m = (m.type ≡ Message.get) ⊎ ((m.type ≡ Message.put) ⊎ (m.type ≡ Message.delete))

-- A thread, where the request has been given this response, or none yet.
pub data Stands (mine : List (Message × Result Message)) : Task → Type 0 where
  stands_waiting : (m : Message) → IsSmall m → mine ≡ [] → Stands mine (waiting m)
  stands_opened :
      (m : Message) (t : Transaction)
      → IsKeyed m
      → IsSmall m
      → t.id < 2 ^ 64
      → mine ≡ []
      → Stands mine (opened m t)
  stands_settling :
      (m : Message) (t : Transaction) (reply : Reply)
      → t.id < 2 ^ 64
      → mine ≡ (m, ok (respond m.id reply)) ∷ []
      → Stands mine (settling m t reply)
  stands_replied : (m a : Message) → mine ≡ (m, ok a) ∷ [] → Stands mine (replied m a)

-- The database and the thread after its step: nothing was answered, or the request, as promised.
pub record IsWorked (store : Store) (mine : List (Message × Result Message)) (r : Task × Database)
    : Type 0 where
  pub rs : List WalRecord
  pub serving : IsServing r.1 rs
  pub outcome : Outcome Stands store (view r.1) mine r.0

-- The reply of a GET.
pub reply-found :
    (m : Message) (db : Database) (bytes : Bytes)
    → ◌≡◌ {A = Task × Database}
        (elim bytes [
          | [] ↦ reply_with m (error, text "Key not found") db
          | b ∷ bs ↦ reply_with m (success, b ∷ bs) db
        ])
        (reply_with m (found bytes) db)
unfolding found
reply-found m db [] = refl
reply-found m db (b ∷ bs) = refl

pub serving_after :
    {db db' : Database} {rs rs' : List WalRecord}
    → IsServing db rs
    → IsSynced db' rs'
    → Alike db db'
    → IsServing db' rs'
serving_after v kept same = record {
  synced = kept;
  ready = same.0 ∙ v.ready;
  small_id = omega (arith, same, v.small_id);
}
