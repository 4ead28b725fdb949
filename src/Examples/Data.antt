-- ===== src/Examples/Data.antt =====
-- A database on an empty machine, one transaction, and what it writes.
use custom_database.Client.Link.{IsSending}
use mathlib.Core.List.{map}
use custom_database.Prelude.{
  refl, ◌≡◌, if◌then◌else◌, true, length, leb, Bytes, arith, false, List, [], ◌∷◌, text, All,
}
use custom_database.Wal.Record.{WalRecord}
use custom_database.Wal.ReaderLaws.{IsReadable}
use custom_database.Wal.Log.{Wal, stamp}
use custom_database.Wal.Append.{Holds}
use custom_database.Wal.Accepted.{accepting}
use custom_database.Database.State.{Database, Transaction}
use custom_database.Database.Transaction.{put, put_record}
use custom_database.Database.Fits.{Fits, put_record-IsReadable}
use custom_database.Database.Synced.{IsSynced}
use custom_database.Database.Durability.{Reach, start, next, put_step}
use custom_database.Database.Loss.{
  first_log, first_database, first_database-IsSynced, first_log-Holds,
}
use custom_database.Server.Request.{RequestIo}

abbrev pub txn : Transaction
txn = record { id = 1; has_writes = false }

abbrev pub empty_log : Wal
empty_log = first_log 3 (text "d")

abbrev pub empty_database : Database
empty_database = first_database 3 (text "d")

pub empty_database-IsSynced : IsSynced empty_database []
empty_database-IsSynced = first_database-IsSynced 3 (text "d")

pub empty_log-Holds : Holds empty_log []
empty_log-Holds = first_log-Holds 3 (text "d")

-- The record of `put("k", "v")` at the time 7.
abbrev pub small : WalRecord
small = put_record 1 (text "k") (text "v")

pub small-Fits : Fits 7 txn (text "k") (text "v")
small-Fits = (omega arith, omega arith, omega arith)

pub small-IsReadable : IsReadable (stamp 7 small)
small-IsReadable = put_record-IsReadable 7 txn (text "k") (text "v") small-Fits

abbrev pub two : List WalRecord
two = stamp 7 small ∷ stamp 7 small ∷ []

pub two-IsReadable : All IsReadable two
two-IsReadable = (small-IsReadable, (small-IsReadable, tt))

-- After `put("k", "v")`.
abbrev pub written : Database
written = (put (accepting 7) (text "k") (text "v") txn empty_database).2

pub written-Reach : Reach empty_database written
written-Reach = next start (put_step 7 txn (text "k") (text "v") small-Fits)

abbrev pub io : RequestIo
io = record { write = accepting 7; commit = accepting 8 }

-- Of a response of more than 64 KiB, the memory is overwritten before it is sent.
unfoldable pub overwriting : Bytes → Bytes
overwriting bytes = if leb (length bytes) 65536 then bytes else map (λ b. 0) bytes

pub overwriting-IsSending : IsSending 65536 overwriting
unfolding overwriting
overwriting-IsSending bytes h = let e : leb (length bytes) 65536 ≡ true = ground arith in rw e refl
