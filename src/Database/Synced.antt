-- ===== src/Database/Synced.antt =====
-- The data and the records of the log under one operation, while the device takes what it is given.
use mathlib.Core.List.{foldl, foldl-append}
use custom_database.Prelude.{
  All-append, Bool, false, if◌then◌else◌, text, ℕ, none, Option, ℕ, ◌≡◌, refl, ap, sym, ◌∙◌, List,
  [], ◌∷◌, ◌++◌, Bytes, some, true, All, Option-cases, Bool-cases, inl, inr,
}
use custom_database.Table.{Table, find, set, erase}
use custom_database.Wal.Record.{WalRecord}
use custom_database.Wal.ReaderLaws.{IsReadable}
use custom_database.Wal.Log.{Wal, stamp, append_record, create_checkpoint}
use custom_database.Wal.Append.{Holds}
use custom_database.Wal.Accepted.{
  accepting, append_record-Holds, checkpoint_record, create_checkpoint-Holds,
}
use custom_database.Database.Fits.{
  Fits, FitsPath, checkpoint_record-IsReadable, put_record-IsReadable, delete_record-IsReadable,
  commit_record-IsReadable,
}
use custom_database.Database.State.{
  OperationResult, key_not_found, success, Database, Transaction, log_record,
}
use custom_database.Database.Transaction.{
  put, del, commit, put_record, delete_record, commit_record,
}
use custom_database.Database.Engine.{apply_record, begin_transaction, checkpoint, shutdown, backup}

-- The data that the recovery loop makes of these records.
abbrev pub replay : List WalRecord → Table
replay = foldl apply_record []

pub record IsSynced (db : Database) (rs : List WalRecord) : Type 0 where
  pub log : Wal
  pub attached : db.wal ≡ some log
  pub holds : Holds log rs
  pub readable : All IsReadable rs
  pub data_eq : db.data_table ≡ replay rs

-- A record that is logged joins the others, where the data was brought up to it.
log_record-IsSynced :
    (now : ℕ) (r : WalRecord) (m : Table) {db : Database} {rs : List WalRecord}
    → IsSynced db rs
    → IsReadable (stamp now r)
    → m ≡ apply_record db.data_table (stamp now r)
    → IsSynced
        (log_record (accepting now) r (record db { data_table = m })).0
        (rs ++ (stamp now r ∷ []))
      × ((log_record (accepting now) r (record db { data_table = m })).1 ≡ true)
unfolding log_record
log_record-IsSynced now r m {db} {rs} s hr e =
    let (kept, logged) = append_record-Holds now r s.holds in
    rw s.attached (
      record {
        log = (append_record (accepting now) r s.log).0;
        attached = refl;
        holds = kept;
        readable = All-append IsReadable rs (stamp now r) s.readable hr;
        data_eq =
            e
            ∙ ap (λ d. apply_record d (stamp now r)) s.data_eq
            ∙ sym (foldl-append apply_record [] rs (stamp now r ∷ []));
      },
      logged,
    )

-- What `del` returns where the device takes its record, by what the key holds.
abbrev pub deleted : Option Bytes → OperationResult
deleted none = key_not_found
deleted (some old) = success

module _ (now : ℕ) (t : Transaction) {db : Database} {rs : List WalRecord}
    (s : IsSynced db rs) where
  pub put-IsSynced :
      (key value : Bytes)
      → Fits now t key value
      → IsSynced
          (put (accepting now) key value t db).2
          (rs ++ (stamp now (put_record t.id key value) ∷ []))
        × ((put (accepting now) key value t db).0 ≡ success)
  unfolding put
  put-IsSynced key value h =
      let r = put_record t.id key value in
      let (kept, logged) =
        log_record-IsSynced now r (set key value db.data_table) s
          (put_record-IsReadable now t key value h)
          (unfold apply_record stamp put_record in refl) in
      rw logged (kept, refl)

  pub del-IsSynced :
      (key : Bytes)
      → Fits now t key []
      → (rs' : List WalRecord) × IsSynced (del (accepting now) key t db).2 rs'
        × ((del (accepting now) key t db).0 ≡ deleted (find key db.data_table))
  unfolding del
  del-IsSynced key h = elim (Option-cases (find key db.data_table)) [
    | inl missing ↦ (rs, rw (missing, del) s, rw (missing, del) refl)
    | inr (old, found) ↦
        let r = delete_record t.id key in
        let (kept, logged) =
          log_record-IsSynced now r (erase key db.data_table) s
            (delete_record-IsReadable now t key h)
            (unfold apply_record stamp delete_record in refl) in
        (
          rs ++ (stamp now r ∷ []),
          rw (found, del) (rw logged kept),
          rw (found, del) (rw logged refl),
        )
  ]

  pub commit-IsSynced :
      Fits now t [] [] → (rs' : List WalRecord) × IsSynced (commit (accepting now) t db).1 rs'
  unfolding commit
  commit-IsSynced h = elim (Bool-cases t.has_writes) [
    | inl wrote ↦
        let r = commit_record t.id in
        let (kept, logged) =
          log_record-IsSynced now r db.data_table s (commit_record-IsReadable now t h)
            (unfold apply_record stamp commit_record in refl) in
        (rs ++ (stamp now r ∷ []), rw wrote (rw logged kept))
    | inr read_only ↦ (rs, rw read_only s)
  ]

pub begin-IsSynced :
    {db : Database} {rs : List WalRecord} → IsSynced db rs → IsSynced (begin_transaction db).0 rs
unfolding begin_transaction
begin-IsSynced {db} s = elim (Bool-cases db.initialized) [
  | inl ready ↦ rw ready (record {
    log = s.log;
    attached = s.attached;
    holds = s.holds;
    readable = s.readable;
    data_eq = s.data_eq;
  })
  | inr not_ready ↦ simp not_ready s
]

pub checkpoint-IsSynced :
    (now : ℕ) (path : Bytes) {db : Database} {rs : List WalRecord}
    → FitsPath now path
    → IsSynced db rs
    → IsSynced (checkpoint (accepting now) path db).0 (rs ++ (checkpoint_record now path ∷ []))
unfolding checkpoint
checkpoint-IsSynced now path {db} {rs} h s =
    let (kept, created) = create_checkpoint-Holds now path s.holds in
    rw s.attached (record {
      log = (create_checkpoint (accepting now) path s.log).0;
      attached = refl;
      holds = kept;
      readable = All-append IsReadable rs _ s.readable (checkpoint_record-IsReadable now path h);
      data_eq =
          s.data_eq
          ∙ unfold apply_record in
            sym (foldl-append apply_record [] rs (checkpoint_record now path ∷ []));
    })

if-IsSynced :
    (b : Bool) {db db' : Database} {rs rs' : List WalRecord}
    → IsSynced db rs
    → IsSynced db' rs'
    → (last : List WalRecord) × IsSynced (if b then db else db') last
if-IsSynced true s s' = (_, s)
if-IsSynced false s s' = (_, s')

pub shutdown-IsSynced :
    (now : ℕ) {db : Database} {rs : List WalRecord}
    → FitsPath now (db.data_dir ++ text "/checkpoint.db")
    → IsSynced db rs
    → (rs' : List WalRecord) × IsSynced (shutdown (accepting now) db) rs'
unfolding shutdown
shutdown-IsSynced now {db} h s =
    let kept = checkpoint-IsSynced now _ h s in
    let ended : IsSynced
        (record (checkpoint (accepting now) (db.data_dir ++ text "/checkpoint.db") db).0 {
          initialized = false;
        })
        _ =
      record {
        log = kept.log;
        attached = kept.attached;
        holds = kept.holds;
        readable = kept.readable;
        data_eq = kept.data_eq;
      } in
    if-IsSynced db.initialized ended s

pub backup-IsSynced :
    (now : ℕ) (path : Bytes) {db : Database} {rs : List WalRecord}
    → FitsPath now path
    → IsSynced db rs
    → (rs' : List WalRecord) × IsSynced (backup (accepting now) path db).0 rs'
unfolding backup
backup-IsSynced now path h s = (_, checkpoint-IsSynced now path h s)
