-- ===== src/Database/Loss.antt =====
-- A log file is named after the time at which the database was initialized, and a restart reads the
-- file named after its own time. Here: a restart at another time.
use mathlib.Core.Path.{subst}
use custom_database.Prelude.{
  ℕ, ◌<◌, ◌^◌, ◌≡◌, ◌≢◌, refl, ap, sym, ◌∙◌, [], ◌++◌, append-nil, append_cancel_left,
  append_cancel_right, Bytes, text, some, true, false, returns, Bool-cases, inl, inr,
}
use custom_database.Bytes.Order.{str_eq, str_eq_iff}
use custom_database.Bytes.Decimal.{to_string, to_string-injective}
use custom_database.Table.{Table, find}
use custom_database.Wal.File.{contents, append_bytes, open_file, close}
use custom_database.Wal.FileLaws.{contents-append_bytes, contents-append_bytes_ne}
use custom_database.Wal.Reader.{read_records}
use custom_database.Wal.ReaderLaws.{frames}
use custom_database.Wal.Crash.{read_records-nil}
use custom_database.Wal.Log.{Wal, log_name, new_wal, read_all_records}
use custom_database.Wal.Append.{Holds}
use custom_database.Database.State.{success, Database, new_database}
use custom_database.Database.Engine.{initialize}
use custom_database.Database.Synced.{replay, IsSynced}
use custom_database.Database.Durability.{Reach}
use custom_database.Database.Elsewhere.{file_bytes, log_path_of, file_bytes_of, Reach-Same}
use custom_database.Database.Restart.{opening, reading, wal_path, data_table-initialize}

log_name-injective :
    (log_dir : Bytes) (m n : ℕ)
    → m < 2 ^ 64
    → n < 2 ^ 64
    → log_name log_dir m ≡ log_name log_dir n
    → m ≡ n
unfolding log_name
log_name-injective log_dir m n hm hn e = to_string-injective m n hm hn (
    append_cancel_right (to_string m) (to_string n) (text ".log")
      (append_cancel_left (text "/wal_") (append_cancel_left log_dir e)))

wal_path-ne :
    (data_dir : Bytes) (m n : ℕ)
    → m < 2 ^ 64
    → n < 2 ^ 64
    → m ≢ n
    → str_eq (wal_path data_dir m) (wal_path data_dir n) ≡ false
wal_path-ne data_dir m n hm hn ne =
    elim (Bool-cases (str_eq (wal_path data_dir m) (wal_path data_dir n))) [
      | inl same ↦ absurd (ne (log_name-injective _ m n hm hn ((str_eq_iff _ _).0 same)))
      | inr differ ↦ differ
    ]

contents-empty : (p : Bytes) → contents p [] ≡ []
unfolding contents find
contents-empty p = refl

-- What `initialize` makes of a machine with no files: an empty log, and no data.
module _ (now : ℕ) (data_dir : Bytes) where
  abbrev path : Bytes
  path = wal_path data_dir now

  abbrev touched : Table
  touched = append_bytes path [] (append_bytes path [] [])

  abbrev pub first_log : Wal
  first_log = record {
    log_dir = data_dir ++ text "/wal";
    current_log_file = path;
    log_file = record {
      is_open = true;
      good = true;
      path = path;
      pending = [];
      disk = append_bytes path [] touched;
    };
    locked = false;
    total_records = 0;
    total_bytes = 0;
  }

  abbrev pub first_database : Database
  first_database = record {
    data_table = replay (read_records (contents path touched));
    data_dir = data_dir;
    initialized = true;
    next_transaction_id = 1;
    wal = some first_log;
  }

  pub initialize-first :
      initialize (opening now) reading data_dir [] new_database ≡ returns (first_database, success)
  unfolding initialize new_wal read_all_records open_file close
  initialize-first = refl

  pub first_log-Holds : Holds first_log []
  first_log-Holds = record {
    opened = refl;
    sound = refl;
    drained = refl;
    current = refl;
    unlocked = refl;
    written = unfold frames in simp (contents-append_bytes, append-nil, contents-empty);
  }

  pub first_database-IsSynced : IsSynced first_database []
  first_database-IsSynced = record {
    log = first_log;
    attached = refl;
    holds = first_log-Holds;
    readable = tt;
    data_eq =
        ap (λ b. replay (read_records b)) {y = []}
          (simp (contents-append_bytes, append-nil, contents-empty))
        ∙ ap replay {y = []} read_records-nil;
  }

  file_bytes-first : (p : Bytes) → str_eq path p ≡ false → file_bytes p first_database ≡ []
  file_bytes-first p other =
      file_bytes_of p first_database {w = first_log} refl
      ∙ contents-append_bytes_ne path p [] touched other
      ∙ contents-append_bytes_ne path p [] (append_bytes path [] []) other
      ∙ contents-append_bytes_ne path p [] [] other
      ∙ contents-empty p

-- Start the database on a machine with no files, let clients begin, put, del, commit, roll back,
-- back up and shut down as they like while their records fit and the device takes everything, and
-- restart it on the files that are there: if the clock then shows another millisecond than at the
-- first start, the new process initializes with success and has no data at all.
pub restart_loses :
    (now later : ℕ) (data_dir : Bytes) {first last : Database} {w : Wal}
    → now < 2 ^ 64
    → later < 2 ^ 64
    → now ≢ later
    → initialize (opening now) reading data_dir [] new_database ≡ returns (first, success)
    → Reach first last
    → last.wal ≡ some w
    → (fresh : Database) × (initialize (opening later) reading data_dir w.log_file.disk new_database
        ≡ returns (fresh, success))
      × (fresh.data_table ≡ [])
restart_loses now later data_dir {first} {last} {w} h₁ h₂ ne done path attached =
    let other = wal_path-ne data_dir now later h₁ h₂ ne in
    let at_start : first_database now data_dir ≡ first = cc (initialize-first now data_dir, done) in
    let reached =
      subst (λ d. Reach d last) {x = first} {y = first_database now data_dir} (sym at_start) path in
    let kept =
      Reach-Same (wal_path data_dir later) (first_database-IsSynced now data_dir)
        (ap (λ q. str_eq q (wal_path data_dir later))
            (log_path_of _ {w = first_log now data_dir} refl)
          ∙ other)
        reached in
    let nothing : contents (wal_path data_dir later) w.log_file.disk ≡ [] =
      sym (file_bytes_of (wal_path data_dir later) last attached)
      ∙ kept.1
      ∙ file_bytes-first now data_dir (wal_path data_dir later) other in
    let (fresh, started, found, ready) = data_table-initialize later data_dir w.log_file.disk in
    (
      fresh,
      started,
      found
          ∙ ap (λ b. replay (read_records b)) {y = []} nothing
          ∙ ap replay {y = []} read_records-nil,
    )
