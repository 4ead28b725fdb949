-- ===== src/Programs/JointLaws.antt =====
-- The threads of the benchmark together, on a server whose database serves.
use mathlib.Core.Path.{subst}
use custom_database.Prelude.{
  ℕ, suc, ◌+◌, ◌^◌, ◌≤◌, ◌<◌, ◌≡◌, ◌≢◌, ◌⊎◌, inl, inr, refl, ap, sym, ◌∙◌, arith, Bool, true, false,
  some, List, Bytes, ok, throw, Bool-cases, ◌==◌,
}
use custom_database.Bytes.Order.{str_eq, str_eq_refl}
use custom_database.Wal.Record.{WalRecord}
use custom_database.Database.State.{Database}
use custom_database.Server.Spec.{Store, update}
use custom_database.Server.Refinement.{view, IsServing, taking}
use custom_database.Client.Call.{Client, next_id}
use custom_database.Client.Call
use custom_database.Server.Request.{RequestIo}
use custom_database.Client.Link.{Link, link}
use custom_database.Client.LinkLaws.{online}
use custom_database.Client.Serving.{in_place, put-serving, get-serving}
use custom_database.Programs.Bench.{Counts, key_name, value_name, count, write_part, read_part}
use custom_database.Programs.BenchLaws.{name-FitsRequest, no_counts, counted, count-counted}
use custom_database.Programs.Names.{key_name-ne}
use custom_database.Programs.Joint.{Stage, writing, reading, ended, Thread, advance}
use custom_database.Client.Crowd.{lend}

-- How many of its keys a thread has written.
abbrev pub written : Stage → ℕ → ℕ
written reading j = j + 1
written _ j = j

-- A client with an idle connection.
abbrev pub IsIdle : Client Link → Type 0
IsIdle c = (db : Database) × (id : ℕ) × (c ≡ online 0 db id)

-- A thread that is not done with its connection, and whose keys hold its values.
pub record IsAlong (operations i : ℕ) (t : Thread) (store : Store) : Type 0 where
  pub idle : ((t.stage ≡ ended) × (t.round ≡ 0)) ⊎ ((t.stage ≢ ended) × IsIdle t.client)
  pub holds : (j : ℕ) → j < written t.stage t.round → store (key_name i j) ≡ some (value_name i j)
  pub within : written t.stage t.round ≤ operations

-- The calls that a thread has made.
abbrev pub calls_made : Stage → ℕ → ℕ
calls_made stage j = written stage j + j

-- A thread after a call: the others' keys hold what they held, and every round that ended is counted.
pub record Called (operations i rest made : ℕ) (store : Store) (r : Thread × Counts) : Type 0 where
  pub db : Database
  pub rs : List WalRecord
  pub serving : IsServing db rs
  pub database_eq : r.0.client.peer.database ≡ some db
  pub along : IsAlong operations i r.0 (view db)
  pub apart :
      (k : Bytes)
      → ((j : ℕ) → j < operations → str_eq (key_name i j) k ≡ false)
      → view db k ≡ store k
  pub counts_eq : r.1 ≡ counted (rest + r.0.round) no_counts
  pub live : r.0.stage ≢ ended
  pub moved : calls_made r.0.stage r.0.round ≡ suc made

module _ (io : RequestIo) (i j : ℕ) (c c' : Client Link) (counts : Counts) where
  advance-put :
      {b : Bool}
      → Call.put (link io) (key_name i j) (value_name i j) c ≡ (c', ok b)
      → advance io i writing j c counts
        ≡ (record { stage = reading; round = j; client = c' }, counts)
  unfolding advance write_part
  advance-put e =
      ap
        (λ r. (
          elim r.1 as (λ _. Thread) [
            | throw what ↦ record { stage = writing; round = j + 1; client = r.0 }
            | ok success ↦ record { stage = reading; round = j; client = r.0 }
          ],
          counts,
        ))
        e

  advance-get :
      {value : Bytes}
      → Call.get (link io) (key_name i j) c ≡ (c', ok value)
      → advance io i reading j c counts ≡ (
        record { stage = writing; round = j + 1; client = c' },
        count (str_eq value (value_name i j)) counts,
      )
  unfolding advance read_part
  advance-get e =
      ap
        (λ r.
          let q = elim r.1 as (λ _. Client Link × Counts) [
            | throw what ↦ (r.0, counts)
            | ok value ↦ (r.0, count (str_eq value (value_name i j)) counts)
          ] in
          (record { stage = writing; round = j + 1; client = q.0 }, q.1))
        e

module _ (now later operations i rest : ℕ) (time : now < 2 ^ 64) (time' : later < 2 ^ 64)
    (hi : i < 2 ^ 64) (few : operations < 2 ^ 64) (j : ℕ) (left : j < operations) {db : Database}
    {rs : List WalRecord} (v : IsServing db rs) where
  writing-Called :
      (id : ℕ)
      → ((m : ℕ) → m < j → view db (key_name i m) ≡ some (value_name i m))
      → Called operations i rest
          (calls_made writing j)
          (view db)
          (advance (taking now later) i writing j (online 0 db id) (counted (rest + j) no_counts))
  writing-Called id held =
      let (db', (rs', v'), stored, seen) =
        put-serving in_place (omega arith) (omega arith) now later 0 id time time' v (key_name i j)
          (value_name i j) (name-FitsRequest i j) in
      let after_write : (m : ℕ)
          → m < j + 1
          → update (key_name i j) (some (value_name i j)) (view db) (key_name i m)
            ≡ some (value_name i m) =
        λ m lt. elim (Bool-cases (m == j)) [
          | inl same ↦ let e : m ≡ j = ground arith in rw (e, str_eq_refl (key_name i j)) refl
          | inr differ ↦
              let ne : j ≢ m = λ e. ground arith in
              rw (key_name-ne i j i m hi (omega arith) hi (omega arith) (inr ne))
                (held m (ground arith))
        ] in
      let e =
        advance-put (taking now later) i j (online 0 db id) (online 0 db' (next_id id))
          (counted (rest + j) no_counts) stored in
      subst (Called operations i rest (calls_made writing j) (view db)) (sym e) (record {
        db = db';
        rs = rs';
        serving = v';
        database_eq = refl;
        along = record {
          idle = inr (λ e. cc, (db', next_id id, refl));
          holds = λ m lt. ap (λ s. s (key_name i m)) seen ∙ after_write m lt;
          within = omega arith;
        };
        apart = λ k other. ap (λ s. s k) seen ∙ rw (other j left) refl;
        counts_eq = refl;
        live = λ e. cc;
        moved = omega arith;
      })

  reading-Called :
      (id : ℕ)
      → ((m : ℕ) → m < j + 1 → view db (key_name i m) ≡ some (value_name i m))
      → Called operations i rest
          (calls_made reading j)
          (view db)
          (advance (taking now later) i reading j (online 0 db id) (counted (rest + j) no_counts))
  reading-Called id held =
      let (db', (rs', v'), got, same) =
        get-serving in_place (omega arith) (omega arith) now later 0 id time time' v (key_name i j)
          b'c' _ (name-FitsRequest i j) (held j (omega arith)) in
      let counts_eq : count true (counted (rest + j) no_counts)
          ≡ counted (rest + (j + 1)) no_counts =
        count-counted (rest + j) ∙ ap (λ k. counted k no_counts) (omega arith) in
      let e =
        advance-get (taking now later) i j (online 0 db id) (online 0 db' (next_id id))
          (counted (rest + j) no_counts) got in
      subst (Called operations i rest (calls_made reading j) (view db)) (sym e) (record {
        db = db';
        rs = rs';
        serving = v';
        database_eq = refl;
        along = record {
          idle = inr (λ e. cc, (db', next_id id, refl));
          holds = λ m lt. ap (λ s. s (key_name i m)) same ∙ held m lt;
          within = omega arith;
        };
        apart = λ k other. ap (λ s. s k) same;
        counts_eq = rw (str_eq_refl (value_name i j)) counts_eq;
        live = λ e. cc;
        moved = omega arith;
      })

  pub call-Called :
      (stage : Stage) {c : Client Link}
      → stage ≢ ended
      → IsIdle c
      → ((m : ℕ) → m < written stage j → view db (key_name i m) ≡ some (value_name i m))
      → Called operations i rest
          (calls_made stage j)
          (view db)
          (advance (taking now later) i stage j (lend (some db) c) (counted (rest + j) no_counts))
  call-Called writing live (db₀, id, e) held = rw e (writing-Called id held)
  call-Called reading live (db₀, id, e) held = rw e (reading-Called id held)
  call-Called ended live idle held = absurd (live refl)
