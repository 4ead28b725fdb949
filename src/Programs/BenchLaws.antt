-- ===== src/Programs/BenchLaws.antt =====
-- The counters of a benchmark client whose server serves.
use custom_database.Prelude.{
  ℕ, zero, suc, ◌+◌, ◌%◌, ◌^◌, ◌<◌, ◌≡◌, refl, ap, ◌∙◌, arith, true, some, List, ◌++◌, text,
  length-append, [],
}
use custom_database.Bytes.Order.{str_eq_refl}
use custom_database.Bytes.Decimal.{to_string, length-to_string}
use custom_database.Wal.Record.{WalRecord}
use custom_database.Database.State.{Database}
use custom_database.Server.Connection.{header}
use custom_database.Server.Refinement.{view, IsServing, taking}
use custom_database.Client.Call.{Client, next_id, connect}
use custom_database.Client.Link.{Link, link}
use custom_database.Client.LinkLaws.{at, online}
use custom_database.Client.Serving.{FitsRequest, in_place, put-serving, get-serving}
use custom_database.Programs.Bench.{
  Counts, key_name, value_name, count, write_part, read_part, round, rounds, run_client,
}

pub name-FitsRequest : (i j : ℕ) → FitsRequest (key_name i j) (value_name i j)
name-FitsRequest i j =
    let a = length-append (to_string i) (text "_key_" ++ to_string j) in
    let b = length-append (to_string i) (text "_value_" ++ to_string j) in
    let c = length-to_string i in
    let d = length-to_string j in (omega (arith, a, c, d), omega (arith, a, b, c, d))

abbrev pub no_counts : Counts
no_counts = record { total = 0; successful = 0 }

-- As many more.
abbrev pub counted : ℕ → Counts → Counts
counted k counts = record {
  total = (counts.total + k) % 2 ^ 32;
  successful = (counts.successful + k) % 2 ^ 32;
}

pub count-counted : (k : ℕ) → count true (counted k no_counts) ≡ counted (k + 1) no_counts
unfolding count
count-counted k = ap (λ m. record { total = m; successful = m }) (omega arith)

module _ (now later n : ℕ) (time : now < 2 ^ 64) (time' : later < 2 ^ 64) where
  -- A client of a database that serves.
  record Served (result : Client Link × Counts) (counts : Counts) : Type 0 where
    db : Database
    rs : List WalRecord
    serving : IsServing db rs
    id : ℕ
    client_eq : result.0 ≡ online n db id
    counts_eq : result.1 ≡ counts

  round-Served :
      (i j id : ℕ) (counts : Counts) {db : Database} {rs : List WalRecord}
      → IsServing db rs
      → Served (round (link (taking now later)) i j (online n db id) counts) (count true counts)
  unfolding round write_part read_part
  round-Served i j id counts {db} v =
      let fits = name-FitsRequest i j in
      let (db₁, (rs₁, v₁), stored, seen) =
        put-serving in_place (omega arith) (omega arith) now later n id time time' v (key_name i j)
          (value_name i j) fits in
      let there : view db₁ (key_name i j) ≡ some (value_name i j) =
        ap (λ s. s (key_name i j)) seen ∙ rw (str_eq_refl (key_name i j)) refl in
      let (db₂, (rs₂, v₂), got, same) =
        get-serving in_place (omega arith) (omega arith) now later n (next_id id) time time' v₁
          (key_name i j) b'c' _ fits there in
      let e : round (link (taking now later)) i j (online n db id) counts
          ≡ (online n db₂ (next_id (next_id id)), count true counts) =
        simp (round, write_part, read_part, stored, got, str_eq_refl (value_name i j)) in
      record {
        db = db₂;
        rs = rs₂;
        serving = v₂;
        id = next_id (next_id id);
        client_eq = ap (λ r. r.0) e;
        counts_eq = ap (λ r. r.1) e;
      }

  -- The loop after a round that succeeds.
  rounds_turn :
      (i left j k id : ℕ) (db : Database)
      → (r : Served
          (round (link (taking now later)) i j (online n db id) (counted k no_counts))
          (count true (counted k no_counts)))
      → rounds (link (taking now later)) i (suc left) j (online n db id) (counted k no_counts)
        ≡ rounds
            (link (taking now later))
            i
            left
            (j + 1)
            (online n r.db r.id)
            (counted (k + 1) no_counts)
  unfolding rounds
  rounds_turn i left j k id db r = (λ x.
      rounds (link (taking now later)) i left (j + 1) (r.client_eq x)
        ((r.counts_eq ∙ count-counted k) x))

  rounds-Served :
      (i left j id k : ℕ) {db : Database} {rs : List WalRecord}
      → IsServing db rs
      → Served
          (rounds (link (taking now later)) i left j (online n db id) (counted k no_counts))
          (counted (k + left) no_counts)
  unfolding rounds
  rounds-Served i zero j id k {db} {rs} v =
      let e : k ≡ k + 0 = omega arith in
      record {
        db = db;
        rs = rs;
        serving = v;
        id = id;
        client_eq = refl;
        counts_eq = ap (λ m. counted m no_counts) e;
      }
  rounds-Served i (suc left) j id k {db} v =
      let r = round-Served i j id (counted k no_counts) v in
      let rest = rounds-Served i left (j + 1) r.id (k + 1) r.serving in
      let e : k + 1 + left ≡ k + suc left = omega arith in
      record {
        db = rest.db;
        rs = rest.rs;
        serving = rest.serving;
        id = rest.id;
        client_eq = ap (λ q. q.0) (rounds_turn i left j k id db r) ∙ rest.client_eq;
        counts_eq =
            ap (λ q. q.1) (rounds_turn i left j k id db r)
            ∙ rest.counts_eq
            ∙ ap (λ m. counted m no_counts) e;
      }

  -- A thread of the benchmark that reaches a server whose database serves, alone and over a
  -- connection that loses nothing, at times of 64 bits, counts each of its rounds as an operation
  -- and as a success, on counters of 32 bits.
  pub run_client-counted :
      (i operations_per_client : ℕ) {db : Database} {rs : List WalRecord}
      → IsServing db rs
      → (run_client
          (link (taking now later))
          true
          (at n header db [] [])
          i
          operations_per_client
          no_counts).1
        ≡ counted operations_per_client no_counts
  unfolding run_client connect
  run_client-counted i operations_per_client v =
      let e : 0 + operations_per_client ≡ operations_per_client = omega arith in
      (rounds-Served i operations_per_client 0 0 0 v).counts_eq ∙ ap (λ m. counted m no_counts) e
