-- ===== src/Programs/JointResult.antt =====
-- What the benchmark prints of its counters once its threads are done.
use custom_database.Prelude.{
  ℕ, ◌+◌, ◌*◌, ◌%◌, ◌^◌, ◌<◌, ◌≡◌, refl, ap, ◌∙◌, arith, Bool, true, List, [], ◌∷◌, ◌++◌, text,
  length, ltb,
}
use custom_database.Bytes.Decimal.{to_string}
use custom_database.Wal.Record.{WalRecord}
use custom_database.Database.State.{Database}
use custom_database.Server.Refinement.{IsServing}
use custom_database.Programs.Shell.{int_text}
use custom_database.Programs.BenchMain.{as_int, result_lines}
use custom_database.Programs.Joint.{Joint, started, Reach}
use custom_database.Programs.JointReach.{Reach-IsJoint}
use custom_database.Programs.Threads.{total_rounds}
use custom_database.Programs.JointCalls.{count_true, connections-Reach}
use custom_database.Programs.JointEnd.{IsOver, total_rounds-IsOver, each-IsWithin}

-- The text of a counter that has not wrapped around.
text-counted : (k : ℕ) → k < 2 ^ 31 → int_text (as_int ((0 + k) % 2 ^ 32)) ≡ to_string k
unfolding as_int int_text
text-counted k small =
    let e : (0 + k) % 2 ^ 32 ≡ k = omega arith in
    let positive : ltb k (2 ^ 31) ≡ true = ground arith in rw e (rw positive refl)

-- When all threads of the benchmark have returned, in whatever order their calls came, with fewer
-- than 2^64 rounds each, fewer than 2^64 threads, fewer than 2^31 rounds of the threads that could
-- connect together, and a database that serves at their start: the benchmark prints that number of
-- rounds as its total and as its successful operations.
pub joint_lines :
    (operations : ℕ) (reached : List Bool) {db : Database} {rs : List WalRecord} {s : Joint}
    → count_true reached * operations < 2 ^ 31
    → (few : operations < 2 ^ 64) → (many : length reached < 2 ^ 64) → (v : IsServing db rs)
    → (path : Reach operations (started db reached) s) → IsOver operations s.threads
    → let all = count_true reached * operations in
      result_lines s.counts
      ≡ (text "Total operations: " ++ to_string all)
        ∷ (text "Successful operations: " ++ to_string all)
        ∷ []
unfolding result_lines
joint_lines operations reached {db} {s} small few many v path over =
    let all = count_true reached * operations in
    let k : total_rounds s.threads ≡ all =
      total_rounds-IsOver operations s.threads (each-IsWithin operations few reached many v path)
        over
      ∙ ap (λ n. n * operations) (connections-Reach operations few reached many v path) in
    let shown = ap (λ n. int_text (as_int ((0 + n) % 2 ^ 32))) k ∙ text-counted all small in
    ap result_lines (Reach-IsJoint operations few reached many v path).counts_eq ∙ (λ x.
      (text "Total operations: " ++ shown x) ∷ (text "Successful operations: " ++ shown x) ∷ [])
