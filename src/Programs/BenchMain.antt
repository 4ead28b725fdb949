-- ===== src/Programs/BenchMain.antt =====
-- `main` of src/benchmark_main.cpp, up to its threads, and what it prints of their counters. The lines
-- on the time are left out.
use custom_database.Prelude.{
  ℕ, ◌-◌, ◌^◌, List, [], ◌∷◌, ◌++◌, Bytes, text, Result, ok, throw, ltb, if◌then◌else◌,
}
use custom_database.Programs.Shell.{ℤ, pos, negsuc, stoi, port_of, int_text, rounds_of}
use custom_database.Programs.Bench.{Counts}

-- An exit with what was printed and a code, or threads that run on this host and port.
pub data Launch : Type 0 where
  exited : List Bytes → ℕ → Launch
  running : (first_line host : Bytes) (port clients operations_per_client : ℕ) → Launch

-- The `int` of these 32 bits.
unfoldable pub as_int : ℕ → ℤ
as_int n = if ltb n (2 ^ 31) then pos n else negsuc (2 ^ 32 - 1 - n)

-- `run_concurrent_benchmark`, up to its threads.
unfoldable pub run_concurrent_benchmark : Bytes → ℕ → ℤ → ℤ → Launch
unfolding int_text rounds_of
run_concurrent_benchmark host port num_clients operations_per_client =
    running
      (text "Running concurrent benchmark with "
        ++ (int_text num_clients
            ++ (text " clients, "
                ++ (int_text operations_per_client ++ text " operations each..."))))
      host port (rounds_of num_clients) (rounds_of operations_per_client)

-- What it prints of the counters in the end.
unfoldable pub result_lines : Counts → List Bytes
unfolding as_int int_text
result_lines counts =
    (text "Total operations: " ++ int_text (as_int counts.total))
    ∷ (text "Successful operations: " ++ int_text (as_int counts.successful))
    ∷ []

-- `main`, on the program's name and the arguments behind it. It throws if an exception leaves
-- `main`, which only the conversions of its arguments can do.
unfoldable pub main : Bytes → List Bytes → Result Launch
unfolding stoi port_of run_concurrent_benchmark
main name (host ∷ port ∷ num_clients ∷ operations_per_client ∷ []) = elim (stoi port) [
  | throw what ↦ throw what
  | ok p ↦ (elim (stoi num_clients) [
    | throw what ↦ throw what
    | ok n ↦ (elim (stoi operations_per_client) [
      | throw what ↦ throw what
      | ok k ↦ ok (run_concurrent_benchmark host (port_of p) n k)
    ])
  ])
]
main name args = ok (
    exited
      ((text "Usage: " ++ (name ++ text " <host> <port> <num_clients> <operations_per_client>"))
        ∷ [])
      1)
