-- ===== src/Programs/Bench.antt =====
-- One client thread of src/benchmark_main.cpp, on a socket and a connection that are parameters. The
-- threads share nothing but the two atomic counters and the server.
use custom_database.Prelude.{
  ℕ, zero, suc, ◌+◌, ◌%◌, ◌^◌, Bool, ◌++◌, Bytes, text, Result, ok, throw, if◌then◌else◌,
}
use custom_database.Bytes.Order.{str_eq}
use custom_database.Bytes.Decimal.{to_string}
use custom_database.Client.Call.{Socket, Client, new_client, connect}
use custom_database.Client.Call

-- `total_operations` and `successful_operations`, as the 32 bits of an `int`.
pub record Counts : Type 0 where
  pub total : ℕ
  pub successful : ℕ

abbrev pub key_name : ℕ → ℕ → Bytes
key_name i j = text "client_" ++ (to_string i ++ (text "_key_" ++ to_string j))

abbrev pub value_name : ℕ → ℕ → Bytes
value_name i j = text "client_" ++ (to_string i ++ (text "_value_" ++ to_string j))

-- The increments behind a `get` that returned.
unfoldable pub count : Bool → Counts → Counts
count correct counts = record {
  total = (counts.total + 1) % 2 ^ 32;
  successful = if correct then (counts.successful + 1) % 2 ^ 32 else counts.successful;
}

module _ {Peer : Type 0} (socket : Socket Peer) where
  -- `client.put(key, value)`, in round `j` of client `i`.
  unfoldable pub write_part : ℕ → ℕ → Client Peer → Client Peer × Result Bool
  write_part i j c = Call.put socket (key_name i j) (value_name i j) c

  -- The rest of the round: `client.get(key)` and the increments. An exception ends it.
  unfoldable pub read_part : ℕ → ℕ → Client Peer → Counts → Client Peer × Counts
  unfolding count
  read_part i j c counts =
      let (c', retrieved) = Call.get socket (key_name i j) c in
      elim retrieved [
        | throw what ↦ (c', counts)
        | ok value ↦ (c', count (str_eq value (value_name i j)) counts)
      ]

  -- One round of the loop.
  unfoldable pub round : ℕ → ℕ → Client Peer → Counts → Client Peer × Counts
  unfolding write_part read_part
  round i j c counts =
      let (c', stored) = write_part i j c in
      let rest = read_part i j c' counts in
      elim stored [ throw what ↦ (c', counts) | ok success ↦ rest ]

  -- The loop, from `j` on.
  unfoldable pub rounds : ℕ → ℕ → ℕ → Client Peer → Counts → Client Peer × Counts
  unfolding round
  rounds i zero j c counts = (c, counts)
  rounds i (suc left) j c counts =
      let (c', counts') = round i j c counts in rounds i left (j + 1) c' counts'

  -- The body of the thread of client `i`; `reached` says whether its connection succeeds.
  unfoldable pub run_client :
      Bool → Peer → (i operations_per_client : ℕ) → Counts → Client Peer × Counts
  unfolding rounds
  run_client reached peer i operations_per_client counts =
      let (c, connected) = connect reached (new_client peer) in
      let done = rounds i operations_per_client 0 c counts in
      if connected then done else (c, counts)
