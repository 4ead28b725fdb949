-- ===== src/Examples/Broken.antt =====
-- Clients without a connection, or with one that fails, and the server program with a client of it, at
-- concrete inputs.
use custom_database.Prelude.{
  ℕ, ◌+◌, ◌%◌, ◌^◌, ◌≡◌, arith, true, List, [], ◌∷◌, text, ◌==◌, throw, length,
}
use custom_database.Client.Call.{Socket, Client, new_client}
use custom_database.Client.Contract.{Operation, get, put, perform_all}
use custom_database.Client.Broken.{flags, perform_all-flags}

-- A socket that takes one write, fails at the next ones, and sends nothing; it counts what was called.
abbrev broken : Socket ℕ
broken = record {
  write = λ bytes n. (n + 1, n == 0);
  read = λ size n. (n + 1, throw (text "End of file"));
}

abbrev operations : List (Socket ℕ × Operation)
operations =
    (broken, put (text "k") (text "v")) ∷ (broken, get (text "k")) ∷ (broken, get (text "k")) ∷ []

abbrev never_connected : Client ℕ
never_connected = record (new_client 0) { request_id = 4294967294 }

perform_all-flags_example :
    flags (perform_all operations (record never_connected { is_open = true; connected = true })).0
    ≡ (true, true, (4294967294 + length operations) % 2 ^ 32)
perform_all-flags_example =
    perform_all-flags operations (record never_connected { is_open = true; connected = true })
      (omega arith)
