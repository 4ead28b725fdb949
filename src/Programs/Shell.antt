-- ===== src/Programs/Shell.antt =====
-- The command line client of src/client_main.cpp. The socket of its client and the success of its
-- connection are parameters. The lines on the time that a benchmark took are left out.
use custom_database.Prelude.{
  ℕ, zero, suc, ◌+◌, ◌-◌, ◌*◌, ◌%◌, ◌^◌, Bool, true, false, ◌&&◌, ◌||◌, not, List, [], ◌∷◌, ◌++◌,
  Bytes, text, Result, ok, throw, length, get_or, leb, ltb, ◌==◌, if◌then◌else◌,
}
use custom_database.Bytes.Order.{str_eq}
use custom_database.Bytes.Decimal.{to_string}
use custom_database.Table.{Entry}
use custom_database.Client.Call.{Socket, Client, new_client, connect}
use custom_database.Client.Call

-- An `int`: `negsuc n` is -(n + 1).
pub data ℤ : Type 0 where
  pos : ℕ → ℤ
  negsuc : ℕ → ℤ

-- `std::isspace`, in the C locale.
abbrev is_space : ℕ → Bool
is_space c = c == 32 || (leb 9 c && leb c 13)

abbrev is_digit : ℕ → Bool
is_digit c = leb b'0' c && leb c b'9'

skip_spaces : Bytes → Bytes
skip_spaces [] = []
skip_spaces (c ∷ s) = if is_space c then skip_spaces s else c ∷ s

-- The number that the digits in front stand for, after `value`.
digits_value : ℕ → Bytes → ℕ
digits_value value [] = value
digits_value value (c ∷ s) =
    let rest = digits_value (10 * value + (c - b'0')) s in if is_digit c then rest else value

starts_with_digit : Bytes → Bool
starts_with_digit [] = false
starts_with_digit (c ∷ s) = is_digit c

-- `std::invalid_argument` and `std::out_of_range`, with the `what()` of libstdc++.
in_int : Bool → Bytes → Result ℤ
in_int negative s =
    let value = digits_value 0 s in
    if not (starts_with_digit s)
    then throw (text "stoi")
    else if negative
    then (if ltb (2 ^ 31) value
        then throw (text "stoi")
        else ok (if value == 0 then pos 0 else negsuc (value - 1)))
    else if leb (2 ^ 31) value
    then throw (text "stoi")
    else ok (pos value)

signed : Bytes → Result ℤ
unfolding in_int
signed [] = throw (text "stoi")
signed (c ∷ s) =
    if c == b'-' then in_int true s else if c == b'+' then in_int false s else in_int false (c ∷ s)

-- `std::stoi(s)`.
unfoldable pub stoi : Bytes → Result ℤ
unfolding signed skip_spaces digits_value starts_with_digit in_int
stoi s = signed (skip_spaces s)

-- `static_cast<uint16_t>(i)`.
unfoldable pub port_of : ℤ → ℕ
port_of (pos n) = n % 2 ^ 16
port_of (negsuc n) = (2 ^ 16 - 1) - n % 2 ^ 16

-- An `int` that is printed.
unfoldable pub int_text : ℤ → Bytes
int_text (pos n) = to_string n
int_text (negsuc n) = text "-" ++ to_string (n + 1)

-- How many rounds `for (int i = 0; i < n; ++i)` has.
unfoldable pub rounds_of : ℤ → ℕ
rounds_of (pos n) = n
rounds_of (negsuc n) = 0

abbrev pub usage : List Bytes
usage =
    text "Usage: distributeddb_client <host> <port> <command> [args...]"
    ∷ text "Commands:"
    ∷ text "  get <key>                    - Get value for key"
    ∷ text "  put <key> <value>          - Put key-value pair"
    ∷ text "  del <key>                    - Delete key"
    ∷ text "  scan <start_key> <end_key>   - Scan keys in range"
    ∷ text "  ping                         - Ping server"
    ∷ text "  benchmark <num_operations>   - Run performance benchmark"
    ∷ []

-- What a run prints to `std::cout`, besides the lines of the client on its connection, and the exit
-- code of `main`.
abbrev pub Report : Type 0
Report = List Bytes × ℕ

abbrev pub key_name : ℕ → Bytes
key_name i = text "benchmark_key_" ++ to_string i

abbrev pub value_name : ℕ → Bytes
value_name i = text "benchmark_value_" ++ to_string i

unfoldable pub entry_lines : List Entry → List Bytes
entry_lines [] = []
entry_lines ((key, value) ∷ es) = (text "  " ++ (key ++ (text " = " ++ value))) ∷ entry_lines es

-- What `main` makes of the results of the operations; an exception goes to `std::cerr`.
unfoldable pub report_get : Result Bytes → Report
report_get (ok value) = (value ∷ [], 0)
report_get (throw what) = ([], 1)

unfoldable pub report_flag : Bytes → Result Bool → Report
report_flag yes_text (ok success) = ((if success then yes_text else text "ERROR") ∷ [], 0)
report_flag yes_text (throw what) = ([], 1)

unfoldable pub report_scan : Result (List Entry) → Report
unfolding entry_lines
report_scan (ok results) =
    ((text "Found " ++ (to_string (length results) ++ text " results:")) ∷ entry_lines results, 0)
report_scan (throw what) = ([], 1)

module _ {Peer : Type 0} (socket : Socket Peer) where
  -- The loop of writes of `run_benchmark`, from `i` on. An exception ends it.
  unfoldable pub write_loop : ℕ → ℕ → Client Peer → Client Peer
  write_loop zero i c = c
  write_loop (suc rounds) i c =
      let (c', result) = Call.put socket (key_name i) (value_name i) c in
      let rest = write_loop rounds (i + 1) c' in elim result [ ok success ↦ rest | throw what ↦ c' ]

  -- The loop of reads.
  unfoldable pub read_loop : ℕ → ℕ → Client Peer → Client Peer
  read_loop zero i c = c
  read_loop (suc rounds) i c =
      let (c', result) = Call.get socket (key_name i) c in
      let rest = read_loop rounds (i + 1) c' in elim result [ ok value ↦ rest | throw what ↦ c' ]

  unfoldable pub run_benchmark : ℤ → Client Peer → Client Peer × Report
  unfolding int_text rounds_of write_loop read_loop
  run_benchmark num_operations c =
      let written = write_loop (rounds_of num_operations) 0 c in
      (
        read_loop (rounds_of num_operations) 0 written,
        (
          (text "Running benchmark with " ++ (int_text num_operations ++ text " operations..."))
              ∷ [],
          0,
        ),
      )

  -- The command and its arguments, on a connected client.
  unfoldable pub run_command : Bytes → List Bytes → Client Peer → Client Peer × Report
  unfolding report_get report_flag report_scan run_benchmark
  run_command command args c =
      let arg₁ = get_or args 0 [] in
      let arg₂ = get_or args 1 [] in
      let n = length args in
      if str_eq command (text "get") && leb 1 n
      then (let (c', result) = Call.get socket arg₁ c in (c', report_get result))
      else if str_eq command (text "put") && leb 2 n
      then (let (c', result) = Call.put socket arg₁ arg₂ c in (c', report_flag (text "OK") result))
      else if str_eq command (text "del") && leb 1 n
      then (let (c', result) = Call.del socket arg₁ c in (c', report_flag (text "OK") result))
      else if str_eq command (text "scan") && leb 2 n
      then (let (c', result) = Call.scan socket arg₁ arg₂ 1000 c in (c', report_scan result))
      else if str_eq command (text "ping")
      then (let (c', result) = Call.ping socket c in (c', report_flag (text "PONG") result))
      else if str_eq command (text "benchmark") && leb 1 n
      then (elim (stoi arg₁) [
        | ok num_operations ↦ run_benchmark num_operations c
        | throw what ↦ (c, ([], 1))
      ])
      else (c, (usage, 1))

  -- The block of `main` behind its arguments; `reached` says whether the connection succeeds.
  unfoldable pub run_client : Bool → Peer → Bytes → List Bytes → Peer × Report
  run_client reached peer command args =
      let (c, connected) = connect reached (new_client peer) in
      let (c', report) = run_command command args c in
      if connected then (c'.peer, report) else (c.peer, ([], 1))

  -- `main`, on the arguments behind the program's name; `reached` says whether a connection to this
  -- host and port succeeds, and `peer` is what is behind it. It throws if an exception leaves
  -- `main`, which only the conversion of the port can do.
  unfoldable pub main : (Bytes → ℕ → Bool) → Peer → List Bytes → Result (Peer × Report)
  main reached peer (host ∷ port ∷ command ∷ args) = elim (stoi port) [
    | throw what ↦ throw what
    | ok i ↦ ok (run_client (reached host (port_of i)) peer command args)
  ]
  main reached peer _ = ok (peer, (usage, 1))
