-- ===== src/Examples/Programs.antt =====
-- The programs and a server that keeps its promise, at concrete inputs.
use mathlib.Core.List.{map}
use custom_database.Prelude.{◌≡◌, refl, arith, true, some, List, [], ◌∷◌, text, ok, All}
use custom_database.Protocol.Message
use custom_database.Wal.Record.{WalRecord}
use custom_database.Database.State.{Database}
use custom_database.Server.Spec.{update, promise_all, serve_all}
use custom_database.Server.Refinement.{view, IsServing}
use custom_database.Server.Promise.{Call, IsCall, served, serve_all-promise_all}
use custom_database.Client.Call.{request}
use custom_database.Programs.Shell.{pos, stoi}
use custom_database.Programs.ShellLaws.{IsRun, main-put_get}
use custom_database.Examples.Data.{
  overwriting, overwriting-IsSending, empty_database, empty_database-IsSynced,
}

pub empty_database-IsServing : IsServing empty_database []
empty_database-IsServing = record {
  synced = empty_database-IsSynced;
  ready = refl;
  small_id = omega arith;
}

abbrev put_call : Call
put_call = record { now = 7; later = 8; message = request Message.put 1 (text "k") (text "v") }

abbrev del_call : Call
del_call = record { now = 9; later = 9; message = request Message.delete 2 (text "k") [] }

abbrev calls : List Call
calls = put_call ∷ del_call ∷ []

calls-IsCall : All IsCall calls
unfolding request
calls-IsCall = (
  record { time = omega arith; time' = omega arith; keyed = (λ e. cc); fits = omega arith },
  (record { time = omega arith; time' = omega arith; keyed = (λ e. cc); fits = omega arith }, tt),
)

serve_all-promise_all_example :
    let after = serve_all (map served calls) empty_database in
    let promised = promise_all (map (λ c. c.message) calls) (view empty_database) in
    (after.0 ≡ promised.0)
    × (view after.1 ≡ promised.1)
    × ((rs' : List WalRecord) × IsServing after.1 rs')
serve_all-promise_all_example = serve_all-promise_all calls calls-IsCall empty_database-IsServing

port-80 : stoi (text "80") ≡ ok (pos 80)
unfolding stoi
port-80 = refl

main-put_get_example :
    (db' db'' : Database) × IsRun overwriting 7 8 0
      (λ host port. true)
      (text "localhost" ∷ text "80" ∷ text "put" ∷ text "k" ∷ text "v" ∷ [])
      empty_database
      db'
      (text "OK" ∷ [], 0)
    × IsRun overwriting 7 8 0
        (λ host port. true)
        (text "localhost" ∷ text "80" ∷ text "get" ∷ text "k" ∷ [])
        db'
        db''
        (text "v" ∷ [], 0)
    × (view db'' ≡ update (text "k") (some (text "v")) (view empty_database))
main-put_get_example =
    main-put_get overwriting-IsSending (omega arith) (omega arith) 7 8 0 (omega arith) (omega arith)
      (text "localhost") (text "80") (pos 80) port-80 (λ host port. true) refl (text "k") b'v' []
      (omega arith, omega arith) empty_database-IsServing
