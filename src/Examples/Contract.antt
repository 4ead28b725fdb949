-- ===== src/Examples/Contract.antt =====
-- A client's operations against those of a plain map, at a concrete input.
use mathlib.Core.List.{map}
use custom_database.Prelude.{◌≡◌, ap, refl, arith, none, List, [], ◌∷◌, text, throw, ok, All, true}
use custom_database.Bytes.Order.{str_eq}
use custom_database.Table.{find}
use custom_database.Server.Spec.{Store}
use custom_database.Client.LinkLaws.{online}
use custom_database.Client.Contract.{get, put, del, got, done, perform_all, expect_all}
use custom_database.Client.Keeping.{IsOnline, IsShortWithin}
use custom_database.Client.Promise.{Turn, IsTurn, on_link, perform_all-expect_all}
use custom_database.Examples.Data.{
  overwriting, overwriting-IsSending, empty_database, empty_database-IsSynced,
}
use custom_database.Examples.Programs.{empty_database-IsServing}

abbrev nothing : Store
nothing k = none

abbrev pub turns : List Turn
turns =
    record { now = 7; later = 8; sent = overwriting; operation = put (text "k") (text "v") }
    ∷ record { now = 9; later = 9; sent = overwriting; operation = get (text "k") }
    ∷ record { now = 10; later = 11; sent = overwriting; operation = del (text "k") }
    ∷ record { now = 12; later = 12; sent = overwriting; operation = get (text "k") }
    ∷ []

pub turns-IsTurn : All (IsTurn 65536) turns
turns-IsTurn = (
  record {
    time = omega arith;
    time' = omega arith;
    sending = overwriting-IsSending;
    fits = (omega arith, omega arith);
  },
  (
    record {
      time = omega arith;
      time' = omega arith;
      sending = overwriting-IsSending;
      fits = (omega arith, omega arith);
    },
    (
      record {
        time = omega arith;
        time' = omega arith;
        sending = overwriting-IsSending;
        fits = (omega arith, omega arith);
      },
      (
        record {
          time = omega arith;
          time' = omega arith;
          sending = overwriting-IsSending;
          fits = (omega arith, omega arith);
        },
        tt,
      ),
    ),
  ),
)

empty-IsOnline : IsOnline 0 nothing (online 0 empty_database 4)
unfolding find
empty-IsOnline = record {
  db = empty_database;
  rs = [];
  serving = empty_database-IsServing;
  id = 4;
  client_eq = refl;
  store_eq = ap (λ m k. find k m) empty_database-IsSynced.data_eq;
}

nothing-IsShort : IsShortWithin 65536 nothing
nothing-IsShort key = omega arith

perform_all-expect_all_example :
    let r = perform_all (map on_link turns) (online 0 empty_database 4) in
    let e = expect_all (map (λ t. t.operation) turns) nothing in (r.1 ≡ e.0) × IsOnline 0 e.1 r.0
perform_all-expect_all_example =
    perform_all-expect_all 0 65536 (omega arith) (omega arith) turns turns-IsTurn empty-IsOnline
      nothing-IsShort

-- What a plain map answers.
expected : (expect_all (map (λ t. t.operation) turns) nothing).0 ≡ (
    done (ok true)
    ∷ got (ok (text "v"))
    ∷ done (ok true)
    ∷ got (throw (text "GET failed: Key not found"))
    ∷ [])
unfolding expect_all str_eq
expected = refl
