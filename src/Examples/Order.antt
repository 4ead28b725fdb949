-- ===== src/Examples/Order.antt =====
-- The order of a scan, at a concrete input.
use mathlib.Core.List.{Perm}
use custom_database.Prelude.{◌≡◌, refl, arith, Bytes, [], ◌∷◌, text}
use custom_database.Bytes.Order.{str_eq, str_lt}
use custom_database.Table.{find}
use custom_database.Database.State.{Database}
use custom_database.Database.Transaction.{scan, in_range}
use custom_database.Database.ScanOrder.{scan_order}
use custom_database.Database.ScanLaws.{range}
use custom_database.Examples.Data.{empty_database}

abbrev one_way : Database
one_way = record empty_database { data_table = (text "a", text "x") ∷ (text "b", text "y") ∷ [] }

abbrev other_way : Database
other_way = record empty_database { data_table = (text "b", text "y") ∷ (text "a", text "x") ∷ [] }

same_lookups : (k : Bytes) → find k one_way.data_table ≡ find k other_way.data_table
unfolding find str_eq
same_lookups [] = refl
same_lookups (c ∷ []) = ground arith
same_lookups (c ∷ d ∷ k) = ground arith

scan_order_example :
    Perm (scan (text "a") (text "c") 5 one_way) (scan (text "a") (text "c") 5 other_way)
unfolding range find str_eq in_range str_lt
scan_order_example =
    scan_order (text "a") (text "c") 5 one_way other_way (refl, (refl, tt)) (refl, (refl, tt))
      same_lookups (omega arith) (omega arith)
