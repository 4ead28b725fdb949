-- ===== src/Examples/Client.antt =====
-- The client's theorems at concrete inputs.
use custom_database.Prelude.{
  ◌+◌, ◌≤◌, length, ok, Bytes, arith, ◌≡◌, refl, List, [], ◌∷◌, text, take, All,
}
use custom_database.Bytes.Find.{search_from, find, substr}
use custom_database.Bytes.Order.{str_lt}
use custom_database.Table.{Entry}
use custom_database.Database.State.{Database}
use custom_database.Database.Transaction.{in_range}
use custom_database.Database.ScanLaws.{range}
use custom_database.Server.Request.{format_results}
use custom_database.Client.Scan.{parse_loop, parse_results}
use custom_database.Client.ScanLaws.{IsPlain}
use custom_database.Client.Forged.{forged, parse_results-forged}
use custom_database.Client.ScanFuel.{parse_loop-fuel}
use custom_database.Client.ScanLink.{scan-link}
use custom_database.Client.Call.{next_id, scan}
use custom_database.Client.Link.{link_over}
use custom_database.Client.LinkLaws.{online}
use custom_database.Server.RequestLaws.{begun}
use custom_database.Protocol.Message.{max_message_size}
use custom_database.Examples.Data.{overwriting, overwriting-IsSending, empty_database, io}

abbrev entries : List Entry
entries = (text "a", text "1") ∷ (text "b", text "2") ∷ (text "c", text "3") ∷ []

abbrev filled : Database
filled = record empty_database { data_table = entries }

entries-IsPlain : All IsPlain entries
entries-IsPlain =
    (((refl, tt), (refl, tt)), (((refl, tt), (refl, tt)), (((refl, tt), (refl, tt)), tt)))

range-filled : All IsPlain (take 1000 (range (text "a") (text "c") filled.data_table))
unfolding range in_range str_lt
range-filled = (((refl, tt), (refl, tt)), (((refl, tt), (refl, tt)), tt))

-- The text of two results.
formatted :
    format_results (take 2 entries)
    ≡ text "[{\"key\":\"a\",\"value\":\"1\"},{\"key\":\"b\",\"value\":\"2\"}]"
unfolding format_results
formatted = refl

-- A value that holds a quote is cut off there.
parse-quoted :
    parse_results 10 (format_results ((text "a", text "x\"y") ∷ [])) ≡ (text "a", text "x") ∷ []
unfolding parse_results format_results find search_from substr
parse-quoted = refl

parse_results-forged_example :
    parse_results 5 (format_results ((text "a", forged (text "1") (text "b") (text "2")) ∷ []))
    ≡ (text "a", text "1") ∷ (text "b", text "2") ∷ []
parse_results-forged_example =
    parse_results-forged 5 (text "a") (text "1") (text "b") (text "2") entries-IsPlain.0
      entries-IsPlain.1.0

filled-size :
    (13 + length (format_results (take 1000 (range (text "a") (text "c") filled.data_table)))
      ≤ max_message_size)
    × (17 + length (format_results (take 1000 (range (text "a") (text "c") filled.data_table)))
        ≤ 65536)
unfolding format_results range in_range str_lt
filled-size = omega arith

scan-link_example : scan (link_over overwriting io) (text "a") (text "c") 1 (online 0 filled 4) ≡ (
  online 0 (begun filled) (next_id 4),
  ok (take 1 (take 1000 (range (text "a") (text "c") filled.data_table))),
)
scan-link_example =
    scan-link io 0 4 (text "a") (text "c") 1 filled overwriting-IsSending refl (omega arith)
      (omega arith) range-filled filled-size.0 filled-size.1

abbrev shown : Bytes
shown = text "[{\"key\":\"a\",\"value\":\"1\"}]"

parse_loop-fuel_example : parse_loop 40 shown 5 0 [] ≡ parse_loop 90 shown 5 0 []
parse_loop-fuel_example = parse_loop-fuel 40 90 shown 5 0 [] (omega arith) (omega arith)
