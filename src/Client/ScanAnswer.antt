-- ===== src/Client/ScanAnswer.antt =====
-- A scan from the server's data to the client's results.
use custom_database.Prelude.{ℕ, suc, ◌-◌, ◌≡◌, ap, ◌∙◌, arith, true, Bytes, All, take}
use custom_database.Protocol.Message.{success}
use custom_database.Database.State.{Database}
use custom_database.Database.Engine.{begin_transaction}
use custom_database.Database.ScanLaws.{range, scan-range}
use custom_database.Server.Request.{reply_scan, format_results}
use custom_database.Server.RequestLaws.{begun, begin_ready}
use custom_database.Client.Scan.{parse_results}
use custom_database.Client.ScanLaws.{IsPlain, parse_results-format_results}

data_table-begun : (db : Database) → (begun db).data_table ≡ db.data_table
unfolding begin_transaction
data_table-begun db = ground arith

pub reply_scan_lem :
    (start_key end_key : Bytes) (db : Database)
    → db.initialized ≡ true
    → reply_scan start_key end_key db
      ≡ ((success, format_results (take 1000 (range start_key end_key db.data_table))), begun db)
unfolding reply_scan
reply_scan_lem start_key end_key db ready =
    rw (begin_ready db ready, reply_scan)
      (ap (λ es. ((success, format_results es), begun db))
        (scan-range start_key end_key 1000 (begun db)
          ∙ ap (λ m. take 1000 (range start_key end_key m)) (data_table-begun db)))

-- What the client reads from the server's answer to SCAN, on an initialized database whose first
-- thousand entries of the range hold no quote: the first `limit` of these entries, in the order of
-- the server's map (the first one, for a limit of 0).
pub scan_answer :
    (start_key end_key : Bytes) (limit : ℕ) (db : Database)
    → db.initialized ≡ true
    → All IsPlain (take 1000 (range start_key end_key db.data_table))
    → parse_results limit (reply_scan start_key end_key db).0.1
      ≡ take (suc (limit - 1)) (take 1000 (range start_key end_key db.data_table))
scan_answer start_key end_key limit db ready plain =
    ap (λ r. parse_results limit r.0.1) (reply_scan_lem start_key end_key db ready)
    ∙ parse_results-format_results limit (take 1000 (range start_key end_key db.data_table)) plain
