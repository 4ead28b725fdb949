-- ===== src/Client/ScanLink.antt =====
-- A client's `scan` over a connection that loses nothing.
use custom_database.Prelude.{
  ℕ, suc, ◌+◌, ◌-◌, ◌≤◌, ◌≡◌, ap, sym, ◌∙◌, arith, true, Bytes, ok, length, All, take,
}
use custom_database.Protocol.Message.{max_message_size, max_key_size}
use custom_database.Protocol.Message
use custom_database.Database.State.{Database}
use custom_database.Database.ScanLaws.{range}
use custom_database.Server.Request.{
  RequestIo, format_results, dispatch, respond, process_request_sync,
}
use custom_database.Server.RequestLaws.{begun}
use custom_database.Client.Scan.{parse_results}
use custom_database.Client.ScanLaws.{IsPlain}
use custom_database.Client.ScanAnswer.{reply_scan_lem, scan_answer}
use custom_database.Client.Call.{next_id, request, call, answer_scan, scan}
use custom_database.Client.Link.{IsSending, link_over}
use custom_database.Client.LinkLaws.{online, send_request-answer}
use custom_database.Client.Session.{request-IsSendable, response-IsSendable, response-intact}

-- A client's `scan`, over a connection that loses nothing, sends responses of up to some number of
-- bytes as they were and has nothing on the way, of an initialized database whose first thousand
-- entries of the range hold no quote, where the request and the text of these entries are within
-- the protocol's limits, and the text leaves 17 bytes of that number: it returns the first `limit`
-- of these entries, in the order of the server's map (the first one, for a limit of 0), the
-- database has begun one transaction, and nothing is on the way again.
pub scan-link :
    {at_once : ℕ} {sent : Bytes → Bytes} (io : RequestIo) (n id : ℕ) (start_key end_key : Bytes)
    (limit : ℕ) (db : Database)
    → IsSending at_once sent
    → db.initialized ≡ true
    → length start_key ≤ max_key_size
    → 13 + length start_key + length end_key ≤ max_message_size
    → let shown = take 1000 (range start_key end_key db.data_table) in
      All IsPlain shown
      → 13 + length (format_results shown) ≤ max_message_size
      → 17 + length (format_results shown) ≤ at_once
      → scan (link_over sent io) start_key end_key limit (online n db id)
        ≡ (online n (begun db) (next_id id), ok (take (suc (limit - 1)) shown))
unfolding scan call process_request_sync dispatch request respond answer_scan
scan-link {sent = sent} io n id start_key end_key limit db sending ready hk h plain short whole =
    let reply = reply_scan_lem start_key end_key db ready in
    let size = ap (λ r. length r.0.1) reply in
    let m = request Message.scan (next_id id) start_key end_key in
    let u =
      response-IsSendable io m db (unfold next_id in omega arith) (omega (arith, size, short)) in
    ap (λ r. (r.0, answer_scan limit r.1))
      (send_request-answer sent io n db
        (request-IsSendable Message.scan id start_key end_key tt hk h) u
        (response-intact io m db sending u (omega (arith, size, whole))) (next_id id))
    ∙ ap (λ r. (online n r.1 (next_id id), answer_scan limit (ok (respond (next_id id) r.0)))) reply
    ∙ ap (λ es. (online n (begun db) (next_id id), ok es))
        (ap (λ r. parse_results limit r.0.1) (sym reply)
          ∙ scan_answer start_key end_key limit db ready plain)
