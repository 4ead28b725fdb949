-- ===== src/Examples/Stale.antt =====
-- A client that has given up on a response of more than a MiB, at a concrete input.
use mathlib.Core.List.{map}
use custom_database.Prelude.{
  ℕ, zero, suc, ◌%◌, ◌/◌, ◌^◌, ◌≡◌, refl, ap, ◌∙◌, arith, [], ◌∷◌, ◌++◌, Bytes, text, throw, length,
  length-append, take, drop, sym,
}
use custom_database.Bytes.Order.{str_lt}
use custom_database.Bytes.Words.{word, read_word, of_word}
use custom_database.Bytes.Decimal.{to_string}
use custom_database.Protocol.Message.{Message, max_message_size, serialize, deserialize, success}
use custom_database.Protocol.Message
use custom_database.Database.State.{Database}
use custom_database.Database.Transaction.{in_range}
use custom_database.Database.ScanLaws.{range}
use custom_database.Server.Request.{process_request_sync, dispatch, respond, format_results}
use custom_database.Server.Connection.{wire}
use custom_database.Client.Call.{send_request, request, next_id, received}
use custom_database.Client.Link.{link, link_over, unchanged}
use custom_database.Client.LinkLaws.{IsSendable, online}
use custom_database.Client.ScanAnswer.{reply_scan_lem}
use custom_database.Client.Session.{request-IsSendable}
use custom_database.Client.Stale.{stale_answer}
use custom_database.Examples.Data.{io, empty_database}

fill : ℕ → Bytes
fill zero = []
fill (suc n) = b'x' ∷ fill n

length-fill : (n : ℕ) → length (fill n) ≡ n
unfolding fill
length-fill zero = refl
length-fill (suc n) = omega (arith, length-fill n)

-- A value of a MiB.
huge : Bytes
huge = fill 1048576

length-huge : length huge ≡ 1048576
unfolding huge
length-huge = length-fill 1048576

abbrev large : Database
large = record empty_database { data_table = (text "a", huge) ∷ [] }

-- The first request of the client after 2^32 others.
abbrev scan_message : Message
scan_message = request Message.scan (next_id 4294967295) (text "a") (text "b")

abbrev ping_message : Message
ping_message = request Message.ping (next_id 0) [] []

scan_message-IsSendable : IsSendable scan_message
scan_message-IsSendable =
    request-IsSendable Message.scan 4294967295 (text "a") (text "b") tt (omega arith) (omega arith)

ping_message-IsSendable : IsSendable ping_message
ping_message-IsSendable = request-IsSendable Message.ping 0 [] [] tt (omega arith) (omega arith)

-- What the server sends.
shown : Bytes
shown = text "[{\"key\":\"a\",\"value\":\"" ++ ((huge ++ text "\"}") ++ text "]")

length-shown : length shown ≡ 1048600
unfolding shown
length-shown = omega (
  arith,
  length-huge,
  length-append huge (text "\"}"),
  length-append (huge ++ text "\"}") (text "]"),
)

formatted : format_results (take 1000 (range (text "a") (text "b") large.data_table)) ≡ shown
unfolding shown format_results range in_range str_lt
formatted = refl

answer : (process_request_sync io scan_message large).0 ≡ respond 0 (success, shown)
unfolding process_request_sync dispatch request next_id
answer =
    ap (λ r. respond 0 r.0) (reply_scan_lem (text "a") (text "b") large refl)
    ∙ ap (λ es. respond 0 (success, es)) formatted

abbrev bytes : Bytes
bytes = serialize (respond 0 (success, shown))

length-bytes : length bytes ≡ 1048613
unfolding serialize respond word
length-bytes = omega (arith, length-shown)

abbrev size : ℕ
size = length shown % 2 ^ 32

-- The bytes that the next call takes for the length of its response, and for its response.
abbrev front : Bytes
front = 8 ∷ 0 ∷ 0 ∷ 0 ∷ []

abbrev body : Bytes
body = 0 ∷ 0 ∷ 0 ∷ 0 ∷ 0 ∷ (size % 256) ∷ (size / 256 % 256) ∷ (size / 256 / 256 % 256) ∷ []

announced : read_word 4 0 front ≡ length body
unfolding read_word of_word
announced = refl

-- After the first 64 KiB of it, the memory of a response is overwritten.
unfoldable partly : Bytes → Bytes
partly bytes = take 65536 bytes ++ map (λ b. 0) (drop 65536 bytes)

-- What follows the first bytes of what is sent for the first response.
abbrev left : Bytes
left = (size / 256 / 256 / 256 % 256) ∷ (take 65519 shown ++ map (λ b. 0) (drop 65519 shown))

sent_of_size : (k : ℕ) → partly (word 4 k ++ bytes) ≡ word 4 k ++ (front ++ (body ++ left))
unfolding partly serialize respond word
sent_of_size k = refl

sent_eq :
    partly (wire (respond 0 (success, shown))) ≡ word 4 (length bytes) ++ (front ++ (body ++ left))
unfolding wire
sent_eq =
    let fits : length bytes % 2 ^ 32 ≡ length bytes = omega (arith, length-bytes) in
    ap (λ k. partly (word 4 k ++ bytes)) fits ∙ sent_of_size (length bytes)

stale_answer_example :
    let old = (process_request_sync io scan_message large).0 in
    let first = send_request (link_over partly io) scan_message (online 0 large 0) in
    (first.1
      ≡ throw (
          text "Receive error: Message too large: "
          ++ (to_string (length (serialize old)) ++ text " bytes")))
    × ((send_request (link io) ping_message first.0).1 ≡ received (deserialize body))
stale_answer_example =
    let old = ap (λ m. length (serialize m)) answer ∙ length-bytes in
    stale_answer partly unchanged io io 0 large scan_message-IsSendable ping_message-IsSendable 0
      front body left (omega (arith, old)) (omega (arith, old))
      (ap (λ m. partly (wire m)) answer
        ∙ sent_eq
        ∙ ap (λ m. word 4 (length (serialize m)) ++ (front ++ (body ++ left))) (sym answer))
      refl announced (omega arith)

-- So the PING is answered with an exception.
body_too_short :
    received (deserialize body) ≡ throw (text "Receive error: Invalid message: too short")
unfolding received deserialize
body_too_short = refl
