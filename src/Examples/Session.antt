-- ===== src/Examples/Session.antt =====
-- A client and a server over a connection that loses nothing, at concrete inputs.
use custom_database.Prelude.{◌≡◌, refl, ap, ◌∙◌, arith, true, [], text, ok}
use custom_database.Protocol.Message.{ping, Message}
use custom_database.Wal.Log.{append_record}
use custom_database.Wal.File.{write, flush}
use custom_database.Database.State.{log_record}
use custom_database.Database.Transaction
use custom_database.Database.Engine.{begin_transaction}
use custom_database.Server.Request.{reply_put, process_request_sync}
use custom_database.Client.Call.{request, send_request, is_success, get}
use custom_database.Client.Call
use custom_database.Client.Link.{link}
use custom_database.Client.LinkLaws.{IsSendable, online}
use custom_database.Client.Session.{kept, request-IsSendable, response-IsSendable, put-link}
use custom_database.Examples.Data.{io, empty_database}

abbrev ping_message : Message
ping_message = request ping (Call.next_id 4) [] []

ping_message-IsSendable : IsSendable ping_message
ping_message-IsSendable = request-IsSendable ping 4 [] [] tt (omega arith) (omega arith)

pong-IsSendable : IsSendable (process_request_sync io ping_message empty_database).0
unfolding process_request_sync request Call.next_id
pong-IsSendable = response-IsSendable io ping_message empty_database (omega arith) (omega arith)

put-accepted : is_success (reply_put io (text "k") (text "v") empty_database).0.0 ≡ true
unfolding reply_put Transaction.put log_record append_record write flush begin_transaction
put-accepted = refl

put-true : (Call.put (link io) (text "k") (text "v") (online 0 empty_database 4)).1 ≡ ok true
put-true =
    ap (λ r. r.1)
      (put-link kept io 0 4 empty_database (text "k") (omega arith) (text "v") (omega arith)
        (omega arith))
    ∙ ap ok put-accepted
