-- ===== src/Server/Request.antt =====
-- How a request is answered: `ConnectionHandler::process_request_sync` and
-- `DatabaseServer::process_request` of src/network/server.cpp. Nothing that they call throws, short
-- of running out of memory, so the handler of `std::exception` has no counterpart.
use custom_database.Prelude.{ℕ, ◌+◌, ◌%◌, ◌^◌, Option, none, some, List, [], ◌∷◌, ◌++◌, Bytes, text}
use custom_database.Table.{Entry}
use custom_database.Wal.Record.{length_u32}
use custom_database.Wal.Log.{AppendIo}
use custom_database.Protocol.Message.{MessageType, Message, new_message, error, success, pong}
use custom_database.Protocol.Message
use custom_database.Database.State.{OperationResult, Database}
use custom_database.Database.Transaction
use custom_database.Database.Engine.{begin_transaction}

-- The environment's answers to the record that a request logs, and to its commit record.
pub record RequestIo : Type 0 where
  pub write : AppendIo
  pub commit : AppendIo

-- What the switch sets: `response.type` and `response.value`.
abbrev pub Reply : Type 0
Reply = MessageType × Bytes

abbrev pub no_transaction : Reply
no_transaction = (error, text "Failed to begin transaction")

-- The case `MessageType::GET`.
unfoldable pub reply_get : Bytes → Database → Reply × Database
reply_get key db =
    let (db', txn) = begin_transaction db in
    elim txn [
      | none ↦ (no_transaction, db')
      | some t ↦ (elim (Transaction.get key db') [
        | [] ↦ ((error, text "Key not found"), db')
        | b ∷ bs ↦ ((success, b ∷ bs), db')
      ])
    ]

-- The case `MessageType::PUT`. The result of `commit` is not looked at.
unfoldable pub reply_put : RequestIo → Bytes → Bytes → Database → Reply × Database
reply_put io key value db =
    let (db₁, txn) = begin_transaction db in
    elim txn [
      | none ↦ (no_transaction, db₁)
      | some t ↦
          let (result, t', db₂) = Transaction.put io.write key value t db₁ in
          (elim result [
            | OperationResult.success ↦
                ((success, text "OK"), (Transaction.commit io.commit t' db₂).1)
            | _ ↦ ((error, text "Failed to put value"), db₂)
          ])
    ]

-- The case `MessageType::DELETE`.
unfoldable pub reply_delete : RequestIo → Bytes → Database → Reply × Database
reply_delete io key db =
    let (db₁, txn) = begin_transaction db in
    elim txn [
      | none ↦ (no_transaction, db₁)
      | some t ↦
          let (result, t', db₂) = Transaction.del io.write key t db₁ in
          (elim result [
            | OperationResult.success ↦
                ((success, text "OK"), (Transaction.commit io.commit t' db₂).1)
            | _ ↦ ((error, text "Failed to delete key"), db₂)
          ])
    ]

-- One result of a scan, as text.
unfoldable pub format_entry : Entry → Bytes
format_entry (key, value) =
    text "{\"key\":\"" ++ (key ++ (text "\",\"value\":\"" ++ (value ++ text "\"}")))

-- The loop over the results, with a comma behind each but the last.
unfoldable pub format_entries : List Entry → Bytes
unfolding format_entry
format_entries [] = []
format_entries (e ∷ []) = format_entry e
format_entries (e ∷ e' ∷ rest) = format_entry e ++ (text "," ++ format_entries (e' ∷ rest))

unfoldable pub format_results : List Entry → Bytes
unfolding format_entries
format_results results = text "[" ++ (format_entries results ++ text "]")

-- The case `MessageType::SCAN`: the value of the request is the end of the range.
unfoldable pub reply_scan : Bytes → Bytes → Database → Reply × Database
unfolding format_results
reply_scan start_key end_key db =
    let (db', txn) = begin_transaction db in
    elim txn [
      | none ↦ (no_transaction, db')
      | some t ↦ ((success, format_results (Transaction.scan start_key end_key 1000 db')), db')
    ]

-- The switch on the type of the request.
unfoldable pub dispatch : MessageType → RequestIo → Bytes → Bytes → Database → Reply × Database
unfolding reply_get reply_put reply_delete reply_scan
dispatch Message.get io key value db = reply_get key db
dispatch Message.put io key value db = reply_put io key value db
dispatch Message.delete io key value db = reply_delete io key db
dispatch Message.scan io key value db = reply_scan key value db
dispatch Message.ping io key value db = ((pong, text "PONG"), db)
dispatch _ io key value db = ((error, text "Unsupported operation"), db)

-- The response with the lengths of its key, which no case sets, and of its value.
unfoldable pub respond : ℕ → Reply → Message
respond id (type, value) = record new_message {
  type = type;
  id = id;
  value = value;
  key_length = length_u32 [];
  value_length = length_u32 value;
}

-- `ConnectionHandler::process_request_sync`.
unfoldable pub process_request_sync : RequestIo → Message → Database → Message × Database
unfolding dispatch respond
process_request_sync io request db =
    let (reply, db') = dispatch request.type io request.key request.value db in
    (respond request.id reply, db')

-- `ConnectionHandler::handle_request`, up to the response that it writes; none for a null database.
unfoldable pub handle_request : RequestIo → Message → Option Database → Message × Option Database
unfolding process_request_sync respond
handle_request io request none = (respond request.id (error, text "Database not initialized"), none)
handle_request io request (some db) =
    let (response, db') = process_request_sync io request db in (response, some db')

-- The counter and the database of a `DatabaseServer`.
pub record ServerState : Type 0 where
  pub total_requests : ℕ
  pub database : Option Database

-- `DatabaseServer::process_request`, whose switch repeats that of `process_request_sync`.
unfoldable pub process_request : RequestIo → Message → ServerState → Message × ServerState
unfolding dispatch respond
process_request io request s =
    let total = (s.total_requests + 1) % 2 ^ 64 in
    elim s.database [
      | none ↦ (
        respond request.id (error, text "Database not initialized"),
        record s { total_requests = total },
      )
      | some db ↦
          let (reply, db') = dispatch request.type io request.key request.value db in
          (respond request.id reply, record { total_requests = total; database = some db' })
    ]
