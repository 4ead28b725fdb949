-- ===== src/Server/Overlap.antt =====
-- Requests that several threads process at once, in `ConnectionHandler::process_request_sync` of
-- src/network/server.cpp. `begin_transaction` increments an atomic counter, and each call of the
-- transaction holds the lock of the data or of the log for all of its work, so that a request is processed in up to three steps, between which other requests take theirs: the begin of
-- its transaction, its operation, and the commit.
use custom_database.Prelude.{ℕ, ◌^◌, ◌<◌, ◌≡◌, Option, none, some, List, [], ◌∷◌, ◌++◌, text}
use custom_database.Protocol.Message.{MessageType, Message, success, error, pong}
use custom_database.Protocol.Message
use custom_database.Database.State.{OperationResult, Transaction, Database}
use custom_database.Database.Transaction
use custom_database.Database.Engine.{begin_transaction}
use custom_database.Server.Request.{RequestIo, Reply, no_transaction, respond, format_results}
use custom_database.Server.Refinement.{taking}

-- Where a thread stands with its request: before the switch, with a transaction, before the commit
-- with this reply, or done with this response.
pub data Task : Type 0 where
  waiting : Message → Task
  opened : Message → Transaction → Task
  settling : Message → Transaction → Reply → Task
  replied : Message → Message → Task

-- A reply that needs no more of the database.
abbrev pub reply_with : Message → Reply → Database → Task × Database
reply_with m reply db = (replied m (respond m.id reply), db)

unfoldable pub open_task : Message → Database × Option Transaction → Task × Database
open_task m (db, none) = reply_with m no_transaction db
open_task m (db, some t) = (opened m t, db)

-- The begin of a case that has a transaction, or all of one that has none.
unfoldable pub begin_task : MessageType → Message → Database → Task × Database
unfolding open_task
begin_task Message.get m db = open_task m (begin_transaction db)
begin_task Message.put m db = open_task m (begin_transaction db)
begin_task Message.delete m db = open_task m (begin_transaction db)
begin_task Message.scan m db = open_task m (begin_transaction db)
begin_task Message.ping m db = reply_with m (pong, text "PONG") db
begin_task _ m db = reply_with m (error, text "Unsupported operation") db

-- The operation of a case that has a transaction.
unfoldable pub operate :
    MessageType → RequestIo → Message → Transaction → Database → Task × Database
operate Message.get io m t db = elim (Transaction.get m.key db) [
  | [] ↦ reply_with m (error, text "Key not found") db
  | b ∷ bs ↦ reply_with m (success, b ∷ bs) db
]
operate Message.put io m t db =
    let (result, t', db') = Transaction.put io.write m.key m.value t db in
    elim result [
      | OperationResult.success ↦ (settling m t' (success, text "OK"), db')
      | _ ↦ reply_with m (error, text "Failed to put value") db'
    ]
operate Message.delete io m t db =
    let (result, t', db') = Transaction.del io.write m.key t db in
    elim result [
      | OperationResult.success ↦ (settling m t' (success, text "OK"), db')
      | _ ↦ reply_with m (error, text "Failed to delete key") db'
    ]
operate Message.scan io m t db =
    reply_with m (success, format_results (Transaction.scan m.key m.value 1000 db)) db
operate _ io m t db = reply_with m (error, text "Unsupported operation") db

-- The next step of a thread.
unfoldable pub work : RequestIo → Task → Database → Task × Database
unfolding begin_task operate
work io (waiting m) db = begin_task m.type m db
work io (opened m t) db = operate m.type io m t db
work io (settling m t reply) db = reply_with m reply (Transaction.commit io.commit t db).1
work io (replied m response) db = (replied m response, db)

-- The threads' requests, and the database.
pub record Overlap : Type 0 where
  pub database : Database
  pub tasks : List Task

unfoldable pub after_work : RequestIo → List Task → Task → List Task → Overlap → Overlap
unfolding work
after_work io before t after s =
    let (t', db) = work io t s.database in record { database = db; tasks = before ++ (t' ∷ after) }

-- A thread takes its next step, while the device takes what it is given.
pub data Step (s : Overlap) : Overlap → Type 0 where
  working :
      (now later : ℕ) (before after : List Task) (t : Task)
      → now < 2 ^ 64
      → later < 2 ^ 64
      → s.tasks ≡ before ++ (t ∷ after)
      → Step s (after_work (taking now later) before t after s)

pub data Reach (s : Overlap) : Overlap → Type 0 where
  start : Reach s s
  next : {t u : Overlap} → Reach s t → Step t u → Reach s u
