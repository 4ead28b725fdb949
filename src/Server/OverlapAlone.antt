-- ===== src/Server/OverlapAlone.antt =====
-- A request whose thread takes its steps without another in between.
use custom_database.Prelude.{◌≡◌, arith}
use custom_database.Protocol.Message.{Message}
use custom_database.Database.State.{Database}
use custom_database.Server.Request.{
  RequestIo, dispatch, process_request_sync, reply_get, reply_put, reply_delete, reply_scan,
}
use custom_database.Server.Overlap.{Task, waiting, replied, open_task, begin_task, operate, work}

-- Three steps.
abbrev pub alone : RequestIo → Task × Database → Task × Database
alone io r = let r₁ = work io r.0 r.1 in let r₂ = work io r₁.0 r₁.1 in work io r₂.0 r₂.1

-- On every database and whatever the device answers, the steps of a thread with any request, with
-- no other in between, make the response and the database that `process_request_sync` makes at
-- once.
pub alone-process_request_sync :
    (io : RequestIo) (m : Message) (db : Database)
    → let r = process_request_sync io m db in alone io (waiting m, db) ≡ (replied m r.0, r.1)
unfolding work begin_task open_task operate process_request_sync dispatch reply_get reply_put
    reply_delete reply_scan
alone-process_request_sync io m db = ground arith
