-- ===== src/Server/Promise.antt =====
-- The server against its promise, over any number of requests.
use mathlib.Core.List.{map}
use custom_database.Prelude.{
  ℕ, ◌+◌, ◌^◌, ◌≤◌, ◌<◌, ◌≡◌, ◌≢◌, refl, arith, List, [], ◌∷◌, Bytes, length, All,
}
use custom_database.Wal.Record.{WalRecord}
use custom_database.Wal.Reader.{max_record_size}
use custom_database.Protocol.Message.{MessageType, Message}
use custom_database.Protocol.Message
use custom_database.Database.State.{Database}
use custom_database.Server.Request.{RequestIo, dispatch, process_request_sync}
use custom_database.Server.Spec.{promise, promise_all, serve_all}
use custom_database.Server.Refinement.{
  view, IsServing, taking, Keeps, get-Keeps, put-Keeps, del-Keeps,
}

-- A request, and the times at which its record and its commit record are logged.
pub record Call : Type 0 where
  pub now : ℕ
  pub later : ℕ
  pub message : Message

-- Neither a SCAN nor too large for the log's reader.
pub record IsCall (c : Call) : Type 0 where
  pub time : c.now < 2 ^ 64
  pub time' : c.later < 2 ^ 64
  pub keyed : c.message.type ≢ Message.scan
  pub fits : 25 + length c.message.key + length c.message.value ≤ max_record_size

abbrev pub served : Call → RequestIo × Message
served c = (taking c.now c.later, c.message)

pub dispatch-promise :
    (now later : ℕ) (type : MessageType) (key value : Bytes) {db : Database} {rs : List WalRecord}
    → now < 2 ^ 64
    → later < 2 ^ 64
    → type ≢ Message.scan
    → 25 + length key + length value ≤ max_record_size
    → IsServing db rs
    → Keeps (dispatch type (taking now later) key value db) (promise type key value (view db))
unfolding dispatch promise
dispatch-promise now later Message.scan key value t t' keyed h v = absurd (keyed refl)
dispatch-promise now later Message.get key value t t' keyed h v = get-Keeps now later t t' v key
dispatch-promise now later Message.put key value t t' keyed h v =
    put-Keeps now later t t' v key value h
dispatch-promise now later Message.delete key value t t' keyed h v =
    del-Keeps now later t t' v key (omega arith)
dispatch-promise now later _ key value {rs = rs} t t' keyed h v = (rs, v, refl, refl)

-- Take a database that serves: it is initialized, its data is what the records of its open log
-- make of it, and its next transaction number is in range. Whatever GET, PUT, DELETE and PING
-- requests, or responses sent as requests, it gets one after the other, at times of 64 bits, of at
-- most the size of a readable record, and with a device that takes what it is given: its responses
-- are those that a plain map from keys to values gives, its lookups are those of the map
-- afterwards, and it still serves.
pub serve_all-promise_all :
    (cs : List Call) {db : Database} {rs : List WalRecord}
    → All IsCall cs
    → IsServing db rs
    → let after = serve_all (map served cs) db in
      let promised = promise_all (map (λ c. c.message) cs) (view db) in
      (after.0 ≡ promised.0)
      × (view after.1 ≡ promised.1)
      × ((rs' : List WalRecord) × IsServing after.1 rs')
unfolding serve_all promise_all process_request_sync
serve_all-promise_all [] {rs = rs} h v = (refl, refl, (rs, v))
serve_all-promise_all (c ∷ cs) {db} (hc, h) v =
    let m = c.message in
    let (rs', v', reply, seen) =
      dispatch-promise c.now c.later m.type m.key m.value hc.time hc.time' hc.keyed hc.fits v in
    let (same, same_view, rest) = serve_all-promise_all cs h v' in
    (ground (arith, reply, seen, same), ground (arith, seen, same_view), rest)
