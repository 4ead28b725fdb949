-- ===== src/Client/FlightServer.antt =====
-- A connection among several, and the handler's side of it.
use custom_database.Prelude.{
  ◌∙◌, ℕ, ◌+◌, ◌^◌, ◌≤◌, ◌<◌, ◌≡◌, ◌≢◌, inl, inr, refl, ap, sym, arith, true, some, List, [], ◌∷◌,
  ◌++◌, Bytes, Result, ok, length,
}
use mathlib.Core.Path.{subst}
use custom_database.Bytes.Words.{word}
use custom_database.Wal.Record.{WalRecord}
use custom_database.Wal.Reader.{max_record_size}
use custom_database.Protocol.Message.{MessageType, Message, serialize}
use custom_database.Protocol.Message
use custom_database.Database.State.{Database}
use custom_database.Database.Durability
use custom_database.Server.Served.{Outcome}
use custom_database.Server.History.{Reach-dispatch}
use custom_database.Server.Connection.{Pending, header, body, response, wire}
use custom_database.Server.Request.{respond, process_request_sync}
use custom_database.Server.Spec.{Store, or_empty, promise}
use custom_database.Server.Refinement.{view, IsServing, taking}
use custom_database.Server.Promise.{dispatch-promise}
use custom_database.Client.Call.{Client}
use custom_database.Client.Link.{Link, turn}
use custom_database.Client.LinkLaws.{
  IsSendable, size, at, online, turn-body, turn-response, turn-wire, turn_idle,
}
use custom_database.Client.Session.{response-IsSendable}
use custom_database.Client.Serving.{FitsRequest}
use custom_database.Client.Keeping.{IsShort, found-short, update-IsShort, promise_delete-expect_del}
use custom_database.Client.Flight.{calm, asked, Conn, serve, IsIntact}

-- A request that a client may make.
pub record IsAsked (m : Message) : Type 0 where
  pub sendable : IsSendable m
  pub small_id : m.id < 2 ^ 32
  pub keyed : m.type ≢ Message.scan
  pub fits : FitsRequest m.key m.value

-- A client that waits for a response, where its handler waits for this.
abbrev pub waiting : ℕ → Pending → Database → Bytes → Bytes → ℕ → Client Link
waiting n p db to_server to_client id = record {
  peer = at n p db to_server to_client;
  is_open = true;
  connected = true;
  request_id = id;
}

-- The stages of a call, where the server has given these responses to the requests of the client.
pub data Standing (given : List (Message × Result Message)) : Conn → Type 0 where
  resting :
      (n : ℕ) (db : Database) (id : ℕ)
      → Standing given (record { phase = calm; client = online n db id; heard = given })
  sent :
      (n : ℕ) (db : Database) (id : ℕ) (m : Message) (v : IsAsked m)
      → Standing given (record {
        phase = asked m;
        client = waiting n header db (word 4 (size v.sendable) ++ serialize m) [] id;
        heard = given;
      })
  taken :
      (n : ℕ) (db : Database) (id : ℕ) (m : Message) (v : IsAsked m)
      → Standing given (record {
        phase = asked m;
        client = waiting n (body (size v.sendable)) db (serialize m) [] id;
        heard = given;
      })
  answered :
      (n : ℕ) (db : Database) (id : ℕ) (m a : Message) (heard : List (Message × Result Message))
      → IsSendable a
      → given ≡ heard ++ ((m, ok a) ∷ [])
      → Standing given (record {
        phase = asked m;
        client = waiting n (response (wire a)) db [] [] id;
        heard = heard;
      })
  written :
      (n : ℕ) (db : Database) (id : ℕ) (m a : Message) (heard : List (Message × Result Message))
      → IsSendable a
      → given ≡ heard ++ ((m, ok a) ∷ [])
      → Standing given
          (record { phase = asked m; client = waiting n header db [] (wire a) id; heard = heard })

promise-IsShort :
    (type : MessageType) (key value : Bytes) (store : Store)
    → type ≢ Message.scan
    → FitsRequest key value
    → IsShort store
    → let p = promise type key value store in (25 + length p.0.1 ≤ max_record_size) × IsShort p.1
unfolding promise
promise-IsShort Message.get key value store keyed fits short =
    (found-short (or_empty (store key)) (omega arith) (short key), short)
promise-IsShort Message.put key value store keyed fits short =
    (omega arith, update-IsShort key (some value) store (omega (arith, fits)) short)
promise-IsShort Message.delete key value store keyed fits short =
    let (small, answer, seen, short') =
      promise_delete-expect_del 0 key (store key) store (omega arith) short in
    (small, subst IsShort (sym seen) short')
promise-IsShort Message.scan key value store keyed fits short = absurd (keyed refl)
promise-IsShort _ key value store keyed fits short = (omega arith, short)

-- The database of the server after one completion, and the connection: nothing was processed, or a
-- request, as promised.
pub record IsProcessed (origin : Database) (given : List (Message × Result Message)) (v : Conn)
    : Type 0 where
  pub db : Database
  pub rs : List WalRecord
  pub serving : IsServing db rs
  pub short : IsShort (view db)
  pub reached : Durability.Reach origin db
  pub database_eq : v.client.peer.database ≡ some db
  pub outcome : Outcome Standing (view origin) (view db) given v

module _ (now later : ℕ) (time : now < 2 ^ 64) (time' : later < 2 ^ 64) {db : Database}
    {rs : List WalRecord} (v : IsServing db rs) (short : IsShort (view db))
    {given : List (Message × Result Message)} where
  -- Nothing was processed.
  quiet : {c : Conn} → c.client.peer.database ≡ some db → Standing given c → IsProcessed db given c
  quiet e standing = record {
    db = db;
    rs = rs;
    serving = v;
    short = short;
    reached = Durability.start;
    database_eq = e;
    outcome = inl (refl, standing);
  }

  processed :
      (n id : ℕ) (m : Message) (u : IsAsked m)
      → let r = process_request_sync (taking now later) m db in
        IsProcessed db given (record {
          phase = asked m;
          client = waiting n (response (wire r.0)) r.1 [] [] id;
          heard = given;
        })
  unfolding process_request_sync
  processed n id m u =
      let (rs', v', reply, seen) =
        dispatch-promise now later m.type m.key m.value time time' u.keyed u.fits.1 v in
      let (small, short') = promise-IsShort m.type m.key m.value (view db) u.keyed u.fits short in
      let io = taking now later in
      let size = ap (λ r. length r.1) reply in
      let a = (process_request_sync io m db).0 in
      record {
        db = (process_request_sync io m db).1;
        rs = rs';
        serving = v';
        short = subst IsShort (sym seen) short';
        reached = Reach-dispatch now later time time' v m.type m.key m.value u.keyed u.fits.1;
        database_eq = refl;
        outcome = inr (
          m,
          a,
          ap (respond m.id) reply,
          seen,
          answered n (process_request_sync io m db).1 id m a given
              (response-IsSendable io m db u.small_id (omega (arith, size, small))) refl,
        );
      }

  -- The handler's completion, where it is known.
  turned :
      (sending : Bytes → Bytes) (c : Conn) {l : Link}
      → turn sending (taking now later) (record c.client.peer { database = some db }) ≡ l
      → IsProcessed db given (record c { client = record c.client { peer = l } })
      → IsProcessed db given (serve sending (taking now later) (some db) c)
  unfolding serve
  turned sending c e h =
      subst (λ l. IsProcessed db given (record c { client = record c.client { peer = l } })) (sym e)
        h

  pub serve-IsProcessed :
      (sending : Bytes → Bytes) {c : Conn}
      → Standing given c
      → IsIntact sending c.client.peer.handler.pending
      → IsProcessed db given (serve sending (taking now later) (some db) c)
  serve-IsProcessed sending (resting n db₀ id) whole =
      turned sending _ (turn_idle sending (taking now later) n db []) (quiet refl (resting n db id))
  serve-IsProcessed sending (sent n db₀ id m u) whole =
      turned sending _ (turn-wire sending (taking now later) n db u.sendable [])
        (quiet refl (taken n db id m u))
  serve-IsProcessed sending (taken n db₀ id m u) whole =
      turned sending _ (turn-body sending (taking now later) n db u.sendable [])
        (processed n id m u)
  serve-IsProcessed sending (answered n db₀ id m a heard u e) whole =
      turned sending _
        (turn-response sending (taking now later) n db (wire a) [] ∙ ap (at n header db []) whole)
        (quiet refl (written n db id m a heard u e))
  serve-IsProcessed sending (written n db₀ id m a heard u e) whole =
      turned sending _ (turn_idle sending (taking now later) n db (wire a))
        (quiet refl (written n db id m a heard u e))
