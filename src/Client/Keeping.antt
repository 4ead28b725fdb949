-- ===== src/Client/Keeping.antt =====
-- One operation of a client over a connection that loses nothing, against the same on a plain map.
use custom_database.Prelude.{
  ℕ, ◌+◌, ◌^◌, ◌≤◌, ◌<◌, ◌≡◌, ◌≢◌, refl, ap, ◌∙◌, arith, Option, none, some, List, [], ◌∷◌, Bytes,
  ok, length, Bool-cases, inl, inr,
}
use custom_database.Bytes.Order.{str_eq}
use custom_database.Wal.Record.{WalRecord}
use custom_database.Wal.Reader.{max_record_size}
use custom_database.Protocol.Message.{MessageType, max_key_size}
use custom_database.Protocol.Message
use custom_database.Protocol.MessageLaws.{IsType}
use custom_database.Database.State.{Database}
use custom_database.Server.Request.{dispatch, respond, process_request_sync}
use custom_database.Server.RequestLaws.{found}
use custom_database.Server.Spec.{Store, update, or_empty, promise, promise_delete}
use custom_database.Server.Refinement.{view, IsServing, taking}
use custom_database.Server.Promise.{dispatch-promise}
use custom_database.Client.Call.{
  Client, next_id, request, call, answer_get, answer_success, answer_pong,
}
use custom_database.Client.Call
use custom_database.Client.Link.{Link, IsSending, link_over}
use custom_database.Client.LinkLaws.{online, send_request-answer}
use custom_database.Client.Session.{request-IsSendable, response-IsSendable, response-intact}
use custom_database.Client.Serving.{FitsWithin}
use custom_database.Client.Contract.{
  Operation, get, put, del, ping, got, done, perform, expect_get, expect_del, expect,
}

-- A client whose server serves a database with these lookups.
pub record IsOnline (n : ℕ) (store : Store) (c : Client Link) : Type 0 where
  pub db : Database
  pub rs : List WalRecord
  pub serving : IsServing db rs
  pub id : ℕ
  pub client_eq : c ≡ online n db id
  pub store_eq : view db ≡ store

IsOnline-of_eq :
    {n : ℕ} {store store' : Store} {c : Client Link}
    → store ≡ store'
    → IsOnline n store c
    → IsOnline n store' c
IsOnline-of_eq e on = record {
  db = on.db;
  rs = on.rs;
  serving = on.serving;
  id = on.id;
  client_eq = on.client_eq;
  store_eq = on.store_eq ∙ e;
}

module _ {limit : ℕ} {sent : Bytes → Bytes} (sending : IsSending limit sent) (room : 64 ≤ limit)
    (most : limit ≤ max_record_size) (now later n id : ℕ) (time : now < 2 ^ 64)
    (time' : later < 2 ^ 64) {db : Database} {rs : List WalRecord} (v : IsServing db rs) where
  call-serving :
      (type : MessageType) (key value : Bytes)
      → IsType type
      → type ≢ Message.scan
      → FitsWithin limit key value
      → let p = promise type key value (view db) in
        25 + length p.0.1 ≤ limit
        → let r = call (link_over sent (taking now later)) type key value (online n db id) in
          IsOnline n p.1 r.0 × (r.1 ≡ ok (respond (next_id id) p.0))
  unfolding call process_request_sync request
  call-serving type key value is_type keyed (hk, h) short =
      let io = taking now later in
      let (rs', v', reply, seen) =
        dispatch-promise now later type key value time time' keyed (omega arith) v in
      let size = ap (λ r. length r.1) reply in
      let m = request type (next_id id) key value in
      let u =
        response-IsSendable io m db (unfold next_id in omega arith) (omega (arith, size, short)) in
      let e =
        send_request-answer sent io n db
          (request-IsSendable type id key value is_type hk (omega arith)) u
          (response-intact io m db sending u (omega (arith, size, short))) (next_id id) in
      (
        record {
          db = (dispatch type io key value db).1;
          rs = rs';
          serving = v';
          id = next_id id;
          client_eq = ap (λ r. r.0) e;
          store_eq = seen;
        },
        ap (λ r. r.1) e ∙ ap (λ r. ok (respond (next_id id) r)) reply,
      )

-- Every value of the map fits a response of this size.
abbrev pub IsShortWithin : ℕ → Store → Type 0
IsShortWithin limit store = (key : Bytes) → 25 + length (or_empty (store key)) ≤ limit

-- Every value of the map fits a response.
abbrev pub IsShort : Store → Type 0
IsShort store = IsShortWithin max_record_size store

abbrev pub FitsOperation : ℕ → Operation → Type 0
FitsOperation limit (get key) = FitsWithin limit key []
FitsOperation limit (put key new) = FitsWithin limit key new
FitsOperation limit (del key) = FitsWithin limit key []
FitsOperation limit ping = Unit

pub found-short :
    {limit : ℕ} (bytes : Bytes)
    → 64 ≤ limit
    → 25 + length bytes ≤ limit
    → 25 + length (found bytes).1 ≤ limit
unfolding found
found-short [] room h = omega arith
found-short (b ∷ bs) room h = h

answer-expect_get :
    (id : ℕ) (bytes : Bytes) → answer_get (ok (respond id (found bytes))) ≡ expect_get bytes
unfolding answer_get respond found expect_get
answer-expect_get id [] = refl
answer-expect_get id (b ∷ bs) = refl

pub update-IsShort :
    {limit : ℕ} (key : Bytes) (o : Option Bytes) (store : Store)
    → 25 + length (or_empty o) ≤ limit
    → IsShortWithin limit store
    → IsShortWithin limit (update key o store)
update-IsShort key o store h short j = elim (Bool-cases (str_eq key j)) [
  | inl same ↦ rw same h
  | inr differ ↦ rw differ (short j)
]

-- The server's and the client's view of a deletion.
pub promise_delete-expect_del :
    {limit : ℕ} (id : ℕ) (key : Bytes) (o : Option Bytes) (store : Store)
    → 64 ≤ limit
    → IsShortWithin limit store
    → let p = promise_delete key o store in
      let e = expect_del key o store in
      (25 + length p.0.1 ≤ limit)
      × (done (answer_success (ok (respond id p.0))) ≡ e.0)
      × (p.1 ≡ e.1)
      × IsShortWithin limit e.1
unfolding promise_delete expect_del answer_success respond
promise_delete-expect_del id key none store room short = (omega arith, refl, refl, short)
promise_delete-expect_del id key (some old) store room short =
    (omega arith, refl, refl, update-IsShort key none store (omega arith) short)

module _ {limit : ℕ} {sent : Bytes → Bytes} (sending : IsSending limit sent) (room : 64 ≤ limit)
    (most : limit ≤ max_record_size) (now later n id : ℕ) (time : now < 2 ^ 64)
    (time' : later < 2 ^ 64) {db : Database} {rs : List WalRecord} (v : IsServing db rs)
    (short : IsShortWithin limit (view db)) where
  pub perform-expect :
      (op : Operation)
      → FitsOperation limit op
      → let r = perform (link_over sent (taking now later)) op (online n db id) in
        let e = expect op (view db) in IsOnline n e.1 r.0 × (r.1 ≡ e.0) × IsShortWithin limit e.1
  unfolding perform expect promise Call.get Call.put Call.del Call.ping answer_success answer_pong
      respond
  perform-expect (get key) fits =
      let o = or_empty (view db key) in
      let (on, e) =
        call-serving sending room most now later n id time time' v Message.get key [] tt (λ e. cc)
          fits (found-short o room (short key)) in
      (on, ap (λ r. got (answer_get r)) e ∙ ap got (answer-expect_get (next_id id) o), short)
  perform-expect (put key new) fits =
      let (on, e) =
        call-serving sending room most now later n id time time' v Message.put key new tt (λ e. cc)
          fits (omega arith) in
      (
        on,
        ap (λ r. done (answer_success r)) e,
        update-IsShort key (some new) (view db) (omega (arith, fits)) short,
      )
  perform-expect (del key) fits =
      let (small, answer, seen, short') =
        promise_delete-expect_del (next_id id) key (view db key) (view db) room short in
      let (on, e) =
        call-serving sending room most now later n id time time' v Message.delete key [] tt
          (λ e. cc) fits small in
      (IsOnline-of_eq seen on, ap (λ r. done (answer_success r)) e ∙ answer, short')
  perform-expect ping fits =
      let (on, e) =
        call-serving sending room most now later n id time time' v Message.ping [] [] tt (λ e. cc)
          (omega arith, omega arith) (omega arith) in
      (on, ap (λ r. done (answer_pong r)) e, short)
