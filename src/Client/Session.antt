-- ===== src/Client/Session.antt =====
-- What the operations of a client return over a connection that loses nothing.
use custom_database.Prelude.{
  ℕ, ◌+◌, ◌^◌, ◌≤◌, ◌<◌, ◌≡◌, refl, ap, ◌∙◌, arith, true, [], ◌∷◌, Bytes, ok, length, length-append,
}
use custom_database.Bytes.Order.{str_eq_iff}
use custom_database.Bytes.Words.{word, length-word}
use custom_database.Protocol.Message.{
  MessageType, Message, serialize, success, max_message_size, max_key_size, max_value_size,
  message_size,
}
use custom_database.Protocol.Message
use custom_database.Protocol.MessageLaws.{IsType, length-serialize_message}
use custom_database.Database.State.{Database}
use custom_database.Server.Request.{
  RequestIo, reply_get, reply_put, dispatch, respond, process_request_sync,
}
use custom_database.Server.RequestLaws.{found, get_after_put}
use custom_database.Server.Responses.{response-IsConsistent}
use custom_database.Server.Connection.{wire}
use custom_database.Client.Call.{
  next_id, request, call, answer_get, answer_success, is_success, get, put,
}
use custom_database.Client.Link.{unchanged, IsSending, link, link_over}
use custom_database.Client.LinkLaws.{IsSendable, size, online, send_request-answer}

pub request-IsSendable :
    (type : MessageType) (id : ℕ) (key value : Bytes)
    → IsType type
    → length key ≤ max_key_size
    → 13 + length key + length value ≤ max_message_size
    → IsSendable (request type (next_id id) key value)
unfolding request next_id message_size
request-IsSendable type id key value t hk h = record {
  consistent = record {
    type_fits = t;
    id_fits = omega arith;
    key_length_fits = omega arith;
    value_length_fits = omega arith;
    key_length_eq = omega arith;
    value_length_eq = omega arith;
  };
  key_fits = omega arith;
  value_fits = omega arith;
  size_fits = omega arith;
}

pub response-IsSendable :
    (io : RequestIo) (m : Message) (db : Database)
    → m.id < 2 ^ 32
    → 13 + length (process_request_sync io m db).0.value ≤ max_message_size
    → IsSendable (process_request_sync io m db).0
unfolding process_request_sync respond message_size
response-IsSendable io m db small short = record {
  consistent = response-IsConsistent io m db small (omega arith);
  key_fits = omega arith;
  value_fits = omega arith;
  size_fits = omega arith;
}

-- A response that is sent as it was.
pub response-intact :
    {at_once : ℕ} {sent : Bytes → Bytes} (io : RequestIo) (m : Message) (db : Database)
    → IsSending at_once sent
    → IsSendable (process_request_sync io m db).0
    → 17 + length (process_request_sync io m db).0.value ≤ at_once
    → sent (wire (process_request_sync io m db).0) ≡ wire (process_request_sync io m db).0
unfolding wire process_request_sync respond message_size
response-intact io m db sending u h =
    let a = (process_request_sync io m db).0 in
    sending (wire a) (
      omega (
        arith,
        h,
        length-append (word 4 (size u)) (serialize a),
        length-word 4 (size u),
        length-serialize_message a u.consistent,
      ))

pub length-reply_put :
    (io : RequestIo) (key value : Bytes) (db : Database)
    → length (reply_put io key value db).0.1 ≤ 27
unfolding reply_put
length-reply_put io key value db = ground arith

module _ {at_once : ℕ} {sent : Bytes → Bytes} (sending : IsSending at_once sent) (io : RequestIo)
    (n id : ℕ) (db : Database) (key : Bytes) (hk : length key ≤ max_key_size) where
  pub put-link :
      (value : Bytes)
      → 13 + length key + length value ≤ max_message_size
      → 44 ≤ at_once
      → put (link_over sent io) key value (online n db id) ≡ (
        online n (reply_put io key value db).1 (next_id id),
        ok (is_success (reply_put io key value db).0.0),
      )
  unfolding put call process_request_sync dispatch request respond answer_success
  put-link value h room =
      let m = request Message.put (next_id id) key value in
      let small = length-reply_put io key value db in
      let u = response-IsSendable io m db (unfold next_id in omega arith) (omega (arith, small)) in
      ap (λ r. (r.0, answer_success r.1))
        (send_request-answer sent io n db (request-IsSendable Message.put id key value tt hk h) u
          (response-intact io m db sending u (omega (arith, small, room))) (next_id id))

  pub get-link :
      13 + length (reply_get key db).0.1 ≤ max_message_size
      → 17 + length (reply_get key db).0.1 ≤ at_once
      → get (link_over sent io) key (online n db id) ≡ (
        online n (reply_get key db).1 (next_id id),
        answer_get (ok (respond (next_id id) (reply_get key db).0)),
      )
  unfolding get call process_request_sync dispatch request
  get-link short whole =
      let m = request Message.get (next_id id) key [] in
      let u = response-IsSendable io m db (unfold next_id in omega arith) short in
      ap (λ r. (r.0, answer_get r.1))
        (send_request-answer sent io n db
          (request-IsSendable Message.get id key [] tt hk (omega arith)) u
          (response-intact io m db sending u whole) (next_id id))

-- Memory that is not used for anything else.
pub kept : IsSending (17 + max_message_size) unchanged
kept bytes h = refl

-- What the client's `get` makes of the server's answer for a value.
pub answer-found :
    (id : ℕ) (b : ℕ) (bs : Bytes) → answer_get (ok (respond id (found (b ∷ bs)))) ≡ ok (b ∷ bs)
unfolding answer_get respond found
answer-found id b bs = refl

-- A client of an initialized database, over a connection that loses nothing and has nothing on the
-- way, puts a value that is not empty, where the key and the request are within the protocol's
-- limits: if `put` returns true, the next `get` of the key returns the value.
pub session-get-put :
    (io io' : RequestIo) (n id : ℕ) (db : Database) (key : Bytes) (b : ℕ) (bs : Bytes)
    → db.initialized ≡ true
    → length key ≤ max_key_size
    → 13 + length key + length (b ∷ bs) ≤ max_message_size
    → (put (link io) key (b ∷ bs) (online n db id)).1 ≡ ok true
    → (get (link io') key (put (link io) key (b ∷ bs) (online n db id)).0).1 ≡ ok (b ∷ bs)
session-get-put io io' n id db key b bs ready hk h done =
    let sent = put-link kept io n id db key hk (b ∷ bs) h (omega arith) in
    let db' = (reply_put io key (b ∷ bs) db).1 in
    let wrote : is_success (reply_put io key (b ∷ bs) db).0.0 ≡ true =
      cc (ap (λ r. r.1) sent, done) in
    let reply : (reply_get key db').0 ≡ found (b ∷ bs) =
      ground (arith, get_after_put io key (b ∷ bs) db ready key, str_eq_iff key key, wrote) in
    let size : length (reply_get key db').0.1 ≡ length (b ∷ bs) =
      ap (λ r. length r.1) reply ∙ unfold found in refl in
    ap (λ r. (get (link io') key r.0).1) sent
    ∙ ap (λ r. r.1)
        (get-link kept io' n (next_id id) db' key hk (omega (arith, size)) (omega (arith, size)))
    ∙ ap (λ r. answer_get (ok (respond (next_id (next_id id)) r))) reply
    ∙ answer-found (next_id (next_id id)) b bs
