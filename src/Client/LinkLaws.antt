-- ===== src/Client/LinkLaws.antt =====
-- A request and its response on a connection that loses nothing.
use custom_database.Prelude.{
  ℕ, ◌%◌, ◌^◌, ◌≤◌, ◌≡◌, refl, ap, sym, ◌∙◌, arith, true, some, [], ◌∷◌, ◌++◌, append-nil, false,
  Bytes, ok, length, take_all, zero, suc, drop, ltb, leb, le→ltb_false, length-append,
  take-append_at, drop-append_at,
}
use custom_database.Bytes.Words.{word, read_word, read_word-append, length-word}
use custom_database.Protocol.Message.{
  Message, max_message_size, max_key_size, max_value_size, serialize, deserialize, message_size,
}
use custom_database.Protocol.MessageLaws.{
  IsConsistent, length-serialize_message, deserialize-serialize_message,
}
use custom_database.Database.State.{Database}
use custom_database.Server.Request.{RequestIo, process_request_sync, handle_request}
use custom_database.Server.Connection.{Pending, header, body, response, wire, complete, on_body}
use custom_database.Client.Call.{Socket, Client, send_request, receive_message, received}
use custom_database.Client.Link.{Link, link_over, turn}

-- A message that the peer's limits let through.
pub record IsSendable (m : Message) : Type 0 where
  pub consistent : IsConsistent m
  pub key_fits : m.key_length ≤ max_key_size
  pub value_fits : m.value_length ≤ max_value_size
  pub size_fits : message_size m ≤ max_message_size

module _ {m : Message} (v : IsSendable m) where
  open v use {consistent, key_fits, value_fits, size_fits}

  abbrev pub size : ℕ
  size = length (serialize m) % 2 ^ 32

  pub size_eq : size ≡ length (serialize m)
  unfolding message_size
  size_eq = omega (arith, length-serialize_message m consistent)

  pub size-small : size ≤ max_message_size
  unfolding message_size
  size-small = omega (arith, length-serialize_message m consistent)

  pub read-size : read_word 4 0 (word 4 size) ≡ size
  read-size = rw append-nil at (read_word-append 4 0 size [] [] refl (omega (arith, size-small)))

  pub deserialize-sent : deserialize (serialize m) ≡ ok m
  deserialize-sent =
      rw append-nil at (deserialize-serialize_message m [] consistent key_fits value_fits)

drop_all : (n : ℕ) (xs : Bytes) → length xs ≤ n → drop n xs ≡ []
drop_all zero [] h = refl
drop_all zero (x ∷ xs) h = elim h [ ]
drop_all (suc n) [] h = refl
drop_all (suc n) (x ∷ xs) h = drop_all n xs (omega arith)

-- The server's end of a connection that is active.
abbrev pub at : ℕ → Pending → Database → Bytes → Bytes → Link
at disconnects p db to_server to_client = record {
  handler = record { active = true; pending = p; disconnects = disconnects };
  database = some db;
  to_server = to_server;
  to_client = to_client;
}

module _ (sent : Bytes → Bytes) (io : RequestIo) (n : ℕ) (db : Database) where
  turn-header :
      (front rest out : Bytes)
      → length front ≡ 4
      → read_word 4 0 front ≤ max_message_size
      → turn sent io (at n header db (front ++ rest) out)
        ≡ at n (body (read_word 4 0 front)) db rest out
  unfolding turn complete
  turn-header front rest out four small =
      rw
        (
          take-append_at 4 front rest (sym four),
          drop-append_at 4 front rest (sym four),
          le→ltb_false max_message_size (read_word 4 0 front) small,
        )
        (ground (arith, length-append front rest))

  pub turn-body :
      {m : Message} (v : IsSendable m) (out : Bytes)
      → turn sent io (at n (body (size v)) db (serialize m) out)
        ≡ at n
            (response (wire (process_request_sync io m db).0))
            (process_request_sync io m db).1
            []
            out
  unfolding turn complete handle_request
  turn-body {m} v out =
      let whole : leb (size v) (length (serialize m)) ≡ true = ground (arith, size_eq v) in
      rw
        (
          whole,
          take_all (size v) (serialize m) (omega (arith, size_eq v)),
          drop_all (size v) (serialize m) (omega (arith, size_eq v)),
        )
        (rw (deserialize-sent v, on_body) refl)

  pub turn-response :
      (bytes out : Bytes)
      → turn sent io (at n (response bytes) db [] out) ≡ at n header db [] (out ++ sent bytes)
  unfolding turn complete
  turn-response bytes out = refl

  pub turn_idle :
      (waiting : Bytes) → turn sent io (at n header db [] waiting) ≡ at n header db [] waiting
  unfolding turn
  turn_idle waiting = refl

-- What is received where both reads return.
pub receive_message_lem :
    {Peer : Type 0} (socket : Socket Peer) (c : Client Peer) (p q : Peer) (front rest : Bytes)
    → socket.read 4 c.peer ≡ (p, ok front)
    → ltb max_message_size (read_word 4 0 front) ≡ false
    → socket.read (read_word 4 0 front) p ≡ (q, ok rest)
    → receive_message socket c ≡ (record c { peer = q }, received (deserialize rest))
unfolding receive_message
receive_message_lem socket c p q front rest first small second =
    simp (receive_message, first, small, second)

-- A read of bytes that the server's end has written, once it has nothing more to do.
pub link-read :
    (sent : Bytes → Bytes) (io : RequestIo) (n : ℕ) (db : Database) (l : Link) (k : ℕ)
    (xs ys : Bytes)
    → turn sent io (turn sent io (turn sent io l)) ≡ at n header db [] (xs ++ ys)
    → k ≡ length xs
    → (link_over sent io).read k l ≡ (at n header db [] ys, ok xs)
unfolding link_over
link-read sent io n db l k xs ys e whole =
    let enough : leb k (length (xs ++ ys)) ≡ true = ground (arith, whole, length-append xs ys) in
    rw (e, enough, take-append_at k xs ys whole, drop-append_at k xs ys whole) refl

-- A client that is connected over such a connection, with nothing on the way.
abbrev pub online : ℕ → Database → ℕ → Client Link
online disconnects db request_id = record {
  peer = at disconnects header db [] [];
  is_open = true;
  connected = true;
  request_id = request_id;
}

module _ (sent : Bytes → Bytes) (io : RequestIo) (n : ℕ) (db : Database) {m : Message}
    (v : IsSendable m) where
  abbrev pub answer : Message
  answer = (process_request_sync io m db).0

  abbrev pub changed : Database
  changed = (process_request_sync io m db).1

  pub turn-wire :
      (out : Bytes)
      → turn sent io (at n header db (word 4 (size v) ++ serialize m) out)
        ≡ at n (body (size v)) db (serialize m) out
  unfolding word
  turn-wire out =
      turn-header sent io n db (word 4 (size v)) (serialize m) out refl
        (omega (arith, read-size v, size-small v))
      ∙ ap (λ k. at n (body k) db (serialize m) out) (read-size v)

  -- The server's end once the request was written.
  pub turns :
      (out : Bytes)
      → turn sent io
          (turn sent io (turn sent io (at n header db (word 4 (size v) ++ serialize m) out)))
        ≡ at n header changed [] (out ++ sent (wire answer))
  turns out =
      ap (λ l. turn sent io (turn sent io l)) (turn-wire out)
      ∙ ap (turn sent io) (turn-body sent io n db v out)
      ∙ turn-response sent io n changed (wire answer) out

  module _ (u : IsSendable answer) (intact : sent (wire answer) ≡ wire answer) where
    read_header :
        (link_over sent io).read 4 (at n header db (word 4 (size v) ++ serialize m) [])
        ≡ (at n header changed [] (serialize answer), ok (word 4 (size u)))
    unfolding wire
    read_header =
        link-read sent io n changed _ 4 (word 4 (size u)) (serialize answer)
          (turns [] ∙ ap (at n header changed []) intact) (sym (length-word 4 (size u)))

    read_body :
        (link_over sent io).read (size u) (at n header changed [] (serialize answer))
        ≡ (at n header changed [] [], ok (serialize answer))
    read_body =
        link-read sent io n changed _ (size u) (serialize answer) []
          (ap (λ l. turn sent io (turn sent io l)) (turn_idle sent io n changed (serialize answer))
            ∙ ap (turn sent io) (turn_idle sent io n changed (serialize answer))
            ∙ turn_idle sent io n changed (serialize answer)
            ∙ ap (at n header changed []) (sym (append-nil (serialize answer))))
          (size_eq u)

    receive-answer :
        (c : Client Link)
        → c.peer ≡ at n header db (word 4 (size v) ++ serialize m) []
        → receive_message (link_over sent io) c
          ≡ (record c { peer = at n header changed [] [] }, ok answer)
    receive-answer c e =
        receive_message_lem (link_over sent io) c (at n header changed [] (serialize answer)) _
          (word 4 (size u)) (serialize answer)
          (ap (λ p. (link_over sent io).read 4 p) e ∙ read_header)
          (le→ltb_false max_message_size _ (omega (arith, read-size u, size-small u)))
          (ap (λ k. (link_over sent io).read k (at n header changed [] (serialize answer)))
              (read-size u)
            ∙ read_body)
        ∙ ap (λ a. (record c { peer = at n header changed [] [] }, a))
            (rw (deserialize-sent u) (unfold received in refl))

    -- A connected client that sends a request over a connection that loses nothing and has nothing
    -- on the way, where the response is sent as it was, and where the request and the response are within the protocol's limits, gets the
    -- response with which the server processes the request; the database changes as the server
    -- changes it, and nothing is on the way again.
    pub send_request-answer :
        (id : ℕ)
        → send_request (link_over sent io) m (online n db id) ≡ (online n changed id, ok answer)
    unfolding send_request link_over
    send_request-answer id = receive-answer _ refl
