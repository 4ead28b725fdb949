-- ===== src/Client/Stale.antt =====
-- A client that has given up on a response, and the responses that it reads afterwards.
use custom_database.Prelude.{
  ℕ, ◌%◌, ◌^◌, ◌≤◌, ◌<◌, ◌≡◌, refl, ap, sym, ◌∙◌, arith, true, [], ◌++◌, append-nil, append_assoc,
  Bytes, text, ok, throw, length, ltb, le→ltb_false,
}
use custom_database.Bytes.Words.{word, read_word, read_word-append, length-word}
use custom_database.Bytes.Decimal.{to_string}
use custom_database.Protocol.Message.{Message, max_message_size, serialize, deserialize}
use custom_database.Database.State.{Database}
use custom_database.Server.Request.{RequestIo, process_request_sync}
use custom_database.Server.Connection.{header, wire}
use custom_database.Client.Call.{Socket, Client, send_request, receive_message, received}
use custom_database.Client.Link.{Link, link_over, turn}
use custom_database.Client.LinkLaws.{
  IsSendable, size, at, answer, changed, turns, turn_idle, link-read, receive_message_lem, online,
}

-- A client that is connected, with bytes on the way to it that it has not read.
abbrev pub behind : ℕ → Database → Bytes → ℕ → Client Link
behind disconnects db unread request_id = record {
  peer = at disconnects header db [] unread;
  is_open = true;
  connected = true;
  request_id = request_id;
}

-- What is received where the length is beyond the limit.
too_large_lem :
    {Peer : Type 0} (socket : Socket Peer) (c : Client Peer) (p : Peer) (front : Bytes)
    → socket.read 4 c.peer ≡ (p, ok front)
    → ltb max_message_size (read_word 4 0 front) ≡ true
    → receive_message socket c ≡ (
      record c { peer = p },
      received (
          throw (text "Message too large: " ++ (to_string (read_word 4 0 front) ++ text " bytes"))),
    )
unfolding receive_message
too_large_lem socket c p front first large = simp (receive_message, first, large)

-- A request on a connected client: it is written, and a response is read.
asked :
    (sent : Bytes → Bytes) (io : RequestIo) (m : Message) (n : ℕ) (db : Database) (unread : Bytes)
    (id : ℕ)
    → send_request (link_over sent io) m (behind n db unread id)
      ≡ receive_message (link_over sent io) (record (behind n db unread id) {
        peer = at n header db (word 4 (length (serialize m) % 2 ^ 32) ++ serialize m) unread;
      })
unfolding send_request link_over
asked sent io m n db unread id = refl

module _ (sent : Bytes → Bytes) (io : RequestIo) (n : ℕ) (db : Database) {m : Message}
    (v : IsSendable m) (id : ℕ) where
  -- The response is beyond the limit of a message, and what is sent begins with its length.
  pub send_request-too_large :
      (out : Bytes)
      → max_message_size < length (serialize (answer sent io n db v))
      → length (serialize (answer sent io n db v)) < 2 ^ 32
      → sent (wire (answer sent io n db v))
        ≡ word 4 (length (serialize (answer sent io n db v))) ++ out
      → send_request (link_over sent io) m (online n db id) ≡ (
        behind n (changed sent io n db v) out id,
        received (
            throw (
              text "Message too large: "
              ++ (to_string (length (serialize (answer sent io n db v))) ++ text " bytes"))),
      )
  unfolding send_request
  send_request-too_large out large fits e =
      let db' = changed sent io n db v in
      let k = length (serialize (answer sent io n db v)) in
      let frame = word 4 k in
      let announced : read_word 4 0 frame ≡ k =
        rw append-nil at (read_word-append 4 0 k [] [] refl (omega (arith, fits))) in
      let there : (link_over sent io).read 4 (at n header db (word 4 (size v) ++ serialize m) [])
          ≡ (at n header db' [] out, ok frame) =
        link-read sent io n db' _ 4 frame out (turns sent io n db v [] ∙ ap (at n header db' []) e)
          (sym (length-word 4 k)) in
      asked sent io m n db [] id
      ∙ too_large_lem (link_over sent io) _ _ frame there (ground (arith, announced, large))
      ∙ ap
          (λ j. (
            behind n db' out id,
            received (throw (text "Message too large: " ++ (to_string j ++ text " bytes"))),
          ))
          announced

module _ (sent : Bytes → Bytes) (io : RequestIo) (n : ℕ) (db : Database) {m : Message}
    (v : IsSendable m) (id : ℕ) (front body rest : Bytes) (four : length front ≡ 4)
    (announced : read_word 4 0 front ≡ length body) (small : length body ≤ max_message_size) where
  abbrev left_over : Bytes
  left_over = rest ++ sent (wire (answer sent io n db v))

  -- What a request is answered with while there are bytes that were not read.
  pub send_request-behind :
      send_request (link_over sent io) m (behind n db (front ++ (body ++ rest)) id)
      ≡ (behind n (changed sent io n db v) left_over id, received (deserialize body))
  send_request-behind =
      let db' = changed sent io n db v in
      let out = front ++ (body ++ rest) in
      let arranged : out ++ sent (wire (answer sent io n db v)) ≡ front ++ (body ++ left_over) =
        append_assoc front (body ++ rest) (sent (wire (answer sent io n db v)))
        ∙ ap (λ t. front ++ t) (append_assoc body rest (sent (wire (answer sent io n db v)))) in
      let first : (link_over sent io).read 4 (at n header db (word 4 (size v) ++ serialize m) out)
          ≡ (at n header db' [] (body ++ left_over), ok front) =
        link-read sent io n db' _ 4 front (body ++ left_over)
          (turns sent io n db v out ∙ ap (at n header db' []) arranged) (sym four) in
      let idle = turn_idle sent io n db' (body ++ left_over) in
      let second : (link_over sent io).read (read_word 4 0 front)
            (at n header db' [] (body ++ left_over))
          ≡ (at n header db' [] left_over, ok body) =
        link-read sent io n db' _ (read_word 4 0 front) body left_over
          (ap (λ l. turn sent io (turn sent io l)) idle ∙ ap (turn sent io) idle ∙ idle)
          announced in
      asked sent io m n db out id
      ∙ receive_message_lem (link_over sent io) _ _ _ front body first
          (le→ltb_false max_message_size (read_word 4 0 front) (omega (arith, announced))) second

-- Take a connected client, over a connection that loses nothing and has nothing on the way, and
-- two requests that can be sent. The response to the first is longer than the limit of a message
-- and shorter than 2^32 bytes; what is sent for it, from memory that may have been used again
-- meanwhile, begins with its length and four bytes that announce the length of bytes behind them,
-- within the limit, whatever follows. Then the first request throws "Message too large" with the
-- length of the response, and the second is answered with these bytes that were sent for the
-- first, parsed as a message, whatever the server answers to it and sends of it.
pub stale_answer :
    (sent sent' : Bytes → Bytes) (io io' : RequestIo) (n : ℕ) (db : Database) {m m' : Message}
    (v : IsSendable m) (v' : IsSendable m') (id : ℕ) (front body rest : Bytes)
    → max_message_size < length (serialize (process_request_sync io m db).0)
    → length (serialize (process_request_sync io m db).0) < 2 ^ 32
    → sent (wire (process_request_sync io m db).0)
      ≡ word 4 (length (serialize (process_request_sync io m db).0)) ++ (front ++ (body ++ rest))
    → length front ≡ 4
    → read_word 4 0 front ≡ length body
    → length body ≤ max_message_size
    → let first = send_request (link_over sent io) m (online n db id) in
      (first.1
        ≡ throw (
            text "Receive error: Message too large: "
            ++ (to_string (length (serialize (process_request_sync io m db).0)) ++ text " bytes")))
      × ((send_request (link_over sent' io') m' first.0).1 ≡ received (deserialize body))
unfolding received
stale_answer sent sent' io io' n db {m' = m'} v v' id front body rest large fits e four announced
      small =
    let first = send_request-too_large sent io n db v id (front ++ (body ++ rest)) large fits e in
    let second =
      send_request-behind sent' io' n (changed sent io n db v) v' id front body rest four announced
        small in
    (
      ap (λ r. r.1) first,
      ap (λ r. (send_request (link_over sent' io') m' r.0).1) first ∙ ap (λ r. r.1) second,
    )
