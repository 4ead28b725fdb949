-- ===== src/Client/Broken.antt =====
-- What an operation does to the flags of a client, on sockets of which nothing is known.
use custom_database.Prelude.{
  ℕ, ◌+◌, ◌%◌, ◌^◌, ◌<◌, ◌≡◌, ap, ◌∙◌, arith, Bool, List, [], ◌∷◌, Bytes, length,
}
use custom_database.Protocol.Message.{MessageType, Message, max_message_size}
use custom_database.Protocol.Message
use custom_database.Client.Call
use custom_database.Client.Call.{
  Socket, Client, is_connected, next_id, request, send_message, receive_message, send_request, call,
}
use custom_database.Client.Offline.{next_id-repeated}
use custom_database.Client.Contract.{Operation, get, put, del, ping, perform, perform_all}

-- What is left of a client but for its socket: its flags, and the identifier of its last request.
abbrev pub flags : {Peer : Type 0} → Client Peer → Bool × Bool × ℕ
flags c = (c.is_open, c.connected, c.request_id)

module _ {Peer : Type 0} (socket : Socket Peer) where
  flags-receive_message : (c : Client Peer) → flags (receive_message socket c).0 ≡ flags c
  unfolding receive_message
  flags-receive_message c = ground arith

  flags-send_message : (m : Message) (c : Client Peer) → flags (send_message socket m c).0 ≡ flags c
  unfolding send_message
  flags-send_message m c = ground arith

  flags-send_request : (m : Message) (c : Client Peer) → flags (send_request socket m c).0 ≡ flags c
  unfolding send_request
  flags-send_request m c =
      ground (arith, flags-send_message m c, flags-receive_message (send_message socket m c).0)

  flags-call :
      (type : MessageType) (key value : Bytes) (c : Client Peer)
      → flags (call socket type key value c).0
        ≡ flags (record c { request_id = next_id c.request_id })
  unfolding call
  flags-call type key value c =
      flags-send_request (request type (next_id c.request_id) key value)
        (record c { request_id = next_id c.request_id })

  flags-perform :
      (op : Operation) (c : Client Peer)
      → flags (perform socket op c).0 ≡ flags (record c { request_id = next_id c.request_id })
  unfolding perform Call.get Call.put Call.del Call.ping
  flags-perform (get key) c = flags-call Message.get key [] c
  flags-perform (put key new) c = flags-call Message.put key new c
  flags-perform (del key) c = flags-call Message.delete key [] c
  flags-perform ping c = flags-call Message.ping [] [] c

-- Whatever the sockets do, however writes and reads fail, a client whose request identifier is in
-- 32 bits and that calls `get`, `put`, `del` and `ping` one after the other is as open and as
-- connected as before: no failure marks its connection as broken. Each call, failed or not, uses
-- up one identifier, modulo 2^32.
pub perform_all-flags :
    {Peer : Type 0} (ops : List (Socket Peer × Operation)) (c : Client Peer)
    → c.request_id < 2 ^ 32
    → flags (perform_all ops c).0 ≡ (c.is_open, c.connected, (c.request_id + length ops) % 2 ^ 32)
unfolding perform_all
perform_all-flags [] c small =
    let e : c.request_id ≡ (c.request_id + 0) % 2 ^ 32 = omega (arith, small) in
    ap (λ id. (c.is_open, c.connected, id)) e
perform_all-flags ((socket, op) ∷ ops) c small =
    let first = flags-perform socket op c in
    let id = ap (λ f. f.2) first in
    let rest =
      perform_all-flags ops (perform socket op c).0 (rw id (unfold next_id in omega arith)) in
    rest
    ∙ ap (λ f. (f.0, f.1, (f.2 + length ops) % 2 ^ 32)) first
    ∙ ap (λ n. (c.is_open, c.connected, n)) (next_id-repeated c.request_id (length ops))
