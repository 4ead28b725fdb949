-- ===== src/Client/Offline.antt =====
-- A client without a connection, and what an operation does to a client whatever its socket does.
use mathlib.Core.List.{map}
use custom_database.Prelude.{
  ℕ, suc, ◌+◌, ◌%◌, ◌^◌, ◌<◌, ◌≡◌, refl, ap, ◌∙◌, arith, false, List, [], ◌∷◌, Bytes, text, throw,
  length,
}
use custom_database.Client.Call.{
  Socket, Client, is_connected, next_id, request, send_message, send_request, call, answer_get,
  answer_success, answer_pong,
}
use custom_database.Protocol.Message.{MessageType}
use custom_database.Protocol.Message
use custom_database.Client.Call
use custom_database.Client.Contract.{
  Operation, get, put, del, ping, Answer, got, done, perform, perform_all,
}

-- What an operation throws without a connection.
abbrev pub refused : Operation → Answer
refused (get key) = got (throw (text "Not connected to server"))
refused (put key new) = done (throw (text "Not connected to server"))
refused (del key) = done (throw (text "Not connected to server"))
refused ping = done (throw (text "Not connected to server"))

module _ {Peer : Type 0} (socket : Socket Peer) where
  call-offline :
      (type : MessageType) (key value : Bytes) (c : Client Peer)
      → is_connected c ≡ false
      → call socket type key value c
        ≡ (record c { request_id = next_id c.request_id }, throw (text "Not connected to server"))
  unfolding call send_request is_connected
  call-offline type key value c offline = rw offline refl

  perform-offline :
      (op : Operation) (c : Client Peer)
      → is_connected c ≡ false
      → perform socket op c ≡ (record c { request_id = next_id c.request_id }, refused op)
  unfolding perform answer_get answer_success answer_pong Call.get Call.put Call.del Call.ping
  perform-offline (get key) c offline =
      ap (λ r. (r.0, got (answer_get r.1))) (call-offline Message.get key [] c offline)
  perform-offline (put key new) c offline =
      ap (λ r. (r.0, done (answer_success r.1))) (call-offline Message.put key new c offline)
  perform-offline (del key) c offline =
      ap (λ r. (r.0, done (answer_success r.1))) (call-offline Message.delete key [] c offline)
  perform-offline ping c offline =
      ap (λ r. (r.0, done (answer_pong r.1))) (call-offline Message.ping [] [] c offline)

pub next_id-repeated : (id n : ℕ) → (next_id id + n) % 2 ^ 32 ≡ (id + suc n) % 2 ^ 32
unfolding next_id
next_id-repeated id n = omega arith

-- A client without a connection, whose request identifier is in 32 bits, that calls `get`, `put`,
-- `del` and `ping` one after the other: each call throws "Not connected to server", no socket is
-- touched, and each uses up one identifier, modulo 2^32.
pub perform_all-offline :
    {Peer : Type 0} (ops : List (Socket Peer × Operation)) (c : Client Peer)
    → c.request_id < 2 ^ 32
    → is_connected c ≡ false
    → perform_all ops c
      ≡ (record c { request_id = (c.request_id + length ops) % 2 ^ 32 }, map (λ p. refused p.1) ops)
unfolding perform_all is_connected
perform_all-offline [] c small offline =
    let e : c.request_id ≡ (c.request_id + 0) % 2 ^ 32 = omega (arith, small) in
    ap (λ id. (record c { request_id = id }, [])) e
perform_all-offline ((socket, op) ∷ ops) c small offline =
    let first = perform-offline socket op c offline in
    let rest =
      perform_all-offline ops (record c { request_id = next_id c.request_id })
        (unfold next_id in omega arith) offline in
    ap (λ r. ((perform_all ops r.0).0, r.1 ∷ (perform_all ops r.0).1)) first
    ∙ ap (λ r. (r.0, refused op ∷ r.1)) rest
    ∙ ap (λ id. (record c { request_id = id }, refused op ∷ map (λ p. refused p.1) ops))
        (next_id-repeated c.request_id (length ops))
