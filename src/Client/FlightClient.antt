-- ===== src/Client/FlightClient.antt =====
-- A connection among several, and the client's side of it.
use mathlib.Core.Path.{subst}
use custom_database.Prelude.{
  ℕ, ◌≡◌, ◌≢◌, refl, ap, sym, ◌∙◌, arith, true, List, [], ◌∷◌, ◌++◌, append-nil, Bytes, Result, ok,
  length, leb, length-append, take-append_at, drop-append_at, le→ltb_false,
}
use custom_database.Bytes.Words.{word, length-word}
use custom_database.Protocol.Message.{
  MessageType, Message, serialize, max_message_size, deserialize,
}
use custom_database.Protocol.Message
use custom_database.Protocol.MessageLaws.{IsType}
use custom_database.Database.State.{Database}
use custom_database.Server.Connection.{header, wire}
use custom_database.Client.Call.{
  Client, is_connected, next_id, request, received, receive_message, send_message, send_request,
}
use custom_database.Client.Link.{Link}
use custom_database.Client.LinkLaws.{
  IsSendable, size, size_eq, size-small, read-size, deserialize-sent, at, online,
  receive_message_lem,
}
use custom_database.Client.Session.{request-IsSendable}
use custom_database.Client.Serving.{FitsRequest}
use custom_database.Client.Flight.{calm, asked, Conn, pipe, ask, hear, IsThere}
use custom_database.Client.FlightServer.{waiting, Standing, resting, sent, taken, answered, written}

-- The two halves of a call make `send_request` on a connected client.
pub send_request-halves :
    (m : Message) (c : Client Link)
    → is_connected c ≡ true
    → send_request pipe m c ≡ receive_message pipe (send_message pipe m c).0
unfolding send_request pipe send_message is_connected
send_request-halves m c connected = rw connected refl

pipe-read :
    (n : ℕ) (db : Database) (k : ℕ) (xs ys : Bytes)
    → k ≡ length xs
    → pipe.read k (at n header db [] (xs ++ ys)) ≡ (at n header db [] ys, ok xs)
unfolding pipe
pipe-read n db k xs ys whole =
    let enough : leb k (length (xs ++ ys)) ≡ true = ground (arith, whole, length-append xs ys) in
    rw (enough, take-append_at k xs ys whole, drop-append_at k xs ys whole) refl

receive-wire :
    (n : ℕ) (db : Database) (id : ℕ) {a : Message} (u : IsSendable a)
    → receive_message pipe (waiting n header db [] (wire a) id) ≡ (online n db id, ok a)
unfolding wire
receive-wire n db id {a} u =
    receive_message_lem pipe (waiting n header db [] (wire a) id) (at n header db [] (serialize a))
      (at n header db [] []) (word 4 (size u)) (serialize a)
      (pipe-read n db 4 (word 4 (size u)) (serialize a) (sym (length-word 4 (size u))))
      (le→ltb_false max_message_size _ (omega (arith, read-size u, size-small u)))
      (ap (λ k. pipe.read k (at n header db [] (serialize a))) (read-size u)
        ∙ ap (λ t. pipe.read (size u) (at n header db [] t)) (sym (append-nil (serialize a)))
        ∙ pipe-read n db (size u) (serialize a) [] (size_eq u))
    ∙ ap (λ r. (online n db id, r)) (rw (deserialize-sent u) (unfold received in refl))

asked-injective : {m m' : Message} → asked m ≡ asked m' → m ≡ m'
asked-injective e = cc

module _ {given : List (Message × Result Message)} where
  pub ask-Standing :
      (type : MessageType) (key value : Bytes) {c : Conn}
      → c.phase ≡ calm
      → IsType type
      → type ≢ Message.scan
      → FitsRequest key value
      → Standing given c
      → Standing given (ask type key value c)
  unfolding ask send_message request pipe
  ask-Standing type key value quiet t keyed fits (resting n db id) =
      sent n db (next_id id) (request type (next_id id) key value) (record {
        sendable = request-IsSendable type id key value t fits.0 (omega (arith, fits));
        small_id = unfold next_id in omega arith;
        keyed = keyed;
        fits = fits;
      })
  ask-Standing type key value quiet t keyed fits (sent n db id m v) = absurd cc
  ask-Standing type key value quiet t keyed fits (taken n db id m v) = absurd cc
  ask-Standing type key value quiet t keyed fits (answered n db id m a heard u e) = absurd cc
  ask-Standing type key value quiet t keyed fits (written n db id m a heard u e) = absurd cc

  pub hear-Standing :
      (m : Message) {c : Conn}
      → c.phase ≡ asked m
      → IsThere c.client.peer.to_client
      → Standing given c
      → Standing given (hear m c)
  unfolding hear
  hear-Standing m phase there (resting n db id) = absurd cc
  hear-Standing m phase there (sent n db id m' v) = absurd (omega (arith, there.0))
  hear-Standing m phase there (taken n db id m' v) = absurd (omega (arith, there.0))
  hear-Standing m phase there (answered n db id m' a heard u e) = absurd (omega (arith, there.0))
  hear-Standing m phase there (written n db id m' a heard u e) =
      let same : m' ≡ m = asked-injective phase in
      subst
        (λ r.
          Standing given (record { phase = calm; client = r.0; heard = heard ++ ((m, r.1) ∷ []) }))
        (sym (receive-wire n db id u))
        (subst (λ g. Standing given (record { phase = calm; client = online n db id; heard = g }))
          (e ∙ ap (λ k. heard ++ ((k, ok a) ∷ [])) same) (resting n db id))
