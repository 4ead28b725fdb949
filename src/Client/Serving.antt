-- ===== src/Client/Serving.antt =====
-- A client of a server that serves, over a connection that loses nothing.
use custom_database.Prelude.{
  ℕ, ◌+◌, ◌^◌, ◌≤◌, ◌<◌, ◌≡◌, refl, ap, ◌∙◌, arith, true, some, List, ◌∷◌, Bytes, ok, length,
}
use custom_database.Wal.Record.{WalRecord}
use custom_database.Wal.Reader.{max_record_size}
use custom_database.Protocol.Message.{max_key_size}
use custom_database.Database.State.{Database}
use custom_database.Server.Request.{reply_get, reply_put, respond}
use custom_database.Server.RequestLaws.{found}
use custom_database.Server.Spec.{update, or_empty}
use custom_database.Server.Refinement.{view, IsServing, taking, get-Keeps, put-Keeps}
use custom_database.Client.Call.{next_id, get, put, is_success, answer_get}
use custom_database.Client.Link.{unchanged, IsSending, link_over}
use custom_database.Client.LinkLaws.{online}
use custom_database.Client.Session.{put-link, get-link, answer-found}

-- A key and a value that fit a record of this size.
abbrev pub FitsWithin : ℕ → Bytes → Bytes → Type 0
FitsWithin limit key value = (length key ≤ max_key_size) × (25 + length key + length value ≤ limit)

-- A key and a value that fit a request.
abbrev pub FitsRequest : Bytes → Bytes → Type 0
FitsRequest key value = FitsWithin max_record_size key value

-- Memory that is not used for anything else.
pub in_place : IsSending max_record_size unchanged
in_place bytes h = refl

module _ {limit : ℕ} {sent : Bytes → Bytes} (sending : IsSending limit sent) (room : 64 ≤ limit)
    (most : limit ≤ max_record_size) (now later n id : ℕ) (time : now < 2 ^ 64)
    (time' : later < 2 ^ 64) {db : Database} {rs : List WalRecord} (v : IsServing db rs)
    (key : Bytes) where
  pub put-serving :
      (value : Bytes)
      → FitsWithin limit key value
      → (db' : Database) × ((rs' : List WalRecord) × IsServing db' rs')
        × (put (link_over sent (taking now later)) key value (online n db id)
            ≡ (online n db' (next_id id), ok true))
        × (view db' ≡ update key (some value) (view db))
  put-serving value (hk, h) =
      let (rs', v', reply, seen) = put-Keeps now later time time' v key value (omega arith) in
      (
        _,
        (rs', v'),
        put-link sending (taking now later) n id db key hk value (omega arith) (omega arith)
            ∙ ap
                (λ r. (
                  online n (reply_put (taking now later) key value db).1 (next_id id),
                  ok (is_success r.0),
                ))
                reply,
        seen,
      )

  pub get-serving :
      (b : ℕ) (bs : Bytes)
      → FitsWithin limit key (b ∷ bs)
      → view db key ≡ some (b ∷ bs)
      → (db' : Database) × ((rs' : List WalRecord) × IsServing db' rs')
        × (get (link_over sent (taking now later)) key (online n db id)
            ≡ (online n db' (next_id id), ok (b ∷ bs)))
        × (view db' ≡ view db)
  get-serving b bs (hk, h) there =
      let (rs', v', reply, seen) = get-Keeps now later time time' v key in
      let reply' : (reply_get key db).0 ≡ found (b ∷ bs) =
        reply ∙ ap (λ o. found (or_empty o)) there in
      let size : length (reply_get key db).0.1 ≡ length (b ∷ bs) =
        ap (λ r. length r.1) reply' ∙ unfold found in refl in
      (
        _,
        (rs', v'),
        get-link sending (taking now later) n id db key hk (omega (arith, size))
              (omega (arith, size))
            ∙ ap
                (λ r. (
                  online n (reply_get key db).1 (next_id id),
                  answer_get (ok (respond (next_id id) r)),
                ))
                reply'
            ∙ ap (λ a. (online n (reply_get key db).1 (next_id id), a))
                (answer-found (next_id id) b bs),
        seen,
      )
