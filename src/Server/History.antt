-- ===== src/Server/History.antt =====
-- What a request does to the database, as calls of its operations.
use custom_database.Prelude.{
  ℕ, ◌+◌, ◌^◌, ◌≤◌, ◌<◌, ◌≢◌, inl, inr, refl, ap, sym, ◌∙◌, arith, Option-cases, List, [], Bytes,
  length,
}
use mathlib.Core.Path.{subst}
use custom_database.Table.{find}
use custom_database.Wal.Record.{WalRecord}
use custom_database.Wal.Reader.{max_record_size}
use custom_database.Wal.Accepted.{accepting}
use custom_database.Protocol.Message.{MessageType}
use custom_database.Protocol.Message
use custom_database.Database.State.{Transaction, Database}
use custom_database.Database.Transaction
use custom_database.Database.Synced.{deleted, put-IsSynced, del-IsSynced}
use custom_database.Database.Durability.{Reach, start, next, begin, put_step, del_step, commit_step}
use custom_database.Server.Request.{dispatch, reply_get, reply_put, reply_delete}
use custom_database.Server.RequestLaws.{begun, first_txn, reply_get_lem}
use custom_database.Server.Untouched.{put-Alike, del-Alike}
use custom_database.Server.Refinement.{
  IsServing, taking, begun-IsServing, reply_put_done, reply_delete_done, reply_delete_missing,
}

pub Reach_trans : {db db' db'' : Database} → Reach db db' → Reach db' db'' → Reach db db''
Reach_trans path start = path
Reach_trans path (next further step) = next (Reach_trans path further) step

module _ (now later : ℕ) (time : now < 2 ^ 64) (time' : later < 2 ^ 64) {db : Database}
    {rs : List WalRecord} (v : IsServing db rs) where
  abbrev txn : Transaction
  txn = first_txn db v.ready

  Reach-reply_get : (key : Bytes) → Reach db (reply_get key db).1
  Reach-reply_get key =
      subst (λ r. Reach db r.1) (sym (reply_get_lem db v.ready key)) (next start begin)

  Reach-reply_put :
      (key value : Bytes)
      → 25 + length key + length value ≤ max_record_size
      → Reach db (reply_put (taking now later) key value db).1
  Reach-reply_put key value h =
      let r = Transaction.put (accepting now) key value txn (begun db) in
      let done =
        (put-IsSynced now txn (begun-IsServing v).synced key value (time, v.small_id, h)).1 in
      let same = put-Alike (accepting now) key value txn (begun db) in
      subst (λ r. Reach db r.1) (sym (reply_put_done (taking now later) key value db v.ready done))
        (next (next (next start begin) (put_step now txn key value (time, v.small_id, h)))
          (commit_step later r.1 (time', omega (arith, same, v.small_id), omega arith)))

  Reach-reply_delete :
      (key : Bytes)
      → 25 + length key ≤ max_record_size
      → Reach db (reply_delete (taking now later) key db).1
  Reach-reply_delete key h =
      let r = Transaction.del (accepting now) key txn (begun db) in
      let (rs', kept, done) =
        del-IsSynced now txn (begun-IsServing v).synced key (time, v.small_id, omega arith) in
      let same = del-Alike (accepting now) key [] txn (begun db) in
      let gone : Reach db r.2 =
        next (next start begin) (del_step now txn key (time, v.small_id, omega arith)) in
      elim (Option-cases (find key (begun db).data_table)) [
        | inl missing ↦
            subst (λ r. Reach db r.1)
              (sym (
                reply_delete_missing (taking now later) key [] db v.ready
                  (done ∙ ap deleted missing)))
              gone
        | inr (old, there) ↦
            subst (λ r. Reach db r.1)
              (sym
                (reply_delete_done (taking now later) key [] db v.ready (done ∙ ap deleted there)))
              (next gone
                (commit_step later r.1 (time', omega (arith, same, v.small_id), omega arith)))
      ]

  pub Reach-dispatch :
      (type : MessageType) (key value : Bytes)
      → type ≢ Message.scan
      → 25 + length key + length value ≤ max_record_size
      → Reach db (dispatch type (taking now later) key value db).1
  unfolding dispatch
  Reach-dispatch Message.get key value keyed h = Reach-reply_get key
  Reach-dispatch Message.put key value keyed h = Reach-reply_put key value h
  Reach-dispatch Message.delete key value keyed h = Reach-reply_delete key (omega (arith, h))
  Reach-dispatch Message.scan key value keyed h = absurd (keyed refl)
  Reach-dispatch _ key value keyed h = start
