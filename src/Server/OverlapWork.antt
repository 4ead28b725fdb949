-- ===== src/Server/OverlapWork.antt =====
-- One step of one thread, among requests that are processed at once.
use mathlib.Core.Path.{subst, fun_ext}
use custom_database.Prelude.{
  ℕ, ◌^◌, ◌<◌, ◌≡◌, inl, inr, refl, ap, sym, ◌∙◌, arith, Option, Option-cases, none, some, List, [],
  ◌∷◌, Bytes, text, Result, ok,
}
use custom_database.Table.{find}
use custom_database.Wal.Accepted.{accepting}
use custom_database.Wal.Record.{WalRecord}
use custom_database.Protocol.Message.{MessageType, Message, success, error, pong}
use custom_database.Protocol.Message
use custom_database.Database.State.{OperationResult, Transaction, Database}
use custom_database.Database.Transaction
use custom_database.Database.Engine.{begin_transaction}
use custom_database.Database.Operations.{find-put, find-del, after_put, after_del}
use custom_database.Database.Synced.{deleted, IsSynced, put-IsSynced, del-IsSynced}
use custom_database.Server.Request.{Reply, respond}
use custom_database.Server.RequestLaws.{found, first_txn, begin_ready, begun}
use custom_database.Server.Untouched.{Alike, put-Alike, del-Alike}
use custom_database.Server.Spec.{or_empty, update, promise, promise_delete}
use custom_database.Server.Refinement.{
  view, IsServing, taking, committed, begun-IsServing, view-begun,
}
use custom_database.Server.Overlap.{
  Task, settling, reply_with, open_task, begin_task, operate, work,
}
use custom_database.Server.OverlapStand.{
  IsSmall, IsKeyed, Stands, stands_waiting, stands_opened, stands_settling, stands_replied,
  IsWorked, reply-found, serving_after,
}

module _ (now later : ℕ) (time : now < 2 ^ 64) (time' : later < 2 ^ 64) {db : Database}
    {rs : List WalRecord} (v : IsServing db rs) where
  opened_now :
      (m : Message)
      → IsKeyed m
      → IsSmall m
      → IsWorked (view db) [] (open_task m (begin_transaction db))
  unfolding open_task
  opened_now m keyed small =
      let e : begin_transaction db ≡ (begun db, some (first_txn db v.ready)) =
        λ x. (begun db, begin_ready db v.ready x) in
      subst (λ r. IsWorked (view db) [] (open_task m r)) (sym e)
        (record {
          rs = rs;
          serving = begun-IsServing v;
          outcome =
              inl
                (view-begun db, stands_opened m (first_txn db v.ready) keyed small v.small_id refl);
        })

  -- A reply that leaves the database serving.
  answered_now :
      (m : Message) (reply : Reply) {db' : Database} {rs' : List WalRecord}
      → IsServing db' rs'
      → (reply, view db') ≡ promise m.type m.key m.value (view db)
      → IsWorked (view db) [] (reply_with m reply db')
  answered_now m reply v' e = record {
    rs = _;
    serving = v';
    outcome = inr (
      m,
      respond m.id reply,
      ap (λ p. respond m.id p.0) e,
      ap (λ p. p.1) e,
      stands_replied m (respond m.id reply) refl,
    );
  }

  begin-IsWorked :
      (m : Message) (type : MessageType)
      → m.type ≡ type
      → IsSmall m
      → IsWorked (view db) [] (begin_task type m db)
  unfolding begin_task promise
  begin-IsWorked m Message.get e small = opened_now m (inl e) small
  begin-IsWorked m Message.put e small = opened_now m (inr (inl e)) small
  begin-IsWorked m Message.delete e small = opened_now m (inr (inr e)) small
  begin-IsWorked m Message.scan e small = absurd (small.keyed e)
  begin-IsWorked m _ e small =
      answered_now m _ v (ap (λ t. promise t m.key m.value (view db)) (sym e))

  -- A write that succeeded.
  logged_now :
      (m : Message) (reply : Reply) (r : OperationResult × Transaction × Database)
      {rs' : List WalRecord}
      → IsSynced r.2 rs'
      → Alike db r.2
      → r.1.id < 2 ^ 64
      → (reply, view r.2) ≡ promise m.type m.key m.value (view db)
      → IsWorked (view db) [] (settling m r.1 reply, r.2)
  logged_now m reply r {rs'} kept same id e = record {
    rs = rs';
    serving = serving_after v kept same;
    outcome = inr (
      m,
      respond m.id reply,
      ap (λ p. respond m.id p.0) e,
      ap (λ p. p.1) e,
      stands_settling m r.1 reply id refl,
    );
  }

  put-IsWorked :
      (m : Message) (t : Transaction)
      → m.type ≡ Message.put
      → IsSmall m
      → t.id < 2 ^ 64
      → IsWorked (view db) [] (operate Message.put (taking now later) m t db)
  unfolding operate promise after_put
  put-IsWorked m t e small id =
      let r = Transaction.put (accepting now) m.key m.value t db in
      let (kept, done) = put-IsSynced now t v.synced m.key m.value (time, id, small.fits) in
      let same = put-Alike (accepting now) m.key m.value t db in
      let now_there : view r.2 ≡ update m.key (some m.value) (view db) =
        fun_ext λ j. ground (arith, done, find-put (accepting now) m.key m.value j t db) in
      let as_promised : ((success, text "OK"), view r.2) ≡ promise m.type m.key m.value (view db) =
        (λ x. ((success, text "OK"), now_there x))
        ∙ ap (λ t. promise t m.key m.value (view db)) (sym e) in
      rw (done, operate)
        (logged_now m (success, text "OK") r kept same.0 (omega (arith, same, id)) as_promised)

  get-IsWorked :
      (m : Message) (t : Transaction)
      → m.type ≡ Message.get
      → IsWorked (view db) [] (operate Message.get (taking now later) m t db)
  unfolding operate promise
  get-IsWorked m t e =
      let read : Transaction.get m.key db ≡ or_empty (view db m.key) =
        unfold Transaction.get in ground arith in
      let as_promised : (found (or_empty (view db m.key)), view db)
          ≡ promise m.type m.key m.value (view db) =
        ap (λ t. promise t m.key m.value (view db)) (sym e) in
      subst (IsWorked (view db) [])
        (sym
          (reply-found m db (Transaction.get m.key db) ∙ ap (λ b. reply_with m (found b) db) read))
        (answered_now m (found (or_empty (view db m.key))) v as_promised)

  del-IsWorked :
      (m : Message) (t : Transaction)
      → m.type ≡ Message.delete
      → IsSmall m
      → t.id < 2 ^ 64
      → IsWorked (view db) [] (operate Message.delete (taking now later) m t db)
  unfolding operate promise promise_delete after_del
  del-IsWorked m t e small id =
      let r = Transaction.del (accepting now) m.key t db in
      let (rs', kept, done) =
        del-IsSynced now t v.synced m.key (time, id, omega (arith, small.fits)) in
      let same = del-Alike (accepting now) m.key [] t db in
      let seen = find-del (accepting now) m.key t db in
      let promised : (o : Option Bytes)
          → view db m.key ≡ o
          → promise m.type m.key m.value (view db) ≡ promise_delete m.key o (view db) =
        λ o is.
          ap (λ t. promise t m.key m.value (view db)) e
          ∙ ap (λ o. promise_delete m.key o (view db)) is in
      elim (Option-cases (find m.key db.data_table)) [
        | inl missing ↦
            let failed : r.0 ≡ OperationResult.key_not_found = done ∙ ap deleted missing in
            let same_view : view r.2 ≡ view db = fun_ext λ j. ground (arith, seen j, failed) in
            let as_promised : ((error, text "Failed to delete key"), view r.2)
                ≡ promise m.type m.key m.value (view db) =
              (λ x. ((error, text "Failed to delete key"), same_view x))
              ∙ sym (promised none missing) in
            rw (failed, operate)
              (answered_now m (error, text "Failed to delete key") (serving_after v kept same.0)
                as_promised)
        | inr (old, there) ↦
            let worked : r.0 ≡ OperationResult.success = done ∙ ap deleted there in
            let gone : view r.2 ≡ update m.key none (view db) =
              fun_ext λ j. ground (arith, seen j, worked) in
            let as_promised : ((success, text "OK"), view r.2)
                ≡ promise m.type m.key m.value (view db) =
              (λ x. ((success, text "OK"), gone x)) ∙ sym (promised (some old) there) in
            rw (worked, operate)
              (logged_now m (success, text "OK") r kept same.0 (omega (arith, same, id))
                as_promised)
      ]

  of_type :
      (m : Message) (t : Transaction) {type : MessageType}
      → m.type ≡ type
      → IsWorked (view db) [] (operate type (taking now later) m t db)
      → IsWorked (view db) [] (operate m.type (taking now later) m t db)
  of_type m t e =
      subst (λ type. IsWorked (view db) [] (operate type (taking now later) m t db)) (sym e)

  operate-IsWorked :
      (m : Message) (t : Transaction)
      → IsKeyed m
      → IsSmall m
      → t.id < 2 ^ 64
      → IsWorked (view db) [] (operate m.type (taking now later) m t db)
  operate-IsWorked m t (inl e) small id = of_type m t e (get-IsWorked m t e)
  operate-IsWorked m t (inr (inl e)) small id = of_type m t e (put-IsWorked m t e small id)
  operate-IsWorked m t (inr (inr e)) small id = of_type m t e (del-IsWorked m t e small id)

  settle-IsWorked :
      (m : Message) (t : Transaction) (reply : Reply)
      → t.id < 2 ^ 64
      → IsWorked
          (view db)
          ((m, ok (respond m.id reply)) ∷ [])
          (work (taking now later) (settling m t reply) db)
  unfolding work
  settle-IsWorked m t reply id =
      let (rs', v', same) = committed later t v time' id in
      record {
        rs = rs';
        serving = v';
        outcome = inl (same, stands_replied m (respond m.id reply) refl);
      }

  pub work-IsWorked :
      {mine : List (Message × Result Message)} {t : Task}
      → Stands mine t
      → IsWorked (view db) mine (work (taking now later) t db)
  unfolding work
  work-IsWorked (stands_waiting m small e) =
      subst (λ l. IsWorked (view db) l (begin_task m.type m db)) (sym e)
        (begin-IsWorked m m.type refl small)
  work-IsWorked (stands_opened m t keyed small id e) =
      subst (λ l. IsWorked (view db) l (operate m.type (taking now later) m t db)) (sym e)
        (operate-IsWorked m t keyed small id)
  work-IsWorked (stands_settling m t reply id e) =
      subst (λ l. IsWorked (view db) l (work (taking now later) (settling m t reply) db)) (sym e)
        (settle-IsWorked m t reply id)
  work-IsWorked (stands_replied m a e) = record {
    rs = rs;
    serving = v;
    outcome = inl (refl, stands_replied m a e);
  }
