-- ===== src/Server/ConnectionLaws.antt =====
-- The life of a connection: its pending operations and its calls of `on_disconnect_`.
use custom_database.Prelude.{ℕ, ◌+◌, ◌≤◌, ◌≡◌, ◌⊎◌, inl, inr, refl, arith, false, Option}
use custom_database.Database.State.{Database}
use custom_database.Server.Request.{RequestIo}
use custom_database.Server.Connection.{
  Pending, header, body, response, nothing, Completion, done, aborted, failed, Handler, new_handler,
  start, stop, complete, complete_pending,
}

-- 1 while an operation is pending.
unfoldable pub is_live : Pending → ℕ
is_live nothing = 0
is_live _ = 1

-- While the handler is active, it either waits for something or has reported the disconnection,
-- once. A handler that was stopped may have ended without a report.
pub record IsAccounted (h : Handler) : Type 0 where
  pub at_most_once : h.disconnects + is_live h.pending ≤ 1
  pub exactly_once : (h.disconnects + is_live h.pending ≡ 1) ⊎ (h.active ≡ false)

pub start-IsAccounted : IsAccounted (start new_handler)
unfolding start is_live
start-IsAccounted = record { at_most_once = omega arith; exactly_once = inl refl }

pub stop-IsAccounted : {h : Handler} → IsAccounted h → IsAccounted (stop h)
unfolding stop
stop-IsAccounted v = record { at_most_once = v.at_most_once; exactly_once = inr refl }

-- Asio aborts an operation only when its socket was closed, which `stop` alone does.
abbrev pub CanComplete : Completion → Handler → Type 0
CanComplete aborted h = h.active ≡ false
CanComplete _ h = Unit

complete_pending-IsAccounted :
    (io : RequestIo) (p : Pending) (c : Completion) (h : Handler) (db : Option Database)
    → p ≡ h.pending
    → CanComplete c h
    → IsAccounted h
    → IsAccounted (complete_pending io p c h db).0
unfolding complete_pending is_live
complete_pending-IsAccounted io nothing c h db e k v = v
complete_pending-IsAccounted io header (done bytes) h db e k v = ground arith
complete_pending-IsAccounted io (body n) (done bytes) h db e k v = ground arith
complete_pending-IsAccounted io (response sent) (done bytes) h db e k v = ground arith
complete_pending-IsAccounted io p aborted h db e k v = ground arith
complete_pending-IsAccounted io p failed h db e k v = ground arith

-- A completion keeps a handler accounted, where operations are aborted on a stopped handler only:
-- the calls of `on_disconnect_` and the pending operations are at most one together, and exactly
-- one while the handler is active.
pub complete-IsAccounted :
    (io : RequestIo) (c : Completion) {h : Handler} (db : Option Database)
    → CanComplete c h
    → IsAccounted h
    → IsAccounted (complete io c h db).0
unfolding complete
complete-IsAccounted io c {h} db k v = complete_pending-IsAccounted io h.pending c h db refl k v

complete_pending-at_most_once :
    (io : RequestIo) (p : Pending) (c : Completion) (h : Handler) (db : Option Database)
    → p ≡ h.pending
    → h.disconnects + is_live h.pending ≤ 1
    → let h' = (complete_pending io p c h db).0 in
      (h'.disconnects + is_live h'.pending ≤ 1)
      × ((h'.disconnects ≡ h.disconnects) ⊎ (h'.disconnects ≡ h.disconnects + 1))
unfolding complete_pending is_live
complete_pending-at_most_once io nothing c h db e v = ground arith
complete_pending-at_most_once io header (done bytes) h db e v = ground arith
complete_pending-at_most_once io (body n) (done bytes) h db e v = ground arith
complete_pending-at_most_once io (response sent) (done bytes) h db e v = ground arith
complete_pending-at_most_once io p aborted h db e v = ground arith
complete_pending-at_most_once io p failed h db e v = ground arith

-- Whatever Asio answers, a completion keeps the calls of `on_disconnect_` and the pending
-- operations at one together, and makes one more call at most.
pub complete-at_most_once :
    (io : RequestIo) (c : Completion) (h : Handler) (db : Option Database)
    → h.disconnects + is_live h.pending ≤ 1
    → let h' = (complete io c h db).0 in
      (h'.disconnects + is_live h'.pending ≤ 1)
      × ((h'.disconnects ≡ h.disconnects) ⊎ (h'.disconnects ≡ h.disconnects + 1))
unfolding complete
complete-at_most_once io c h db v = complete_pending-at_most_once io h.pending c h db refl v
