-- ===== src/Server/AcceptLaws.antt =====
-- `connection_count_`, in whatever order the server's events come.
use custom_database.Prelude.{
  ℕ, zero, suc, ◌+◌, ◌-◌, ◌%◌, ◌^◌, ◌≤◌, ◌≡◌, inl, inr, refl, arith, Bool, true, false, ◌&&◌, not,
  Option, List, [], ◌∷◌, ◌++◌, leb, if◌then◌else◌, All, Bool-cases,
}
use custom_database.Database.State.{Database}
use custom_database.Server.Request.{RequestIo}
use custom_database.Server.Connection.{Completion, Handler, new_handler, start}
use custom_database.Server.ConnectionLaws.{is_live, complete-at_most_once}
use custom_database.Server.Accept.{
  max_connections, Server, new_server, start_server, admit, handle_accept, complete_nth,
  on_completion, Event, accepted, completed, stopped, step, run,
}

-- The connections that have not reported their end.
unfoldable pub open_count : List Handler → ℕ
open_count [] = 0
open_count (h ∷ hs) = (1 - h.disconnects) + open_count hs

abbrev pub IsOnce : Handler → Type 0
IsOnce h = h.disconnects + is_live h.pending ≤ 1

pub record IsCounted (s : Server) : Type 0 where
  pub count_eq : s.connection_count ≡ open_count s.handlers
  pub bounded : s.connection_count ≤ max_connections
  pub once : All IsOnce s.handlers

open_count-append :
    (hs : List Handler) → open_count (hs ++ (start new_handler ∷ [])) ≡ open_count hs + 1
unfolding open_count start
open_count-append [] = refl
open_count-append (h ∷ hs) = omega (arith, open_count-append hs)

IsOnce-append : (hs : List Handler) → All IsOnce hs → All IsOnce (hs ++ (start new_handler ∷ []))
unfolding start is_live
IsOnce-append [] h = (omega arith, tt)
IsOnce-append (x ∷ hs) h = (h.0, IsOnce-append hs h.1)

pub complete_nth-count :
    (i : ℕ) (io : RequestIo) (c : Completion) (hs : List Handler) (db : Option Database)
    → All IsOnce hs
    → let (hs', db', reported) = complete_nth i io c hs db in
      All IsOnce hs' × (open_count hs ≡ open_count hs' + (if reported then 1 else 0))
unfolding complete_nth open_count
complete_nth-count i io c [] db h = (tt, omega arith)
complete_nth-count zero io c (h ∷ hs) db (once, rest) =
    let (once', moved) = complete-at_most_once io c h db once in ((once', rest), ground arith)
complete_nth-count (suc i) io c (h ∷ hs) db (once, rest) =
    let (rest', e) = complete_nth-count i io c hs db rest in ((once, rest'), omega arith)

on_completion-IsCounted :
    (i : ℕ) (io : RequestIo) (c : Completion) {s : Server}
    → IsCounted s
    → IsCounted (on_completion i io c s)
unfolding on_completion
on_completion-IsCounted i io c {s} v =
    let (once, e) = complete_nth-count i io c s.handlers s.database v.once in
    record { count_eq = ground arith; bounded = ground arith; once = once }

admitted :
    {s : Server}
    → IsCounted s
    → leb max_connections s.connection_count ≡ false
    → IsCounted (record s {
      connection_count = (s.connection_count + 1) % 2 ^ 32;
      handlers = s.handlers ++ (start new_handler ∷ []);
    })
admitted {s} v room = record {
  count_eq = ground (arith, v.count_eq, v.bounded, open_count-append s.handlers);
  bounded = ground (arith, v.bounded);
  once = IsOnce-append s.handlers v.once;
}

admit-IsCounted : {s : Server} → IsCounted s → IsCounted (admit s)
unfolding admit
admit-IsCounted {s} v = elim (Bool-cases (leb max_connections s.connection_count)) [
  | inl full ↦ simp full v
  | inr room ↦ simp room (admitted v room)
]

-- The count does not depend on the pending accept.
accepting-IsCounted : (b : Bool) {s : Server} → IsCounted s → IsCounted (record s { accepting = b })
accepting-IsCounted b v = record { count_eq = v.count_eq; bounded = v.bounded; once = v.once }

if_IsCounted :
    (b : Bool) {s t : Server} → IsCounted s → IsCounted t → IsCounted (if b then s else t)
if_IsCounted true v w = v
if_IsCounted false v w = w

handle_accept-IsCounted :
    (failed : Bool) {s : Server} → IsCounted s → IsCounted (handle_accept failed s)
unfolding handle_accept
handle_accept-IsCounted failed {s} v =
    accepting-IsCounted s.running (if_IsCounted (not failed && s.running) (admit-IsCounted v) v)

pub step-IsCounted : (e : Event) {s : Server} → IsCounted s → IsCounted (step e s)
unfolding step
step-IsCounted (accepted failed) {s} v =
    if_IsCounted s.accepting (handle_accept-IsCounted failed v) v
step-IsCounted (completed i io c) v = on_completion-IsCounted i io c v
step-IsCounted stopped v = record { count_eq = v.count_eq; bounded = v.bounded; once = v.once }

-- From a server whose count is right, however accepts, completions and stops follow each other,
-- the count stays right: it is the number of accepted connections that have not called
-- `on_disconnect_`, it is at most 50000, and no connection calls it twice.
pub run-IsCounted : (es : List Event) {s : Server} → IsCounted s → IsCounted (run es s)
unfolding run
run-IsCounted [] v = v
run-IsCounted (e ∷ es) v = run-IsCounted es (step-IsCounted e v)

pub start_server-IsCounted : (db : Option Database) → IsCounted (start_server (new_server db))
unfolding start_server open_count
start_server-IsCounted db = record { count_eq = refl; bounded = omega arith; once = tt }
