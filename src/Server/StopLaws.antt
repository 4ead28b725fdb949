-- ===== src/Server/StopLaws.antt =====
-- A stopped server, and its connections.
use mathlib.Core.Path.{subst}
use custom_database.Prelude.{
  ℕ, zero, suc, ◌≤◌, ◌≡◌, refl, ap, sym, ◌∙◌, arith, Bool, true, false, Option, List, [], ◌∷◌,
  length, if◌then◌else◌,
}
use custom_database.Database.State.{Database}
use custom_database.Server.Request.{RequestIo}
use custom_database.Server.Connection.{Completion, Handler}
use custom_database.Server.Accept.{
  Server, stop_server, handle_accept, complete_nth, on_completion, Event, accepted, completed,
  stopped, step, run,
}
use custom_database.Server.AcceptLaws.{IsCounted, complete_nth-count, step-IsCounted}

length-complete_nth :
    (i : ℕ) (io : RequestIo) (c : Completion) (hs : List Handler) (db : Option Database)
    → length (complete_nth i io c hs db).0 ≡ length hs
unfolding complete_nth
length-complete_nth i io c [] db = refl
length-complete_nth zero io c (h ∷ hs) db = refl
length-complete_nth (suc i) io c (h ∷ hs) db = ap suc (length-complete_nth i io c hs db)

-- The second server has stopped as well, and has the connections of the first and no others.
pub record IsWindingDown (s t : Server) : Type 0 where
  pub halted : t.running ≡ false
  pub same : length t.handlers ≡ length s.handlers
  pub fewer : t.connection_count ≤ s.connection_count

handle_accept-halted :
    (failed : Bool) (s : Server)
    → s.running ≡ false
    → handle_accept failed s ≡ record s { accepting = false }
unfolding handle_accept
handle_accept-halted true s halted = rw halted refl
handle_accept-halted false s halted = rw halted refl

if_IsWindingDown :
    (b : Bool) {s t u : Server}
    → IsWindingDown s t
    → IsWindingDown s u
    → IsWindingDown s (if b then t else u)
if_IsWindingDown true v w = v
if_IsWindingDown false v w = w

step-IsWindingDown :
    (e : Event) {s : Server} → s.running ≡ false → IsCounted s → IsWindingDown s (step e s)
unfolding step on_completion stop_server
step-IsWindingDown (accepted failed) {s} halted v =
    let none_new : IsWindingDown s (handle_accept failed s) =
      subst (IsWindingDown s) (sym (handle_accept-halted failed s halted))
        (record { halted = halted; same = refl; fewer = omega arith }) in
    if_IsWindingDown s.accepting none_new
      (record { halted = halted; same = refl; fewer = omega arith })
step-IsWindingDown (completed i io c) {s} halted v =
    let (once, e) = complete_nth-count i io c s.handlers s.database v.once in
    let after = (step-IsCounted (completed i io c) v).count_eq in
    record {
      halted = halted;
      same = length-complete_nth i io c s.handlers s.database;
      fewer = ground (arith, e, after, v.count_eq);
    }
step-IsWindingDown stopped {s} halted v = record { halted = refl; same = refl; fewer = omega arith }

pub run-IsWindingDown :
    (es : List Event) {s : Server} → s.running ≡ false → IsCounted s → IsWindingDown s (run es s)
unfolding run
run-IsWindingDown [] halted v = record { halted = halted; same = refl; fewer = omega arith }
run-IsWindingDown (e ∷ es) halted v =
    let first = step-IsWindingDown e halted v in
    let rest = run-IsWindingDown es first.halted (step-IsCounted e v) in
    record {
      halted = rest.halted;
      same = rest.same ∙ first.same;
      fewer = omega (arith, rest.fewer, first.fewer);
    }
