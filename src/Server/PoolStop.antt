-- ===== src/Server/PoolStop.antt =====
-- What `DatabaseServer::stop` does to the worker threads. It changes `running_` and notifies them
-- without the mutex of the queue, and then waits until all of them have returned.
use mathlib.Core.List.{map, map-append}
use custom_database.Prelude.{
  ℕ, ◌+◌, ◌<◌, ◌≤◌, ◌≡◌, refl, ap, ◌∙◌, arith, true, false, List, [], ◌∷◌, ◌++◌, length,
  length-append,
}
use custom_database.Server.Pool.{
  Worker, looping, locking, blocking, waiting, processing, responding, finished, Shared, Pool, Move,
  go_on, leave, take, quit, settle, block, process, answer, is_waiting, tally, wake, Step, pick,
  notify, notify_nobody, stop_flag, notify_all, Outside, push, spurious, Drain, stay, next, Onward,
  here, by_step, by_event,
}
use custom_database.Server.PoolTally.{tally_at, tally_in}

-- A worker that may still take a request after `stop`.
abbrev pub is_eager : Worker → ℕ
is_eager locking = 1
is_eager blocking = 1
is_eager waiting = 1
is_eager _ = 0

tally_eager_wake : (ws : List Worker) → tally is_eager (map wake ws) ≡ tally is_eager ws
unfolding tally
tally_eager_wake [] = refl
tally_eager_wake (looping ∷ ws) = omega (arith, tally_eager_wake ws)
tally_eager_wake (locking ∷ ws) = omega (arith, tally_eager_wake ws)
tally_eager_wake (blocking ∷ ws) = omega (arith, tally_eager_wake ws)
tally_eager_wake (waiting ∷ ws) = omega (arith, tally_eager_wake ws)
tally_eager_wake (processing t ∷ ws) = omega (arith, tally_eager_wake ws)
tally_eager_wake (responding t r ∷ ws) = omega (arith, tally_eager_wake ws)
tally_eager_wake (finished ∷ ws) = omega (arith, tally_eager_wake ws)

tally_eager_le : (ws : List Worker) → tally is_eager ws ≤ length ws
unfolding tally
tally_eager_le [] = omega arith
tally_eager_le (looping ∷ ws) = omega (arith, tally_eager_le ws)
tally_eager_le (locking ∷ ws) = omega (arith, tally_eager_le ws)
tally_eager_le (blocking ∷ ws) = omega (arith, tally_eager_le ws)
tally_eager_le (waiting ∷ ws) = omega (arith, tally_eager_le ws)
tally_eager_le (processing t ∷ ws) = omega (arith, tally_eager_le ws)
tally_eager_le (responding t r ∷ ws) = omega (arith, tally_eager_le ws)
tally_eager_le (finished ∷ ws) = omega (arith, tally_eager_le ws)

-- After `stop`, no step makes the popped requests and the eager workers more, taken together.
abbrev IsClosing : ℕ → Pool → Type 0
IsClosing bound s =
    (s.shared.running ≡ false) × (length s.shared.taken + tally is_eager s.workers ≤ bound)

Move-eager :
    {m m' : Shared} {w w' : Worker}
    → Move m w m' w'
    → m.running ≡ false
    → (m'.running ≡ false) × (length m'.taken + is_eager w' ≤ length m.taken + is_eager w)
Move-eager (go_on r) h = cc
Move-eager (leave r) h = (h, omega arith)
Move-eager {m} (take {t} free e) h = (h, omega (arith, length-append m.taken (t ∷ [])))
Move-eager (quit free e r) h = (h, omega arith)
Move-eager (settle free e r) h = cc
Move-eager block h = (h, omega arith)
Move-eager (process io) h = (h, omega arith)
Move-eager answer h = (h, omega arith)

Step-IsClosing : {bound : ℕ} {s t : Pool} → Step s t → IsClosing bound s → IsClosing bound t
Step-IsClosing (pick before after {w} {w'} e mv) (off, h) =
    let (off', moved) = Move-eager mv off in
    (
      off',
      omega
          (arith, h, moved, tally_in is_eager before after w e, tally_at is_eager before after w'),
    )
Step-IsClosing (notify before after e due) (off, h) = (
  off,
  omega (arith, tally_in is_eager before after waiting e, tally_at is_eager before after locking),
)
Step-IsClosing (notify_nobody e due) h = h
Step-IsClosing stop_flag (off, h) = (refl, h)
Step-IsClosing {s = s} (notify_all r e) (off, h) = (off, omega (arith, tally_eager_wake s.workers))

Outside-IsClosing : {bound : ℕ} {s t : Pool} → Outside s t → IsClosing bound s → IsClosing bound t
Outside-IsClosing (push r free) h = h
Outside-IsClosing (spurious before after e) (off, h) = (
  off,
  omega (arith, tally_in is_eager before after waiting e, tally_at is_eager before after locking),
)

Onward-IsClosing : {bound : ℕ} {s t : Pool} → Onward s t → IsClosing bound s → IsClosing bound t
Onward-IsClosing here h = h
Onward-IsClosing (by_step path step) h = Step-IsClosing step (Onward-IsClosing path h)
Onward-IsClosing (by_event path step) h = Outside-IsClosing step (Onward-IsClosing path h)

-- Once `running_` is false, whatever the threads do and whatever comes in, no more requests are
-- taken from the queue than there are workers.
pub stop_takes_few :
    {s t : Pool}
    → s.shared.running ≡ false
    → Onward s t
    → length t.shared.taken ≤ length s.shared.taken + length s.workers
stop_takes_few {s} off path =
    let h =
      Onward-IsClosing {bound = length s.shared.taken + length s.workers} path
        (off, omega (arith, tally_eager_le s.workers)) in
    omega (arith, h.1)

-- The workers after `stop`, where one found nothing to do just before and blocks just after.
abbrev pub asleep : List Worker → List Worker → Shared → Pool
asleep before after m = record {
  shared = record m { running = false; notified = true; held = false };
  workers = map wake before ++ (waiting ∷ map wake after);
}

Drain-asleep :
    (before after : List Worker) {s : Pool}
    → s.workers ≡ before ++ (blocking ∷ after)
    → s.shared.notified ≡ false
    → Drain s (asleep before after s.shared)
Drain-asleep before after e fresh = next (next (next stay stop_flag) (notify_all refl fresh)) (
    pick (map wake before) (map wake after)
      (ap (map wake) e ∙ map-append wake before (blocking ∷ after)) block)

abbrev IsAsleep : Pool → Type 0
IsAsleep s =
    (s.shared.running ≡ false)
    × (s.shared.notified ≡ true)
    × (s.shared.notifications ≡ 0)
    × (0 < tally is_waiting s.workers)

Move-waiting :
    {m m' : Shared} {w w' : Worker}
    → Move m w m' w'
    → (is_waiting w ≡ 0)
      × (m'.notified ≡ m.notified)
      × (m'.notifications ≡ m.notifications)
      × (m'.running ≡ m.running)
Move-waiting (go_on r) = (refl, refl, refl, refl)
Move-waiting (leave r) = (refl, refl, refl, refl)
Move-waiting (take free e) = (refl, refl, refl, refl)
Move-waiting (quit free e r) = (refl, refl, refl, refl)
Move-waiting (settle free e r) = (refl, refl, refl, refl)
Move-waiting block = (refl, refl, refl, refl)
Move-waiting (process io) = (refl, refl, refl, refl)
Move-waiting answer = (refl, refl, refl, refl)

Step-IsAsleep : {s t : Pool} → Step s t → IsAsleep s → IsAsleep t
Step-IsAsleep (pick before after {w} {w'} e mv) h = ground (
  arith,
  Move-waiting mv,
  tally_in is_waiting before after w e,
  tally_at is_waiting before after w',
)
Step-IsAsleep (notify before after e due) h = absurd (omega (arith, h.2))
Step-IsAsleep (notify_nobody e due) h = absurd (omega (arith, h.2))
Step-IsAsleep stop_flag h = (refl, h.1, h.2, h.3)
Step-IsAsleep (notify_all r e) h = cc (h.1)

Drain-IsAsleep : {s t : Pool} → Drain s t → IsAsleep s → IsAsleep t
Drain-IsAsleep stay h = h
Drain-IsAsleep (next path step) h = Step-IsAsleep step (Drain-IsAsleep path h)

-- If a worker has found nothing to do and is about to block, no `notify_one` is due and `stop` has
-- not called `notify_all`, then `stop` can set its flag and notify before the worker blocks; and
-- from there, while nothing comes from outside, some worker waits in every state, so that `stop`
-- never joins it.
pub lost_wakeup :
    {s t : Pool} (before after : List Worker)
    → s.workers ≡ before ++ (blocking ∷ after)
    → s.shared.notified ≡ false
    → s.shared.notifications ≡ 0
    → Drain (asleep before after s.shared) t
    → Drain s (asleep before after s.shared) × (0 < tally is_waiting t.workers)
lost_wakeup before after e fresh none_due path =
    let one_waits = tally_at is_waiting (map wake before) (map wake after) waiting in
    (
      Drain-asleep before after e fresh,
      (Drain-IsAsleep path (refl, refl, none_due, omega (arith, one_waits))).3,
    )
