-- ===== src/Server/PoolTally.antt =====
-- How many workers stand where.
use mathlib.Core.List.{map}
use custom_database.Prelude.{ℕ, ◌+◌, ◌≡◌, refl, ap, ◌∙◌, arith, List, [], ◌∷◌, ◌++◌, length}
use custom_database.Server.Pool.{
  Worker, looping, locking, blocking, waiting, processing, responding, finished, is_waiting, tally,
  wake,
}

abbrev pub is_blocking : Worker → ℕ
is_blocking blocking = 1
is_blocking _ = 0

abbrev pub is_finished : Worker → ℕ
is_finished finished = 1
is_finished _ = 0

abbrev pub is_busy : Worker → ℕ
is_busy (processing _) = 1
is_busy (responding _ _) = 1
is_busy _ = 0

-- A worker that will look at the queue, or block with the mutex in its hand.
abbrev pub is_awake : Worker → ℕ
is_awake waiting = 0
is_awake finished = 0
is_awake _ = 1

tally-append : (f : Worker → ℕ) (xs ys : List Worker) → tally f (xs ++ ys) ≡ tally f xs + tally f ys
unfolding tally
tally-append f [] ys = omega arith
tally-append f (x ∷ xs) ys = omega (arith, tally-append f xs ys)

pub tally_at :
    (f : Worker → ℕ) (before after : List Worker) (w : Worker)
    → tally f (before ++ (w ∷ after)) ≡ tally f before + f w + tally f after
unfolding tally
tally_at f before after w = omega (arith, tally-append f before (w ∷ after))

pub tally_in :
    (f : Worker → ℕ) (before after : List Worker) (w : Worker) {ws : List Worker}
    → ws ≡ before ++ (w ∷ after)
    → tally f ws ≡ tally f before + f w + tally f after
tally_in f before after w e = ap (tally f) e ∙ tally_at f before after w

pub tally-wake :
    (ws : List Worker)
    → (tally is_blocking (map wake ws) ≡ tally is_blocking ws)
      × (tally is_finished (map wake ws) ≡ tally is_finished ws)
      × (tally is_busy (map wake ws) ≡ tally is_busy ws)
      × (tally is_waiting (map wake ws) ≡ 0)
      × (length (map wake ws) ≡ length ws)
unfolding tally
tally-wake [] = omega arith
tally-wake (looping ∷ ws) = omega (arith, tally-wake ws)
tally-wake (locking ∷ ws) = omega (arith, tally-wake ws)
tally-wake (blocking ∷ ws) = omega (arith, tally-wake ws)
tally-wake (waiting ∷ ws) = omega (arith, tally-wake ws)
tally-wake (processing t ∷ ws) = omega (arith, tally-wake ws)
tally-wake (responding t r ∷ ws) = omega (arith, tally-wake ws)
tally-wake (finished ∷ ws) = omega (arith, tally-wake ws)

-- Every worker waits, has returned, or is awake.
pub tally-total :
    (ws : List Worker) → tally is_awake ws + tally is_waiting ws + tally is_finished ws ≡ length ws
unfolding tally
tally-total [] = refl
tally-total (looping ∷ ws) = omega (arith, tally-total ws)
tally-total (locking ∷ ws) = omega (arith, tally-total ws)
tally-total (blocking ∷ ws) = omega (arith, tally-total ws)
tally-total (waiting ∷ ws) = omega (arith, tally-total ws)
tally-total (processing t ∷ ws) = omega (arith, tally-total ws)
tally-total (responding t r ∷ ws) = omega (arith, tally-total ws)
tally-total (finished ∷ ws) = omega (arith, tally-total ws)
