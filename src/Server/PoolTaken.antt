-- ===== src/Server/PoolTaken.antt =====
-- The requests that the worker threads popped, answered and work on.
use mathlib.Core.List.{map}
use custom_database.Prelude.{ℕ, zero, suc, ◌+◌, ◌≡◌, refl, arith, List, [], ◌∷◌, ◌++◌}
use custom_database.Protocol.Message.{Message}
use custom_database.Server.Request.{ServerState}
use custom_database.Server.Pool.{
  Worker, looping, locking, blocking, waiting, processing, responding, finished, wake, tally,
  started_workers, Shared, Pool, Move, go_on, leave, take, quit, settle, block, process, answer,
  Step, pick, notify, notify_nobody, stop_flag, notify_all, push, spurious, Reach, start, inner,
  outer,
}
use custom_database.Server.PoolTally.{tally_at, tally_in}

-- The weight of some requests, and of those that were answered.
unfoldable pub total : (Message → ℕ) → List Message → ℕ
total weight [] = 0
total weight (m ∷ ms) = weight m + total weight ms

unfoldable pub total_answered : (Message → ℕ) → List (Message × Message) → ℕ
total_answered weight [] = 0
total_answered weight ((m, response) ∷ rest) = weight m + total_answered weight rest

abbrev pub in_work : (Message → ℕ) → Worker → ℕ
in_work weight (processing m) = weight m
in_work weight (responding m _) = weight m
in_work weight _ = 0

module _ (weight : Message → ℕ) where
  total-append :
      (xs ys : List Message) → total weight (xs ++ ys) ≡ total weight xs + total weight ys
  unfolding total
  total-append [] ys = omega arith
  total-append (x ∷ xs) ys = omega (arith, total-append xs ys)

  total_answered-append :
      (xs ys : List (Message × Message))
      → total_answered weight (xs ++ ys) ≡ total_answered weight xs + total_answered weight ys
  unfolding total_answered
  total_answered-append [] ys = omega arith
  total_answered-append (x ∷ xs) ys = omega (arith, total_answered-append xs ys)

  tally-wake_work :
      (ws : List Worker) → tally (in_work weight) (map wake ws) ≡ tally (in_work weight) ws
  unfolding tally
  tally-wake_work [] = refl
  tally-wake_work (looping ∷ ws) = omega (arith, tally-wake_work ws)
  tally-wake_work (locking ∷ ws) = omega (arith, tally-wake_work ws)
  tally-wake_work (blocking ∷ ws) = omega (arith, tally-wake_work ws)
  tally-wake_work (waiting ∷ ws) = omega (arith, tally-wake_work ws)
  tally-wake_work (processing t ∷ ws) = omega (arith, tally-wake_work ws)
  tally-wake_work (responding t r ∷ ws) = omega (arith, tally-wake_work ws)
  tally-wake_work (finished ∷ ws) = omega (arith, tally-wake_work ws)

  tally-started_work : (n : ℕ) → tally (in_work weight) (started_workers n) ≡ 0
  unfolding tally
  tally-started_work zero = refl
  tally-started_work (suc n) = omega (arith, tally-started_work n)

  -- What was popped weighs as much as what was answered and `busy` together.
  IsBalanced : Shared → ℕ → Type 0
  IsBalanced m busy = total weight m.taken ≡ total_answered weight m.answered + busy

  Move-IsBalanced :
      {m m' : Shared} {w w' : Worker} (others : ℕ)
      → Move m w m' w'
      → IsBalanced m (others + in_work weight w)
      → IsBalanced m' (others + in_work weight w')
  unfolding IsBalanced total total_answered
  Move-IsBalanced others (go_on r) h = h
  Move-IsBalanced others (leave r) h = h
  Move-IsBalanced {m} others (take {t} free q) h = omega (arith, h, total-append m.taken (t ∷ []))
  Move-IsBalanced others (quit free q r) h = h
  Move-IsBalanced others (settle free q r) h = h
  Move-IsBalanced others block h = h
  Move-IsBalanced others (process io) h = h
  Move-IsBalanced {m} others (answer {t} {response}) h =
      omega (arith, h, total_answered-append m.answered ((t, response) ∷ []))

  Step-IsBalanced :
      {s t : Pool}
      → Step s t
      → IsBalanced s.shared (tally (in_work weight) s.workers)
      → IsBalanced t.shared (tally (in_work weight) t.workers)
  unfolding IsBalanced
  Step-IsBalanced (pick before after {w} {w'} e mv) h =
      let others = tally (in_work weight) before + tally (in_work weight) after in
      let now = tally_in (in_work weight) before after w e in
      let then_ = tally_at (in_work weight) before after w' in
      let moved = Move-IsBalanced others mv (omega (arith, h, now)) in omega (arith, moved, then_)
  Step-IsBalanced (notify before after e due) h =
      let now = tally_in (in_work weight) before after waiting e in
      let then_ = tally_at (in_work weight) before after locking in omega (arith, h, now, then_)
  Step-IsBalanced (notify_nobody e due) h = h
  Step-IsBalanced stop_flag h = h
  Step-IsBalanced {s} (notify_all r e) h = omega (arith, h, tally-wake_work s.workers)

  -- In every state that the worker threads reach, however they, `stop` and new requests
  -- interleave, and under every weighing of requests: those popped from the queue weigh as much as
  -- those whose callback was called and those in work, before or after they were processed,
  -- together. So no request is lost, answered twice or answered without having been popped.
  pub Reach-IsBalanced :
      {n : ℕ} {server : ServerState} {s : Pool}
      → Reach n server s
      → total weight s.shared.taken
        ≡ total_answered weight s.shared.answered + tally (in_work weight) s.workers
  unfolding total total_answered IsBalanced
  Reach-IsBalanced {n} start = omega (arith, tally-started_work n)
  Reach-IsBalanced (inner path step) = Step-IsBalanced step (Reach-IsBalanced path)
  Reach-IsBalanced (outer path (push t free)) = Reach-IsBalanced path
  Reach-IsBalanced (outer path (spurious before after e)) =
      let now = tally_in (in_work weight) before after waiting e in
      let then_ = tally_at (in_work weight) before after locking in
      omega (arith, Reach-IsBalanced path, now, then_)
