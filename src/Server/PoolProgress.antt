-- ===== src/Server/PoolProgress.antt =====
-- The requests in the queue and the workers that are awake.
use custom_database.Prelude.{ℕ, ◌+◌, ◌<◌, ◌≡◌, ◌⊎◌, inl, inr, refl, arith, false, []}
use custom_database.Server.Request.{ServerState}
use custom_database.Server.Pool.{
  Worker, locking, Shared, Pool, Move, go_on, leave, take, quit, settle, block, process, answer,
  tally, Step, pick, notify, notify_nobody, stop_flag, notify_all, Outside, push, spurious, Reach,
  start, inner, outer,
}
use custom_database.Server.PoolTally.{is_awake, tally_at, tally_in, tally-total}
use custom_database.Server.PoolLaws.{Around, others, IsSound, IsSound-Around, Reach-IsSound}

-- Either the server was stopped, or nothing is in the queue, or a `notify_one` is due or a worker is
-- awake.
abbrev pub IsServed : Shared → ℕ → Type 0
IsServed m awake = (m.running ≡ false) ⊎ ((m.queue ≡ []) ⊎ (0 < m.notifications + awake))

Move-IsServed :
    {b f k : ℕ} (a : ℕ) {m m' : Shared} {w w' : Worker}
    → Move m w m' w'
    → Around b f k m w
    → IsServed m (a + is_awake w)
    → IsServed m' (a + is_awake w')
Move-IsServed a (go_on r) v h = h
Move-IsServed a (leave r) v h = inl r
Move-IsServed a (take free e) v h = ground arith
Move-IsServed a (quit free e r) v h = inl r
Move-IsServed a (settle free e r) v h = inr (inl e)
Move-IsServed a block v h = ground (arith, v.one_blocks, v.nothing_due)
Move-IsServed a (process io) v h = ground arith
Move-IsServed a answer v h = ground arith

Step-IsServed :
    {n : ℕ} {s t : Pool}
    → 0 < n
    → Step s t
    → IsSound n s
    → IsServed s.shared (tally is_awake s.workers)
    → IsServed t.shared (tally is_awake t.workers)
Step-IsServed {s = s} some_worker (pick before after {w} {w'} e mv) v h =
    let now = tally_in is_awake before after w e in
    let then_ = tally_at is_awake before after w' in
    let moved = Move-IsServed (others before after is_awake) mv (IsSound-Around before after e v) in
    ground (arith, moved)
Step-IsServed some_worker (notify before after e due) v h =
    let then_ = tally_at is_awake before after locking in ground arith
Step-IsServed {s = s} some_worker (notify_nobody e due) v h =
    ground (arith, tally-total s.workers, v.threads, v.alive)
Step-IsServed some_worker stop_flag v h = inl refl
Step-IsServed some_worker (notify_all r e) v h = inl r

Outside-IsServed :
    {s t : Pool}
    → Outside s t
    → IsServed s.shared (tally is_awake s.workers)
    → IsServed t.shared (tally is_awake t.workers)
Outside-IsServed (push r free) h = inr (inr (omega arith))
Outside-IsServed (spurious before after e) h =
    let then_ = tally_at is_awake before after locking in inr (inr (omega arith))

-- In every state that a pool with at least one worker reaches, however its threads, `stop`, new
-- requests and wake-ups without a notification follow each other: the server was stopped, or
-- nothing is in the queue, or a `notify_one` is due or some worker is awake. No request is left in
-- the queue of a running server with all workers asleep.
pub Reach-IsServed :
    {n : ℕ} {server : ServerState} {s : Pool}
    → 0 < n
    → Reach n server s
    → IsServed s.shared (tally is_awake s.workers)
Reach-IsServed some_worker start = inr (inl refl)
Reach-IsServed some_worker (inner path step) =
    Step-IsServed some_worker step (Reach-IsSound path) (Reach-IsServed some_worker path)
Reach-IsServed some_worker (outer path step) =
    Outside-IsServed step (Reach-IsServed some_worker path)
