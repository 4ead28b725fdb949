-- ===== src/Server/PoolLaws.antt =====
-- What holds in every state that the worker threads reach.
use custom_database.Prelude.{
  ℕ, zero, suc, ◌+◌, ◌≡◌, ◌⊎◌, inl, inr, refl, ap, sym, ◌∙◌, arith, false, List, [], ◌∷◌, ◌++◌,
  append_assoc, length, length-append, if◌then◌else◌,
}
use custom_database.Server.Request.{ServerState}
use custom_database.Server.Pool.{
  Worker, looping, locking, waiting, Shared, Pool, Move, go_on, leave, take, quit, settle, block,
  process, answer, tally, Step, pick, notify, notify_nobody, stop_flag, notify_all, Outside, push,
  spurious, started_workers, started, Reach, start, inner, outer,
}
use custom_database.Server.PoolTally.{
  is_blocking, is_finished, is_busy, tally_at, tally_in, tally-wake,
}

-- The mutex is held by one blocking worker at most, and then the queue is empty; no worker returns
-- before `stop`; the history fits the queue.
pub record IsSound (n : ℕ) (s : Pool) : Type 0 where
  pub threads : length s.workers ≡ n
  pub one_blocks : tally is_blocking s.workers ≡ (if s.shared.held then 1 else 0)
  pub nothing_due : (s.shared.held ≡ false) ⊎ (s.shared.queue ≡ [])
  pub alive : (s.shared.running ≡ false) ⊎ (tally is_finished s.workers ≡ 0)
  pub order : s.shared.pushed ≡ s.shared.taken ++ s.shared.queue
  pub balance : length s.shared.taken ≡ length s.shared.answered + tally is_busy s.workers

-- The same, seen from a worker: `b`, `f` and `k` of the others block, have returned or are busy.
pub record Around (b f k : ℕ) (m : Shared) (w : Worker) : Type 0 where
  pub one_blocks : b + is_blocking w ≡ (if m.held then 1 else 0)
  pub nothing_due : (m.held ≡ false) ⊎ (m.queue ≡ [])
  pub alive : (m.running ≡ false) ⊎ (f + is_finished w ≡ 0)
  pub order : m.pushed ≡ m.taken ++ m.queue
  pub balance : length m.taken ≡ length m.answered + (k + is_busy w)

Move-Around :
    {b f k : ℕ} {m m' : Shared} {w w' : Worker}
    → Move m w m' w'
    → Around b f k m w
    → Around b f k m' w'
Move-Around (go_on r) v = ground arith
Move-Around (leave r) v = ground arith
Move-Around {m = m} (take {t} {q} free e) v = record {
  one_blocks = v.one_blocks;
  nothing_due = inl free;
  alive = v.alive;
  order = v.order ∙ ap (λ l. m.taken ++ l) e ∙ sym (append_assoc m.taken (t ∷ []) q);
  balance = omega (arith, v.balance, length-append m.taken (t ∷ []));
}
Move-Around (quit free e r) v = ground arith
Move-Around (settle free e r) v = ground arith
Move-Around block v = ground arith
Move-Around (process io) v = ground arith
Move-Around {m = m} (answer {t} {response}) v = record {
  one_blocks = v.one_blocks;
  nothing_due = v.nothing_due;
  alive = v.alive;
  order = v.order;
  balance = omega (arith, v.balance, length-append m.answered ((t, response) ∷ []));
}

pub length_at :
    (before after : List Worker) (w : Worker)
    → length (before ++ (w ∷ after)) ≡ length before + 1 + length after
length_at before after w = omega (arith, length-append before (w ∷ after))

abbrev pub others : List Worker → List Worker → (Worker → ℕ) → ℕ
others before after f = tally f before + tally f after

module _ {n : ℕ} (before after : List Worker) where
  pub IsSound-Around :
      {s : Pool} {w : Worker}
      → s.workers ≡ before ++ (w ∷ after)
      → IsSound n s
      → Around
          (others before after is_blocking)
          (others before after is_finished)
          (others before after is_busy)
          s.shared
          w
  IsSound-Around {s} {w} e v =
      let blocks = tally_in is_blocking before after w e in
      let ends = tally_in is_finished before after w e in
      let busy = tally_in is_busy before after w e in
      ground (arith, v.one_blocks, v.nothing_due, v.alive, v.order, v.balance)

  Around-IsSound :
      {m : Shared} {w : Worker}
      → length (before ++ (w ∷ after)) ≡ n
      → Around
          (others before after is_blocking)
          (others before after is_finished)
          (others before after is_busy)
          m
          w
      → IsSound n (record { shared = m; workers = before ++ (w ∷ after) })
  Around-IsSound {m} {w} len v =
      let blocks = tally_at is_blocking before after w in
      let ends = tally_at is_finished before after w in
      let busy = tally_at is_busy before after w in
      ground (arith, v.one_blocks, v.nothing_due, v.alive, v.order, v.balance)

  length_same :
      {s : Pool} (w w' : Worker)
      → s.workers ≡ before ++ (w ∷ after)
      → IsSound n s
      → length (before ++ (w' ∷ after)) ≡ n
  length_same w w' e v =
      omega (arith, length_at before after w', length_at before after w, ap length e, v.threads)

Step-IsSound : {n : ℕ} {s t : Pool} → Step s t → IsSound n s → IsSound n t
Step-IsSound (pick before after {w} {w'} e mv) v =
    Around-IsSound before after (length_same before after w w' e v)
      (Move-Around mv (IsSound-Around before after e v))
Step-IsSound (notify before after e h) v =
    Around-IsSound before after (length_same before after waiting locking e v)
      (ground (arith, IsSound-Around before after e v))
Step-IsSound (notify_nobody e h) v = ground arith
Step-IsSound stop_flag v = ground arith
Step-IsSound {s = s} (notify_all r e) v = let same = tally-wake s.workers in ground (arith, same)

Outside-IsSound : {n : ℕ} {s t : Pool} → Outside s t → IsSound n s → IsSound n t
Outside-IsSound {s = s} (push r free) v = record {
  threads = v.threads;
  one_blocks = v.one_blocks;
  nothing_due = inl free;
  alive = v.alive;
  order = ap (λ l. l ++ (r ∷ [])) v.order ∙ append_assoc s.shared.taken s.shared.queue (r ∷ []);
  balance = v.balance;
}
Outside-IsSound (spurious before after e) v =
    Around-IsSound before after (length_same before after waiting locking e v)
      (ground (arith, IsSound-Around before after e v))

tally-started : (f : Worker → ℕ) (n : ℕ) → f looping ≡ 0 → tally f (started_workers n) ≡ 0
unfolding tally
tally-started f zero e = refl
tally-started f (suc n) e = omega (arith, tally-started f n e)

length-started : (n : ℕ) → length (started_workers n) ≡ n
length-started zero = refl
length-started (suc n) = ap suc (length-started n)

started-IsSound : (n : ℕ) (server : ServerState) → IsSound n (started n server)
started-IsSound n server = record {
  threads = length-started n;
  one_blocks = tally-started is_blocking n refl;
  nothing_due = inl refl;
  alive = inr (tally-started is_finished n refl);
  order = refl;
  balance = omega (arith, tally-started is_busy n refl);
}

-- In every state that the worker threads reach: their number is unchanged; one of them holds the
-- mutex over `wait` exactly if the mutex is held, and then nothing is in the queue; none has
-- returned while the server runs; the requests pushed are those popped followed by those in the
-- queue, in order; and the requests popped are as many as the calls of the callbacks and the
-- requests in work.
pub Reach-IsSound : {n : ℕ} {server : ServerState} {s : Pool} → Reach n server s → IsSound n s
Reach-IsSound {n} {server} start = started-IsSound n server
Reach-IsSound (inner path step) = Step-IsSound step (Reach-IsSound path)
Reach-IsSound (outer path step) = Outside-IsSound step (Reach-IsSound path)
