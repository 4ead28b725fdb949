-- ===== src/Server/PoolEnd.antt =====
-- How the worker threads return once `stop` has woken them.
use mathlib.Core.Path.{subst}
use custom_database.Prelude.{
  ℕ, ◌+◌, ◌≡◌, refl, sym, ◌∙◌, arith, false, List, [], ◌∷◌, ◌++◌, append_assoc, append-nil, length,
  length-append, Bool-cases, ◌⊎◌, inl, inr,
}
use custom_database.Protocol.Message.{Message}
use custom_database.Server.Request.{RequestIo, ServerState}
use custom_database.Server.Pool.{
  Worker, looping, locking, blocking, waiting, processing, responding, finished, is_waiting, tally,
  Shared, Pool, Move, leave, take, quit, process, answer, Step, pick, notify, notify_nobody,
  stop_flag, notify_all, go_on, settle, block, Drain, stay, next, Reach, inner,
}
use custom_database.Server.PoolTally.{is_blocking, is_finished, tally_at, tally_in, tally-wake}
use custom_database.Server.PoolLaws.{Reach-IsSound}

List-cases :
    (ms : List Message) → (ms ≡ []) ⊎ ((m : Message) × (rest : List Message) × (ms ≡ m ∷ rest))
List-cases [] = inl refl
List-cases (m ∷ rest) = inr (m, rest, refl)

join : {s t u : Pool} → Drain s t → Drain t u → Drain s u
join p stay = p
join p (next q step) = next (join p q) step

-- After `stop`, with nobody in a critical section.
abbrev IsStopped : Shared → Type 0
IsStopped m = (m.running ≡ false) × (m.held ≡ false)

-- A worker among others returns; the others stay where they are.
Returns : List Worker → List Worker → Shared → Worker → Type 0
Returns before after m w =
    (m' : Shared) × IsStopped m'
    × Drain (record { shared = m; workers = before ++ (w ∷ after) })
        (record { shared = m'; workers = before ++ (finished ∷ after) })

module _ (io : RequestIo) (before after : List Worker) where
  looping-Returns : (m : Shared) → IsStopped m → Returns before after m looping
  unfolding Returns
  looping-Returns m (off, free) = (m, (off, free), next stay (pick before after refl (leave off)))

  responding-Returns :
      (t r : Message) (m : Shared) → IsStopped m → Returns before after m (responding t r)
  unfolding Returns
  responding-Returns t r m h =
      let (m', h', path) = looping-Returns _ h in
      (m', h', join (next stay (pick before after refl answer)) path)

  processing-Returns :
      (t : Message) (m : Shared) → IsStopped m → Returns before after m (processing t)
  unfolding Returns
  processing-Returns t m h =
      let (m', h', path) = responding-Returns t _ _ h in
      (m', h', join (next stay (pick before after refl (process io))) path)

  locking-Returns : (m : Shared) → IsStopped m → Returns before after m locking
  unfolding Returns
  locking-Returns m (off, free) = elim (List-cases m.queue) [
    | inl empty ↦ (m, (off, free), next stay (pick before after refl (quit free empty off)))
    | inr (t, rest, e) ↦
        let (m', h', path) = processing-Returns t _ (off, free) in
        (m', h', join (next stay (pick before after refl (take free e))) path)
  ]

  worker-Returns :
      (w : Worker) (m : Shared)
      → IsStopped m
      → is_waiting w ≡ 0
      → is_blocking w ≡ 0
      → Returns before after m w
  unfolding Returns
  worker-Returns looping m h not_waiting not_blocking = looping-Returns m h
  worker-Returns locking m h not_waiting not_blocking = locking-Returns m h
  worker-Returns (processing t) m h not_waiting not_blocking = processing-Returns t m h
  worker-Returns (responding t r) m h not_waiting not_blocking = responding-Returns t r m h
  worker-Returns finished m h not_waiting not_blocking = (m, h, stay)
  worker-Returns blocking m h not_waiting not_blocking = absurd (omega (arith, not_blocking))
  worker-Returns waiting m h not_waiting not_blocking = absurd (omega (arith, not_waiting))

all_return :
    (io : RequestIo) (before after : List Worker) (m : Shared)
    → IsStopped m
    → tally is_waiting after ≡ 0
    → tally is_blocking after ≡ 0
    → tally is_finished before ≡ length before
    → (t : Pool) × Drain (record { shared = m; workers = before ++ after }) t
      × (tally is_finished t.workers ≡ length t.workers)
unfolding tally Returns
all_return io before [] m h waits blocks done = (_, stay, rw append-nil done)
all_return io before (w ∷ after) m h waits blocks done =
    let (m', h', path) =
      worker-Returns io before after w m h (omega (arith, waits)) (omega (arith, blocks)) in
    let (t, path', over) =
      all_return io (before ++ (finished ∷ [])) after m' h' (omega (arith, waits))
        (omega (arith, blocks))
        (omega (
          arith,
          done,
          tally_at is_finished before [] finished,
          length-append before (finished ∷ []),
        )) in
    (
      t,
      join
          (subst
            (λ ws.
              Drain (record { shared = m; workers = before ++ (w ∷ after) })
                (record { shared = m'; workers = ws }))
            (sym (append_assoc before (finished ∷ []) after)) path)
          path',
      over,
    )

-- The server was stopped, and no worker waits or is about to wait.
pub record IsQuiet (s : Pool) : Type 0 where
  pub off : s.shared.running ≡ false
  pub none_waits : tally is_waiting s.workers ≡ 0
  pub none_blocks : tally is_blocking s.workers ≡ 0

Move-IsQuiet :
    {m m' : Shared} {w w' : Worker}
    → Move m w m' w'
    → m.running ≡ false
    → is_waiting w + is_blocking w ≡ 0
    → (m'.running ≡ false) × (is_waiting w' + is_blocking w' ≡ 0)
Move-IsQuiet (go_on r) off h = absurd cc
Move-IsQuiet (leave r) off h = (off, refl)
Move-IsQuiet (take free e) off h = (off, refl)
Move-IsQuiet (quit free e r) off h = (off, refl)
Move-IsQuiet (settle free e r) off h = absurd cc
Move-IsQuiet block off h = absurd (omega (arith, h))
Move-IsQuiet (process io) off h = (off, refl)
Move-IsQuiet answer off h = (off, refl)

Step-IsQuiet : {s t : Pool} → Step s t → IsQuiet s → IsQuiet t
Step-IsQuiet (pick before after {w} {w'} e mv) v =
    let waits = tally_in is_waiting before after w e in
    let blocks = tally_in is_blocking before after w e in
    let waits' = tally_at is_waiting before after w' in
    let blocks' = tally_at is_blocking before after w' in
    let (off, quiet) =
      Move-IsQuiet mv v.off (omega (arith, waits, blocks, v.none_waits, v.none_blocks)) in
    record {
      off = off;
      none_waits = omega (arith, waits, waits', quiet, v.none_waits);
      none_blocks = omega (arith, blocks, blocks', quiet, v.none_blocks);
    }
Step-IsQuiet (notify before after e due) v =
    let waits = tally_in is_waiting before after waiting e in
    absurd (omega (arith, waits, v.none_waits))
Step-IsQuiet (notify_nobody e due) v = record {
  off = v.off;
  none_waits = v.none_waits;
  none_blocks = v.none_blocks;
}
Step-IsQuiet stop_flag v = record {
  off = refl;
  none_waits = v.none_waits;
  none_blocks = v.none_blocks;
}
Step-IsQuiet {s} (notify_all r e) v =
    let woken = tally-wake s.workers in
    record { off = v.off; none_waits = woken.3; none_blocks = woken.0 ∙ v.none_blocks }

Drain-IsQuiet : {s t : Pool} → Drain s t → IsQuiet s → IsQuiet t
Drain-IsQuiet stay v = v
Drain-IsQuiet (next path step) v = Step-IsQuiet step (Drain-IsQuiet path v)

Drain-Reach :
    {n : ℕ} {server : ServerState} {s t : Pool} → Drain s t → Reach n server s → Reach n server t
Drain-Reach stay r = r
Drain-Reach (next path step) r = inner (Drain-Reach path r) step

-- If a state that the worker threads reach has `running_` false and no worker that waits or is
-- about to wait, then from every state that the threads reach from there, while nothing comes from
-- outside, they can go on to a state in which all of them have returned, so that `stop` joins
-- them.
pub stop_returns :
    {n : ℕ} {server : ServerState} {s t : Pool} (io : RequestIo)
    → Reach n server s
    → IsQuiet s
    → Drain s t
    → (u : Pool) × Drain t u × (tally is_finished u.workers ≡ length u.workers)
unfolding tally
stop_returns {t} io path v on =
    let sound = Reach-IsSound (Drain-Reach on path) in
    let quiet = Drain-IsQuiet on v in
    let free : t.shared.held ≡ false = elim (Bool-cases t.shared.held) [
      | inl held ↦ absurd (ground (arith, sound.one_blocks, quiet.none_blocks))
      | inr free ↦ free
    ] in
    all_return io [] t.workers t.shared (quiet.off, free) quiet.none_waits quiet.none_blocks refl
