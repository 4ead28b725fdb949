-- ===== src/Programs/JointCalls.antt =====
-- The calls that the threads of the benchmark have made, and the steps of a run.
use mathlib.Core.List.{map}
use custom_database.Prelude.{
  ℕ, suc, ◌+◌, ◌^◌, ◌<◌, ◌≡◌, ◌≢◌, refl, ap, ◌∙◌, arith, Bool, true, false, List, [], ◌∷◌, ◌++◌,
  length, if◌then◌else◌,
}
use custom_database.Wal.Record.{WalRecord}
use custom_database.Database.State.{Database}
use custom_database.Client.Call.{connect}
use custom_database.Server.Refinement.{IsServing}
use custom_database.Programs.Joint.{
  Stage, writing, reading, ended, Thread, Joint, after_call, Step, call, started_thread, started,
  Reach, start, next,
}
use custom_database.Programs.JointLaws.{calls_made}
use custom_database.Programs.JointReach.{
  IsJoint, call_at, length-Reach, length-started, Reach-IsJoint,
}

-- The calls that the threads have made.
unfoldable pub total_calls : List Thread → ℕ
total_calls [] = 0
total_calls (t ∷ ts) = calls_made t.stage t.round + total_calls ts

total_calls_at :
    (before after : List Thread) (t : Thread)
    → total_calls (before ++ (t ∷ after))
      ≡ total_calls before + total_calls after + calls_made t.stage t.round
unfolding total_calls
total_calls_at [] after t = omega arith
total_calls_at (u ∷ before) after t = omega (arith, total_calls_at before after t)

unfoldable pub is_live : Stage → ℕ
is_live ended = 0
is_live _ = 1

pub is_live_lem : (stage : Stage) → stage ≢ ended → is_live stage ≡ 1
unfolding is_live
is_live_lem writing live = refl
is_live_lem reading live = refl
is_live_lem ended live = absurd (live refl)

-- The threads that have a connection.
unfoldable pub connections : List Thread → ℕ
connections [] = 0
connections (t ∷ ts) = is_live t.stage + connections ts

connections_at :
    (before after : List Thread) (t : Thread)
    → connections (before ++ (t ∷ after)) ≡ connections before + connections after + is_live t.stage
unfolding connections
connections_at [] after t = omega arith
connections_at (u ∷ before) after t = omega (arith, connections_at before after t)

-- How many of these are true.
unfoldable pub count_true : List Bool → ℕ
count_true [] = 0
count_true (b ∷ bs) = (if b then 1 else 0) + count_true bs

total_calls-started :
    (db : Database) (reached : List Bool) → total_calls (map (started_thread db) reached) ≡ 0
unfolding total_calls connect
total_calls-started db [] = refl
total_calls-started db (true ∷ reached) = omega (arith, total_calls-started db reached)
total_calls-started db (false ∷ reached) = omega (arith, total_calls-started db reached)

connections-started :
    (db : Database) (reached : List Bool)
    → connections (map (started_thread db) reached) ≡ count_true reached
unfolding connections is_live count_true connect
connections-started db [] = refl
connections-started db (true ∷ reached) = omega (arith, connections-started db reached)
connections-started db (false ∷ reached) = omega (arith, connections-started db reached)

-- The steps of a run.
unfoldable pub steps : {operations : ℕ} {s t : Joint} → Reach operations s t → ℕ
steps start = 0
steps (next path step) = suc (steps path)

module _ (operations : ℕ) (few : operations < 2 ^ 64) where
  total_calls-Step :
      {s t : Joint}
      → length s.threads < 2 ^ 64
      → Step operations s t
      → IsJoint operations s
      → total_calls t.threads ≡ suc (total_calls s.threads)
  unfolding after_call
  total_calls-Step small (call now later before after t time time' e live left) v =
      let called = call_at operations few now later before after t time time' small e live left v in
      omega (
        arith,
        called.moved,
        total_calls_at before after t,
        total_calls_at before after _,
        ap total_calls e,
      )

  connections-Step :
      {s t : Joint}
      → length s.threads < 2 ^ 64
      → Step operations s t
      → IsJoint operations s
      → connections t.threads ≡ connections s.threads
  unfolding after_call
  connections-Step small (call now later before after t time time' e live left) v =
      let called = call_at operations few now later before after t time time' small e live left v in
      let now_live = is_live_lem _ called.live in
      let was_live = is_live_lem t.stage live in
      omega (
        arith,
        now_live,
        was_live,
        connections_at before after t,
        connections_at before after _,
        ap connections e,
      )

  pub total_calls-Reach :
      (reached : List Bool) {db : Database} {rs : List WalRecord} {s : Joint}
      → length reached < 2 ^ 64
      → IsServing db rs
      → (path : Reach operations (started db reached) s) → total_calls s.threads ≡ steps path
  unfolding steps
  total_calls-Reach reached {db} many v start = total_calls-started db reached
  total_calls-Reach reached {db} many v (next path step) =
      let before = Reach-IsJoint operations few reached many v path in
      let size = length-Reach operations few path in
      total_calls-Step (omega (arith, size, length-started db reached, many)) step before
      ∙ ap suc (total_calls-Reach reached many v path)

  pub connections-Reach :
      (reached : List Bool) {db : Database} {rs : List WalRecord} {s : Joint}
      → length reached < 2 ^ 64
      → IsServing db rs
      → Reach operations (started db reached) s
      → connections s.threads ≡ count_true reached
  connections-Reach reached {db} many v start = connections-started db reached
  connections-Reach reached {db} many v (next path step) =
      let before = Reach-IsJoint operations few reached many v path in
      let size = length-Reach operations few path in
      connections-Step (omega (arith, size, length-started db reached, many)) step before
      ∙ connections-Reach reached many v path
