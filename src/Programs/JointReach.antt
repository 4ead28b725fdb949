-- ===== src/Programs/JointReach.antt =====
-- What holds of the benchmark and its server, however the threads interleave.
use mathlib.Core.Path.{subst}
use mathlib.Core.List.{map}
use custom_database.Prelude.{
  ℕ, zero, suc, ◌+◌, ◌^◌, ◌<◌, ◌≡◌, ◌≢◌, inl, inr, refl, ap, sym, ◌∙◌, arith, Bool, true, false,
  some, List, [], ◌∷◌, ◌++◌, length, length-append,
}
use custom_database.Wal.Record.{WalRecord}
use custom_database.Database.State.{Database}
use custom_database.Server.Spec.{Store}
use custom_database.Server.Refinement.{view, IsServing, taking}
use custom_database.Client.Call.{connect}
use custom_database.Programs.Bench.{Counts, key_name}
use custom_database.Programs.BenchLaws.{no_counts, counted}
use custom_database.Programs.Names.{key_name-ne}
use custom_database.Programs.Joint.{
  ended, Thread, Joint, advance, after_call, Step, call, started_thread, started, Reach, start,
  next,
}
use custom_database.Client.Crowd.{lend}
use custom_database.Programs.JointLaws.{calls_made, IsIdle, IsAlong, Called, call-Called}
use custom_database.Programs.Threads.{total_rounds, total_rounds_at}
use custom_database.Prelude.{nth, nth-lt, nth-here, nth-cases, some-injective}

-- The server serves, every key that a thread has written holds its value, and exactly the rounds
-- that have ended are counted, each as a success.
pub record IsJoint (operations : ℕ) (s : Joint) : Type 0 where
  pub db : Database
  pub rs : List WalRecord
  pub serving : IsServing db rs
  pub database_eq : s.database ≡ some db
  pub each : (i : ℕ) (t : Thread) → nth i s.threads ≡ some t → IsAlong operations i t (view db)
  pub counts_eq : s.counts ≡ counted (total_rounds s.threads) no_counts

length-map : {A : Type 0} (f : A → Thread) (xs : List A) → length (map f xs) ≡ length xs
length-map f [] = refl
length-map f (x ∷ xs) = omega (arith, length-map f xs)

pub length-started :
    (db : Database) (reached : List Bool)
    → length (map (started_thread db) reached) ≡ length reached
length-started db reached = length-map (started_thread db) reached

module _ (operations : ℕ) (few : operations < 2 ^ 64) where
  -- A thread that another one's call leaves alone.
  still-IsAlong :
      {i rest made : ℕ} {store : Store} {r : Thread × Counts} {u : Thread} (i' : ℕ)
      → i < 2 ^ 64
      → i' < 2 ^ 64
      → i' ≢ i
      → (called : Called operations i rest made store r) → IsAlong operations i' u store
      → IsAlong operations i' u (view called.db)
  still-IsAlong {i} i' hi hi' other called v = record {
    idle = v.idle;
    holds = λ j lt.
        called.apart (key_name i' j) (λ m le.
          key_name-ne i m i' j hi (omega arith) hi' (omega (arith, v.within))
            (inl λ e. other (sym e)))
        ∙ v.holds j lt;
    within = v.within;
  }

  -- What the call of the thread behind `before` does.
  pub call_at :
      {s : Joint} (now later : ℕ) (before after : List Thread) (t : Thread)
      → now < 2 ^ 64
      → later < 2 ^ 64
      → length s.threads < 2 ^ 64
      → s.threads ≡ before ++ (t ∷ after)
      → t.stage ≢ ended
      → t.round < operations
      → (v : IsJoint operations s)
      → Called operations
          (length before)
          (total_rounds before + total_rounds after)
          (calls_made t.stage t.round)
          (view v.db)
          (advance
            (taking now later)
            (length before)
            t.stage
            t.round
            (lend s.database t.client)
            s.counts)
  call_at {s} now later before after t time time' small e live left v =
      let i = length before in
      let rest = total_rounds before + total_rounds after in
      let here : nth i s.threads ≡ some t = ap (nth i) e ∙ nth-here before after t in
      let hi = nth-lt i s.threads here in
      let mine = v.each i t here in
      let counts : s.counts ≡ counted (rest + t.round) no_counts =
        v.counts_eq
        ∙ ap (λ k. counted k no_counts) (ap total_rounds e ∙ total_rounds_at before after t) in
      let idle : IsIdle t.client = elim mine.idle [
        | inl (over, none_done) ↦ absurd (live over)
        | inr (live', idle) ↦ idle
      ] in
      rw (v.database_eq, counts)
        (call-Called now later operations i rest time time' (omega arith) few t.round left v.serving
          t.stage live idle mine.holds)

  Step-IsJoint :
      {s t : Joint}
      → length s.threads < 2 ^ 64
      → Step operations s t
      → IsJoint operations s
      → IsJoint operations t
  unfolding after_call
  Step-IsJoint {s} small (call now later before after t time time' e live left) v =
      let called = call_at now later before after t time time' small e live left v in
      let hi =
        nth-lt (length before) s.threads (ap (nth (length before)) e ∙ nth-here before after t) in
      record {
        db = called.db;
        rs = called.rs;
        serving = called.serving;
        database_eq = called.database_eq;
        each = λ i' u there. elim (nth-cases i' before after t _ there) [
          | inl (same, found) ↦
              let is : _ ≡ u = some-injective (sym found ∙ there) in
              subst (λ k. IsAlong operations k u (view called.db)) (sym same)
                (subst (λ w. IsAlong operations (length before) w (view called.db)) is called.along)
          | inr (other, found) ↦
              let old = ap (nth i') e ∙ found in
              still-IsAlong i' (omega arith) (omega (arith, nth-lt i' s.threads old)) other called
                (v.each i' u old)
        ];
        counts_eq =
            called.counts_eq ∙ ap (λ k. counted k no_counts) (sym (total_rounds_at before after _));
      }

  -- The number of the threads.
  length-Step : {s t : Joint} → Step operations s t → length t.threads ≡ length s.threads
  unfolding after_call
  length-Step (call now later before after t time time' e live left) =
      length-append before (_ ∷ after) ∙ sym (length-append before (t ∷ after)) ∙ ap length (sym e)

  pub length-Reach : {s t : Joint} → Reach operations s t → length t.threads ≡ length s.threads
  length-Reach start = refl
  length-Reach (next path step) = length-Step step ∙ length-Reach path

  started_thread-IsAlong :
      (i : ℕ) (db : Database) (store : Store) (reached : Bool)
      → IsAlong operations i (started_thread db reached) store
  unfolding connect
  started_thread-IsAlong i db store true = record {
    idle = inr (λ e. cc, (db, 0, refl));
    holds = λ j lt. absurd (omega arith);
    within = omega arith;
  }
  started_thread-IsAlong i db store false = record {
    idle = inl (refl, refl);
    holds = λ j lt. absurd (omega arith);
    within = omega arith;
  }

  started-IsAlong :
      (k i : ℕ) (db : Database) (store : Store) (reached : List Bool) (t : Thread)
      → nth i (map (started_thread db) reached) ≡ some t
      → IsAlong operations k t store
  started-IsAlong k i db store [] t e = absurd cc
  started-IsAlong k zero db store (r ∷ reached) t e =
      subst (λ u. IsAlong operations k u store) (some-injective e)
        (started_thread-IsAlong k db store r)
  started-IsAlong k (suc i) db store (r ∷ reached) t e = started-IsAlong k i db store reached t e

  round-started : (db : Database) (reached : Bool) → (started_thread db reached).round ≡ 0
  unfolding connect
  round-started db true = refl
  round-started db false = refl

  total_rounds-started :
      (db : Database) (reached : List Bool) → total_rounds (map (started_thread db) reached) ≡ 0
  unfolding total_rounds
  total_rounds-started db [] = refl
  total_rounds-started db (r ∷ reached) =
      omega (arith, round-started db r, total_rounds-started db reached)

  started-IsJoint :
      (reached : List Bool) {db : Database} {rs : List WalRecord}
      → IsServing db rs
      → IsJoint operations (started db reached)
  started-IsJoint reached {db} v = record {
    db = db;
    rs = _;
    serving = v;
    database_eq = refl;
    each = λ i t e. started-IsAlong i i db (view db) reached t e;
    counts_eq = ap (λ k. counted k no_counts) {x = 0} (sym (total_rounds-started db reached));
  }

  -- Let the benchmark start threads of fewer than 2^64 rounds, fewer than 2^64 of them, on a
  -- server whose database serves. In every state that they reach, however their calls of `put` and
  -- `get` follow each other, over connections that lose nothing, at times of 64 bits and with a
  -- device that takes what it is given: the server's database still serves; every thread has no
  -- connection and no round behind it, or an idle connection; every key that a thread has written
  -- holds its value; and the two counters are those of as many successful operations, and no
  -- others, as rounds have ended, on 32 bits.
  pub Reach-IsJoint :
      (reached : List Bool) {db : Database} {rs : List WalRecord} {s : Joint}
      → length reached < 2 ^ 64
      → IsServing db rs
      → Reach operations (started db reached) s
      → IsJoint operations s
  Reach-IsJoint reached small v start = started-IsJoint reached v
  Reach-IsJoint reached {db} small v (next path step) =
      let same = length-Reach path in
      let size = length-started db reached in
      Step-IsJoint (omega (arith, same, size)) step (Reach-IsJoint reached small v path)
