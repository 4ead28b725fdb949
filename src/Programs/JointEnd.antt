-- ===== src/Programs/JointEnd.antt =====
-- How long the threads of the benchmark run, and when they have returned.
use mathlib.Core.Path.{subst}
use native.Mathlib.Nat.{add-mul, eq-or-lt_of_le}
use custom_database.Prelude.{
  ℕ, zero, suc, ◌+◌, ◌*◌, ◌^◌, ◌≤◌, ◌<◌, ◌≡◌, ◌≢◌, ◌⊎◌, inl, inr, refl, ap, arith, Bool, some, List,
  [], ◌∷◌, ◌++◌, length,
}
use custom_database.Wal.Record.{WalRecord}
use custom_database.Database.State.{Database}
use custom_database.Client.Call.{Client}
use custom_database.Client.Link.{Link}
use custom_database.Server.Spec.{Store}
use custom_database.Server.Refinement.{IsServing}
use custom_database.Programs.Joint.{
  Stage, writing, reading, ended, Thread, Joint, Step, call, started, Reach, start, next,
}
use custom_database.Programs.JointLaws.{calls_made, IsAlong}
use custom_database.Programs.JointReach.{Reach-IsJoint}
use custom_database.Programs.Threads.{total_rounds}
use custom_database.Prelude.{nth, some-injective}
use custom_database.Programs.JointCalls.{
  total_calls, is_live, is_live_lem, connections, count_true, steps, total_calls-Reach,
  connections-Reach,
}

-- What an invariant bounds of a thread.
pub IsWithin : ℕ → Thread → Type 0
IsWithin operations t =
    (t.round ≤ operations)
    × (calls_made t.stage t.round ≤ is_live t.stage * (operations + operations))

IsAlong-IsWithin :
    {operations i : ℕ} {store : Store} (stage : Stage) {round : ℕ} {c : Client Link}
    → IsAlong operations i (record { stage = stage; round = round; client = c }) store
    → IsWithin operations (record { stage = stage; round = round; client = c })
unfolding IsWithin is_live
IsAlong-IsWithin writing v = (v.within, omega (arith, v.within))
IsAlong-IsWithin reading v = (omega (arith, v.within), omega (arith, v.within))
IsAlong-IsWithin ended v = elim v.idle [
  | inl (over, none_done) ↦ (v.within, omega (arith, none_done))
  | inr (live, idle) ↦ absurd (live refl)
]

-- Every thread has returned: it has done its rounds, or it has no connection.
abbrev pub IsOver : ℕ → List Thread → Type 0
IsOver operations ts =
    (i : ℕ) (t : Thread) → nth i ts ≡ some t → (t.stage ≡ ended) ⊎ (t.round ≡ operations)

-- A thread that has rounds left.
record IsUnfinished (operations : ℕ) (ts : List Thread) : Type 0 where
  before : List Thread
  thread : Thread
  after : List Thread
  threads_eq : ts ≡ before ++ (thread ∷ after)
  live : thread.stage ≢ ended
  left : thread.round < operations

Stage-cases : (stage : Stage) → (stage ≡ ended) ⊎ (stage ≢ ended)
Stage-cases writing = inr (λ e. cc)
Stage-cases reading = inr (λ e. cc)
Stage-cases ended = inl refl

module _ (operations : ℕ) where
  total_calls_bound :
      (ts : List Thread)
      → ((i : ℕ) (t : Thread) → nth i ts ≡ some t → IsWithin operations t)
      → total_calls ts ≤ connections ts * (operations + operations)
  unfolding total_calls connections IsWithin
  total_calls_bound [] within = omega arith
  total_calls_bound (t ∷ ts) within =
      let rest = total_calls_bound ts (λ i. within (suc i)) in
      let first = (within 0 t refl).1 in
      let split = add-mul (is_live t.stage) (connections ts) (operations + operations) in
      omega (arith, rest, first, split)

  IsOver-cons :
      (t : Thread) (ts : List Thread)
      → (t.stage ≡ ended) ⊎ (t.round ≡ operations)
      → IsOver operations ts
      → IsOver operations (t ∷ ts)
  IsOver-cons t ts done over zero u e =
      subst (λ u. (u.stage ≡ ended) ⊎ (u.round ≡ operations)) (some-injective e) done
  IsOver-cons t ts done over (suc i) u e = over i u e

  first-cases :
      (t : Thread)
      → t.round ≤ operations
      → ((t.stage ≡ ended) ⊎ (t.round ≡ operations)) ⊎ ((t.stage ≢ ended) × (t.round < operations))
  first-cases t le = elim (Stage-cases t.stage) [
    | inl over ↦ inl (inl over)
    | inr live ↦ elim (eq-or-lt_of_le le) [ inl eq ↦ inl (inr eq) | inr lt ↦ inr (live, lt) ]
  ]

  IsOver-cases :
      (ts : List Thread)
      → ((i : ℕ) (t : Thread) → nth i ts ≡ some t → IsWithin operations t)
      → IsOver operations ts ⊎ IsUnfinished operations ts
  unfolding IsWithin
  IsOver-cases [] within = inl (λ i t e. absurd cc)
  IsOver-cases (t ∷ ts) within = elim (IsOver-cases ts (λ i. within (suc i))) [
    | inl over ↦ elim (first-cases t (within 0 t refl).0) [
      | inl done ↦ inl (IsOver-cons t ts done over)
      | inr (live, left) ↦ inr (record {
        before = [];
        thread = t;
        after = ts;
        threads_eq = refl;
        live = live;
        left = left;
      })
    ]
    | inr u ↦ inr (record {
      before = t ∷ u.before;
      thread = u.thread;
      after = u.after;
      threads_eq = ap (λ ts. t ∷ ts) u.threads_eq;
      live = u.live;
      left = u.left;
    })
  ]

  rounds-over :
      (t : Thread)
      → IsWithin operations t
      → (t.stage ≡ ended) ⊎ (t.round ≡ operations)
      → t.round ≡ is_live t.stage * operations
  unfolding IsWithin is_live
  rounds-over t within over = elim (Stage-cases t.stage) [
    | inl dead ↦
        let none_live : is_live t.stage ≡ 0 = ap is_live dead in
        let made : calls_made t.stage t.round ≤ 0 * (operations + operations) =
          subst (λ n. calls_made t.stage t.round ≤ n * (operations + operations)) none_live
            within.1 in
        rw none_live (omega (arith, made))
    | inr live ↦ elim over [
      | inl dead ↦ absurd (live dead)
      | inr done ↦ rw (is_live_lem t.stage live) (omega (arith, done))
    ]
  ]

  -- Once the threads have returned, the rounds are those of the threads with a connection.
  pub total_rounds-IsOver :
      (ts : List Thread)
      → ((i : ℕ) (t : Thread) → nth i ts ≡ some t → IsWithin operations t)
      → IsOver operations ts
      → total_rounds ts ≡ connections ts * operations
  unfolding total_rounds connections IsWithin
  total_rounds-IsOver [] within over = omega arith
  total_rounds-IsOver (t ∷ ts) within over =
      let rest = total_rounds-IsOver ts (λ i. within (suc i)) (λ i. over (suc i)) in
      let first : t.round ≡ is_live t.stage * operations =
        rounds-over t (within 0 t refl) (over 0 t refl) in
      omega (arith, rest, first, add-mul (is_live t.stage) (connections ts) operations)

module _ (operations : ℕ) (few : operations < 2 ^ 64) (reached : List Bool)
    (many : length reached < 2 ^ 64) {db : Database} {rs : List WalRecord} (v : IsServing db rs)
    {s : Joint} (path : Reach operations (started db reached) s) where
  pub each-IsWithin : (i : ℕ) (t : Thread) → nth i s.threads ≡ some t → IsWithin operations t
  each-IsWithin i t e =
      IsAlong-IsWithin t.stage ((Reach-IsJoint operations few reached many v path).each i t e)

  -- In every state that the threads of the benchmark reach, under the conditions of fewer than
  -- 2^64 rounds each, fewer than 2^64 threads and a database that serves at their start: they have
  -- made at most two steps for each round of each thread that could connect, and all of them have
  -- returned or one of them can make another step.
  pub joint_ends :
      (steps path ≤ count_true reached * (operations + operations))
      × (IsOver operations s.threads ⊎ ((t : Joint) × Step operations s t))
  joint_ends =
      let bound = total_calls_bound operations s.threads each-IsWithin in
      let made = total_calls-Reach operations few reached many v path in
      let same = connections-Reach operations few reached many v path in
      (
        subst (λ k. steps path ≤ k * (operations + operations)) same
            (subst (λ n. n ≤ connections s.threads * (operations + operations)) made bound),
        elim (IsOver-cases operations s.threads each-IsWithin) [
          | inl over ↦ inl over
          | inr u ↦ inr (
            _,
            call 0 0 u.before u.after u.thread (omega arith) (omega arith) u.threads_eq u.live
                u.left,
          )
        ],
      )

module _ (operations : ℕ) (few : operations < 2 ^ 64) (reached : List Bool)
    (many : length reached < 2 ^ 64) {db : Database} {rs : List WalRecord}
    (v : IsServing db rs) where
  finish :
      (fuel : ℕ) {s : Joint} (path : Reach operations (started db reached) s)
      → count_true reached * (operations + operations) < steps path + fuel
      → (t : Joint) × Reach operations (started db reached) t × IsOver operations t.threads
  unfolding steps
  finish zero path enough =
      absurd (omega (arith, (joint_ends operations few reached many v path).0))
  finish (suc fuel) {s} path enough = elim (joint_ends operations few reached many v path).1 [
    | inl over ↦ (s, path, over)
    | inr (t, step) ↦ finish fuel (next path step) (omega arith)
  ]

  pub joint_finishes :
      (t : Joint) × Reach operations (started db reached) t × IsOver operations t.threads
  joint_finishes = finish (suc (count_true reached * (operations + operations))) start (omega arith)
