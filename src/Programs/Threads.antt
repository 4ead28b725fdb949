-- ===== src/Programs/Threads.antt =====
-- The list of the benchmark's threads: the rounds that have ended.
use custom_database.Prelude.{ℕ, ◌+◌, ◌≡◌, arith, List, [], ◌∷◌, ◌++◌}
use custom_database.Programs.Joint.{Thread}

-- The rounds that have ended.
unfoldable pub total_rounds : List Thread → ℕ
total_rounds [] = 0
total_rounds (t ∷ ts) = t.round + total_rounds ts

pub total_rounds_at :
    (before after : List Thread) (t : Thread)
    → total_rounds (before ++ (t ∷ after)) ≡ total_rounds before + total_rounds after + t.round
unfolding total_rounds
total_rounds_at [] after t = omega arith
total_rounds_at (u ∷ before) after t = omega (arith, total_rounds_at before after t)
