-- ===== src/Examples/Joint.antt =====
-- Two threads of the benchmark whose calls interleave, at a concrete input.
use custom_database.Prelude.{
  ◌+◌, ◌*◌, ◌≤◌, ◌<◌, ◌^◌, ◌⊎◌, refl, arith, Bool, true, false, List, [], ◌∷◌,
}
use custom_database.Server.Refinement.{taking}
use custom_database.Programs.Joint.{
  Thread, Joint, started_thread, started, after_call, Step, call, Reach, start, next,
}
use custom_database.Client.Call.{connect}
use custom_database.Programs.JointReach.{IsJoint, Reach-IsJoint}
use custom_database.Programs.JointCalls.{count_true, steps}
use custom_database.Programs.JointEnd.{IsOver, joint_ends, joint_finishes}
use custom_database.Examples.Data.{empty_database}
use custom_database.Examples.Programs.{empty_database-IsServing}

-- Two clients that could connect and, between them, one that could not.
abbrev reached : List Bool
reached = true ∷ false ∷ true ∷ []

abbrev at_start : Joint
at_start = started empty_database reached

abbrev here : Thread
here = started_thread empty_database true

abbrev dead : Thread
dead = started_thread empty_database false

behind_first : List Thread → List Thread
behind_first [] = []
behind_first (t ∷ ts) = ts

-- The third thread writes its key, then the first one.
abbrev one : Joint
one = after_call (taking 7 8) (here ∷ dead ∷ []) here [] at_start

abbrev two : Joint
two = after_call (taking 9 9) [] here (behind_first one.threads) one

interleaved : Reach 1 at_start two
unfolding connect after_call behind_first
interleaved =
    next
      (next start (
        call 7 8 (here ∷ dead ∷ []) [] here (omega arith) (omega arith) refl (λ e. cc)
          (omega arith)))
      (call 9 9 [] (behind_first one.threads) here (omega arith) (omega arith) refl (λ e. cc)
        (omega arith))

Reach-IsJoint_example : IsJoint 1 two
Reach-IsJoint_example =
    Reach-IsJoint 1 (omega arith) reached (omega arith) empty_database-IsServing interleaved

joint_ends_example :
    (steps interleaved ≤ count_true reached * (1 + 1))
    × (IsOver 1 two.threads ⊎ ((t : Joint) × Step 1 two t))
joint_ends_example =
    joint_ends 1 (omega arith) reached (omega arith) empty_database-IsServing interleaved

-- A run in which every thread has returned.
abbrev finished : (t : Joint) × Reach 1 at_start t × IsOver 1 t.threads
finished = joint_finishes 1 (omega arith) reached (omega arith) empty_database-IsServing

few_rounds : count_true reached * 1 < 2 ^ 31
unfolding count_true
few_rounds = omega arith
