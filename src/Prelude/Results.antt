-- ===== src/Prelude/Results.antt =====
-- What a call can do besides returning a value.
use mathlib.Core.List.{List}
use Prim.Native.Nat.{ℕ}
use Prim.Native.Char.{code}
use Prim.Native.String.{String}
use mathlib.Core.List.{[], ◌∷◌}

-- The contents of a `std::string` or of a `std::vector<uint8_t>`: its bytes.
abbrev pub Bytes : Type 0
Bytes = List ℕ

-- A string literal of the source (they are all ASCII).
abbrev pub text : String → Bytes
text String.[] = []
text (String.◌∷◌ c s) = code c ∷ text s

-- A call that may throw a `std::exception`, with its `what()`.
pub data Result {ℓ} (A : Type ℓ) : Type ℓ where
  ok : A → Result A
  throw : Bytes → Result A

-- A call that may wait forever for a lock.
pub data Outcome {ℓ} (A : Type ℓ) : Type ℓ where
  returns : A → Outcome A
  deadlock : Outcome A
