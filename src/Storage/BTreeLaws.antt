-- ===== src/Storage/BTreeLaws.antt =====
-- When a node is full, and when it underflows.
use custom_database.Prelude.{
  ℕ, suc, ◌+◌, ◌-◌, ◌*◌, ◌^◌, ◌<◌, ◌≡◌, arith, Bool, true, false, List, ◌∷◌, ◌++◌, length,
  length-append,
}
use custom_database.Programs.Shell.{pos}
use custom_database.Storage.BTree.{node, Children, is_full, is_underflow}

-- What is left and right of the middle key of a node that is exactly full makes nodes that do not
-- underflow, for an order of at least 1.
pub is_underflow-halves :
    {Key Value : Type 0} (n : ℕ) (leaf : Bool) (left right : List Key) (key : Key)
    (values values' : List Value) (cs cs' : Children Key Value)
    → length (left ++ (key ∷ right)) ≡ 2 * n + 1
    → length left ≡ n
    → (is_full (pos (suc n)) (node leaf (left ++ (key ∷ right)) values cs) ≡ true)
      × (is_underflow (pos (suc n)) (node leaf left values' cs') ≡ false)
      × (is_underflow (pos (suc n)) (node leaf right values' cs') ≡ false)
unfolding is_full is_underflow
is_underflow-halves n leaf left right key values values' cs cs' whole half =
    let sum = length-append left (key ∷ right) in
    (ground (arith, whole), ground (arith, half), ground (arith, whole, half, sum))

-- With an order of 0, the bounds wrap around: a node of fewer keys than these bounds underflows, and
-- is not full.
pub is_full-wrapped :
    {Key Value : Type 0} (leaf : Bool) (keys : List Key) (values : List Value)
    (cs : Children Key Value)
    → length keys < 2 ^ 64 - 1
    → (is_full (pos 0) (node leaf keys values cs) ≡ false)
      × (is_underflow (pos 0) (node leaf keys values cs) ≡ true)
unfolding is_full is_underflow
is_full-wrapped leaf keys values cs small = (ground arith, ground arith)
