-- ===== src/Storage/BTree.antt =====
-- `BTreeNode` of include/storage/btree.h. Its comparisons are between a `size_t` and an `int`, which
-- C++ converts to a `size_t`; the `int` is taken not to overflow.
use custom_database.Prelude.{ℕ, zero, suc, ◌+◌, ◌-◌, ◌*◌, ◌^◌, Bool, List, [], leb, ltb, length}
use custom_database.Programs.Shell.{ℤ, pos, negsuc}

-- The children stand behind pointers that are not null and not shared.
mutual
  pub data BTreeNode (Key Value : Type 0) : Type 0 where
    node :
        (is_leaf : Bool) (keys : List Key) (values : List Value)
        → Children Key Value
        → BTreeNode Key Value

  pub data Children (Key Value : Type 0) : Type 0 where
    none : Children Key Value
    child : BTreeNode Key Value → Children Key Value → Children Key Value

-- `BTreeNode(leaf)`.
abbrev pub new_node : {Key Value : Type 0} → Bool → BTreeNode Key Value
new_node leaf = node leaf [] [] none

-- The `size_t` of `2 * order - 1`.
unfoldable pub full_size : ℤ → ℕ
full_size (pos zero) = 2 ^ 64 - 1
full_size (pos (suc n)) = 2 * n + 1
full_size (negsuc n) = 2 ^ 64 - (2 * n + 3)

-- The `size_t` of `order - 1`.
unfoldable pub least_size : ℤ → ℕ
least_size (pos zero) = 2 ^ 64 - 1
least_size (pos (suc n)) = n
least_size (negsuc n) = 2 ^ 64 - (n + 2)

unfoldable pub is_full : {Key Value : Type 0} → ℤ → BTreeNode Key Value → Bool
unfolding full_size
is_full order (node is_leaf keys values children) = leb (full_size order) (length keys)

unfoldable pub is_underflow : {Key Value : Type 0} → ℤ → BTreeNode Key Value → Bool
unfolding least_size
is_underflow order (node is_leaf keys values children) = ltb (length keys) (least_size order)
