-- ===== src/Programs/Names.antt =====
-- The keys of the benchmark: `client_<i>_key_<j>`.
use custom_database.Prelude.{
  ℕ, ◌^◌, ◌<◌, ◌≡◌, ◌≢◌, ◌⊎◌, inl, inr, arith, false, ◌++◌, text, append_cancel_left, Bool-cases,
}
use custom_database.Bytes.Order.{str_eq, str_eq_iff}
use custom_database.Bytes.Decimal.{to_string, to_string-injective, to_string-IsDigit, digits_end}
use custom_database.Programs.Bench.{key_name}

-- Keys of other clients or other rounds are other keys.
pub key_name-ne :
    (i j i' j' : ℕ)
    → i < 2 ^ 64
    → j < 2 ^ 64
    → i' < 2 ^ 64
    → j' < 2 ^ 64
    → (i ≢ i') ⊎ (j ≢ j')
    → str_eq (key_name i j) (key_name i' j') ≡ false
key_name-ne i j i' j' hi hj hi' hj' other =
    elim (Bool-cases (str_eq (key_name i j) (key_name i' j'))) [
      | inl same ↦
          let tails = append_cancel_left (text "client_") ((str_eq_iff _ _).0 same) in
          let (clients, rest) =
            digits_end (to_string i) (to_string i') (text "key_" ++ to_string j)
              (text "key_" ++ to_string j') b'_' (omega arith) (to_string-IsDigit i)
              (to_string-IsDigit i') tails in
          let rounds = append_cancel_left (text "key_") rest in
          absurd (elim other [
            | inl ne ↦ ne (to_string-injective i i' hi hi' clients)
            | inr ne ↦ ne (to_string-injective j j' hj hj' rounds)
          ])
      | inr differ ↦ differ
    ]
