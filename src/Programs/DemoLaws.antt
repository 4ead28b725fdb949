-- ===== src/Programs/DemoLaws.antt =====
-- The loops of the demonstration.
use custom_database.Prelude.{
  ℕ, zero, suc, ◌+◌, ◌^◌, ◌≤◌, ◌<◌, ◌≡◌, ◌≢◌, refl, ap, ◌∙◌, arith, false, none, some, List, [],
  ◌∷◌, Bytes, text, length, append_cancel_left, ◌==◌, Bool-cases, inl, inr,
}
use custom_database.Bytes.Order.{str_eq, str_eq_iff, str_eq_refl}
use custom_database.Bytes.Decimal.{to_string-injective}
use custom_database.Table.{Table, find, set}
use custom_database.Table.Laws.{find-set}
use custom_database.Programs.Demo.{
  Database, new_database, put, get, size, insert_samples, key_name, value_name, write_loop,
  read_loop,
}

key_name-ne : (i j : ℕ) → i < 2 ^ 64 → j < 2 ^ 64 → i ≢ j → str_eq (key_name i) (key_name j) ≡ false
key_name-ne i j hi hj ne = elim (Bool-cases (str_eq (key_name i) (key_name j))) [
  | inl same ↦ absurd (
      ne (
        to_string-injective i j hi hj (append_cancel_left (text "key_") ((str_eq_iff _ _).0 same))))
  | inr differ ↦ differ
]

-- The loop changes no lookup of a key that it does not write.
find-write_loop_ne :
    (rounds i : ℕ) (k : Bytes) (db : Database)
    → ((j : ℕ) → i ≤ j → j < i + rounds → str_eq (key_name j) k ≡ false)
    → find k (write_loop rounds i db).entries ≡ find k db.entries
unfolding write_loop
find-write_loop_ne zero i k db other = refl
find-write_loop_ne (suc rounds) i k db other =
    find-write_loop_ne rounds (i + 1) k _ (λ j le lt. other j (omega arith) (omega arith))
    ∙ find-set (key_name i) k (value_name i) db.entries
    ∙ rw (other i (omega arith) (omega arith)) refl

find-write_loop :
    (rounds i j : ℕ) (db : Database)
    → i + rounds ≤ 2 ^ 64
    → i ≤ j
    → j < i + rounds
    → find (key_name j) (write_loop rounds i db).entries ≡ some (value_name j)
unfolding write_loop put
find-write_loop zero i j db small le lt = absurd (omega arith)
find-write_loop (suc rounds) i j db small le lt =
    let db' = (put (key_name i) (value_name i) db).0 in
    elim (Bool-cases (i == j)) [
      | inl same ↦
          let e : i ≡ j = ground arith in
          rw (← e) (
            find-write_loop_ne rounds (i + 1) (key_name i) db'
              (λ n le' lt'. key_name-ne n i (omega arith) (omega arith) (omega arith))
            ∙ find-set (key_name i) (key_name i) (value_name i) db.entries
            ∙ rw (str_eq_refl (key_name i)) refl)
      | inr differ ↦ find-write_loop rounds (i + 1) j db' (omega arith) (ground arith) (omega arith)
    ]

size-set : (k v : Bytes) (m : Table) → find k m ≡ none → length (set k v m) ≡ length m + 1
unfolding set find
size-set k v [] h = refl
size-set k v ((j, w) ∷ m) h = ground (arith, size-set k v m)

size-write_loop :
    (rounds i : ℕ) (db : Database)
    → i + rounds ≤ 2 ^ 64
    → ((j : ℕ) → i ≤ j → j < i + rounds → find (key_name j) db.entries ≡ none)
    → size (write_loop rounds i db) ≡ size db + rounds
unfolding write_loop size put
size-write_loop zero i db small fresh = omega arith
size-write_loop (suc rounds) i db small fresh =
    let db' = (put (key_name i) (value_name i) db).0 in
    omega (
      arith,
      size-write_loop rounds (i + 1) db' (omega arith) (λ j le lt.
          find-set (key_name i) (key_name j) (value_name i) db.entries
          ∙ rw (key_name-ne i j (omega arith) (omega arith) (omega arith))
              (fresh j (omega arith) (omega arith))),
      size-set (key_name i) (value_name i) db.entries (fresh i (omega arith) (omega arith)),
    )

key_name-fresh : (j : ℕ) → find (key_name j) (insert_samples new_database).entries ≡ none
unfolding insert_samples find set str_eq
key_name-fresh j = refl

size-samples : size (insert_samples new_database) ≡ 4
unfolding size insert_samples set str_eq
size-samples = refl

-- The values that the loop of reads has to return.
unfoldable pub values_from : ℕ → ℕ → List Bytes
values_from zero i = []
values_from (suc rounds) i = value_name i ∷ values_from rounds (i + 1)

get-found : (k : Bytes) {v : Bytes} (db : Database) → find k db.entries ≡ some v → get k db ≡ v
unfolding get
get-found k db e = rw (e, get)

read_loop-found :
    (rounds i : ℕ) (db : Database)
    → ((j : ℕ) → i ≤ j → j < i + rounds → find (key_name j) db.entries ≡ some (value_name j))
    → read_loop rounds i db ≡ values_from rounds i
unfolding read_loop values_from
read_loop-found zero i db h = refl
read_loop-found (suc rounds) i db h =
    ap (λ v. v ∷ read_loop rounds (i + 1) db)
      (get-found (key_name i) db (h i (omega arith) (omega arith)))
    ∙ ap (λ l. value_name i ∷ l)
        (read_loop-found rounds (i + 1) db (λ j le lt. h j (omega arith) (omega arith)))

-- However many rounds the loops of the demonstration have, up to the largest `int`: `size` counts
-- the four samples and one entry for each round, and the reads return what was written, in order.
pub demo_loops :
    (rounds : ℕ)
    → rounds < 2 ^ 31
    → let db = write_loop rounds 0 (insert_samples new_database) in
      (size db ≡ 4 + rounds) × (read_loop rounds 0 db ≡ values_from rounds 0)
demo_loops rounds small =
    let db = insert_samples new_database in
    (
      omega (
        arith,
        size-write_loop rounds 0 db (omega arith) (λ j le lt. key_name-fresh j),
        size-samples,
      ),
      read_loop-found rounds 0 (write_loop rounds 0 db)
          (λ j le lt. find-write_loop rounds 0 j db (omega arith) (omega arith) lt),
    )
