-- ===== src/Programs/Demo.antt =====
-- The demonstration of src/main.cpp: a `Database` of its own that is a hash map, and the steps of
-- `main`. The lines on the time that they took are left out.
use custom_database.Prelude.{
  ℕ, zero, suc, ◌+◌, Bool, true, none, some, List, [], ◌∷◌, ◌++◌, Bytes, text,
}
use custom_database.Bytes.Decimal.{to_string}
use custom_database.Table
use custom_database.Table.{Table, find, set}

pub record Database : Type 0 where
  pub entries : Table

abbrev pub new_database : Database
new_database = record { entries = [] }

unfoldable pub put : Bytes → Bytes → Database → Database × Bool
put key value db = (record { entries = set key value db.entries }, true)

unfoldable pub get : Bytes → Database → Bytes
get key db = elim (find key db.entries) [ none ↦ [] | some value ↦ value ]

unfoldable pub size : Database → ℕ
size db = Table.size db.entries

-- The four entries that `main` inserts first.
unfoldable pub insert_samples : Database → Database
unfolding put
insert_samples db =
    let db₁ = (put (text "user:1") (text "John Doe") db).0 in
    let db₂ = (put (text "user:2") (text "Jane Smith") db₁).0 in
    let db₃ = (put (text "config:version") (text "1.0.0") db₂).0 in
    (put (text "stats:visits") (text "12345") db₃).0

abbrev pub key_name : ℕ → Bytes
key_name i = text "key_" ++ to_string i

abbrev pub value_name : ℕ → Bytes
value_name i = text "value_" ++ to_string i

-- The loop that writes, from `i` on.
unfoldable pub write_loop : ℕ → ℕ → Database → Database
unfolding put
write_loop zero i db = db
write_loop (suc rounds) i db = write_loop rounds (i + 1) (put (key_name i) (value_name i) db).0

-- The loop that reads: what its calls of `get` return, and `main` ignores.
unfoldable pub read_loop : ℕ → ℕ → Database → List Bytes
unfolding get
read_loop zero i db = []
read_loop (suc rounds) i db = get (key_name i) db ∷ read_loop rounds (i + 1) db

-- What `main` prints of the data, where its loops have this many rounds (10000).
unfoldable pub main_lines : ℕ → List Bytes
unfolding insert_samples get write_loop size
main_lines rounds =
    let db = insert_samples new_database in
    (text "user:1 = " ++ get (text "user:1") db)
    ∷ (text "user:2 = " ++ get (text "user:2") db)
    ∷ (text "config:version = " ++ get (text "config:version") db)
    ∷ (text "Total entries: " ++ to_string (size (write_loop rounds 0 db)))
    ∷ []
