-- ===== src/Table/Laws.antt =====
-- The operations of a map, their lookups and their keys.
use custom_database.Prelude.{◌≡◌, refl, none, some, [], ◌∷◌, Bytes, arith, if◌then◌else◌}
use custom_database.Bytes.Order.{str_eq, str_eq_iff}
use custom_database.Table.{Table, find, set, erase}

pub find-set :
    (k j v : Bytes) (m : Table) → find j (set k v m) ≡ (if str_eq k j then some v else find j m)
unfolding find set
find-set k j v [] = refl
find-set k j v ((i, w) ∷ m) =
    ground (arith, str_eq_iff k j, str_eq_iff i k, str_eq_iff i j, find-set k j v m)

pub find-erase :
    (k j : Bytes) (m : Table) → find j (erase k m) ≡ (if str_eq k j then none else find j m)
unfolding find erase
find-erase k j [] = ground arith
find-erase k j ((i, w) ∷ m) =
    ground (arith, str_eq_iff k j, str_eq_iff i k, str_eq_iff i j, find-erase k j m)

-- No key stands twice in the table.
abbrev pub Distinct : Table → Type 0
Distinct [] = Unit
Distinct ((k, v) ∷ m) = (find k m ≡ none) × Distinct m

pub set-Distinct : (k v : Bytes) (m : Table) → Distinct m → Distinct (set k v m)
unfolding set find
set-Distinct k v [] h = (refl, tt)
set-Distinct k v ((j, w) ∷ m) h =
    ground (arith, find-set k j v m, str_eq_iff j k, str_eq_iff k j, set-Distinct k v m)

pub erase-Distinct : (k : Bytes) (m : Table) → Distinct m → Distinct (erase k m)
unfolding erase
erase-Distinct k [] h = tt
erase-Distinct k ((j, w) ∷ m) h =
    ground (arith, find-erase k j m, str_eq_iff j k, str_eq_iff k j, erase-Distinct k m)
