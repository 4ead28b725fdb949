-- ===== src/Table.antt =====
-- `std::unordered_map<std::string, std::string>`, as its entries in the order of iteration. The
-- standard leaves that order open: here a new key comes last.
pub mod Laws
pub mod Limit
use custom_database.Prelude.{Option, none, some, List, [], ◌∷◌, Bytes, if◌then◌else◌, ℕ, length}
use custom_database.Bytes.Order.{str_eq}

abbrev pub Entry : Type 0
Entry = Bytes × Bytes

abbrev pub Table : Type 0
Table = List Entry

-- `it = m.find(key)`, and `it->second`.
unfoldable pub find : Bytes → Table → Option Bytes
find k [] = none
find k ((j, v) ∷ m) = if str_eq j k then some v else find k m

-- `m[key] = value`.
unfoldable pub set : Bytes → Bytes → Table → Table
set k v [] = (k, v) ∷ []
set k v ((j, w) ∷ m) = let rest = set k v m in if str_eq j k then (j, v) ∷ m else (j, w) ∷ rest

-- `m.erase(key)`.
unfoldable pub erase : Bytes → Table → Table
erase k [] = []
erase k ((j, w) ∷ m) = let rest = erase k m in if str_eq j k then rest else (j, w) ∷ rest

-- `m.size()`.
abbrev pub size : Table → ℕ
size m = length m
