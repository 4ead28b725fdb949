-- ===== src/Database/ScanOrder.antt =====
-- A scan shows the order of the hash map, which the standard leaves open. Here: two maps that differ
-- in it.
use mathlib.Core.List.{
  Mem, mem-cons, not-mem-nil, Nodup, Nodup-cons, Nodup-nil, Perm, perm_ext_iff_of_Nodup,
}
use mathlib.Core.Logic.{∥∥₁_elim}
use custom_database.Prelude.{
  ℕ, suc, ◌-◌, ◌≤◌, ◌≡◌, inl, inr, ap, sym, ◌∙◌, arith, Bool-cases, none, some, [], ◌∷◌, Bytes,
  length, take_all, if◌then◌else◌,
}
use custom_database.Bytes.Order.{str_eq, str_eq_iff}
use custom_database.Table.{Entry, Table, find}
use custom_database.Table.Laws.{Distinct}
use custom_database.Database.State.{Database}
use custom_database.Database.Transaction.{in_range, scan}
use custom_database.Database.ScanLaws.{range, scan-range, find-range}

-- An entry stands in a map with distinct keys exactly if a lookup finds it.
find-mem : (k v : Bytes) (m : Table) → Distinct m → Mem (k, v) m → find k m ≡ some v
unfolding find
find-mem k v [] d h = absurd (not-mem-nil h)
find-mem k v ((j, w) ∷ m) (fresh, d) h = ∥∥₁_elim (mem-cons.0 h) (hlevel) λ c. elim c [
  | inl e ↦ ground (arith, ap (λ (p : Entry). p.0) e, ap (λ (p : Entry). p.1) e, str_eq_iff j k)
  | inr later ↦ ground (arith, fresh, find-mem k v m d later, str_eq_iff j k)
]

mem-find : (k v : Bytes) (m : Table) → find k m ≡ some v → Mem (k, v) m
unfolding find
mem-find k v [] h = cc
mem-find k v ((j, w) ∷ m) h = elim (Bool-cases (str_eq j k)) [
  | inl same ↦
      let e : ◌≡◌ {A = Entry} (k, v) (j, w) = ground (arith, same, str_eq_iff j k) in
      mem-cons.1 ∣ inl e ∣₁
  | inr differ ↦ mem-cons.1 ∣ inr (mem-find k v m (ground (arith, differ))) ∣₁
]

Distinct-Nodup : (m : Table) → Distinct m → Nodup m
Distinct-Nodup [] d = Nodup-nil
Distinct-Nodup ((k, v) ∷ m) (fresh, d) =
    Nodup-cons.1 (λ h. cc (fresh, find-mem k v m d h), Distinct-Nodup m d)

range-Distinct :
    (start_key end_key : Bytes) (m : Table) → Distinct m → Distinct (range start_key end_key m)
unfolding range
range-Distinct start_key end_key [] d = tt
range-Distinct start_key end_key ((k, v) ∷ m) (fresh, d) =
    ground (arith, find-range start_key end_key k m, range-Distinct start_key end_key m d)

Perm-of_find :
    (m n : Table) → Distinct m → Distinct n → ((k : Bytes) → find k m ≡ find k n) → Perm m n
Perm-of_find m n dm dn same =
    (perm_ext_iff_of_Nodup (Distinct-Nodup m dm) (Distinct-Nodup n dn)).1 λ e. (
      λ h. mem-find e.0 e.1 n (sym (same e.0) ∙ find-mem e.0 e.1 m dm h),
      λ h. mem-find e.0 e.1 m (same e.0 ∙ find-mem e.0 e.1 n dn h),
    )

scan_whole :
    (start_key end_key : Bytes) (limit : ℕ) (db : Database)
    → length (range start_key end_key db.data_table) ≤ limit
    → scan start_key end_key limit db ≡ range start_key end_key db.data_table
scan_whole start_key end_key limit db few =
    scan-range start_key end_key limit db ∙ take_all (suc (limit - 1)) _ (omega arith)

-- Two databases whose maps have no key twice and in which every lookup finds the same give the
-- same results for a scan whose limit neither range exceeds, up to their order.
pub scan_order :
    (start_key end_key : Bytes) (limit : ℕ) (db db' : Database)
    → Distinct db.data_table
    → Distinct db'.data_table
    → ((k : Bytes) → find k db.data_table ≡ find k db'.data_table)
    → length (range start_key end_key db.data_table) ≤ limit
    → length (range start_key end_key db'.data_table) ≤ limit
    → Perm (scan start_key end_key limit db) (scan start_key end_key limit db')
scan_order start_key end_key limit db db' d d' same few few' =
    rw (scan_whole start_key end_key limit db few, scan_whole start_key end_key limit db' few')
      (Perm-of_find _ _ (range-Distinct start_key end_key db.data_table d)
        (range-Distinct start_key end_key db'.data_table d')
        λ k.
          find-range start_key end_key k db.data_table
          ∙ ap (λ f. if in_range start_key end_key k then f else none) (same k)
          ∙ sym (find-range start_key end_key k db'.data_table))
