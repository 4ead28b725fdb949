-- ===== src/Client/Scan.antt =====
-- How `DatabaseClient::scan` reads the text of a scan response, in src/network/client.cpp.
use custom_database.Prelude.{
  ℕ, zero, suc, ◌+◌, ◌-◌, none, some, List, [], ◌∷◌, ◌++◌, Bytes, text, length, leb, if◌then◌else◌,
}
use custom_database.Bytes.Find.{find, substr}
use custom_database.Table.{Entry}

abbrev pub key_mark : Bytes
key_mark = text "{\"key\":\""

abbrev pub value_mark : Bytes
value_mark = text "\"value\":\""

abbrev pub quote : Bytes
quote = text "\""

-- The `while` loop, from a position on.
unfoldable pub parse_loop : ℕ → Bytes → ℕ → ℕ → List Entry → List Entry
parse_loop zero json limit pos results = results
parse_loop (suc fuel) json limit pos results = elim (find key_mark json pos) [
  | none ↦ results
  | some mark ↦
      let key_start = mark + 8 in
      (elim (find quote json key_start) [
        | none ↦ results
        | some key_end ↦
            let key = substr json key_start (key_end - key_start) in
            (elim (find value_mark json key_end) [
              | none ↦ results
              | some mark' ↦
                  let value_start = mark' + 9 in
                  (elim (find quote json value_start) [
                    | none ↦ results
                    | some value_end ↦
                        let value = substr json value_start (value_end - value_start) in
                        let results' = results ++ ((key, value) ∷ []) in
                        let more = parse_loop fuel json limit value_end results' in
                        if leb limit (length results') then results' else more
                  ])
            ])
      ])
]

-- The position moves on by more than one in each round, so this fuel is enough.
unfoldable pub parse_results : ℕ → Bytes → List Entry
unfolding parse_loop
parse_results limit json = parse_loop (suc (length json)) json limit 0 []
