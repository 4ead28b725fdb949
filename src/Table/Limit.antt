-- ===== src/Table/Limit.antt =====
-- Results that are collected one by one until their number reaches a limit.
use custom_database.Prelude.{
  ℕ, suc, ◌+◌, ◌-◌, ◌≡◌, sym, ◌∙◌, arith, List, [], ◌∷◌, ◌++◌, append_assoc, append-nil, length,
  length-append, take, leb, if◌then◌else◌, Bool-cases, inl, inr,
}
use custom_database.Table.{Entry}

-- The limit is looked at behind each result, so that one result is kept in any case.
unfoldable pub collect : ℕ → List Entry → List Entry → List Entry
collect limit results [] = results
collect limit results (e ∷ es) =
    let results' = results ++ (e ∷ []) in
    let more = collect limit results' es in if leb limit (length results') then results' else more

pub collect-take :
    (limit : ℕ) (results es : List Entry)
    → collect limit results es ≡ results ++ take (suc (limit - (length results + 1))) es
unfolding collect
collect-take limit results [] = sym (append-nil results)
collect-take limit results (e ∷ es) =
    let r = results ++ (e ∷ []) in
    let len : length r ≡ length results + 1 = omega (arith, length-append results (e ∷ [])) in
    elim (Bool-cases (leb limit (length r))) [
      | inl full ↦
          let none_left : limit - (length results + 1) ≡ 0 = ground arith in rw (full, none_left)
      | inr more ↦
          let left : suc (limit - (length r + 1)) ≡ limit - (length results + 1) = ground arith in
          rw more (
            collect-take limit r es
            ∙ rw left (append_assoc results (e ∷ []) (take (limit - (length results + 1)) es)))
    ]
