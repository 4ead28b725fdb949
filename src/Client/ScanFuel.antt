-- ===== src/Client/ScanFuel.antt =====
-- The fuel of the loop of the client's scan.
use custom_database.Prelude.{
  ℕ, zero, suc, ◌+◌, ◌<◌, ◌≡◌, refl, arith, none, List, Bytes, length, Option-cases, inl, inr,
  lt→ltb,
}
use custom_database.Bytes.Find.{find, find_bounds}
use custom_database.Table.{Entry}
use custom_database.Client.Scan.{key_mark, value_mark, quote, parse_loop}

find-past : (p s : Bytes) (pos : ℕ) → length s < pos → find p s pos ≡ none
unfolding find
find-past p s pos h = rw (lt→ltb (length s) pos h)

-- Behind the end of the text, the loop stops.
parse_loop-past :
    (f : ℕ) (json : Bytes) (limit pos : ℕ) (results : List Entry)
    → length json < pos
    → parse_loop f json limit pos results ≡ results
unfolding parse_loop
parse_loop-past zero json limit pos results h = refl
parse_loop-past (suc f) json limit pos results h = rw (find-past key_mark json pos h, parse_loop)

-- The loop of the client's scan ends on its own: from any position, with any fuel that together
-- with the position is more than the length of the text, it returns the same results.
pub parse_loop-fuel :
    (f g : ℕ) (json : Bytes) (limit pos : ℕ) (results : List Entry)
    → length json < f + pos
    → length json < g + pos
    → parse_loop f json limit pos results ≡ parse_loop g json limit pos results
unfolding parse_loop
parse_loop-fuel zero g json limit pos results hf hg =
    ground (arith, parse_loop-past g json limit pos results)
parse_loop-fuel (suc f) zero json limit pos results hf hg =
    parse_loop-past (suc f) json limit pos results (omega arith)
parse_loop-fuel (suc f) (suc g) json limit pos results hf hg =
    elim (Option-cases (find key_mark json pos)) [
      | inl e ↦ rw (e, parse_loop) refl
      | inr (mark, e) ↦ elim (Option-cases (find quote json (mark + 8))) [
        | inl e₁ ↦ simp (parse_loop, e, e₁)
        | inr (key_end, e₁) ↦ elim (Option-cases (find value_mark json key_end)) [
          | inl e₂ ↦ simp (parse_loop, e, e₁, e₂)
          | inr (mark', e₂) ↦ elim (Option-cases (find quote json (mark' + 9))) [
            | inl e₃ ↦ simp (parse_loop, e, e₁, e₂, e₃)
            | inr (value_end, e₃) ↦
                let b = (find_bounds key_mark json pos mark e).0 in
                let b₁ = (find_bounds quote json (mark + 8) key_end e₁).0 in
                let b₂ = (find_bounds value_mark json key_end mark' e₂).0 in
                let b₃ = (find_bounds quote json (mark' + 9) value_end e₃).0 in
                simp (parse_loop, e, e₁, e₂, e₃)
                  (rw (parse_loop-fuel f g json limit value_end _ (omega arith) (omega arith)) refl)
          ]
        ]
      ]
    ]
