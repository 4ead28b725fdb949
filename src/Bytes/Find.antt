-- ===== src/Bytes/Find.antt =====
-- `std::string::find` and `std::string::substr`.
use custom_database.Prelude.{
  ℕ, ◌+◌, ◌≤◌, ◌≡◌, ap, ◌∙◌, arith, Bool, true, false, ◌&&◌, Option, none, some, [], ◌∷◌, ◌++◌,
  Bytes, length, take, drop, ltb, ◌==◌, if◌then◌else◌, length-drop, drop-append_at, take-append_at,
  All, le→ltb_false, length-append,
}

unfoldable pub is_prefix : Bytes → Bytes → Bool
is_prefix [] s = true
is_prefix (p ∷ ps) [] = false
is_prefix (p ∷ ps) (c ∷ s) = (p == c) && is_prefix ps s

-- The first place in `s` where the pattern stands, counted from `i`.
unfoldable pub search_from : Bytes → Bytes → ℕ → Option ℕ
unfolding is_prefix
search_from pattern [] i = if is_prefix pattern [] then some i else none
search_from pattern (c ∷ s) i =
    let later = search_from pattern s (i + 1) in if is_prefix pattern (c ∷ s) then some i else later

-- `s.find(pattern, pos)`; none is `std::string::npos`.
unfoldable pub find : Bytes → Bytes → ℕ → Option ℕ
unfolding search_from
find pattern s pos = if ltb (length s) pos then none else search_from pattern (drop pos s) pos

-- `s.substr(pos, count)`, for a position in the string.
unfoldable pub substr : Bytes → ℕ → ℕ → Bytes
substr s pos count = take count (drop pos s)

is_prefix-length : (p s : Bytes) → is_prefix p s ≡ true → length p ≤ length s
unfolding is_prefix
is_prefix-length [] s h = omega arith
is_prefix-length (p ∷ ps) [] h = cc
is_prefix-length (p ∷ ps) (c ∷ s) h = ground (arith, is_prefix-length ps s)

search_from_bounds :
    (p s : Bytes) (i q : ℕ) → search_from p s i ≡ some q → (i ≤ q) × (q + length p ≤ i + length s)
unfolding search_from
search_from_bounds p [] i q h = ground (arith, is_prefix-length p [])
search_from_bounds p (c ∷ s) i q h =
    ground (arith, is_prefix-length p (c ∷ s), search_from_bounds p s (i + 1) q)

-- What is found lies behind the position, and within the string.
pub find_bounds :
    (p s : Bytes) (pos q : ℕ) → find p s pos ≡ some q → (pos ≤ q) × (q + length p ≤ length s)
unfolding find
find_bounds p s pos q h = ground (arith, search_from_bounds p (drop pos s) pos q, length-drop pos s)

-- Behind a front of known length, only the rest is searched.
pub find-append :
    (p front rest : Bytes) (pos : ℕ)
    → pos ≡ length front
    → find p (front ++ rest) pos ≡ search_from p rest pos
unfolding find
find-append p front rest pos e =
    rw (le→ltb_false (length (front ++ rest)) pos (omega (arith, length-append front rest)))
      (ap (λ s. search_from p s pos) (drop-append_at pos front rest e))

pub substr-append :
    (front middle rest : Bytes) (pos count : ℕ)
    → pos ≡ length front
    → count ≡ length middle
    → substr (front ++ (middle ++ rest)) pos count ≡ middle
unfolding substr
substr-append front middle rest pos count e e' =
    ap (take count) (drop-append_at pos front (middle ++ rest) e)
    ∙ take-append_at count middle rest e'

-- A byte that does not stand in the front is found behind it.
pub search_from-absent :
    (b : ℕ) (xs rest : Bytes) (i : ℕ)
    → All (λ c. (b == c) ≡ false) xs
    → search_from (b ∷ []) (xs ++ (b ∷ rest)) i ≡ some (i + length xs)
unfolding search_from
search_from-absent b [] rest i h = ground arith
search_from-absent b (x ∷ xs) rest i h = ground (arith, search_from-absent b xs rest (i + 1))
