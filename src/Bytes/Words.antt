-- ===== src/Bytes/Words.antt =====
-- `std::memcpy` between an unsigned integer and its bytes, on a little-endian machine (the wire and
-- log formats of the source are those of the host).
use native.Mathlib.Nat.{pow-suc}
use custom_database.Prelude.{
  ℕ, zero, suc, ◌+◌, ◌*◌, ◌/◌, ◌%◌, ◌^◌, ◌<◌, ◌≡◌, refl, sym, ap, arith, [], ◌∷◌, ◌++◌, Bytes,
  length, take, drop, All, take-append_at, drop-append_at,
}

-- The low `w` bytes of `n`, the lowest first.
unfoldable pub word : ℕ → ℕ → Bytes
word zero n = []
word (suc w) n = (n % 256) ∷ word w (n / 256)

unfoldable pub of_word : Bytes → ℕ
of_word [] = 0
of_word (b ∷ bs) = b + 256 * of_word bs

-- `std::memcpy(&x, &data[offset], w)`.
unfoldable pub read_word : ℕ → ℕ → Bytes → ℕ
read_word w offset bytes = of_word (take w (drop offset bytes))

abbrev pub IsByte : ℕ → Type 0
IsByte b = b < 256

pub length-word : (w n : ℕ) → length (word w n) ≡ w
unfolding word
length-word zero n = refl
length-word (suc w) n = ap suc (length-word w (n / 256))

pub word-IsByte : (w n : ℕ) → All IsByte (word w n)
unfolding word
word-IsByte zero n = tt
word-IsByte (suc w) n = (omega arith, word-IsByte w (n / 256))

pub of_word-word : (w n : ℕ) → n < 256 ^ w → of_word (word w n) ≡ n
unfolding word of_word
of_word-word zero n h = omega arith
of_word-word (suc w) n h =
    omega (arith, pow-suc 256 w, of_word-word w (n / 256) (omega (arith, pow-suc 256 w)))

pub of_word-lt : (bs : Bytes) → All IsByte bs → of_word bs < 256 ^ length bs
unfolding of_word
of_word-lt [] h = omega arith
of_word-lt (b ∷ bs) (hb, hbs) = omega (arith, pow-suc 256 (length bs), of_word-lt bs hbs)

pub word-of_word : (bs : Bytes) → All IsByte bs → word (length bs) (of_word bs) ≡ bs
unfolding word of_word
word-of_word [] h = refl
word-of_word (b ∷ bs) (hb, hbs) =
    let low : (b + 256 * of_word bs) % 256 ≡ b = omega arith in
    let high : (b + 256 * of_word bs) / 256 ≡ of_word bs = omega arith in
    rw (low, high, word-of_word bs hbs)

-- A field is read back wherever it stands.
pub read_word-append :
    (w offset n : ℕ) (front rest : Bytes)
    → offset ≡ length front
    → n < 256 ^ w
    → read_word w offset (front ++ (word w n ++ rest)) ≡ n
unfolding read_word
read_word-append w offset n front rest e h =
    rw (drop-append_at offset front (word w n ++ rest) e)
      (rw (take-append_at w (word w n) rest (sym (length-word w n))) (of_word-word w n h))
