-- ===== src/Bytes/Fields.antt =====
-- Fields at fixed offsets of a byte string, read as integers and written back.
use custom_database.Prelude.{
  ℕ, zero, suc, ◌+◌, ◌^◌, ◌≤◌, ◌<◌, ◌≡◌, refl, arith, List, [], ◌∷◌, ◌++◌, Bytes, length, take,
  drop, All, get_or, take-add, drop-add, length-take, length-drop,
}
use custom_database.Bytes.Words.{word, read_word, IsByte, word-of_word, of_word-lt}

pub All-take {ℓ κ} :
    {A : Type ℓ} (P : A → Type κ) (n : ℕ) (xs : List A) → All P xs → All P (take n xs)
All-take P zero xs h = tt
All-take P (suc n) [] h = tt
All-take P (suc n) (x ∷ xs) h = (h.0, All-take P n xs h.1)

pub All-drop {ℓ κ} :
    {A : Type ℓ} (P : A → Type κ) (n : ℕ) (xs : List A) → All P xs → All P (drop n xs)
All-drop P zero xs h = h
All-drop P (suc n) [] h = tt
All-drop P (suc n) (x ∷ xs) h = All-drop P n xs h.1

-- What a field of a long enough string holds is written back as the bytes that stand there.
module _ (w offset : ℕ) (bs : Bytes) (bytes : All IsByte bs) (long : offset + w ≤ length bs) where
  length-field : length (take w (drop offset bs)) ≡ w
  length-field = length-take w (drop offset bs) (omega (arith, length-drop offset bs))

  field-IsByte : All IsByte (take w (drop offset bs))
  field-IsByte = All-take IsByte w (drop offset bs) (All-drop IsByte offset bs bytes)

  pub word-read_word : word w (read_word w offset bs) ≡ take w (drop offset bs)
  unfolding read_word
  word-read_word = rw length-field at (word-of_word (take w (drop offset bs)) field-IsByte)

  pub read_word-lt : read_word w offset bs < 256 ^ w
  unfolding read_word
  read_word-lt = rw length-field at (of_word-lt (take w (drop offset bs)) field-IsByte)

pub first_byte : (bs : Bytes) → 1 ≤ length bs → get_or bs 0 0 ∷ [] ≡ take 1 bs
first_byte [] h = elim h [ ]
first_byte (b ∷ bs) h = refl

pub first_byte-lt : (bs : Bytes) → All IsByte bs → get_or bs 0 0 < 256
first_byte-lt [] h = omega arith
first_byte-lt (b ∷ bs) h = h.0

-- Two fields that follow one another.
pub cut :
    (offset m n : ℕ) (bs : Bytes)
    → take (m + n) (drop offset bs) ≡ take m (drop offset bs) ++ take n (drop (offset + m) bs)
cut offset m n bs = rw (drop-add offset m bs) (take-add m n (drop offset bs))
