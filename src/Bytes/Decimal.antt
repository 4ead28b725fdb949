-- ===== src/Bytes/Decimal.antt =====
-- `std::to_string` of an unsigned integer.
use native.Mathlib.Nat.{pow-suc}
use mathlib.Core.List.{head-eq_of_cons-eq, tail-eq_of_cons-eq}
use custom_database.Prelude.{
  All, All-append, ℕ, zero, suc, ◌+◌, ◌-◌, ◌*◌, ◌/◌, ◌%◌, ◌^◌, ◌<◌, ◌≤◌, length, length-append, ◌≡◌,
  refl, sym, ap, ◌∙◌, arith, [], ◌∷◌, ◌++◌, Bytes, ltb, if◌then◌else◌, Bool-cases, inl, inr,
}

-- The decimal digits, at most as many as the fuel.
unfoldable pub digits : ℕ → ℕ → Bytes
digits zero n = []
digits (suc f) n =
    let front = digits f (n / 10) in
    if ltb n 10 then (48 + n) ∷ [] else front ++ ((48 + n % 10) ∷ [])

-- A uint64_t has at most 20 digits.
unfoldable pub to_string : ℕ → Bytes
unfolding digits
to_string n = digits 20 n

length-digits : (f n : ℕ) → length (digits f n) ≤ f
unfolding digits
length-digits zero n = omega arith
length-digits (suc f) n =
    ground (arith, length-digits f (n / 10), length-append (digits f (n / 10)) ((48 + n % 10) ∷ []))

pub length-to_string : (n : ℕ) → length (to_string n) ≤ 20
unfolding to_string
length-to_string n = length-digits 20 n

-- The number that a string of digits stands for.
unfoldable pub value_from : ℕ → Bytes → ℕ
value_from acc [] = acc
value_from acc (c ∷ cs) = value_from (10 * acc + (c - 48)) cs

value_from-append :
    (acc : ℕ) (xs : Bytes) (c : ℕ)
    → value_from acc (xs ++ (c ∷ [])) ≡ 10 * value_from acc xs + (c - 48)
unfolding value_from
value_from-append acc [] c = refl
value_from-append acc (x ∷ xs) c = value_from-append (10 * acc + (x - 48)) xs c

value_from-digits : (f n : ℕ) → n < 10 ^ f → value_from 0 (digits f n) ≡ n
unfolding digits value_from
value_from-digits zero n h = omega arith
value_from-digits (suc f) n h = elim (Bool-cases (ltb n 10)) [
  | inl small ↦ rw small (omega arith)
  | inr large ↦ rw large (
      value_from-append 0 (digits f (n / 10)) (48 + n % 10)
      ∙ omega (arith, value_from-digits f (n / 10) (omega (arith, pow-suc 10 f))))
]

pub value_from-to_string : (n : ℕ) → n < 2 ^ 64 → value_from 0 (to_string n) ≡ n
unfolding to_string
value_from-to_string n h = value_from-digits 20 n (omega arith)

pub to_string-injective : (m n : ℕ) → m < 2 ^ 64 → n < 2 ^ 64 → to_string m ≡ to_string n → m ≡ n
to_string-injective m n hm hn e =
    sym (value_from-to_string m hm) ∙ ap (value_from 0) e ∙ value_from-to_string n hn

abbrev pub IsDigit : ℕ → Type 0
IsDigit c = c < 58

digits-IsDigit : (f n : ℕ) → All IsDigit (digits f n)
unfolding digits
digits-IsDigit zero n = tt
digits-IsDigit (suc f) n = elim (Bool-cases (ltb n 10)) [
  | inl small ↦ rw small (ground arith, tt)
  | inr large ↦ rw large (
      All-append IsDigit (digits f (n / 10)) (48 + n % 10) (digits-IsDigit f (n / 10))
        (omega arith))
]

pub to_string-IsDigit : (n : ℕ) → All IsDigit (to_string n)
unfolding to_string
to_string-IsDigit n = digits-IsDigit 20 n

-- Digits up to a byte that is no digit.
pub digits_end :
    (xs ys rest rest' : Bytes) (stop : ℕ)
    → 58 ≤ stop
    → All IsDigit xs
    → All IsDigit ys
    → xs ++ (stop ∷ rest) ≡ ys ++ (stop ∷ rest')
    → (xs ≡ ys) × (rest ≡ rest')
digits_end [] [] rest rest' stop large hx hy e = (refl, tail-eq_of_cons-eq e)
digits_end [] (y ∷ ys) rest rest' stop large hx (hy, hys) e =
    absurd (omega (arith, head-eq_of_cons-eq e))
digits_end (x ∷ xs) [] rest rest' stop large (hx, hxs) hy e =
    absurd (omega (arith, head-eq_of_cons-eq e))
digits_end (x ∷ xs) (y ∷ ys) rest rest' stop large (hx, hxs) (hy, hys) e =
    let (front, back) = digits_end xs ys rest rest' stop large hxs hys (tail-eq_of_cons-eq e) in
    ((λ i. head-eq_of_cons-eq e i ∷ front i), back)
