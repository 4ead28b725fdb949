-- ===== src/Bytes/Order.antt =====
-- `operator==` and `operator<` of `std::string`: bytes are compared as unsigned characters.
use custom_database.Prelude.{
  ◌≡◌, ◌↔◌, refl, arith, Bool, true, false, ◌&&◌, [], ◌∷◌, Bytes, ltb, ◌==◌, if◌then◌else◌,
}

unfoldable pub str_eq : Bytes → Bytes → Bool
str_eq [] [] = true
str_eq [] (b ∷ bs) = false
str_eq (a ∷ as') [] = false
str_eq (a ∷ as') (b ∷ bs) = (a == b) && str_eq as' bs

unfoldable pub str_lt : Bytes → Bytes → Bool
str_lt [] [] = false
str_lt [] (b ∷ bs) = true
str_lt (a ∷ as') [] = false
str_lt (a ∷ as') (b ∷ bs) = if ltb a b then true else if ltb b a then false else str_lt as' bs

pub str_eq_refl : (a : Bytes) → str_eq a a ≡ true
unfolding str_eq
str_eq_refl [] = refl
str_eq_refl (a ∷ as') = ground (arith, str_eq_refl as')

pub str_eq→eq : (a b : Bytes) → str_eq a b ≡ true → a ≡ b
unfolding str_eq
str_eq→eq [] [] h = refl
str_eq→eq [] (b ∷ bs) h = cc
str_eq→eq (a ∷ as') [] h = cc
str_eq→eq (a ∷ as') (b ∷ bs) h = ground (arith, str_eq→eq as' bs)

pub str_eq_iff : (a b : Bytes) → (str_eq a b ≡ true) ↔ (a ≡ b)
str_eq_iff a b = (str_eq→eq a b, λ e. rw e (str_eq_refl b))

pub str_lt_irrefl : (a : Bytes) → str_lt a a ≡ false
unfolding str_lt
str_lt_irrefl [] = refl
str_lt_irrefl (a ∷ as') = ground (arith, str_lt_irrefl as')

pub str_lt_trans : (a b c : Bytes) → str_lt a b ≡ true → str_lt b c ≡ true → str_lt a c ≡ true
unfolding str_lt
str_lt_trans [] [] c h k = cc
str_lt_trans [] (b ∷ bs) [] h k = cc
str_lt_trans [] (b ∷ bs) (c ∷ cs) h k = refl
str_lt_trans (a ∷ as') [] c h k = cc
str_lt_trans (a ∷ as') (b ∷ bs) [] h k = cc
str_lt_trans (a ∷ as') (b ∷ bs) (c ∷ cs) h k = ground (arith, str_lt_trans as' bs cs)
