-- ===== src/Text/Order.antt =====
-- `compareCodeUnits` is a total order on strings.
use tasc.Base.{◌≡◌, refl, ap, ◌⊎◌, inl, inr, true, false, [], ◌∷◌, arith}
use tasc.Base.Int.{pos, is_neg, is_pos}
use tasc.Text.{Text, compare_code_units}

pub compare_refl : (a : Text) → compare_code_units a a ≡ pos 0
unfolding compare_code_units
compare_refl [] = refl
compare_refl (x ∷ a) = ground (arith, compare_refl a)

-- A difference of 0 means equal strings.
pub eq_of_compare : (a b : Text) → compare_code_units a b ≡ pos 0 → a ≡ b
unfolding compare_code_units
eq_of_compare [] [] h = refl
eq_of_compare [] (y ∷ b) h = ground arith
eq_of_compare (x ∷ a) [] h = ground arith
eq_of_compare (x ∷ a) (y ∷ b) h = ground (arith, eq_of_compare a b)

-- Swapping the arguments swaps the sign.
pub compare-swap : (a b : Text) → is_neg (compare_code_units a b) ≡ is_pos (compare_code_units b a)
unfolding compare_code_units
compare-swap [] [] = refl
compare-swap [] (y ∷ b) = ground arith
compare-swap (x ∷ a) [] = ground arith
compare-swap (x ∷ a) (y ∷ b) = ground (arith, compare-swap a b)

pub compare_trans :
    (a b c : Text)
    → is_neg (compare_code_units a b) ≡ true
    → is_neg (compare_code_units b c) ≡ true
    → is_neg (compare_code_units a c) ≡ true
unfolding compare_code_units
compare_trans [] [] c h k = k
compare_trans [] (y ∷ b) [] h k = ground arith
compare_trans [] (y ∷ b) (z ∷ c) h k = ground arith
compare_trans (x ∷ a) [] c h k = ground arith
compare_trans (x ∷ a) (y ∷ b) [] h k = ground arith
compare_trans (x ∷ a) (y ∷ b) (z ∷ c) h k = ground (arith, compare_trans a b c)

-- Exactly one of less, equal and greater.
pub compare-cases :
    (a b : Text)
    → (is_neg (compare_code_units a b) ≡ true)
      ⊎ ((a ≡ b) ⊎ (is_neg (compare_code_units b a) ≡ true))
unfolding compare_code_units
compare-cases [] [] = inr (inl refl)
compare-cases [] (y ∷ b) = ground arith
compare-cases (x ∷ a) [] = ground arith
compare-cases (x ∷ a) (y ∷ b) = ground (arith, compare-cases a b)

-- The comparison is a strict total order on strings: no string is below itself, being below is
-- transitive, and of two strings exactly one is below the other or they are equal; the sign turns
-- over with the arguments, and 0 is for equal strings alone.
pub compare_code_units-order :
    (a b c : Text)
    → (is_neg (compare_code_units a a) ≡ false)
      × (is_neg (compare_code_units a b) ≡ is_pos (compare_code_units b a))
      × ((is_neg (compare_code_units a b) ≡ true)
          ⊎ ((a ≡ b) ⊎ (is_neg (compare_code_units b a) ≡ true)))
      × (is_neg (compare_code_units a b) ≡ true
          → is_neg (compare_code_units b c) ≡ true
          → is_neg (compare_code_units a c) ≡ true)
      × (compare_code_units a b ≡ pos 0 → a ≡ b)
compare_code_units-order a b c = (
  ap is_neg (compare_refl a),
  compare-swap a b,
  compare-cases a b,
  compare_trans a b c,
  eq_of_compare a b,
)
