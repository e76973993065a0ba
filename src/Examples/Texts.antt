-- ===== src/Examples/Texts.antt =====
-- The theorems on strings and timestamps, at concrete values.
use tasc.Base.{◌≡◌, refl, ◌⊎◌, true, false, some, ltb, ℕ_discrete}
use tasc.Base.Int.{pos, is_neg, is_pos}
use tasc.Text.{Text, codes, compare_code_units}
use tasc.Text.Order.{compare_code_units-order}
use tasc.Timestamp.{Fields, match_timestamp, stamp}
use tasc.Timestamp.Order.{compare-stamp}

abbrev left : Text
left = codes "alpha"

abbrev middle : Text
middle = codes "alphabet"

abbrev right : Text
right = codes "beta"

compare_code_units-order_example :
    (is_neg (compare_code_units left left) ≡ false)
    × (is_neg (compare_code_units left middle) ≡ is_pos (compare_code_units middle left))
    × ((is_neg (compare_code_units left middle) ≡ true)
        ⊎ ((left ≡ middle) ⊎ (is_neg (compare_code_units middle left) ≡ true)))
    × (is_neg (compare_code_units left middle) ≡ true
        → is_neg (compare_code_units middle right) ≡ true
        → is_neg (compare_code_units left right) ≡ true)
    × (compare_code_units left middle ≡ pos 0 → left ≡ middle)
compare_code_units-order_example = compare_code_units-order left middle right

abbrev leap_day : Text
leap_day = codes "2024-02-29T23:59:59.999Z"

abbrev next_day : Text
next_day = codes "2024-03-01T00:00:00.000Z"

abbrev leap_fields : Fields
leap_fields = record {
  year = 2024;
  month = 2;
  day = 29;
  hour = 23;
  minute = 59;
  second = 59;
  millisecond = 999;
}

abbrev next_fields : Fields
next_fields = record {
  year = 2024;
  month = 3;
  day = 1;
  hour = 0;
  minute = 0;
  second = 0;
  millisecond = 0;
}

leap_matches : match_timestamp leap_day ≡ some leap_fields
unfolding match_timestamp ℕ_discrete
leap_matches = refl

next_matches : match_timestamp next_day ≡ some next_fields
unfolding match_timestamp ℕ_discrete
next_matches = refl

compare-stamp_example :
    (is_neg (compare_code_units leap_day next_day) ≡ ltb (stamp leap_fields) (stamp next_fields))
    × (is_pos (compare_code_units leap_day next_day) ≡ ltb (stamp next_fields) (stamp leap_fields))
compare-stamp_example =
    compare-stamp leap_day next_day leap_fields next_fields leap_matches next_matches
