-- ===== src/Timestamp.antt =====
-- src/controller-events.ts, the controller's timestamps: fixed-width UTC, "2026-07-20T00:00:00.000Z".
pub mod Order
use tasc.Base.{
  ℕ, zero, suc, ◌+◌, ◌*◌, ◌-◌, ◌%◌, ◌≡◌, Bool, true, false, not, ◌&&◌, ◌||◌, List, [], ◌∷◌, Option,
  none, some, leb, ltb, ◌==◌, nat_eq, if◌then◌else◌, length, is_empty, ok, err, require, ◌>>◌,
  Result,
}
use tasc.Base.Int.{ℤ}
use tasc.Text.{Text, compare_code_units}

unfoldable pub is_leap_year : ℕ → Bool
is_leap_year year = year % 4 == 0 && (not (year % 100 == 0) || year % 400 == 0)

-- `monthLengths[month - 1]`, for a month from 1 to 12.
unfoldable pub month_length : ℕ → ℕ → ℕ
unfolding is_leap_year
month_length year month =
    if month == 2
    then if is_leap_year year then 29 else 28
    else if month == 4 || month == 6 || month == 9 || month == 11
    then 30
    else 31

infixl 5 ◌>>=◌
abbrev ◌>>=◌ {ℓ κ} : {A : Type ℓ} {B : Type κ} → Option A → (A → Option B) → Option B
none >>= k = none
some a >>= k = k a

-- The groups of the regular expression: `n` digits onto the number read so far, and one literal
-- character. `none` means no match.
unfoldable pub digits : ℕ → ℕ → Text → Option (ℕ × Text)
digits zero acc t = some (acc, t)
digits (suc n) acc [] = none
digits (suc n) acc (c ∷ t) =
    let rest = digits n (acc * 10 + (c - b'0')) t in if leb b'0' c && leb c b'9' then rest else none

unfoldable pub literal : ℕ → Text → Option Text
literal k [] = none
literal k (c ∷ t) = if c == k then some t else none

pub record Fields : Type 0 where
  pub year : ℕ
  pub month : ℕ
  pub day : ℕ
  pub hour : ℕ
  pub minute : ℕ
  pub second : ℕ
  pub millisecond : ℕ

-- Each group of the regular expression, as its number of digits and the character after it.
abbrev pub layout : List (ℕ × ℕ)
layout = (4, b'-') ∷ (2, b'-') ∷ (2, b'T') ∷ (2, b':') ∷ (2, b':') ∷ (2, b'.') ∷ (3, b'Z') ∷ []

-- `exec`: the numbers of the groups, and nothing may follow the last one.
unfoldable pub match_groups : List (ℕ × ℕ) → Text → Option (List ℕ)
unfolding digits literal
match_groups [] t = if is_empty t then some [] else none
match_groups ((n, k) ∷ groups) t = do
  (v, t1) ← digits n 0 t
  t2 ← literal k t1
  vs ← match_groups groups t2
  some (v ∷ vs)

abbrev to_fields : List ℕ → Option Fields
to_fields (year ∷ month ∷ day ∷ hour ∷ minute ∷ second ∷ millisecond ∷ []) = some (record {
  year = year;
  month = month;
  day = day;
  hour = hour;
  minute = minute;
  second = second;
  millisecond = millisecond;
})
to_fields _ = none

unfoldable pub match_timestamp : Text → Option Fields
unfolding match_groups
match_timestamp t = do to_fields (← match_groups layout t)

unfoldable pub is_real : Fields → Bool
unfolding month_length
is_real f =
    not (
      ltb f.year 1
      || ltb f.month 1
      || ltb 12 f.month
      || ltb 23 f.hour
      || ltb 59 f.minute
      || ltb 59 f.second)
    && leb 1 f.day
    && leb f.day (month_length f.year f.month)

abbrev check : Option Fields → Bool
unfolding is_real
check none = false
check (some f) = is_real f

-- `controllerTimestampSchema`.
unfoldable pub is_timestamp : Text → Bool
unfolding match_timestamp is_real
is_timestamp t = length t == 24 && check (match_timestamp t)

-- The fields of a date from year 0 on: what `Date.parse` reads of this form, and `toISOString`
-- writes again in the same way.
abbrev check_contract : Option Fields → Bool
unfolding month_length
check_contract none = false
check_contract (some f) =
    not (ltb f.month 1 || ltb 12 f.month || ltb 23 f.hour || ltb 59 f.minute || ltb 59 f.second)
    && leb 1 f.day
    && leb f.day (month_length f.year f.month)

-- `contractTimestampSchema` of src/evidence.ts.
unfoldable pub is_contract_timestamp : Text → Bool
unfolding match_timestamp month_length
is_contract_timestamp t = length t == 24 && check_contract (match_timestamp t)

-- The time that a match names, as one decimal number: year, month, day and so on down to
-- milliseconds, each at its fixed width.
abbrev pub stamp : Fields → ℕ
stamp f =
    (((((f.year * 100 + f.month) * 100 + f.day) * 100 + f.hour) * 100 + f.minute) * 100 + f.second)
      * 1000
    + f.millisecond

-- Stands for `Date.parse` of a real time, where only its order counts: the milliseconds since 1970
-- rise with the stamp.
unfoldable pub milliseconds : Text → ℕ
unfolding match_timestamp
milliseconds t = elim (match_timestamp t) [ none ↦ 0 | some f ↦ stamp f ]
