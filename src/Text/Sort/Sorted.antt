-- ===== src/Text/Sort/Sorted.antt =====
-- What sorting keeps, and the order that it makes.
use tasc.Base.{
  ◌≡◌, refl, ap, ◌∙◌, inl, inr, true, false, ◌||◌, List, [], ◌∷◌, Option, some, arith, ◌==◌,
  if◌then◌else◌, find?, includes, holds, Bool-cases,
}
use tasc.Base.Int.{is_neg, is_pos}
use tasc.Text.{Text, text_eq, Text-discrete, compare_code_units}
use tasc.Text.Order.{compare_refl, compare-swap, compare-cases}
use tasc.Text.Sort.{insert_by, sort_by, distinct}

module _ {ℓ} {A : Type ℓ} (key : A → Text) where
  -- The first value with a key.
  abbrev pub with_key : Text → List A → Option A
  with_key k xs = find? (λ x. key x == k) xs

  same_not_after : (x y : A) → key x ≡ key y → is_pos (compare_code_units (key x) (key y)) ≡ false
  same_not_after x y same = rw same (ap is_pos (compare_refl (key y)))

  with_key-insert_by :
      (k : Text) (x : A) (ys : List A)
      → with_key k (insert_by key x ys) ≡ (if key x == k then some x else with_key k ys)
  unfolding insert_by
  with_key-insert_by k x [] = refl
  with_key-insert_by k x (y ∷ ys) = ground (arith, same_not_after x y, with_key-insert_by k x ys)

  -- Sorting is stable: the first value with a key stays the first.
  pub with_key-sort_by : (k : Text) (xs : List A) → with_key k (sort_by key xs) ≡ with_key k xs
  unfolding sort_by
  with_key-sort_by k [] = refl
  with_key-sort_by k (x ∷ xs) =
      with_key-insert_by k x (sort_by key xs)
      ∙ ap (λ r. if key x == k then some x else r) (with_key-sort_by k xs)

-- Strictly increasing, so without duplicates.
abbrev pub IsAbove : Text → List Text → Type 0
IsAbove x [] = Unit
IsAbove x (y ∷ ys) = is_neg (compare_code_units x y) ≡ true

abbrev pub IsIncreasing : List Text → Type 0
IsIncreasing [] = Unit
IsIncreasing (x ∷ xs) = IsAbove x xs × IsIncreasing xs

abbrev sorted : List Text → List Text
unfolding sort_by
sorted xs = sort_by (λ r. r) xs

includes-insert :
    (a x : Text) (ys : List Text) → includes (insert_by (λ r. r) x ys) a ≡ (x == a || includes ys a)
unfolding insert_by
includes-insert a x [] = refl
includes-insert a x (y ∷ ys) = ground (arith, includes-insert a x ys)

pub includes-sort_by :
    (a : Text) (xs : List Text) → includes (sort_by (λ r. r) xs) a ≡ includes xs a
unfolding sort_by
includes-sort_by a [] = refl
includes-sort_by a (x ∷ xs) =
    includes-insert a x (sort_by (λ r. r) xs) ∙ ap (λ b. x == a || b) (includes-sort_by a xs)

below_of_not_after :
    (x y : Text)
    → (x == y) ≡ false
    → is_pos (compare_code_units x y) ≡ false
    → is_neg (compare_code_units x y) ≡ true
below_of_not_after x y other below =
    ground (arith, compare-cases x y, compare-swap y x, holds (Text-discrete x y))

IsAbove-insert :
    (x y : Text) (ys : List Text)
    → is_neg (compare_code_units y x) ≡ true
    → IsAbove y ys
    → IsAbove y (insert_by (λ r. r) x ys)
unfolding insert_by
IsAbove-insert x y [] below above = below
IsAbove-insert x y (z ∷ ys) below above = elim (Bool-cases (is_pos (compare_code_units x z))) [
  | inl h ↦ rw h above
  | inr h ↦ rw h below
]

IsIncreasing-insert :
    (x : Text) (ys : List Text)
    → includes ys x ≡ false
    → IsIncreasing ys
    → IsIncreasing (insert_by (λ r. r) x ys)
unfolding insert_by
IsIncreasing-insert x [] new increasing = (tt, tt)
IsIncreasing-insert x (y ∷ ys) new (above, increasing) =
    elim (Bool-cases (is_pos (compare_code_units x y))) [
      | inl h ↦ rw h (
        IsAbove-insert x y ys (compare-swap y x ∙ h) above,
        IsIncreasing-insert x ys (ground (arith, new)) increasing,
      )
      | inr h ↦ rw h (below_of_not_after x y (ground (arith, new)) h, (above, increasing))
    ]

-- No value twice.
abbrev pub IsDistinct : List Text → Type 0
IsDistinct [] = Unit
IsDistinct (x ∷ xs) = (includes xs x ≡ false) × IsDistinct xs

pub IsIncreasing-sort_by : (xs : List Text) → IsDistinct xs → IsIncreasing (sort_by (λ r. r) xs)
unfolding sort_by
IsIncreasing-sort_by [] apart = tt
IsIncreasing-sort_by (x ∷ xs) (new, apart) =
    IsIncreasing-insert x (sort_by (λ r. r) xs) (includes-sort_by x xs ∙ new)
      (IsIncreasing-sort_by xs apart)

-- What `distinct` keeps: the values of the list that were not seen before, once each.
pub includes-distinct :
    (a : Text) (seen xs : List Text)
    → includes (distinct seen xs) a ≡ (if includes seen a then false else includes xs a)
unfolding distinct
includes-distinct a seen [] = ground arith
includes-distinct a seen (x ∷ xs) = ground (
  arith,
  includes-distinct a seen xs,
  includes-distinct a (x ∷ seen) xs,
  holds (Text-discrete x a),
)

pub distinct-IsDistinct : (seen xs : List Text) → IsDistinct (distinct seen xs)
unfolding distinct
distinct-IsDistinct seen [] = tt
distinct-IsDistinct seen (x ∷ xs) = elim (Bool-cases (includes seen x)) [
  | inl h ↦ rw h (distinct-IsDistinct seen xs)
  | inr h ↦
      rw h (includes-distinct x (x ∷ seen) xs ∙ ground arith, distinct-IsDistinct (x ∷ seen) xs)
]
