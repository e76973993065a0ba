-- ===== src/Text/Sort.antt =====
-- `[...new Set(xs)]` and `sort` with `compareCodeUnits` on a key. `sort` is the language's, and
-- stable; insertion sort gives the one stable result.
pub mod Sorted
use tasc.Base.{Bool, true, false, ◌||◌, List, [], ◌∷◌, if◌then◌else◌, includes}
use tasc.Base.Int.{is_pos}
use tasc.Text.{Text, text_eq, compare_code_units}

module _ {ℓ} {A : Type ℓ} (key : A → Text) where
  unfoldable pub insert_by : A → List A → List A
  insert_by x [] = x ∷ []
  insert_by x (y ∷ ys) =
      if is_pos (compare_code_units (key x) (key y)) then y ∷ insert_by x ys else x ∷ y ∷ ys

  unfoldable pub sort_by : List A → List A
  unfolding insert_by
  sort_by [] = []
  sort_by (x ∷ xs) = insert_by x (sort_by xs)

-- The values in order of their first occurrence, less those of `seen`.
unfoldable pub distinct : List Text → List Text → List Text
distinct seen [] = []
distinct seen (x ∷ xs) =
    let skipped = distinct seen xs in
    let kept = x ∷ distinct (x ∷ seen) xs in if includes seen x then skipped else kept
