-- ===== src/Controller/Facts/Reasons.antt =====
-- The stale reasons of a snapshot, as `appendReason` keeps them.
use tasc.Base.{◌≡◌, ◌∙◌, ◌||◌, List, [], ◌∷◌, ◌++◌, arith, ◌==◌, includes}
use tasc.Text.{Text, text_eq}
use tasc.Text.Sort.{distinct}
use tasc.Text.Sort.Sorted.{
  IsIncreasing, IsIncreasing-sort_by, includes-sort_by, includes-distinct, distinct-IsDistinct,
}
use tasc.Controller.Facts.{append_reason}

includes-append :
    (a x : Text) (xs : List Text) → includes (xs ++ x ∷ []) a ≡ (x == a || includes xs a)
includes-append a x [] = ground arith
includes-append a x (y ∷ xs) = ground (arith, includes-append a x xs)

-- Appending a reason gives a strictly increasing list, so one without duplicates, of exactly the old
-- reasons and the new one.
pub append_reason-set :
    (reasons : List Text) (reason : Text)
    → IsIncreasing (append_reason reasons reason)
      × ((a : Text)
          → includes (append_reason reasons reason) a ≡ (reason == a || includes reasons a))
unfolding append_reason
append_reason-set reasons reason =
    let all = reasons ++ reason ∷ [] in
    (
      IsIncreasing-sort_by (distinct [] all) (distinct-IsDistinct [] all),
      λ a.
          includes-sort_by a (distinct [] all)
          ∙ includes-distinct a [] all
          ∙ includes-append a reason reasons,
    )
