-- ===== src/Work.antt =====
-- src/work-budget.ts: the estimate of the work of an assessment, and the caller's limits on it.
pub mod Bounds
pub mod Legacy
use tasc.Base.{
  ℕ, ◌*◌, ◌/◌, Bool, true, false, not, ◌||◌, List, [], ◌∷◌, ltb, leb, ◌==◌, nat_eq, if◌then◌else◌,
  Result, ok, err, require, refuse, ◌>>=◌, ◌>>◌,
}

-- A number of the language as these checks see it: a non-negative integer, or any other value, which
-- they refuse.
pub data Number : Type 0 where
  natural : ℕ → Number
  other : Number

-- `Number.MAX_SAFE_INTEGER`.
abbrev pub max_safe_integer : ℕ
max_safe_integer = 9007199254740991

pub data WorkError : Type 0 where
  not_safe overflow over_budget too_many_signatures : WorkError

pub record WorkBudget : Type 0 where
  pub max_candidates : Number
  pub max_trace_rows : Number
  pub max_evidence_rows : Number
  pub max_bootstrap_draws : Number
  pub max_independent_groups : Number
  pub max_assessment_work : Number

pub record AssessmentWorkInput : Type 0 where
  pub candidate_count : Number
  pub trace_rows : Number
  pub evidence_rows : Number
  pub bootstrap_draws : Number
  pub independent_groups : Number

pub record AssessmentWorkEstimate : Type 0 where
  pub input : AssessmentWorkInput
  pub open input use *
  pub assessment_work : Number

-- `assertNonNegativeSafeInteger`, with the checked value.
unfoldable pub safe : Number → Result WorkError ℕ
safe other = err not_safe
safe (natural n) = if leb n max_safe_integer then ok n else err not_safe

-- On integers the quotient's floor decides `left > MAX_SAFE_INTEGER / right`; the rounded
-- quotient does as well, since `left * right` and the bound differ by one unit at least.
unfoldable pub checked_multiply : ℕ → ℕ → Result WorkError ℕ
checked_multiply left right =
    if left == 0 || right == 0
    then ok 0
    else if ltb (max_safe_integer / right) left
    then err overflow
    else ok (left * right)

-- `reduce(checkedMultiply, acc)`.
unfoldable pub checked_product : ℕ → List ℕ → Result WorkError ℕ
unfolding checked_multiply
checked_product acc [] = ok acc
checked_product acc (x ∷ xs) = do acc' ← checked_multiply acc x; checked_product acc' xs

-- `estimateAssessmentWork`, as far as the product that it adds to its input.
unfoldable pub assessment_work_of : AssessmentWorkInput → Result WorkError ℕ
unfolding safe checked_product
assessment_work_of i = do
  candidates ← safe i.candidate_count
  traces ← safe i.trace_rows
  evidence ← safe i.evidence_rows
  draws ← safe i.bootstrap_draws
  groups ← safe i.independent_groups
  checked_product 1 (candidates ∷ traces ∷ evidence ∷ draws ∷ groups ∷ [])

unfoldable pub estimate_assessment_work :
    AssessmentWorkInput → Result WorkError AssessmentWorkEstimate
unfolding assessment_work_of
estimate_assessment_work i = do
  work ← assessment_work_of i
  ok (record { input = i; assessment_work = natural work })

-- `assertBudgetLimit`.
unfoldable pub check_limit : ℕ → Number → Result WorkError (Unit {0})
unfolding safe
check_limit n limit = do most ← safe limit; refuse (ltb most n) over_budget

-- The limits, once the numbers of the estimate are checked.
unfoldable pub check_limits : ℕ → ℕ → ℕ → ℕ → ℕ → ℕ → WorkBudget → Result WorkError (Unit {0})
unfolding check_limit
check_limits candidates traces evidence draws groups work b = do
  check_limit candidates b.max_candidates
  check_limit traces b.max_trace_rows
  check_limit evidence b.max_evidence_rows
  check_limit draws b.max_bootstrap_draws
  check_limit groups b.max_independent_groups
  check_limit work b.max_assessment_work

unfoldable pub assert_within_work_budget :
    AssessmentWorkEstimate → WorkBudget → Result WorkError (Unit {0})
unfolding safe assessment_work_of check_limits
assert_within_work_budget e b = do
  candidates ← safe e.candidate_count
  traces ← safe e.trace_rows
  evidence ← safe e.evidence_rows
  draws ← safe e.bootstrap_draws
  groups ← safe e.independent_groups
  _ ← safe e.assessment_work
  recomputed ← assessment_work_of e.input
  check_limits candidates traces evidence draws groups recomputed b
