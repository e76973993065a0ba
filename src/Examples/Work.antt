-- ===== src/Examples/Work.antt =====
-- The theorems on work estimates, at concrete counts.
use tasc.Base.{◌≤◌, ◌≡◌, refl, ◌↔◌, [], ◌∷◌, ok, arith, ℕ_discrete}
use tasc.Work.{
  natural, max_safe_integer, WorkBudget, AssessmentWorkInput, AssessmentWorkEstimate,
  checked_product, assert_within_work_budget,
}
use tasc.Work.Bounds.{
  Within, IsSafe, product, checked_product_iff, assert_within_work_budget-Within,
}
use tasc.Work.Legacy.{LegacyWork, LegacyAssessmentWorkEstimate, estimate_legacy_assessment_work}
use tasc.Work.Legacy.Exact.{work_of, estimate_legacy-exact}

abbrev input : AssessmentWorkInput
input = record {
  candidate_count = natural 3;
  trace_rows = natural 100;
  evidence_rows = natural 100;
  bootstrap_draws = natural 20;
  independent_groups = natural 5;
}

-- An estimate that claims no work at all.
abbrev estimate : AssessmentWorkEstimate
estimate = record { input = input; assessment_work = natural 0 }

abbrev budget : WorkBudget
budget = record {
  max_candidates = natural 10;
  max_trace_rows = natural 1000;
  max_evidence_rows = natural 1000;
  max_bootstrap_draws = natural 100;
  max_independent_groups = natural 10;
  max_assessment_work = natural 3000000;
}

within : assert_within_work_budget estimate budget ≡ ok tt
unfolding assert_within_work_budget ℕ_discrete
within = refl

assert_within_work_budget-Within_example : Within input budget × IsSafe (natural 0)
assert_within_work_budget-Within_example = assert_within_work_budget-Within estimate budget within

checked_product_iff_example :
    (checked_product 1 (3 ∷ 7 ∷ []) ≡ ok (product 1 (3 ∷ 7 ∷ [])))
    ↔ (product 1 (3 ∷ 7 ∷ []) ≤ max_safe_integer)
checked_product_iff_example = checked_product_iff (3 ∷ 7 ∷ []) (omega arith, (omega arith, tt))

abbrev counts : LegacyWork
counts = record {
  candidate_count = 3;
  trace_rows = 100;
  evidence_rows = 100;
  bootstrap_draws = 20;
  independent_groups = 5;
  unique_objective_signatures = 2;
}

abbrev legacy : LegacyAssessmentWorkEstimate
legacy = record {
  input = counts;
  row_pair_work = 200;
  grouped_bootstrap_work = 100;
  candidate_evaluation_work = 900;
  objective_projection_work = 21;
  frontier_comparison_work = 14;
  assessment_work = 935;
}

estimated : estimate_legacy_assessment_work input (natural 2) ≡ ok legacy
unfolding estimate_legacy_assessment_work ℕ_discrete
estimated = refl

estimate_legacy-exact_example :
    (legacy.assessment_work ≡ work_of counts)
    × (legacy.assessment_work ≤ max_safe_integer)
    × (legacy.unique_objective_signatures ≤ legacy.candidate_count)
estimate_legacy-exact_example = estimate_legacy-exact input (natural 2) estimated
