-- ===== src/Work/Legacy.antt =====
-- src/legacy-work-budget.ts: the work of the legacy replay, a sum of products.
pub mod Exact
use tasc.Base.{
  ℕ, ◌+◌, ◌-◌, ◌*◌, Bool, true, false, ltb, leb, if◌then◌else◌, Result, ok, err, require, refuse,
  ◌>>=◌, ◌>>◌,
}
use tasc.Work.{
  Number, natural, WorkError, overflow, too_many_signatures, WorkBudget, AssessmentWorkInput,
  max_safe_integer, safe, checked_multiply, check_limit,
}

-- `LEGACY_OBJECTIVE_DIMENSIONS`.
abbrev pub legacy_objective_dimensions : ℕ
legacy_objective_dimensions = 7

pub record LegacyWork : Type 0 where
  pub candidate_count : ℕ
  pub trace_rows : ℕ
  pub evidence_rows : ℕ
  pub bootstrap_draws : ℕ
  pub independent_groups : ℕ
  pub unique_objective_signatures : ℕ

pub record LegacyAssessmentWorkEstimate : Type 0 where
  pub input : LegacyWork
  pub open input use *
  pub row_pair_work : ℕ
  pub grouped_bootstrap_work : ℕ
  pub candidate_evaluation_work : ℕ
  pub objective_projection_work : ℕ
  pub frontier_comparison_work : ℕ
  pub assessment_work : ℕ

unfoldable pub checked_add : ℕ → ℕ → Result WorkError ℕ
checked_add left right =
    if ltb (max_safe_integer - right) left then err overflow else ok (left + right)

-- The first part of `estimateLegacyAssessmentWork`: its arguments checked.
unfoldable pub check_counts : AssessmentWorkInput → Number → Result WorkError LegacyWork
unfolding safe
check_counts i signatures = do
  candidates ← safe i.candidate_count
  traces ← safe i.trace_rows
  evidence ← safe i.evidence_rows
  draws ← safe i.bootstrap_draws
  groups ← safe i.independent_groups
  unique ← safe signatures
  refuse (ltb candidates unique) too_many_signatures
  ok (record {
    candidate_count = candidates;
    trace_rows = traces;
    evidence_rows = evidence;
    bootstrap_draws = draws;
    independent_groups = groups;
    unique_objective_signatures = unique;
  })

-- `candidateEvaluationWork`, with the two numbers that it is made of.
unfoldable pub evaluation_work : LegacyWork → Result WorkError (ℕ × ℕ × ℕ)
unfolding checked_add checked_multiply
evaluation_work i = do
  rows ← checked_add i.trace_rows i.evidence_rows
  grouped ← checked_multiply i.bootstrap_draws i.independent_groups
  each ← checked_add rows grouped
  evaluation ← checked_multiply i.candidate_count each
  ok (rows, grouped, evaluation)

-- `Math.max(0, u - 1)` is the subtraction of ℕ.
unfoldable pub frontier_work : ℕ → Result WorkError ℕ
unfolding checked_multiply
frontier_work u = do
  pairs ← checked_multiply u (u - 1)
  checked_multiply pairs legacy_objective_dimensions

unfoldable pub total_work : LegacyWork → Result WorkError LegacyAssessmentWorkEstimate
unfolding checked_add checked_multiply evaluation_work frontier_work
total_work i = do
  (rows, grouped, evaluation) ← evaluation_work i
  projection ← checked_multiply i.candidate_count legacy_objective_dimensions
  frontier ← frontier_work i.unique_objective_signatures
  both ← checked_add evaluation projection
  total ← checked_add both frontier
  ok (record {
    input = i;
    row_pair_work = rows;
    grouped_bootstrap_work = grouped;
    candidate_evaluation_work = evaluation;
    objective_projection_work = projection;
    frontier_comparison_work = frontier;
    assessment_work = total;
  })

unfoldable pub estimate_legacy_assessment_work :
    AssessmentWorkInput → Number → Result WorkError LegacyAssessmentWorkEstimate
unfolding check_counts total_work
estimate_legacy_assessment_work i signatures = do
  counts ← check_counts i signatures
  total_work counts

-- The message depends on the phase, the test does not.
unfoldable pub assert_within_legacy_budget :
    LegacyAssessmentWorkEstimate → WorkBudget → Result WorkError (Unit {0})
unfolding check_limit
assert_within_legacy_budget e b = do
  check_limit e.candidate_count b.max_candidates
  check_limit e.trace_rows b.max_trace_rows
  check_limit e.evidence_rows b.max_evidence_rows
  check_limit e.bootstrap_draws b.max_bootstrap_draws
  check_limit e.independent_groups b.max_independent_groups
  check_limit e.assessment_work b.max_assessment_work
