-- ===== src/Controller/Decisions.antt =====
-- src/controller.ts, assessment decisions as the controller admits them: projected to the fields
-- that it keeps, and indexed by their digest.
pub mod Index
use tasc.Base.{
  Bool, true, false, not, List, [], ◌∷◌, Option, none, some, leb, ◌==◌, nat_eq, option_eq, length,
  map_get, map_set, Result, ok, require, refuse, ◌>>=◌, ◌>>◌,
}
use tasc.Text.{Text, text_eq, codes}
use tasc.Controller.Types.{
  Phase, Status, SelectedPolicy, Assessment, Fact, Contracts, assessment_eq,
}
use tasc.Controller.Schema.{max_controller_assessments}
use tasc.Controller.Errors.{
  Error, unauthentic_decision, policy_identity, development_status, source_conflict,
  too_many_sources,
}
use tasc.Controller.Log.{create_fact}
use tasc.Controller.Facts.{Sources}

-- What the controller reads of a `FrozenAssessmentDecision` of src/assessment.ts. `authentic` is
-- whether the object is one that this process made: `isAuthenticAssessmentDecision`.
pub record Decision : Type 0 where
  pub authentic : Bool
  pub phase : Phase
  pub status : Status
  pub decision_digest : Text
  pub assessment_context_digest : Text
  pub protocol_digest : Text
  pub dataset_digest : Text
  pub trace_set_digest : Text
  pub evaluator_set_digest : Text
  pub selected_policy : Option SelectedPolicy
  pub selected_policy_digest : Option Text
  pub window_manifest_digest : Option Text

-- `selectedPolicyProjection`.
unfoldable pub project_policy :
    Option SelectedPolicy → Option Text → Result Error (Option SelectedPolicy)
project_policy none digest = ok none
project_policy (some p) digest = do
  require (digest == some p.policy_digest) policy_identity
  ok (some p)

abbrev projection : Decision → Option SelectedPolicy → Option Text → Assessment
projection d policy manifest = record {
  decision_digest = d.decision_digest;
  assessment_context_digest = d.assessment_context_digest;
  protocol_digest = d.protocol_digest;
  dataset_digest = d.dataset_digest;
  trace_set_digest = d.trace_set_digest;
  evaluator_set_digest = d.evaluator_set_digest;
  selected_policy = policy;
  phase = d.phase;
  status = d.status;
  window_manifest_digest = manifest;
}

abbrev is_controller_status : Status → Bool
is_controller_status Status.pass = false
is_controller_status Status.hold = false
is_controller_status _ = true

abbrev projection_validation : Text
projection_validation = codes "projection-validation"

module _ (c : Contracts) where
  unfoldable pub project_phase : Phase → Decision → Option SelectedPolicy → Result Error Assessment
  project_phase Phase.development d policy = do
    require (is_controller_status d.status) development_status
    let a = projection d policy none
    create_fact c (Fact.development_assessment_recorded a) >>= λ _. ok a
  project_phase Phase.holdout d policy = do
    let a = projection d policy none
    create_fact c (Fact.holdout_assessment_recorded a) >>= λ _. ok a
  project_phase Phase.window d policy = do
    let a = projection d policy d.window_manifest_digest
    create_fact c (Fact.window_assessment_recorded projection_validation a) >>= λ _. ok a

  -- `projectAssessmentDecision`.
  unfoldable pub project_decision : Decision → Result Error Assessment
  unfolding project_policy project_phase
  project_decision d = do
    require d.authentic unauthentic_decision
    policy ← project_policy d.selected_policy d.selected_policy_digest
    project_phase d.phase d policy

  abbrev conflicts : Option Assessment → Assessment → Bool
  conflicts none a = false
  conflicts (some b) a = not (b == a)

  unfoldable pub index_from : Sources → List Decision → Result Error Sources
  index_from indexed [] = ok indexed
  index_from indexed (d ∷ ds) = do
    a ← project_decision d
    refuse (conflicts (map_get a.decision_digest indexed) a) source_conflict
    index_from (map_set a.decision_digest a indexed) ds

  -- `indexAuthenticAssessmentSources`, with the bound of `captureReplaySources`.
  unfoldable pub index_sources : List Decision → Result Error Sources
  unfolding index_from
  index_sources ds = do
    require (leb (length ds) max_controller_assessments) too_many_sources
    index_from [] ds
