-- ===== src/Controller/Semantics/States.antt =====
-- What each state of the controller requires of the rest of its snapshot.
use tasc.Base.{
  ℕ, ◌+◌, Bool, false, not, ◌&&◌, ◌||◌, List, [], ◌∷◌, Option, none, some, ◌==◌, nat_eq, is_none,
  is_some, is_empty, length, last?, any, count_if, includes, option_eq, if◌then◌else◌, Result, ok,
  require, refuse, ◌>>◌,
}
use tasc.Base.Int.{is_nonneg}
use tasc.Text.{Text, text_eq, compare_code_units}
use tasc.Controller.Types.{
  State, Phase, Status, Evidence, Assessment, Observation, Ledger, SnapshotBody, state_eq,
  status_eq, phase_eq,
}
use tasc.Controller.Schema.{before}
use tasc.Controller.Errors.{
  Error, evidence_without_collection, assessment_without_evidence, development_evidence,
  ledger_without_policy, deployment_coherence, stale_state, stale_reason, needs_collection,
  needs_evidence, needs_nomination, needs_holdout, registered_sequence, registered_content,
  collecting_sequence, collecting_content, ready_sequence, ready_content, nominated_sequence,
  nominated_content, shadow_sequence, shadow_content, confirmed_sequence, confirmed_deployment,
  promotion_sequence, promotion_window, monitoring_sequence, monitoring_deployment, hold_sequence,
  hold_result, rollback_sequence, rollback_window,
}
use tasc.Controller.Semantics.Windows.{after_time, policy_is}
use tasc.Controller.Semantics.Assessments.{Decisions, status_is}

-- `developmentAssessment` and `developmentEvidence` are there and name different sources.
abbrev other_sources : Option Assessment → Option Evidence → Bool
other_sources none evidence = false
other_sources (some a) none = false
other_sources (some a) (some e) =
    not (a.dataset_digest == e.dataset_digest)
    || not (a.trace_set_digest == e.trace_set_digest)
    || not (a.evaluator_set_digest == e.evaluator_set_digest)

abbrev is_passing_window : Assessment → Bool
is_passing_window a = a.phase == Phase.window && a.status == Status.pass

-- The states in which a deployment may have been observed.
abbrev observed_states : List State
observed_states =
    State.monitoring ∷ State.hold ∷ State.rollback_recommended ∷ State.stale ∷ State.retired ∷ []

abbrev bad_deployment : SnapshotBody → Decisions → Option Observation → Bool
bad_deployment s d none = false
bad_deployment s d (some o) =
    is_none s.selected_policy
    || not (status_is d.holdout Status.pass)
    || not (any is_passing_window s.assessments)
    || not (policy_is s.selected_policy o.policy_digest)
    || before o.observed_at s.protocol_created_at
    || is_nonneg (compare_code_units o.observed_at s.protocol_expires_at)
    || is_none s.last_event_at
    || after_time o.observed_at s.last_event_at
    || not (includes observed_states s.state)

unfoldable pub check_evidence : SnapshotBody → Decisions → Result Error (Unit {0})
check_evidence s d = do
  refuse (is_some s.development_evidence && is_none s.collection_id) evidence_without_collection
  refuse (not (is_empty s.assessments) && is_none s.development_evidence)
      assessment_without_evidence
  refuse (other_sources d.development s.development_evidence) development_evidence
  refuse (not (is_empty s.windows) && is_none s.selected_policy) ledger_without_policy
  refuse (bad_deployment s d s.deployment_observation) deployment_coherence
  refuse
      (not (is_empty s.stale_reasons)
        && not (s.state == State.stale)
        && not (s.state == State.retired))
      stale_state
  refuse (s.state == State.stale && is_empty s.stale_reasons) stale_reason

-- `requireCollection`, `requireDevelopmentEvidence`, `requireNomination`, `requirePassingHoldout`.
abbrev require_collection : SnapshotBody → Result Error (Unit {0})
require_collection s = refuse (is_none s.collection_id) needs_collection

abbrev require_evidence : SnapshotBody → Result Error (Unit {0})
require_evidence s = do require_collection s; refuse (is_none s.development_evidence) needs_evidence

abbrev require_nomination : SnapshotBody → Decisions → Result Error (Unit {0})
require_nomination s d = do
  require_evidence s
  refuse (is_none s.selected_policy || not (status_is d.development Status.nominated))
      needs_nomination

abbrev require_holdout : SnapshotBody → Decisions → Result Error (Unit {0})
require_holdout s d = do
  require_nomination s d
  require (status_is d.holdout Status.pass) needs_holdout

-- `windowAssessmentCount` and `expectedPostHoldoutSequence`.
abbrev pub window_assessments : SnapshotBody → ℕ
window_assessments s = count_if (λ a. a.phase == Phase.window) s.assessments

abbrev pub post_holdout : SnapshotBody → ℕ → ℕ
post_holdout s total = 6 + total + window_assessments s

abbrev latest_digest : Ledger → Option Text
latest_digest l = elim (last? l.revisions) [ none ↦ none | some r ↦ some r.manifest_digest ]

-- `latestWindowAssessmentIs`: the last assessment is of the newest revision of some ledger.
abbrev is_latest_of : SnapshotBody → Status → Option Assessment → Bool
is_latest_of s status none = false
is_latest_of s status (some a) =
    a.phase == Phase.window
    && a.status == status
    && any (λ l. latest_digest l == a.window_manifest_digest) s.windows

-- Nothing of the later stages is there.
abbrev is_bare : SnapshotBody → Bool
is_bare s =
    is_none s.selected_policy
    && is_empty s.assessments
    && is_empty s.windows
    && is_none s.deployment_observation

-- The number of events behind a HOLD.
abbrev pub hold_events : SnapshotBody → ℕ → ℕ
hold_events s total =
    if is_none s.selected_policy
    then 3 + length s.assessments
    else 4 + length s.assessments + total + (if is_none s.deployment_observation then 0 else 1)

abbrev is_failing : Option Assessment → Bool
is_failing none = false
is_failing (some a) =
    not (a.status == Status.nominated || a.status == Status.pass || a.status == Status.stale)

-- The `switch` on the state; `total` is `totalRevisions`.
unfoldable pub check_state : State → SnapshotBody → Decisions → ℕ → Result Error (Unit {0})
check_state State.draft s d total = ok tt
check_state State.registered s d total = do
  require (s.sequence == 1) registered_sequence
  require (is_none s.collection_id && is_none s.development_evidence && is_bare s)
      registered_content
check_state State.collecting s d total = do
  require (s.sequence == 2) collecting_sequence
  require_collection s
  require (is_none s.development_evidence && is_bare s) collecting_content
check_state State.dev_ready s d total = do
  require (s.sequence == 3) ready_sequence
  require_evidence s
  require (is_bare s) ready_content
check_state State.nominated s d total = do
  require (s.sequence == 4) nominated_sequence
  require_nomination s d
  require (is_none d.holdout && is_empty s.windows && is_none s.deployment_observation)
      nominated_content
check_state State.shadow_assessing s d total = do
  require (s.sequence == 5 + total) shadow_sequence
  require_nomination s d
  require (is_none d.holdout && is_none s.deployment_observation) shadow_content
check_state State.holdout_confirmed s d total = do
  require (s.sequence == post_holdout s total) confirmed_sequence
  require_holdout s d
  require (is_none s.deployment_observation) confirmed_deployment
check_state State.promotion_recommended s d total = do
  require (s.sequence == post_holdout s total) promotion_sequence
  require_holdout s d
  require (is_latest_of s Status.pass (last? s.assessments) && is_none s.deployment_observation)
      promotion_window
check_state State.monitoring s d total = do
  require (s.sequence == post_holdout s total + 1) monitoring_sequence
  require_holdout s d
  require (is_some s.deployment_observation) monitoring_deployment
check_state State.hold s d total = do
  require_evidence s
  require (s.sequence == hold_events s total) hold_sequence
  require (is_failing (last? s.assessments)) hold_result
check_state State.stale s d total = ok tt
check_state State.rollback_recommended s d total = do
  require (s.sequence == post_holdout s total + 1) rollback_sequence
  require_holdout s d
  require (is_some s.deployment_observation && is_latest_of s Status.hold (last? s.assessments))
      rollback_window
check_state State.retired s d total = ok tt
