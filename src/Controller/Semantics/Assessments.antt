-- ===== src/Controller/Semantics/Assessments.antt =====
-- The assessments of a snapshot: one development decision, one holdout decision after a nomination,
-- then window decisions after a passing holdout; and the policy that they all name.
use tasc.Base.{
  ℕ, Bool, false, not, ◌&&◌, ◌||◌, List, [], ◌∷◌, Option, none, some, ltb, ◌==◌, nat_eq, is_some,
  includes, map_get, Result, ok, require, refuse, each, ◌>>=◌, ◌>>◌,
}
use tasc.Base.Int.{is_nonzero}
use tasc.Text.{Text, text_eq, compare_code_units}
use tasc.Controller.Types.{
  Phase, Status, SelectedPolicy, Assessment, Manifest, SnapshotBody, status_eq, phase_eq,
}
use tasc.Controller.Schema.{before}
use tasc.Controller.Errors.{
  Error, duplicate_assessment, assessment_protocol, phase_order, second_development,
  holdout_without_nomination, window_without_holdout, window_source, policy_validity,
  policy_nomination, assessment_policy,
}
use tasc.Controller.Semantics.Windows.{after_time}

abbrev pub phase_rank : Phase → ℕ
phase_rank Phase.development = 0
phase_rank Phase.holdout = 1
phase_rank Phase.window = 2

-- `assessment?.status === status`.
abbrev pub status_is : Option Assessment → Status → Bool
status_is none status = false
status_is (some a) status = a.status == status

-- `developmentAssessment` and `holdoutAssessment`.
pub record Decisions : Type 0 where
  pub development : Option Assessment
  pub holdout : Option Assessment

-- `manifest !== undefined` and the source sets of the assessment are the manifest's.
abbrev matches_manifest : Option Manifest → Assessment → Bool
matches_manifest none a = false
matches_manifest (some m) a =
    a.trace_set_digest == m.trace_set_digest && a.evaluator_set_digest == m.evaluator_set_digest

-- `manifestProjections.get(assessment.windowManifestDigest)`.
abbrev manifest_of : List (Text × Manifest) → Option Text → Option Manifest
manifest_of manifests none = none
manifest_of manifests (some digest) = map_get digest manifests

unfoldable pub check_phase :
    List (Text × Manifest) → Decisions → Phase → Assessment → Result Error Decisions
check_phase manifests d Phase.development a = do
  refuse (is_some d.development) second_development
  ok (record d { development = some a })
check_phase manifests d Phase.holdout a = do
  refuse (not (status_is d.development Status.nominated) || is_some d.holdout)
      holdout_without_nomination
  ok (record d { holdout = some a })
check_phase manifests d Phase.window a = do
  require (status_is d.holdout Status.pass) window_without_holdout
  require (matches_manifest (manifest_of manifests a.window_manifest_digest) a) window_source
  ok d

-- `previousAssessmentPhase` begins at -1, below which no phase is either: 0 serves here.
unfoldable pub check_assessments :
    SnapshotBody
    → List (Text × Manifest)
    → List Text
    → ℕ
    → Decisions
    → List Assessment
    → Result Error Decisions
check_assessments s manifests digests previous d [] = ok d
check_assessments s manifests digests previous d (a ∷ rest) = do
  refuse (includes digests a.decision_digest) duplicate_assessment
  require (a.protocol_digest == s.protocol_digest) assessment_protocol
  refuse (ltb (phase_rank a.phase) previous) phase_order
  d' ← check_phase manifests d a.phase a
  check_assessments s manifests (a.decision_digest ∷ digests) (phase_rank a.phase) d' rest

-- `samePolicy`.
unfoldable pub same_policy : Option SelectedPolicy → Option SelectedPolicy → Bool
same_policy none right = false
same_policy (some l) none = false
same_policy (some l) (some r) =
    l.policy_digest == r.policy_digest && l.issued_at == r.issued_at && l.expires_at == r.expires_at

abbrev policy_of : Option Assessment → Option SelectedPolicy
policy_of none = none
policy_of (some a) = a.selected_policy

abbrev pub bad_validity : SnapshotBody → Option SelectedPolicy → Bool
bad_validity s none = false
bad_validity s (some p) =
    before p.issued_at s.protocol_created_at
    || is_nonzero (compare_code_units p.expires_at s.protocol_expires_at)
    || after_time p.issued_at s.last_event_at

-- The selected policy is the one that the development decision nominated, or there is none.
abbrev pub bad_nomination : Option SelectedPolicy → Option Assessment → Bool
bad_nomination none development = status_is development Status.nominated
bad_nomination (some p) development =
    not (status_is development Status.nominated)
    || not (same_policy (some p) (policy_of development))

unfoldable pub check_policy : SnapshotBody → Decisions → Result Error (Unit {0})
unfolding same_policy
check_policy s d = do
  refuse (bad_validity s s.selected_policy) policy_validity
  refuse (bad_nomination s.selected_policy d.development) policy_nomination
  each
      (λ a.
        refuse
          (not (a.phase == Phase.development)
            && not (same_policy s.selected_policy a.selected_policy))
          assessment_policy)
      s.assessments
