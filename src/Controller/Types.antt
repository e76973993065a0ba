-- ===== src/Controller/Types.antt =====
-- src/controller-events.ts, the values of the controller's contracts. A field with one literal
-- value (`version`, `attestation`, `source`) is left out; `null` is `none`.
use tasc.Base.{ℕ, Bool, List, Option, Eq, ℕ_discrete}
use tasc.Text.{Text}

pub data State : Type 0 where
  draft registered collecting dev_ready nominated shadow_assessing : State
  holdout_confirmed promotion_recommended monitoring hold stale rollback_recommended : State
  retired : State

pub data Phase : Type 0 where
  development holdout window : Phase

pub data Status : Type 0 where
  nominated no_candidate insufficient_evidence stale pass hold : Status

pub record SelectedPolicy : Type 0 where
  pub policy_digest : Text
  pub issued_at : Text
  pub expires_at : Text

-- `ControllerAssessmentProjection`: one record for the three members of the union.
pub record Assessment : Type 0 where
  pub decision_digest : Text
  pub assessment_context_digest : Text
  pub protocol_digest : Text
  pub dataset_digest : Text
  pub trace_set_digest : Text
  pub evaluator_set_digest : Text
  pub selected_policy : Option SelectedPolicy
  pub phase : Phase
  pub status : Status
  pub window_manifest_digest : Option Text

-- `ControllerWindowManifestProjection`.
pub record Manifest : Type 0 where
  pub window_id : Text
  pub manifest_digest : Text
  pub protocol_digest : Text
  pub frozen_policy_digest : Text
  pub event_time_start_inclusive : Text
  pub event_time_end_exclusive : Text
  pub ingestion_watermark : Text
  pub revision : ℕ
  pub predecessor_manifest_digest : Option Text
  pub trace_set_digest : Text
  pub evaluator_set_digest : Text
  pub capacity_evidence_digest : Text

pub record Evidence : Type 0 where
  pub dataset_digest : Text
  pub trace_set_digest : Text
  pub evaluator_set_digest : Text

pub record Observation : Type 0 where
  pub observation_id : Text
  pub environment_id : Text
  pub policy_digest : Text
  pub observed_at : Text

pub data Scope : Type 0 where
  evaluator execution_profile assessment_context source policy window : Scope

pub record Drift : Type 0 where
  pub scope : Scope
  pub expected_digest : Text
  pub observed_digest : Text
  pub reason_code : Text

pub data Fact : Type 0 where
  protocol_registered : Text → Text → Fact
  collection_started : Text → Fact
  development_evidence_ready : Evidence → Fact
  development_assessment_recorded : Assessment → Fact
  shadow_assessment_started : Text → Fact
  holdout_assessment_recorded : Assessment → Fact
  window_manifest_recorded : Manifest → Fact
  window_assessment_recorded : Text → Assessment → Fact
  deployment_observed : Observation → Fact
  identity_drift_recorded : Drift → Fact
  protocol_expiry_observed : Text → Fact
  controller_retired : Text → Fact

pub record EventBody : Type 0 where
  pub controller_id : Text
  pub study_id : Text
  pub protocol_digest : Text
  pub sequence : ℕ
  pub predecessor_event_id : Option Text
  pub occurred_at : Text
  pub fact : Fact
  pub fact_digest : Text

pub record Event : Type 0 where
  pub body : EventBody
  pub open body use *
  pub event_id : Text

pub record Ledger : Type 0 where
  pub window_id : Text
  pub revisions : List Manifest

pub record SnapshotBody : Type 0 where
  pub controller_id : Text
  pub study_id : Text
  pub protocol_digest : Text
  pub protocol_created_at : Text
  pub protocol_expires_at : Text
  pub state : State
  pub sequence : ℕ
  pub last_event_id : Option Text
  pub last_event_at : Option Text
  pub collection_id : Option Text
  pub development_evidence : Option Evidence
  pub selected_policy : Option SelectedPolicy
  pub assessments : List Assessment
  pub windows : List Ledger
  pub deployment_observation : Option Observation
  pub stale_reasons : List Text

pub record Snapshot : Type 0 where
  pub body : SnapshotBody
  pub open body use *
  pub snapshot_digest : Text

-- What the controller uses of src/evidence.ts, for each kind of value. `digest_…` is
-- `domainSeparatedDigest` in the domain of the kind: SHA-256, of node:crypto, over the canonical JSON
-- of domain and value. `fits_…` is `snapshotBoundedContractInput`: whether the value is within the
-- bounds on nodes, depth and sizes of its copy, which is otherwise the value itself.
pub record Contracts : Type 0 where
  pub digest_fact : Fact → Text
  pub digest_event : EventBody → Text
  pub digest_snapshot : SnapshotBody → Text
  pub fits_fact : Fact → Bool
  pub fits_event_body : EventBody → Bool
  pub fits_event : Event → Bool
  pub fits_snapshot_body : SnapshotBody → Bool
  pub fits_snapshot : Snapshot → Bool

unfoldable pub State-discrete : Discrete State
State-discrete = hlevel

unfoldable pub Phase-discrete : Discrete Phase
Phase-discrete = hlevel

unfoldable pub Status-discrete : Discrete Status
Status-discrete = hlevel

unfoldable pub SelectedPolicy-discrete : Discrete SelectedPolicy
SelectedPolicy-discrete = hlevel ℕ_discrete

unfoldable pub Assessment-discrete : Discrete Assessment
Assessment-discrete = hlevel ℕ_discrete

unfoldable pub Evidence-discrete : Discrete Evidence
Evidence-discrete = hlevel ℕ_discrete

unfoldable pub Event-discrete : Discrete Event
Event-discrete = hlevel ℕ_discrete

unfoldable pub Snapshot-discrete : Discrete Snapshot
Snapshot-discrete = hlevel ℕ_discrete

instance abbrev pub state_eq : Eq State
state_eq = record { eq_dec = State-discrete }

instance abbrev pub phase_eq : Eq Phase
phase_eq = record { eq_dec = Phase-discrete }

instance abbrev pub status_eq : Eq Status
status_eq = record { eq_dec = Status-discrete }

instance abbrev pub selected_policy_eq : Eq SelectedPolicy
selected_policy_eq = record { eq_dec = SelectedPolicy-discrete }

instance abbrev pub assessment_eq : Eq Assessment
assessment_eq = record { eq_dec = Assessment-discrete }

instance abbrev pub event_eq : Eq Event
event_eq = record { eq_dec = Event-discrete }

instance abbrev pub snapshot_eq : Eq Snapshot
snapshot_eq = record { eq_dec = Snapshot-discrete }
