-- ===== src/Window/Types.antt =====
-- src/window.ts, the values of window manifests. The literal fields `version`, `algorithm`, `metric`
-- and `source` are left out.
use tasc.Base.{ℕ, Bool, List, [], ◌∷◌, Option, none, some, Eq, ℕ_discrete}
use tasc.Text.{Text, codes}

pub record MembershipRule : Type 0 where
  pub seed : Text
  pub sample_basis_points : ℕ

pub record ReportedCapacity : Type 0 where
  -- A finite non-negative number, by its canonical JSON.
  pub value : Text
  pub declaration_digest : Text
  pub frozen_policy_digest : Text
  pub event_time_start_inclusive : Text
  pub event_time_end_exclusive : Text

-- `WindowCapacityEvidence`.
pub data Capacity : Type 0 where
  unavailable : Text → Capacity
  reported : ReportedCapacity → Capacity

pub record ManifestBody : Type 0 where
  pub window_id : Text
  pub protocol_digest : Text
  pub frozen_policy_digest : Text
  pub event_time_start_inclusive : Text
  pub event_time_end_exclusive : Text
  pub ingestion_watermark : Text
  pub closure_reason : Text
  pub membership_rule : MembershipRule
  pub membership_digest : Text
  pub revision : ℕ
  pub predecessor_manifest_digest : Option Text
  pub trace_set_digest : Text
  pub evaluator_set_digest : Text
  pub capacity_evidence : Capacity

pub record WindowManifest : Type 0 where
  pub body : ManifestBody
  pub open body use *
  pub self_digest : Text

-- `WindowManifestRevisionChanges`.
pub record Changes : Type 0 where
  pub ingestion_watermark : Text
  pub closure_reason : Text
  pub trace_set_digest : Text
  pub evaluator_set_digest : Text
  pub capacity_evidence : Capacity

-- What the window checks read of a parsed trace.
pub record Attempt : Type 0 where
  pub started_at : Text
  pub completed_at : Text

pub record Trace : Type 0 where
  pub split : Text
  pub protocol_digest : Text
  pub policy_digest : Text
  pub collection_window_id : Text
  pub collection_window_membership_digest : Text
  pub attempts : List Attempt
  pub case_id : Text
  pub replicate_id : Text

abbrev pub split_online : Text
split_online = codes "online"

-- `trace.attempts[0]`.
abbrev pub first_attempt : List Attempt → Option Attempt
first_attempt [] = none
first_attempt (a ∷ rest) = some a

-- What the windows use of src/evidence.ts: SHA-256 digests in the domain of each kind of value, the
-- one of a selection as an integer, and whether a value is within the bounds of a copy.
pub record WindowContracts : Type 0 where
  pub digest_manifest : ManifestBody → Text
  pub digest_membership : Text → Text → MembershipRule → Text
  pub digest_capacity : Capacity → Text
  pub digest_selection : Text → Text → Text → ℕ
  pub fits_manifest : WindowManifest → Bool
  pub fits_changes : Changes → Bool
  pub fits_body : ManifestBody → Bool
  pub fits_binding : Text → Text → MembershipRule → Bool
  pub fits_selection : MembershipRule → Text → Text → Bool
  pub fits_policy : Text → Bool

pub data WindowError : Type 0 where
  not_in_bounds bad_shape bad_interval bad_watermark first_predecessor : WindowError
  missing_predecessor bad_membership capacity_policy capacity_bounds bad_self_digest : WindowError
  watermark_back nothing_changed too_many_revisions : WindowError
  not_online other_protocol other_policy other_window other_membership : WindowError
  no_attempt outside_interval late_completion not_sampled : WindowError
  manifest_protocol manifest_rule manifest_policy late_evidence : WindowError

-- What `fingerprintWindowManifest` is given.
pub data ManifestInput : Type 0 where
  with_digest : WindowManifest → ManifestInput
  without_digest : ManifestBody → ManifestInput

-- What the windows read of a normalized protocol, with its fingerprint.
pub record WindowProtocol : Type 0 where
  pub digest : Text
  pub online_window_membership : MembershipRule

unfoldable pub Capacity-discrete : Discrete Capacity
Capacity-discrete = hlevel ℕ_discrete

instance abbrev pub capacity_eq : Eq Capacity
capacity_eq = record { eq_dec = Capacity-discrete }
