-- ===== src/Controller/Schema.antt =====
-- src/controller-events.ts, the zod schemas: each is the test that its `parse` makes of a value of
-- the type in Controller/Types.antt.
use tasc.Base.{
  ℕ, ◌^◌, ◌-◌, Bool, true, false, not, ◌&&◌, ◌||◌, Option, none, some, leb, ◌==◌, nat_eq, length,
  all, is_none, is_some,
}
use tasc.Base.Int.{is_neg, is_pos}
use tasc.Text.{Text, text_eq, is_slug, is_digest, compare_code_units}
use tasc.Timestamp.{is_timestamp}
use tasc.Controller.Types.{
  Phase, Status, SelectedPolicy, Assessment, Manifest, Evidence, Observation, Drift, Fact,
  EventBody, Event, Ledger, SnapshotBody, Snapshot, status_eq, phase_eq,
}

abbrev pub max_safe_integer : ℕ
max_safe_integer = 2 ^ 53 - 1

abbrev pub max_controller_events : ℕ
max_controller_events = 10000

abbrev pub max_controller_assessments : ℕ
max_controller_assessments = 256

abbrev pub max_controller_windows : ℕ
max_controller_windows = 64

abbrev pub max_controller_window_revisions : ℕ
max_controller_window_revisions = 256

-- `schema.nullable()`.
abbrev pub nullable {ℓ} : {A : Type ℓ} → (A → Bool) → Option A → Bool
nullable p none = true
nullable p (some a) = p a

-- `compareCodeUnits(a, b) < 0`.
abbrev pub before : Text → Text → Bool
before a b = is_neg (compare_code_units a b)

unfoldable pub valid_policy : SelectedPolicy → Bool
valid_policy p =
    is_digest p.policy_digest
    && is_timestamp p.issued_at
    && is_timestamp p.expires_at
    && before p.issued_at p.expires_at

unfoldable pub valid_base : Assessment → Bool
unfolding valid_policy
valid_base a =
    is_digest a.decision_digest
    && is_digest a.assessment_context_digest
    && is_digest a.protocol_digest
    && is_digest a.dataset_digest
    && is_digest a.trace_set_digest
    && is_digest a.evaluator_set_digest
    && nullable valid_policy a.selected_policy

abbrev is_development_status : Status → Bool
is_development_status Status.pass = false
is_development_status Status.hold = false
is_development_status _ = true

abbrev is_later_status : Status → Bool
is_later_status Status.nominated = false
is_later_status Status.no_candidate = false
is_later_status _ = true

unfoldable pub valid_development : Assessment → Bool
unfolding valid_base
valid_development a =
    a.phase == Phase.development
    && is_development_status a.status
    && is_none a.window_manifest_digest
    && valid_base a

unfoldable pub valid_holdout : Assessment → Bool
unfolding valid_base
valid_holdout a =
    a.phase == Phase.holdout
    && is_later_status a.status
    && is_none a.window_manifest_digest
    && is_some a.selected_policy
    && valid_base a

unfoldable pub valid_window : Assessment → Bool
unfolding valid_base
valid_window a =
    a.phase == Phase.window
    && is_later_status a.status
    && is_some a.window_manifest_digest
    && nullable is_digest a.window_manifest_digest
    && is_some a.selected_policy
    && valid_base a

-- Equality of two Booleans.
abbrev pub same : Bool → Bool → Bool
same true b = b
same false b = not b

unfoldable pub valid_assessment : Assessment → Bool
unfolding valid_development valid_holdout valid_window
valid_assessment a =
    (valid_development a || valid_holdout a || valid_window a)
    && (not (a.phase == Phase.development)
        || same (a.status == Status.nominated) (is_some a.selected_policy))

unfoldable pub valid_manifest : Manifest → Bool
valid_manifest m =
    is_slug m.window_id
    && is_digest m.manifest_digest
    && is_digest m.protocol_digest
    && is_digest m.frozen_policy_digest
    && is_timestamp m.event_time_start_inclusive
    && is_timestamp m.event_time_end_exclusive
    && is_timestamp m.ingestion_watermark
    && leb 1 m.revision
    && leb m.revision max_safe_integer
    && nullable is_digest m.predecessor_manifest_digest
    && is_digest m.trace_set_digest
    && is_digest m.evaluator_set_digest
    && is_digest m.capacity_evidence_digest
    && before m.event_time_start_inclusive m.event_time_end_exclusive
    && not (is_pos (compare_code_units m.event_time_end_exclusive m.ingestion_watermark))
    && same (m.revision == 1) (is_none m.predecessor_manifest_digest)

unfoldable pub valid_evidence : Evidence → Bool
valid_evidence e =
    is_digest e.dataset_digest && is_digest e.trace_set_digest && is_digest e.evaluator_set_digest

unfoldable pub valid_observation : Observation → Bool
valid_observation o =
    is_slug o.observation_id
    && is_slug o.environment_id
    && is_digest o.policy_digest
    && is_timestamp o.observed_at

-- With the refinement of `controllerFactSchema`: a drift names two digests.
unfoldable pub valid_drift : Drift → Bool
valid_drift d =
    is_digest d.expected_digest
    && is_digest d.observed_digest
    && is_slug d.reason_code
    && not (d.expected_digest == d.observed_digest)

unfoldable pub valid_fact : Fact → Bool
unfolding valid_development valid_holdout valid_window valid_manifest valid_evidence
    valid_observation valid_drift
valid_fact (Fact.protocol_registered created expires) = is_timestamp created && is_timestamp expires
valid_fact (Fact.collection_started id) = is_slug id
valid_fact (Fact.development_evidence_ready e) = valid_evidence e
valid_fact (Fact.development_assessment_recorded a) = valid_development a
valid_fact (Fact.shadow_assessment_started digest) = is_digest digest
valid_fact (Fact.holdout_assessment_recorded a) = valid_holdout a
valid_fact (Fact.window_manifest_recorded m) = valid_manifest m
valid_fact (Fact.window_assessment_recorded id a) = is_slug id && valid_window a
valid_fact (Fact.deployment_observed o) = valid_observation o
valid_fact (Fact.identity_drift_recorded d) = valid_drift d
valid_fact (Fact.protocol_expiry_observed as_of) = is_timestamp as_of
valid_fact (Fact.controller_retired reason) = is_slug reason

unfoldable pub valid_event_body : EventBody → Bool
unfolding valid_fact
valid_event_body e =
    is_slug e.controller_id
    && is_slug e.study_id
    && is_digest e.protocol_digest
    && leb 1 e.sequence
    && leb e.sequence max_controller_events
    && nullable is_digest e.predecessor_event_id
    && is_timestamp e.occurred_at
    && valid_fact e.fact
    && is_digest e.fact_digest

unfoldable pub valid_event : Event → Bool
unfolding valid_event_body
valid_event e = valid_event_body e.body && is_digest e.event_id

unfoldable pub valid_ledger : Ledger → Bool
unfolding valid_manifest
valid_ledger l =
    is_slug l.window_id
    && leb 1 (length l.revisions)
    && leb (length l.revisions) max_controller_window_revisions
    && all valid_manifest l.revisions

unfoldable pub valid_snapshot_body : SnapshotBody → Bool
unfolding valid_evidence valid_policy valid_assessment valid_ledger valid_observation
valid_snapshot_body s =
    is_slug s.controller_id
    && is_slug s.study_id
    && is_digest s.protocol_digest
    && is_timestamp s.protocol_created_at
    && is_timestamp s.protocol_expires_at
    && leb s.sequence max_controller_events
    && nullable is_digest s.last_event_id
    && nullable is_timestamp s.last_event_at
    && nullable is_slug s.collection_id
    && nullable valid_evidence s.development_evidence
    && nullable valid_policy s.selected_policy
    && all valid_assessment s.assessments
    && leb (length s.assessments) max_controller_assessments
    && all valid_ledger s.windows
    && leb (length s.windows) max_controller_windows
    && nullable valid_observation s.deployment_observation
    && all is_slug s.stale_reasons
    && leb (length s.stale_reasons) 64

unfoldable pub valid_snapshot : Snapshot → Bool
unfolding valid_snapshot_body
valid_snapshot s = valid_snapshot_body s.body && is_digest s.snapshot_digest
