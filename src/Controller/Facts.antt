-- ===== src/Controller/Facts.antt =====
-- src/controller.ts, the `switch` of `applyParsedControllerEvent`: one function for each kind of
-- fact, from the snapshot's fields to the changed ones.
pub mod Reasons
use tasc.Base.{
  ℕ, Bool, true, false, not, ◌&&◌, ◌||◌, List, [], ◌∷◌, ◌++◌, Option, none, some, ◌==◌, nat_eq,
  option_eq, is_none, includes, map_get, if◌then◌else◌, Result, ok, err, require, refuse, ◌>>=◌,
  ◌>>◌,
}
use tasc.Base.Int.{is_neg, is_pos}
use tasc.Text.{Text, text_eq, codes}
use tasc.Text.Sort.{distinct, sort_by}
use tasc.Controller.Types.{
  State, Status, SelectedPolicy, Assessment, Manifest, Evidence, Observation, Drift, Fact, Event,
  SnapshotBody, state_eq, status_eq, assessment_eq, selected_policy_eq,
}
use tasc.Controller.Errors.{
  Error, invalid_from_state, registration_validity, missing_source, source_mismatch,
  development_protocol, development_source, shadow_policy, holdout_policy, window_policy,
  window_early, window_missing, window_assessment_policy, window_assessment_source,
  deployment_policy, deployment_time, expiry_time, expiry_early,
}
use tasc.Controller.Semantics.{policy_is}
use tasc.Controller.Log.{compare_timestamps}
use tasc.Controller.Envelope.{refuse_before, refuse_before?}
use tasc.Controller.Ledger.{latest_manifest, apply_window}

-- The authentic decisions at hand, by decision digest.
abbrev pub Sources : Type 0
Sources = List (Text × Assessment)

-- `requireState`.
abbrev pub require_state : State → List State → Result Error (Unit {0})
require_state current allowed = require (includes allowed current) invalid_from_state

-- `appendReason`.
unfoldable pub append_reason : List Text → Text → List Text
unfolding distinct sort_by
append_reason reasons reason = sort_by (λ r. r) (distinct [] (reasons ++ reason ∷ []))

-- `sameSelectedPolicy`.
unfoldable pub same_selected : Option SelectedPolicy → Option SelectedPolicy → Bool
same_selected none q = false
same_selected (some p) none = false
same_selected (some p) (some q) = p == q

-- `assertAuthenticProjection`.
unfoldable pub check_authentic : Assessment → Sources → Result Error (Unit {0})
check_authentic a sources = elim (map_get a.decision_digest sources) [
  | none ↦ err missing_source
  | some source ↦ require (source == a) source_mismatch
]

abbrev pub stale_with : SnapshotBody → Text → SnapshotBody
stale_with s reason = record s {
  stale_reasons = append_reason s.stale_reasons reason;
  state = State.stale;
}

abbrev pub assessment_stale : Text
assessment_stale = codes "assessment-stale"

abbrev pub protocol_expired : Text
protocol_expired = codes "protocol-expired"

abbrev pub from_evidence : Option Evidence → Assessment → Bool
from_evidence none a = false
from_evidence (some e) a =
    a.dataset_digest == e.dataset_digest
    && a.trace_set_digest == e.trace_set_digest
    && a.evaluator_set_digest == e.evaluator_set_digest

-- The state after a development decision.
abbrev pub after_development : Status → SnapshotBody → Option SelectedPolicy → SnapshotBody
after_development Status.nominated s p = record s { selected_policy = p; state = State.nominated }
after_development Status.stale s p = stale_with s assessment_stale
after_development _ s p = record s { state = State.hold }

abbrev pub after_holdout : Status → SnapshotBody → SnapshotBody
after_holdout Status.pass s = record s { state = State.holdout_confirmed }
after_holdout Status.stale s = stale_with s assessment_stale
after_holdout _ s = record s { state = State.hold }

-- The state after a window decision; the Boolean says whether it was MONITORING.
abbrev pub after_window : Status → Bool → SnapshotBody → SnapshotBody
after_window Status.pass true s = record s { state = State.monitoring }
after_window Status.pass false s = record s { state = State.promotion_recommended }
after_window Status.stale monitoring s = stale_with s assessment_stale
after_window Status.hold true s = record s { state = State.rollback_recommended }
after_window _ monitoring s = record s { state = State.hold }

abbrev pub with_assessment : SnapshotBody → Assessment → SnapshotBody
with_assessment s a = record s { assessments = s.assessments ++ a ∷ [] }

unfoldable pub on_registered : Text → Text → SnapshotBody → Result Error SnapshotBody
on_registered created expires s = do
  require_state s.state (State.draft ∷ [])
  require (created == s.protocol_created_at && expires == s.protocol_expires_at)
      registration_validity
  ok (record s { state = State.registered })

unfoldable pub on_collection : Text → SnapshotBody → Result Error SnapshotBody
on_collection id s = do
  require_state s.state (State.registered ∷ [])
  ok (record s { collection_id = some id; state = State.collecting })

unfoldable pub on_evidence : Evidence → SnapshotBody → Result Error SnapshotBody
on_evidence e s = do
  require_state s.state (State.collecting ∷ [])
  ok (record s { development_evidence = some e; state = State.dev_ready })

unfoldable pub on_development : Sources → Assessment → SnapshotBody → Result Error SnapshotBody
unfolding check_authentic
on_development sources a s = do
  require_state s.state (State.dev_ready ∷ [])
  check_authentic a sources
  require (a.protocol_digest == s.protocol_digest) development_protocol
  require (from_evidence s.development_evidence a) development_source
  ok (after_development a.status (with_assessment s a) a.selected_policy)

unfoldable pub on_shadow : Text → SnapshotBody → Result Error SnapshotBody
on_shadow frozen s = do
  require_state s.state (State.nominated ∷ [])
  require (policy_is s.selected_policy frozen) shadow_policy
  ok (record s { state = State.shadow_assessing })

unfoldable pub on_holdout : Sources → Assessment → SnapshotBody → Result Error SnapshotBody
unfolding check_authentic same_selected
on_holdout sources a s = do
  require_state s.state (State.shadow_assessing ∷ [])
  check_authentic a sources
  require
      (a.protocol_digest == s.protocol_digest && same_selected s.selected_policy a.selected_policy)
      holdout_policy
  ok (after_holdout a.status (with_assessment s a))

abbrev pub manifest_states : List State
manifest_states =
    State.shadow_assessing ∷ State.holdout_confirmed ∷ State.promotion_recommended
    ∷ State.monitoring ∷ []

unfoldable pub on_manifest : Text → Manifest → SnapshotBody → Result Error SnapshotBody
on_manifest occurred_at p s = do
  require_state s.state manifest_states
  require
      (p.protocol_digest == s.protocol_digest && policy_is s.selected_policy p.frozen_policy_digest)
      window_policy
  d ← compare_timestamps p.ingestion_watermark occurred_at
  refuse (is_pos d) window_early
  windows ← apply_window s.windows p
  ok (record s {
    windows = windows;
    state = if s.state == State.promotion_recommended then State.holdout_confirmed else s.state;
  })

-- The decision is about the newest revision and its exact source sets.
abbrev pub is_of_manifest : Option Manifest → Assessment → Bool
is_of_manifest none a = false
is_of_manifest (some m) a =
    a.window_manifest_digest == some m.manifest_digest
    && a.trace_set_digest == m.trace_set_digest
    && a.evaluator_set_digest == m.evaluator_set_digest

unfoldable pub on_window : Sources → Text → Assessment → SnapshotBody → Result Error SnapshotBody
unfolding check_authentic same_selected
on_window sources id a s = do
  require_state s.state (State.holdout_confirmed ∷ State.monitoring ∷ [])
  check_authentic a sources
  let latest = latest_manifest id s.windows
  refuse (is_none latest) window_missing
  require
      (a.protocol_digest == s.protocol_digest && same_selected s.selected_policy a.selected_policy)
      window_assessment_policy
  require (is_of_manifest latest a) window_assessment_source
  ok (after_window a.status (s.state == State.monitoring) (with_assessment s a))

unfoldable pub on_deployment : Text → Observation → SnapshotBody → Result Error SnapshotBody
on_deployment occurred_at o s = do
  require_state s.state (State.promotion_recommended ∷ [])
  require (policy_is s.selected_policy o.policy_digest) deployment_policy
  d ← compare_timestamps o.observed_at occurred_at
  refuse (is_pos d) deployment_time
  refuse_before? o.observed_at s.last_event_at deployment_time
  ok (record s { deployment_observation = some o; state = State.monitoring })

unfoldable pub on_drift : Drift → SnapshotBody → Result Error SnapshotBody
on_drift d s = ok (stale_with s d.reason_code)

unfoldable pub on_expiry : Text → Text → SnapshotBody → Result Error SnapshotBody
on_expiry occurred_at as_of s = do
  require (as_of == occurred_at) expiry_time
  refuse_before as_of s.protocol_expires_at expiry_early
  ok (stale_with s protocol_expired)

unfoldable pub on_retired : SnapshotBody → Result Error SnapshotBody
on_retired s = ok (record s { state = State.retired })

-- The `switch`.
unfoldable pub on_fact : Sources → Text → Fact → SnapshotBody → Result Error SnapshotBody
on_fact sources now (Fact.protocol_registered created expires) s = on_registered created expires s
on_fact sources now (Fact.collection_started id) s = on_collection id s
on_fact sources now (Fact.development_evidence_ready e) s = on_evidence e s
on_fact sources now (Fact.development_assessment_recorded a) s = on_development sources a s
on_fact sources now (Fact.shadow_assessment_started frozen) s = on_shadow frozen s
on_fact sources now (Fact.holdout_assessment_recorded a) s = on_holdout sources a s
on_fact sources now (Fact.window_manifest_recorded p) s = on_manifest now p s
on_fact sources now (Fact.window_assessment_recorded id a) s = on_window sources id a s
on_fact sources now (Fact.deployment_observed o) s = on_deployment now o s
on_fact sources now (Fact.identity_drift_recorded d) s = on_drift d s
on_fact sources now (Fact.protocol_expiry_observed as_of) s = on_expiry now as_of s
on_fact sources now (Fact.controller_retired reason) s = on_retired s
