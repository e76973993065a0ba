-- ===== src/Controller/Tests.antt =====
-- A controller's life on concrete values: the lifecycle of tests/controller.test.ts.
pub mod Steps
pub mod Witnesses
use tasc.Base.{
  ℕ, zero, suc, ◌+◌, ◌≡◌, refl, Bool, true, false, List, [], ◌∷◌, ◌++◌, Option, none, some, Result,
  ok, err, ◌>>=◌, ◌>>◌, ℕ_discrete, Option-discrete, map, map_get, map_set,
}
use tasc.Text.{Text, codes, Text-discrete, is_slug, is_digest, compare_code_units}
use tasc.Text.Sort.{sort_by, distinct}
use tasc.Timestamp.{is_timestamp}
use tasc.Controller.Types.{
  State, Phase, Status, SelectedPolicy, Assessment, Manifest, Evidence, Observation, Fact,
  EventBody, Event, SnapshotBody, Snapshot, Contracts, State-discrete, Phase-discrete,
  Status-discrete, SelectedPolicy-discrete, Assessment-discrete, Event-discrete,
}
use tasc.Controller.Errors.{Error}
use tasc.Controller.Schema.{
  valid_snapshot, valid_event, valid_event_body, valid_snapshot_body, valid_fact,
}
use tasc.Controller.Semantics.{
  check_snapshot, check_identity, check_ledgers, check_revisions, check_revision, check_assessments,
  check_phase, check_policy, check_evidence, check_state,
}
use tasc.Controller.Log.{
  create_fact, fingerprint_fact, create_event, parse_event, create_snapshot, parse_snapshot,
  compare_timestamps,
}
use tasc.Controller.Envelope.{check_envelope}
use tasc.Controller.Ledger.{apply_window, latest_manifest}
use tasc.Controller.Facts.{
  Sources, append_reason, protocol_expired, on_fact, on_registered, on_collection, on_evidence,
  on_development, on_shadow, on_holdout, on_manifest, on_window, on_deployment, on_drift, on_expiry,
  on_retired,
}
use tasc.Controller.Decisions.{Decision, project_decision, index_sources}
use tasc.Controller.Apply.{apply_event}
use tasc.Controller.Replay.{Handle, live, require_live, replay, look_up, replay_one}
use tasc.Controller.Commands.{
  Update, Protocol, append_live, create_controller, register, start_collection,
  mark_development_ready, record_development, start_shadow, record_holdout, record_manifest,
  record_window, record_deployment, retire, observe_time,
}

abbrev replicate : ℕ → ℕ → Text
replicate zero c = []
replicate (suc n) c = c ∷ replicate n c

-- A digest that ends in one given character.
abbrev pub digest_with : ℕ → Text
digest_with c = codes "sha256:" ++ (replicate 63 b'a' ++ c ∷ [])

abbrev event_digest : EventBody → Text
event_digest e = digest_with (b'0' + e.sequence)

-- Stands for SHA-256 where the sequence numbers stay below ten.
abbrev pub contracts : Contracts
contracts = record {
  digest_fact = λ _. digest_with b'a';
  digest_event = event_digest;
  digest_snapshot = λ _. digest_with b'a';
  fits_fact = λ _. true;
  fits_event_body = λ _. true;
  fits_event = λ _. true;
  fits_snapshot_body = λ _. true;
  fits_snapshot = λ _. true;
}

abbrev pub day : ℕ → Text
day c = codes "2026-07-2" ++ c ∷ codes "T00:00:00.000Z"

abbrev pub protocol : Protocol
protocol = record {
  study_id = codes "study";
  created_at = day b'0';
  expires_at = codes "2026-08-20T00:00:00.000Z";
  digest = digest_with b'1';
}

abbrev pub policy : SelectedPolicy
policy = record {
  policy_digest = digest_with b'2';
  issued_at = day b'1';
  expires_at = codes "2026-08-20T00:00:00.000Z";
}

abbrev pub evidence : Evidence
evidence = record {
  dataset_digest = digest_with b'3';
  trace_set_digest = digest_with b'4';
  evaluator_set_digest = digest_with b'5';
}

abbrev pub decision : Phase → Status → ℕ → Option Text → Decision
decision phase status c manifest = record {
  authentic = true;
  phase = phase;
  status = status;
  decision_digest = digest_with c;
  assessment_context_digest = digest_with b'6';
  protocol_digest = digest_with b'1';
  dataset_digest = digest_with b'3';
  trace_set_digest = digest_with b'4';
  evaluator_set_digest = digest_with b'5';
  selected_policy = some policy;
  selected_policy_digest = some (digest_with b'2');
  window_manifest_digest = manifest;
}

abbrev pub manifest : Manifest
manifest = record {
  window_id = codes "window";
  manifest_digest = digest_with b'7';
  protocol_digest = digest_with b'1';
  frozen_policy_digest = digest_with b'2';
  event_time_start_inclusive = day b'2';
  event_time_end_exclusive = day b'3';
  ingestion_watermark = day b'3';
  revision = 1;
  predecessor_manifest_digest = none;
  trace_set_digest = digest_with b'4';
  evaluator_set_digest = digest_with b'5';
  capacity_evidence_digest = digest_with b'8';
}

abbrev pub observation : Observation
observation = record {
  observation_id = codes "seen";
  environment_id = codes "prod";
  policy_digest = digest_with b'2';
  observed_at = day b'4';
}

-- The life up to MONITORING: nine events.
abbrev pub decisions : List Decision
decisions =
    decision Phase.development Status.nominated b'a' none
    ∷ decision Phase.holdout Status.pass b'b' none
    ∷ decision Phase.window Status.pass b'c' (some (digest_with b'7'))
    ∷ []

unfoldable pub genesis : Result Error Handle
unfolding create_controller register start_collection mark_development_ready record_development
    start_shadow record_holdout record_manifest record_window record_deployment retire observe_time
    append_live require_live look_up replay_one project_decision index_sources apply_event on_fact
    on_registered on_collection on_evidence on_development on_shadow on_holdout on_manifest
    on_window on_deployment on_drift on_expiry on_retired apply_window latest_manifest
    check_envelope create_fact fingerprint_fact create_event parse_event create_snapshot
    parse_snapshot compare_timestamps check_snapshot check_identity check_ledgers check_revisions
    check_revision check_assessments check_phase check_policy check_evidence check_state
    valid_snapshot valid_event valid_event_body valid_snapshot_body valid_fact State-discrete
    Phase-discrete Status-discrete SelectedPolicy-discrete Assessment-discrete Event-discrete
    is_slug is_digest compare_code_units is_timestamp Text-discrete ℕ_discrete Option-discrete
    map_get map_set sort_by distinct append_reason
genesis = create_controller contracts protocol (codes "controller")

unfoldable pub life : Result Error (List Update)
unfolding genesis
life = do
  h0 ← genesis
  u1 ← register contracts h0 (day b'0')
  u2 ← start_collection contracts u1.handle (codes "collection") (day b'0')
  u3 ← mark_development_ready contracts u2.handle evidence (day b'1')
  u4 ←
      record_development contracts u3.handle (decision Phase.development Status.nominated b'a' none)
        (day b'2')
  u5 ← start_shadow contracts u4.handle (day b'2')
  u6 ← record_holdout contracts u5.handle (decision Phase.holdout Status.pass b'b' none) (day b'3')
  u7 ← record_manifest contracts u6.handle manifest (day b'3')
  u8 ←
      record_window contracts u7.handle
        (decision Phase.window Status.pass b'c' (some (digest_with b'7'))) (day b'4')
  u9 ← record_deployment contracts u8.handle observation (day b'5')
  ok (u1 ∷ u2 ∷ u3 ∷ u4 ∷ u5 ∷ u6 ∷ u7 ∷ u8 ∷ u9 ∷ [])

abbrev states_of : Result Error (List Update) → List State
states_of (ok us) = map (λ u. u.handle.snapshot.state) us
states_of (err e) = []

life_states :
    states_of life
    ≡ State.registered ∷ State.collecting ∷ State.dev_ready ∷ State.nominated
      ∷ State.shadow_assessing ∷ State.holdout_confirmed ∷ State.holdout_confirmed
      ∷ State.promotion_recommended ∷ State.monitoring ∷ []
unfolding life
life_states = refl
