-- ===== src/Controller/Commands.antt =====
-- src/controller.ts, the commands: each makes one fact, and appends it to a live snapshot as the
-- next event of its log.
pub mod Logged
pub mod Expiry
pub mod Session
use tasc.Base.{
  ℕ, ◌+◌, Bool, List, [], ◌∷◌, Option, none, some, ◌==◌, any, find?, is_some, option_eq,
  if◌then◌else◌, map_set, Result, ok, err, require, refuse, ◌>>=◌, ◌>>◌,
}
use tasc.Base.Int.{is_neg}
use tasc.Text.{Text, text_eq}
use tasc.Controller.Types.{
  State, Phase, SelectedPolicy, Manifest, Evidence, Observation, Drift, Fact, Event, Ledger,
  Snapshot, Contracts, phase_eq,
}
use tasc.Controller.Errors.{Error, wrong_phase, no_policy, no_window, time_before_creation}
use tasc.Controller.Log.{
  compare_timestamps, create_fact, fingerprint_fact, create_event, create_snapshot,
}
use tasc.Controller.Envelope.{refuse_before}
use tasc.Controller.Decisions.{Decision, project_decision, index_sources}
use tasc.Controller.Apply.{apply_event}
use tasc.Controller.Replay.{Handle, history_of, live, require_live}

-- `ControllerUpdate`.
pub record Update : Type 0 where
  pub event : Event
  pub handle : Handle

-- What `createController` reads of a normalized protocol, with its fingerprint.
pub record Protocol : Type 0 where
  pub study_id : Text
  pub created_at : Text
  pub expires_at : Text
  pub digest : Text

module _ (c : Contracts) where
  -- `appendLiveFact`: the next event of the log, and the snapshot after it.
  unfoldable pub make_event : Snapshot → Fact → Text → Result Error Event
  make_event s fact_input occurred_at = do
    fact ← create_fact c fact_input
    digest ← fingerprint_fact c fact
    create_event c (record {
      controller_id = s.controller_id;
      study_id = s.study_id;
      protocol_digest = s.protocol_digest;
      sequence = s.sequence + 1;
      predecessor_event_id = s.last_event_id;
      occurred_at = occurred_at;
      fact = fact;
      fact_digest = digest;
    })

  unfoldable pub append_event : Handle → Event → List Decision → Result Error Update
  append_event held event decisions = do
    sources ← index_sources c decisions
    next ← apply_event c sources held.snapshot event
    ok (record {
      event = event;
      handle = live next (map_set event.event_id event (history_of held));
    })

  unfoldable pub append_live : Handle → Fact → Text → List Decision → Result Error Update
  unfolding make_event append_event
  append_live h fact_input occurred_at decisions = do
    held ← require_live c h
    event ← make_event held.snapshot fact_input occurred_at
    append_event held event decisions

  -- `createController`, given the normalized protocol.
  unfoldable pub create_controller : Protocol → Text → Result Error Handle
  create_controller p controller_id = do
    s ← create_snapshot c (record {
      controller_id = controller_id;
      study_id = p.study_id;
      protocol_digest = p.digest;
      protocol_created_at = p.created_at;
      protocol_expires_at = p.expires_at;
      state = State.draft;
      sequence = 0;
      last_event_id = none;
      last_event_at = none;
      collection_id = none;
      development_evidence = none;
      selected_policy = none;
      assessments = [];
      windows = [];
      deployment_observation = none;
      stale_reasons = [];
    })
    ok (live s [])

  unfoldable pub register : Handle → Text → Result Error Update
  unfolding append_live
  register h now = do
    held ← require_live c h
    append_live held
        (Fact.protocol_registered held.snapshot.protocol_created_at
          held.snapshot.protocol_expires_at)
        now []

  unfoldable pub start_collection : Handle → Text → Text → Result Error Update
  unfolding append_live
  start_collection h id now = append_live h (Fact.collection_started id) now []

  unfoldable pub mark_development_ready : Handle → Evidence → Text → Result Error Update
  unfolding append_live
  mark_development_ready h e now = append_live h (Fact.development_evidence_ready e) now []

  unfoldable pub record_development : Handle → Decision → Text → Result Error Update
  unfolding append_live
  record_development h d now = do
    a ← project_decision c d
    require (a.phase == Phase.development) wrong_phase
    append_live h (Fact.development_assessment_recorded a) now (d ∷ [])

  unfoldable pub start_shadow : Handle → Text → Result Error Update
  unfolding append_live
  start_shadow h now = do
    held ← require_live c h
    elim held.snapshot.selected_policy [
      | none ↦ err no_policy
      | some p ↦ append_live held (Fact.shadow_assessment_started p.policy_digest) now []
    ]

  unfoldable pub record_holdout : Handle → Decision → Text → Result Error Update
  unfolding append_live
  record_holdout h d now = do
    a ← project_decision c d
    require (a.phase == Phase.holdout) wrong_phase
    append_live h (Fact.holdout_assessment_recorded a) now (d ∷ [])

  -- `recordWindowManifest`, given the projection of the parsed manifest.
  unfoldable pub record_manifest : Handle → Manifest → Text → Result Error Update
  unfolding append_live
  record_manifest h p now = append_live h (Fact.window_manifest_recorded p) now []

  -- The ledger with a revision of this manifest digest.
  abbrev ledger_with : List Ledger → Option Text → Option Ledger
  ledger_with windows digest =
      find? (λ l. any (λ r. some r.manifest_digest == digest) l.revisions) windows

  unfoldable pub record_window : Handle → Decision → Text → Result Error Update
  unfolding append_live
  record_window h d now = do
    held ← require_live c h
    a ← project_decision c d
    require (a.phase == Phase.window) wrong_phase
    elim (ledger_with held.snapshot.windows a.window_manifest_digest) [
      | none ↦ err no_window
      | some l ↦ append_live held (Fact.window_assessment_recorded l.window_id a) now (d ∷ [])
    ]

  unfoldable pub record_deployment : Handle → Observation → Text → Result Error Update
  unfolding append_live
  record_deployment h o now = append_live h (Fact.deployment_observed o) now []

  unfoldable pub record_drift : Handle → Drift → Text → Result Error Update
  unfolding append_live
  record_drift h d now = append_live h (Fact.identity_drift_recorded d) now []

  unfoldable pub retire : Handle → Text → Text → Result Error Update
  unfolding append_live
  retire h reason now = append_live h (Fact.controller_retired reason) now []

  -- `observeProtocolTime`: before expiry there is no event, and the snapshot is the given one.
  unfoldable pub observe_time : Handle → Text → Result Error (Option Event × Handle)
  unfolding append_live
  observe_time h as_of = do
    held ← require_live c h
    refuse_before as_of held.snapshot.protocol_created_at time_before_creation
    d ← compare_timestamps as_of held.snapshot.protocol_expires_at
    if is_neg d then ok (none, h) else do
      u ← append_live h (Fact.protocol_expiry_observed as_of) as_of []
      ok (some u.event, u.handle)
