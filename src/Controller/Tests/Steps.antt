-- ===== src/Controller/Tests/Steps.antt =====
-- The life of a controller, written out: assessments, snapshots and events of Controller/Tests.antt.
use tasc.Base.{ℕ, ◌+◌, [], ◌∷◌, Option, none, some}
use tasc.Text.{Text, codes}
use tasc.Controller.Types.{State, Phase, Status, Assessment, Fact, Event, SnapshotBody, Snapshot}
use tasc.Controller.Facts.{Sources, protocol_expired}
use tasc.Controller.Decisions.{Decision}
use tasc.Controller.Replay.{Handle, live}
use tasc.Controller.Tests.{digest_with, day, policy, evidence, decision, manifest}

-- The same life, written out: the assessments, the bodies of the snapshots and the events.
abbrev pub assessment : Decision → Assessment
assessment d = record {
  decision_digest = d.decision_digest;
  assessment_context_digest = d.assessment_context_digest;
  protocol_digest = d.protocol_digest;
  dataset_digest = d.dataset_digest;
  trace_set_digest = d.trace_set_digest;
  evaluator_set_digest = d.evaluator_set_digest;
  selected_policy = d.selected_policy;
  phase = d.phase;
  status = d.status;
  window_manifest_digest = d.window_manifest_digest;
}

abbrev pub developed : Assessment
developed = assessment (decision Phase.development Status.nominated b'a' none)

abbrev pub held_out : Assessment
held_out = assessment (decision Phase.holdout Status.pass b'b' none)

abbrev pub watched : Assessment
watched = assessment (decision Phase.window Status.pass b'c' (some (digest_with b'7')))

abbrev pub draft_body : SnapshotBody
draft_body = record {
  controller_id = codes "controller";
  study_id = codes "study";
  protocol_digest = digest_with b'1';
  protocol_created_at = day b'0';
  protocol_expires_at = codes "2026-08-20T00:00:00.000Z";
  state = State.draft;
  sequence = 0;
  last_event_id = none;
  last_event_at = none;
  collection_id = none;
  development_evidence = none;
  selected_policy = none;
  assessments = [];
  windows = [];
  deployment_observation = none;
  stale_reasons = [];
}

-- The last event's number and time.
abbrev pub at : ℕ → ℕ → SnapshotBody → SnapshotBody
at n d s = record s {
  sequence = n;
  last_event_id = some (digest_with (b'0' + n));
  last_event_at = some (day d);
}

abbrev pub registered_body : SnapshotBody
registered_body = at 1 b'0' (record draft_body { state = State.registered })

abbrev pub collecting_body : SnapshotBody
collecting_body =
    at 2 b'0' (record registered_body {
      state = State.collecting;
      collection_id = some (codes "collection");
    })

abbrev pub window_body : SnapshotBody
window_body = at 7 b'3' (record collecting_body {
  state = State.holdout_confirmed;
  development_evidence = some evidence;
  selected_policy = some policy;
  assessments = developed ∷ held_out ∷ [];
  windows = record { window_id = codes "window"; revisions = manifest ∷ [] } ∷ [];
})

abbrev pub recommended_body : SnapshotBody
recommended_body = at 8 b'4' (record window_body {
  state = State.promotion_recommended;
  assessments = developed ∷ held_out ∷ watched ∷ [];
})

abbrev pub retired_body : SnapshotBody
retired_body = at 2 b'0' (record registered_body { state = State.retired })

abbrev pub sealed : SnapshotBody → Snapshot
sealed s = record { body = s; snapshot_digest = digest_with b'a' }

abbrev pub event : ℕ → ℕ → Option Text → Fact → Event
event n d predecessor fact = record {
  body = record {
    controller_id = codes "controller";
    study_id = codes "study";
    protocol_digest = digest_with b'1';
    sequence = n;
    predecessor_event_id = predecessor;
    occurred_at = day d;
    fact = fact;
    fact_digest = digest_with b'a';
  };
  event_id = digest_with (b'0' + n);
}

abbrev pub registration : Event
registration =
    event 1 b'0' none (Fact.protocol_registered (day b'0') (codes "2026-08-20T00:00:00.000Z"))

abbrev pub collection : Event
collection = event 2 b'0' (some (digest_with b'1')) (Fact.collection_started (codes "collection"))

abbrev pub recommendation : Event
recommendation =
    event 8 b'4' (some (digest_with b'7'))
      (Fact.window_assessment_recorded (codes "window") watched)

abbrev pub watched_sources : Sources
watched_sources = (digest_with b'c', watched) ∷ []

abbrev pub drafted : Handle
drafted = live (sealed draft_body) []

abbrev pub registered : Handle
registered = live (sealed registered_body) ((digest_with b'1', registration) ∷ [])

abbrev pub collecting : Handle
collecting =
    live (sealed collecting_body)
      ((digest_with b'1', registration) ∷ (digest_with b'2', collection) ∷ [])

-- Past the expiry.
abbrev pub late : Text
late = codes "2026-08-21T00:00:00.000Z"

abbrev pub expired_body : SnapshotBody
expired_body = record registered_body {
  state = State.stale;
  sequence = 2;
  last_event_id = some (digest_with b'2');
  last_event_at = some late;
  stale_reasons = protocol_expired ∷ [];
}

abbrev pub expiry : Event
expiry = record {
  body = record {
    controller_id = codes "controller";
    study_id = codes "study";
    protocol_digest = digest_with b'1';
    sequence = 2;
    predecessor_event_id = some (digest_with b'1');
    occurred_at = late;
    fact = Fact.protocol_expiry_observed late;
    fact_digest = digest_with b'a';
  };
  event_id = digest_with b'2';
}

abbrev pub expired : Handle
expired =
    live (sealed expired_body) ((digest_with b'1', registration) ∷ (digest_with b'2', expiry) ∷ [])

abbrev pub retired : Handle
retired = live (sealed retired_body) ((digest_with b'1', registration) ∷ [])
