-- ===== src/Controller/Apply.antt =====
-- src/controller.ts, `applyParsedControllerEvent`: one event onto a snapshot.
pub mod Parts
use tasc.Base.{Bool, Option, some, ◌==◌, Result, ok, err, refuse, ◌>>=◌, ◌>>◌}
use tasc.Controller.Types.{State, Event, Snapshot, SnapshotBody, Contracts, state_eq}
use tasc.Controller.Errors.{Error, retired_terminal}
use tasc.Controller.Log.{parse_event, parse_snapshot, create_snapshot}
use tasc.Controller.Envelope.{check_envelope}
use tasc.Controller.Facts.{Sources, on_fact}

-- The event's position goes into the new snapshot.
abbrev pub advance : Event → SnapshotBody → SnapshotBody
advance e s = record s {
  sequence = e.sequence;
  last_event_id = some e.event_id;
  last_event_at = some e.occurred_at;
}

module _ (c : Contracts) where
  unfoldable pub apply_event : Sources → Snapshot → Event → Result Error Snapshot
  apply_event sources snapshot_input event_input = do
    snapshot ← parse_snapshot c snapshot_input
    event ← parse_event c event_input
    check_envelope snapshot event
    refuse (snapshot.state == State.retired) retired_terminal
    changed ← on_fact sources event.occurred_at event.fact snapshot.body
    create_snapshot c (advance event changed)
