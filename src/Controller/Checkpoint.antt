-- ===== src/Controller/Checkpoint.antt =====
-- src/controller.ts, stored checkpoints: a snapshot gains authority by the replay of its complete
-- prefix, or by an anchor that the operator pinned.
use tasc.Base.{
  ℕ, Bool, ◌&&◌, List, [], Option, leb, ◌==◌, nat_eq, option_eq, is_none, length, Result, ok,
  require, ◌>>=◌, ◌>>◌,
}
use tasc.Text.{Text, text_eq, is_slug, is_digest}
use tasc.Controller.Types.{Event, Snapshot, Contracts, snapshot_eq}
use tasc.Controller.Schema.{max_controller_events, max_controller_assessments, nullable, same}
use tasc.Controller.Errors.{
  Error, schema, too_many_events, too_many_sources, prefix_mismatch, anchor_mismatch,
}
use tasc.Controller.Log.{parse_snapshot}
use tasc.Controller.Decisions.{Decision}
use tasc.Controller.Replay.{Handle, live, history_of, replay, replay_from}

-- `PinnedControllerCheckpointAnchor`.
pub record Anchor : Type 0 where
  pub controller_id : Text
  pub protocol_digest : Text
  pub sequence : ℕ
  pub last_event_id : Option Text
  pub snapshot_digest : Text

-- `pinnedAnchorSchema`.
unfoldable pub valid_anchor : Anchor → Bool
valid_anchor a =
    is_slug a.controller_id
    && is_digest a.protocol_digest
    && leb a.sequence max_controller_events
    && nullable is_digest a.last_event_id
    && is_digest a.snapshot_digest
    && same (a.sequence == 0) (is_none a.last_event_id)

-- `ControllerCheckpointVerification`.
pub data Verification : Type 0 where
  complete_prefix : Handle → List Event → List Decision → Verification
  pinned_anchor : Anchor → Verification

-- `captureCheckpointVerification`, on values of the right shape.
unfoldable pub capture : Verification → Result Error (Unit {0})
unfolding valid_anchor
capture (complete_prefix genesis events decisions) = do
  require (leb (length events) max_controller_events) too_many_events
  require (leb (length decisions) max_controller_assessments) too_many_sources
capture (pinned_anchor a) = require (valid_anchor a) schema

unfoldable pub is_anchored : Anchor → Snapshot → Bool
is_anchored a s =
    a.controller_id == s.controller_id
    && a.protocol_digest == s.protocol_digest
    && a.sequence == s.sequence
    && a.last_event_id == s.last_event_id
    && a.snapshot_digest == s.snapshot_digest

module _ (c : Contracts) where
  unfoldable pub verify_by : Verification → Snapshot → Result Error Handle
  verify_by (complete_prefix genesis events decisions) s = do
    replayed ← replay c genesis events decisions
    require (replayed.snapshot == s) prefix_mismatch
    ok (live s (history_of replayed))
  verify_by (pinned_anchor a) s = do
    require (is_anchored a s) anchor_mismatch
    -- The parsed copy is a new object, so it has no history yet.
    ok (live s [])

  -- `verifyControllerCheckpoint`.
  unfoldable pub verify_checkpoint : Snapshot → Verification → Result Error Handle
  unfolding capture verify_by
  verify_checkpoint checkpoint v = do s ← parse_snapshot c checkpoint; capture v; verify_by v s

  -- `resumeController`.
  unfoldable pub resume : Snapshot → Verification → List Event → List Decision → Result Error Handle
  resume checkpoint v suffix decisions = do
    h ← verify_checkpoint checkpoint v
    replay_from c h suffix decisions
