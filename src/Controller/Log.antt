-- ===== src/Controller/Log.antt =====
-- src/controller-events.ts, the entries of the log: a fact, an event and a snapshot are created with
-- their digest, and parsed by recomputing it.
use tasc.Base.{◌==◌, nat_eq, is_none, Result, ok, require, ◌>>◌}
use tasc.Base.Int.{ℤ}
use tasc.Text.{Text, text_eq, compare_code_units}
use tasc.Timestamp.{is_timestamp}
use tasc.Controller.Types.{Fact, EventBody, Event, SnapshotBody, Snapshot, Contracts}
use tasc.Controller.Schema.{
  same, valid_fact, valid_event_body, valid_event, valid_snapshot_body, valid_snapshot,
}
use tasc.Controller.Errors.{
  Error, bounds, schema, predecessor_at_one, fact_digest, event_id, snapshot_digest,
}
use tasc.Controller.Semantics.{check_snapshot}

-- `compareControllerTimestamps`.
unfoldable pub compare_timestamps : Text → Text → Result Error ℤ
compare_timestamps left right = do
  require (is_timestamp left) schema
  require (is_timestamp right) schema
  ok (compare_code_units left right)

module _ (c : Contracts) where
  -- `assertEventBodySemantics`.
  unfoldable pub check_event_body : EventBody → Result Error (Unit {0})
  check_event_body e = do
    require (same (e.sequence == 1) (is_none e.predecessor_event_id)) predecessor_at_one
    require (e.fact_digest == c.digest_fact e.fact) fact_digest

  unfoldable pub create_fact : Fact → Result Error Fact
  create_fact f = do require (c.fits_fact f) bounds; require (valid_fact f) schema; ok f

  -- `fingerprintControllerFact`.
  unfoldable pub fingerprint_fact : Fact → Result Error Text
  fingerprint_fact f = do
    require (c.fits_fact f) bounds
    require (valid_fact f) schema
    ok (c.digest_fact f)

  unfoldable pub parse_event : Event → Result Error Event
  unfolding check_event_body
  parse_event e = do
    require (c.fits_event e) bounds
    require (valid_event e) schema
    check_event_body e.body
    require (e.event_id == c.digest_event e.body) event_id
    ok e

  unfoldable pub create_event : EventBody → Result Error Event
  unfolding parse_event check_event_body
  create_event b = do
    require (c.fits_event_body b) bounds
    require (valid_event_body b) schema
    check_event_body b
    parse_event (record { body = b; event_id = c.digest_event b })

  unfoldable pub parse_snapshot : Snapshot → Result Error Snapshot
  parse_snapshot s = do
    require (c.fits_snapshot s) bounds
    require (valid_snapshot s) schema
    check_snapshot s.body
    require (s.snapshot_digest == c.digest_snapshot s.body) snapshot_digest
    ok s

  unfoldable pub create_snapshot : SnapshotBody → Result Error Snapshot
  unfolding parse_snapshot
  create_snapshot b = do
    require (c.fits_snapshot_body b) bounds
    require (valid_snapshot_body b) schema
    check_snapshot b
    parse_snapshot (record { body = b; snapshot_digest = c.digest_snapshot b })
