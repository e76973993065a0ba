-- ===== src/Window/Traces.antt =====
-- src/window.ts, the sampling rule and the membership of a trace in a window.
use tasc.Base.{
  ℕ, ◌%◌, Bool, ◌&&◌, ◌||◌, Option, none, some, ltb, leb, ◌==◌, nat_eq, option_eq, last?, Result,
  ok, err, require, refuse, ◌>>=◌, ◌>>◌,
}
use tasc.Text.{Text, text_eq, is_slug}
use tasc.Timestamp.{milliseconds}
use tasc.Window.Types.{
  MembershipRule, WindowManifest, Attempt, Trace, WindowContracts, WindowError, split_online,
  capacity_eq, not_in_bounds, bad_shape, not_online, other_protocol, other_policy, other_window,
  other_membership, no_attempt, outside_interval, late_completion, not_sampled, first_attempt,
}
use tasc.Window.Schema.{valid_rule}
use tasc.Window.{parse_manifest}

module _ (w : WindowContracts) where
  -- `membershipBucketForNormalizedSelection`: the digest as an integer, in basis points.
  unfoldable pub bucket : MembershipRule → Text → Text → ℕ
  bucket rule case_id replicate_id = w.digest_selection rule.seed case_id replicate_id % 10000

  -- `isWindowMembershipSelected`.
  unfoldable pub is_selected : MembershipRule → Text → Text → Result WindowError Bool
  unfolding bucket
  is_selected rule case_id replicate_id = do
    require (w.fits_selection rule case_id replicate_id) not_in_bounds
    require (valid_rule rule && is_slug case_id && is_slug replicate_id) bad_shape
    ok (ltb (bucket rule case_id replicate_id) rule.sample_basis_points)

  -- The last part of `assertTraceBelongsToWindow`, from the first and the last attempt on.
  unfoldable pub check_times :
      Trace → WindowManifest → Option Attempt → Option Attempt → Result WindowError (Unit {0})
  unfolding bucket
  check_times t m (some first) (some last) = do
    let event = milliseconds first.started_at
    refuse
        (ltb event (milliseconds m.event_time_start_inclusive)
          || leb (milliseconds m.event_time_end_exclusive) event)
        outside_interval
    refuse (ltb (milliseconds m.ingestion_watermark) (milliseconds last.completed_at))
        late_completion
    require (is_slug t.case_id && is_slug t.replicate_id) bad_shape
    refuse
        (leb m.membership_rule.sample_basis_points
          (bucket m.membership_rule t.case_id t.replicate_id))
        not_sampled
  check_times t m _ _ = err no_attempt

  -- `assertTraceBelongsToWindow`, of a trace that is parsed.
  unfoldable pub assert_trace_belongs : Trace → WindowManifest → Result WindowError (Unit {0})
  unfolding parse_manifest check_times
  assert_trace_belongs t input = do
    m ← parse_manifest w input
    require (t.split == split_online) not_online
    require (t.protocol_digest == m.protocol_digest) other_protocol
    require (t.policy_digest == m.frozen_policy_digest) other_policy
    require (t.collection_window_id == m.window_id) other_window
    require (t.collection_window_membership_digest == m.membership_digest) other_membership
    check_times t m (first_attempt t.attempts) (last? t.attempts)

  -- `deriveWindowMembershipBucket`.
  unfoldable pub derive_membership_bucket : MembershipRule → Text → Text → Result WindowError ℕ
  unfolding bucket
  derive_membership_bucket rule case_id replicate_id = do
    require (w.fits_selection rule case_id replicate_id) not_in_bounds
    require (valid_rule rule && is_slug case_id && is_slug replicate_id) bad_shape
    ok (bucket rule case_id replicate_id)

  -- `traceEventTime`, of a trace that is parsed.
  abbrev pub trace_event_time : Option Attempt → Result WindowError Text
  trace_event_time none = err no_attempt
  trace_event_time (some first) = ok first.started_at
