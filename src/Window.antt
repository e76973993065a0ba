-- ===== src/Window.antt =====
-- src/window.ts: sealed window manifests. A manifest fixes a half-open interval of event times, the
-- watermark of what was ingested, the sampling rule, and the digests of the sources.
pub mod Types
pub mod Schema
pub mod Traces
pub mod Revision
pub mod Membership
pub mod Identity
use tasc.Base.{
  ℕ, ◌+◌, ◌%◌, Bool, true, false, not, ◌&&◌, ◌||◌, List, [], ◌∷◌, Option, none, some, ltb, leb,
  ◌==◌, nat_eq, option_eq, is_none, is_some, last?, if◌then◌else◌, Result, ok, err, require, refuse,
  ◌>>=◌, ◌>>◌,
}
use tasc.Text.{Text, text_eq, is_slug, is_digest}
use tasc.Timestamp.{is_contract_timestamp, milliseconds}
use tasc.Controller.Types.{Manifest}
use tasc.Work.{max_safe_integer}
use tasc.Window.Types.{
  manifest_protocol, manifest_rule, manifest_policy, late_evidence, ManifestInput, with_digest,
  without_digest, WindowProtocol, MembershipRule, Capacity, ReportedCapacity, unavailable, reported,
  ManifestBody, WindowManifest, Changes, Attempt, Trace, WindowContracts, WindowError, split_online,
  capacity_eq, not_in_bounds, bad_shape, bad_interval, bad_watermark, first_predecessor,
  missing_predecessor, bad_membership, capacity_policy, capacity_bounds, bad_self_digest,
  watermark_back, nothing_changed, too_many_revisions, not_online, other_protocol, other_policy,
  other_window, other_membership, no_attempt, outside_interval, late_completion, not_sampled,
  first_attempt,
}
use tasc.Window.Schema.{valid_rule, valid_capacity, valid_body, valid_changes}

-- The part of the semantics on reported capacity.
abbrev check_capacity : ManifestBody → Capacity → Result WindowError (Unit {0})
check_capacity m (unavailable reason) = ok tt
check_capacity m (reported r) = do
  require (r.frozen_policy_digest == m.frozen_policy_digest) capacity_policy
  require
      (r.event_time_start_inclusive == m.event_time_start_inclusive
        && r.event_time_end_exclusive == m.event_time_end_exclusive)
      capacity_bounds

module _ (w : WindowContracts) where
  -- `assertWindowManifestBodySemantics`.
  unfoldable pub check_body : ManifestBody → Result WindowError (Unit {0})
  check_body m = do
    let start = milliseconds m.event_time_start_inclusive
    let end = milliseconds m.event_time_end_exclusive
    let watermark = milliseconds m.ingestion_watermark
    refuse (leb end start) bad_interval
    refuse (ltb watermark end) bad_watermark
    refuse (m.revision == 1 && is_some m.predecessor_manifest_digest) first_predecessor
    refuse (ltb 1 m.revision && is_none m.predecessor_manifest_digest) missing_predecessor
    require
        (m.membership_digest == w.digest_membership m.window_id m.protocol_digest m.membership_rule)
        bad_membership
    check_capacity m m.capacity_evidence

  -- `parseWindowManifest`.
  unfoldable pub parse_manifest : WindowManifest → Result WindowError WindowManifest
  unfolding check_body
  parse_manifest m = do
    require (w.fits_manifest m) not_in_bounds
    require (valid_body m.body && is_digest m.self_digest) bad_shape
    check_body m.body
    require (m.self_digest == w.digest_manifest m.body) bad_self_digest
    ok m

  -- `createWindowManifestRevision`, its body.
  abbrev pub revision_body : WindowManifest → Changes → ManifestBody
  revision_body p c = record {
    window_id = p.window_id;
    protocol_digest = p.protocol_digest;
    frozen_policy_digest = p.frozen_policy_digest;
    event_time_start_inclusive = p.event_time_start_inclusive;
    event_time_end_exclusive = p.event_time_end_exclusive;
    ingestion_watermark = c.ingestion_watermark;
    closure_reason = c.closure_reason;
    membership_rule = p.membership_rule;
    membership_digest = p.membership_digest;
    revision = p.revision + 1;
    predecessor_manifest_digest = some p.self_digest;
    trace_set_digest = c.trace_set_digest;
    evaluator_set_digest = c.evaluator_set_digest;
    capacity_evidence = c.capacity_evidence;
  }

  -- The steps after the predecessor is parsed.
  unfoldable pub revise : WindowManifest → Changes → Result WindowError WindowManifest
  unfolding parse_manifest check_body
  revise p c = do
    require (w.fits_changes c) not_in_bounds
    require (valid_changes c) bad_shape
    refuse (ltb (milliseconds c.ingestion_watermark) (milliseconds p.ingestion_watermark))
        watermark_back
    refuse
        (c.trace_set_digest == p.trace_set_digest
          && c.evaluator_set_digest == p.evaluator_set_digest
          && c.capacity_evidence == p.capacity_evidence)
        nothing_changed
    refuse (p.revision == max_safe_integer) too_many_revisions
    check_body (revision_body p c)
    parse_manifest
        (record { body = revision_body p c; self_digest = w.digest_manifest (revision_body p c) })

  unfoldable pub create_revision : WindowManifest → Changes → Result WindowError WindowManifest
  unfolding parse_manifest revise
  create_revision previous c = do p ← parse_manifest previous; revise p c

  -- `projectWindowManifest` of src/controller.ts.
  unfoldable pub project_manifest : WindowManifest → Result WindowError Manifest
  unfolding parse_manifest
  project_manifest m = do
    p ← parse_manifest m
    ok (record {
      window_id = p.window_id;
      manifest_digest = p.self_digest;
      protocol_digest = p.protocol_digest;
      frozen_policy_digest = p.frozen_policy_digest;
      event_time_start_inclusive = p.event_time_start_inclusive;
      event_time_end_exclusive = p.event_time_end_exclusive;
      ingestion_watermark = p.ingestion_watermark;
      revision = p.revision;
      predecessor_manifest_digest = p.predecessor_manifest_digest;
      trace_set_digest = p.trace_set_digest;
      evaluator_set_digest = p.evaluator_set_digest;
      capacity_evidence_digest = w.digest_capacity p.capacity_evidence;
    })

  -- `deriveWindowMembershipDigest`.
  unfoldable pub derive_membership_digest : Text → Text → MembershipRule → Result WindowError Text
  derive_membership_digest window_id protocol_digest rule = do
    require (w.fits_binding window_id protocol_digest rule) not_in_bounds
    require (is_slug window_id && is_digest protocol_digest && valid_rule rule) bad_shape
    ok (w.digest_membership window_id protocol_digest rule)

  -- `fingerprintWindowManifest`: the digest of the body, whatever digest the input states.
  unfoldable pub fingerprint_manifest : ManifestInput → Result WindowError Text
  unfolding check_body
  fingerprint_manifest (with_digest m) = do
    require (w.fits_manifest m) not_in_bounds
    require (valid_body m.body && is_digest m.self_digest) bad_shape
    check_body m.body
    ok (w.digest_manifest m.body)
  fingerprint_manifest (without_digest m) = do
    require (w.fits_body m) not_in_bounds
    require (valid_body m) bad_shape
    check_body m
    ok (w.digest_manifest m)

  -- `assertWindowManifestMatchesProtocol`.
  unfoldable pub assert_matches_protocol :
      WindowManifest → WindowProtocol → Text → Result WindowError (Unit {0})
  unfolding parse_manifest
  assert_matches_protocol input protocol policy = do
    m ← parse_manifest input
    require (w.fits_policy policy) not_in_bounds
    require (is_digest policy) bad_shape
    require (m.protocol_digest == protocol.digest) manifest_protocol
    require
        (m.membership_rule.seed == protocol.online_window_membership.seed
          && m.membership_rule.sample_basis_points
            == protocol.online_window_membership.sample_basis_points)
        manifest_rule
    require (m.frozen_policy_digest == policy) manifest_policy

  -- `assertAcceptedEvaluatorEvidenceWithinWindowWatermark`, of the time at which normalized evidence
  -- was produced.
  unfoldable pub assert_evidence_in_time : Text → WindowManifest → Result WindowError (Unit {0})
  unfolding parse_manifest
  assert_evidence_in_time produced_at input = do
    m ← parse_manifest input
    refuse (ltb (milliseconds m.ingestion_watermark) (milliseconds produced_at)) late_evidence
