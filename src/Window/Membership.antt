-- ===== src/Window/Membership.antt =====
-- The membership of a trace in a window.
use tasc.Base.{
  ◌≤◌, ◌<◌, ◌≡◌, refl, sym, subst, Option, none, some, arith, ◌==◌, last?, ok, require, >>=-eq-ok,
}
use tasc.Text.{text_eq}
use tasc.Timestamp.{milliseconds}
use tasc.Window.Types.{
  Attempt, Trace, WindowManifest, WindowContracts, first_attempt, split_online, not_online,
  other_protocol, other_policy, other_window, other_membership,
}
use tasc.Window.{parse_manifest}
use tasc.Window.Traces.{bucket, check_times, assert_trace_belongs}
use tasc.Window.Revision.{parse_manifest-same}

-- What it is for a trace to belong to a window.
pub record Belongs (w : WindowContracts) (t : Trace) (m : WindowManifest) : Type 0 where
  pub parsed : parse_manifest w m ≡ ok m
  pub online : t.split ≡ split_online
  pub protocol : t.protocol_digest ≡ m.protocol_digest
  pub policy : t.policy_digest ≡ m.frozen_policy_digest
  pub window : t.collection_window_id ≡ m.window_id
  pub membership : t.collection_window_membership_digest ≡ m.membership_digest
  pub first : Attempt
  pub is_first : first_attempt t.attempts ≡ some first
  pub last : Attempt
  pub is_last : last? t.attempts ≡ some last
  pub started : milliseconds m.event_time_start_inclusive ≤ milliseconds first.started_at
  pub before_end : milliseconds first.started_at < milliseconds m.event_time_end_exclusive
  pub completed : milliseconds last.completed_at ≤ milliseconds m.ingestion_watermark
  pub sampled :
      bucket w m.membership_rule t.case_id t.replicate_id < m.membership_rule.sample_basis_points

-- The times, by the attempts that there are.
record InTime (w : WindowContracts) (t : Trace) (m : WindowManifest) (a b : Option Attempt)
    : Type 0 where
  first : Attempt
  is_first : a ≡ some first
  last : Attempt
  is_last : b ≡ some last
  started : milliseconds m.event_time_start_inclusive ≤ milliseconds first.started_at
  before_end : milliseconds first.started_at < milliseconds m.event_time_end_exclusive
  completed : milliseconds last.completed_at ≤ milliseconds m.ingestion_watermark
  sampled :
      bucket w m.membership_rule t.case_id t.replicate_id < m.membership_rule.sample_basis_points

check_times-InTime :
    (w : WindowContracts) (t : Trace) (m : WindowManifest) (a b : Option Attempt)
    → check_times w t m a b ≡ ok tt
    → InTime w t m a b
unfolding check_times
check_times-InTime w t m none b h = cc
check_times-InTime w t m (some x) none h = cc
check_times-InTime w t m (some x) (some y) h = record {
  first = x;
  is_first = refl;
  last = y;
  is_last = refl;
  started = ground arith;
  before_end = ground arith;
  completed = ground arith;
  sampled = ground arith;
}

-- The four identities and the split that a trace declares.
pub check_parsed :
    (w : WindowContracts) (t : Trace) (input : WindowManifest)
    → assert_trace_belongs w t input ≡ ok tt
    → (m : WindowManifest) × (parse_manifest w input ≡ ok m)
      × (t.split ≡ split_online)
      × (t.protocol_digest ≡ m.protocol_digest)
      × (t.policy_digest ≡ m.frozen_policy_digest)
      × (t.collection_window_id ≡ m.window_id)
      × (t.collection_window_membership_digest ≡ m.membership_digest)
      × (check_times w t m (first_attempt t.attempts) (last? t.attempts) ≡ ok tt)
unfolding assert_trace_belongs
check_parsed w t input h =
    let (m, p, h0) = >>=-eq-ok (parse_manifest w input) _ h in
    let (_, a, h1) = >>=-eq-ok (require (t.split == split_online) not_online) _ h0 in
    let (_, b, h2) =
      >>=-eq-ok (require (t.protocol_digest == m.protocol_digest) other_protocol) _ h1 in
    let (_, c, h3) =
      >>=-eq-ok (require (t.policy_digest == m.frozen_policy_digest) other_policy) _ h2 in
    let (_, d, h4) =
      >>=-eq-ok (require (t.collection_window_id == m.window_id) other_window) _ h3 in
    let (_, e, h5) =
      >>=-eq-ok
        (require (t.collection_window_membership_digest == m.membership_digest) other_membership) _
        h4 in
    (
      m,
      p,
      ground (arith, a),
      ground (arith, b),
      ground (arith, c),
      ground (arith, d),
      ground (arith, e),
      h5,
    )

-- A trace that is accepted is an online one of the manifest's protocol, policy, window and sampling
-- rule, starts in the half-open interval, completes by the watermark, and is in the sample.
pub assert_trace-Belongs :
    (w : WindowContracts) (t : Trace) (input : WindowManifest)
    → assert_trace_belongs w t input ≡ ok tt
    → Belongs w t input
assert_trace-Belongs w t input h =
    let (m, p, a, b, c, d, e, times) = check_parsed w t input h in
    let k = check_times-InTime w t m (first_attempt t.attempts) (last? t.attempts) times in
    let (same, good) = parse_manifest-same w input p in
    subst (λ x. Belongs w t x) same
      (record {
        parsed = subst (λ x. parse_manifest w x ≡ ok x) (sym same) good;
        online = a;
        protocol = b;
        policy = c;
        window = d;
        membership = e;
        first = k.first;
        is_first = k.is_first;
        last = k.last;
        is_last = k.is_last;
        started = k.started;
        before_end = k.before_end;
        completed = k.completed;
        sampled = k.sampled;
      })

-- No trace belongs to two windows of which one ends before the other starts, or as it starts.
pub assert_trace-disjoint :
    (w : WindowContracts) (t : Trace) (m n : WindowManifest)
    → milliseconds m.event_time_end_exclusive ≤ milliseconds n.event_time_start_inclusive
    → assert_trace_belongs w t m ≡ ok tt
    → ¬ (assert_trace_belongs w t n ≡ ok tt)
assert_trace-disjoint w t m n apart h k =
    let a = assert_trace-Belongs w t m h in
    let b = assert_trace-Belongs w t n k in
    ground (arith, apart, a.is_first, b.is_first, a.before_end, b.started)
