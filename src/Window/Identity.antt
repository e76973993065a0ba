-- ===== src/Window/Identity.antt =====
-- The digests of a manifest, and the chains of revisions.
use tasc.Base.{◌≡◌, ◌↔◌, sym, ap, ◌∙◌, subst, false, Option, none, some, last?, arith, ltb, ok}
use tasc.Text.{text_eq}
use tasc.Timestamp.{milliseconds}
use tasc.Window.Types.{
  WindowManifest, Changes, WindowContracts, with_digest, Trace, Attempt, first_attempt,
  split_online,
}
use tasc.Window.{parse_manifest, fingerprint_manifest, create_revision}
use tasc.Window.Traces.{check_times, bucket, assert_trace_belongs}
use tasc.Window.Membership.{assert_trace-Belongs, check_parsed}
use tasc.Window.Revision.{parse_manifest-same, Revised, create_revision-Revised}

-- A manifest parses exactly when its fingerprint can be taken and is the digest that it states.
pub parse_manifest-fingerprint :
    (w : WindowContracts) (m : WindowManifest)
    → (parse_manifest w m ≡ ok m) ↔ (fingerprint_manifest w (with_digest m) ≡ ok m.self_digest)
unfolding parse_manifest fingerprint_manifest
parse_manifest-fingerprint w m = ((λ h. ground (arith, h)), (λ h. ground (arith, h)))

-- What stays of a manifest in its revision, for a trace: the interval and the rule, and no earlier
-- watermark.
record IsExtended (m n : WindowManifest) : Type 0 where
  start : n.event_time_start_inclusive ≡ m.event_time_start_inclusive
  end : n.event_time_end_exclusive ≡ m.event_time_end_exclusive
  rule : n.membership_rule ≡ m.membership_rule
  watermark : ltb (milliseconds n.ingestion_watermark) (milliseconds m.ingestion_watermark) ≡ false

check_times-extended :
    (w : WindowContracts) (t : Trace) (m n : WindowManifest) (a b : Option Attempt)
    → IsExtended m n
    → check_times w t m a b ≡ ok tt
    → check_times w t n a b ≡ ok tt
unfolding check_times
check_times-extended w t m n none b e h = cc
check_times-extended w t m n (some x) none e h = cc
check_times-extended w t m n (some x) (some y) e h = ground (
  arith,
  ap milliseconds e.start,
  ap milliseconds e.end,
  ap (λ r. bucket w r t.case_id t.replicate_id) e.rule,
  ap (λ r. r.sample_basis_points) e.rule,
  e.watermark,
  h,
)

-- The identities that a trace shares with a manifest.
record Declares (t : Trace) (m : WindowManifest) : Type 0 where
  online : t.split ≡ split_online
  protocol : t.protocol_digest ≡ m.protocol_digest
  policy : t.policy_digest ≡ m.frozen_policy_digest
  window : t.collection_window_id ≡ m.window_id
  membership : t.collection_window_membership_digest ≡ m.membership_digest

belongs_of :
    (w : WindowContracts) (t : Trace) (m : WindowManifest)
    → parse_manifest w m ≡ ok m
    → Declares t m
    → check_times w t m (first_attempt t.attempts) (last? t.attempts) ≡ ok tt
    → assert_trace_belongs w t m ≡ ok tt
unfolding assert_trace_belongs
belongs_of w t m parsed d times =
    ground (arith, parsed, d.online, d.protocol, d.policy, d.window, d.membership, times)

times_of_belongs :
    (w : WindowContracts) (t : Trace) (m : WindowManifest)
    → assert_trace_belongs w t m ≡ ok tt
    → check_times w t m (first_attempt t.attempts) (last? t.attempts) ≡ ok tt
times_of_belongs w t m h =
    let (x, parsed, _, _, _, _, _, times) = check_parsed w t m h in
    let (same, _) = parse_manifest-same w m parsed in
    subst (λ y. check_times w t y (first_attempt t.attempts) (last? t.attempts) ≡ ok tt) same times

Revised-IsExtended :
    (w : WindowContracts) (p n : WindowManifest) (c : Changes) → Revised w p c n → IsExtended p n
Revised-IsExtended w p n c r = record {
  start = ap (λ b. b.event_time_start_inclusive) r.body;
  end = ap (λ b. b.event_time_end_exclusive) r.body;
  rule = ap (λ b. b.membership_rule) r.body;
  watermark =
      ap (λ b. ltb (milliseconds b.ingestion_watermark) (milliseconds p.ingestion_watermark)) r.body
      ∙ r.watermark;
}

-- A trace that belongs to a manifest belongs to every revision created from it: late data adds traces
-- and takes none away.
pub create_revision-keeps_traces :
    (w : WindowContracts) (t : Trace) (p n : WindowManifest) (c : Changes)
    → create_revision w p c ≡ ok n
    → assert_trace_belongs w t p ≡ ok tt
    → assert_trace_belongs w t n ≡ ok tt
create_revision-keeps_traces w t p n c h k =
    let r = create_revision-Revised w p c h in
    let b = assert_trace-Belongs w t p k in
    let e = Revised-IsExtended w p n c r in
    let d : Declares t n = record {
      online = b.online;
      protocol = b.protocol ∙ sym (ap (λ x. x.protocol_digest) r.body);
      policy = b.policy ∙ sym (ap (λ x. x.frozen_policy_digest) r.body);
      window = b.window ∙ sym (ap (λ x. x.window_id) r.body);
      membership = b.membership ∙ sym (ap (λ x. x.membership_digest) r.body);
    } in
    belongs_of w t n r.next d (check_times-extended w t p n _ _ e (times_of_belongs w t p k))
