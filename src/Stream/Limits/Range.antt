-- ===== src/Stream/Limits/Range.antt =====
-- src/runtime/sse.ts, `normalizeSseOptions`: which limits of a caller are accepted.
use tasc.Base.{
  ℕ, ◌≤◌, ◌≡◌, refl, ap, subst, ◌∙◌, ◌↔◌, false, ok, arith, >>=-eq-ok, ok-injective, refuse-eq-ok,
}
use tasc.Stream.{CodecError}
use tasc.Stream.Limits.{
  BoundedSseLimits, natural_limits, require_safe_limit, safe_sse_limits, excessive_sse,
  normalize_sse_limits,
}
use tasc.Work.{Number, natural, other, max_safe_integer}

-- Limits in the range that an event stream may have.
pub record InRange (l : BoundedSseLimits ℕ) : Type 0 where
  pub some_bytes : (1 ≤ l.field_bytes) × (l.field_bytes ≤ l.line_bytes)
  pub line_in_event : l.line_bytes ≤ l.event_bytes
  pub event_in_total : (l.event_bytes ≤ l.total_bytes) × (l.total_bytes ≤ 16777216)
  pub line_size : l.line_bytes ≤ 1048576
  pub chunk_count : (1 ≤ l.chunks) × (l.chunks ≤ 16384)
  pub line_count : (1 ≤ l.lines) × (l.lines ≤ 262144)
  pub event_count : (1 ≤ l.events) × (l.events ≤ 65536)
  pub retry_time : l.retry_ms ≤ 604800000

require_safe_limit-eq-ok :
    (least : ℕ) (n : Number) (m : ℕ)
    → require_safe_limit least n ≡ ok m
    → (n ≡ natural m) × (least ≤ m)
unfolding require_safe_limit
require_safe_limit-eq-ok least other m e = absurd (cc e)
require_safe_limit-eq-ok least (natural n) m e = ground (arith, e)

require_safe_limit-ok :
    (least m : ℕ) → least ≤ m → m ≤ max_safe_integer → require_safe_limit least (natural m) ≡ ok m
unfolding require_safe_limit
require_safe_limit-ok least m h k = ground arith

limits_ext :
    (raw : BoundedSseLimits Number) (l : BoundedSseLimits ℕ)
    → raw.total_bytes ≡ natural l.total_bytes
    → raw.chunks ≡ natural l.chunks
    → raw.lines ≡ natural l.lines
    → raw.line_bytes ≡ natural l.line_bytes
    → raw.events ≡ natural l.events
    → raw.event_bytes ≡ natural l.event_bytes
    → raw.field_bytes ≡ natural l.field_bytes
    → raw.retry_ms ≡ natural l.retry_ms
    → raw ≡ natural_limits l
limits_ext raw l a b c d e f g h = λ i. record {
  total_bytes = a i;
  chunks = b i;
  lines = c i;
  line_bytes = d i;
  events = e i;
  event_bytes = f i;
  field_bytes = g i;
  retry_ms = h i;
}

-- The eight numbers, read one after the other.
safe_sse_limits-eq-ok :
    (raw : BoundedSseLimits Number) (l : BoundedSseLimits ℕ)
    → safe_sse_limits raw ≡ ok l
    → (raw ≡ natural_limits l)
      × (1 ≤ l.chunks)
      × (1 ≤ l.lines)
      × (1 ≤ l.events)
      × (1 ≤ l.field_bytes)
unfolding safe_sse_limits
safe_sse_limits-eq-ok raw l e =
    let (a, pa, ea) = >>=-eq-ok (require_safe_limit 1 raw.total_bytes) _ e in
    let (b, pb, eb) = >>=-eq-ok (require_safe_limit 1 raw.chunks) _ ea in
    let (c, pc, ec) = >>=-eq-ok (require_safe_limit 1 raw.lines) _ eb in
    let (d, pd, ed) = >>=-eq-ok (require_safe_limit 1 raw.line_bytes) _ ec in
    let (f, pf, ef) = >>=-eq-ok (require_safe_limit 1 raw.events) _ ed in
    let (g, pg, eg) = >>=-eq-ok (require_safe_limit 1 raw.event_bytes) _ ef in
    let (h, ph, eh) = >>=-eq-ok (require_safe_limit 1 raw.field_bytes) _ eg in
    let (r, pr, er) = >>=-eq-ok (require_safe_limit 0 raw.retry_ms) _ eh in
    subst
      (λ (x : BoundedSseLimits ℕ).
        (raw ≡ natural_limits x)
        × (1 ≤ x.chunks)
        × (1 ≤ x.lines)
        × (1 ≤ x.events)
        × (1 ≤ x.field_bytes))
      (ok-injective er)
      (
        limits_ext raw _ (require_safe_limit-eq-ok 1 raw.total_bytes a pa).0
            (require_safe_limit-eq-ok 1 raw.chunks b pb).0
            (require_safe_limit-eq-ok 1 raw.lines c pc).0
            (require_safe_limit-eq-ok 1 raw.line_bytes d pd).0
            (require_safe_limit-eq-ok 1 raw.events f pf).0
            (require_safe_limit-eq-ok 1 raw.event_bytes g pg).0
            (require_safe_limit-eq-ok 1 raw.field_bytes h ph).0
            (require_safe_limit-eq-ok 0 raw.retry_ms r pr).0,
        (require_safe_limit-eq-ok 1 raw.chunks b pb).1,
        (require_safe_limit-eq-ok 1 raw.lines c pc).1,
        (require_safe_limit-eq-ok 1 raw.events f pf).1,
        (require_safe_limit-eq-ok 1 raw.field_bytes h ph).1,
      )

excessive_sse-InRange :
    (l : BoundedSseLimits ℕ)
    → excessive_sse l ≡ false
    → 1 ≤ l.chunks
    → 1 ≤ l.lines
    → 1 ≤ l.events
    → 1 ≤ l.field_bytes
    → InRange l
unfolding excessive_sse
excessive_sse-InRange l e a b c d = record {
  some_bytes = ground (arith, e);
  line_in_event = ground (arith, e);
  event_in_total = ground (arith, e);
  line_size = ground (arith, e);
  chunk_count = ground (arith, e);
  line_count = ground (arith, e);
  event_count = ground (arith, e);
  retry_time = ground (arith, e);
}

InRange-not_excessive : (l : BoundedSseLimits ℕ) → InRange l → excessive_sse l ≡ false
unfolding excessive_sse
InRange-not_excessive l r = ground (
  arith, r.some_bytes, r.line_in_event, r.event_in_total, r.line_size, r.chunk_count, r.line_count,
  r.event_count, r.retry_time,
)

normalize_sse_limits-eq-ok :
    (raw : BoundedSseLimits Number) (l : BoundedSseLimits ℕ)
    → normalize_sse_limits raw ≡ ok l
    → (raw ≡ natural_limits l) × InRange l
unfolding normalize_sse_limits
normalize_sse_limits-eq-ok raw l e =
    let (k, p, q) = >>=-eq-ok (safe_sse_limits raw) _ e in
    let (fits, r) = refuse-eq-ok (excessive_sse k) CodecError.invalid_options _ q in
    let (eq, a, b, c, d) = safe_sse_limits-eq-ok raw k p in
    subst (λ x. (raw ≡ natural_limits x) × InRange x) (ok-injective r)
      (eq, excessive_sse-InRange k fits a b c d)

normalize_sse_limits_natural :
    (l : BoundedSseLimits ℕ) → InRange l → normalize_sse_limits (natural_limits l) ≡ ok l
unfolding normalize_sse_limits safe_sse_limits
normalize_sse_limits_natural l r =
    rw
      (
        require_safe_limit-ok 1 l.total_bytes
            (omega (arith, r.some_bytes, r.line_in_event, r.event_in_total))
            (omega (arith, r.event_in_total)),
        require_safe_limit-ok 1 l.chunks (omega (arith, r.chunk_count))
            (omega (arith, r.chunk_count)),
        require_safe_limit-ok 1 l.lines (omega (arith, r.line_count)) (omega (arith, r.line_count)),
        require_safe_limit-ok 1 l.line_bytes (omega (arith, r.some_bytes))
            (omega (arith, r.line_size)),
        require_safe_limit-ok 1 l.events (omega (arith, r.event_count))
            (omega (arith, r.event_count)),
        require_safe_limit-ok 1 l.event_bytes (omega (arith, r.some_bytes, r.line_in_event))
            (omega (arith, r.event_in_total)),
        require_safe_limit-ok 1 l.field_bytes (omega (arith, r.some_bytes))
            (omega (arith, r.some_bytes, r.line_size)),
        require_safe_limit-ok 0 l.retry_ms (omega arith) (omega (arith, r.retry_time)),
        InRange-not_excessive l r,
      )
      refl

-- The limits of a caller are accepted exactly when they are eight natural numbers in range.
pub normalize_sse_limits_iff :
    (raw : BoundedSseLimits Number) (l : BoundedSseLimits ℕ)
    → (normalize_sse_limits raw ≡ ok l) ↔ ((raw ≡ natural_limits l) × InRange l)
normalize_sse_limits_iff raw l = (
  normalize_sse_limits-eq-ok raw l,
  λ (e, r). ap normalize_sse_limits e ∙ normalize_sse_limits_natural l r,
)
