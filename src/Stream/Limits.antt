-- ===== src/Stream/Limits.antt =====
-- src/runtime/sse.ts and src/runtime/ndjson.ts: the limits that a caller gives, as
-- `normalizeSseOptions`, `snapshotJsonLimits` and `normalizeOptions` check them.
pub mod Range
use tasc.Base.{
  ℕ, Bool, true, false, ◌||◌, ltb, leb, if◌then◌else◌, Result, ok, err, refuse, ◌>>=◌, ◌>>◌,
}
use tasc.Stream.{CodecError}
use tasc.Work.{Number, natural, other, max_safe_integer}

-- `requireSafeLimit` and `safeInteger`, with the least number that is allowed.
unfoldable pub require_safe_limit : ℕ → Number → Result CodecError ℕ
require_safe_limit least other = err CodecError.invalid_options
require_safe_limit least (natural n) =
    if ltb max_safe_integer n || ltb n least then err CodecError.invalid_options else ok n

-- `MAX_PAYLOAD_IDENTITY_BYTES`.
abbrev pub max_payload_bytes : ℕ
max_payload_bytes = 16777216

-- `BoundedSseLimits`, of any numbers or of those that were checked.
pub record BoundedSseLimits (N : Type 0) : Type 0 where
  pub total_bytes : N
  pub chunks : N
  pub lines : N
  pub line_bytes : N
  pub events : N
  pub event_bytes : N
  pub field_bytes : N
  pub retry_ms : N

abbrev pub default_sse_limits : BoundedSseLimits ℕ
default_sse_limits = record {
  total_bytes = 8388608;
  chunks = 16384;
  lines = 65536;
  line_bytes = 262144;
  events = 32768;
  event_bytes = 1048576;
  field_bytes = 262144;
  retry_ms = 86400000;
}

abbrev pub natural_limits : BoundedSseLimits ℕ → BoundedSseLimits Number
natural_limits l = record {
  total_bytes = natural l.total_bytes;
  chunks = natural l.chunks;
  lines = natural l.lines;
  line_bytes = natural l.line_bytes;
  events = natural l.events;
  event_bytes = natural l.event_bytes;
  field_bytes = natural l.field_bytes;
  retry_ms = natural l.retry_ms;
}

unfoldable pub safe_sse_limits : BoundedSseLimits Number → Result CodecError (BoundedSseLimits ℕ)
unfolding require_safe_limit
safe_sse_limits raw = do
  total_bytes ← require_safe_limit 1 raw.total_bytes
  chunks ← require_safe_limit 1 raw.chunks
  lines ← require_safe_limit 1 raw.lines
  line_bytes ← require_safe_limit 1 raw.line_bytes
  events ← require_safe_limit 1 raw.events
  event_bytes ← require_safe_limit 1 raw.event_bytes
  field_bytes ← require_safe_limit 1 raw.field_bytes
  retry_ms ← require_safe_limit 0 raw.retry_ms
  ok (record {
    total_bytes = total_bytes;
    chunks = chunks;
    lines = lines;
    line_bytes = line_bytes;
    events = events;
    event_bytes = event_bytes;
    field_bytes = field_bytes;
    retry_ms = retry_ms;
  })

-- The conditions between the limits, and the maxima `MAX_SSE_...`.
unfoldable pub excessive_sse : BoundedSseLimits ℕ → Bool
excessive_sse l =
    ltb l.total_bytes l.event_bytes
    || ltb max_payload_bytes l.total_bytes
    || ltb 16384 l.chunks
    || ltb 262144 l.lines
    || ltb 1048576 l.line_bytes
    || ltb 65536 l.events
    || ltb max_payload_bytes l.event_bytes
    || ltb 1048576 l.field_bytes
    || ltb 604800000 l.retry_ms
    || ltb l.event_bytes l.line_bytes
    || ltb l.line_bytes l.field_bytes

unfoldable pub normalize_sse_limits :
    BoundedSseLimits Number → Result CodecError (BoundedSseLimits ℕ)
unfolding safe_sse_limits excessive_sse
normalize_sse_limits raw = do
  l ← safe_sse_limits raw
  refuse (excessive_sse l) CodecError.invalid_options
  ok l

-- `BoundedJsonLimits`.
pub record BoundedJsonLimits (N : Type 0) : Type 0 where
  pub json_bytes : N
  pub depth : N
  pub object_keys : N
  pub array_items : N
  pub tokens : N
  pub decoded_string_length : N
  pub numeric_token_length : N
  pub diagnostic_snippet_length : N

unfoldable pub safe_json_limits : BoundedJsonLimits Number → Result CodecError (BoundedJsonLimits ℕ)
unfolding require_safe_limit
safe_json_limits raw = do
  json_bytes ← require_safe_limit 1 raw.json_bytes
  depth ← require_safe_limit 0 raw.depth
  object_keys ← require_safe_limit 0 raw.object_keys
  array_items ← require_safe_limit 0 raw.array_items
  tokens ← require_safe_limit 1 raw.tokens
  decoded_string_length ← require_safe_limit 0 raw.decoded_string_length
  numeric_token_length ← require_safe_limit 1 raw.numeric_token_length
  diagnostic_snippet_length ← require_safe_limit 0 raw.diagnostic_snippet_length
  ok (record {
    json_bytes = json_bytes;
    depth = depth;
    object_keys = object_keys;
    array_items = array_items;
    tokens = tokens;
    decoded_string_length = decoded_string_length;
    numeric_token_length = numeric_token_length;
    diagnostic_snippet_length = diagnostic_snippet_length;
  })

unfoldable pub excessive_json : ℕ → BoundedJsonLimits ℕ → Bool
excessive_json most l =
    ltb most l.json_bytes
    || ltb 64 l.depth
    || ltb 131072 l.object_keys
    || ltb 131072 l.array_items
    || ltb 1048576 l.tokens
    || ltb max_payload_bytes l.decoded_string_length
    || ltb 1024 l.numeric_token_length
    || ltb 1024 l.diagnostic_snippet_length

-- `snapshotJsonLimits`.
unfoldable pub snapshot_json_limits :
    ℕ → BoundedJsonLimits Number → Result CodecError (BoundedJsonLimits ℕ)
unfolding safe_json_limits excessive_json
snapshot_json_limits maximum_event_bytes raw = do
  l ← safe_json_limits raw
  refuse (excessive_json maximum_event_bytes l) CodecError.invalid_options
  ok l

-- `BoundedNdjsonStreamLimits`.
pub record BoundedNdjsonLimits (N : Type 0) : Type 0 where
  pub json_limits : BoundedJsonLimits N
  pub line_bytes : N
  pub items : N
  pub chunks : N

unfoldable pub excessive_ndjson : BoundedNdjsonLimits ℕ → Bool
unfolding excessive_json
excessive_ndjson l =
    ltb l.json_limits.json_bytes l.line_bytes
    || ltb 16384 l.chunks
    || ltb 65536 l.items
    || ltb max_payload_bytes l.line_bytes
    || excessive_json max_payload_bytes l.json_limits

-- The limits of `normalizeOptions`; `maxBytes` bounds the whole stream here.
unfoldable pub normalize_ndjson_limits :
    BoundedNdjsonLimits Number → Result CodecError (BoundedNdjsonLimits ℕ)
unfolding safe_json_limits excessive_ndjson require_safe_limit
normalize_ndjson_limits raw = do
  json_limits ← safe_json_limits raw.json_limits
  line_bytes ← require_safe_limit 1 raw.line_bytes
  items ← require_safe_limit 1 raw.items
  chunks ← require_safe_limit 1 raw.chunks
  let l : BoundedNdjsonLimits ℕ = record {
    json_limits = json_limits;
    line_bytes = line_bytes;
    items = items;
    chunks = chunks;
  }
  refuse (excessive_ndjson l) CodecError.invalid_options
  ok l
