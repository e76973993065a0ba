-- ===== src/Stream/Sse.antt =====
-- src/runtime/sse.ts, `parseSseBytes`, `timing` and `parseBoundedSse`: the events of a collected
-- stream.
pub mod Steps
pub mod Lines
pub mod Bounds
pub mod Times
pub mod Chunks
pub mod Decoded
pub mod Valid
use tasc.Base.{
  ℕ, zero, suc, ◌+◌, ◌-◌, Bool, true, false, not, ◌&&◌, ◌||◌, List, [], ◌∷◌, ◌++◌, Option, none,
  some, ltb, leb, ◌==◌, nat_eq, is_empty, if◌then◌else◌, length, all, find?, last?, includes,
  Result, ok, err, require, refuse, ◌>>=◌, ◌>>◌,
}
use tasc.Network.{is_digit, number}
use tasc.Stream.{CodecError, ChunkMark, CollectedStream, RuntimeStreamTiming, Source}
use tasc.Stream.Bytes.{take, drop, get_elem?, slice}
use tasc.Stream.Collect.{CollectOptions, collect_stream}
use tasc.Stream.Observed.{observed_at_offset}
use tasc.Stream.Utf8.{decode_utf8}
use tasc.Text.{Text, codes, text_eq}
use tasc.Work.{max_safe_integer}
use tasc.Stream.SseLines.{
  SseLimits, SseOptions, SseKind, SseEvent, SseParser, reset_frame, join_lines, is_done, event_of,
  push_event, dispatch, colon_index, field_name, skip_space, field_value, set_retry, set_field,
  decoded, comment_line, field_line, content_line, count_line, process_line, event, done,
}

abbrev starts_with_lf : List ℕ → Bool
starts_with_lf [] = false
starts_with_lf (b ∷ rest) = b == 10

-- The end of the delimiter at a cursor, if there is one: LF, CR or CR LF.
unfoldable pub delimiter_end? : ℕ → ℕ → List ℕ → Option ℕ
delimiter_end? cursor b rest =
    if b == 10
    then some (cursor + 1)
    else if b == 13
    then some (if starts_with_lf rest then cursor + 2 else cursor + 1)
    else none

-- Where the line that ends at a cursor is left; there is none before the start of the line.
abbrev pub cut? : ℕ → ℕ → ℕ → List ℕ → Option ℕ
cut? line_start cursor b rest = if ltb cursor line_start then none else delimiter_end? cursor b rest

-- The loop over the bytes and the line after it. `rest` is what stands at the cursor; the jump
-- `cursor = delimiterEnd` is made by passing over the bytes before the start of the line.
unfoldable pub scan :
    SseOptions → CollectedStream → ℕ → ℕ → List ℕ → SseParser → Result CodecError SseParser
unfolding process_line delimiter_end?
scan o c line_start cursor [] s =
    if ltb line_start cursor then process_line o c line_start cursor cursor s else ok s
scan o c line_start cursor (b ∷ rest) s = elim (cut? line_start cursor b rest) [
  | none ↦ scan o c line_start (cursor + 1) rest s
  | some next ↦ do
    s' ← process_line o c line_start cursor next s
    scan o c next (cursor + 1) rest s'
]

-- A leading byte-order mark is passed over.
unfoldable pub first_line : List ℕ → ℕ
first_line (b ∷ d ∷ e ∷ rest) = if b == 0xef && d == 0xbb && e == 0xbf then 3 else 0
first_line _ = 0

unfoldable pub new_parser : ℕ → SseParser
new_parser first = record {
  events = [];
  line_count = 0;
  frame_start = first;
  frame_has_fields = false;
  event_name = [];
  data_parts = [];
  last_event_id = [];
  retry = none;
  comments = [];
  terminal_seen = false;
}

pub record ParsedSse : Type 0 where
  pub parsed_events : List SseEvent
  pub total_lines : ℕ
  pub trailing_incomplete : Bool

abbrev pub is_incomplete : SseParser → Bool
is_incomplete s = s.frame_has_fields || not (is_empty s.data_parts)

-- `parseSseBytes`.
unfoldable pub parse_sse_bytes : SseOptions → CollectedStream → Result CodecError ParsedSse
unfolding scan first_line new_parser
parse_sse_bytes o c = do
  s ← scan o c (first_line c.bytes) 0 c.bytes (new_parser (first_line c.bytes))
  refuse (s.terminal_seen && is_incomplete s) CodecError.terminal_order
  ok (record {
    parsed_events = s.events;
    total_lines = s.line_count;
    trailing_incomplete = is_incomplete s;
  })

abbrev since : ℕ → Option ℕ → Option ℕ
since begun none = none
since begun (some t) = some (t - begun)

-- `timing`. The later times are not before the start, so no difference is cut off.
unfoldable pub timing : CollectedStream → Option ℕ → RuntimeStreamTiming
timing c meaningful = record {
  timing_started_at = c.started_at;
  timing_first_byte_at = c.first_byte_at;
  first_meaningful_at = meaningful;
  timing_completed_at = c.completed_at;
  time_to_first_byte = since c.started_at c.first_byte_at;
  time_to_first_meaningful = since c.started_at meaningful;
  duration = c.completed_at - c.started_at;
}

pub data SseTerminal : Type 0 where
  eof done_sentinel : SseTerminal

pub record SseResult : Type 0 where
  pub result_events : List SseEvent
  pub terminal : SseTerminal
  pub result_incomplete : Bool
  pub result_bytes : ℕ
  pub result_chunks : ℕ
  pub result_lines : ℕ
  pub result_timing : RuntimeStreamTiming

abbrev pub is_event : SseEvent → Bool
is_event e = elim e.kind [ event ↦ true | done ↦ false ]

abbrev pub terminal_of : Option SseEvent → SseTerminal
terminal_of none = SseTerminal.eof
terminal_of (some e) = if is_event e then SseTerminal.eof else SseTerminal.done_sentinel

abbrev time_of : Option SseEvent → Option ℕ
time_of none = none
time_of (some e) = some e.observed_at

-- `parseBoundedSse`, under normalized options.
unfoldable pub parse_bounded_sse : SseOptions → Source → Result CodecError SseResult
unfolding parse_sse_bytes timing
parse_bounded_sse o source = do
  c ← collect_stream o.collecting source
  p ← parse_sse_bytes o c
  ok (record {
    result_events = p.parsed_events;
    terminal = terminal_of (last? p.parsed_events);
    result_incomplete = p.trailing_incomplete;
    result_bytes = length c.bytes;
    result_chunks = c.total_chunks;
    result_lines = p.total_lines;
    result_timing = timing c (time_of (find? is_event p.parsed_events));
  })
