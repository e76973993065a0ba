-- ===== src/Stream/SseLines.antt =====
-- src/runtime/sse.ts, `parseSseBytes`: the events and what one line does, with the limits on lines, fields
-- and events.
use tasc.Base.{
  ℕ, suc, ◌+◌, ◌-◌, Bool, true, false, not, ◌&&◌, ◌||◌, List, [], ◌∷◌, ◌++◌, Option, none, some,
  ltb, leb, ◌==◌, nat_eq, is_empty, if◌then◌else◌, length, all, includes, Result, ok, err, require,
  refuse, ◌>>=◌, ◌>>◌,
}
use tasc.Network.{is_digit, number}
use tasc.Stream.{CodecError, CollectedStream}
use tasc.Stream.Bytes.{take, drop, slice}
use tasc.Stream.Collect.{CollectOptions}
use tasc.Stream.Observed.{observed_at_offset}
use tasc.Stream.Utf8.{decode_utf8}
use tasc.Text.{Text, codes, text_eq}
use tasc.Work.{max_safe_integer}

-- The limits that the parser reads.
pub record SseLimits : Type 0 where
  pub max_lines : ℕ
  pub max_line_bytes : ℕ
  pub max_events : ℕ
  pub max_event_bytes : ℕ
  pub max_field_bytes : ℕ
  pub max_retry : ℕ

-- `payload_identity` is `createStudyPayloadIdentity` with the caller's identity.
pub record SseOptions : Type 0 where
  pub collecting : CollectOptions
  pub sse_limits : SseLimits
  pub payload_identity : List ℕ → Text

pub data SseKind : Type 0 where
  event done : SseKind

pub record SseEvent : Type 0 where
  pub index : ℕ
  pub kind : SseKind
  pub event_type : Option Text
  pub data_text : Text
  pub id : Text
  pub retry_after : Option ℕ
  pub event_comments : List Text
  pub raw_frame_identity : Text
  pub observed_at : ℕ

-- The variables of the loop over the lines.
pub record SseParser : Type 0 where
  pub events : List SseEvent
  pub line_count : ℕ
  pub frame_start : ℕ
  pub frame_has_fields : Bool
  pub event_name : Text
  pub data_parts : List Text
  pub last_event_id : Text
  pub retry : Option ℕ
  pub comments : List Text
  pub terminal_seen : Bool

-- `resetFrame`.
unfoldable pub reset_frame : ℕ → SseParser → SseParser
reset_frame next s = record s {
  frame_start = next;
  frame_has_fields = false;
  event_name = [];
  data_parts = [];
  retry = none;
  comments = [];
}

-- `parts.join("\n")`.
unfoldable pub join_lines : List Text → Text
join_lines [] = []
join_lines (t ∷ []) = t
join_lines (t ∷ u ∷ parts) = t ++ (10 ∷ join_lines (u ∷ parts))

abbrev pub is_done : Text → Bool
is_done t = t == codes "[DONE]"

-- The event of the current frame, which ends at an offset.
unfoldable pub event_of : SseOptions → CollectedStream → ℕ → SseParser → SseEvent
unfolding join_lines
event_of o c offset s = record {
  index = length s.events;
  kind = if is_done (join_lines s.data_parts) then SseKind.done else SseKind.event;
  event_type = if is_empty s.event_name then none else some s.event_name;
  data_text = join_lines s.data_parts;
  id = s.last_event_id;
  retry_after = s.retry;
  event_comments = s.comments;
  raw_frame_identity = o.payload_identity (slice s.frame_start offset c.bytes);
  observed_at = observed_at_offset c.marks offset c.completed_at;
}

unfoldable pub push_event : SseOptions → CollectedStream → ℕ → SseParser → SseParser
unfolding event_of reset_frame
push_event o c offset s = reset_frame offset (record s {
  events = s.events ++ event_of o c offset s ∷ [];
  terminal_seen = is_done (join_lines s.data_parts);
})

-- `dispatch`.
unfoldable pub dispatch : SseOptions → CollectedStream → ℕ → SseParser → Result CodecError SseParser
unfolding push_event
dispatch o c offset s = if is_empty s.data_parts then ok (reset_frame offset s) else do
  require (ltb (length s.events) o.sse_limits.max_events) CodecError.event_limit
  refuse (ltb o.sse_limits.max_event_bytes (length (slice s.frame_start offset c.bytes)))
      CodecError.event_byte_limit
  refuse s.terminal_seen CodecError.terminal_order
  ok (push_event o c offset s)

-- The index of the first colon.
unfoldable pub colon_index : List ℕ → Option ℕ
colon_index [] = none
colon_index (b ∷ line) =
    let rest = colon_index line in
    if b == b':' then some 0 else elim rest [ none ↦ none | some i ↦ some (suc i) ]

-- The name and the value of a field.
unfoldable pub field_name : List ℕ → List ℕ
unfolding colon_index
field_name line = elim (colon_index line) [ none ↦ line | some i ↦ take i line ]

abbrev pub skip_space : List ℕ → List ℕ
skip_space [] = []
skip_space (b ∷ value) = if b == b' ' then value else b ∷ value

unfoldable pub field_value : List ℕ → List ℕ
unfolding colon_index
field_value line = elim (colon_index line) [ none ↦ [] | some i ↦ skip_space (drop (suc i) line) ]

-- `retry`: digits only, a safe integer, within the limit; any other value is ignored.
unfoldable pub set_retry : ℕ → Text → SseParser → SseParser
set_retry most value s =
    if not (is_empty value)
      && all is_digit value
      && leb (number 0 value) max_safe_integer
      && leb (number 0 value) most
    then record s { retry = some (number 0 value) }
    else s

-- The `switch` on the name of a field; an unknown name is ignored.
unfoldable pub set_field : ℕ → Text → Text → SseParser → SseParser
unfolding set_retry
set_field most name value s =
    if name == codes "event"
    then record s { event_name = value }
    else if name == codes "data"
    then record s { data_parts = s.data_parts ++ value ∷ [] }
    else if name == codes "id"
    then if includes value 0 then s else record s { last_event_id = value }
    else if name == codes "retry"
    then set_retry most value s
    else s

abbrev pub decoded : List ℕ → Result CodecError Text
decoded bytes = elim (decode_utf8 bytes) [ none ↦ err CodecError.invalid_utf8 | some t ↦ ok t ]

unfoldable pub comment_line : SseLimits → List ℕ → SseParser → Result CodecError SseParser
comment_line l rest s = do
  refuse (ltb l.max_field_bytes (length rest)) CodecError.field_byte_limit
  t ← decoded rest
  ok (record s { comments = s.comments ++ t ∷ [] })

unfoldable pub field_line : SseLimits → List ℕ → SseParser → Result CodecError SseParser
unfolding field_name field_value set_field
field_line l line s = do
  refuse
      (ltb l.max_field_bytes (length (field_name line))
        || ltb l.max_field_bytes (length (field_value line)))
      CodecError.field_byte_limit
  name ← decoded (field_name line)
  value ← decoded (field_value line)
  ok (set_field l.max_retry name value s)

-- A line with content.
unfoldable pub content_line : SseLimits → List ℕ → SseParser → Result CodecError SseParser
unfolding comment_line field_line
content_line l [] s = ok s
content_line l (b ∷ rest) s = if b == b':' then comment_line l rest s else field_line l (b ∷ rest) s

abbrev pub count_line : SseParser → SseParser
count_line s = record s { line_count = s.line_count + 1 }

-- `processLine`, with the three offsets of the line.
unfoldable pub process_line :
    SseOptions → CollectedStream → ℕ → ℕ → ℕ → SseParser → Result CodecError SseParser
unfolding dispatch content_line
process_line o c content_start content_end delimiter_end s = do
  refuse (ltb o.sse_limits.max_lines (s.line_count + 1)) CodecError.line_limit
  refuse (ltb o.sse_limits.max_line_bytes (content_end - content_start)) CodecError.line_byte_limit
  refuse (ltb o.sse_limits.max_event_bytes (delimiter_end - s.frame_start))
      CodecError.event_byte_limit
  if content_end - content_start == 0
      then dispatch o c delimiter_end (count_line s)
      else content_line o.sse_limits (slice content_start content_end c.bytes)
          (record s { line_count = s.line_count + 1; frame_has_fields = true })
