-- ===== src/Stream/JsonSse.antt =====
-- src/runtime/sse.ts, `parseBoundedJsonSse`: the data of each event as JSON, read under a protocol.
pub mod Terminal
use tasc.Base.{
  ℕ, ◌-◌, Bool, true, false, not, ◌&&◌, ◌||◌, List, [], ◌∷◌, ◌++◌, Option, none, some, leb, ◌==◌,
  option_eq, is_none, if◌then◌else◌, length, last?, Result, ok, err, require, refuse, ◌>>=◌, ◌>>◌,
}
use tasc.Stream.{CodecError, CollectedStream, RuntimeStreamTiming, Source}
use tasc.Stream.Bytes.{get_elem?, drop}
use tasc.Stream.Collect.{collect_stream}
use tasc.Stream.Json.{
  Json, Items, null, array, no_items, item, own, is_record, text_of, json_or_null,
  has_non_empty_text, has_usage, encode_utf8,
}
use tasc.Stream.Sse.{is_event, ParsedSse, parse_sse_bytes, timing}
use tasc.Stream.SseLines.{SseOptions, SseEvent, SseKind, event, done}
use tasc.Text.{Text, codes, text_eq}

pub data JsonSseProtocol : Type 0 where
  generic_json_sse openai_chat_completions openai_responses : JsonSseProtocol

-- `parse_json` is `parseBoundedJson` under the caller's limits; `none` is a throw.
pub record JsonSseOptions : Type 0 where
  pub sse : SseOptions
  pub protocol : JsonSseProtocol
  pub parse_json : List ℕ → Option Json

pub record JsonSseEvent : Type 0 where
  pub base : SseEvent
  pub json : Json
  pub event_kind : Option Text
  pub provider_error : Bool
  pub usage_present : Bool
  pub meaningful_output : Bool

-- `responseEventType`.
unfoldable pub response_event_type : Json → Option Text → Option Text
unfolding own
response_event_type j event_name = elim (text_of (own (codes "type") j)) [
  | none ↦ event_name
  | some type ↦ some type
]

abbrev ends_with : Text → Text → Bool
ends_with t suffix = leb (length suffix) (length t) && drop (length t - length suffix) t == suffix

abbrev is_error_type : Option Text → Bool
is_error_type none = false
is_error_type (some t) = t == codes "error" || ends_with t (codes ".error")

-- `isProviderError`.
unfoldable pub is_provider_error : Json → Option Text → Option Text → Bool
unfolding own
is_provider_error j event_name type =
    event_name == some (codes "error")
    || is_error_type type
    || not (is_none (own (codes "error") j))

-- The test on one of the choices.
unfoldable pub meaningful_choice : Json → Bool
unfolding own
meaningful_choice choice =
    has_non_empty_text (own (codes "text") choice)
    || has_non_empty_text (own (codes "content") (json_or_null (own (codes "delta") choice)))
    || has_non_empty_text (own (codes "content") (json_or_null (own (codes "message") choice)))

abbrev any_choice : Items → Bool
any_choice no_items = false
any_choice (item j js) = meaningful_choice j || any_choice js

abbrev in_choices : Option Json → Bool
in_choices (some (array js)) = any_choice js
in_choices _ = false

-- `meaningfulChatEvent`.
unfoldable pub meaningful_chat_event : Json → Bool
unfolding own meaningful_choice
meaningful_chat_event j =
    has_non_empty_text (own (codes "text") j)
    || has_non_empty_text (own (codes "content") j)
    || in_choices (own (codes "choices") j)

-- `meaningfulResponsesEvent`.
unfoldable pub meaningful_responses_event : Json → Option Text → Bool
unfolding own
meaningful_responses_event j type =
    type == some (codes "response.output_text.delta") && has_non_empty_text (own (codes "delta") j)

-- `protocolMeaningful`.
unfoldable pub protocol_meaningful : JsonSseProtocol → Json → Option Text → Bool → Bool
unfolding meaningful_chat_event meaningful_responses_event
protocol_meaningful generic_json_sse j type failed = not failed
protocol_meaningful openai_chat_completions j type failed = not failed && meaningful_chat_event j
protocol_meaningful openai_responses j type failed = not failed && meaningful_responses_event j type

abbrev pub is_responses : JsonSseProtocol → Bool
is_responses openai_responses = true
is_responses _ = false

abbrev pub completes : Option Text → Bool
completes type = type == some (codes "response.completed")

-- One event of the result.
unfoldable pub json_event : JsonSseProtocol → SseEvent → Json → JsonSseEvent
unfolding response_event_type is_provider_error has_usage protocol_meaningful
json_event p e j =
    let type = response_event_type j e.event_type in
    let failed = is_provider_error j e.event_type type in
    record {
      base = e;
      json = j;
      event_kind = type;
      provider_error = failed;
      usage_present = has_usage j;
      meaningful_output = is_event e && protocol_meaningful p j type failed;
    }

-- After such an event the stream is over.
unfoldable pub is_terminal : JsonSseProtocol → JsonSseEvent → Bool
is_terminal p e =
    e.provider_error || not (is_event e.base) || (is_responses p && completes e.event_kind)

-- The variables of the loop over the events.
pub record JsonSseScan : Type 0 where
  pub json_events : List JsonSseEvent
  pub provider_error_seen : Bool
  pub response_completed_seen : Bool
  pub response_completed_usage : Bool
  pub first_meaningful : Option ℕ
  pub semantic_terminal_seen : Bool

abbrev pub first_of : Option ℕ → Bool → ℕ → Option ℕ
first_of (some t) meaningful at = some t
first_of none meaningful at = if meaningful then some at else none

unfoldable pub push_json_event : JsonSseProtocol → JsonSseEvent → JsonSseScan → JsonSseScan
unfolding is_terminal
push_json_event p e s = record {
  json_events = s.json_events ++ e ∷ [];
  provider_error_seen = s.provider_error_seen || e.provider_error;
  response_completed_seen = s.response_completed_seen || completes e.event_kind;
  response_completed_usage =
      if completes e.event_kind then e.usage_present else s.response_completed_usage;
  first_meaningful = first_of s.first_meaningful e.meaningful_output e.base.observed_at;
  semantic_terminal_seen = is_terminal p e;
}

-- The JSON of an event's data; the done sentinel has none, which is `null`.
unfoldable pub event_json : JsonSseOptions → SseEvent → Result CodecError Json
unfolding encode_utf8
event_json o e =
    if is_event e
    then (elim (o.parse_json (encode_utf8 e.data_text)) [
      | none ↦ err CodecError.invalid_json
      | some j ↦ ok j
    ])
    else ok null

unfoldable pub scan_json :
    JsonSseOptions → List SseEvent → JsonSseScan → Result CodecError JsonSseScan
unfolding event_json json_event push_json_event
scan_json o [] s = ok s
scan_json o (e ∷ es) s = do
  refuse s.semantic_terminal_seen CodecError.terminal_order
  j ← event_json o e
  scan_json o es (push_json_event o.protocol (json_event o.protocol e j) s)

pub data JsonSseTerminal : Type 0 where
  eof done_sentinel response_completed provider_error truncated : JsonSseTerminal

pub data FinalUsage : Type 0 where
  present missing not_required : FinalUsage

abbrev pub is_done_event : Option JsonSseEvent → Bool
is_done_event none = false
is_done_event (some e) = not (is_event e.base)

unfoldable pub terminal_by : JsonSseProtocol → JsonSseScan → JsonSseTerminal
terminal_by p s = if s.provider_error_seen then JsonSseTerminal.provider_error else (elim p [
  | openai_responses ↦
      if s.response_completed_seen
      then JsonSseTerminal.response_completed
      else JsonSseTerminal.truncated
  | openai_chat_completions ↦
      if is_done_event (last? s.json_events)
      then JsonSseTerminal.done_sentinel
      else JsonSseTerminal.truncated
  | generic_json_sse ↦
      if is_done_event (last? s.json_events)
      then JsonSseTerminal.done_sentinel
      else JsonSseTerminal.eof
])

abbrev has_usage_at : Option JsonSseEvent → Bool
has_usage_at none = false
has_usage_at (some e) = e.usage_present

-- `events[doneIndex - 1]?.usagePresent` for a sentinel that is not the only event.
abbrev usage_before_done : List JsonSseEvent → Bool
usage_before_done es =
    is_done_event (last? es) && leb 2 (length es) && has_usage_at (get_elem? es (length es - 2))

abbrev usage_if : Bool → FinalUsage
usage_if b = if b then FinalUsage.present else FinalUsage.missing

unfoldable pub final_usage_by : JsonSseProtocol → JsonSseScan → FinalUsage
final_usage_by generic_json_sse s = FinalUsage.not_required
final_usage_by openai_responses s =
    usage_if (not s.provider_error_seen && s.response_completed_seen && s.response_completed_usage)
final_usage_by openai_chat_completions s =
    usage_if (not s.provider_error_seen && usage_before_done s.json_events)

pub record JsonSseResult : Type 0 where
  pub result_events : List JsonSseEvent
  pub terminal : JsonSseTerminal
  pub final_usage : FinalUsage
  pub result_incomplete : Bool
  pub result_bytes : ℕ
  pub result_chunks : ℕ
  pub result_lines : ℕ
  pub result_timing : RuntimeStreamTiming

abbrev pub new_scan : JsonSseScan
new_scan = record {
  json_events = [];
  provider_error_seen = false;
  response_completed_seen = false;
  response_completed_usage = false;
  first_meaningful = none;
  semantic_terminal_seen = false;
}

-- What is returned for the parsed events of a collected stream.
unfoldable pub json_result :
    JsonSseOptions → CollectedStream → ParsedSse → Result CodecError JsonSseResult
unfolding scan_json terminal_by final_usage_by timing
json_result o c p = do
  s ← scan_json o p.parsed_events new_scan
  refuse (s.semantic_terminal_seen && p.trailing_incomplete) CodecError.terminal_order
  ok (record {
    result_events = s.json_events;
    terminal = terminal_by o.protocol s;
    final_usage = final_usage_by o.protocol s;
    result_incomplete = p.trailing_incomplete;
    result_bytes = length c.bytes;
    result_chunks = c.total_chunks;
    result_lines = p.total_lines;
    result_timing = timing c s.first_meaningful;
  })

-- `parseBoundedJsonSse`, under normalized options.
unfoldable pub parse_bounded_json_sse : JsonSseOptions → Source → Result CodecError JsonSseResult
unfolding parse_sse_bytes json_result
parse_bounded_json_sse o source = do
  c ← collect_stream o.sse.collecting source
  p ← parse_sse_bytes o.sse c
  json_result o c p
