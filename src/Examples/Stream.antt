-- ===== src/Examples/Stream.antt =====
-- The theorems on byte streams, at concrete streams.
use tasc.Base.{
  ℕ, ◌+◌, ◌≡◌, ◌≢◌, ◌↔◌, refl, List, [], ◌∷◌, none, some, ok, err, true, false, ℕ_discrete,
  Option-discrete, if◌then◌else◌, is_some, find?, ◌>>=◌, arith,
}
use tasc.Stream.{CodecError, Source, iterable, chunk, at_ms, CollectedStream, RuntimeStreamTiming}
use tasc.Stream.Collect.{CollectOptions, collect_stream}
use tasc.Stream.Collect.Buffer.{gather_stream}
use tasc.Stream.Collect.Marks.{IsStream, collect_stream-gather, collect_stream-IsStream}
use tasc.Stream.Json.{Json, object, member, no_members, string, boolean, null}
use tasc.Stream.JsonSse.{
  JsonSseOptions, JsonSseResult, JsonSseTerminal, FinalUsage, openai_chat_completions, json_result,
}
use tasc.Stream.JsonSse.Terminal.{json_result-IsSummary}
use tasc.Stream.JsonSse
use tasc.Stream.Limits.{default_sse_limits, natural_limits, normalize_sse_limits}
use tasc.Stream.Limits.Range.{InRange, normalize_sse_limits_iff}
use tasc.Stream.Ndjson.{
  NdjsonOptions, NdjsonResult, NdjsonTerminal, NdjsonUsage, ollama, parse_lines,
}
use tasc.Stream.Ndjson
use tasc.Stream.Ndjson.Terminal.{parse_lines-IsSummary}
use tasc.Stream.Observed.{observed_at_offset, time_or}
use tasc.Stream.Observed.First.{Ascending, reaches, observed_at-first}
use tasc.Stream.Sse.{SseResult, SseTerminal, ParsedSse, parse_bounded_sse, parse_sse_bytes}
use tasc.Stream.SseLines.{SseOptions, SseEvent, SseKind}
use tasc.Stream.Sse.Bounds.{IsBounded, parse_sse_bytes-IsBounded}
use tasc.Stream.Sse.Chunks.{untimed_result, parse_sse_bytes-chunks}
use tasc.Stream.Sse.Times.{Timed, parse_bounded_sse-Timed}
use tasc.Stream.Sse.Valid.{parse_sse_bytes-decodes}
use tasc.Stream.Utf8.{decode_utf8}
use tasc.Text.{codes, Text-discrete}

abbrev collecting : CollectOptions
collecting = record { max_total_bytes = 4096; max_chunks = 10; started = 100; at_end = at_ms 130 }

abbrev options : SseOptions
options = record {
  collecting = collecting;
  sse_limits = record {
    max_lines = 20;
    max_line_bytes = 64;
    max_events = 4;
    max_event_bytes = 128;
    max_field_bytes = 64;
    max_retry = 5000;
  };
  payload_identity = λ bytes. codes "identity";
}

-- The bytes of one event and the sentinel, cut inside a delimiter.
abbrev source : Source
source = iterable (
    chunk (codes "id: 7\ndata: one\r\n\r") (at_ms 110)
    ∷ chunk (codes "\n:end\ndata: [DONE]\n\n") (at_ms 120)
    ∷ [])

abbrev collected : CollectedStream
collected = record {
  bytes = codes "id: 7\ndata: one\r\n\r\n:end\ndata: [DONE]\n\n";
  marks =
      record { end_offset = 18; mark_at = 110 } ∷ record { end_offset = 38; mark_at = 120 } ∷ [];
  total_chunks = 2;
  started_at = 100;
  first_byte_at = some 110;
  completed_at = 130;
}

collects : collect_stream collecting source ≡ ok collected
unfolding collect_stream ℕ_discrete
collects = refl

abbrev first_event : SseEvent
first_event = record {
  index = 0;
  kind = SseKind.event;
  event_type = none;
  data_text = codes "one";
  id = codes "7";
  retry_after = none;
  event_comments = [];
  raw_frame_identity = codes "identity";
  observed_at = 120;
}

abbrev sentinel : SseEvent
sentinel = record {
  index = 1;
  kind = SseKind.done;
  event_type = none;
  data_text = codes "[DONE]";
  id = codes "7";
  retry_after = none;
  event_comments = codes "end" ∷ [];
  raw_frame_identity = codes "identity";
  observed_at = 120;
}

abbrev parsed_sse : ParsedSse
parsed_sse = record {
  parsed_events = first_event ∷ sentinel ∷ [];
  total_lines = 6;
  trailing_incomplete = false;
}

parses : parse_sse_bytes options collected ≡ ok parsed_sse
unfolding parse_sse_bytes ℕ_discrete Text-discrete decode_utf8 observed_at_offset
parses = refl

abbrev times : RuntimeStreamTiming
times = record {
  timing_started_at = 100;
  timing_first_byte_at = some 110;
  first_meaningful_at = some 120;
  timing_completed_at = 130;
  time_to_first_byte = some 10;
  time_to_first_meaningful = some 20;
  duration = 30;
}

abbrev result : SseResult
result = record {
  result_events = first_event ∷ sentinel ∷ [];
  terminal = SseTerminal.done_sentinel;
  result_incomplete = false;
  result_bytes = 38;
  result_chunks = 2;
  result_lines = 6;
  result_timing = times;
}

ends : parse_bounded_sse options source ≡ ok result
unfolding parse_bounded_sse collect_stream ℕ_discrete Text-discrete decode_utf8 observed_at_offset
ends = refl

abbrev text_json : List ℕ → Json
text_json bytes = object (member (codes "text") (string bytes) no_members)

abbrev json_options : JsonSseOptions
json_options = record {
  sse = options;
  protocol = openai_chat_completions;
  parse_json = λ bytes. some (text_json bytes);
}

abbrev json_events_result : JsonSseResult
json_events_result = record {
  result_events =
      record {
        base = first_event;
        json = text_json (codes "one");
        event_kind = none;
        provider_error = false;
        usage_present = false;
        meaningful_output = true;
      }
      ∷ record {
        base = sentinel;
        json = null;
        event_kind = none;
        provider_error = false;
        usage_present = false;
        meaningful_output = false;
      }
      ∷ [];
  terminal = JsonSseTerminal.done_sentinel;
  final_usage = FinalUsage.missing;
  result_incomplete = false;
  result_bytes = 38;
  result_chunks = 2;
  result_lines = 6;
  result_timing = times;
}

reads : json_result json_options collected parsed_sse ≡ ok json_events_result
unfolding json_result ℕ_discrete Text-discrete Option-discrete
reads = refl

abbrev ndjson_options : NdjsonOptions
ndjson_options = record {
  collecting = collecting;
  max_line_bytes = 64;
  max_items = 4;
  protocol = ollama;
  parse_json = λ bytes. some (object (member (codes "done") (boolean true) no_members));
  payload_identity = λ bytes. codes "identity";
}

abbrev lines : CollectedStream
lines = record collected { bytes = codes "{}\r\n" }

abbrev lines_result : NdjsonResult
lines_result = record {
  result_items =
      record {
        index = 0;
        json = object (member (codes "done") (boolean true) no_members);
        raw_line_identity = codes "identity";
        observed_at = 110;
        done = true;
        provider_error = false;
        usage_present = false;
        meaningful_output = false;
      }
      ∷ [];
  terminal = NdjsonTerminal.done;
  final_usage = NdjsonUsage.missing;
  result_bytes = 4;
  result_chunks = 2;
  result_lines = 1;
  result_timing = record times { first_meaningful_at = none; time_to_first_meaningful = none };
}

itemized : parse_lines ndjson_options lines ≡ ok lines_result
unfolding parse_lines ℕ_discrete Text-discrete observed_at_offset
itemized = refl

collect_stream-gather_example : collect_stream collecting source ≡ (
    gather_stream collecting source >>= λ c.
    if is_some (decode_utf8 c.bytes) then ok c else err CodecError.invalid_utf8)
collect_stream-gather_example = collect_stream-gather collecting source

collect_stream-IsStream_example :
    IsStream collecting collected × (is_some (decode_utf8 collected.bytes) ≡ true)
collect_stream-IsStream_example = collect_stream-IsStream collecting source collected collects

ascending : Ascending 0 collected.marks
unfolding Ascending
ascending = (omega arith, (omega arith, tt))

observed_at-first_example :
    observed_at_offset collected.marks 20 130 ≡ time_or 130 (find? (reaches 20) collected.marks)
observed_at-first_example = observed_at-first 0 20 collected.marks ascending 130

parse_sse_bytes-IsBounded_example : IsBounded options collected parsed_sse
parse_sse_bytes-IsBounded_example = parse_sse_bytes-IsBounded options collected parsed_sse parses

parse_bounded_sse-Timed_example : Timed 100 (first_event ∷ sentinel ∷ []) 130 × (100 + 30 ≡ 130)
parse_bounded_sse-Timed_example = parse_bounded_sse-Timed options source result ends

-- The same bytes in one chunk.
abbrev one_chunk : CollectedStream
one_chunk = record collected {
  marks = record { end_offset = 38; mark_at = 125 } ∷ [];
  total_chunks = 1;
}

parse_sse_bytes-chunks_example :
    (parse_sse_bytes options collected >>= λ p. ok (untimed_result p))
    ≡ (parse_sse_bytes options one_chunk >>= λ p. ok (untimed_result p))
parse_sse_bytes-chunks_example = parse_sse_bytes-chunks options collected one_chunk refl

parse_sse_bytes-decodes_example : parse_sse_bytes options collected ≢ err CodecError.invalid_utf8
parse_sse_bytes-decodes_example =
    parse_sse_bytes-decodes options collecting source collected collects

json_result-IsSummary_example :
    JsonSse.Terminal.IsSummary json_options parsed_sse json_events_result
json_result-IsSummary_example =
    json_result-IsSummary json_options collected parsed_sse json_events_result reads

parse_lines-IsSummary_example : Ndjson.Terminal.IsSummary ndjson_options lines lines_result
parse_lines-IsSummary_example = parse_lines-IsSummary ndjson_options lines lines_result itemized

normalize_sse_limits_iff_example :
    (normalize_sse_limits (natural_limits default_sse_limits) ≡ ok default_sse_limits) ↔ (
      (natural_limits default_sse_limits ≡ natural_limits default_sse_limits)
      × InRange default_sse_limits)
normalize_sse_limits_iff_example =
    normalize_sse_limits_iff (natural_limits default_sse_limits) default_sse_limits
