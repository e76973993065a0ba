-- ===== src/Examples/JsonStreams.antt =====
-- The theorem on streams whose JSON the bounded parser reads, at a concrete stream.
use tasc.Base.{
  ◌≡◌, refl, List, [], ◌∷◌, none, some, All, ok, true, false, ℕ_discrete, Option-discrete,
}
use tasc.JsonInput.Parse.{ParseOptions}
use tasc.JsonInput.Machine.{validate_json_grammar}
use tasc.JsonInput.Streams.{ReadFrom, with_parser, bounded_parser, parse_bounded_json_sse-ReadFrom}
use tasc.Stream.{Source, iterable, chunk, at_ms}
use tasc.Stream.Collect.{collect_stream}
use tasc.Stream.Json.{Json, object, member, no_members, string, null}
use tasc.Stream.JsonSse.{
  JsonSseOptions, JsonSseEvent, JsonSseResult, JsonSseTerminal, FinalUsage, openai_chat_completions,
  parse_bounded_json_sse,
}
use tasc.Stream.Observed.{observed_at_offset}
use tasc.Stream.SseLines.{SseKind}
use tasc.Stream.Utf8.{decode_utf8}
use tasc.Text.{codes, Text-discrete}

abbrev source : Source
source = iterable (
    chunk (codes "data: {\"text\":") (at_ms 110)
    ∷ chunk (codes "\"hi\"}\n\ndata: [DONE]\n\n") (at_ms 120)
    ∷ [])

abbrev greeting : Json
greeting = object (member (codes "text") (string (codes "hi")) no_members)

abbrev parsing : ParseOptions
parsing = record {
  scanning = record {
    limits = record {
      json_bytes = 64;
      depth = 2;
      object_keys = 4;
      array_items = 3;
      tokens = 32;
      decoded_string_length = 16;
      numeric_token_length = 8;
      diagnostic_snippet_length = 0;
    };
    is_finite = λ token. true;
  };
  json_parse = λ text. some greeting;
  max_line_bytes = 64;
  max_items = 4;
}

abbrev options : JsonSseOptions
options = record {
  sse = record {
    collecting = record {
      max_total_bytes = 4096;
      max_chunks = 10;
      started = 100;
      at_end = at_ms 130;
    };
    sse_limits = record {
      max_lines = 20;
      max_line_bytes = 64;
      max_events = 4;
      max_event_bytes = 128;
      max_field_bytes = 64;
      max_retry = 5000;
    };
    payload_identity = λ bytes. codes "identity";
  };
  protocol = openai_chat_completions;
  parse_json = λ bytes. none;
}

abbrev events : List JsonSseEvent
events =
    record {
      base = record {
        index = 0;
        kind = SseKind.event;
        event_type = none;
        data_text = codes "{\"text\":\"hi\"}";
        id = [];
        retry_after = none;
        event_comments = [];
        raw_frame_identity = codes "identity";
        observed_at = 120;
      };
      json = greeting;
      event_kind = none;
      provider_error = false;
      usage_present = false;
      meaningful_output = true;
    }
    ∷ record {
      base = record {
        index = 1;
        kind = SseKind.done;
        event_type = none;
        data_text = codes "[DONE]";
        id = [];
        retry_after = none;
        event_comments = [];
        raw_frame_identity = codes "identity";
        observed_at = 120;
      };
      json = null;
      event_kind = none;
      provider_error = false;
      usage_present = false;
      meaningful_output = false;
    }
    ∷ []

abbrev result : JsonSseResult
result = record {
  result_events = events;
  terminal = JsonSseTerminal.done_sentinel;
  final_usage = FinalUsage.missing;
  result_incomplete = false;
  result_bytes = 35;
  result_chunks = 2;
  result_lines = 4;
  result_timing = record {
    timing_started_at = 100;
    timing_first_byte_at = some 110;
    first_meaningful_at = some 120;
    timing_completed_at = 130;
    time_to_first_byte = some 10;
    time_to_first_meaningful = some 20;
    duration = 30;
  };
}

reads : parse_bounded_json_sse (with_parser options parsing) source ≡ ok result
unfolding parse_bounded_json_sse bounded_parser collect_stream validate_json_grammar decode_utf8
    observed_at_offset ℕ_discrete Text-discrete Option-discrete
reads = refl

parse_bounded_json_sse-ReadFrom_example : All (ReadFrom parsing) events
parse_bounded_json_sse-ReadFrom_example =
    parse_bounded_json_sse-ReadFrom options parsing source result reads
