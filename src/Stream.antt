-- ===== src/Stream.antt =====
-- src/runtime/sse.ts and src/runtime/ndjson.ts: the collection of a bounded byte stream, and the
-- event-stream and line-delimited parsers over what was collected. A byte is its number; a time is a
-- number of milliseconds.
pub mod Bytes
pub mod Utf8
pub mod Collect
pub mod Observed
pub mod Snoc
pub mod Limits
pub mod SseLines
pub mod Sse
pub mod Json
pub mod JsonSse
pub mod Ndjson
use tasc.Base.{ℕ, Option, List}

-- `RuntimeCodecErrorCode`, as far as the two parsers throw it.
pub data CodecError : Type 0 where
  invalid_options invalid_source input_stream invalid_chunk chunk_limit byte_limit : CodecError
  invalid_utf8 utf8_bom line_limit line_byte_limit event_limit event_byte_limit : CodecError
  field_byte_limit item_limit blank_line invalid_json terminal_order clock : CodecError

-- What the caller's clock gives: a finite number, or a throw or any other value.
pub data Reading : Type 0 where
  at_ms : ℕ → Reading
  unreadable : Reading

-- What the iterator of the source gives in one round, with the clock as it would be read then.
pub data Arrival : Type 0 where
  chunk : List ℕ → Reading → Arrival
  not_bytes : Arrival
  broken : Arrival

pub data Source : Type 0 where
  not_iterable : Source
  iterable : List Arrival → Source

pub record ChunkMark : Type 0 where
  pub end_offset : ℕ
  pub mark_at : ℕ

pub record CollectedStream : Type 0 where
  pub bytes : List ℕ
  pub marks : List ChunkMark
  pub total_chunks : ℕ
  pub started_at : ℕ
  pub first_byte_at : Option ℕ
  pub completed_at : ℕ

pub record RuntimeStreamTiming : Type 0 where
  pub timing_started_at : ℕ
  pub timing_first_byte_at : Option ℕ
  pub first_meaningful_at : Option ℕ
  pub timing_completed_at : ℕ
  pub time_to_first_byte : Option ℕ
  pub time_to_first_meaningful : Option ℕ
  pub duration : ℕ
