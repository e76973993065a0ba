-- ===== src/Stream/Collect.antt =====
-- src/runtime/sse.ts, `collectStream`: the chunks of a source in one growing buffer, under the limits.
pub mod Buffer
pub mod Marks
use tasc.Base.{
  ℕ, zero, suc, ◌+◌, ◌-◌, ◌*◌, Bool, true, false, List, [], ◌∷◌, ◌++◌, Option, none, some, ltb, leb,
  is_empty, is_some, if◌then◌else◌, length, Result, ok, err, require, refuse, ◌>>=◌, ◌>>◌,
}
use tasc.Stream.{
  CodecError, Reading, at_ms, unreadable, Arrival, chunk, not_bytes, broken, Source, not_iterable,
  iterable, ChunkMark, CollectedStream,
}
use tasc.Stream.Bytes.{take, slice, replicate, set_at}
use tasc.Stream.Utf8.{Utf8, start, after, decode_from, flush}
use tasc.Text.{Text}

-- The limits and times that a collection uses.
pub record CollectOptions : Type 0 where
  pub max_total_bytes : ℕ
  pub max_chunks : ℕ
  pub started : ℕ
  -- The clock as it is read after the last chunk.
  pub at_end : Reading

-- The variables of the loop. `previous_time` is the last reading, at first the start.
pub record Collector : Type 0 where
  pub storage : List ℕ
  pub total_bytes : ℕ
  pub chunk_count : ℕ
  pub first_at : Option ℕ
  pub previous_time : ℕ
  pub chunk_marks : List ChunkMark

-- `readClock`.
unfoldable pub read_clock : Reading → ℕ → Result CodecError ℕ
read_clock unreadable previous = err CodecError.clock
read_clock (at_ms time) previous = if ltb time previous then err CodecError.clock else ok time

abbrev pub min : ℕ → ℕ → ℕ
min a b = if leb a b then a else b

abbrev pub max : ℕ → ℕ → ℕ
max a b = if leb a b then b else a

-- `while (capacity < required)`, for a given number of rounds at most.
unfoldable pub grow : ℕ → ℕ → ℕ → ℕ → ℕ
grow zero most required capacity = capacity
grow (suc rounds) most required capacity = elim (ltb capacity required) [
  | true ↦ grow rounds most required (min most (max required (capacity * 2)))
  | false ↦ capacity
]

-- The buffer in which the next chunk is written. One round is always enough.
unfoldable pub room_for : ℕ → ℕ → ℕ → List ℕ → List ℕ
unfolding grow
room_for most required total storage =
    if ltb (length storage) required
    then set_at (replicate (grow 1 most required (max 1 (length storage))) 0) (take total storage) 0
    else storage

abbrev pub or_else : Option ℕ → ℕ → Option ℕ
or_else none time = some time
or_else (some t) time = some t

-- What `accept` does once the chunk and the clock are read.
unfoldable pub write_chunk : CollectOptions → Collector → List ℕ → ℕ → Collector
unfolding room_for
write_chunk o s view time = record {
  storage =
      set_at (room_for o.max_total_bytes (s.total_bytes + length view) s.total_bytes s.storage) view
        s.total_bytes;
  total_bytes = s.total_bytes + length view;
  chunk_count = s.chunk_count + 1;
  first_at = or_else s.first_at time;
  previous_time = time;
  chunk_marks =
      s.chunk_marks ++ record { end_offset = s.total_bytes + length view; mark_at = time } ∷ [];
}

-- `accept` on a chunk of bytes.
unfoldable pub accept_bytes :
    CollectOptions → Collector → List ℕ → Reading → Result CodecError Collector
unfolding read_clock write_chunk
accept_bytes o s view reading = do
  require (ltb s.chunk_count o.max_chunks) CodecError.chunk_limit
  refuse (is_empty view) CodecError.invalid_chunk
  require (leb (length view) (o.max_total_bytes - s.total_bytes)) CodecError.byte_limit
  time ← read_clock reading s.previous_time
  ok (write_chunk o s view time)

-- One round of the loop over the source, in which an error of the source's own is `input-stream`.
unfoldable pub accept : CollectOptions → Collector → Arrival → Result CodecError Collector
unfolding accept_bytes
accept o s (chunk view reading) = accept_bytes o s view reading
accept o s not_bytes = do
  require (ltb s.chunk_count o.max_chunks) CodecError.chunk_limit
  err CodecError.invalid_chunk
accept o s broken = err CodecError.input_stream

unfoldable pub accept_all : CollectOptions → Collector → List Arrival → Result CodecError Collector
unfolding accept
accept_all o s [] = ok s
accept_all o s (arrival ∷ rest) = do s' ← accept o s arrival; accept_all o s' rest

unfoldable pub empty_collector : CollectOptions → Collector
empty_collector o = record {
  storage = replicate (min o.max_total_bytes 1024) 0;
  total_bytes = 0;
  chunk_count = 0;
  first_at = none;
  previous_time = o.started;
  chunk_marks = [];
}

-- The streaming decoder, fed with the bytes up to each mark.
unfoldable pub decode_marks : Utf8 → ℕ → List ChunkMark → List ℕ → Option (Utf8 × Text)
unfolding decode_from
decode_marks u first [] bytes = some (u, [])
decode_marks u first (m ∷ marks) bytes = elim (decode_from u (slice first m.end_offset bytes)) [
  | none ↦ none
  | some p ↦ after p.1 (decode_marks p.0 m.end_offset marks bytes)
]

-- The bytes, once the clock is read after the last chunk.
unfoldable pub finish : CollectOptions → Collector → Result CodecError CollectedStream
unfolding read_clock
finish o s = do
  completed ← read_clock o.at_end s.previous_time
  ok (record {
    bytes = take s.total_bytes s.storage;
    marks = s.chunk_marks;
    total_chunks = s.chunk_count;
    started_at = o.started;
    first_byte_at = s.first_at;
    completed_at = completed;
  })

-- The validation of what was collected.
unfoldable pub check_utf8 : CollectedStream → Result CodecError CollectedStream
unfolding decode_marks
check_utf8 c =
    if is_some (flush (decode_marks start 0 c.marks c.bytes))
    then ok c
    else err CodecError.invalid_utf8

-- The bytes of an iterable, before they are decoded.
unfoldable pub collect_bytes : CollectOptions → Source → Result CodecError CollectedStream
unfolding accept_all empty_collector finish
collect_bytes o not_iterable = err CodecError.invalid_source
collect_bytes o (iterable arrivals) = do s ← accept_all o (empty_collector o) arrivals; finish o s

-- `collectStream`.
unfoldable pub collect_stream : CollectOptions → Source → Result CodecError CollectedStream
unfolding collect_bytes check_utf8
collect_stream o source = do c ← collect_bytes o source; check_utf8 c
