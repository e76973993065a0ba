-- ===== src/Stream/Collect/Buffer.antt =====
-- src/runtime/sse.ts, `collectStream`: the growing buffer holds the chunks in a row.
use tasc.Base.{
  ℕ, zero, suc, ◌+◌, ◌≤◌, ◌<◌, ◌≡◌, refl, ap, sym, subst, ◌∙◌, List, [], ◌∷◌, ◌++◌, Option, none,
  ltb, leb, is_empty, length, Result, ok, err, require, refuse, ◌>>=◌, ◌>>◌, arith, >>=-assoc,
}
use native.Mathlib.Decide.{dec_lt}
use tasc.Stream.{
  CodecError, Reading, at_ms, unreadable, Arrival, chunk, not_bytes, broken, Source, not_iterable,
  iterable, ChunkMark, CollectedStream,
}
use tasc.Stream.Bytes.{
  take, replicate, set_at, length-take, length-replicate, length-set_at, take-set_at,
}
use tasc.Stream.Collect.{
  CollectOptions, Collector, read_clock, min, max, grow, room_for, or_else, write_chunk,
  accept_bytes, accept, accept_all, empty_collector, finish, collect_bytes,
}

-- The growth of the buffer ends after one round at most, with room for what is required and within
-- the limit.
pub grow_once :
    (rounds most required capacity : ℕ)
    → required ≤ most
    → capacity ≤ most
    → (grow (suc rounds) most required capacity ≡ grow 1 most required capacity)
      × (required ≤ grow (suc rounds) most required capacity)
      × (capacity ≤ grow (suc rounds) most required capacity)
      × (grow (suc rounds) most required capacity ≤ most)
unfolding grow
grow_once zero most required capacity h k = ground arith
grow_once (suc rounds) most required capacity h k = ground arith

-- The same collection with a list in place of the buffer.
pub record Gathered : Type 0 where
  pub contents : List ℕ
  pub gathered_chunks : ℕ
  pub gathered_first : Option ℕ
  pub gathered_time : ℕ
  pub gathered_marks : List ChunkMark

unfoldable pub add_chunk : Gathered → List ℕ → ℕ → Gathered
add_chunk g view time = record {
  contents = g.contents ++ view;
  gathered_chunks = g.gathered_chunks + 1;
  gathered_first = or_else g.gathered_first time;
  gathered_time = time;
  gathered_marks =
      g.gathered_marks
      ++ record { end_offset = length g.contents + length view; mark_at = time } ∷ [];
}

unfoldable pub gather : CollectOptions → Gathered → Arrival → Result CodecError Gathered
unfolding add_chunk read_clock
gather o g (chunk view reading) = do
  require (ltb g.gathered_chunks o.max_chunks) CodecError.chunk_limit
  refuse (is_empty view) CodecError.invalid_chunk
  require (leb (length g.contents + length view) o.max_total_bytes) CodecError.byte_limit
  time ← read_clock reading g.gathered_time
  ok (add_chunk g view time)
gather o g not_bytes = do
  require (ltb g.gathered_chunks o.max_chunks) CodecError.chunk_limit
  err CodecError.invalid_chunk
gather o g broken = err CodecError.input_stream

unfoldable pub gather_all : CollectOptions → Gathered → List Arrival → Result CodecError Gathered
unfolding gather
gather_all o g [] = ok g
gather_all o g (arrival ∷ rest) = do g' ← gather o g arrival; gather_all o g' rest

unfoldable pub nothing_gathered : CollectOptions → Gathered
nothing_gathered o = record {
  contents = [];
  gathered_chunks = 0;
  gathered_first = none;
  gathered_time = o.started;
  gathered_marks = [];
}

unfoldable pub gathered_stream : CollectOptions → Gathered → Result CodecError CollectedStream
unfolding read_clock
gathered_stream o g = do
  completed ← read_clock o.at_end g.gathered_time
  ok (record {
    bytes = g.contents;
    marks = g.gathered_marks;
    total_chunks = g.gathered_chunks;
    started_at = o.started;
    first_byte_at = g.gathered_first;
    completed_at = completed;
  })

unfoldable pub gather_stream : CollectOptions → Source → Result CodecError CollectedStream
unfolding gather_all nothing_gathered gathered_stream
gather_stream o not_iterable = err CodecError.invalid_source
gather_stream o (iterable arrivals) = do
  g ← gather_all o (nothing_gathered o) arrivals
  gathered_stream o g

-- What is gathered in a collector's buffer.
abbrev gathered : Collector → Gathered
gathered s = record {
  contents = take s.total_bytes s.storage;
  gathered_chunks = s.chunk_count;
  gathered_first = s.first_at;
  gathered_time = s.previous_time;
  gathered_marks = s.chunk_marks;
}

-- The buffer has room for its contents, and both are within the limit.
abbrev Fits : CollectOptions → Collector → Type 0
Fits o s = (s.total_bytes ≤ length s.storage) × (length s.storage ≤ o.max_total_bytes)

module _ (most required total : ℕ) (storage : List ℕ) (inside : total ≤ length storage)
    (bounded : length storage ≤ most) (more : total ≤ required) (allowed : required ≤ most) where
  room_for_kept : required ≤ length storage → room_for most required total storage ≡ storage
  unfolding room_for
  room_for_kept h = ground arith

  abbrev capacity : ℕ
  capacity = grow 1 most required (max 1 (length storage))

  abbrev zeros : List ℕ
  zeros = replicate capacity 0

  abbrev grown : List ℕ
  grown = set_at zeros (take total storage) 0

  room_for-grown : length storage < required → room_for most required total storage ≡ grown
  unfolding room_for
  room_for-grown h = ground arith

  capacity-le : length storage < required → (required ≤ capacity) × (capacity ≤ most)
  capacity-le h =
      let (_, p, _, q) =
        grow_once 0 most required (max 1 (length storage)) allowed (ground arith) in
      (p, q)

  taken : length (take total storage) ≡ total
  taken = length-take total storage inside

  -- There is room for what is required, within the limit, and the contents are kept.
  abbrev IsRoom : List ℕ → Type 0
  IsRoom room =
      (required ≤ length room) × (length room ≤ most) × (take total room ≡ take total storage)

  grown-IsRoom : length storage < required → IsRoom grown
  grown-IsRoom h =
      let (p, q) = capacity-le h in
      let n : length zeros ≡ capacity = length-replicate capacity 0 in
      let e : length grown ≡ capacity = omega (
        arith,
        n,
        taken,
        p,
        length-set_at zeros (take total storage) 0 (omega (arith, n, taken, p)),
      ) in
      let t : 0 + length (take total storage) ≡ total = omega (arith, taken) in
      (
        omega (arith, e, p),
        omega (arith, e, q),
        subst (λ n. take n grown ≡ take total storage) t
            (take-set_at zeros (take total storage) 0 (omega arith)),
      )

  room_for-IsRoom : IsRoom (room_for most required total storage)
  room_for-IsRoom = elim (dec_lt (length storage) required) [
    | yes h ↦ subst IsRoom (sym (room_for-grown h)) (grown-IsRoom h)
    | no h ↦ subst IsRoom (sym (room_for_kept (omega arith))) (omega arith, bounded, refl)
  ]

module _ (o : CollectOptions) where
  module _ (s : Collector) (view : List ℕ) (time : ℕ) (fits : Fits o s)
      (allowed : s.total_bytes + length view ≤ o.max_total_bytes) where
    abbrev room : List ℕ
    room = room_for o.max_total_bytes (s.total_bytes + length view) s.total_bytes s.storage

    room_lem :
        (s.total_bytes + length view ≤ length room)
        × (length room ≤ o.max_total_bytes)
        × (take s.total_bytes room ≡ take s.total_bytes s.storage)
    room_lem =
        room_for-IsRoom o.max_total_bytes (s.total_bytes + length view) s.total_bytes s.storage
          fits.0 fits.1 (omega arith) allowed

    write_chunk-Fits : Fits o (write_chunk o s view time)
    unfolding write_chunk
    write_chunk-Fits =
        let (p, q, _) = room_lem in
        let n = length-set_at room view s.total_bytes p in
        (omega (arith, n, p), omega (arith, n, q))

    write_chunk-gathered : gathered (write_chunk o s view time) ≡ add_chunk (gathered s) view time
    unfolding write_chunk add_chunk
    write_chunk-gathered =
        let (p, _, e) = room_lem in
        cc (
          take-set_at room view s.total_bytes (omega (arith, p)),
          e,
          length-take s.total_bytes s.storage fits.0,
        )

  -- One round with the buffer, seen through its contents, is one round without it.
  accept_bytes-gather :
      (s : Collector) (view : List ℕ) (reading : Reading)
      → Fits o s
      → ((accept_bytes o s view reading >>= λ t. ok (gathered t))
          ≡ gather o (gathered s) (chunk view reading))
        × ((t : Collector) → accept_bytes o s view reading ≡ ok t → Fits o t)
  unfolding accept_bytes gather read_clock
  accept_bytes-gather s view unreadable fits =
      ground (arith, length-take s.total_bytes s.storage fits.0)
  accept_bytes-gather s view (at_ms time) fits = ground (
    arith,
    length-take s.total_bytes s.storage fits.0,
    write_chunk-gathered s view time fits,
    write_chunk-Fits s view time fits,
  )

  accept-gather :
      (s : Collector) (arrival : Arrival)
      → Fits o s
      → ((accept o s arrival >>= λ t. ok (gathered t)) ≡ gather o (gathered s) arrival)
        × ((t : Collector) → accept o s arrival ≡ ok t → Fits o t)
  unfolding accept gather
  accept-gather s (chunk view reading) fits = accept_bytes-gather s view reading fits
  accept-gather s not_bytes fits = ground arith
  accept-gather s broken fits = (refl, λ t e. absurd (cc e))

  -- Two runs whose first steps agree through `gathered`.
  after_step :
      (m : Result CodecError Collector) (n : Result CodecError Gathered)
      (k : Collector → Result CodecError Collector) (l : Gathered → Result CodecError Gathered)
      → ((m >>= λ t. ok (gathered t)) ≡ n)
      → ((t : Collector) → m ≡ ok t → (k t >>= λ t. ok (gathered t)) ≡ l (gathered t))
      → (m >>= k >>= λ t. ok (gathered t)) ≡ (n >>= l)
  after_step (err e) n k l p h = ap (λ x. x >>= l) p
  after_step (ok t) n k l p h = h t refl ∙ ap (λ x. x >>= l) p

  accept_all-gather :
      (s : Collector) (arrivals : List Arrival)
      → Fits o s
      → (accept_all o s arrivals >>= λ t. ok (gathered t)) ≡ gather_all o (gathered s) arrivals
  unfolding accept_all gather_all
  accept_all-gather s [] fits = refl
  accept_all-gather s (arrival ∷ rest) fits =
      let (p, q) = accept-gather s arrival fits in
      after_step (accept o s arrival) _ (λ t. accept_all o t rest) (λ g. gather_all o g rest) p
        λ t e. accept_all-gather t rest (q t e)

  empty-Fits : Fits o (empty_collector o)
  unfolding empty_collector
  empty-Fits = ground (arith, length-replicate {A = ℕ} (min o.max_total_bytes 1024) 0)

  -- The collection with its growing buffer is the collection that appends each chunk to a list: the
  -- same stream, the same error.
  pub collect_bytes-gather : (source : Source) → collect_bytes o source ≡ gather_stream o source
  unfolding collect_bytes gather_stream finish empty_collector nothing_gathered gathered_stream
  collect_bytes-gather not_iterable = refl
  collect_bytes-gather (iterable arrivals) =
      sym (
        >>=-assoc (accept_all o (empty_collector o) arrivals) (λ t. ok (gathered t))
          (gathered_stream o))
      ∙ ap (λ x. x >>= gathered_stream o)
          (accept_all-gather (empty_collector o) arrivals empty-Fits)
