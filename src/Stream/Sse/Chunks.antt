-- ===== src/Stream/Sse/Chunks.antt =====
-- src/runtime/sse.ts, `parseSseBytes`: how the bytes were cut into chunks decides the times only.
use tasc.Base.{
  ℕ, suc, ◌+◌, ◌-◌, ◌≡◌, refl, ap, sym, ◌∙◌, Bool, true, false, not, ◌&&◌, ◌||◌, List, [], ◌∷◌,
  ◌++◌, Option, none, some, ltb, leb, ◌==◌, nat_eq, is_empty, all, includes, map, if◌then◌else◌,
  length, Result, ok, err, require, refuse, ◌>>=◌, ◌>>◌,
}
use tasc.Network.{is_digit, number}
use tasc.Stream.{CodecError, CollectedStream}
use tasc.Stream.Bytes.{slice}
use tasc.Stream.Sse.{ParsedSse, is_incomplete, new_parser, first_line, scan, cut?, parse_sse_bytes}
use tasc.Stream.SseLines.{
  SseOptions, SseLimits, SseEvent, SseParser, process_line, dispatch, content_line, comment_line,
  field_line, field_name, field_value, set_field, set_retry, reset_frame, event_of, push_event,
  count_line, decoded,
}
use tasc.Stream.Observed.{observed_at_offset}
use tasc.Text.{Text, Text-discrete, codes, text_eq}
use tasc.Work.{max_safe_integer}

-- An event, a parser and a result without the times.
unfoldable pub untimed : SseEvent → SseEvent
untimed e = record e { observed_at = 0 }

abbrev forget : SseParser → SseParser
forget s = record s { events = map untimed s.events }

unfoldable pub untimed_result : ParsedSse → ParsedSse
untimed_result p = record p { parsed_events = map untimed p.parsed_events }

-- The same bytes, from no chunks.
abbrev chunkless : List ℕ → CollectedStream
chunkless bytes = record {
  bytes = bytes;
  marks = [];
  total_chunks = 0;
  started_at = 0;
  first_byte_at = none;
  completed_at = 0;
}

length-untimed : (es : List SseEvent) → length (map untimed es) ≡ length es
length-untimed [] = refl
length-untimed (e ∷ es) = ap suc (length-untimed es)

untimed-append : (es fs : List SseEvent) → map untimed (es ++ fs) ≡ map untimed es ++ map untimed fs
untimed-append [] fs = refl
untimed-append (e ∷ es) fs = ap (◌∷◌ (untimed e)) (untimed-append es fs)

if-ap :
    {A B : Type 0} (f : A → B) (b : Bool) {x y : A} {u v : B}
    → f x ≡ u
    → f y ≡ v
    → f (if b then x else y) ≡ (if b then u else v)
if-ap f true p q = p
if-ap f false p q = q

set_retry-forget :
    (most : ℕ) (value : Text) (s : SseParser)
    → forget (set_retry most value s) ≡ set_retry most value (forget s)
unfolding set_retry
set_retry-forget most value s =
    if-ap forget
      (not (is_empty value)
        && all is_digit value
        && leb (number 0 value) max_safe_integer
        && leb (number 0 value) most)
      refl refl

set_field-forget :
    (most : ℕ) (name value : Text) (s : SseParser)
    → forget (set_field most name value s) ≡ set_field most name value (forget s)
unfolding set_field
set_field-forget most name value s = if-ap forget (name == codes "event") refl (
    if-ap forget (name == codes "data") refl (
      if-ap forget (name == codes "id") (if-ap forget (includes value 0) refl refl)
        (if-ap forget (name == codes "retry") (set_retry-forget most value s) refl)))

abbrev forgetting : Result CodecError SseParser → Result CodecError SseParser
forgetting m = m >>= λ t. ok (forget t)

-- A part that both sides have in common, and then continuations that agree.
bind-forget :
    {X : Type 0} (m : Result CodecError X) (k l : X → Result CodecError SseParser)
    → ((x : X) → forgetting (k x) ≡ l x)
    → forgetting (m >>= k) ≡ (m >>= l)
bind-forget (ok x) k l h = h x
bind-forget (err e) k l h = refl

content_line-forget :
    (l : SseLimits) (line : List ℕ) (s : SseParser)
    → forgetting (content_line l line s) ≡ content_line l line (forget s)
unfolding content_line comment_line field_line
content_line-forget l [] s = refl
content_line-forget l (b ∷ rest) s =
    if-ap forgetting (b == b':')
      (bind-forget (refuse (ltb l.max_field_bytes (length rest)) CodecError.field_byte_limit) _ _
        λ _. bind-forget (decoded rest) _ _ λ t. refl)
      (bind-forget
        (refuse
          (ltb l.max_field_bytes (length (field_name line))
            || ltb l.max_field_bytes (length (field_value line)))
          CodecError.field_byte_limit)
        _ _
        λ _. bind-forget (decoded (field_name line)) _ _ λ name.
          bind-forget (decoded (field_value line)) _ _
            λ value. ap ok (set_field-forget l.max_retry name value s))
  where
    line : List ℕ
    line = b ∷ rest

-- The end of `parseSseBytes`, which does not look at the times.
abbrev finish_parse : SseParser → Result CodecError ParsedSse
finish_parse s = do
  refuse (s.terminal_seen && is_incomplete s) CodecError.terminal_order
  ok (record {
    parsed_events = s.events;
    total_lines = s.line_count;
    trailing_incomplete = is_incomplete s;
  })

finished :
    (m : Result CodecError SseParser)
    → (m >>= finish_parse >>= λ p. ok (untimed_result p)) ≡ (forgetting m >>= finish_parse)
unfolding untimed_result
finished (err e) = refl
finished (ok s) = ended (s.terminal_seen && is_incomplete s)
  where
    ended :
        (b : Bool)
        → (refuse b CodecError.terminal_order
            >> ok (record {
              parsed_events = s.events;
              total_lines = s.line_count;
              trailing_incomplete = is_incomplete s;
            })
            >>= λ p. ok (untimed_result p))
          ≡ (refuse b CodecError.terminal_order
              >> ok (record {
                parsed_events = map untimed s.events;
                total_lines = s.line_count;
                trailing_incomplete = is_incomplete s;
              }))
    ended true = refl
    ended false = refl

module _ (o : SseOptions) (c : CollectedStream) where
  push_event-forget :
      (offset : ℕ) (s : SseParser)
      → forget (push_event o c offset s) ≡ push_event o (chunkless c.bytes) offset (forget s)
  unfolding push_event reset_frame event_of untimed Text-discrete observed_at_offset
  push_event-forget offset s =
      cc (untimed-append s.events (event_of o c offset s ∷ []), length-untimed s.events)

  dispatch-forget :
      (offset : ℕ) (s : SseParser)
      → forgetting (dispatch o c offset s) ≡ dispatch o (chunkless c.bytes) offset (forget s)
  unfolding dispatch reset_frame
  dispatch-forget offset s = if-ap forgetting (is_empty s.data_parts) refl (
      bind-forget (require (ltb (length s.events) o.sse_limits.max_events) CodecError.event_limit) _
        rest
        (λ _.
          bind-forget
            (refuse (ltb o.sse_limits.max_event_bytes (length (slice s.frame_start offset c.bytes)))
              CodecError.event_byte_limit)
            _ _
            λ _.
              bind-forget (refuse s.terminal_seen CodecError.terminal_order) _ _
                λ _. ap ok (push_event-forget offset s))
      ∙ ap (λ n. require (ltb n o.sse_limits.max_events) CodecError.event_limit >>= rest)
          (sym (length-untimed s.events)))
    where
      rest : Unit {0} → Result CodecError SseParser
      rest _ = do
        refuse (ltb o.sse_limits.max_event_bytes (length (slice s.frame_start offset c.bytes)))
            CodecError.event_byte_limit
        refuse s.terminal_seen CodecError.terminal_order
        ok (push_event o (chunkless c.bytes) offset (forget s))

  process_line-forget :
      (from to next : ℕ) (s : SseParser)
      → forgetting (process_line o c from to next s)
        ≡ process_line o (chunkless c.bytes) from to next (forget s)
  unfolding process_line
  process_line-forget from to next s =
      bind-forget (refuse (ltb o.sse_limits.max_lines (s.line_count + 1)) CodecError.line_limit) _ _
        λ _.
          bind-forget
            (refuse (ltb o.sse_limits.max_line_bytes (to - from)) CodecError.line_byte_limit) _ _
            λ _.
              bind-forget
                (refuse (ltb o.sse_limits.max_event_bytes (next - s.frame_start))
                  CodecError.event_byte_limit)
                _ _
                λ _. if-ap forgetting (to - from == 0) (dispatch-forget next (count_line s)) (
                  content_line-forget o.sse_limits (slice from to c.bytes)
                    (record s { line_count = s.line_count + 1; frame_has_fields = true }))

  -- A line, and then a loop that agrees.
  then-forget :
      (m n : Result CodecError SseParser) (k l : SseParser → Result CodecError SseParser)
      → forgetting m ≡ n
      → ((s : SseParser) → forgetting (k s) ≡ l (forget s))
      → forgetting (m >>= k) ≡ (n >>= l)
  then-forget (ok s) n k l p h = h s ∙ ap (λ x. x >>= l) p
  then-forget (err e) n k l p h = ap (λ x. x >>= l) p

  round-forget :
      (r : Option ℕ) (past past' : Result CodecError SseParser)
      (line line' : ℕ → Result CodecError SseParser)
      (on on' : ℕ → SseParser → Result CodecError SseParser)
      → forgetting past ≡ past'
      → ((n : ℕ) → forgetting (line n) ≡ line' n)
      → ((n : ℕ) (s : SseParser) → forgetting (on n s) ≡ on' n (forget s))
      → forgetting (elim r [ none ↦ past | some n ↦ line n >>= on n ])
        ≡ (elim r [ none ↦ past' | some n ↦ line' n >>= on' n ])
  round-forget none past past' line line' on on' p q h = p
  round-forget (some n) past past' line line' on on' p q h =
      then-forget (line n) (line' n) (on n) (on' n) (q n) (h n)

  scan-forget :
      (line_start cursor : ℕ) (rest : List ℕ) (s : SseParser)
      → forgetting (scan o c line_start cursor rest s)
        ≡ scan o (chunkless c.bytes) line_start cursor rest (forget s)
  unfolding scan
  scan-forget line_start cursor [] s =
      if-ap forgetting (ltb line_start cursor) (process_line-forget line_start cursor cursor s) refl
  scan-forget line_start cursor (b ∷ rest) s =
      round-forget (cut? line_start cursor b rest) _ _ _ _ _ _
        (scan-forget line_start (cursor + 1) rest s)
        (λ n. process_line-forget line_start cursor n s) (λ n t. scan-forget n (cursor + 1) rest t)

  chunkless_lem :
      (parse_sse_bytes o c >>= λ p. ok (untimed_result p)) ≡ parse_sse_bytes o (chunkless c.bytes)
  unfolding parse_sse_bytes untimed_result new_parser
  chunkless_lem =
      finished (scan o c first 0 c.bytes (new_parser first))
      ∙ ap (λ m. m >>= λ s. finish_parse s) (scan-forget first 0 c.bytes (new_parser first))
    where
      first : ℕ
      first = first_line c.bytes

-- Two streams of the same bytes parse to the same events and the same errors, apart from the times.
pub parse_sse_bytes-chunks :
    (o : SseOptions) (c d : CollectedStream)
    → c.bytes ≡ d.bytes
    → (parse_sse_bytes o c >>= λ p. ok (untimed_result p))
      ≡ (parse_sse_bytes o d >>= λ p. ok (untimed_result p))
parse_sse_bytes-chunks o c d e =
    chunkless_lem o c ∙ ap (λ b. parse_sse_bytes o (chunkless b)) e ∙ sym (chunkless_lem o d)
