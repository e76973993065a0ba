-- ===== src/Stream/Sse/Valid.antt =====
-- src/runtime/sse.ts, `parseSseBytes`: the fields of a collected stream always decode.
use tasc.Base.{
  ℕ, ◌+◌, ◌-◌, ◌≤◌, ◌<◌, ◌≡◌, ◌≢◌, refl, ap, sym, subst, ◌∙◌, Bool, true, false, ◌&&◌, List, [],
  ◌∷◌, ◌++◌, Option, none, some, ltb, ◌==◌, nat_eq, is_empty, if◌then◌else◌, Result, ok, err, ◌>>=◌,
  arith, inl, inr, ◌⊎◌,
}
use native.Mathlib.Decide.{ℕ_discrete}
use tasc.Stream.{CodecError, CollectedStream, Source}
use tasc.Stream.Bytes.{append_nil, drop, slice, drop-drop}
use tasc.Stream.Collect.{CollectOptions, collect_stream}
use tasc.Stream.Collect.Marks.{collect_stream-IsStream, slice-drop}
use tasc.Stream.Sse.{
  new_parser, first_line, scan, cut?, delimiter_end?, is_incomplete, parse_sse_bytes,
}
use tasc.Stream.SseLines.{SseOptions, SseParser, process_line, dispatch, count_line}
use tasc.Stream.Utf8.{start, after, decode_utf8, decode_from, decode_byte}
use tasc.Stream.Utf8.Split.{IsValid, IsValid-tail, IsValid-cut, flush-after}
use tasc.Stream.Sse.Decoded.{
  Decodes, >>=-Decodes, refuse-Decodes, require-Decodes, ok-Decodes, if-Decodes,
  content_line-Decodes,
}

module _ (o : SseOptions) (c : CollectedStream) where
  dispatch-Decodes : (offset : ℕ) (s : SseParser) → Decodes (dispatch o c offset s)
  unfolding dispatch
  dispatch-Decodes offset s =
      if-Decodes (is_empty s.data_parts) _ _ (λ _. ok-Decodes _)
        (λ _. require-Decodes _ CodecError.event_limit _ refl (
          refuse-Decodes _ CodecError.event_byte_limit _ refl
            (refuse-Decodes s.terminal_seen CodecError.terminal_order _ refl (ok-Decodes _))))

  process_line-Decodes :
      (from to next : ℕ) (s : SseParser)
      → IsValid (slice from to c.bytes)
      → Decodes (process_line o c from to next s)
  unfolding process_line
  process_line-Decodes from to next s v = refuse-Decodes _ CodecError.line_limit _ refl (
      refuse-Decodes _ CodecError.line_byte_limit _ refl (
        refuse-Decodes _ CodecError.event_byte_limit _ refl (
          if-Decodes (to - from == 0) _ _ (λ _. dispatch-Decodes next (count_line s))
            (λ _. content_line-Decodes o.sse_limits (slice from to c.bytes) _ v))))

  drop_next :
      (cursor b : ℕ) (rest : List ℕ)
      → drop cursor c.bytes ≡ b ∷ rest
      → drop (cursor + 1) c.bytes ≡ rest
  drop_next cursor b rest e = sym (drop-drop cursor 1 c.bytes) ∙ ap (drop 1) e

  -- After a delimiter the bytes still decode.
  delimiter-IsValid :
      (cursor b next : ℕ) (rest : List ℕ)
      → delimiter_end? cursor b rest ≡ some next
      → drop cursor c.bytes ≡ b ∷ rest
      → (b < 128) × (IsValid (b ∷ rest) → IsValid (drop next c.bytes))
  unfolding delimiter_end?
  delimiter-IsValid cursor b next [] d e =
      let small : b < 128 = ground (arith, d) in
      let n : cursor + 1 ≡ next = ground (arith, d) in
      (
        small,
        λ v.
            subst (λ k. IsValid (drop k c.bytes)) n
              (subst IsValid (sym (drop_next cursor b [] e)) (IsValid-tail b [] small v)),
      )
  delimiter-IsValid cursor b next (f ∷ rest) d e =
      let small : b < 128 = ground (arith, d) in
      let one = drop_next cursor b (f ∷ rest) e in
      let two = drop_next (cursor + 1) f rest one in
      let n : (next ≡ cursor + 1) ⊎ ((next ≡ cursor + 1 + 1) × (f ≡ 10)) = ground (arith, d) in
      (
        small,
        λ v. elim n [
          | inl p ↦
              subst (λ k. IsValid (drop k c.bytes)) (sym p)
                (subst IsValid (sym one) (IsValid-tail b (f ∷ rest) small v))
          | inr (p, q) ↦
              subst (λ k. IsValid (drop k c.bytes)) (sym p)
                (subst IsValid (sym two)
                  (IsValid-tail f rest (omega (arith, q)) (IsValid-tail b (f ∷ rest) small v)))
        ],
      )

  -- The line before a cursor, where the bytes from the start of the line decode.
  line-IsValid :
      (line_start cursor b : ℕ) (rest : List ℕ)
      → line_start ≤ cursor
      → drop cursor c.bytes ≡ b ∷ rest
      → b < 128
      → IsValid (drop line_start c.bytes)
      → IsValid (slice line_start cursor c.bytes) × IsValid (b ∷ rest)
  line-IsValid line_start cursor b rest h e small v =
      IsValid-cut (slice line_start cursor c.bytes) b rest small (
        subst IsValid
          (sym (slice-drop line_start cursor c.bytes h)
            ∙ ap (◌++◌ (slice line_start cursor c.bytes)) e)
          v)

  round-Decodes :
      (r : Option ℕ) (past : Result CodecError SseParser) (line : ℕ → Result CodecError SseParser)
      (on : ℕ → SseParser → Result CodecError SseParser)
      → Decodes past
      → ((n : ℕ) → r ≡ some n → Decodes (line n) × ((s : SseParser) → Decodes (on n s)))
      → Decodes (elim r [ none ↦ past | some n ↦ line n >>= on n ])
  round-Decodes none past line on h f = h
  round-Decodes (some n) past line on h f =
      let (p, q) = f n refl in >>=-Decodes (line n) (on n) p (λ s _. q s)

  cut?-eq-some :
      (line_start cursor b next : ℕ) (rest : List ℕ)
      → cut? line_start cursor b rest ≡ some next
      → (line_start ≤ cursor) × (delimiter_end? cursor b rest ≡ some next)
  cut?-eq-some line_start cursor b next rest e = ground (arith, e)

  scan-Decodes :
      (line_start cursor : ℕ) (rest : List ℕ) (s : SseParser)
      → drop cursor c.bytes ≡ rest
      → IsValid (drop line_start c.bytes)
      → Decodes (scan o c line_start cursor rest s)
  unfolding scan
  scan-Decodes line_start cursor [] s e v =
      if-Decodes (ltb line_start cursor) _ _
        (λ h. process_line-Decodes line_start cursor cursor s (
          subst IsValid
            (sym (slice-drop line_start cursor c.bytes (ground (arith, h)))
              ∙ ap (◌++◌ (slice line_start cursor c.bytes)) e
              ∙ append_nil (slice line_start cursor c.bytes))
            v))
        (λ _. ok-Decodes s)
  scan-Decodes line_start cursor (b ∷ rest) s e v =
      round-Decodes (cut? line_start cursor b rest) _ _ _
        (scan-Decodes line_start (cursor + 1) rest s (drop_next cursor b rest e) v)
        λ n r.
          let (h, d) = cut?-eq-some line_start cursor b n rest r in
          let (small, next) = delimiter-IsValid cursor b n rest d e in
          let (line, more) = line-IsValid line_start cursor b rest h e small v in
          (
            process_line-Decodes line_start cursor n s line,
            λ t. scan-Decodes n (cursor + 1) rest t (drop_next cursor b rest e) (next more),
          )

-- The byte-order mark is one character.
mark-IsValid : (rest : List ℕ) → IsValid (239 ∷ 187 ∷ 191 ∷ rest) → IsValid rest
unfolding decode_utf8 decode_from decode_byte ℕ_discrete
mark-IsValid rest v =
    let r = decode_from start rest in
    sym (flush-after (65279 ∷ []) r)
    ∙ sym (flush-after [] (after (65279 ∷ []) r))
    ∙ sym (flush-after [] (after [] (after (65279 ∷ []) r)))
    ∙ v

-- Bytes without their mark decode.
first_line-IsValid : (bytes : List ℕ) → IsValid bytes → IsValid (drop (first_line bytes) bytes)
unfolding first_line
first_line-IsValid [] v = v
first_line-IsValid (a ∷ []) v = v
first_line-IsValid (a ∷ b ∷ []) v = v
first_line-IsValid (a ∷ b ∷ d ∷ rest) v = marked (a == 0xef && b == 0xbb && d == 0xbf) refl
  where
    marked :
        (t : Bool)
        → (a == 0xef && b == 0xbb && d == 0xbf) ≡ t
        → IsValid (drop (if t then 3 else 0) (a ∷ b ∷ d ∷ rest))
    marked false e = v
    marked true e =
        let p : a ≡ 239 = ground (arith, e) in
        let q : b ≡ 187 = ground (arith, e) in
        let r : d ≡ 191 = ground (arith, e) in mark-IsValid rest (subst IsValid (cc (p, q, r)) v)

Decodes-never : {A : Type 0} (m : Result CodecError A) → Decodes m → m ≢ err CodecError.invalid_utf8
unfolding Decodes
Decodes-never (ok a) d e = absurd (cc e)
Decodes-never (err x) d e = absurd (cc (d, e))

-- The parser never reports invalid UTF-8 on a stream that was collected.
pub parse_sse_bytes-decodes :
    (o : SseOptions) (l : CollectOptions) (source : Source) (c : CollectedStream)
    → collect_stream l source ≡ ok c
    → parse_sse_bytes o c ≢ err CodecError.invalid_utf8
unfolding parse_sse_bytes
parse_sse_bytes-decodes o l source c e =
    let first = first_line c.bytes in
    Decodes-never _ (
      >>=-Decodes (scan o c first 0 c.bytes (new_parser first)) _
        (scan-Decodes o c first 0 c.bytes (new_parser first) refl
          (first_line-IsValid c.bytes ((collect_stream-IsStream l source c e).1)))
        λ s _.
          refuse-Decodes (s.terminal_seen && is_incomplete s) CodecError.terminal_order _ refl
            (ok-Decodes _))
