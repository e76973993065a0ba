-- ===== src/Stream/Sse/Bounds.antt =====
-- src/runtime/sse.ts, `parseSseBytes`: the limits that the events keep, and the end of the stream.
use tasc.Base.{
  ℕ, ◌+◌, ◌≤◌, ◌<◌, ◌≡◌, refl, sym, subst, Bool, true, false, not, ◌&&◌, List, [], ◌∷◌, ◌++◌,
  if◌then◌else◌, length, length-append, ok, arith, >>=-eq-ok, ok-injective, refuse-eq-ok, inl, inr,
}
use tasc.Stream.{CodecError, CollectedStream}
use tasc.Stream.Sse.{
  is_event, ParsedSse, parse_sse_bytes, new_parser, first_line, scan, is_incomplete,
}
use tasc.Stream.SseLines.{
  SseOptions, SseEvent, SseKind, event, done, SseParser, process_line, event_of, push_event,
  reset_frame, is_done, join_lines, count_line,
}
use tasc.Stream.Sse.Lines.{AtMost, process_line-cases}
use tasc.Stream.Sse.Steps.{scan-keeps}

-- Only the last event may be the sentinel, and whether it is one is `over`.
pub OnlyLast : List SseEvent → Bool → Type 0
OnlyLast [] over = over ≡ false
OnlyLast (e ∷ []) over = over ≡ not (is_event e)
OnlyLast (e ∷ f ∷ es) over = (is_event e ≡ true) × OnlyLast (f ∷ es) over

OnlyLast-snoc :
    (es : List SseEvent) (e : SseEvent)
    → OnlyLast es false
    → OnlyLast (es ++ e ∷ []) (not (is_event e))
unfolding OnlyLast
OnlyLast-snoc [] e h = refl
OnlyLast-snoc (f ∷ []) e h = (ground (arith, h), refl)
OnlyLast-snoc (f ∷ g ∷ es) e h = (h.0, OnlyLast-snoc (g ∷ es) e h.1)

-- Events that are numbered from a number on, each with a retry time within the limit.
pub Numbered : ℕ → ℕ → List SseEvent → Type 0
Numbered most n [] = Unit
Numbered most n (e ∷ es) = (e.index ≡ n) × AtMost most e.retry_after × Numbered most (n + 1) es

Numbered-snoc :
    (most n : ℕ) (es : List SseEvent) (e : SseEvent)
    → Numbered most n es
    → e.index ≡ n + length es
    → AtMost most e.retry_after
    → Numbered most n (es ++ e ∷ [])
unfolding Numbered
Numbered-snoc most n [] e h i r = (omega (arith, i), r, tt)
Numbered-snoc most n (f ∷ es) e h i r =
    (h.0, h.1, Numbered-snoc most (n + 1) es e h.2 (omega (arith, i)) r)

abbrev kind_of : Bool → SseKind
kind_of b = if b then SseKind.done else SseKind.event

kind_lem : (b : Bool) → not (elim (kind_of b) [ event ↦ true | done ↦ false ]) ≡ b
kind_lem true = refl
kind_lem false = refl

module _ (o : SseOptions) (c : CollectedStream) where
  record Kept (s : SseParser) : Type 0 where
    few_events : length s.events ≤ o.sse_limits.max_events
    few_lines : s.line_count ≤ o.sse_limits.max_lines
    numbered : Numbered o.sse_limits.max_retry 0 s.events
    only_last : OnlyLast s.events s.terminal_seen
    retry_within : AtMost o.sse_limits.max_retry s.retry

  pushed-Kept :
      (offset : ℕ) (s : SseParser)
      → s.terminal_seen ≡ false
      → length s.events < o.sse_limits.max_events
      → s.line_count < o.sse_limits.max_lines
      → Kept s
      → Kept (push_event o c offset (count_line s))
  unfolding push_event reset_frame event_of
  pushed-Kept offset s over room lines k =
      let e = event_of o c offset (count_line s) in
      record {
        few_events = omega (arith, length-append s.events (e ∷ []));
        few_lines = omega arith;
        numbered =
            Numbered-snoc o.sse_limits.max_retry 0 s.events e k.numbered (omega arith)
              k.retry_within;
        only_last =
            subst (OnlyLast (s.events ++ e ∷ [])) (kind_lem (is_done (join_lines s.data_parts)))
              (OnlyLast-snoc s.events e (subst (OnlyLast s.events) over k.only_last));
        retry_within = tt;
      }

  process_line-Kept :
      (from to next : ℕ) (s t : SseParser)
      → Kept s
      → process_line o c from to next s ≡ ok t
      → Kept t
  process_line-Kept from to next s t k e =
      let (lines, change) = process_line-cases o c from to next s t e in
      elim change [
        | inl q ↦ record {
          few_events =
              subst (λ es. length es ≤ o.sse_limits.max_events) (sym q.same_events) k.few_events;
          few_lines = omega (arith, q.same_lines);
          numbered = subst (Numbered o.sse_limits.max_retry 0) (sym q.same_events) k.numbered;
          only_last =
              subst (OnlyLast t.events) (sym q.same_terminal)
                (subst (λ es. OnlyLast es s.terminal_seen) (sym q.same_events) k.only_last);
          retry_within = q.kept_retry k.retry_within;
        }
        | inr p ↦ subst Kept (sym p.pushed) (pushed-Kept next s p.not_over p.room_left lines k)
      ]

  -- The parsed events: no more than allowed, numbered in order, retry times within the limit, and only
  -- the last may be the sentinel, with nothing incomplete after it.
  pub record IsBounded (p : ParsedSse) : Type 0 where
    pub few_events : length p.parsed_events ≤ o.sse_limits.max_events
    pub few_lines : p.total_lines ≤ o.sse_limits.max_lines
    pub numbered : Numbered o.sse_limits.max_retry 0 p.parsed_events
    pub over : Bool
    pub only_last : OnlyLast p.parsed_events over
    pub nothing_after : (over && p.trailing_incomplete) ≡ false

  new-Kept : (first : ℕ) → Kept (new_parser first)
  unfolding new_parser Numbered OnlyLast
  new-Kept first = record {
    few_events = omega arith;
    few_lines = omega arith;
    numbered = tt;
    only_last = refl;
    retry_within = tt;
  }

  -- The events of a parsed stream are numbered from 0 on, no more than allowed, from no more lines than
  -- allowed, with retry times within the limit; only the last event may be the sentinel, and then
  -- nothing incomplete follows it.
  pub parse_sse_bytes-IsBounded : (p : ParsedSse) → parse_sse_bytes o c ≡ ok p → IsBounded p
  unfolding parse_sse_bytes
  parse_sse_bytes-IsBounded p e =
      let first = first_line c.bytes in
      let (s, scanned, q) = >>=-eq-ok (scan o c first 0 c.bytes (new_parser first)) _ e in
      let (nothing, r) =
        refuse-eq-ok (s.terminal_seen && is_incomplete s) CodecError.terminal_order _ q in
      let (_, k) =
        scan-keeps o c (λ _. Kept) (λ from to next s t _ _ _ _. process_line-Kept from to next s t)
          first 0 c.bytes (new_parser first) s (omega arith) (new-Kept first) scanned in
      subst IsBounded (ok-injective r) (record {
        few_events = k.few_events;
        few_lines = k.few_lines;
        numbered = k.numbered;
        over = s.terminal_seen;
        only_last = k.only_last;
        nothing_after = nothing;
      })
