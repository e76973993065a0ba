-- ===== src/Stream/Sse/Times.antt =====
-- src/runtime/sse.ts: the times of the events of an event stream.
use tasc.Base.{
  ℕ, ◌+◌, ◌≤◌, ◌≡◌, sym, subst, List, [], ◌∷◌, ◌++◌, arith, length, ok, >>=-eq-ok, ok-injective,
  refuse-eq-ok, inl, inr, ◌&&◌,
}
use tasc.Stream.{CodecError, CollectedStream, Source}
use tasc.Stream.Collect.{CollectOptions, collect_stream}
use tasc.Stream.Collect.Marks.{IsStream, collect_stream-IsStream}
use tasc.Stream.Observed.{observed_at_offset}
use tasc.Stream.Observed.Times.{observed_at-bounds, observed_at-le}
use tasc.Stream.Sse.{
  SseResult, ParsedSse, new_parser, first_line, scan, is_incomplete, parse_sse_bytes, timing,
  parse_bounded_sse,
}
use tasc.Stream.SseLines.{
  SseOptions, SseEvent, SseParser, process_line, event_of, push_event, reset_frame, count_line,
}
use tasc.Stream.Sse.Lines.{process_line-cases}
use tasc.Stream.Sse.Steps.{scan-keeps}

-- Events observed one after the other between two times.
pub Timed : ℕ → List SseEvent → ℕ → Type 0
Timed from [] to = from ≤ to
Timed from (e ∷ es) to = (from ≤ e.observed_at) × Timed e.observed_at es to

Timed-later :
    (from to later : ℕ) (es : List SseEvent) → Timed from es to → to ≤ later → Timed from es later
unfolding Timed
Timed-later from to later [] h k = omega arith
Timed-later from to later (e ∷ es) h k = (h.0, Timed-later e.observed_at to later es h.1 k)

Timed-snoc :
    (from to : ℕ) (es : List SseEvent) (e : SseEvent)
    → Timed from es to
    → to ≤ e.observed_at
    → Timed from (es ++ e ∷ []) e.observed_at
unfolding Timed
Timed-snoc from to [] e h k = (omega arith, omega arith)
Timed-snoc from to (f ∷ es) e h k = (h.0, Timed-snoc f.observed_at to es e h.1 k)

module _ (o : SseOptions) (c : CollectedStream) (l : CollectOptions) (stream : IsStream l c) where
  abbrev at : ℕ → ℕ
  at offset = observed_at_offset c.marks offset c.completed_at

  at-le : (i j : ℕ) → i ≤ j → at i ≤ at j
  at-le = observed_at-le 0 c.started_at c.marks (length c.bytes) c.completed_at stream.covered

  at-bounds : (i : ℕ) → (c.started_at ≤ at i) × (at i ≤ c.completed_at)
  at-bounds =
      observed_at-bounds 0 c.started_at c.marks (length c.bytes) c.completed_at stream.covered

  abbrev Until : ℕ → SseParser → Type 0
  Until n s = Timed c.started_at s.events (at n)

  pushed-Until :
      (n next : ℕ) (s : SseParser)
      → n ≤ next
      → Until n s
      → Until next (push_event o c next (count_line s))
  unfolding push_event event_of reset_frame
  pushed-Until n next s h k =
      Timed-snoc c.started_at (at n) s.events (event_of o c next (count_line s)) k (at-le n next h)

  process_line-Until :
      (from to next : ℕ) (s t : SseParser)
      → from ≤ next
      → Until from s
      → process_line o c from to next s ≡ ok t
      → Until next t
  process_line-Until from to next s t h k e = elim ((process_line-cases o c from to next s t e).1) [
    | inl q ↦
        subst (λ es. Timed c.started_at es (at next)) (sym q.same_events)
          (Timed-later c.started_at (at from) (at next) s.events k (at-le from next h))
    | inr p ↦ subst (Until next) (sym p.pushed) (pushed-Until from next s h k)
  ]

  parse_sse_bytes-Timed :
      (p : ParsedSse)
      → parse_sse_bytes o c ≡ ok p
      → Timed c.started_at p.parsed_events c.completed_at
  unfolding parse_sse_bytes new_parser Timed
  parse_sse_bytes-Timed p e =
      let first = first_line c.bytes in
      let (s, scanned, q) = >>=-eq-ok (scan o c first 0 c.bytes (new_parser first)) _ e in
      let (_, r) =
        refuse-eq-ok (s.terminal_seen && is_incomplete s) CodecError.terminal_order _ q in
      let (n, k) =
        scan-keeps o c Until
          (λ from to next s t h i _ _ u. process_line-Until from to next s t (omega arith) u) first
          0 c.bytes (new_parser first) s (omega arith) ((at-bounds first).0) scanned in
      subst (λ (x : ParsedSse). Timed c.started_at x.parsed_events c.completed_at) (ok-injective r)
        (Timed-later c.started_at (at n) c.completed_at s.events k ((at-bounds n).1))

-- The events of an accepted event stream are observed in order between the start of the collection
-- and its end, and the duration is the time between the two.
pub parse_bounded_sse-Timed :
    (o : SseOptions) (source : Source) (r : SseResult)
    → parse_bounded_sse o source ≡ ok r
    → Timed o.collecting.started r.result_events r.result_timing.timing_completed_at
      × (o.collecting.started + r.result_timing.duration ≡ r.result_timing.timing_completed_at)
unfolding parse_bounded_sse timing
parse_bounded_sse-Timed o source r e =
    let (c, collected, q) = >>=-eq-ok (collect_stream o.collecting source) _ e in
    let (p, parsed, v) = >>=-eq-ok (parse_sse_bytes o c) _ q in
    let (stream, _) = collect_stream-IsStream o.collecting source c collected in
    let bounds = at-bounds o c o.collecting stream 0 in
    subst
      (λ (x : SseResult).
        Timed o.collecting.started x.result_events x.result_timing.timing_completed_at
        × (o.collecting.started + x.result_timing.duration ≡ x.result_timing.timing_completed_at))
      (ok-injective v)
      (
        subst (λ n. Timed n p.parsed_events c.completed_at) stream.started_with
            (parse_sse_bytes-Timed o c o.collecting stream p parsed),
        omega (arith, bounds, stream.started_with),
      )
