-- ===== src/Stream/Sse/Lines.antt =====
-- src/runtime/sse.ts, `processLine` and `dispatch`: a line leaves the events alone or adds one.
use tasc.Base.{
  ℕ, ◌+◌, ◌-◌, ◌≤◌, ◌<◌, ◌≡◌, refl, sym, subst, Bool, true, false, not, ◌&&◌, List, [], ◌∷◌, ◌++◌,
  Option, none, some, ltb, leb, ◌==◌, nat_eq, is_empty, all, includes, if◌then◌else◌, length, ok,
  arith, >>=-eq-ok, ok-injective, if-split, require-eq-ok, refuse-eq-ok, inl, inr, ◌⊎◌,
}
use tasc.Network.{is_digit, number}
use tasc.Stream.{CodecError, CollectedStream}
use tasc.Stream.Bytes.{slice}
use tasc.Stream.SseLines.{
  SseOptions, SseLimits, SseParser, process_line, dispatch, content_line, comment_line, field_line,
  field_name, field_value, set_field, set_retry, reset_frame, push_event, count_line, decoded,
}
use tasc.Text.{Text, codes, text_eq}
use tasc.Work.{max_safe_integer}

abbrev pub AtMost : ℕ → Option ℕ → Type 0
AtMost most none = Unit
AtMost most (some n) = n ≤ most

-- No event is added; a retry time that is set is within the limit.
pub record Quiet (most : ℕ) (s t : SseParser) : Type 0 where
  pub same_events : t.events ≡ s.events
  pub same_terminal : t.terminal_seen ≡ s.terminal_seen
  pub same_lines : t.line_count ≡ s.line_count
  pub kept_retry : AtMost most s.retry → AtMost most t.retry

module _ (most : ℕ) where
  same_Quiet : (s : SseParser) → Quiet most s s
  same_Quiet s = record {
    same_events = refl;
    same_terminal = refl;
    same_lines = refl;
    kept_retry = λ h. h;
  }

  set_retry-Quiet : (value : Text) (s : SseParser) → Quiet most s (set_retry most value s)
  unfolding set_retry
  set_retry-Quiet value s =
      go (not (is_empty value) && all is_digit value && leb (number 0 value) max_safe_integer)
        (leb (number 0 value) most) refl
    where
      go :
          (b d : Bool)
          → leb (number 0 value) most ≡ d
          → Quiet most s (if b && d then record s { retry = some (number 0 value) } else s)
      go false false e = same_Quiet s
      go true false e = same_Quiet s
      go false true e = same_Quiet s
      go true true e = record {
        same_events = refl;
        same_terminal = refl;
        same_lines = refl;
        kept_retry = λ h. ground (arith, e);
      }

  if-Quiet :
      (b : Bool) {s t u : SseParser}
      → Quiet most s t
      → Quiet most s u
      → Quiet most s (if b then t else u)
  if-Quiet true p q = p
  if-Quiet false p q = q

  set_field-Quiet : (name value : Text) (s : SseParser) → Quiet most s (set_field most name value s)
  unfolding set_field
  set_field-Quiet name value s = if-Quiet (name == codes "event") named (
      if-Quiet (name == codes "data") with_data (
        if-Quiet (name == codes "id") (if-Quiet (includes value 0) (same_Quiet s) with_id)
          (if-Quiet (name == codes "retry") (set_retry-Quiet value s) (same_Quiet s))))
    where
      named : Quiet most s (record s { event_name = value })
      named = record {
        same_events = refl;
        same_terminal = refl;
        same_lines = refl;
        kept_retry = λ h. h;
      }

      with_data : Quiet most s (record s { data_parts = s.data_parts ++ value ∷ [] })
      with_data = record {
        same_events = refl;
        same_terminal = refl;
        same_lines = refl;
        kept_retry = λ h. h;
      }

      with_id : Quiet most s (record s { last_event_id = value })
      with_id = record {
        same_events = refl;
        same_terminal = refl;
        same_lines = refl;
        kept_retry = λ h. h;
      }

module _ (l : SseLimits) (s t : SseParser) where
  comment_line-Quiet : (rest : List ℕ) → comment_line l rest s ≡ ok t → Quiet l.max_retry s t
  unfolding comment_line
  comment_line-Quiet rest e =
      let (_, p) = refuse-eq-ok _ _ _ e in
      let (x, _, q) = >>=-eq-ok (decoded rest) _ p in
      subst (Quiet l.max_retry s) (ok-injective q)
        record { same_events = refl; same_terminal = refl; same_lines = refl; kept_retry = λ h. h }

  field_line-Quiet : (line : List ℕ) → field_line l line s ≡ ok t → Quiet l.max_retry s t
  unfolding field_line
  field_line-Quiet line e =
      let (_, p) = refuse-eq-ok _ _ _ e in
      let (name, _, q) = >>=-eq-ok (decoded (field_name line)) _ p in
      let (value, _, r) = >>=-eq-ok (decoded (field_value line)) _ q in
      subst (Quiet l.max_retry s) (ok-injective r) (set_field-Quiet l.max_retry name value s)

  -- A line with content adds no event.
  content_line-Quiet : (line : List ℕ) → content_line l line s ≡ ok t → Quiet l.max_retry s t
  unfolding content_line
  content_line-Quiet [] e = subst (Quiet l.max_retry s) (ok-injective e) (same_Quiet l.max_retry s)
  content_line-Quiet (b ∷ rest) e =
      if-split (b == b':') (λ _ p. comment_line-Quiet rest p) (λ _ p. field_line-Quiet (b ∷ rest) p)
        e

-- The next event, with the guards that were passed.
pub record Pushed (o : SseOptions) (c : CollectedStream) (offset : ℕ) (s t : SseParser)
    : Type 0 where
  pub pushed : t ≡ push_event o c offset s
  pub not_over : s.terminal_seen ≡ false
  pub room_left : length s.events < o.sse_limits.max_events
  pub frame_fits : length (slice s.frame_start offset c.bytes) ≤ o.sse_limits.max_event_bytes

module _ (o : SseOptions) (c : CollectedStream) where
  dispatch-cases :
      (offset : ℕ) (s t : SseParser)
      → dispatch o c offset s ≡ ok t
      → Quiet o.sse_limits.max_retry s t ⊎ Pushed o c offset s t
  unfolding dispatch reset_frame
  dispatch-cases offset s t e =
      if-split (is_empty s.data_parts)
        (λ _ p. inl (
          subst (Quiet o.sse_limits.max_retry s) (ok-injective p) record {
            same_events = refl;
            same_terminal = refl;
            same_lines = refl;
            kept_retry = λ h. tt;
          }))
        (λ _ p.
          let (a, q) = require-eq-ok _ _ _ p in
          let (b, r) = refuse-eq-ok _ _ _ q in
          let (d, u) = refuse-eq-ok _ _ _ r in
          inr record {
            pushed = sym (ok-injective u);
            not_over = d;
            room_left = ground (arith, a);
            frame_fits = ground (arith, b);
          })
        e

  -- What a processed line does, and that it is within the limit on lines.
  pub process_line-cases :
      (from to next : ℕ) (s t : SseParser)
      → process_line o c from to next s ≡ ok t
      → (s.line_count < o.sse_limits.max_lines)
        × (Quiet o.sse_limits.max_retry (count_line s) t ⊎ Pushed o c next (count_line s) t)
  unfolding process_line
  process_line-cases from to next s t e =
      let (a, p) =
        refuse-eq-ok (ltb o.sse_limits.max_lines (s.line_count + 1)) CodecError.line_limit _ e in
      let (_, q) =
        refuse-eq-ok (ltb o.sse_limits.max_line_bytes (to - from)) CodecError.line_byte_limit _ p in
      let (_, r) =
        refuse-eq-ok (ltb o.sse_limits.max_event_bytes (next - s.frame_start))
          CodecError.event_byte_limit _ q in
      (
        ground (arith, a),
        if-split (to - from == 0) (λ _ u. dispatch-cases next (count_line s) t u)
            (λ _ u.
              let line = slice from to c.bytes in
              let s' : SseParser = record s {
                line_count = s.line_count + 1;
                frame_has_fields = true;
              } in
              let k = content_line-Quiet o.sse_limits s' t line u in
              inl record {
                same_events = k.same_events;
                same_terminal = k.same_terminal;
                same_lines = k.same_lines;
                kept_retry = k.kept_retry;
              })
            r,
      )
