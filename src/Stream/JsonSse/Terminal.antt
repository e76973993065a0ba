-- ===== src/Stream/JsonSse/Terminal.antt =====
-- src/runtime/sse.ts, `parseBoundedJsonSse`: what the summary says of the events.
use tasc.Base.{
  ℕ, ◌≡◌, refl, ap, sym, subst, ◌∙◌, ◌↔◌, Bool, true, false, not, ◌&&◌, ◌||◌, List, [], ◌∷◌, ◌++◌,
  Option, none, some, any, find?, map, if◌then◌else◌, ok, arith, >>=-eq-ok, ok-injective,
  refuse-eq-ok,
}
use tasc.Stream.{CodecError, CollectedStream}
use tasc.Stream.Bytes.{append_assoc, append_nil}
use tasc.Stream.Json.{Json}
use tasc.Stream.JsonSse.{
  JsonSseOptions, JsonSseProtocol, generic_json_sse, openai_chat_completions, openai_responses,
  JsonSseEvent, JsonSseScan, JsonSseResult, json_event, is_terminal, push_json_event, event_json,
  scan_json, new_scan, json_result, completes, JsonSseTerminal, terminal_by, is_responses, first_of,
}
use tasc.Stream.Snoc.{any_snoc, find?_snoc, AtEnd, AtEnd-snoc}
use tasc.Stream.Sse.{ParsedSse, timing}
use tasc.Stream.SseLines.{SseEvent}

abbrev pub is_failed : JsonSseEvent → Bool
is_failed e = e.provider_error

abbrev pub is_meaningful : JsonSseEvent → Bool
is_meaningful e = e.meaningful_output

abbrev pub meaningful_time : Option JsonSseEvent → Option ℕ
meaningful_time none = none
meaningful_time (some e) = some e.base.observed_at

first_of_lem :
    (r : Option JsonSseEvent) (k : JsonSseEvent)
    → first_of (meaningful_time r) k.meaningful_output k.base.observed_at
      ≡ meaningful_time
          (elim r [ some y ↦ some y | none ↦ if is_meaningful k then some k else none ])
first_of_lem none k = ground arith
first_of_lem (some y) k = refl

module _ (o : JsonSseOptions) where
  -- What the scan keeps, for the events that it has read.
  record Read (es : List SseEvent) (s : JsonSseScan) : Type 0 where
    bases : map (λ (e : JsonSseEvent). e.base) s.json_events ≡ es
    at_end : AtEnd (is_terminal o.protocol) s.json_events s.semantic_terminal_seen
    failed : s.provider_error_seen ≡ any is_failed s.json_events
    completed : s.response_completed_seen ≡ any (λ e. completes e.event_kind) s.json_events
    meaningful : s.first_meaningful ≡ meaningful_time (find? is_meaningful s.json_events)

  map_snoc :
      (js : List JsonSseEvent) (j : JsonSseEvent)
      → map (λ (e : JsonSseEvent). e.base) (js ++ j ∷ [])
        ≡ map (λ (e : JsonSseEvent). e.base) js ++ j.base ∷ []
  map_snoc [] j = refl
  map_snoc (i ∷ js) j = ap (◌∷◌ i.base) (map_snoc js j)

  push-Read :
      (es : List SseEvent) (s : JsonSseScan) (e : SseEvent) (j : Json)
      → Read es s
      → s.semantic_terminal_seen ≡ false
      → Read (es ++ e ∷ []) (push_json_event o.protocol (json_event o.protocol e j) s)
  unfolding push_json_event json_event
  push-Read es s e j r over =
      let k = json_event o.protocol e j in
      record {
        bases = map_snoc s.json_events k ∙ ap (λ xs. xs ++ e ∷ []) r.bases;
        at_end =
            AtEnd-snoc (is_terminal o.protocol) s.json_events k
              (subst (AtEnd (is_terminal o.protocol) s.json_events) over r.at_end);
        failed =
            ap (λ b. b || k.provider_error) r.failed ∙ sym (any_snoc is_failed s.json_events k);
        completed =
            ap (λ b. b || completes k.event_kind) r.completed
            ∙ sym (any_snoc (λ x. completes x.event_kind) s.json_events k);
        meaningful =
            ap (λ t. first_of t k.meaningful_output k.base.observed_at) r.meaningful
            ∙ first_of_lem (find? is_meaningful s.json_events) k
            ∙ ap meaningful_time (sym (find?_snoc is_meaningful s.json_events k));
      }

  scan-Read :
      (es more : List SseEvent) (s t : JsonSseScan)
      → Read es s
      → scan_json o more s ≡ ok t
      → Read (es ++ more) t
  unfolding scan_json
  scan-Read es [] s t r e =
      subst (λ xs. Read xs t) (sym (append_nil es)) (subst (Read es) (ok-injective e) r)
  scan-Read es (f ∷ more) s t r e =
      let (over, p) = refuse-eq-ok s.semantic_terminal_seen CodecError.terminal_order _ e in
      let (j, _, q) =
        >>=-eq-ok (event_json o f)
          (λ j. scan_json o more (push_json_event o.protocol (json_event o.protocol f j) s)) p in
      subst (λ xs. Read xs t) (append_assoc es (f ∷ []) more)
        (scan-Read (es ++ f ∷ []) more (push_json_event o.protocol (json_event o.protocol f j) s) t
          (push-Read es s f j r over) q)

  new-Read : Read [] new_scan
  unfolding AtEnd
  new-Read = record {
    bases = refl;
    at_end = refl;
    failed = refl;
    completed = refl;
    meaningful = refl;
  }

  -- What the result says of its events.
  pub record IsSummary (p : ParsedSse) (r : JsonSseResult) : Type 0 where
    pub same_events : map (λ (e : JsonSseEvent). e.base) r.result_events ≡ p.parsed_events
    pub over : Bool
    pub at_end : AtEnd (is_terminal o.protocol) r.result_events over
    pub nothing_after : (over && p.trailing_incomplete) ≡ false
    pub error_iff :
        (r.terminal ≡ JsonSseTerminal.provider_error) ↔ (any is_failed r.result_events ≡ true)
    pub completed_iff : (r.terminal ≡ JsonSseTerminal.response_completed) ↔ (
        (is_responses o.protocol
          && (not (any is_failed r.result_events)
              && any (λ e. completes e.event_kind) r.result_events))
        ≡ true)
    pub meaningful :
        r.result_timing.first_meaningful_at ≡ meaningful_time (find? is_meaningful r.result_events)

  terminal_by-error :
      (p : JsonSseProtocol) (s : JsonSseScan)
      → (terminal_by p s ≡ JsonSseTerminal.provider_error) ↔ (s.provider_error_seen ≡ true)
  unfolding terminal_by
  terminal_by-error generic_json_sse s = (λ e. ground (arith, e), λ e. ground (arith, e))
  terminal_by-error openai_chat_completions s = (λ e. ground (arith, e), λ e. ground (arith, e))
  terminal_by-error openai_responses s = (λ e. ground (arith, e), λ e. ground (arith, e))

  terminal_by-completed :
      (p : JsonSseProtocol) (s : JsonSseScan)
      → (terminal_by p s ≡ JsonSseTerminal.response_completed)
        ↔ ((is_responses p && (not s.provider_error_seen && s.response_completed_seen)) ≡ true)
  unfolding terminal_by
  terminal_by-completed generic_json_sse s = (λ e. ground (arith, e), λ e. ground (arith, e))
  terminal_by-completed openai_chat_completions s = (λ e. ground (arith, e), λ e. ground (arith, e))
  terminal_by-completed openai_responses s = (λ e. ground (arith, e), λ e. ground (arith, e))

  -- The events of an accepted JSON event stream are those that were parsed; none but the last is
  -- terminal, and nothing incomplete follows a terminal one. The summary says provider error exactly
  -- when an event is one, a completed response exactly when the protocol has them, an event completes
  -- one and none is an error, and the first meaningful time is that of the first meaningful event.
  pub json_result-IsSummary :
      (c : CollectedStream) (p : ParsedSse) (r : JsonSseResult)
      → json_result o c p ≡ ok r
      → IsSummary p r
  unfolding json_result timing
  json_result-IsSummary c p r e =
      let (s, scanned, q) = >>=-eq-ok (scan_json o p.parsed_events new_scan) _ e in
      let (nothing, v) =
        refuse-eq-ok (s.semantic_terminal_seen && p.trailing_incomplete) CodecError.terminal_order _
          q in
      let k = scan-Read [] p.parsed_events new_scan s new-Read scanned in
      subst (IsSummary p) (ok-injective v) record {
        same_events = k.bases;
        over = s.semantic_terminal_seen;
        at_end = k.at_end;
        nothing_after = nothing;
        error_iff =
            subst (λ b. (terminal_by o.protocol s ≡ JsonSseTerminal.provider_error) ↔ (b ≡ true))
              k.failed (terminal_by-error o.protocol s);
        completed_iff =
            subst
              (λ b. (terminal_by o.protocol s ≡ JsonSseTerminal.response_completed) ↔ (
                (is_responses o.protocol
                  && (not b && any (λ e. completes e.event_kind) s.json_events))
                ≡ true))
              k.failed
              (subst
                (λ b.
                  (terminal_by o.protocol s ≡ JsonSseTerminal.response_completed)
                  ↔ ((is_responses o.protocol && (not s.provider_error_seen && b)) ≡ true))
                k.completed (terminal_by-completed o.protocol s));
        meaningful = k.meaningful;
      }
