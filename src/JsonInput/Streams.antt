-- ===== src/JsonInput/Streams.antt =====
-- src/runtime/sse.ts and src/runtime/ndjson.ts over src/bounded-input.ts: the streams whose JSON is read by
-- `parseBoundedJson`.
use tasc.Base.{
  ℕ, ◌≡◌, sym, subst, true, false, List, [], ◌∷◌, ◌++◌, Option, none, some, All, nat_eq, Result, ok,
  err, >>=-eq-ok, ok-injective, refuse-eq-ok, if-split, ◌&&◌,
}
use tasc.JsonInput.{InputError}
use tasc.JsonInput.Accepted.{Accepted, parse_json_bytes-Accepted}
use tasc.JsonInput.Parse.{ParseOptions, parse_json_bytes}
use tasc.Stream.{CodecError, Source}
use tasc.Stream.Collect.{collect_stream}
use tasc.Stream.Json.{Json, null, encode_utf8}
use tasc.Stream.JsonSse.{
  JsonSseOptions, JsonSseEvent, JsonSseScan, JsonSseResult, json_event, event_json, push_json_event,
  scan_json, new_scan, json_result, parse_bounded_json_sse,
}
use tasc.Stream.Sse.{parse_sse_bytes, is_event}
use tasc.Stream.SseLines.{SseEvent}

-- `parseBoundedJson` between `try` and `catch`.
unfoldable pub bounded_parser : ParseOptions → List ℕ → Option Json
unfolding parse_json_bytes
bounded_parser o bytes = elim (parse_json_bytes o bytes) [ ok j ↦ some j | err e ↦ none ]

-- The options of a stream whose JSON is read by `parseBoundedJson`.
abbrev pub with_parser : JsonSseOptions → ParseOptions → JsonSseOptions
with_parser o p = record o { parse_json = bounded_parser p }

-- The JSON of an event is what its data parses to; the sentinel has none.
abbrev pub ReadFrom : ParseOptions → JsonSseEvent → Type 0
ReadFrom p e =
    (is_event e.base ≡ true → Accepted p (encode_utf8 e.base.data_text) e.json)
    × (is_event e.base ≡ false → e.json ≡ null)

All-snoc :
    {A : Type 0} (P : A → Type 0) (xs : List A) (x : A) → All P xs → P x → All P (xs ++ x ∷ [])
All-snoc P [] x h p = (p, tt)
All-snoc P (y ∷ xs) x h p = (h.0, All-snoc P xs x h.1 p)

read-eq-some :
    (r : Result InputError Json) (j : Json)
    → (elim r [ ok i ↦ some i | err x ↦ none ]) ≡ some j
    → r ≡ ok j
read-eq-some (ok i) j e = cc
read-eq-some (err x) j e = absurd (cc e)

json-eq-ok :
    (r : Option Json) (j : Json)
    → ◌≡◌ {A = Result CodecError Json}
        (elim r [ none ↦ err CodecError.invalid_json | some i ↦ ok i ])
        (ok j)
    → r ≡ some j
json-eq-ok none j e = absurd (cc e)
json-eq-ok (some i) j e = cc

module _ (o : JsonSseOptions) (p : ParseOptions) where
  bounded_parser-Accepted :
      (bytes : List ℕ) (j : Json) → bounded_parser p bytes ≡ some j → Accepted p bytes j
  unfolding bounded_parser
  bounded_parser-Accepted bytes j e =
      parse_json_bytes-Accepted p bytes j (read-eq-some (parse_json_bytes p bytes) j e)

  event_json-ReadFrom :
      (e : SseEvent) (j : Json)
      → event_json (with_parser o p) e ≡ ok j
      → ReadFrom p (json_event o.protocol e j)
  unfolding event_json json_event
  event_json-ReadFrom e j h =
      if-split (is_event e)
        (λ yes q. (
          λ _. bounded_parser-Accepted (encode_utf8 e.data_text) j (json-eq-ok _ j q),
          λ no. absurd (cc (yes, no)),
        ))
        (λ no q. (λ yes. absurd (cc (yes, no)), λ _. sym (ok-injective q))) h

  scan_json-ReadFrom :
      (es : List SseEvent) (s t : JsonSseScan)
      → All (ReadFrom p) s.json_events
      → scan_json (with_parser o p) es s ≡ ok t
      → All (ReadFrom p) t.json_events
  unfolding scan_json push_json_event
  scan_json-ReadFrom [] s t r e = subst (λ x. All (ReadFrom p) x.json_events) (ok-injective e) r
  scan_json-ReadFrom (f ∷ es) s t r e =
      let (_, k) = refuse-eq-ok s.semantic_terminal_seen CodecError.terminal_order _ e in
      let (j, h, q) = >>=-eq-ok (event_json (with_parser o p) f) _ k in
      let g = json_event o.protocol f j in
      scan_json-ReadFrom es (push_json_event o.protocol g s) t
        (All-snoc (ReadFrom p) s.json_events g r (event_json-ReadFrom f j h)) q

  -- In an accepted JSON event stream that is read by the bounded parser, the data of every event is one
  -- JSON value within the parser's limits, whose objects have distinct keys, and the event's JSON is
  -- that value; the sentinel's JSON is null.
  pub parse_bounded_json_sse-ReadFrom :
      (source : Source) (r : JsonSseResult)
      → parse_bounded_json_sse (with_parser o p) source ≡ ok r
      → All (ReadFrom p) r.result_events
  unfolding parse_bounded_json_sse json_result
  parse_bounded_json_sse-ReadFrom source r e =
      let (c, _, h) = >>=-eq-ok (collect_stream o.sse.collecting source) _ e in
      let (v, _, k) = >>=-eq-ok (parse_sse_bytes o.sse c) _ h in
      let (s, scanned, q) = >>=-eq-ok (scan_json (with_parser o p) v.parsed_events new_scan) _ k in
      let (_, same) =
        refuse-eq-ok (s.semantic_terminal_seen && v.trailing_incomplete) CodecError.terminal_order _
          q in
      subst (λ x. All (ReadFrom p) x.result_events) (ok-injective same)
        (scan_json-ReadFrom v.parsed_events new_scan s tt scanned)
