-- ===== src/Stream/Ndjson/Terminal.antt =====
-- src/runtime/ndjson.ts, `parseBoundedNdjsonStream`: what the summary says of the items.
use tasc.Base.{
  ℕ, ◌+◌, ◌≤◌, ◌<◌, ◌≡◌, refl, ap, sym, subst, ◌∙◌, ◌↔◌, Bool, true, false, not, ◌&&◌, ◌||◌, List,
  [], ◌∷◌, ◌++◌, Option, none, some, any, find?, last?, ltb, if◌then◌else◌, if-split, length,
  length-append, Result, ok, arith, >>=-eq-ok, ok-injective, refuse-eq-ok, require-eq-ok, ◌==◌,
  nat_eq, ◌>>=◌,
}
use tasc.Stream.{CodecError, CollectedStream}
use tasc.Stream.Bytes.{slice}
use tasc.Stream.Ndjson.{
  NdjsonOptions, NdjsonProtocol, generic_ndjson, ollama, NdjsonItem, NdjsonParser, NdjsonTerminal,
  NdjsonResult, item_of, push_item, parse_line, content_end, is_blank, parsed, scan_lines,
  new_parser, parse_lines, terminal_by, is_ollama, is_done, first_of,
}
use tasc.Stream.Snoc.{any_snoc, find?_snoc, AtEnd, AtEnd-snoc}
use tasc.Stream.Sse.{timing}

abbrev pub is_failed : NdjsonItem → Bool
is_failed i = i.provider_error

abbrev pub is_meaningful : NdjsonItem → Bool
is_meaningful i = i.meaningful_output

abbrev pub is_final : NdjsonItem → Bool
is_final i = i.provider_error || i.done

abbrev pub meaningful_time : Option NdjsonItem → Option ℕ
meaningful_time none = none
meaningful_time (some i) = some i.observed_at

first_of_lem :
    (r : Option NdjsonItem) (k : NdjsonItem)
    → first_of (meaningful_time r) k.meaningful_output k.observed_at
      ≡ meaningful_time
          (elim r [ some y ↦ some y | none ↦ if is_meaningful k then some k else none ])
first_of_lem none k = ground arith
first_of_lem (some y) k = refl

-- Items that are numbered from a number on.
unfoldable pub Numbered : ℕ → List NdjsonItem → Type 0
Numbered n [] = Unit
Numbered n (i ∷ is) = (i.index ≡ n) × Numbered (n + 1) is

Numbered-snoc :
    (n : ℕ) (is : List NdjsonItem) (i : NdjsonItem)
    → Numbered n is
    → i.index ≡ n + length is
    → Numbered n (is ++ i ∷ [])
unfolding Numbered
Numbered-snoc n [] i h e = (omega (arith, e), tt)
Numbered-snoc n (f ∷ is) i h e = (h.0, Numbered-snoc (n + 1) is i h.1 (omega (arith, e)))

-- A round that runs to its end: it passes over a byte, or it parses a line.
split_round :
    {G : Type 0} (b : Bool) (past line : Result CodecError NdjsonParser)
    (on : NdjsonParser → Result CodecError NdjsonParser) (t : NdjsonParser)
    → (past ≡ ok t → G)
    → ((s : NdjsonParser) → line ≡ ok s → on s ≡ ok t → G)
    → (elim b [ false ↦ past | true ↦ line >>= on ]) ≡ ok t
    → G
split_round false past line on t f g e = f e
split_round true past line on t f g e = let (s, p, q) = >>=-eq-ok line on e in g s p q

terminal_by-error :
    (p : NdjsonProtocol) (s : NdjsonParser)
    → (terminal_by p s ≡ NdjsonTerminal.provider_error) ↔ (s.provider_error_seen ≡ true)
unfolding terminal_by
terminal_by-error generic_ndjson s = (λ e. ground (arith, e), λ e. ground (arith, e))
terminal_by-error ollama s = (λ e. ground (arith, e), λ e. ground (arith, e))

terminal_by-done :
    (p : NdjsonProtocol) (s : NdjsonParser)
    → (terminal_by p s ≡ NdjsonTerminal.done)
      ↔ ((is_ollama p && (not s.provider_error_seen && is_done (last? s.items))) ≡ true)
unfolding terminal_by
terminal_by-done generic_ndjson s = (λ e. ground (arith, e), λ e. ground (arith, e))
terminal_by-done ollama s = (λ e. ground (arith, e), λ e. ground (arith, e))

module _ (o : NdjsonOptions) where
  record Kept (s : NdjsonParser) : Type 0 where
    few_items : length s.items ≤ o.max_items
    one_each : length s.items ≡ s.line_count
    numbered : Numbered 0 s.items
    at_end : AtEnd is_final s.items s.terminal_seen
    failed : s.provider_error_seen ≡ any is_failed s.items
    meaningful : s.first_meaningful ≡ meaningful_time (find? is_meaningful s.items)

  push-Kept :
      (s : NdjsonParser) (i : NdjsonItem)
      → Kept s
      → i.index ≡ length s.items
      → length s.items < o.max_items
      → s.terminal_seen ≡ false
      → Kept (push_item i (record s { line_count = s.line_count + 1 }))
  unfolding push_item
  push-Kept s i k e room over = record {
    few_items = omega (arith, length-append s.items (i ∷ []));
    one_each = omega (arith, length-append s.items (i ∷ []), k.one_each);
    numbered = Numbered-snoc 0 s.items i k.numbered (omega arith);
    at_end = AtEnd-snoc is_final s.items i (subst (AtEnd is_final s.items) over k.at_end);
    failed = ap (λ b. b || i.provider_error) k.failed ∙ sym (any_snoc is_failed s.items i);
    meaningful =
        ap (λ t. first_of t i.meaningful_output i.observed_at) k.meaningful
        ∙ first_of_lem (find? is_meaningful s.items) i
        ∙ ap meaningful_time (sym (find?_snoc is_meaningful s.items i));
  }

  moved-Kept : (s : NdjsonParser) (n : ℕ) → Kept s → Kept (record s { line_start = n })
  moved-Kept s n k = record {
    few_items = k.few_items;
    one_each = k.one_each;
    numbered = k.numbered;
    at_end = k.at_end;
    failed = k.failed;
    meaningful = k.meaningful;
  }

  new-Kept : Kept new_parser
  unfolding AtEnd Numbered
  new-Kept = record {
    few_items = omega arith;
    one_each = refl;
    numbered = tt;
    at_end = refl;
    failed = refl;
    meaningful = refl;
  }

  module _ (c : CollectedStream) where
    parse_line-Kept :
        (raw_end offset : ℕ) (s t : NdjsonParser)
        → Kept s
        → parse_line o c raw_end offset s ≡ ok t
        → Kept t
    unfolding parse_line item_of
    parse_line-Kept raw_end offset s t k e =
        let raw_line = slice s.line_start (content_end c.bytes s.line_start raw_end) c.bytes in
        let (_, p) =
          refuse-eq-ok (ltb o.max_line_bytes (length raw_line)) CodecError.line_byte_limit _ e in
        let (_, q) = refuse-eq-ok (is_blank raw_line) CodecError.blank_line _ p in
        let (room, r) =
          require-eq-ok (ltb (length s.items) o.max_items) CodecError.item_limit _ q in
        let (over, u) = refuse-eq-ok s.terminal_seen CodecError.terminal_order _ r in
        let (j, _, v) = >>=-eq-ok (parsed (o.parse_json raw_line)) _ u in
        subst Kept (ok-injective v)
          (push-Kept s (item_of o c offset s j) k refl (ground (arith, room)) over)

    scan_lines-Kept :
        (cursor : ℕ) (rest : List ℕ) (s t : NdjsonParser)
        → Kept s
        → scan_lines o c cursor rest s ≡ ok t
        → Kept t
    unfolding scan_lines
    scan_lines-Kept cursor [] s t k e =
        if-split (ltb s.line_start cursor) (λ _ p. parse_line-Kept cursor cursor s t k p)
          (λ _ p. subst Kept (ok-injective p) k) e
    scan_lines-Kept cursor (b ∷ rest) s t k e =
        split_round (b == 0x0a) _ (parse_line o c cursor (cursor + 1) s) _ t
          (λ p. scan_lines-Kept (cursor + 1) rest s t k p)
          (λ u p q.
            scan_lines-Kept (cursor + 1) rest (record u { line_start = cursor + 1 }) t
              (moved-Kept u (cursor + 1) (parse_line-Kept cursor (cursor + 1) s u k p)) q)
          e

    -- What the result says of its items.
    pub record IsSummary (r : NdjsonResult) : Type 0 where
      pub few_items : length r.result_items ≤ o.max_items
      pub one_each : length r.result_items ≡ r.result_lines
      pub numbered : Numbered 0 r.result_items
      pub over : Bool
      pub at_end : AtEnd is_final r.result_items over
      pub error_iff :
          (r.terminal ≡ NdjsonTerminal.provider_error) ↔ (any is_failed r.result_items ≡ true)
      pub done_iff : (r.terminal ≡ NdjsonTerminal.done) ↔ (
          (is_ollama o.protocol
            && (not (any is_failed r.result_items) && is_done (last? r.result_items)))
          ≡ true)
      pub meaningful :
          r.result_timing.first_meaningful_at ≡ meaningful_time (find? is_meaningful r.result_items)

    -- The items of an accepted stream are one to a line, numbered from 0 on and no more than allowed,
    -- and none but the last is an error or done. The summary says provider error exactly when an item
    -- is one, and done exactly when the protocol is Ollama's, none is one and the last item is done; the first
    -- meaningful time is that of the first meaningful item.
    pub parse_lines-IsSummary : (r : NdjsonResult) → parse_lines o c ≡ ok r → IsSummary r
    unfolding parse_lines timing
    parse_lines-IsSummary r e =
        let (s, scanned, v) = >>=-eq-ok (scan_lines o c 0 c.bytes new_parser) _ e in
        let k = scan_lines-Kept 0 c.bytes new_parser s new-Kept scanned in
        subst IsSummary (ok-injective v) record {
          few_items = k.few_items;
          one_each = k.one_each;
          numbered = k.numbered;
          over = s.terminal_seen;
          at_end = k.at_end;
          error_iff =
              subst (λ b. (terminal_by o.protocol s ≡ NdjsonTerminal.provider_error) ↔ (b ≡ true))
                k.failed (terminal_by-error o.protocol s);
          done_iff =
              subst
                (λ b.
                  (terminal_by o.protocol s ≡ NdjsonTerminal.done)
                  ↔ ((is_ollama o.protocol && (not b && is_done (last? s.items))) ≡ true))
                k.failed (terminal_by-done o.protocol s);
          meaningful = k.meaningful;
        }
