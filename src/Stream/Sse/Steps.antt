-- ===== src/Stream/Sse/Steps.antt =====
-- src/runtime/sse.ts, `parseSseBytes`: what each line keeps is kept by the loop.
use tasc.Base.{
  ℕ, suc, ◌+◌, ◌≤◌, ◌<◌, ◌≡◌, refl, subst, List, [], ◌∷◌, Option, none, some, nat_eq, length,
  Result, ok, ◌>>=◌, arith, >>=-eq-ok,
}
use native.Mathlib.Decide.{dec_lt}
use tasc.Stream.{CodecError, CollectedStream}
use tasc.Stream.Sse.{scan, delimiter_end?, cut?}
use tasc.Stream.SseLines.{SseOptions, SseParser, process_line}

-- A delimiter ends after the cursor and within the bytes.
delimiter_end?-bounds :
    (cursor b next : ℕ) (rest : List ℕ)
    → delimiter_end? cursor b rest ≡ some next
    → (cursor < next) × (next ≤ cursor + suc (length rest))
unfolding delimiter_end?
delimiter_end?-bounds cursor b next [] e = ground arith
delimiter_end?-bounds cursor b next (d ∷ rest) e = ground arith

cut?-bounds :
    (line_start cursor b next : ℕ) (rest : List ℕ)
    → cut? line_start cursor b rest ≡ some next
    → (line_start ≤ cursor) × (cursor < next) × (next ≤ cursor + suc (length rest))
cut?-bounds line_start cursor b next rest e =
    ground (arith, delimiter_end?-bounds cursor b next rest)

-- A round that runs to its end: it passes over a byte, or it processes a line.
pub split_round :
    {G : Type 0} (r : Option ℕ) (past : Result CodecError SseParser)
    (line : ℕ → Result CodecError SseParser) (on : ℕ → SseParser → Result CodecError SseParser)
    (t : SseParser)
    → (past ≡ ok t → G)
    → ((n : ℕ) (s : SseParser) → r ≡ some n → line n ≡ ok s → on n s ≡ ok t → G)
    → (elim r [ none ↦ past | some n ↦ line n >>= on n ]) ≡ ok t
    → G
split_round none past line on t f g e = f e
split_round (some n) past line on t f g e =
    let (s, p, q) = >>=-eq-ok (line n) (on n) e in g n s refl p q

module _ (o : SseOptions) (c : CollectedStream) (P : ℕ → SseParser → Type 0)
    (keep : (from to next : ℕ) (s t : SseParser)
      → from ≤ to
      → to ≤ next
      → from < next
      → next ≤ length c.bytes
      → P from s
      → process_line o c from to next s ≡ ok t
      → P next t) where
  -- The loop keeps what every line keeps.
  pub scan-keeps :
      (line_start cursor : ℕ) (rest : List ℕ) (s t : SseParser)
      → cursor + length rest ≡ length c.bytes
      → P line_start s
      → scan o c line_start cursor rest s ≡ ok t
      → (n : ℕ) × P n t
  unfolding scan
  scan-keeps line_start cursor [] s t l p e = elim (dec_lt line_start cursor) [
    | yes h ↦ (
      cursor,
      keep line_start cursor cursor s t (omega arith) (omega arith) h (omega arith) p
          (ground (arith, e)),
    )
    | no h ↦ (line_start, let q : s ≡ t = ground (arith, e) in subst (P line_start) q p)
  ]
  scan-keeps line_start cursor (b ∷ rest) s t l p e =
      split_round (cut? line_start cursor b rest) _ (λ n. process_line o c line_start cursor n s)
        (λ n u. scan o c n (cursor + 1) rest u) t
        (scan-keeps line_start (cursor + 1) rest s t (omega arith) p)
        (λ n u r q.
          let (h, k, m) = cut?-bounds line_start cursor b n rest r in
          scan-keeps n (cursor + 1) rest u t (omega arith)
            (keep line_start cursor n s u h (omega arith) (omega arith) (omega arith) p q))
        e
