-- ===== src/Stream/Collect/Marks.antt =====
-- src/runtime/sse.ts, `collectStream`: the marks of the chunks, their times, and the validation by pieces.
use tasc.Base.{
  ℕ, ◌+◌, ◌-◌, ◌≤◌, ◌<◌, ◌≡◌, refl, ap, sym, subst, ◌∙◌, Bool, true, false, List, [], ◌∷◌, ◌++◌,
  Option, none, some, is_some, if◌then◌else◌, length, length-append, Result, ok, err, ◌>>=◌, arith,
  >>=-eq-ok, ok-injective,
}
use tasc.Stream.{
  CodecError, Reading, at_ms, unreadable, Arrival, chunk, not_bytes, broken, Source, not_iterable,
  iterable, ChunkMark, CollectedStream,
}
use tasc.Stream.Bytes.{drop, slice, take-drop, drop-drop, drop_all}
use tasc.Stream.Collect.{CollectOptions, collect_stream, check_utf8, decode_marks, read_clock}
use tasc.Stream.Collect.Buffer.{
  Gathered, add_chunk, gather, gather_all, nothing_gathered, gathered_stream, gather_stream,
  collect_bytes-gather,
}
use tasc.Stream.Utf8.{
  Utf8, start, decode_from, decode_utf8, after, flush, resume, decode_from-append,
}
use tasc.Text.{Text}

-- Marks that stand one after the other from an offset and a time to an offset and a time.
unfoldable pub Covers : ℕ → ℕ → List ChunkMark → ℕ → ℕ → Type 0
Covers from time [] to last = (from ≡ to) × (time ≤ last)
Covers from time (m ∷ ms) to last =
    (from < m.end_offset) × (time ≤ m.mark_at) × Covers m.end_offset m.mark_at ms to last

-- One more mark at the end.
Covers-snoc :
    (from time : ℕ) (ms : List ChunkMark) (to last : ℕ) (m : ChunkMark)
    → Covers from time ms to last
    → to < m.end_offset
    → last ≤ m.mark_at
    → Covers from time (ms ++ m ∷ []) m.end_offset m.mark_at
unfolding Covers
Covers-snoc from time [] to last m c h k = (omega (arith, c), omega (arith, c), (refl, omega arith))
Covers-snoc from time (n ∷ ms) to last m c h k =
    (c.0, c.1, Covers-snoc n.end_offset n.mark_at ms to last m c.2 h k)

-- The last time may be later.
Covers-later :
    (from time : ℕ) (ms : List ChunkMark) (to last later : ℕ)
    → Covers from time ms to last
    → last ≤ later
    → Covers from time ms to later
unfolding Covers
Covers-later from time [] to last later c h = (c.0, omega (arith, c.1))
Covers-later from time (n ∷ ms) to last later c h =
    (c.0, c.1, Covers-later n.end_offset n.mark_at ms to last later c.2 h)

resume-congr :
    (r : Option (Utf8 × Text)) (k : Utf8 → Option (Utf8 × Text)) (ys : List ℕ)
    → ((v : Utf8) → k v ≡ decode_from v ys)
    → (elim r [ none ↦ none | some p ↦ after p.1 (k p.0) ]) ≡ resume r ys
resume-congr none k ys h = refl
resume-congr (some (v, t)) k ys h = ap (after t) (h v)

pub slice-drop : (a b : ℕ) (bytes : List ℕ) → a ≤ b → slice a b bytes ++ drop b bytes ≡ drop a bytes
slice-drop a b bytes h =
    let e : a + (b - a) ≡ b = omega arith in
    ap (λ n. slice a b bytes ++ drop n bytes) (sym e)
    ∙ ap (◌++◌ (slice a b bytes)) (sym (drop-drop a (b - a) bytes))
    ∙ take-drop (b - a) (drop a bytes)

-- A check that agrees with another on what a first part gives.
checked :
    (m : Result CodecError CollectedStream)
    {f g : CollectedStream → Result CodecError CollectedStream}
    → ((c : CollectedStream) → m ≡ ok c → f c ≡ g c)
    → (m >>= f) ≡ (m >>= g)
checked (ok c) h = h c refl
checked (err e) h = refl

module _ (o : CollectOptions) where
  record Sound (g : Gathered) : Type 0 where
    covered : Covers 0 o.started g.gathered_marks (length g.contents) g.gathered_time
    within : length g.contents ≤ o.max_total_bytes
    counted : g.gathered_chunks ≤ o.max_chunks
    one_each : length g.gathered_marks ≡ g.gathered_chunks

  add_chunk-Sound :
      (g : Gathered) (view : List ℕ) (time : ℕ)
      → Sound g
      → g.gathered_chunks < o.max_chunks
      → 0 < length view
      → length g.contents + length view ≤ o.max_total_bytes
      → g.gathered_time ≤ time
      → Sound (add_chunk g view time)
  unfolding add_chunk
  add_chunk-Sound g view time s count nonempty fits later =
      let m : ChunkMark = record { end_offset = length g.contents + length view; mark_at = time } in
      record {
        covered =
            subst (λ n. Covers 0 o.started (g.gathered_marks ++ m ∷ []) n time)
              (sym (length-append g.contents view))
              (Covers-snoc 0 o.started g.gathered_marks (length g.contents) g.gathered_time m
                s.covered (omega arith) later);
        within = omega (arith, length-append g.contents view);
        counted = omega arith;
        one_each = omega (arith, length-append g.gathered_marks (m ∷ []), s.one_each);
      }

  gather-Sound : (g h : Gathered) (a : Arrival) → Sound g → gather o g a ≡ ok h → Sound h
  unfolding gather read_clock
  gather-Sound g h (chunk view unreadable) s e = absurd (ground arith)
  gather-Sound g h (chunk view (at_ms time)) s e = ground (arith, add_chunk-Sound g view time s)
  gather-Sound g h not_bytes s e = absurd (ground arith)
  gather-Sound g h broken s e = absurd (cc e)

  gather_all-Sound :
      (g h : Gathered) (arrivals : List Arrival)
      → Sound g
      → gather_all o g arrivals ≡ ok h
      → Sound h
  unfolding gather_all
  gather_all-Sound g h [] s e = subst Sound (ok-injective e) s
  gather_all-Sound g h (a ∷ rest) s e =
      let (g', p, q) = >>=-eq-ok (gather o g a) (λ x. gather_all o x rest) e in
      gather_all-Sound g' h rest (gather-Sound g g' a s p) q

  -- The stream that was collected: within the limits, its marks in a row from the first byte to the
  -- last, and their times in a row from the start to the end.
  pub record IsStream (c : CollectedStream) : Type 0 where
    pub covered : Covers 0 c.started_at c.marks (length c.bytes) c.completed_at
    pub within : length c.bytes ≤ o.max_total_bytes
    pub counted : c.total_chunks ≤ o.max_chunks
    pub one_each : length c.marks ≡ c.total_chunks
    pub started_with : c.started_at ≡ o.started

  finished-IsStream :
      (g : Gathered) (c : CollectedStream) (r : Reading)
      → Sound g
      → (read_clock r g.gathered_time >>= λ completed. ok (record {
        bytes = g.contents;
        marks = g.gathered_marks;
        total_chunks = g.gathered_chunks;
        started_at = o.started;
        first_byte_at = g.gathered_first;
        completed_at = completed;
      }))
        ≡ ok c
      → IsStream c
  unfolding read_clock
  finished-IsStream g c unreadable s q = absurd (cc q)
  finished-IsStream g c (at_ms time) s q =
      let (t, p, e) = >>=-eq-ok (read_clock (at_ms time) g.gathered_time) _ q in
      let later : g.gathered_time ≤ t = ground (arith, p) in
      subst IsStream (ok-injective e) (record {
        covered =
            Covers-later 0 o.started g.gathered_marks (length g.contents) g.gathered_time t
              s.covered later;
        within = s.within;
        counted = s.counted;
        one_each = s.one_each;
        started_with = refl;
      })

  nothing-Sound : Sound (nothing_gathered o)
  unfolding nothing_gathered Covers
  nothing-Sound = record {
    covered = (refl, omega arith);
    within = omega arith;
    counted = omega arith;
    one_each = refl;
  }

  gather_stream-IsStream :
      (source : Source) (c : CollectedStream) → gather_stream o source ≡ ok c → IsStream c
  unfolding gather_stream gathered_stream
  gather_stream-IsStream not_iterable c e = absurd (cc e)
  gather_stream-IsStream (iterable arrivals) c e =
      let (g, p, q) = >>=-eq-ok (gather_all o (nothing_gathered o) arrivals) _ e in
      finished-IsStream g c o.at_end
        (gather_all-Sound (nothing_gathered o) g arrivals nothing-Sound p) q

decode_from_nil : (u : Utf8) → decode_from u [] ≡ some (u, [])
unfolding decode_from
decode_from_nil u = refl

-- Feeding the decoder chunk by chunk is decoding the bytes from the first mark's start on.
decode_marks-whole :
    (u : Utf8) (from time : ℕ) (ms : List ChunkMark) (last : ℕ) (bytes : List ℕ)
    → Covers from time ms (length bytes) last
    → decode_marks u from ms bytes ≡ decode_from u (drop from bytes)
unfolding Covers decode_marks
decode_marks-whole u from time [] last bytes c = sym (
    ap (λ n. decode_from u (drop n bytes)) c.0
    ∙ ap (decode_from u) (drop_all bytes)
    ∙ decode_from_nil u)
decode_marks-whole u from time (m ∷ ms) last bytes c =
    resume-congr (decode_from u (slice from m.end_offset bytes))
      (λ v. decode_marks v m.end_offset ms bytes) (drop m.end_offset bytes)
      (λ v. decode_marks-whole v m.end_offset m.mark_at ms last bytes c.2)
    ∙ sym (decode_from-append u (slice from m.end_offset bytes) (drop m.end_offset bytes))
    ∙ ap (decode_from u) (slice-drop from m.end_offset bytes (omega (arith, c.0)))

check_utf8-whole :
    (o : CollectOptions) (c : CollectedStream)
    → IsStream o c
    → check_utf8 c ≡ (if is_some (decode_utf8 c.bytes) then ok c else err CodecError.invalid_utf8)
unfolding check_utf8 decode_utf8
check_utf8-whole o c s =
    ap (λ r. if is_some (flush r) then ok c else err CodecError.invalid_utf8)
      (decode_marks-whole start 0 c.started_at c.marks c.completed_at c.bytes s.covered)

-- The validation piece by piece accepts what decodes as a whole, and the collection is that of the
-- chunks in a row with this one decoding.
pub collect_stream-gather :
    (o : CollectOptions) (source : Source)
    → collect_stream o source ≡ (
        gather_stream o source >>= λ c.
        if is_some (decode_utf8 c.bytes) then ok c else err CodecError.invalid_utf8)
unfolding collect_stream decode_utf8
collect_stream-gather o source =
    ap (λ x. x >>= check_utf8) (collect_bytes-gather o source)
    ∙ checked (gather_stream o source)
        λ c e. check_utf8-whole o c (gather_stream-IsStream o source c e)

-- What is collected is in order, within the limits, and valid UTF-8.
pub collect_stream-IsStream :
    (o : CollectOptions) (source : Source) (c : CollectedStream)
    → collect_stream o source ≡ ok c
    → IsStream o c × (is_some (decode_utf8 c.bytes) ≡ true)
collect_stream-IsStream o source c e =
    let (d, p, q) =
      >>=-eq-ok (gather_stream o source) _ (sym (collect_stream-gather o source) ∙ e) in
    kept (is_some (decode_utf8 d.bytes)) refl (gather_stream-IsStream o source d p) q
  where
    kept :
        {d : CollectedStream} (b : Bool)
        → is_some (decode_utf8 d.bytes) ≡ b
        → IsStream o d
        → (if b then ok d else err CodecError.invalid_utf8) ≡ ok c
        → IsStream o c × (is_some (decode_utf8 c.bytes) ≡ true)
    kept true valid s e' =
        subst (λ x. IsStream o x × (is_some (decode_utf8 x.bytes) ≡ true)) (ok-injective e')
          (s, valid)
    kept false valid s e' = absurd (cc e')
