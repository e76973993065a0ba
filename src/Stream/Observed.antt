-- ===== src/Stream/Observed.antt =====
-- src/runtime/sse.ts, `observedAtOffset`: when the byte before an offset had arrived.
pub mod First
pub mod Times
use tasc.Base.{
  ℕ, zero, suc, ◌+◌, ◌-◌, ◌/◌, ◌≤◌, ◌<◌, ◌≡◌, refl, Bool, true, false, List, [], ◌∷◌, Option, none,
  some, ltb, leb, length, find?, arith, if◌then◌else◌,
}
use tasc.Stream.{ChunkMark}
use tasc.Stream.Bytes.{get_elem?}

abbrev ends_by : ℕ → Option ChunkMark → Option Bool
ends_by offset none = none
ends_by offset (some m) = some (leb offset m.end_offset)

-- The `while` loop, for a given number of rounds at most; it returns `low`. `top` is `high + 1`,
-- since `high` may be -1.
unfoldable pub search_marks : ℕ → List ChunkMark → ℕ → ℕ → ℕ → ℕ
search_marks zero marks offset low top = low
search_marks (suc rounds) marks offset low top = elim (ltb low top) [
  | false ↦ low
  | true ↦
      let middle = low + (top - 1 - low) / 2 in
      elim (ends_by offset (get_elem? marks middle)) [
        | none ↦ low
        | some ends ↦ elim ends [
          | true ↦ search_marks rounds marks offset low middle
          | false ↦ search_marks rounds marks offset (middle + 1) top
        ]
      ]
]

abbrev pub time_or : ℕ → Option ChunkMark → ℕ
time_or fallback none = fallback
time_or fallback (some m) = m.mark_at

-- The interval is cut in each round, so there are no more rounds than marks.
unfoldable pub observed_at_offset : List ChunkMark → ℕ → ℕ → ℕ
unfolding search_marks
observed_at_offset marks offset fallback =
    time_or fallback (get_elem? marks (search_marks (length marks) marks offset 0 (length marks)))
