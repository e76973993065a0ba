-- ===== src/Stream/Observed/Times.antt =====
-- src/runtime/sse.ts, `observedAtOffset`: later bytes were not observed earlier.
use tasc.Base.{ℕ, ◌≤◌, sym, subst, List, [], ◌∷◌, find?, arith}
use tasc.Stream.{ChunkMark}
use tasc.Stream.Collect.Marks.{Covers}
use tasc.Stream.Observed.{observed_at_offset, time_or}
use tasc.Stream.Observed.First.{Ascending, reaches, observed_at-first}

Covers-Ascending : (a t : ℕ) (ms : List ChunkMark) (b u : ℕ) → Covers a t ms b u → Ascending a ms
unfolding Covers Ascending
Covers-Ascending a t [] b u c = tt
Covers-Ascending a t (m ∷ ms) b u c =
    (omega (arith, c.0), Covers-Ascending m.end_offset m.mark_at ms b u c.2)

abbrev first_time : ℕ → ℕ → List ChunkMark → ℕ
first_time offset u ms = time_or u (find? (reaches offset) ms)

first_time-bounds :
    (offset a t : ℕ) (ms : List ChunkMark) (b u : ℕ)
    → Covers a t ms b u
    → (t ≤ first_time offset u ms) × (first_time offset u ms ≤ u)
unfolding Covers
first_time-bounds offset a t [] b u c = (omega (arith, c.1), omega arith)
first_time-bounds offset a t (m ∷ ms) b u c = ground (
  arith,
  c.0,
  c.1,
  first_time-bounds offset m.end_offset m.mark_at ms b u c.2,
  last-le m.end_offset m.mark_at ms b u c.2,
)
  where
    last-le : (a t : ℕ) (ms : List ChunkMark) (b u : ℕ) → Covers a t ms b u → t ≤ u
    last-le a t [] b u d = d.1
    last-le a t (n ∷ ms) b u d = omega (arith, d.1, last-le n.end_offset n.mark_at ms b u d.2)

first_time-le :
    (i j a t : ℕ) (ms : List ChunkMark) (b u : ℕ)
    → Covers a t ms b u
    → i ≤ j
    → first_time i u ms ≤ first_time j u ms
unfolding Covers
first_time-le i j a t [] b u c h = omega arith
first_time-le i j a t (m ∷ ms) b u c h = ground (
  arith,
  first_time-bounds j m.end_offset m.mark_at ms b u c.2,
  first_time-le i j m.end_offset m.mark_at ms b u c.2 h,
)

module _ (a t : ℕ) (ms : List ChunkMark) (b u : ℕ) (c : Covers a t ms b u) where
  pub observed_at-bounds :
      (offset : ℕ) → (t ≤ observed_at_offset ms offset u) × (observed_at_offset ms offset u ≤ u)
  observed_at-bounds offset =
      subst (λ n. (t ≤ n) × (n ≤ u))
        (sym (observed_at-first a offset ms (Covers-Ascending a t ms b u c) u))
        (first_time-bounds offset a t ms b u c)

  pub observed_at-le : (i j : ℕ) → i ≤ j → observed_at_offset ms i u ≤ observed_at_offset ms j u
  observed_at-le i j h =
      let first = λ (k : ℕ). observed_at-first a k ms (Covers-Ascending a t ms b u c) u in
      subst (λ n. n ≤ observed_at_offset ms j u) (sym (first i))
        (subst (λ n. first_time i u ms ≤ n) (sym (first j)) (first_time-le i j a t ms b u c h))
