-- ===== src/Stream/Observed/First.antt =====
-- src/runtime/sse.ts, `observedAtOffset`: the binary search finds the first mark that reaches the offset.
use tasc.Base.{
  ℕ, zero, suc, ◌+◌, ◌-◌, ◌/◌, ◌≤◌, ◌<◌, ◌≡◌, refl, ap, sym, subst, Bool, List, [], ◌∷◌, some, leb,
  length, find?, arith,
}
use native.Mathlib.Decide.{dec_lt}
use tasc.Stream.{ChunkMark}
use tasc.Stream.Bytes.{get_elem?}
use tasc.Stream.Observed.{search_marks, observed_at_offset, time_or}

-- Marks whose ends do not fall from one to the next.
unfoldable pub Ascending : ℕ → List ChunkMark → Type 0
Ascending from [] = Unit
Ascending from (m ∷ ms) = (from ≤ m.end_offset) × Ascending m.end_offset ms

abbrev pub reaches : ℕ → ChunkMark → Bool
reaches offset m = leb offset m.end_offset

-- All marks before `low` end before the offset, all from `top` on reach it.
record Splits (marks : List ChunkMark) (offset low top : ℕ) : Type 0 where
  below : (i : ℕ) (m : ChunkMark) → i < low → get_elem? marks i ≡ some m → m.end_offset < offset
  above : (i : ℕ) (m : ChunkMark) → top ≤ i → get_elem? marks i ≡ some m → offset ≤ m.end_offset

get_elem?_inside :
    {A : Type 0} (xs : List A) (i : ℕ) → i < length xs → (x : A) × (get_elem? xs i ≡ some x)
get_elem?_inside [] i h = absurd (omega arith)
get_elem?_inside (x ∷ xs) zero h = (x, refl)
get_elem?_inside (x ∷ xs) (suc i) h = get_elem?_inside xs i (omega arith)

get_elem?_out : {A : Type 0} (xs : List A) (i : ℕ) (x : A) → get_elem? xs i ≡ some x → i < length xs
get_elem?_out [] i x e = absurd (cc e)
get_elem?_out (y ∷ xs) zero x e = omega arith
get_elem?_out (y ∷ xs) (suc i) x e = omega (arith, get_elem?_out xs i x e)

Ascending-from :
    (from i : ℕ) (ms : List ChunkMark) (m : ChunkMark)
    → Ascending from ms
    → get_elem? ms i ≡ some m
    → from ≤ m.end_offset
unfolding Ascending
Ascending-from from i [] m a e = absurd (cc e)
Ascending-from from zero (k ∷ ms) m a e = let q : k ≡ m = cc e in grind (arith, a)
Ascending-from from (suc i) (k ∷ ms) m a e =
    omega (arith, a.0, Ascending-from k.end_offset i ms m a.1 e)

Ascending-get :
    (from i j : ℕ) (ms : List ChunkMark) (m n : ChunkMark)
    → Ascending from ms
    → i ≤ j
    → get_elem? ms i ≡ some m
    → get_elem? ms j ≡ some n
    → m.end_offset ≤ n.end_offset
unfolding Ascending
Ascending-get from i j [] m n a h p q = absurd (cc p)
Ascending-get from zero zero (k ∷ ms) m n a h p q = let r : m ≡ n = cc (p, q) in grind (arith, r)
Ascending-get from zero (suc j) (k ∷ ms) m n a h p q =
    let r : k ≡ m = cc p in grind (arith, r, Ascending-from k.end_offset j ms n a.1 q)
Ascending-get from (suc i) zero (k ∷ ms) m n a h p q = absurd (omega arith)
Ascending-get from (suc i) (suc j) (k ∷ ms) m n a h p q =
    Ascending-get k.end_offset i j ms m n a.1 (omega arith) p q

Splits-find :
    (marks : List ChunkMark) (offset low : ℕ)
    → Splits marks offset low low
    → get_elem? marks low ≡ find? (reaches offset) marks
Splits-find [] offset low s = refl
Splits-find (m ∷ ms) offset zero s = ground (arith, s.above 0 m (omega arith) refl)
Splits-find (m ∷ ms) offset (suc low) s =
    let before : m.end_offset < offset = s.below 0 m (omega arith) refl in
    let tail : Splits ms offset low low = record {
      below = λ i n h e. s.below (suc i) n (omega arith) e;
      above = λ i n h e. s.above (suc i) n (omega arith) e;
    } in
    ground (arith, Splits-find ms offset low tail)

module _ (from offset : ℕ) (marks : List ChunkMark) (ascending : Ascending from marks) where
  module _ (rounds low top : ℕ) where
    abbrev middle : ℕ
    middle = low + (top - 1 - low) / 2

    search_marks_empty : top ≤ low → search_marks (suc rounds) marks offset low top ≡ low
    unfolding search_marks
    search_marks_empty h = ground arith

    search_marks_left :
        (m : ChunkMark)
        → low < top
        → get_elem? marks middle ≡ some m
        → offset ≤ m.end_offset
        → search_marks (suc rounds) marks offset low top
          ≡ search_marks rounds marks offset low middle
    unfolding search_marks
    search_marks_left m h at le = ground (arith, at)

    search_marks_right :
        (m : ChunkMark)
        → low < top
        → get_elem? marks middle ≡ some m
        → m.end_offset < offset
        → search_marks (suc rounds) marks offset low top
          ≡ search_marks rounds marks offset (middle + 1) top
    unfolding search_marks
    search_marks_right m h at gt = ground (arith, at)

  abbrev Found : ℕ → Type 0
  Found n = Splits marks offset n n

  search_marks-Splits :
      (rounds low top : ℕ)
      → low ≤ top
      → top ≤ length marks
      → top - low ≤ rounds
      → Splits marks offset low top
      → Found (search_marks rounds marks offset low top)
  unfolding search_marks
  search_marks-Splits zero low top h k r s =
      let e : top ≡ low = omega arith in subst (Splits marks offset low) e s
  search_marks-Splits (suc rounds) low top h k r s = elim (dec_lt low top) [
    | no e ↦
        let q : top ≡ low = omega arith in
        subst Found (sym (search_marks_empty rounds low top (omega arith)))
          (subst (Splits marks offset low) q s)
    | yes lt ↦
        let (m, at) = get_elem?_inside marks (middle rounds low top) (omega arith) in
        elim (dec_lt m.end_offset offset) [
          | no le ↦ subst Found (sym (search_marks_left rounds low top m lt at (omega arith))) (
              search_marks-Splits rounds low (middle rounds low top) (omega arith) (omega arith)
                (omega arith)
                record {
                  below = s.below;
                  above = λ i n j q. omega (
                    arith,
                    Ascending-get from (middle rounds low top) i marks m n ascending j at q,
                  );
                })
          | yes gt ↦ subst Found (sym (search_marks_right rounds low top m lt at gt)) (
              search_marks-Splits rounds (middle rounds low top + 1) top (omega arith) k
                (omega arith)
                record {
                  above = s.above;
                  below = λ i n j q. omega (
                    arith,
                    Ascending-get from i (middle rounds low top) marks n m ascending (omega arith) q
                        at,
                  );
                })
        ]
  ]

  -- The search ends with the time of the first mark that reaches the offset, or else the fallback.
  pub observed_at-first :
      (fallback : ℕ)
      → observed_at_offset marks offset fallback ≡ time_or fallback (find? (reaches offset) marks)
  unfolding observed_at_offset
  observed_at-first fallback = ap (time_or fallback) (
      Splits-find marks offset _ (
        search_marks-Splits (length marks) 0 (length marks) (omega arith) (omega arith)
          (omega arith)
          record {
            below = λ i m h e. absurd (omega arith);
            above = λ i m h e. absurd (omega (arith, get_elem?_out marks i m e));
          }))
