-- ===== src/Stream/Utf8/Split.antt =====
-- The fatal `TextDecoder` on text that is cut at an ASCII byte: both parts decode.
use tasc.Base.{
  ℕ, zero, suc, ◌≤◌, ◌<◌, ◌≡◌, refl, ap, sym, subst, ◌∙◌, true, List, [], ◌∷◌, ◌++◌, Option, none,
  some, is_some, arith,
}
use tasc.Stream.Utf8.{
  Utf8, start, inside, decode_byte, decode_from, decode_from-append, decode_utf8, after, flush,
  resume,
}
use tasc.Text.{Text}

-- A byte inside a character is not ASCII.
abbrev Proper : Utf8 → Type 0
Proper start = Unit
Proper (inside more lower upper point) = 128 ≤ lower

abbrev ProperAfter : Option (Utf8 × Text) → Type 0
ProperAfter none = Unit
ProperAfter (some p) = Proper p.0

decode_byte-Proper : (u : Utf8) (b : ℕ) → ProperAfter (decode_byte u b)
unfolding decode_byte
decode_byte-Proper start b = ground arith
decode_byte-Proper (inside zero lower upper point) b = ground arith
decode_byte-Proper (inside (suc more) lower upper point) b = ground arith

after-Proper : (t : Text) (r : Option (Utf8 × Text)) → ProperAfter r → ProperAfter (after t r)
after-Proper t none h = tt
after-Proper t (some p) h = h

resume-Proper :
    (r : Option (Utf8 × Text)) (bs : List ℕ)
    → ProperAfter r
    → ((v : Utf8) → Proper v → ProperAfter (decode_from v bs))
    → ProperAfter (resume r bs)
resume-Proper none bs h k = tt
resume-Proper (some p) bs h k = after-Proper p.1 (decode_from p.0 bs) (k p.0 h)

decode_from-Proper : (u : Utf8) (bs : List ℕ) → Proper u → ProperAfter (decode_from u bs)
unfolding decode_from
decode_from-Proper u [] h = h
decode_from-Proper u (b ∷ bs) h =
    resume-Proper (decode_byte u b) bs (decode_byte-Proper u b) (λ v k. decode_from-Proper v bs k)

-- The bytes decode.
abbrev pub IsValid : List ℕ → Type 0
IsValid bytes = is_some (decode_utf8 bytes) ≡ true

pub flush-after :
    (t : Text) (r : Option (Utf8 × Text)) → is_some (flush (after t r)) ≡ is_some (flush r)
flush-after t none = refl
flush-after t (some (start, x)) = refl
flush-after t (some (inside more lower upper point, x)) = refl

ascii-step : (b : ℕ) → b < 128 → decode_byte start b ≡ some (start, b ∷ [])
unfolding decode_byte
ascii-step b h = ground arith

inside-step :
    (more lower upper point b : ℕ)
    → 128 ≤ lower
    → b < 128
    → decode_byte (inside more lower upper point) b ≡ none
unfolding decode_byte
inside-step more lower upper point b h k = ground arith

-- After an ASCII byte the decoder is at the start of a character.
pub IsValid-tail : (b : ℕ) (ys : List ℕ) → b < 128 → IsValid (b ∷ ys) → IsValid ys
unfolding decode_utf8 decode_from
IsValid-tail b ys h v =
    sym (flush-after (b ∷ []) (decode_from start ys))
    ∙ sym (ap (λ r. is_some (flush (resume r ys))) (ascii-step b h))
    ∙ v

split_at :
    (r : Option (Utf8 × Text)) (b : ℕ) (ys : List ℕ)
    → b < 128
    → ProperAfter r
    → is_some (flush (resume r (b ∷ ys))) ≡ true
    → (is_some (flush r) ≡ true) × IsValid (b ∷ ys)
unfolding decode_utf8 decode_from
split_at none b ys h k v = absurd (cc v)
split_at (some (start, t)) b ys h k v = (refl, sym (flush-after t (decode_from start (b ∷ ys))) ∙ v)
split_at (some (inside more lower upper point, t)) b ys h k v = absurd (
    cc (
      ap (λ r. is_some (flush (after t (resume r ys)))) (inside-step more lower upper point b k h),
      v,
    ))

-- Bytes that decode may be cut before an ASCII byte.
pub IsValid-cut :
    (xs : List ℕ) (b : ℕ) (ys : List ℕ)
    → b < 128
    → IsValid (xs ++ b ∷ ys)
    → IsValid xs × IsValid (b ∷ ys)
unfolding decode_utf8
IsValid-cut xs b ys h v =
    split_at (decode_from start xs) b ys h (decode_from-Proper start xs tt)
      (subst (λ r. is_some (flush r) ≡ true) (decode_from-append start xs (b ∷ ys)) v)
