-- ===== src/Stream/Utf8.antt =====
-- The platform's fatal `TextDecoder`, as src/runtime/sse.ts uses it: whole, or fed in pieces.
pub mod Split
use tasc.Base.{
  ℕ, zero, suc, ◌+◌, ◌-◌, ◌*◌, ◌/◌, ◌%◌, ◌≡◌, refl, ap, sym, ◌∙◌, Bool, true, false, ◌&&◌, List, [],
  ◌∷◌, ◌++◌, Option, none, some, leb, ltb, ◌==◌, nat_eq, if◌then◌else◌,
}
use tasc.Stream.Bytes.{append_assoc}
use tasc.Text.{Text}

-- The state between two bytes: at the start of a character, or inside one, with the number of bytes
-- after the next one, the bounds of the next one and the value read so far.
pub data Utf8 : Type 0 where
  start : Utf8
  inside : ℕ → ℕ → ℕ → ℕ → Utf8

-- One code point in UTF-16.
abbrev units : ℕ → Text
units point =
    if ltb point 65536
    then point ∷ []
    else (55296 + (point - 65536) / 1024) ∷ (56320 + (point - 65536) % 1024) ∷ []

abbrev first_byte : ℕ → Option (Utf8 × Text)
first_byte b =
    if ltb b 0x80
    then some (start, b ∷ [])
    else if leb 0xc2 b && leb b 0xdf
    then some (inside 0 0x80 0xbf (b - 0xc0), [])
    else if leb 0xe0 b && leb b 0xef
    then some (
      inside 1 (if b == 0xe0 then 0xa0 else 0x80) (if b == 0xed then 0x9f else 0xbf) (b - 0xe0),
      [],
    )
    else if leb 0xf0 b && leb b 0xf4
    then some (
      inside 2 (if b == 0xf0 then 0x90 else 0x80) (if b == 0xf4 then 0x8f else 0xbf) (b - 0xf0),
      [],
    )
    else none

abbrev next_byte : ℕ → ℕ → ℕ → Option (Utf8 × Text)
next_byte zero point b = some (start, units (point * 64 + (b - 0x80)))
next_byte (suc more) point b = some (inside more 0x80 0xbf (point * 64 + (b - 0x80)), [])

unfoldable pub decode_byte : Utf8 → ℕ → Option (Utf8 × Text)
decode_byte start b = first_byte b
decode_byte (inside more lower upper point) b =
    if leb lower b && leb b upper then next_byte more point b else none

abbrev pub after : Text → Option (Utf8 × Text) → Option (Utf8 × Text)
after t none = none
after t (some (u, rest)) = some (u, t ++ rest)

-- `decoder.decode(bytes, { stream: true })`; `none` is a throw.
unfoldable pub decode_from : Utf8 → List ℕ → Option (Utf8 × Text)
unfolding decode_byte
decode_from u [] = some (u, [])
decode_from u (b ∷ bs) = elim (decode_byte u b) [
  | none ↦ none
  | some p ↦ after p.1 (decode_from p.0 bs)
]

-- `decoder.decode()`: no character may be incomplete.
abbrev pub flush : Option (Utf8 × Text) → Option Text
flush none = none
flush (some (start, t)) = some t
flush (some (inside more lower upper point, t)) = none

-- `decodeUtf8`.
unfoldable pub decode_utf8 : List ℕ → Option Text
unfolding decode_from
decode_utf8 bytes = flush (decode_from start bytes)

-- What a decoder does after some bytes, with the text of these in front.
abbrev pub resume : Option (Utf8 × Text) → List ℕ → Option (Utf8 × Text)
resume r bs = elim r [ none ↦ none | some p ↦ after p.1 (decode_from p.0 bs) ]

after-after : (s t : Text) (r : Option (Utf8 × Text)) → after s (after t r) ≡ after (s ++ t) r
after-after s t none = refl
after-after s t (some (u, rest)) = ap (λ x. some (u, x)) (sym (append_assoc s t rest))

after_nil : (r : Option (Utf8 × Text)) → after [] r ≡ r
after_nil none = refl
after_nil (some (v, t)) = refl

resume-after :
    (t : Text) (r : Option (Utf8 × Text)) (ys : List ℕ)
    → after t (resume r ys) ≡ resume (after t r) ys
resume-after t none ys = refl
resume-after t (some (w, x)) ys = after-after t x (decode_from w ys)

resume_step :
    (r : Option (Utf8 × Text)) (xs ys : List ℕ)
    → ((v : Utf8) → decode_from v (xs ++ ys) ≡ resume (decode_from v xs) ys)
    → resume r (xs ++ ys) ≡ resume (resume r xs) ys
resume_step none xs ys h = refl
resume_step (some (v, t)) xs ys h = ap (after t) (h v) ∙ resume-after t (decode_from v xs) ys

-- Decoding goes on from where it stopped.
pub decode_from-append :
    (u : Utf8) (xs ys : List ℕ) → decode_from u (xs ++ ys) ≡ resume (decode_from u xs) ys
unfolding decode_from
decode_from-append u [] ys = sym (after_nil (decode_from u ys))
decode_from-append u (b ∷ xs) ys =
    resume_step (decode_byte u b) xs ys (λ v. decode_from-append v xs ys)
