-- ===== src/Stream/Sse/Decoded.antt =====
-- src/runtime/sse.ts, `parseSseBytes`: the parts of a line that decodes decode.
use tasc.Base.{
  ℕ, zero, suc, ◌≡◌, refl, ap, sym, subst, Bool, true, false, List, [], ◌∷◌, ◌++◌, Option, none,
  some, is_some, ◌==◌, nat_eq, if◌then◌else◌, Result, ok, err, require, refuse, ◌>>=◌, ◌>>◌, arith,
}
use tasc.Stream.{CodecError}
use tasc.Stream.Bytes.{take, drop}
use tasc.Stream.SseLines.{
  SseLimits, SseParser, content_line, comment_line, field_line, colon_index, field_name,
  field_value, skip_space, decoded,
}
use tasc.Stream.Utf8.{decode_utf8, decode_from}
use tasc.Text.{Text}
use tasc.Stream.Utf8.Split.{IsValid, IsValid-tail, IsValid-cut}

abbrev is_utf8 : CodecError → Bool
is_utf8 CodecError.invalid_utf8 = true
is_utf8 _ = false

-- The result is not the error on invalid UTF-8.
unfoldable pub Decodes : {A : Type 0} → Result CodecError A → Type 0
Decodes (ok a) = Unit
Decodes (err e) = is_utf8 e ≡ false

pub >>=-Decodes :
    {A B : Type 0} (m : Result CodecError A) (k : A → Result CodecError B)
    → Decodes m
    → ((a : A) → m ≡ ok a → Decodes (k a))
    → Decodes (m >>= k)
unfolding Decodes
>>=-Decodes (ok a) k h f = f a refl
>>=-Decodes (err e) k h f = h

pub refuse-Decodes :
    {B : Type 0} (b : Bool) (e : CodecError) (k : Result CodecError B)
    → is_utf8 e ≡ false
    → Decodes k
    → Decodes (refuse b e >> k)
unfolding Decodes
refuse-Decodes true e k h d = h
refuse-Decodes false e k h d = d

pub require-Decodes :
    {B : Type 0} (b : Bool) (e : CodecError) (k : Result CodecError B)
    → is_utf8 e ≡ false
    → Decodes k
    → Decodes (require b e >> k)
unfolding Decodes
require-Decodes true e k h d = d
require-Decodes false e k h d = h

pub ok-Decodes : {A : Type 0} (a : A) → Decodes (ok a)
unfolding Decodes
ok-Decodes a = tt

pub if-Decodes :
    {B : Type 0} (b : Bool) (x y : Result CodecError B)
    → (b ≡ true → Decodes x)
    → (b ≡ false → Decodes y)
    → Decodes (if b then x else y)
if-Decodes true x y f g = f refl
if-Decodes false x y f g = g refl

option-Decodes :
    (r : Option Text)
    → is_some r ≡ true
    → Decodes (elim r [ none ↦ err CodecError.invalid_utf8 | some t ↦ ok t ])
unfolding Decodes
option-Decodes none h = absurd (cc h)
option-Decodes (some t) h = tt

decoded-Decodes : (bytes : List ℕ) → IsValid bytes → Decodes (decoded bytes)
decoded-Decodes bytes v = option-Decodes (decode_utf8 bytes) v

-- A line at its first colon.
colon_index-split :
    (line : List ℕ) (i : ℕ)
    → colon_index line ≡ some i
    → take i line ++ b':' ∷ drop (suc i) line ≡ line
unfolding colon_index
colon_index-split [] i e = absurd (cc e)
colon_index-split (b ∷ line) zero e = let q : b':' ≡ b = ground (arith, e) in ap (λ x. x ∷ line) q
colon_index-split (b ∷ line) (suc i) e =
    let q : colon_index line ≡ some i = ground (arith, e) in ap (◌∷◌ b) (colon_index-split line i q)

nil-IsValid : IsValid []
unfolding decode_utf8 decode_from
nil-IsValid = refl

-- The parts of a field.
module _ (line : List ℕ) (valid : IsValid line) where
  at_colon :
      (i : ℕ) → colon_index line ≡ some i → IsValid (take i line) × IsValid (drop (suc i) line)
  at_colon i e =
      let (a, b) =
        IsValid-cut (take i line) b':' (drop (suc i) line) (omega arith)
          (subst IsValid (sym (colon_index-split line i e)) valid) in
      (a, IsValid-tail b':' (drop (suc i) line) (omega arith) b)

  named :
      (r : Option ℕ)
      → ((i : ℕ) → r ≡ some i → IsValid (take i line) × IsValid (drop (suc i) line))
      → IsValid (elim r [ none ↦ line | some i ↦ take i line ])
  named none h = valid
  named (some i) h = (h i refl).0

  field_name-IsValid : IsValid (field_name line)
  unfolding field_name
  field_name-IsValid = named (colon_index line) at_colon

  skip_space-IsValid : (value : List ℕ) → IsValid value → IsValid (skip_space value)
  skip_space-IsValid [] v = v
  skip_space-IsValid (b ∷ value) v = spaced (b == b' ') refl
    where
      spaced : (t : Bool) → (b == b' ') ≡ t → IsValid (if t then value else b ∷ value)
      spaced true e = IsValid-tail b value (ground (arith, e)) v
      spaced false e = v

  valued :
      (r : Option ℕ)
      → ((i : ℕ) → r ≡ some i → IsValid (take i line) × IsValid (drop (suc i) line))
      → IsValid (elim r [ none ↦ [] | some i ↦ skip_space (drop (suc i) line) ])
  valued none h = nil-IsValid
  valued (some i) h = skip_space-IsValid (drop (suc i) line) ((h i refl).1)

  field_value-IsValid : IsValid (field_value line)
  unfolding field_value
  field_value-IsValid = valued (colon_index line) at_colon

  field_line-Decodes : (l : SseLimits) (s : SseParser) → Decodes (field_line l line s)
  unfolding field_line
  field_line-Decodes l s = refuse-Decodes _ CodecError.field_byte_limit _ refl (
      >>=-Decodes (decoded (field_name line)) _
        (decoded-Decodes (field_name line) field_name-IsValid)
        λ name _.
          >>=-Decodes (decoded (field_value line)) _
            (decoded-Decodes (field_value line) field_value-IsValid) λ value _. ok-Decodes _)

pub content_line-Decodes :
    (l : SseLimits) (line : List ℕ) (s : SseParser) → IsValid line → Decodes (content_line l line s)
unfolding content_line comment_line
content_line-Decodes l [] s v = ok-Decodes s
content_line-Decodes l (b ∷ rest) s v =
    if-Decodes (b == b':') _ _
      (λ e. refuse-Decodes _ CodecError.field_byte_limit _ refl (
        >>=-Decodes (decoded rest) _
          (decoded-Decodes rest (IsValid-tail b rest (ground (arith, e)) v)) λ t _. ok-Decodes _))
      (λ _. field_line-Decodes (b ∷ rest) v l s)
