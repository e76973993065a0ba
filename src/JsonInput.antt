-- ===== src/JsonInput.antt =====
-- src/bounded-input.ts: the strings, numbers and literals of a JSON text, under the caller's limits. The
-- text that is left stands for the index of the source.
pub mod Machine
pub mod Yields
pub mod Lexemes
pub mod Progress
pub mod Grammar
pub mod Meaning
pub mod Sound
pub mod Parse
pub mod Accepted
pub mod Tokens
pub mod Streams
use tasc.Base.{
  ℕ, zero, suc, ◌+◌, ◌-◌, ◌*◌, Bool, true, false, not, ◌&&◌, ◌||◌, List, [], ◌∷◌, ◌++◌, Option,
  none, some, ltb, leb, ◌==◌, nat_eq, if◌then◌else◌, Result, ok, err, require, refuse, ◌>>=◌, ◌>>◌,
}
use tasc.Network.{is_digit}
use tasc.Stream.Bytes.{take}
use tasc.Stream.Limits.{BoundedJsonLimits}
use tasc.Text.{Text}

-- `BoundedInputErrorCode`, as far as the parsers throw it.
pub data InputError : Type 0 where
  byte_limit depth_limit object_key_limit array_item_limit token_limit : InputError
  decoded_string_limit numeric_token_limit number_range duplicate_key : InputError
  invalid_unicode invalid_utf8 utf8_bom invalid_json : InputError
  line_byte_limit item_limit blank_line : InputError

-- `is_finite` says whether `Number(token)` is finite.
pub record JsonInputOptions : Type 0 where
  pub limits : BoundedJsonLimits ℕ
  pub is_finite : Text → Bool

-- `isJsonWhitespace`.
abbrev pub is_json_whitespace : ℕ → Bool
is_json_whitespace c = c == 0x20 || c == 0x09 || c == 0x0a || c == 0x0d

-- `skipWhitespace`.
unfoldable pub skip_whitespace : Text → Text
skip_whitespace [] = []
skip_whitespace (c ∷ t) =
    let rest = skip_whitespace t in if is_json_whitespace c then rest else c ∷ t

-- `consumeDecodedCodeUnit`, with whether a high surrogate is pending.
unfoldable pub consume_unit : ℕ → Bool → Result InputError Bool
consume_unit unit true =
    if leb 0xdc00 unit && leb unit 0xdfff then ok false else err InputError.invalid_unicode
consume_unit unit false =
    if leb 0xdc00 unit && leb unit 0xdfff
    then err InputError.invalid_unicode
    else ok (leb 0xd800 unit && leb unit 0xdbff)

-- `hexValue`, `none` for -1.
unfoldable pub hex_value : ℕ → Option ℕ
hex_value c =
    if leb 0x30 c && leb c 0x39
    then some (c - 0x30)
    else if leb 0x41 c && leb c 0x46
    then some (c - 0x41 + 10)
    else if leb 0x61 c && leb c 0x66
    then some (c - 0x61 + 10)
    else none

-- The unit of a one-letter escape.
unfoldable pub simple_escape : ℕ → Option ℕ
simple_escape c =
    if c == 0x22 || c == 0x5c || c == 0x2f
    then some c
    else if c == 0x62
    then some 8
    else if c == 0x66
    then some 12
    else if c == 0x6e
    then some 10
    else if c == 0x72
    then some 13
    else if c == 0x74
    then some 9
    else none

-- Where the loop of `scanString` stands: between two units, after a backslash, or inside `\u` with a
-- number of digits to come and their value so far. The source reads the digits of an escape at once;
-- whatever is wrong with one is `invalid-json` here as there.
pub data StringMode : Type 0 where
  plain escaped : StringMode
  hex : ℕ → ℕ → StringMode

-- The count of decoded units and the pending high surrogate.
pub record StringState : Type 0 where
  pub decoded_units : ℕ
  pub pending : Bool
  pub decoded : Text

-- A decoded unit; the source counts an escape before it looks at its surrogates, and a plain unit after.
unfoldable pub plain_unit : ℕ → ℕ → StringState → Result InputError StringState
unfolding consume_unit
plain_unit most unit s = do
  pending ← consume_unit unit s.pending
  refuse (ltb most (s.decoded_units + 1)) InputError.decoded_string_limit
  ok (record {
    decoded_units = s.decoded_units + 1;
    pending = pending;
    decoded = s.decoded ++ unit ∷ [];
  })

unfoldable pub escaped_unit : ℕ → ℕ → StringState → Result InputError StringState
unfolding consume_unit
escaped_unit most unit s = do
  refuse (ltb most (s.decoded_units + 1)) InputError.decoded_string_limit
  pending ← consume_unit unit s.pending
  ok (record {
    decoded_units = s.decoded_units + 1;
    pending = pending;
    decoded = s.decoded ++ unit ∷ [];
  })

abbrev pub or_invalid : Option ℕ → Result InputError ℕ
or_invalid none = err InputError.invalid_json
or_invalid (some n) = ok n

-- One unit of the source other than the closing quote.
unfoldable pub string_step :
    ℕ → ℕ → StringMode → StringState → Result InputError (StringMode × StringState)
unfolding plain_unit escaped_unit simple_escape hex_value
string_step most c plain s =
    if ltb c 0x20
    then err InputError.invalid_json
    else if c == 0x5c
    then ok (escaped, s)
    else do s' ← plain_unit most c s; ok (plain, s')
string_step most c escaped s =
    if c == 0x75
    then ok (hex 3 0, s)
    else do unit ← or_invalid (simple_escape c); s' ← escaped_unit most unit s; ok (plain, s')
string_step most c (hex (suc more) value) s = do
  digit ← or_invalid (hex_value c)
  ok (hex more (value * 16 + digit), s)
string_step most c (hex zero value) s = do
  digit ← or_invalid (hex_value c)
  s' ← escaped_unit most (value * 16 + digit) s
  ok (plain, s')

abbrev pub is_plain : StringMode → Bool
is_plain plain = true
is_plain _ = false

-- The loop of `scanString`, after the opening quote: the decoded text, and what follows the closing quote.
unfoldable pub string_loop : ℕ → StringMode → StringState → Text → Result InputError (Text × Text)
unfolding string_step
string_loop most mode s [] = err InputError.invalid_json
string_loop most mode s (c ∷ t) = elim (is_plain mode && c == 0x22) [
  | true ↦ do refuse s.pending InputError.invalid_unicode; ok (s.decoded, t)
  | false ↦ do next ← string_step most c mode s; string_loop most (next.0) (next.1) t
]

-- `scanString`, after the opening quote.
unfoldable pub scan_string : BoundedJsonLimits ℕ → Text → Result InputError (Text × Text)
unfolding string_loop
scan_string l t =
    string_loop l.decoded_string_length plain
      (record { decoded_units = 0; pending = false; decoded = [] }) t

-- `consumeNumberCharacter`, with the length of the token so far.
unfoldable pub consume_number : ℕ → ℕ → Result InputError ℕ
consume_number most used =
    if ltb most (used + 1) then err InputError.numeric_token_limit else ok (used + 1)

-- The `do ... while` loops over digits, after the test that there is one.
unfoldable pub digits : ℕ → ℕ → Text → Result InputError (ℕ × Text)
unfolding consume_number
digits most used [] = ok (used, [])
digits most used (c ∷ t) = elim (is_digit c) [
  | true ↦ do used' ← consume_number most used; digits most used' t
  | false ↦ ok (used, c ∷ t)
]

-- The head of the text is one of two units: it is consumed.
unfoldable pub optional : (ℕ → Bool) → ℕ → ℕ → Text → Result InputError (ℕ × Text)
unfolding consume_number
optional test most used [] = ok (used, [])
optional test most used (c ∷ t) =
    if test c then (do used' ← consume_number most used; ok (used', t)) else ok (used, c ∷ t)

-- At least one digit.
unfoldable pub some_digits : ℕ → ℕ → Text → Result InputError (ℕ × Text)
unfolding digits
some_digits most used [] = err InputError.invalid_json
some_digits most used (c ∷ t) =
    if is_digit c then digits most used (c ∷ t) else err InputError.invalid_json

-- The integer part: zero alone, or digits.
unfoldable pub integer_part : ℕ → ℕ → Text → Result InputError (ℕ × Text)
unfolding some_digits consume_number
integer_part most used [] = err InputError.invalid_json
integer_part most used (c ∷ t) =
    if c == 0x30
    then (do used' ← consume_number most used; ok (used', t))
    else some_digits most used (c ∷ t)

unfoldable pub fraction_part : ℕ → ℕ → Text → Result InputError (ℕ × Text)
unfolding some_digits consume_number
fraction_part most used [] = ok (used, [])
fraction_part most used (c ∷ t) =
    if c == 0x2e
    then (do used' ← consume_number most used; some_digits most used' t)
    else ok (used, c ∷ t)

unfoldable pub exponent_part : ℕ → ℕ → Text → Result InputError (ℕ × Text)
unfolding some_digits optional consume_number
exponent_part most used [] = ok (used, [])
exponent_part most used (c ∷ t) =
    if c == 0x65 || c == 0x45
    then (do
      used' ← consume_number most used
      signed ← optional (λ s. s == 0x2b || s == 0x2d) most used' t
      some_digits most signed.0 signed.1)
    else ok (used, c ∷ t)

-- `scanNumber`: what follows the token.
unfoldable pub scan_number : JsonInputOptions → Text → Result InputError Text
unfolding optional integer_part fraction_part exponent_part
scan_number o t =
    let most = o.limits.numeric_token_length in
    do
      signed ← optional (λ c. c == 0x2d) most 0 t
      whole ← integer_part most signed.0 signed.1
      fraction ← fraction_part most whole.0 whole.1
      exponent ← exponent_part most fraction.0 fraction.1
      require (o.is_finite (take exponent.0 t)) InputError.number_range
      ok exponent.1

-- `scanLiteral`: what follows the literal.
unfoldable pub scan_literal : Text → Text → Result InputError Text
scan_literal [] t = ok t
scan_literal (l ∷ literal) [] = err InputError.invalid_json
scan_literal (l ∷ literal) (c ∷ t) =
    let rest = scan_literal literal t in if c == l then rest else err InputError.invalid_json
