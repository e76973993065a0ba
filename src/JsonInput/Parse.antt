-- ===== src/JsonInput/Parse.antt =====
-- src/bounded-input.ts, `parseBoundedJson` and `parseBoundedNdjson`: bytes to JSON values, under normalized
-- limits.
use tasc.Base.{
  ℕ, ◌+◌, ◌-◌, Bool, true, false, List, [], ◌∷◌, ◌++◌, Option, none, some, ltb, ◌==◌, nat_eq,
  if◌then◌else◌, length, Result, ok, err, refuse, require, ◌>>=◌, ◌>>◌,
}
use tasc.JsonInput.{InputError, JsonInputOptions}
use tasc.JsonInput.Machine.{validate_json_grammar}
use tasc.Stream.Bytes.{slice}
use tasc.Stream.Json.{Json}
use tasc.Stream.Ndjson.{is_blank, content_end}
use tasc.Stream.Utf8.{decode_utf8}
use tasc.Text.{Text}

-- `json_parse` is `JSON.parse`; `none` is a throw.
pub record ParseOptions : Type 0 where
  pub scanning : JsonInputOptions
  pub json_parse : Text → Option Json
  pub max_line_bytes : ℕ
  pub max_items : ℕ

abbrev pub or_error : {A : Type 0} → InputError → Option A → Result InputError A
or_error e none = err e
or_error e (some a) = ok a

-- The verdict of the scanner, which ends on every source.
abbrev pub verdict : Option (Result InputError (Unit {0})) → Result InputError (Unit {0})
verdict none = err InputError.invalid_json
verdict (some r) = r

abbrev pub starts_with_mark : Text → Bool
starts_with_mark [] = false
starts_with_mark (c ∷ t) = c == 0xfeff

-- `decodeFatalUtf8`.
unfoldable pub decode_fatal : List ℕ → Result InputError Text
decode_fatal bytes = do
  decoded ← or_error InputError.invalid_utf8 (decode_utf8 bytes)
  refuse (starts_with_mark decoded) InputError.utf8_bom
  ok decoded

-- `parseJsonBytes`, and `parseBoundedJson` on genuine bytes.
unfoldable pub parse_json_bytes : ParseOptions → List ℕ → Result InputError Json
unfolding decode_fatal
parse_json_bytes o bytes = do
  refuse (ltb o.scanning.limits.json_bytes (length bytes)) InputError.byte_limit
  source ← decode_fatal bytes
  verdict (validate_json_grammar o.scanning source)
  or_error InputError.invalid_json (o.json_parse source)

-- One record of `parseBoundedNdjson`, from the start of its line to the end of its content.
unfoldable pub parse_record :
    ParseOptions → List ℕ → ℕ → ℕ → List Json → Result InputError (List Json)
unfolding parse_json_bytes is_blank
parse_record o bytes line_start line_end items = do
  refuse (ltb o.max_line_bytes (line_end - line_start)) InputError.line_byte_limit
  refuse (is_blank (slice line_start line_end bytes)) InputError.blank_line
  require (ltb (length items) o.max_items) InputError.item_limit
  j ← parse_json_bytes o (slice line_start line_end bytes)
  ok (items ++ j ∷ [])

-- The loop, up to the end of the bytes; a carriage return is left out before a line feed only.
unfoldable pub record_loop :
    ParseOptions → List ℕ → ℕ → ℕ → List Json → List ℕ → Result InputError (List Json)
unfolding parse_record content_end
record_loop o bytes line_start cursor items [] =
    if line_start == length bytes then ok items else parse_record o bytes line_start cursor items
record_loop o bytes line_start cursor items (b ∷ rest) = elim (b == 0x0a) [
  | false ↦ record_loop o bytes line_start (cursor + 1) items rest
  | true ↦ do
    items' ← parse_record o bytes line_start (content_end bytes line_start cursor) items
    record_loop o bytes (cursor + 1) (cursor + 1) items' rest
]

-- `parseBoundedNdjson`.
unfoldable pub parse_bounded_ndjson : ParseOptions → List ℕ → Result InputError (List Json)
unfolding record_loop
parse_bounded_ndjson o bytes = do
  refuse (ltb o.scanning.limits.json_bytes (length bytes)) InputError.byte_limit
  record_loop o bytes 0 0 [] bytes
