-- ===== src/JsonInput/Accepted.antt =====
-- src/bounded-input.ts, `parseBoundedJson`: what is known of bytes that give a value.
use tasc.Base.{
  ℕ, ◌≤◌, ◌≡◌, refl, ap, subst, ◌∙◌, false, Option, none, some, List, ltb, length, Result, ok, err,
  arith, >>=-eq-ok, refuse-eq-ok, ok-injective,
}
use tasc.JsonInput.{InputError}
use tasc.JsonInput.Grammar.{IsJson}
use tasc.JsonInput.Machine.{validate_json_grammar}
use tasc.JsonInput.Parse.{
  ParseOptions, decode_fatal, starts_with_mark, parse_json_bytes, verdict, or_error,
}
use tasc.JsonInput.Sound.{validate_json_grammar-IsJson}
use tasc.Stream.Json.{Json}
use tasc.Stream.Utf8.{decode_utf8}
use tasc.Text.{Text}

or_error-eq-ok :
    {A : Type 0} (e : InputError) (r : Option A) (a : A) → or_error e r ≡ ok a → r ≡ some a
or_error-eq-ok e none a p = absurd (cc p)
or_error-eq-ok e (some b) a p = ap some (ok-injective p)

verdict-eq-ok :
    (r : Option (Result InputError (Unit {0}))) (u : Unit {0}) → verdict r ≡ ok u → r ≡ some (ok tt)
verdict-eq-ok none u p = absurd (cc p)
verdict-eq-ok (some (ok v)) u p = refl
verdict-eq-ok (some (err e)) u p = absurd (cc p)

-- The text of bytes that were accepted, with the value that was read from it.
pub record Accepted (o : ParseOptions) (bytes : List ℕ) (j : Json) : Type 0 where
  pub small : length bytes ≤ o.scanning.limits.json_bytes
  pub text : Text
  pub decodes : decode_utf8 bytes ≡ some text
  pub no_mark : starts_with_mark text ≡ false
  pub is_json : IsJson o.scanning text
  pub parsed : o.json_parse text ≡ some j

-- Bytes that give a value are within the byte limit and decode to a text without a byte-order mark; the
-- text is one JSON value with whitespace around it, in which the keys of each object are distinct, no
-- array has too many items and no more containers are open than allowed; and the value is that of the
-- platform's parser.
pub parse_json_bytes-Accepted :
    (o : ParseOptions) (bytes : List ℕ) (j : Json)
    → parse_json_bytes o bytes ≡ ok j
    → Accepted o bytes j
unfolding parse_json_bytes decode_fatal
parse_json_bytes-Accepted o bytes j e =
    let (fits, p) =
      refuse-eq-ok (ltb o.scanning.limits.json_bytes (length bytes)) InputError.byte_limit _ e in
    let (text, decoded, q) = >>=-eq-ok (decode_fatal bytes) _ p in
    let (t, utf8, r) = >>=-eq-ok (or_error InputError.invalid_utf8 (decode_utf8 bytes)) _ decoded in
    let (mark, same) = refuse-eq-ok (starts_with_mark t) InputError.utf8_bom _ r in
    let (u, valid, w) = >>=-eq-ok (verdict (validate_json_grammar o.scanning text)) _ q in
    let eq : t ≡ text = ok-injective same in
    record {
      small = ground (arith, fits);
      text = text;
      decodes = or_error-eq-ok InputError.invalid_utf8 (decode_utf8 bytes) t utf8 ∙ ap some eq;
      no_mark = subst (λ x. starts_with_mark x ≡ false) eq mark;
      is_json =
          validate_json_grammar-IsJson o.scanning text
            (verdict-eq-ok (validate_json_grammar o.scanning text) u valid);
      parsed = or_error-eq-ok InputError.invalid_json (o.json_parse text) j w;
    }
