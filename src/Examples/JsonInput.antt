-- ===== src/Examples/JsonInput.antt =====
-- The theorems on the scanner of JSON texts, at a concrete text.
use tasc.Base.{◌≡◌, refl, some, true, ok, err, Result, ℕ_discrete}
use tasc.JsonInput.{JsonInputOptions, InputError}
use tasc.JsonInput.Accepted.{Accepted, parse_json_bytes-Accepted}
use tasc.JsonInput.Parse.{ParseOptions, parse_json_bytes}
use tasc.Stream.Json.{null}
use tasc.Stream.Utf8.{decode_utf8}
use tasc.JsonInput.Machine.{validate_json_grammar}
use tasc.JsonInput.Progress.{validate_json_grammar-ends}
use tasc.Text.{Text, codes, Text-discrete}

abbrev options : JsonInputOptions
options = record {
  limits = record {
    json_bytes = 256;
    depth = 2;
    object_keys = 4;
    array_items = 3;
    tokens = 32;
    decoded_string_length = 16;
    numeric_token_length = 8;
    diagnostic_snippet_length = 0;
  };
  is_finite = λ token. true;
}

abbrev source : Text
source = codes " {\"a\": [1, -2.5e3], \"\\u00e9\": true}"

-- A key that occurs twice, once with an escape.
refuses :
    validate_json_grammar options (codes "{\"a\":1,\"\\u0061\":2}")
    ≡ some (err InputError.duplicate_key)
unfolding validate_json_grammar ℕ_discrete Text-discrete
refuses = refl

too_deep : validate_json_grammar options (codes "[[[]]]") ≡ some (err InputError.depth_limit)
unfolding validate_json_grammar ℕ_discrete Text-discrete
too_deep = refl

validate_json_grammar-ends_example :
    (r : Result InputError (Unit {0})) × (validate_json_grammar options source ≡ some r)
validate_json_grammar-ends_example = validate_json_grammar-ends options source

abbrev parsing : ParseOptions
parsing = record {
  scanning = options;
  json_parse = λ text. some null;
  max_line_bytes = 64;
  max_items = 4;
}

parses : parse_json_bytes parsing source ≡ ok null
unfolding parse_json_bytes decode_utf8 validate_json_grammar ℕ_discrete Text-discrete
parses = refl

parse_json_bytes-Accepted_example : Accepted parsing source null
parse_json_bytes-Accepted_example = parse_json_bytes-Accepted parsing source null parses
