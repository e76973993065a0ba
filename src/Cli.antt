-- ===== src/Cli.antt =====
-- src/cli-args.ts: the options of the command line. A command line is the list of its arguments.
pub mod Types
pub mod Commands
pub mod Options
pub mod Print
pub mod RoundTrip
pub mod Decimal
pub mod Unbroken
use tasc.Base.{
  ℕ, ◌+◌, ◌-◌, ◌*◌, Bool, true, false, not, ◌&&◌, ◌||◌, List, [], ◌∷◌, Option, none, some, leb,
  ◌==◌, nat_eq, is_empty, is_some, all, includes, map_get, map_set, if◌then◌else◌, Result, ok, err,
  require, refuse, each, ◌>>=◌, ◌>>◌,
}
use tasc.Text.{Text, codes, text_eq, is_digest}
use tasc.Work.{max_safe_integer}

-- `CliArgumentErrorCode`; the last is the error that `requiredOption` throws instead.
pub data CliError : Type 0 where
  missing_command unknown_command missing_action unknown_action missing_positional : CliError
  unexpected_argument unknown_option duplicate_option missing_option_value : CliError
  invalid_option_value missing_required_option broken_invariant : CliError

-- `ParsedOptions`.
abbrev pub ParsedOptions : Type 0
ParsedOptions = List (Text × Text)

abbrev pub starts_with : Text → Text → Bool
starts_with [] t = true
starts_with (p ∷ prefix) [] = false
starts_with (p ∷ prefix) (c ∷ t) = c == p && starts_with prefix t

abbrev pub is_option_token : Text → Bool
is_option_token value = starts_with (codes "-") value

-- The options that a command knows.
abbrev pub is_known : List Text → Text → Bool
is_known allowed option =
    starts_with (codes "--") option && (not (includes option b'=') && includes allowed option)

abbrev pub is_value : Text → Bool
is_value value = not (is_empty value) && not (is_option_token value)

-- The guards on an option, before its value is read.
unfoldable pub check_option : List Text → ParsedOptions → Text → Result CliError (Unit {0})
check_option allowed values option = do
  require (is_option_token option) CliError.unexpected_argument
  require (is_known allowed option) CliError.unknown_option
  refuse (is_some (map_get option values)) CliError.duplicate_option

-- The loop over the arguments.
unfoldable pub scan_options : List Text → ParsedOptions → List Text → Result CliError ParsedOptions
unfolding check_option
scan_options allowed values [] = ok values
scan_options allowed values (option ∷ []) = do
  check_option allowed values option
  err CliError.missing_option_value
scan_options allowed values (option ∷ value ∷ rest) = do
  check_option allowed values option
  require (is_value value) CliError.missing_option_value
  scan_options allowed (map_set option value values) rest

-- `parseOptions`, on the arguments from `startIndex` on.
unfoldable pub parse_options : List Text → List Text → Result CliError ParsedOptions
unfolding scan_options
parse_options required args = do
  values ← scan_options required [] args
  require (all (λ option. is_some (map_get option values)) required)
      CliError.missing_required_option
  ok values

-- `requiredOption`.
unfoldable pub required_option : ParsedOptions → Text → Result CliError Text
required_option options option = elim (map_get option options) [
  | none ↦ err CliError.broken_invariant
  | some value ↦ ok value
]

abbrev pub is_digit : ℕ → Bool
is_digit c = leb b'0' c && leb c b'9'

-- The test of `/^[1-9][0-9]*$/`.
abbrev pub is_positive_decimal : Text → Bool
is_positive_decimal [] = false
is_positive_decimal (c ∷ t) = (leb b'1' c && leb c b'9') && all is_digit t

-- `Number(value)` of decimal digits, as far as it is a safe integer.
abbrev pub decimal : ℕ → Text → ℕ
decimal acc [] = acc
decimal acc (c ∷ t) = decimal (acc * 10 + (c - b'0')) t

-- `boundedPositiveDecimal`.
unfoldable pub bounded_positive_decimal : Text → ℕ → Result CliError ℕ
bounded_positive_decimal value maximum = do
  require (is_positive_decimal value) CliError.invalid_option_value
  require (leb (decimal 0 value) max_safe_integer && leb (decimal 0 value) maximum)
      CliError.invalid_option_value
  ok (decimal 0 value)

-- `canonicalSha256Digest`.
unfoldable pub canonical_digest : Text → Result CliError Text
canonical_digest value = do require (is_digest value) CliError.invalid_option_value; ok value
