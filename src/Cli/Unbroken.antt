-- ===== src/Cli/Unbroken.antt =====
-- src/cli-args.ts: the error that a missing option would raise after the options were checked.
pub mod Commands
use tasc.Base.{
  ℕ, ◌≡◌, ◌≢◌, refl, ap, sym, subst, ◌∙◌, Bool, true, false, ◌&&◌, ◌||◌, List, [], ◌∷◌, Option,
  none, some, ◌==◌, all, any, is_some, is_empty, includes, map_get, map_set, Result, ok, err,
  require, refuse, ◌>>=◌, ◌>>◌, if◌then◌else◌, arith, ℕ_discrete, ==_iff, leb, require-eq-ok,
  >>=-eq-ok, ok-injective,
}
use tasc.Cli.{
  CliError, ParsedOptions, is_option_token, check_option, scan_options, parse_options,
  required_option, bounded_positive_decimal, canonical_digest, is_known, is_value,
}
use tasc.Text.{Text, codes, text_eq, Text-discrete, is_digest}
use tasc.Work.{max_safe_integer}

-- A result that is not the error of `requiredOption`.
abbrev pub Unbroken : {A : Type 0} → Result CliError A → Type 0
Unbroken r = r ≢ err CliError.broken_invariant

pub bind-Unbroken :
    {A B : Type 0} (r : Result CliError A) (f : A → Result CliError B)
    → Unbroken r
    → ((a : A) → r ≡ ok a → Unbroken (f a))
    → Unbroken (r >>= f)
bind-Unbroken (ok a) f h k = k a refl
bind-Unbroken (err e) f h k = λ p. h (cc p)

pub error-Unbroken :
    {A : Type 0} (e : CliError) → e ≢ CliError.broken_invariant → Unbroken {A = A} (err e)
error-Unbroken e h = λ p. h (cc p)

pub ok-Unbroken : {A : Type 0} (a : A) → Unbroken {A = A} (ok a)
ok-Unbroken a = λ p. cc p

pub guard-Unbroken :
    {B : Type 0} (b : Bool) (e : CliError) (k : Result CliError B)
    → e ≢ CliError.broken_invariant
    → Unbroken k
    → Unbroken (require b e >> k)
guard-Unbroken true e k h g = g
guard-Unbroken false e k h g = λ p. h (cc p)

pub refusal-Unbroken :
    {B : Type 0} (b : Bool) (e : CliError) (k : Result CliError B)
    → e ≢ CliError.broken_invariant
    → Unbroken k
    → Unbroken (refuse b e >> k)
refusal-Unbroken false e k h g = g
refusal-Unbroken true e k h g = λ p. h (cc p)

pub if-Unbroken :
    {A : Type 0} (b : Bool) (r q : Result CliError A)
    → Unbroken r
    → Unbroken q
    → Unbroken (if b then r else q)
if-Unbroken true r q h k = h
if-Unbroken false r q h k = k

check_option-Unbroken :
    (allowed : List Text) (values : ParsedOptions) (option : Text)
    → Unbroken (check_option allowed values option)
unfolding check_option
check_option-Unbroken allowed values option =
    guard-Unbroken (is_option_token option) CliError.unexpected_argument _ (λ p. cc p)
      (guard-Unbroken (is_known allowed option) CliError.unknown_option _ (λ p. cc p)
        (last (is_some (map_get option values))))
  where
    last : (b : Bool) → Unbroken (refuse b CliError.duplicate_option)
    last true = λ p. cc p
    last false = λ p. cc p

scan_options-Unbroken :
    (allowed : List Text) (values : ParsedOptions) (args : List Text)
    → Unbroken (scan_options allowed values args)
unfolding scan_options
scan_options-Unbroken allowed values [] = λ p. cc p
scan_options-Unbroken allowed values (option ∷ []) =
    bind-Unbroken (check_option allowed values option) _
      (check_option-Unbroken allowed values option) (λ u _ p. cc p)
scan_options-Unbroken allowed values (option ∷ value ∷ rest) =
    bind-Unbroken (check_option allowed values option) _
      (check_option-Unbroken allowed values option)
      (λ u _.
        guard-Unbroken (is_value value) CliError.missing_option_value _ (λ p. cc p)
          (scan_options-Unbroken allowed (map_set option value values) rest))

all-includes :
    (f : Text → Bool) (ts : List Text) (t : Text)
    → all f ts ≡ true
    → includes ts t ≡ true
    → f t ≡ true
all-includes f [] t h m = absurd (cc m)
all-includes f (u ∷ ts) t h m = ground (arith, h, m, all-includes f ts t)

module _ (known : List Text) where
  -- The options of a command are all there.
  abbrev IsComplete : ParsedOptions → Type 0
  IsComplete m = all (λ option. is_some (map_get option m)) known ≡ true

  pub options-Unbroken :
      {A : Type 0} (args : List Text) (f : ParsedOptions → Result CliError A)
      → ((m : ParsedOptions) → IsComplete m → Unbroken (f m))
      → Unbroken (parse_options known args >>= f)
  unfolding parse_options
  options-Unbroken args f h =
      bind-Unbroken (parse_options known args) f
        (bind-Unbroken (scan_options known [] args) _ (scan_options-Unbroken known [] args) (λ m _.
          guard-Unbroken (all (λ option. is_some (map_get option m)) known)
            CliError.missing_required_option _ (λ p. cc p) (λ p. cc p)))
        (λ m p. h m (complete m p))
    where
      complete : (m : ParsedOptions) → parse_options known args ≡ ok m → IsComplete m
      complete m p =
          let (found, _, q) = >>=-eq-ok (scan_options known [] args) _ p in
          let (whole, same) =
            require-eq-ok (all (λ option. is_some (map_get option found)) known)
              CliError.missing_required_option _ q in
          subst IsComplete (ok-injective same) whole

  pub field-Unbroken :
      {A : Type 0} (m : ParsedOptions) (option : Text) (f : Text → Result CliError A)
      → IsComplete m
      → includes known option ≡ true
      → ((value : Text) → Unbroken (f value))
      → Unbroken (required_option m option >>= f)
  unfolding required_option
  field-Unbroken m option f h i k =
      go (map_get option m) (all-includes (λ o. is_some (map_get o m)) known option h i)
    where
      go :
          (o : Option Text)
          → is_some o ≡ true
          → Unbroken
              ((elim o [ none ↦ err CliError.broken_invariant | some value ↦ ok value ]) >>= f)
      go none p = absurd (cc p)
      go (some v) p = k v
