-- ===== src/Cli/Options.antt =====
-- src/cli-args.ts, `parseOptions`: which arguments are accepted.
use tasc.Base.{
  ◌≡◌, refl, ap, sym, subst, ◌∙◌, ◌↔◌, Bool, true, false, List, [], ◌∷◌, ◌++◌, Option, none, some,
  All, all, is_some, nat_eq, map_get, map_set, Result, ok, err, require, refuse, ◌>>=◌, ◌>>◌,
  >>=-eq-ok, ok-injective, require-eq-ok, require-of, arith,
}
use tasc.Cli.{
  CliError, ParsedOptions, is_known, is_value, is_option_token, check_option, scan_options,
  parse_options,
}
use tasc.Stream.Bytes.{append_assoc, append_nil}
use tasc.Text.{Text, text_eq}

-- The arguments that name these options with their values, in order.
abbrev pub render : ParsedOptions → List Text
render [] = []
render ((option, value) ∷ more) = option ∷ value ∷ render more

-- No option is among the ones before it.
abbrev pub AreNew : ParsedOptions → ParsedOptions → Type 0
AreNew before [] = Unit
AreNew before ((option, value) ∷ more) =
    (map_get option before ≡ none) × AreNew (before ++ (option, value) ∷ []) more

abbrev pub IsOption : List Text → Text × Text → Type 0
IsOption allowed o = (is_known allowed o.0 ≡ true) × (is_value o.1 ≡ true)

map_set-new :
    (option value : Text) (m : ParsedOptions)
    → map_get option m ≡ none
    → map_set option value m ≡ m ++ (option, value) ∷ []
unfolding map_get map_set
map_set-new option value [] h = refl
map_set-new option value ((j, w) ∷ m) h = ground (arith, h, map_set-new option value m)

is_none-eq : {A : Type 0} (o : Option A) → is_some o ≡ false → o ≡ none
is_none-eq none h = refl
is_none-eq (some a) h = absurd (cc h)

known-token :
    (allowed : List Text) (t : Text) → is_known allowed t ≡ true → is_option_token t ≡ true
known-token allowed [] h = absurd (cc h)
known-token allowed (c ∷ t) h = ground (arith, h)

refused : (b : Bool) (e : CliError) {u : Unit {0}} → refuse b e ≡ ok u → b ≡ false
refused true e h = absurd (cc h)
refused false e h = refl

module _ (allowed : List Text) where
  check_option-parts :
      (values : ParsedOptions) (option : Text) {B : Type 0} (k : Result CliError B) {last : B}
      → (check_option allowed values option >> k) ≡ ok last
      → (is_known allowed option ≡ true) × (map_get option values ≡ none) × (k ≡ ok last)
  unfolding check_option
  check_option-parts values option k e =
      let (_, p, q) = >>=-eq-ok (check_option allowed values option) _ e in
      let (_, p1) = require-eq-ok (is_option_token option) CliError.unexpected_argument _ p in
      let (known, p2) = require-eq-ok (is_known allowed option) CliError.unknown_option _ p1 in
      (
        known,
        is_none-eq (map_get option values)
            (refused (is_some (map_get option values)) CliError.duplicate_option p2),
        q,
      )

  check_option-of :
      (values : ParsedOptions) (option : Text) {B : Type 0} (k : Result CliError B)
      → is_known allowed option ≡ true
      → map_get option values ≡ none
      → (check_option allowed values option >> k) ≡ k
  unfolding check_option
  check_option-of values option k known new =
      let token = known-token allowed option known in grind (arith, token, known, new)

  -- What the loop adds to the options that it was given.
  abbrev Scanned : ParsedOptions → List Text → ParsedOptions → Type 0
  Scanned values args out =
      (more : ParsedOptions) × (out ≡ values ++ more)
      × (args ≡ render more)
      × AreNew values more
      × All (IsOption allowed) more

  scan_options-Scanned :
      (values : ParsedOptions) (args : List Text) (out : ParsedOptions)
      → scan_options allowed values args ≡ ok out
      → Scanned values args out
  unfolding scan_options
  scan_options-Scanned values [] out e =
      ([], sym (ok-injective e) ∙ sym (append_nil values), refl, tt, tt)
  scan_options-Scanned values (option ∷ []) out e =
      let (_, _, q) = check_option-parts values option (err CliError.missing_option_value) e in
      absurd (cc q)
  scan_options-Scanned values (option ∷ value ∷ rest) out e =
      let (known, new, q) = check_option-parts values option _ e in
      let (good, r) = require-eq-ok (is_value value) CliError.missing_option_value _ q in
      let set = map_set-new option value values new in
      let (more, same, shown, fresh, options) =
        scan_options-Scanned (values ++ (option, value) ∷ []) rest out
          (ap (λ m. scan_options allowed m rest) (sym set) ∙ r) in
      (
        (option, value) ∷ more,
        same ∙ append_assoc values ((option, value) ∷ []) more,
        ap (λ xs. option ∷ value ∷ xs) shown,
        (new, fresh),
        ((known, good), options),
      )

  scan_options-render :
      (values more : ParsedOptions)
      → AreNew values more
      → All (IsOption allowed) more
      → scan_options allowed values (render more) ≡ ok (values ++ more)
  unfolding scan_options
  scan_options-render values [] fresh options = ap ok (sym (append_nil values))
  scan_options-render values ((option, value) ∷ more) fresh options =
      let rest = scan_options-render (values ++ (option, value) ∷ []) more fresh.1 options.1 in
      check_option-of values option _ options.0.0 fresh.0
      ∙ require-of (is_value value) CliError.missing_option_value _ options.0.1
      ∙ ap (λ m. scan_options allowed m (render more)) (map_set-new option value values fresh.0)
      ∙ rest
      ∙ ap ok (append_assoc values ((option, value) ∷ []) more)

-- What the arguments say, for a command with these options.
pub record IsParse (required : List Text) (args : List Text) (values : ParsedOptions) : Type 0 where
  pub shown : args ≡ render values
  pub fresh : AreNew [] values
  pub options : All (IsOption required) values
  pub complete : all (λ option. is_some (map_get option values)) required ≡ true

-- Arguments parse to a list of options with values exactly when they render it, no option occurs twice,
-- each is known, no value is empty or begins with a dash, and every option of the command is there.
pub parse_options_iff :
    (required args : List Text) (values : ParsedOptions)
    → (parse_options required args ≡ ok values) ↔ IsParse required args values
unfolding parse_options
parse_options_iff required args values = (
  λ e.
      let (found, scanned, p) = >>=-eq-ok (scan_options required [] args) _ e in
      let (complete, q) =
        require-eq-ok (all (λ option. is_some (map_get option found)) required)
          CliError.missing_required_option _ p in
      let (more, same, shown, fresh, options) =
        scan_options-Scanned required [] args found scanned in
      let eq : more ≡ values = sym same ∙ ok-injective q in
      subst (IsParse required args) eq record {
        shown = shown;
        fresh = fresh;
        options = options;
        complete =
            subst (λ m. all (λ option. is_some (map_get option m)) required ≡ true) same complete;
      },
  λ p.
      ap
        (λ a. scan_options required [] a >>= λ m.
          require (all (λ option. is_some (map_get option m)) required)
            CliError.missing_required_option
          >> ok m)
        p.shown
      ∙ ap
          (λ r. r >>= λ m.
            require (all (λ option. is_some (map_get option m)) required)
              CliError.missing_required_option
            >> ok m)
          (scan_options-render required [] values p.fresh p.options)
      ∙ require-of (all (λ option. is_some (map_get option values)) required)
          CliError.missing_required_option (ok values) p.complete,
)
