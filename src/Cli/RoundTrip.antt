-- ===== src/Cli/RoundTrip.antt =====
-- src/cli-args.ts: the options of a command, in order, are read as they are.
pub mod Assess
pub mod Commands
use tasc.Base.{
  ℕ, ◌≤◌, ◌≡◌, refl, ap, ◌∙◌, true, List, [], ◌∷◌, All, all, is_some, includes, map_get, Result, ok,
  ◌>>=◌, require-of, arith, ℕ_discrete,
}
use tasc.Cli.{
  CliError, ParsedOptions, is_value, parse_options, required_option, canonical_digest,
  bounded_positive_decimal,
}
use tasc.Cli.Commands.{
  parse_cli_arguments, parse_validation, parse_action, parse_assess, parse_runtime, parse_protocol,
  parse_traces, parse_evidence, parse_development, parse_holdout, parse_window, parse_experiment,
  parse_shadow, parse_nominate, parse_confirm,
}
use tasc.Cli.Types.{
  Command, probe_options, capabilities, effects, protocol_options, traces_options, evidence_options,
  development_options, holdout_options, window_options, experiment_options, shadow_options,
  nominate_options, confirm_options,
}
use tasc.Cli.Decimal.{bounded_positive_decimal-show}
use tasc.Cli.Options.{render, AreNew, IsOption, parse_options_iff}
use tasc.Cli.Print.{show, pair_up, texts, print, HasValues, IsCommand}
use tasc.Text.{Text, codes, text_eq, Text-discrete, is_digest}

pub read-pairs :
    {A : Type 0} (known values : List Text) (f : ParsedOptions → Result CliError A)
    → AreNew [] (pair_up known values)
    → All (IsOption known) (pair_up known values)
    → all (λ option. is_some (map_get option (pair_up known values))) known ≡ true
    → (parse_options known (render (pair_up known values)) >>= f) ≡ f (pair_up known values)
read-pairs known values f fresh options complete =
    ap (λ r. r >>= f)
      ((parse_options_iff known (render (pair_up known values)) (pair_up known values)).1
        record { shown = refl; fresh = fresh; options = options; complete = complete })
