-- ===== src/Examples/Cli.antt =====
-- The theorems on the command line, at concrete arguments.
use tasc.Base.{◌≡◌, ◌≢◌, ◌↔◌, refl, List, [], ◌∷◌, ok, err, map_get, map_set, ℕ_discrete, arith}
use tasc.Cli.{CliError, ParsedOptions, parse_options}
use tasc.Cli.Commands.{parse_cli_arguments}
use tasc.Cli.Types.{Command, experiment_options}
use tasc.Cli.Options.{IsParse, parse_options_iff}
use tasc.Cli.Print.{show, texts, print, HasValues, IsCommand}
use tasc.Cli.RoundTrip.Commands.{parse_cli_arguments-print}
use tasc.Cli.Unbroken.Commands.{parse_cli_arguments-Unbroken}
use tasc.Text.{Text, codes, Text-discrete}

abbrev arguments : List Text
arguments =
    codes "--out"
    ∷ codes "dir"
    ∷ codes "--budget"
    ∷ codes "b"
    ∷ codes "--history"
    ∷ codes "h"
    ∷ codes "--assessment"
    ∷ codes "a"
    ∷ []

abbrev values : ParsedOptions
values =
    (codes "--out", codes "dir")
    ∷ (codes "--budget", codes "b")
    ∷ (codes "--history", codes "h")
    ∷ (codes "--assessment", codes "a")
    ∷ []

accepts : parse_options experiment_options arguments ≡ ok values
unfolding parse_options map_get map_set ℕ_discrete Text-discrete
accepts = refl

twice :
    parse_options experiment_options
      (codes "--out" ∷ codes "dir" ∷ codes "--out" ∷ codes "other" ∷ [])
    ≡ err CliError.duplicate_option
unfolding parse_options map_get map_set ℕ_discrete Text-discrete
twice = refl

parse_options_iff_example :
    (parse_options experiment_options arguments ≡ ok values)
    ↔ IsParse experiment_options arguments values
parse_options_iff_example = parse_options_iff experiment_options arguments values

parse_cli_arguments-Unbroken_example :
    parse_cli_arguments (codes "experiment" ∷ codes "next" ∷ arguments)
    ≢ err CliError.broken_invariant
parse_cli_arguments-Unbroken_example =
    parse_cli_arguments-Unbroken (codes "experiment" ∷ codes "next" ∷ arguments)

abbrev probe : Command
probe =
    Command.runtime_probe (codes "endpoint.json") (codes "ollama.json") (codes "trust.json")
      (codes "liveness") (codes "non-mutating") 5000

probe-IsCommand : IsCommand probe
unfolding texts HasValues show ℕ_discrete Text-discrete
probe-IsCommand = record {
  stated = (refl, (refl, (refl, (refl, (refl, (refl, tt))))));
  values = (refl, refl, omega arith, omega arith);
}

parse_cli_arguments-print_example : parse_cli_arguments (print probe) ≡ ok probe
parse_cli_arguments-print_example = parse_cli_arguments-print probe probe-IsCommand
