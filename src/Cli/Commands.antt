-- ===== src/Cli/Commands.antt =====
-- src/cli-args.ts, `parseCliArguments` and the parsers of the commands.
use tasc.Base.{
  List, [], ◌∷◌, ◌==◌, is_empty, includes, if◌then◌else◌, Result, ok, err, require, refuse, ◌>>=◌,
  ◌>>◌,
}
use tasc.Text.{Text, codes, text_eq}
use tasc.Cli.{
  CliError, is_option_token, parse_options, required_option, bounded_positive_decimal,
  canonical_digest,
}
use tasc.Cli.Types.{
  Command, protocol_options, traces_options, evidence_options, development_options, holdout_options,
  window_options, experiment_options, probe_options, shadow_options, nominate_options,
  confirm_options, capabilities, effects,
}

-- `parseValidationCommand`, after the path, by group.
unfoldable pub parse_protocol : Text → List Text → Result CliError Command
unfolding parse_options required_option
parse_protocol path args = do
  options ← parse_options protocol_options args
  work_budget ← required_option options (codes "--work-budget")
  ok (Command.protocol_validate path work_budget)

unfoldable pub parse_traces : Text → List Text → Result CliError Command
unfolding parse_options required_option
parse_traces path args = do
  options ← parse_options traces_options args
  work_budget ← required_option options (codes "--work-budget")
  ok (Command.traces_validate path work_budget)

unfoldable pub parse_evidence : Text → List Text → Result CliError Command
unfolding parse_options required_option
parse_evidence path args = do
  options ← parse_options evidence_options args
  trust ← required_option options (codes "--trust")
  context ← required_option options (codes "--context")
  work_budget ← required_option options (codes "--work-budget")
  ok (Command.evidence_validate path trust context work_budget)

-- `parseAssessCommand`, after the action.
unfoldable pub parse_development : List Text → Result CliError Command
unfolding parse_options required_option
parse_development args = do
  options ← parse_options development_options args
  protocol ← required_option options (codes "--protocol")
  traces ← required_option options (codes "--traces")
  evidence ← required_option options (codes "--evidence")
  context ← required_option options (codes "--context")
  trust ← required_option options (codes "--trust")
  work_budget ← required_option options (codes "--work-budget")
  out ← required_option options (codes "--out")
  ok (Command.assess_development protocol traces evidence context trust work_budget out)

unfoldable pub parse_holdout : List Text → Result CliError Command
unfolding parse_options required_option
parse_holdout args = do
  options ← parse_options holdout_options args
  protocol ← required_option options (codes "--protocol")
  traces ← required_option options (codes "--traces")
  evidence ← required_option options (codes "--evidence")
  context ← required_option options (codes "--context")
  nomination ← required_option options (codes "--nomination")
  development_traces ← required_option options (codes "--development-traces")
  development_evidence ← required_option options (codes "--development-evidence")
  development_context ← required_option options (codes "--development-context")
  development_trust ← required_option options (codes "--development-trust")
  trust ← required_option options (codes "--trust")
  work_budget ← required_option options (codes "--work-budget")
  out ← required_option options (codes "--out")
  ok (
      Command.assess_holdout protocol traces evidence context nomination development_traces
        development_evidence development_context development_trust trust work_budget out)

unfoldable pub parse_window : List Text → Result CliError Command
unfolding parse_options required_option
parse_window args = do
  options ← parse_options window_options args
  protocol ← required_option options (codes "--protocol")
  traces ← required_option options (codes "--traces")
  evidence ← required_option options (codes "--evidence")
  context ← required_option options (codes "--context")
  policy ← required_option options (codes "--policy")
  window ← required_option options (codes "--window")
  trust ← required_option options (codes "--trust")
  work_budget ← required_option options (codes "--work-budget")
  out ← required_option options (codes "--out")
  ok (Command.assess_window protocol traces evidence context policy window trust work_budget out)

-- `parseExperimentCommand`, after the action.
unfoldable pub parse_experiment : List Text → Result CliError Command
unfolding parse_options required_option
parse_experiment args = do
  options ← parse_options experiment_options args
  assessment ← required_option options (codes "--assessment")
  history ← required_option options (codes "--history")
  budget ← required_option options (codes "--budget")
  out ← required_option options (codes "--out")
  ok (Command.experiment_next assessment history budget out)

-- `parseRuntimeCommand`, after the action.
unfoldable pub parse_runtime : List Text → Result CliError Command
unfolding parse_options required_option bounded_positive_decimal
parse_runtime args = do
  options ← parse_options probe_options args
  capability ← required_option options (codes "--capability")
  observation_effect ← required_option options (codes "--effect")
  require (includes capabilities capability) CliError.invalid_option_value
  require (includes effects observation_effect) CliError.invalid_option_value
  endpoint ← required_option options (codes "--endpoint")
  runtime ← required_option options (codes "--runtime")
  trust ← required_option options (codes "--trust")
  deadline ← required_option options (codes "--deadline-ms")
  deadline_ms ← bounded_positive_decimal deadline 300_000
  ok (Command.runtime_probe endpoint runtime trust capability observation_effect deadline_ms)

-- `parseShadowCommand`, after the action.
unfoldable pub parse_shadow : List Text → Result CliError Command
unfolding parse_options required_option canonical_digest
parse_shadow args = do
  options ← parse_options shadow_options args
  plan ← required_option options (codes "--plan")
  digest ← required_option options (codes "--plan-digest")
  expected_plan_digest ← canonical_digest digest
  cases ← required_option options (codes "--cases")
  profiles ← required_option options (codes "--profiles")
  trust ← required_option options (codes "--trust")
  identity ← required_option options (codes "--identity")
  out ← required_option options (codes "--out")
  ok (Command.shadow_run plan expected_plan_digest cases profiles trust identity out)

-- `parseLegacyNominateCommand` and `parseLegacyConfirmCommand`.
unfoldable pub parse_nominate : List Text → Result CliError Command
unfolding parse_options required_option
parse_nominate args = do
  options ← parse_options nominate_options args
  spec ← required_option options (codes "--spec")
  measurements ← required_option options (codes "--measurements")
  out ← required_option options (codes "--out")
  ok (Command.legacy_nominate spec measurements out)

unfoldable pub parse_confirm : List Text → Result CliError Command
unfolding parse_options required_option
parse_confirm args = do
  options ← parse_options confirm_options args
  spec ← required_option options (codes "--spec")
  measurements ← required_option options (codes "--measurements")
  nomination ← required_option options (codes "--nomination")
  out ← required_option options (codes "--out")
  ok (Command.legacy_confirm spec measurements nomination out)

-- `parseValidationCommand`, on the arguments after the group.
unfoldable pub parse_validation :
    (Text → List Text → Result CliError Command) → List Text → Result CliError Command
parse_validation group [] = err CliError.missing_action
parse_validation group (action ∷ []) = do
  require (action == codes "validate") CliError.unknown_action
  err CliError.missing_positional
parse_validation group (action ∷ path ∷ args) = do
  require (action == codes "validate") CliError.unknown_action
  refuse (is_empty path) CliError.missing_positional
  refuse (is_option_token path) CliError.unknown_option
  group path args

-- A group of one action, on the arguments after the group.
unfoldable pub parse_action :
    Text → (List Text → Result CliError Command) → List Text → Result CliError Command
parse_action name group [] = err CliError.missing_action
parse_action name group (action ∷ args) = do
  require (action == name) CliError.unknown_action
  group args

-- `parseAssessCommand`, on the arguments after the group.
unfoldable pub parse_assess : List Text → Result CliError Command
unfolding parse_development parse_holdout parse_window
parse_assess [] = err CliError.missing_action
parse_assess (action ∷ args) =
    if action == codes "development"
    then parse_development args
    else if action == codes "holdout"
    then parse_holdout args
    else if action == codes "window"
    then parse_window args
    else err CliError.unknown_action

-- A command without arguments.
abbrev alone : Command → List Text → Result CliError Command
alone c args = do require (is_empty args) CliError.unexpected_argument; ok c

-- `parseCliArguments`.
unfoldable pub parse_cli_arguments : List Text → Result CliError Command
unfolding parse_validation parse_action parse_assess parse_protocol parse_traces parse_evidence
    parse_experiment parse_runtime parse_shadow parse_nominate parse_confirm
parse_cli_arguments [] = err CliError.missing_command
parse_cli_arguments (command ∷ args) =
    if command == codes "--help"
    then alone Command.help args
    else if command == codes "--version"
    then alone Command.version args
    else if command == codes "protocol"
    then parse_validation parse_protocol args
    else if command == codes "traces"
    then parse_validation parse_traces args
    else if command == codes "evidence"
    then parse_validation parse_evidence args
    else if command == codes "assess"
    then parse_assess args
    else if command == codes "experiment"
    then parse_action (codes "next") parse_experiment args
    else if command == codes "runtime"
    then parse_action (codes "probe") parse_runtime args
    else if command == codes "shadow"
    then parse_action (codes "run") parse_shadow args
    else if command == codes "nominate"
    then parse_nominate args
    else if command == codes "confirm"
    then parse_confirm args
    else err CliError.unknown_command
