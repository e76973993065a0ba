-- ===== src/Cli/Print.antt =====
-- The command line of each command of src/cli-args.ts, and the values that it can state.
use tasc.Base.{
  ℕ, ◌+◌, ◌/◌, ◌%◌, zero, suc, ◌≤◌, ◌≡◌, true, List, [], ◌∷◌, ◌++◌, All, ltb, includes,
  if◌then◌else◌,
}
use tasc.Cli.{ParsedOptions, is_value}
use tasc.Cli.Types.{
  Command, probe_options, capabilities, effects, protocol_options, traces_options, evidence_options,
  development_options, holdout_options, window_options, experiment_options, shadow_options,
  nominate_options, confirm_options,
}
use tasc.Cli.Options.{render}
use tasc.Text.{Text, codes, text_eq, is_digest}

-- Decimal digits, in at most that many rounds.
unfoldable pub show : ℕ → ℕ → Text
show zero n = []
show (suc rounds) n =
    let front = show rounds (n / 10) in
    if ltb n 10 then (b'0' + n) ∷ [] else front ++ (b'0' + n % 10) ∷ []

-- Each option with its value.
abbrev pub pair_up : List Text → List Text → ParsedOptions
pair_up [] values = []
pair_up (option ∷ options) [] = []
pair_up (option ∷ options) (value ∷ values) = (option, value) ∷ pair_up options values

-- The texts that a command states.
unfoldable pub texts : Command → List Text
texts (Command.protocol_validate protocol work_budget) = protocol ∷ work_budget ∷ []
texts (Command.traces_validate traces work_budget) = traces ∷ work_budget ∷ []
texts (Command.evidence_validate evidence trust context work_budget) =
    evidence ∷ trust ∷ context ∷ work_budget ∷ []
texts (Command.assess_development protocol traces evidence context trust work_budget out) =
    protocol ∷ traces ∷ evidence ∷ context ∷ trust ∷ work_budget ∷ out ∷ []
texts
      (Command.assess_holdout protocol traces evidence context nomination development_traces
        development_evidence development_context development_trust trust work_budget out) =
    protocol ∷ traces ∷ evidence ∷ context ∷ nomination ∷ development_traces ∷ development_evidence
    ∷ development_context ∷ development_trust ∷ trust ∷ work_budget ∷ out ∷ []
texts (Command.assess_window protocol traces evidence context policy window trust work_budget out) =
    protocol ∷ traces ∷ evidence ∷ context ∷ policy ∷ window ∷ trust ∷ work_budget ∷ out ∷ []
texts (Command.experiment_next assessment history budget out) =
    assessment ∷ history ∷ budget ∷ out ∷ []
texts (Command.shadow_run plan expected_plan_digest cases profiles trust identity out) =
    plan ∷ expected_plan_digest ∷ cases ∷ profiles ∷ trust ∷ identity ∷ out ∷ []
texts (Command.legacy_nominate spec measurements out) = spec ∷ measurements ∷ out ∷ []
texts (Command.legacy_confirm spec measurements nomination out) =
    spec ∷ measurements ∷ nomination ∷ out ∷ []
texts (Command.runtime_probe endpoint runtime trust capability observation_effect deadline_ms) =
    endpoint ∷ runtime ∷ trust ∷ capability ∷ observation_effect ∷ show 6 deadline_ms ∷ []
texts Command.help = []
texts Command.version = []

-- Its arguments, in the order of its usage.
unfoldable pub print : Command → List Text
unfolding show
print (Command.protocol_validate protocol work_budget) =
    codes "protocol"
    ∷ codes "validate"
    ∷ protocol
    ∷ render (pair_up protocol_options (work_budget ∷ []))
print (Command.traces_validate traces work_budget) =
    codes "traces" ∷ codes "validate" ∷ traces ∷ render (pair_up traces_options (work_budget ∷ []))
print (Command.evidence_validate evidence trust context work_budget) =
    codes "evidence"
    ∷ codes "validate"
    ∷ evidence
    ∷ render (pair_up evidence_options (trust ∷ context ∷ work_budget ∷ []))
print (Command.assess_development protocol traces evidence context trust work_budget out) =
    codes "assess"
    ∷ codes "development"
    ∷ render (
        pair_up development_options
          (protocol ∷ traces ∷ evidence ∷ context ∷ trust ∷ work_budget ∷ out ∷ []))
print
      (Command.assess_holdout protocol traces evidence context nomination development_traces
        development_evidence development_context development_trust trust work_budget out) =
    codes "assess"
    ∷ codes "holdout"
    ∷ render (
        pair_up holdout_options (
          protocol ∷ traces ∷ evidence ∷ context ∷ nomination ∷ development_traces
          ∷ development_evidence ∷ development_context ∷ development_trust ∷ trust ∷ work_budget
          ∷ out ∷ []))
print (Command.assess_window protocol traces evidence context policy window trust work_budget out) =
    codes "assess"
    ∷ codes "window"
    ∷ render (
        pair_up window_options (
          protocol ∷ traces ∷ evidence ∷ context ∷ policy ∷ window ∷ trust ∷ work_budget ∷ out
          ∷ []))
print (Command.experiment_next assessment history budget out) =
    codes "experiment"
    ∷ codes "next"
    ∷ render (pair_up experiment_options (assessment ∷ history ∷ budget ∷ out ∷ []))
print (Command.shadow_run plan expected_plan_digest cases profiles trust identity out) =
    codes "shadow"
    ∷ codes "run"
    ∷ render (
        pair_up shadow_options
          (plan ∷ expected_plan_digest ∷ cases ∷ profiles ∷ trust ∷ identity ∷ out ∷ []))
print (Command.legacy_nominate spec measurements out) =
    codes "nominate" ∷ render (pair_up nominate_options (spec ∷ measurements ∷ out ∷ []))
print (Command.legacy_confirm spec measurements nomination out) =
    codes "confirm" ∷ render (pair_up confirm_options (spec ∷ measurements ∷ nomination ∷ out ∷ []))
print (Command.runtime_probe endpoint runtime trust capability observation_effect deadline_ms) =
    codes "runtime"
    ∷ codes "probe"
    ∷ render (
        pair_up probe_options
          (endpoint ∷ runtime ∷ trust ∷ capability ∷ observation_effect ∷ show 6 deadline_ms ∷ []))
print Command.help = codes "--help" ∷ []
print Command.version = codes "--version" ∷ []

-- The values that are not paths.
unfoldable pub HasValues : Command → Type 0
HasValues (Command.runtime_probe endpoint runtime trust capability observation_effect deadline_ms) =
    (includes capabilities capability ≡ true)
    × (includes effects observation_effect ≡ true)
    × (1 ≤ deadline_ms)
    × (deadline_ms ≤ 300_000)
HasValues (Command.shadow_run plan expected_plan_digest cases profiles trust identity out) =
    is_digest expected_plan_digest ≡ true
HasValues c = Unit

-- A command whose texts are not empty and do not begin with a dash.
pub record IsCommand (c : Command) : Type 0 where
  pub stated : All (λ t. is_value t ≡ true) (texts c)
  pub values : HasValues c
