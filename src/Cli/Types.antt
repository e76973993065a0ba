-- ===== src/Cli/Types.antt =====
-- src/cli-args.ts: the commands, and the options that each takes.
use tasc.Base.{List, [], ◌∷◌, ℕ}
use tasc.Text.{Text, codes}

-- `ParsedCliCommand`.
pub data Command : Type 0 where
  protocol_validate : (protocol work_budget : Text) → Command
  traces_validate : (traces work_budget : Text) → Command
  evidence_validate : (evidence trust context work_budget : Text) → Command
  assess_development : (protocol traces evidence context trust work_budget out : Text) → Command
  assess_holdout :
      (protocol traces evidence context nomination development_traces development_evidence
        development_context development_trust trust work_budget out : Text)
      → Command
  assess_window :
      (protocol traces evidence context policy window trust work_budget out : Text) → Command
  experiment_next : (assessment history budget out : Text) → Command
  runtime_probe :
      (endpoint runtime trust capability observation_effect : Text) (deadline_ms : ℕ) → Command
  shadow_run : (plan expected_plan_digest cases profiles trust identity out : Text) → Command
  legacy_nominate : (spec measurements out : Text) → Command
  legacy_confirm : (spec measurements nomination out : Text) → Command
  help version : Command

abbrev pub protocol_options : List Text
protocol_options = codes "--work-budget" ∷ []

abbrev pub traces_options : List Text
traces_options = codes "--work-budget" ∷ []

abbrev pub evidence_options : List Text
evidence_options = codes "--trust" ∷ codes "--context" ∷ codes "--work-budget" ∷ []

abbrev pub development_options : List Text
development_options =
    codes "--protocol"
    ∷ codes "--traces"
    ∷ codes "--evidence"
    ∷ codes "--context"
    ∷ codes "--trust"
    ∷ codes "--work-budget"
    ∷ codes "--out"
    ∷ []

abbrev pub holdout_options : List Text
holdout_options =
    codes "--protocol"
    ∷ codes "--traces"
    ∷ codes "--evidence"
    ∷ codes "--context"
    ∷ codes "--nomination"
    ∷ codes "--development-traces"
    ∷ codes "--development-evidence"
    ∷ codes "--development-context"
    ∷ codes "--development-trust"
    ∷ codes "--trust"
    ∷ codes "--work-budget"
    ∷ codes "--out"
    ∷ []

abbrev pub window_options : List Text
window_options =
    codes "--protocol"
    ∷ codes "--traces"
    ∷ codes "--evidence"
    ∷ codes "--context"
    ∷ codes "--policy"
    ∷ codes "--window"
    ∷ codes "--trust"
    ∷ codes "--work-budget"
    ∷ codes "--out"
    ∷ []

abbrev pub experiment_options : List Text
experiment_options =
    codes "--assessment" ∷ codes "--history" ∷ codes "--budget" ∷ codes "--out" ∷ []

abbrev pub probe_options : List Text
probe_options =
    codes "--endpoint"
    ∷ codes "--runtime"
    ∷ codes "--trust"
    ∷ codes "--capability"
    ∷ codes "--effect"
    ∷ codes "--deadline-ms"
    ∷ []

abbrev pub shadow_options : List Text
shadow_options =
    codes "--plan"
    ∷ codes "--plan-digest"
    ∷ codes "--cases"
    ∷ codes "--profiles"
    ∷ codes "--trust"
    ∷ codes "--identity"
    ∷ codes "--out"
    ∷ []

abbrev pub nominate_options : List Text
nominate_options = codes "--spec" ∷ codes "--measurements" ∷ codes "--out" ∷ []

abbrev pub confirm_options : List Text
confirm_options =
    codes "--spec" ∷ codes "--measurements" ∷ codes "--nomination" ∷ codes "--out" ∷ []

-- `RUNTIME_PROBE_CAPABILITY_VALUES` and `RUNTIME_PROBE_EFFECT_VALUES`.
abbrev pub capabilities : List Text
capabilities =
    codes "modelDiscovery"
    ∷ codes "liveness"
    ∷ codes "readiness"
    ∷ codes "prometheusMetrics"
    ∷ codes "jsonMetrics"
    ∷ codes "chatCompletions"
    ∷ codes "completions"
    ∷ codes "responses"
    ∷ codes "nativeChat"
    ∷ codes "nativeGenerate"
    ∷ []

abbrev pub effects : List Text
effects = codes "non-mutating" ∷ codes "inference-canary" ∷ codes "consumptive" ∷ []
