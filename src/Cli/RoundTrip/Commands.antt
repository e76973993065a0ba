-- ===== src/Cli/RoundTrip/Commands.antt =====
-- src/cli-args.ts: the command line of each command is read as that command.
use tasc.Base.{
  ℕ, ◌≤◌, ◌≡◌, refl, ap, ◌∙◌, true, List, [], ◌∷◌, All, includes, map_get, Result, ok, ◌>>=◌,
  require-of, arith, ℕ_discrete,
}
use tasc.Cli.{CliError, is_value, required_option, canonical_digest, bounded_positive_decimal}
use tasc.Cli.Commands.{
  parse_cli_arguments, parse_validation, parse_action, parse_assess, parse_runtime, parse_protocol,
  parse_traces, parse_evidence, parse_experiment, parse_shadow, parse_nominate, parse_confirm,
}
use tasc.Cli.Types.{
  Command, probe_options, capabilities, effects, protocol_options, traces_options, evidence_options,
  experiment_options, shadow_options, nominate_options, confirm_options,
}
use tasc.Cli.Decimal.{bounded_positive_decimal-show}
use tasc.Cli.Options.{render}
use tasc.Cli.Print.{show, pair_up, texts, print, HasValues, IsCommand}
use tasc.Text.{Text, codes, text_eq, Text-discrete, is_digest}
use tasc.Cli.RoundTrip.{read-pairs}
use tasc.Cli.RoundTrip.Assess.{parse_development-print, parse_holdout-print, parse_window-print}

parse_protocol-print :
    (protocol work_budget : Text)
    → All (λ t. is_value t ≡ true) (protocol ∷ work_budget ∷ [])
    → parse_protocol protocol (render (pair_up protocol_options (work_budget ∷ [])))
      ≡ ok (Command.protocol_validate protocol work_budget)
unfolding parse_protocol required_option map_get ℕ_discrete Text-discrete
parse_protocol-print protocol work_budget h =
    read-pairs protocol_options (work_budget ∷ []) _ (refl, tt) ((refl, h.1.0), tt) refl

parse_traces-print :
    (traces work_budget : Text)
    → All (λ t. is_value t ≡ true) (traces ∷ work_budget ∷ [])
    → parse_traces traces (render (pair_up traces_options (work_budget ∷ [])))
      ≡ ok (Command.traces_validate traces work_budget)
unfolding parse_traces required_option map_get ℕ_discrete Text-discrete
parse_traces-print traces work_budget h =
    read-pairs traces_options (work_budget ∷ []) _ (refl, tt) ((refl, h.1.0), tt) refl

parse_evidence-print :
    (evidence trust context work_budget : Text)
    → All (λ t. is_value t ≡ true) (evidence ∷ trust ∷ context ∷ work_budget ∷ [])
    → parse_evidence evidence
        (render (pair_up evidence_options (trust ∷ context ∷ work_budget ∷ [])))
      ≡ ok (Command.evidence_validate evidence trust context work_budget)
unfolding parse_evidence required_option map_get ℕ_discrete Text-discrete
parse_evidence-print evidence trust context work_budget h =
    read-pairs evidence_options (trust ∷ context ∷ work_budget ∷ []) _ (refl, (refl, (refl, tt)))
      ((refl, h.1.0), ((refl, h.1.1.0), ((refl, h.1.1.1.0), tt))) refl

parse_experiment-print :
    (assessment history budget out : Text)
    → All (λ t. is_value t ≡ true) (assessment ∷ history ∷ budget ∷ out ∷ [])
    → parse_experiment
        (render (pair_up experiment_options (assessment ∷ history ∷ budget ∷ out ∷ [])))
      ≡ ok (Command.experiment_next assessment history budget out)
unfolding parse_experiment required_option map_get ℕ_discrete Text-discrete
parse_experiment-print assessment history budget out h =
    read-pairs experiment_options (assessment ∷ history ∷ budget ∷ out ∷ []) _
      (refl, (refl, (refl, (refl, tt))))
      ((refl, h.0), ((refl, h.1.0), ((refl, h.1.1.0), ((refl, h.1.1.1.0), tt)))) refl

canonical_digest-of :
    {A : Type 0} (t : Text) (f : Text → Result CliError A)
    → is_digest t ≡ true
    → (canonical_digest t >>= f) ≡ f t
unfolding canonical_digest
canonical_digest-of t f h = ground (arith, h)

parse_shadow-print :
    (plan expected_plan_digest cases profiles trust identity out : Text)
    → All
        (λ t. is_value t ≡ true)
        (plan ∷ expected_plan_digest ∷ cases ∷ profiles ∷ trust ∷ identity ∷ out ∷ [])
    → is_digest expected_plan_digest ≡ true
    → parse_shadow (
        render (
          pair_up shadow_options
            (plan ∷ expected_plan_digest ∷ cases ∷ profiles ∷ trust ∷ identity ∷ out ∷ [])))
      ≡ ok (Command.shadow_run plan expected_plan_digest cases profiles trust identity out)
unfolding parse_shadow required_option map_get ℕ_discrete Text-discrete
parse_shadow-print plan expected_plan_digest cases profiles trust identity out h d =
    read-pairs shadow_options
      (plan ∷ expected_plan_digest ∷ cases ∷ profiles ∷ trust ∷ identity ∷ out ∷ []) _
      (refl, (refl, (refl, (refl, (refl, (refl, (refl, tt)))))))
      (
        (refl, h.0),
        (
          (refl, h.1.0),
          (
            (refl, h.1.1.0),
            (
              (refl, h.1.1.1.0),
              ((refl, h.1.1.1.1.0), ((refl, h.1.1.1.1.1.0), ((refl, h.1.1.1.1.1.1.0), tt))),
            ),
          ),
        ),
      )
      refl
    ∙ canonical_digest-of expected_plan_digest _ d

parse_nominate-print :
    (spec measurements out : Text)
    → All (λ t. is_value t ≡ true) (spec ∷ measurements ∷ out ∷ [])
    → parse_nominate (render (pair_up nominate_options (spec ∷ measurements ∷ out ∷ [])))
      ≡ ok (Command.legacy_nominate spec measurements out)
unfolding parse_nominate required_option map_get ℕ_discrete Text-discrete
parse_nominate-print spec measurements out h =
    read-pairs nominate_options (spec ∷ measurements ∷ out ∷ []) _ (refl, (refl, (refl, tt)))
      ((refl, h.0), ((refl, h.1.0), ((refl, h.1.1.0), tt))) refl

parse_confirm-print :
    (spec measurements nomination out : Text)
    → All (λ t. is_value t ≡ true) (spec ∷ measurements ∷ nomination ∷ out ∷ [])
    → parse_confirm (render (pair_up confirm_options (spec ∷ measurements ∷ nomination ∷ out ∷ [])))
      ≡ ok (Command.legacy_confirm spec measurements nomination out)
unfolding parse_confirm required_option map_get ℕ_discrete Text-discrete
parse_confirm-print spec measurements nomination out h =
    read-pairs confirm_options (spec ∷ measurements ∷ nomination ∷ out ∷ []) _
      (refl, (refl, (refl, (refl, tt))))
      ((refl, h.0), ((refl, h.1.0), ((refl, h.1.1.0), ((refl, h.1.1.1.0), tt)))) refl

bounded_positive_decimal-read :
    {A : Type 0} (n : ℕ) (f : ℕ → Result CliError A)
    → 1 ≤ n
    → n ≤ 300_000
    → (bounded_positive_decimal (show 6 n) 300_000 >>= f) ≡ f n
bounded_positive_decimal-read n f p h =
    ap (λ r. r >>= f) (bounded_positive_decimal-show n 300_000 p h (omega arith))

parse_runtime-print :
    (endpoint runtime trust capability observation_effect : Text) (deadline_ms : ℕ)
    → All
        (λ t. is_value t ≡ true)
        (endpoint ∷ runtime ∷ trust ∷ capability ∷ observation_effect ∷ show 6 deadline_ms ∷ [])
    → includes capabilities capability ≡ true
    → includes effects observation_effect ≡ true
    → 1 ≤ deadline_ms
    → deadline_ms ≤ 300_000
    → parse_runtime (
        render (
          pair_up probe_options (
            endpoint
            ∷ runtime
            ∷ trust
            ∷ capability
            ∷ observation_effect
            ∷ show 6 deadline_ms
            ∷ [])))
      ≡ ok (Command.runtime_probe endpoint runtime trust capability observation_effect deadline_ms)
unfolding parse_runtime required_option map_get ℕ_discrete Text-discrete
parse_runtime-print endpoint runtime trust capability observation_effect deadline_ms h known effect
      positive small =
    read-pairs probe_options
      (endpoint ∷ runtime ∷ trust ∷ capability ∷ observation_effect ∷ show 6 deadline_ms ∷ []) _
      (refl, (refl, (refl, (refl, (refl, (refl, tt))))))
      (
        (refl, h.0),
        (
          (refl, h.1.0),
          (
            (refl, h.1.1.0),
            ((refl, h.1.1.1.0), ((refl, h.1.1.1.1.0), ((refl, h.1.1.1.1.1.0), tt))),
          ),
        ),
      )
      refl
    ∙ require-of (includes capabilities capability) CliError.invalid_option_value _ known
    ∙ require-of (includes effects observation_effect) CliError.invalid_option_value _ effect
    ∙ bounded_positive_decimal-read deadline_ms _ positive small

parse_validation-of :
    (group : Text → List Text → Result CliError Command) (path : Text) (args : List Text)
    → is_value path ≡ true
    → parse_validation group (codes "validate" ∷ path ∷ args) ≡ group path args
unfolding parse_validation ℕ_discrete Text-discrete
parse_validation-of group path args h = ground (arith, h)

-- Every command whose texts are not empty and do not begin with a dash, and whose capability, effect,
-- deadline and digest are of their formats, is what its own command line is read as.
pub parse_cli_arguments-print : (c : Command) → IsCommand c → parse_cli_arguments (print c) ≡ ok c
unfolding parse_cli_arguments parse_action parse_assess print texts HasValues ℕ_discrete
    Text-discrete
parse_cli_arguments-print (Command.protocol_validate protocol work_budget) h =
    parse_validation-of parse_protocol protocol
      (render (pair_up protocol_options (work_budget ∷ []))) h.stated.0
    ∙ parse_protocol-print protocol work_budget h.stated
parse_cli_arguments-print (Command.traces_validate traces work_budget) h =
    parse_validation-of parse_traces traces (render (pair_up traces_options (work_budget ∷ [])))
      h.stated.0
    ∙ parse_traces-print traces work_budget h.stated
parse_cli_arguments-print (Command.evidence_validate evidence trust context work_budget) h =
    parse_validation-of parse_evidence evidence
      (render (pair_up evidence_options (trust ∷ context ∷ work_budget ∷ []))) h.stated.0
    ∙ parse_evidence-print evidence trust context work_budget h.stated
parse_cli_arguments-print
      (Command.assess_development protocol traces evidence context trust work_budget out) h =
    parse_development-print protocol traces evidence context trust work_budget out h.stated
parse_cli_arguments-print
      (Command.assess_holdout protocol traces evidence context nomination development_traces
        development_evidence development_context development_trust trust work_budget out)
      h =
    parse_holdout-print protocol traces evidence context nomination development_traces
      development_evidence development_context development_trust trust work_budget out h.stated
parse_cli_arguments-print
      (Command.assess_window protocol traces evidence context policy window trust work_budget out)
      h =
    parse_window-print protocol traces evidence context policy window trust work_budget out h.stated
parse_cli_arguments-print (Command.experiment_next assessment history budget out) h =
    parse_experiment-print assessment history budget out h.stated
parse_cli_arguments-print
      (Command.shadow_run plan expected_plan_digest cases profiles trust identity out) h =
    parse_shadow-print plan expected_plan_digest cases profiles trust identity out h.stated h.values
parse_cli_arguments-print (Command.legacy_nominate spec measurements out) h =
    parse_nominate-print spec measurements out h.stated
parse_cli_arguments-print (Command.legacy_confirm spec measurements nomination out) h =
    parse_confirm-print spec measurements nomination out h.stated
parse_cli_arguments-print
      (Command.runtime_probe endpoint runtime trust capability observation_effect deadline_ms) h =
    parse_runtime-print endpoint runtime trust capability observation_effect deadline_ms h.stated
      h.values.0 h.values.1 h.values.2 h.values.3
parse_cli_arguments-print Command.help h = refl
parse_cli_arguments-print Command.version h = refl
