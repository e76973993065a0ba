-- ===== src/Cli/Unbroken/Commands.antt =====
-- src/cli-args.ts, `parseCliArguments`: the parsers of the commands never miss an option.
use tasc.Base.{ℕ, refl, List, [], ◌∷◌, ◌==◌, is_empty, Result, ok, require, ◌>>◌, ℕ_discrete}
use tasc.Cli.{CliError, is_option_token, bounded_positive_decimal, canonical_digest}
use tasc.Cli.Commands.{
  parse_runtime, parse_validation, parse_action, parse_assess, parse_cli_arguments, parse_protocol,
  parse_traces, parse_evidence, parse_development, parse_holdout, parse_window, parse_experiment,
  parse_shadow, parse_nominate, parse_confirm,
}
use tasc.Cli.Types.{
  Command, probe_options, protocol_options, traces_options, evidence_options, development_options,
  holdout_options, window_options, experiment_options, shadow_options, nominate_options,
  confirm_options,
}
use tasc.Text.{Text, codes, text_eq, Text-discrete, is_digest}
use tasc.Cli.Unbroken.{
  Unbroken, options-Unbroken, field-Unbroken, bind-Unbroken, error-Unbroken, ok-Unbroken,
  guard-Unbroken, refusal-Unbroken, if-Unbroken,
}

canonical_digest-Unbroken : (t : Text) → Unbroken (canonical_digest t)
unfolding canonical_digest
canonical_digest-Unbroken t =
    guard-Unbroken (is_digest t) CliError.invalid_option_value _ (λ p. cc p) (λ p. cc p)

bounded_positive_decimal-Unbroken :
    (t : Text) (maximum : ℕ) → Unbroken (bounded_positive_decimal t maximum)
unfolding bounded_positive_decimal
bounded_positive_decimal-Unbroken t maximum =
    guard-Unbroken _ CliError.invalid_option_value _ (λ p. cc p)
      (guard-Unbroken _ CliError.invalid_option_value _ (λ p. cc p) (ok-Unbroken _))

parse_protocol-Unbroken : (path : Text) (args : List Text) → Unbroken (parse_protocol path args)
unfolding parse_protocol ℕ_discrete Text-discrete
parse_protocol-Unbroken path args = options-Unbroken protocol_options args _ (λ m h.
    let next = field-Unbroken protocol_options m in
    next (codes "--work-budget") _ h refl (λ work_budget. λ p. cc p))

parse_traces-Unbroken : (path : Text) (args : List Text) → Unbroken (parse_traces path args)
unfolding parse_traces ℕ_discrete Text-discrete
parse_traces-Unbroken path args = options-Unbroken traces_options args _ (λ m h.
    let next = field-Unbroken traces_options m in
    next (codes "--work-budget") _ h refl (λ work_budget. λ p. cc p))

parse_evidence-Unbroken : (path : Text) (args : List Text) → Unbroken (parse_evidence path args)
unfolding parse_evidence ℕ_discrete Text-discrete
parse_evidence-Unbroken path args = options-Unbroken evidence_options args _ (λ m h.
    let next = field-Unbroken evidence_options m in
    next (codes "--trust") _ h refl (λ trust.
      next (codes "--context") _ h refl
        (λ context. next (codes "--work-budget") _ h refl (λ work_budget. λ p. cc p))))

parse_development-Unbroken : (args : List Text) → Unbroken (parse_development args)
unfolding parse_development ℕ_discrete Text-discrete
parse_development-Unbroken args = options-Unbroken development_options args _ (λ m h.
    let next = field-Unbroken development_options m in
    next (codes "--protocol") _ h refl (λ protocol. next (codes "--traces") _ h refl (λ traces.
      next (codes "--evidence") _ h refl (λ evidence. next (codes "--context") _ h refl (λ context.
        next (codes "--trust") _ h refl (λ trust.
          next (codes "--work-budget") _ h refl
            (λ work_budget. next (codes "--out") _ h refl (λ out. λ p. cc p))))))))

parse_holdout-Unbroken : (args : List Text) → Unbroken (parse_holdout args)
unfolding parse_holdout ℕ_discrete Text-discrete
parse_holdout-Unbroken args = options-Unbroken holdout_options args _ (λ m h.
    let next = field-Unbroken holdout_options m in
    next (codes "--protocol") _ h refl (λ protocol. next (codes "--traces") _ h refl (λ traces.
      next (codes "--evidence") _ h refl (λ evidence. next (codes "--context") _ h refl (λ context.
        next (codes "--nomination") _ h refl (λ nomination.
          next (codes "--development-traces") _ h refl (λ development_traces.
            next (codes "--development-evidence") _ h refl (λ development_evidence.
              next (codes "--development-context") _ h refl (λ development_context.
                next (codes "--development-trust") _ h refl (λ development_trust.
                  next (codes "--trust") _ h refl (λ trust.
                    next (codes "--work-budget") _ h refl
                      (λ work_budget. next (codes "--out") _ h refl (λ out. λ p. cc p)))))))))))))

parse_window-Unbroken : (args : List Text) → Unbroken (parse_window args)
unfolding parse_window ℕ_discrete Text-discrete
parse_window-Unbroken args = options-Unbroken window_options args _ (λ m h.
    let next = field-Unbroken window_options m in
    next (codes "--protocol") _ h refl (λ protocol. next (codes "--traces") _ h refl (λ traces.
      next (codes "--evidence") _ h refl (λ evidence. next (codes "--context") _ h refl (λ context.
        next (codes "--policy") _ h refl (λ policy. next (codes "--window") _ h refl (λ window.
          next (codes "--trust") _ h refl (λ trust.
            next (codes "--work-budget") _ h refl
              (λ work_budget. next (codes "--out") _ h refl (λ out. λ p. cc p))))))))))

parse_experiment-Unbroken : (args : List Text) → Unbroken (parse_experiment args)
unfolding parse_experiment ℕ_discrete Text-discrete
parse_experiment-Unbroken args = options-Unbroken experiment_options args _ (λ m h.
    let next = field-Unbroken experiment_options m in
    next (codes "--assessment") _ h refl (λ assessment.
      next (codes "--history") _ h refl (λ history.
        next (codes "--budget") _ h refl
          (λ budget. next (codes "--out") _ h refl (λ out. λ p. cc p)))))

parse_shadow-Unbroken : (args : List Text) → Unbroken (parse_shadow args)
unfolding parse_shadow ℕ_discrete Text-discrete
parse_shadow-Unbroken args = options-Unbroken shadow_options args _ (λ m h.
    let next = field-Unbroken shadow_options m in
    next (codes "--plan") _ h refl (λ plan. next (codes "--plan-digest") _ h refl (λ digest.
      bind-Unbroken (canonical_digest digest) _ (canonical_digest-Unbroken digest)
        (λ expected_plan_digest _. next (codes "--cases") _ h refl (λ cases.
          next (codes "--profiles") _ h refl (λ profiles. next (codes "--trust") _ h refl (λ trust.
            next (codes "--identity") _ h refl
              (λ identity. next (codes "--out") _ h refl (λ out. λ p. cc p)))))))))

parse_nominate-Unbroken : (args : List Text) → Unbroken (parse_nominate args)
unfolding parse_nominate ℕ_discrete Text-discrete
parse_nominate-Unbroken args = options-Unbroken nominate_options args _ (λ m h.
    let next = field-Unbroken nominate_options m in
    next (codes "--spec") _ h refl (λ spec.
      next (codes "--measurements") _ h refl
        (λ measurements. next (codes "--out") _ h refl (λ out. λ p. cc p))))

parse_confirm-Unbroken : (args : List Text) → Unbroken (parse_confirm args)
unfolding parse_confirm ℕ_discrete Text-discrete
parse_confirm-Unbroken args = options-Unbroken confirm_options args _ (λ m h.
    let next = field-Unbroken confirm_options m in
    next (codes "--spec") _ h refl (λ spec. next (codes "--measurements") _ h refl (λ measurements.
      next (codes "--nomination") _ h refl
        (λ nomination. next (codes "--out") _ h refl (λ out. λ p. cc p)))))

parse_runtime-Unbroken : (args : List Text) → Unbroken (parse_runtime args)
unfolding parse_runtime ℕ_discrete Text-discrete
parse_runtime-Unbroken args = options-Unbroken probe_options args _ (λ m h.
    let next = field-Unbroken probe_options m in
    next (codes "--capability") _ h refl (λ capability. next (codes "--effect") _ h refl (λ effect.
      guard-Unbroken _ CliError.invalid_option_value _ (λ p. cc p)
        (guard-Unbroken _ CliError.invalid_option_value _ (λ p. cc p)
          (next (codes "--endpoint") _ h refl (λ endpoint.
            next (codes "--runtime") _ h refl (λ runtime. next (codes "--trust") _ h refl (λ trust.
              next (codes "--deadline-ms") _ h refl (λ deadline.
                bind-Unbroken (bounded_positive_decimal deadline 300_000) _
                  (bounded_positive_decimal-Unbroken deadline 300_000) (λ d _ p. cc p))))))))))

parse_validation-Unbroken :
    (group : Text → List Text → Result CliError Command) (args : List Text)
    → ((path : Text) (args : List Text) → Unbroken (group path args))
    → Unbroken (parse_validation group args)
unfolding parse_validation
parse_validation-Unbroken group [] h = λ p. cc p
parse_validation-Unbroken group (action ∷ []) h =
    guard-Unbroken _ CliError.unknown_action _ (λ p. cc p)
      (error-Unbroken CliError.missing_positional (λ p. cc p))
parse_validation-Unbroken group (action ∷ path ∷ args) h =
    guard-Unbroken _ CliError.unknown_action _ (λ p. cc p)
      (refusal-Unbroken (is_empty path) CliError.missing_positional _ (λ p. cc p)
        (refusal-Unbroken (is_option_token path) CliError.unknown_option _ (λ p. cc p)
          (h path args)))

parse_action-Unbroken :
    (name : Text) (group : List Text → Result CliError Command) (args : List Text)
    → ((args : List Text) → Unbroken (group args))
    → Unbroken (parse_action name group args)
unfolding parse_action
parse_action-Unbroken name group [] h = λ p. cc p
parse_action-Unbroken name group (action ∷ args) h =
    guard-Unbroken (action == name) CliError.unknown_action _ (λ p. cc p) (h args)

parse_assess-Unbroken : (args : List Text) → Unbroken (parse_assess args)
unfolding parse_assess
parse_assess-Unbroken [] = λ p. cc p
parse_assess-Unbroken (action ∷ args) =
    if-Unbroken (action == codes "development") _ _ (parse_development-Unbroken args) (
      if-Unbroken (action == codes "holdout") _ _ (parse_holdout-Unbroken args) (
        if-Unbroken (action == codes "window") _ _ (parse_window-Unbroken args)
          (error-Unbroken CliError.unknown_action (λ p. cc p))))

alone-Unbroken :
    (c : Command) (args : List Text)
    → Unbroken (require (is_empty args) CliError.unexpected_argument >> ok c)
alone-Unbroken c args =
    guard-Unbroken (is_empty args) CliError.unexpected_argument _ (λ p. cc p) (λ p. cc p)

-- No command line makes the parser read an option that its checks did not find: the error that the
-- source calls unreachable is never raised.
pub parse_cli_arguments-Unbroken : (argv : List Text) → Unbroken (parse_cli_arguments argv)
unfolding parse_cli_arguments
parse_cli_arguments-Unbroken [] = λ p. cc p
parse_cli_arguments-Unbroken (command ∷ args) =
    if-Unbroken (command == codes "--help") _ _ (alone-Unbroken Command.help args) (
      if-Unbroken (command == codes "--version") _ _ (alone-Unbroken Command.version args) (
        if-Unbroken (command == codes "protocol") _ _
          (parse_validation-Unbroken parse_protocol args parse_protocol-Unbroken)
          (if-Unbroken (command == codes "traces") _ _
            (parse_validation-Unbroken parse_traces args parse_traces-Unbroken)
            (if-Unbroken (command == codes "evidence") _ _
              (parse_validation-Unbroken parse_evidence args parse_evidence-Unbroken)
              (if-Unbroken (command == codes "assess") _ _ (parse_assess-Unbroken args) (
                if-Unbroken (command == codes "experiment") _ _
                  (parse_action-Unbroken (codes "next") parse_experiment args
                    parse_experiment-Unbroken)
                  (if-Unbroken (command == codes "runtime") _ _
                    (parse_action-Unbroken (codes "probe") parse_runtime args
                      parse_runtime-Unbroken)
                    (if-Unbroken (command == codes "shadow") _ _
                      (parse_action-Unbroken (codes "run") parse_shadow args parse_shadow-Unbroken)
                      (if-Unbroken (command == codes "nominate") _ _ (parse_nominate-Unbroken args)
                        (if-Unbroken (command == codes "confirm") _ _ (parse_confirm-Unbroken args)
                          (error-Unbroken CliError.unknown_command (λ p. cc p))))))))))))
