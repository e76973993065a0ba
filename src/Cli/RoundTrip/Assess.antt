-- ===== src/Cli/RoundTrip/Assess.antt =====
-- src/cli-args.ts, `parseAssessCommand`: the options of an assessment are read as they are.
use tasc.Base.{◌≡◌, refl, true, [], ◌∷◌, All, map_get, ok, ℕ_discrete}
use tasc.Cli.{is_value, required_option}
use tasc.Cli.Commands.{parse_development, parse_holdout, parse_window}
use tasc.Cli.Types.{Command, development_options, holdout_options, window_options}
use tasc.Cli.Options.{render}
use tasc.Cli.Print.{pair_up}
use tasc.Text.{Text, text_eq, Text-discrete}
use tasc.Cli.RoundTrip.{read-pairs}

pub parse_development-print :
    (protocol traces evidence context trust work_budget out : Text)
    → All
        (λ t. is_value t ≡ true)
        (protocol ∷ traces ∷ evidence ∷ context ∷ trust ∷ work_budget ∷ out ∷ [])
    → parse_development (
        render (
          pair_up development_options
            (protocol ∷ traces ∷ evidence ∷ context ∷ trust ∷ work_budget ∷ out ∷ [])))
      ≡ ok (Command.assess_development protocol traces evidence context trust work_budget out)
unfolding parse_development required_option map_get ℕ_discrete Text-discrete
parse_development-print protocol traces evidence context trust work_budget out h =
    read-pairs development_options
      (protocol ∷ traces ∷ evidence ∷ context ∷ trust ∷ work_budget ∷ out ∷ []) _
      (refl, (refl, (refl, (refl, (refl, (refl, (refl, tt)))))))
      (
        (refl, h.0),
        (
          (refl, h.1.0),
          (
            (refl, h.1.1.0),
            (
              (refl, h.1.1.1.0),
              ((refl, h.1.1.1.1.0), ((refl, h.1.1.1.1.1.0), ((refl, h.1.1.1.1.1.1.0), tt))),
            ),
          ),
        ),
      )
      refl

pub parse_holdout-print :
    (protocol traces evidence context nomination development_traces development_evidence
      development_context development_trust trust work_budget out : Text)
    → All
        (λ t. is_value t ≡ true)
        (protocol ∷ traces ∷ evidence ∷ context ∷ nomination ∷ development_traces
          ∷ development_evidence ∷ development_context ∷ development_trust ∷ trust ∷ work_budget
          ∷ out ∷ [])
    → parse_holdout (
        render (
          pair_up holdout_options (
            protocol ∷ traces ∷ evidence ∷ context ∷ nomination ∷ development_traces
            ∷ development_evidence ∷ development_context ∷ development_trust ∷ trust ∷ work_budget
            ∷ out ∷ [])))
      ≡ ok (
          Command.assess_holdout protocol traces evidence context nomination development_traces
            development_evidence development_context development_trust trust work_budget out)
unfolding parse_holdout required_option map_get ℕ_discrete Text-discrete
parse_holdout-print protocol traces evidence context nomination development_traces
      development_evidence development_context development_trust trust work_budget out h =
    read-pairs holdout_options
      (protocol ∷ traces ∷ evidence ∷ context ∷ nomination ∷ development_traces
        ∷ development_evidence ∷ development_context ∷ development_trust ∷ trust ∷ work_budget ∷ out
        ∷ [])
      _
      (
        refl,
        (refl, (refl, (refl, (refl, (refl, (refl, (refl, (refl, (refl, (refl, (refl, tt))))))))))),
      )
      (
        (refl, h.0),
        (
          (refl, h.1.0),
          (
            (refl, h.1.1.0),
            (
              (refl, h.1.1.1.0),
              (
                (refl, h.1.1.1.1.0),
                (
                  (refl, h.1.1.1.1.1.0),
                  (
                    (refl, h.1.1.1.1.1.1.0),
                    (
                      (refl, h.1.1.1.1.1.1.1.0),
                      (
                        (refl, h.1.1.1.1.1.1.1.1.0),
                        (
                          (refl, h.1.1.1.1.1.1.1.1.1.0),
                          (
                            (refl, h.1.1.1.1.1.1.1.1.1.1.0),
                            ((refl, h.1.1.1.1.1.1.1.1.1.1.1.0), tt),
                          ),
                        ),
                      ),
                    ),
                  ),
                ),
              ),
            ),
          ),
        ),
      )
      refl

pub parse_window-print :
    (protocol traces evidence context policy window trust work_budget out : Text)
    → All
        (λ t. is_value t ≡ true)
        (protocol ∷ traces ∷ evidence ∷ context ∷ policy ∷ window ∷ trust ∷ work_budget ∷ out ∷ [])
    → parse_window (
        render (
          pair_up window_options (
            protocol ∷ traces ∷ evidence ∷ context ∷ policy ∷ window ∷ trust ∷ work_budget ∷ out
            ∷ [])))
      ≡ ok (
          Command.assess_window protocol traces evidence context policy window trust work_budget
            out)
unfolding parse_window required_option map_get ℕ_discrete Text-discrete
parse_window-print protocol traces evidence context policy window trust work_budget out h =
    read-pairs window_options
      (protocol ∷ traces ∷ evidence ∷ context ∷ policy ∷ window ∷ trust ∷ work_budget ∷ out ∷ []) _
      (refl, (refl, (refl, (refl, (refl, (refl, (refl, (refl, (refl, tt)))))))))
      (
        (refl, h.0),
        (
          (refl, h.1.0),
          (
            (refl, h.1.1.0),
            (
              (refl, h.1.1.1.0),
              (
                (refl, h.1.1.1.1.0),
                (
                  (refl, h.1.1.1.1.1.0),
                  (
                    (refl, h.1.1.1.1.1.1.0),
                    ((refl, h.1.1.1.1.1.1.1.0), ((refl, h.1.1.1.1.1.1.1.1.0), tt)),
                  ),
                ),
              ),
            ),
          ),
        ),
      )
      refl
