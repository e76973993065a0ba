-- ===== src/Controller/Coherent/Confirmed.antt =====
-- What a coherent snapshot has behind a confirmed policy.
use tasc.Base.{
  ℕ, ◌≡◌, refl, ◌⊎◌, inl, inr, Bool, true, not, ◌&&◌, List, [], ◌∷◌, Option, arith, ltb, ◌==◌,
  nat_eq, is_some, any, includes, each, Result, ok, require, refuse, >>=-eq-ok, holds, All,
}
use tasc.Text.{Text, text_eq}
use tasc.Controller.Types.{
  State, Phase, Status, Assessment, Manifest, SelectedPolicy, SnapshotBody, Snapshot, state_eq,
  phase_eq, status_eq, Phase-discrete, Status-discrete, Contracts,
}
use tasc.Controller.Errors.{
  Error, duplicate_assessment, assessment_protocol, phase_order, assessment_policy, policy_validity,
  policy_nomination,
}
use tasc.Controller.Semantics.{
  Decisions, status_is, phase_rank, same_policy, bad_validity, bad_nomination, check_snapshot,
  check_phase, check_assessments, check_policy, check_state,
}
use tasc.Controller.Coherent.{check_snapshot-Coherent, no_decisions}
use tasc.Controller.Facts.{Sources}
use tasc.Controller.Apply.{apply_event}
use tasc.Controller.Apply.Parts.{apply_event-Applied}
use tasc.Controller.Types.{Event}

abbrev pub is_nomination : Assessment → Bool
is_nomination a = a.phase == Phase.development && a.status == Status.nominated

abbrev pub is_passing_holdout : Assessment → Bool
is_passing_holdout a = a.phase == Phase.holdout && a.status == Status.pass

-- A decision that the loop holds at its end is one that it began with, or one of the list.
phase_holdout :
    (manifests : List (Text × Manifest)) (d : Decisions) (phase : Phase) (a : Assessment)
    {d' : Decisions}
    → a.phase ≡ phase
    → check_phase manifests d phase a ≡ ok d'
    → status_is d'.holdout Status.pass ≡ true
    → (status_is d.holdout Status.pass ≡ true) ⊎ (is_passing_holdout a ≡ true)
unfolding check_phase
phase_holdout manifests d Phase.development a same h pass = inl (ground arith)
phase_holdout manifests d Phase.holdout a same h pass = inr (
    ground (
      arith,
      holds (Phase-discrete a.phase Phase.holdout),
      holds (Status-discrete a.status Status.pass),
    ))
phase_holdout manifests d Phase.window a same h pass = inl (ground arith)

phase_nomination :
    (manifests : List (Text × Manifest)) (d : Decisions) (phase : Phase) (a : Assessment)
    {d' : Decisions}
    → a.phase ≡ phase
    → check_phase manifests d phase a ≡ ok d'
    → status_is d'.development Status.nominated ≡ true
    → (status_is d.development Status.nominated ≡ true) ⊎ (is_nomination a ≡ true)
unfolding check_phase
phase_nomination manifests d Phase.development a same h pass =
    inr (ground (arith, holds (Phase-discrete a.phase Phase.development)))
phase_nomination manifests d Phase.holdout a same h pass = inl (ground arith)
phase_nomination manifests d Phase.window a same h pass = inl (ground arith)

module _ (s : SnapshotBody) (manifests : List (Text × Manifest)) where
  holdout_found :
      (digests : List Text) (previous : ℕ) (d : Decisions) (xs : List Assessment) {d' : Decisions}
      → check_assessments s manifests digests previous d xs ≡ ok d'
      → status_is d'.holdout Status.pass ≡ true
      → (status_is d.holdout Status.pass ≡ true) ⊎ (any is_passing_holdout xs ≡ true)
  unfolding check_assessments
  holdout_found digests previous d [] h pass = inl (ground arith)
  holdout_found digests previous d (a ∷ xs) h pass =
      let (_, _, h1) =
        >>=-eq-ok (refuse (includes digests a.decision_digest) duplicate_assessment) _ h in
      let (_, _, h2) =
        >>=-eq-ok (require (a.protocol_digest == s.protocol_digest) assessment_protocol) _ h1 in
      let (_, _, h3) = >>=-eq-ok (refuse (ltb (phase_rank a.phase) previous) phase_order) _ h2 in
      let (next, p, q) = >>=-eq-ok (check_phase manifests d a.phase a) _ h3 in
      elim (holdout_found (a.decision_digest ∷ digests) (phase_rank a.phase) next xs q pass) [
        | inl here ↦ elim (phase_holdout manifests d a.phase a refl p here) [
          | inl before ↦ inl before
          | inr now ↦ inr (rw now refl)
        ]
        | inr there ↦ inr (ground (arith, there))
      ]

  nomination_found :
      (digests : List Text) (previous : ℕ) (d : Decisions) (xs : List Assessment) {d' : Decisions}
      → check_assessments s manifests digests previous d xs ≡ ok d'
      → status_is d'.development Status.nominated ≡ true
      → (status_is d.development Status.nominated ≡ true) ⊎ (any is_nomination xs ≡ true)
  unfolding check_assessments
  nomination_found digests previous d [] h pass = inl (ground arith)
  nomination_found digests previous d (a ∷ xs) h pass =
      let (_, _, h1) =
        >>=-eq-ok (refuse (includes digests a.decision_digest) duplicate_assessment) _ h in
      let (_, _, h2) =
        >>=-eq-ok (require (a.protocol_digest == s.protocol_digest) assessment_protocol) _ h1 in
      let (_, _, h3) = >>=-eq-ok (refuse (ltb (phase_rank a.phase) previous) phase_order) _ h2 in
      let (next, p, q) = >>=-eq-ok (check_phase manifests d a.phase a) _ h3 in
      elim (nomination_found (a.decision_digest ∷ digests) (phase_rank a.phase) next xs q pass) [
        | inl here ↦ elim (phase_nomination manifests d a.phase a refl p here) [
          | inl before ↦ inl before
          | inr now ↦ inr (rw now refl)
        ]
        | inr there ↦ inr (ground (arith, there))
      ]

-- Every decision after development names the selected policy.
abbrev pub NamesPolicy : Option SelectedPolicy → Assessment → Type 0
NamesPolicy p a = (a.phase ≡ Phase.development) ⊎ (same_policy p a.selected_policy ≡ true)

-- The states that claim a confirmed policy.
abbrev pub confirmed_states : List State
confirmed_states =
    State.holdout_confirmed ∷ State.promotion_recommended ∷ State.monitoring
    ∷ State.rollback_recommended ∷ []

require_confirmed :
    (state : State) (s : SnapshotBody) (d : Decisions) (total : ℕ)
    → includes confirmed_states state ≡ true
    → check_state state s d total ≡ ok tt
    → (is_some s.selected_policy ≡ true)
      × (status_is d.development Status.nominated ≡ true)
      × (status_is d.holdout Status.pass ≡ true)
unfolding check_state
require_confirmed State.holdout_confirmed s d total m h = (ground arith, ground arith, ground arith)
require_confirmed State.promotion_recommended s d total m h =
    (ground arith, ground arith, ground arith)
require_confirmed State.monitoring s d total m h = (ground arith, ground arith, ground arith)
require_confirmed State.rollback_recommended s d total m h =
    (ground arith, ground arith, ground arith)
require_confirmed _ s d total m h = ground (arith, m)

-- The check of each decision against the selected policy.
abbrev check_named : Option SelectedPolicy → Assessment → Result Error (Unit {0})
check_named p a =
    refuse (not (a.phase == Phase.development) && not (same_policy p a.selected_policy))
      assessment_policy

named_of_check :
    (p : Option SelectedPolicy) (a : Assessment) → check_named p a ≡ ok tt → NamesPolicy p a
named_of_check p a h = ground (arith, holds (Phase-discrete a.phase Phase.development))

each-NamesPolicy :
    (p : Option SelectedPolicy) (xs : List Assessment)
    → each (check_named p) xs ≡ ok tt
    → All (NamesPolicy p) xs
each-NamesPolicy p [] h = tt
each-NamesPolicy p (a ∷ xs) h =
    let (_, now, rest) = >>=-eq-ok (check_named p a) _ h in
    (named_of_check p a now, each-NamesPolicy p xs rest)

check_policy-named :
    (s : SnapshotBody) (d : Decisions)
    → check_policy s d ≡ ok tt
    → All (NamesPolicy s.selected_policy) s.assessments
unfolding check_policy
check_policy-named s d h =
    let (_, _, h1) = >>=-eq-ok (refuse (bad_validity s s.selected_policy) policy_validity) _ h in
    let (_, _, h2) =
      >>=-eq-ok (refuse (bad_nomination s.selected_policy d.development) policy_nomination) _ h1 in
    each-NamesPolicy s.selected_policy s.assessments h2

-- What stands behind a confirmed policy.
pub record Confirmed (s : SnapshotBody) : Type 0 where
  pub policy : is_some s.selected_policy ≡ true
  pub nominated : any is_nomination s.assessments ≡ true
  pub passed : any is_passing_holdout s.assessments ≡ true
  pub named : All (NamesPolicy s.selected_policy) s.assessments

pub check_snapshot-Confirmed :
    (s : SnapshotBody)
    → check_snapshot s ≡ ok tt
    → includes confirmed_states s.state ≡ true
    → Confirmed s
check_snapshot-Confirmed s h m =
    let k = check_snapshot-Coherent s h in
    let (policy, nominated, passed) = require_confirmed s.state s k.decisions k.total m k.state in
    record {
      policy = policy;
      nominated =
          elim (nomination_found s k.manifests [] 0 no_decisions s.assessments k.assessments
            nominated) [ inl never ↦ cc | inr there ↦ there ];
      passed =
          elim (holdout_found s k.manifests [] 0 no_decisions s.assessments k.assessments passed) [
            | inl never ↦ cc
            | inr there ↦ there
          ];
      named = check_policy-named s k.decisions k.policy;
    }

-- No event brings the controller to HOLDOUT_CONFIRMED, PROMOTION_RECOMMENDED, MONITORING or
-- ROLLBACK_RECOMMENDED unless the new snapshot has a selected policy, a nominating development
-- decision and a passing holdout decision, and every holdout and window decision in it names that
-- policy.
pub apply_event-Confirmed :
    (c : Contracts) (sources : Sources) (s : Snapshot) (e : Event) {t : Snapshot}
    → apply_event c sources s e ≡ ok t
    → includes confirmed_states t.state ≡ true
    → Confirmed t.body
apply_event-Confirmed c sources s e {t} p m =
    let done = apply_event-Applied c sources s e p in
    check_snapshot-Confirmed t.body done.after.coherent m
