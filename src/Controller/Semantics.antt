-- ===== src/Controller/Semantics.antt =====
-- src/controller-events.ts, `assertSnapshotBodySemantics`: what a stored snapshot must satisfy
-- beyond the shape of its fields. The function is cut into its sections, in the source's order.
mod Windows
mod Assessments
mod States
unfoldable pub use Windows.*
unfoldable pub use Assessments.*
unfoldable pub use States.*
use tasc.Base.{
  ℕ, Bool, true, false, not, ◌&&◌, ◌||◌, [], Option, none, some, ◌==◌, nat_eq, is_none, is_some,
  is_empty, Result, ok, err, require, refuse, ◌>>=◌, ◌>>◌,
}
use tasc.Base.Int.{is_nonneg}
use tasc.Text.{Text, compare_code_units}
use tasc.Controller.Types.{State, SnapshotBody, state_eq}
use tasc.Controller.Schema.{before, same}
use tasc.Controller.Errors.{
  Error, protocol_interval, event_pair, genesis_identity, genesis_content, late_draft,
  event_before_creation, active_after_expiry,
}

-- `time !== null && compareCodeUnits(time, t) < 0`, and `>= 0`.
abbrev earlier : Option Text → Text → Bool
earlier none t = false
earlier (some time) t = before time t

abbrev reaches : Option Text → Text → Bool
reaches none t = false
reaches (some time) t = is_nonneg (compare_code_units time t)

unfoldable pub check_identity : SnapshotBody → Result Error (Unit {0})
check_identity s = do
  require (before s.protocol_created_at s.protocol_expires_at) protocol_interval
  let is_genesis = s.sequence == 0
  require (same (is_some s.last_event_id) (is_some s.last_event_at)) event_pair
  require (same is_genesis (is_none s.last_event_id)) genesis_identity
  refuse
      (is_genesis
        && (not (s.state == State.draft)
            || is_some s.collection_id
            || is_some s.development_evidence
            || is_some s.selected_policy
            || not (is_empty s.assessments)
            || not (is_empty s.windows)
            || is_some s.deployment_observation
            || not (is_empty s.stale_reasons)))
      genesis_content
  refuse (not is_genesis && s.state == State.draft) late_draft
  refuse (earlier s.last_event_at s.protocol_created_at) event_before_creation
  refuse
      (not (s.state == State.stale)
        && not (s.state == State.retired)
        && reaches s.last_event_at s.protocol_expires_at)
      active_after_expiry

-- The rest of the checks, given what the loop over the ledgers found.
abbrev pub check_found : SnapshotBody → Scan → Result Error (Unit {0})
check_found s (scan ids manifests total previous) = do
  d ←
      check_assessments s manifests [] 0 (record { development = none; holdout = none })
        s.assessments
  check_policy s d
  check_evidence s d
  check_state s.state s d total

-- `assertSnapshotBodySemantics`.
unfoldable pub check_snapshot : SnapshotBody → Result Error (Unit {0})
check_snapshot s = do
  check_identity s
  found ← check_ledgers s (scan [] [] 0 none) s.windows
  check_found s found
