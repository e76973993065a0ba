-- ===== src/Controller/Envelope.antt =====
-- src/controller.ts, `assertEventEnvelope`: an event must extend the snapshot that it is applied to.
use tasc.Base.{
  ◌+◌, Bool, true, false, Option, none, some, ◌==◌, nat_eq, option_eq, if◌then◌else◌, Result, ok,
  require, refuse, ◌>>=◌, ◌>>◌,
}
use tasc.Base.Int.{is_neg, is_nonneg}
use tasc.Text.{Text, text_eq}
use tasc.Controller.Types.{SelectedPolicy, Fact, Event, Snapshot}
use tasc.Controller.Errors.{
  Error, wrong_controller, wrong_study, wrong_protocol, sequence_gap, predecessor_chain,
  time_regression, before_protocol, outside_protocol, outside_policy,
}
use tasc.Controller.Log.{compare_timestamps}

-- `compareControllerTimestamps(time, bound) < 0` refused, and `>= 0` refused.
abbrev pub refuse_before : Text → Text → Error → Result Error (Unit {0})
refuse_before time bound e = do d ← compare_timestamps time bound; refuse (is_neg d) e

abbrev pub refuse_from : Text → Text → Error → Result Error (Unit {0})
refuse_from time bound e = do d ← compare_timestamps time bound; refuse (is_nonneg d) e

-- The same where `bound !== null`.
abbrev pub refuse_before? : Text → Option Text → Error → Result Error (Unit {0})
refuse_before? time none e = ok tt
refuse_before? time (some bound) e = refuse_before time bound e

abbrev refuse_after_policy : Text → Option SelectedPolicy → Error → Result Error (Unit {0})
refuse_after_policy time none e = ok tt
refuse_after_policy time (some p) e = refuse_from time p.expires_at e

-- `expirySafeFacts`: the facts that may be recorded after expiry.
abbrev pub is_expiry_safe : Fact → Bool
is_expiry_safe (Fact.protocol_expiry_observed as_of) = true
is_expiry_safe (Fact.identity_drift_recorded d) = true
is_expiry_safe (Fact.controller_retired reason) = true
is_expiry_safe _ = false

unfoldable pub check_envelope : Snapshot → Event → Result Error (Unit {0})
check_envelope s e = do
  require (e.controller_id == s.controller_id) wrong_controller
  require (e.study_id == s.study_id) wrong_study
  require (e.protocol_digest == s.protocol_digest) wrong_protocol
  require (e.sequence == s.sequence + 1) sequence_gap
  require (e.predecessor_event_id == s.last_event_id) predecessor_chain
  refuse_before? e.occurred_at s.last_event_at time_regression
  refuse_before e.occurred_at s.protocol_created_at before_protocol
  if is_expiry_safe e.fact
      then ok tt
      else refuse_from e.occurred_at s.protocol_expires_at outside_protocol
  if is_expiry_safe e.fact
      then ok tt
      else refuse_after_policy e.occurred_at s.selected_policy outside_policy
