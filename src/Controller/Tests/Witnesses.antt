-- ===== src/Controller/Tests/Witnesses.antt =====
-- The theorems on the controller, at the steps of the life of its tests.
use tasc.Base.{
  ◌≡◌, refl, ◌⊎◌, true, false, ◌||◌, if◌then◌else◌, ◌==◌, ◌++◌, [], ◌∷◌, none, some, ok, includes,
  arith, map_get,
}
use tasc.Base.Int.{is_neg}
use tasc.Text.{Text, text_eq, codes, compare_code_units}
use tasc.Controller.Types.{State, State-discrete, Snapshot-discrete, Fact, Event}
use tasc.Controller.Apply.{apply_event}
use tasc.Controller.Diagram.{Edge, apply_event-Edge}
use tasc.Controller.Advance.{Advances, apply_event-Advances}
use tasc.Controller.Coherent.Confirmed.{Confirmed, apply_event-Confirmed}
use tasc.Controller.Coherent.Chains.{AreChains, parse_snapshot-AreChains}
use tasc.Controller.Log.{parse_snapshot}
use tasc.Controller.Ledger.{apply_window, find_ledger}
use tasc.Controller.Ledger.Append.{revisions_of, apply_window-appends}
use tasc.Controller.Facts.{append_reason, protocol_expired, assessment_stale}
use tasc.Controller.Facts.Reasons.{append_reason-set}
use tasc.Controller.Replay.{replay, replay_from, replay_events}
use tasc.Controller.Replay.Induction.{Extends, replay_events-Extends, replay_events-retired}
use tasc.Controller.Replay.Repeat.{replay_from_twice}
use tasc.Controller.Checkpoint.{complete_prefix, verify_checkpoint, resume}
use tasc.Controller.Resume.{resume-replay}
use tasc.Controller.Commands.{append_live, create_controller, observe_time}
use tasc.Controller.Commands.Session.{Session, Session-replay}
use tasc.Controller.Decisions.{index_sources}
use tasc.Controller.Commands.Logged.{append_live-replay}
use tasc.Controller.Commands.Expiry.{IsExpired, observe_time-expires}
use tasc.Text.Sort.Sorted.{IsIncreasing}
use tasc.Controller.Tests.{contracts, genesis, manifest, protocol}
use tasc.Controller.Tests.Steps.{
  sealed, draft_body, registered_body, window_body, recommended_body, late, registration,
  collection, recommendation, expiry, watched_sources, drafted, retired, collecting_body,
  registered, collecting, expired,
}

registered_event :
    apply_event contracts [] (sealed draft_body) registration ≡ ok (sealed registered_body)
unfolding genesis
registered_event = refl

recommending_event :
    apply_event contracts watched_sources (sealed window_body) recommendation
    ≡ ok (sealed recommended_body)
unfolding genesis
recommending_event = refl

apply_event-Edge_example :
    Edge State.holdout_confirmed recommendation.fact State.promotion_recommended
apply_event-Edge_example =
    apply_event-Edge contracts watched_sources (sealed window_body) recommendation
      recommending_event

apply_event-Advances_example :
    Advances (sealed window_body) recommendation (sealed recommended_body)
apply_event-Advances_example =
    apply_event-Advances contracts watched_sources (sealed window_body) recommendation
      recommending_event

apply_event-Confirmed_example : Confirmed recommended_body
unfolding State-discrete
apply_event-Confirmed_example =
    apply_event-Confirmed contracts watched_sources (sealed window_body) recommendation
      recommending_event refl

window_parses : parse_snapshot contracts (sealed window_body) ≡ ok (sealed window_body)
unfolding genesis
window_parses = refl

parse_snapshot-AreChains_example : AreChains none window_body.windows
parse_snapshot-AreChains_example =
    parse_snapshot-AreChains contracts (sealed window_body) window_parses

first_window : apply_window [] manifest ≡ ok window_body.windows
unfolding genesis
first_window = refl

apply_window-appends_example :
    revisions_of (codes "window") window_body.windows
    ≡ (if manifest.window_id == codes "window" then [] ++ manifest ∷ [] else [])
unfolding find_ledger
apply_window-appends_example =
    apply_window-appends [] window_body.windows manifest first_window (codes "window")

append_reason-set_example :
    IsIncreasing (append_reason (protocol_expired ∷ []) assessment_stale)
    × ((a : Text)
        → includes (append_reason (protocol_expired ∷ []) assessment_stale) a
          ≡ (assessment_stale == a || includes (protocol_expired ∷ []) a))
append_reason-set_example = append_reason-set (protocol_expired ∷ []) assessment_stale

started :
    append_live contracts registered
      (Fact.collection_started (codes "collection"))
      collection.occurred_at
      []
    ≡ ok (record { event = collection; handle = collecting })
unfolding genesis
started = refl

collection_is_new : map_get collection.event_id ((registration.event_id, registration) ∷ []) ≡ none
unfolding genesis
collection_is_new = refl

append_live-replay_example : replay_from contracts registered (collection ∷ []) [] ≡ ok collecting
append_live-replay_example =
    append_live-replay contracts registered (Fact.collection_started (codes "collection"))
      collection.occurred_at [] started collection_is_new

replayed : replay_from contracts drafted (registration ∷ collection ∷ []) [] ≡ ok collecting
unfolding genesis replay_from replay_events replay verify_checkpoint Snapshot-discrete
replayed = refl

created : create_controller contracts protocol (codes "controller") ≡ ok drafted
unfolding genesis
created = refl

first_command :
    append_live contracts drafted registration.fact registration.occurred_at []
    ≡ ok (record { event = registration; handle = registered })
unfolding genesis
first_command = refl

indexed : index_sources contracts [] ≡ ok []
unfolding genesis
indexed = refl

registration_is_new : map_get {V = Event} registration.event_id [] ≡ none
unfolding genesis
registration_is_new = refl

session : Session contracts [] drafted (registration ∷ collection ∷ []) collecting
session =
    Session.command registration.fact registration.occurred_at [] (λ d m. m) first_command
      registration_is_new
      (Session.command (Fact.collection_started (codes "collection")) collection.occurred_at []
        (λ d m. m) started collection_is_new Session.no_command)

Session-replay_example :
    replay contracts drafted (registration ∷ collection ∷ []) [] ≡ ok collecting
Session-replay_example =
    Session-replay contracts protocol (codes "controller") [] created indexed session

replay_from_twice_example :
    replay_from contracts collecting (registration ∷ collection ∷ []) [] ≡ ok collecting
replay_from_twice_example =
    replay_from_twice contracts drafted collecting (registration ∷ collection ∷ []) [] replayed

verified :
    verify_checkpoint contracts
      (sealed registered_body)
      (complete_prefix drafted (registration ∷ []) [])
    ≡ ok registered
unfolding genesis replay_from replay_events replay verify_checkpoint Snapshot-discrete
verified = refl

resume-replay_example :
    resume contracts
      (sealed registered_body)
      (complete_prefix drafted (registration ∷ []) [])
      (collection ∷ [])
      []
    ≡ replay contracts drafted (registration ∷ collection ∷ []) []
resume-replay_example =
    resume-replay contracts (sealed registered_body) drafted (registration ∷ []) []
      (collection ∷ []) verified (omega arith)

observed_late : observe_time contracts registered late ≡ ok (some expiry, expired)
unfolding genesis
observed_late = refl

observe_time-expires_example :
    ((is_neg (compare_code_units late registered_body.protocol_expires_at) ≡ true)
      × (some expiry ≡ none)
      × (expired ≡ registered))
    ⊎ ((is_neg (compare_code_units late registered_body.protocol_expires_at) ≡ false)
        × IsExpired expired.snapshot)
observe_time-expires_example =
    observe_time-expires contracts registered expired late (some expiry) observed_late

both_replayed : replay_events contracts [] drafted (registration ∷ collection ∷ []) ≡ ok collecting
unfolding genesis replay_events
both_replayed = refl

replay_events-Extends_example : Extends (sealed draft_body) (sealed collecting_body)
replay_events-Extends_example =
    replay_events-Extends contracts [] drafted (registration ∷ collection ∷ []) collecting
      both_replayed

repeated : replay_events contracts [] retired (registration ∷ registration ∷ []) ≡ ok retired
unfolding genesis replay_events
repeated = refl

replay_events-retired_example : retired.snapshot ≡ retired.snapshot
replay_events-retired_example =
    replay_events-retired contracts [] retired (registration ∷ registration ∷ []) retired repeated
      refl
