-- ===== src/Controller/Replay.antt =====
-- src/controller.ts, live snapshots and the replay of an event log onto one. An object that the
-- program holds is a snapshot, with the events behind it if it is live.
pub mod Append
pub mod Repeat
pub mod Induction
use tasc.Base.{
  ℕ, Bool, true, false, not, ◌&&◌, ◌||◌, List, [], ◌∷◌, Option, none, some, leb, ◌==◌, nat_eq,
  option_eq, is_none, is_some, length, map_get, map_set, if◌then◌else◌, Result, ok, err, require,
  refuse, ◌>>=◌, ◌>>◌,
}
use tasc.Text.{Text, text_eq}
use tasc.Controller.Types.{State, Event, Snapshot, Contracts, event_eq, state_eq}
use tasc.Controller.Schema.{max_controller_events}
use tasc.Controller.Errors.{Error, not_live, conflicting_event, too_many_events, genesis_needed}
use tasc.Controller.Log.{parse_event, parse_snapshot}
use tasc.Controller.Facts.{Sources}
use tasc.Controller.Decisions.{Decision, index_sources}
use tasc.Controller.Apply.{apply_event}

-- Events by their identity. The source keeps their canonical JSON.
abbrev pub History : Type 0
History = List (Text × Event)

-- `liveControllerSnapshots` and `liveControllerEventHistory` at one object: `none` if it is in
-- neither.
pub record Handle : Type 0 where
  pub snapshot : Snapshot
  pub history : Option History

-- `controllerHistory`.
abbrev pub history_of : Handle → History
history_of h = elim h.history [ none ↦ [] | some events ↦ events ]

-- `markLive`.
abbrev pub live : Snapshot → History → Handle
live s events = record { snapshot = s; history = some events }

-- What the loop of `replayFromSnapshot` does with one event.
pub data Seen : Type 0 where
  fresh repeated conflicting : Seen

unfoldable pub look_up : History → Event → Seen
look_up seen e = elim (map_get e.event_id seen) [
  | none ↦ Seen.fresh
  | some x ↦ if x == e then Seen.repeated else Seen.conflicting
]

module _ (c : Contracts) where
  -- `requireLiveSnapshot`.
  unfoldable pub require_live : Handle → Result Error Handle
  require_live h = do
    require (is_some h.history) not_live
    s ← parse_snapshot c h.snapshot
    ok (live s (history_of h))

  -- An event that is not in the history: the last one of the snapshot again, or the next one.
  unfoldable pub replay_fresh : Sources → Snapshot → Event → Result Error Snapshot
  replay_fresh sources s e =
      if some e.event_id == s.last_event_id && e.sequence == s.sequence
      then ok s
      else apply_event c sources s e

  unfoldable pub replay_one : Sources → Handle → Event → Seen → Result Error Handle
  unfolding replay_fresh
  replay_one sources h e Seen.repeated = ok h
  replay_one sources h e Seen.conflicting = err conflicting_event
  replay_one sources h e Seen.fresh = do
    s ← replay_fresh sources h.snapshot e
    ok (live s (map_set e.event_id e (history_of h)))

  unfoldable pub replay_events : Sources → Handle → List Event → Result Error Handle
  replay_events sources h [] = ok h
  replay_events sources h (input ∷ events) = do
    e ← parse_event c input
    h' ← replay_one sources h e (look_up (history_of h) e)
    replay_events sources h' events

  -- `replayFromSnapshot`.
  unfoldable pub replay_from : Handle → List Event → List Decision → Result Error Handle
  replay_from h events decisions = do
    require (leb (length events) max_controller_events) too_many_events
    sources ← index_sources c decisions
    s ← parse_snapshot c h.snapshot
    replay_events sources (live s (history_of h)) events

  -- `replayController`.
  unfoldable pub replay : Handle → List Event → List Decision → Result Error Handle
  replay h events decisions = do
    genesis ← require_live h
    let s = genesis.snapshot
    require (s.sequence == 0 && s.state == State.draft && is_none s.last_event_id) genesis_needed
    replay_from genesis events decisions
