-- ===== src/Controller/Replay/Append.antt =====
-- Replaying a log in two parts.
use tasc.Base.{
  ◌≡◌, refl, sym, ap, ◌∙◌, true, List, [], ◌∷◌, ◌++◌, arith, leb, ◌==◌, nat_eq, is_some, length,
  is_none, ok, require, ◌>>=◌, >>=-eq-ok, >>=-assoc, >>=-congr, ◌&&◌,
}
use tasc.Controller.Types.{State, Event, Contracts, state_eq}
use tasc.Controller.Schema.{max_controller_events}
use tasc.Controller.Errors.{too_many_events, genesis_needed}
use tasc.Controller.Log.{parse_event, parse_snapshot}
use tasc.Controller.Facts.{Sources}
use tasc.Controller.Decisions.{Decision, index_sources}
use tasc.Controller.Apply.Parts.{parse_snapshot-IsParsed}
use tasc.Controller.Replay.{
  Handle, Seen, history_of, live, look_up, require_live, replay_fresh, replay_one, replay_events,
  replay_from, replay,
}

-- A handle with a history is given by it.
abbrev pub IsLive : Handle → Type 0
IsLive h = is_some h.history ≡ true

pub live_eta : (h : Handle) → IsLive h → live h.snapshot (history_of h) ≡ h
live_eta h l = ground arith

module _ (c : Contracts) where
  -- The events of two logs in a row: the second continues from the result of the first.
  pub replay_events-append :
      (sources : Sources) (h : Handle) (xs ys : List Event)
      → replay_events c sources h (xs ++ ys)
        ≡ (replay_events c sources h xs >>= λ k. replay_events c sources k ys)
  unfolding replay_events
  replay_events-append sources h [] ys = refl
  replay_events-append sources h (x ∷ xs) ys =
      >>=-congr (parse_event c x) (λ e.
        >>=-congr (replay_one c sources h e (look_up (history_of h) e))
          (λ k. replay_events-append sources k xs ys)
        ∙ sym (>>=-assoc (replay_one c sources h e (look_up (history_of h) e)) _ _))
      ∙ sym (>>=-assoc (parse_event c x) _ _)

  replay_one-IsLive :
      (sources : Sources) (h : Handle) (e : Event) (seen : Seen) {k : Handle}
      → IsLive h
      → replay_one c sources h e seen ≡ ok k
      → IsLive k
  unfolding replay_one replay_fresh
  replay_one-IsLive sources h e Seen.repeated l p = ground arith
  replay_one-IsLive sources h e Seen.conflicting l p = cc
  replay_one-IsLive sources h e Seen.fresh l p = ground arith

  pub replay_events-IsLive :
      (sources : Sources) (h : Handle) (xs : List Event) {k : Handle}
      → IsLive h
      → replay_events c sources h xs ≡ ok k
      → IsLive k
  unfolding replay_events
  replay_events-IsLive sources h [] l p = ground arith
  replay_events-IsLive sources h (x ∷ xs) l p =
      let (e, _, p1) = >>=-eq-ok (parse_event c x) _ p in
      let (k, q, p2) = >>=-eq-ok (replay_one c sources h e (look_up (history_of h) e)) _ p1 in
      replay_events-IsLive sources k xs (replay_one-IsLive sources h e _ l q) p2

  pub require_live-IsLive : (h : Handle) {k : Handle} → require_live c h ≡ ok k → IsLive k
  unfolding require_live
  require_live-IsLive h p = ground arith

  -- What a successful replay went through.
  pub record Replayed (g : Handle) (xs : List Event) (ds : List Decision) (k : Handle)
      : Type 0 where
    pub genesis : Handle
    pub held : require_live c g ≡ ok genesis
    pub empty :
        (genesis.snapshot.sequence == 0
          && genesis.snapshot.state == State.draft
          && is_none genesis.snapshot.last_event_id)
        ≡ true
    pub bounded : leb (length xs) max_controller_events ≡ true
    pub sources : Sources
    pub indexed : index_sources c ds ≡ ok sources
    pub parsed : parse_snapshot c genesis.snapshot ≡ ok genesis.snapshot
    pub events : replay_events c sources genesis xs ≡ ok k

  pub replay_from-parts :
      (h : Handle) (xs : List Event) (ds : List Decision) {k : Handle}
      → replay_from c h xs ds ≡ ok k
      → (leb (length xs) max_controller_events ≡ true)
        × (sources : Sources) × (index_sources c ds ≡ ok sources)
        × (parse_snapshot c h.snapshot ≡ ok h.snapshot)
        × (replay_events c sources (live h.snapshot (history_of h)) xs ≡ ok k)
  unfolding replay_from
  replay_from-parts h xs ds p =
      let (_, _, p1) =
        >>=-eq-ok (require (leb (length xs) max_controller_events) too_many_events) _ p in
      let (sources, indexed, p2) = >>=-eq-ok (index_sources c ds) _ p1 in
      let (s, q, p3) = >>=-eq-ok (parse_snapshot c h.snapshot) _ p2 in
      let (same, _) = parse_snapshot-IsParsed c h.snapshot q in
      (ground arith, sources, indexed, q ∙ ap ok same, rw same at p3)

  pub replay-Replayed :
      (g : Handle) (xs : List Event) (ds : List Decision) {k : Handle}
      → replay c g xs ds ≡ ok k
      → Replayed g xs ds k
  unfolding replay
  replay-Replayed g xs ds p =
      let (genesis, held, p1) = >>=-eq-ok (require_live c g) _ p in
      let (_, _, p2) =
        >>=-eq-ok
          (require
            (genesis.snapshot.sequence == 0
              && genesis.snapshot.state == State.draft
              && is_none genesis.snapshot.last_event_id)
            genesis_needed)
          _ p1 in
      let (bounded, sources, indexed, parsed, events) = replay_from-parts genesis xs ds p2 in
      record {
        genesis = genesis;
        held = held;
        empty = ground arith;
        bounded = bounded;
        sources = sources;
        indexed = indexed;
        parsed = parsed;
        events = rw (live_eta genesis (require_live-IsLive g held)) at events;
      }

  -- With its checks passed, a replay from a live handle is the loop over the events.
  pub replay_from_of :
      (h : Handle) (xs : List Event) (ds : List Decision) {sources : Sources}
      → IsLive h
      → leb (length xs) max_controller_events ≡ true
      → index_sources c ds ≡ ok sources
      → parse_snapshot c h.snapshot ≡ ok h.snapshot
      → replay_from c h xs ds ≡ replay_events c sources h xs
  unfolding replay_from
  replay_from_of h xs ds is_live bounded indexed parsed =
      rw (bounded, indexed, parsed, live_eta h is_live)

  -- A replay from an empty live draft is one from the handle that is required of it.
  pub replay_of :
      (g : Handle) (xs : List Event) (ds : List Decision) {genesis : Handle}
      → require_live c g ≡ ok genesis
      → (genesis.snapshot.sequence == 0
          && genesis.snapshot.state == State.draft
          && is_none genesis.snapshot.last_event_id)
        ≡ true
      → replay c g xs ds ≡ replay_from c genesis xs ds
  unfolding replay
  replay_of g xs ds held empty = rw (held, empty)
