-- ===== src/Controller/Replay/Repeat.antt =====
-- Replaying a log again: every event of it is known by then, and changes nothing.
use tasc.Base.{
  ◌≡◌, refl, ap, ◌∙◌, inl, inr, List, [], ◌∷◌, none, some, arith, ◌==◌, All, map_get,
  map_get-map_set, ok, >>=-eq-ok, ok-injective, subst, Bool-cases, ◌&&◌, nat_eq, option_eq,
}
use tasc.Text.{text_eq}
use tasc.Controller.Types.{Event, Snapshot, Contracts, event_eq}
use tasc.Controller.Log.{parse_event}
use tasc.Controller.Facts.{Sources}
use tasc.Controller.Decisions.{Decision}
use tasc.Controller.Apply.Parts.{
  IsParsed, parse_snapshot-IsParsed, parse_snapshot_of_IsParsed, parse_event-IsParsedEvent,
  apply_event-Applied,
}
use tasc.Controller.Replay.{
  Handle, History, Seen, history_of, look_up, replay_fresh, replay_one, replay_events, replay_from,
}
use tasc.Controller.Replay.Append.{replay_events-IsLive, replay_from-parts, replay_from_of}

-- The event is in the history under its identity.
abbrev pub IsLogged : Handle → Event → Type 0
IsLogged h e = map_get e.event_id (history_of h) ≡ some e

look_up-fresh :
    (seen : History) (e : Event) → look_up seen e ≡ Seen.fresh → map_get e.event_id seen ≡ none
unfolding look_up
look_up-fresh seen e h = ground arith

look_up-repeated :
    (seen : History) (e : Event) → look_up seen e ≡ Seen.repeated → map_get e.event_id seen ≡ some e
unfolding look_up
look_up-repeated seen e h = ground arith

pub look_up_of_new :
    (seen : History) (e : Event) → map_get e.event_id seen ≡ none → look_up seen e ≡ Seen.fresh
unfolding look_up
look_up_of_new seen e h = ground arith

look_up_of_logged :
    (seen : History) (e : Event) → map_get e.event_id seen ≡ some e → look_up seen e ≡ Seen.repeated
unfolding look_up
look_up_of_logged seen e h = ground arith

module _ (c : Contracts) (sources : Sources) where
  -- The history only grows.
  replay_one-keeps :
      (h : Handle) (e x : Event) (seen : Seen) {k : Handle}
      → look_up (history_of h) e ≡ seen
      → replay_one c sources h e seen ≡ ok k
      → IsLogged h x
      → IsLogged k x
  unfolding replay_one replay_fresh
  replay_one-keeps h e x Seen.repeated q p logged = ground arith
  replay_one-keeps h e x Seen.conflicting q p logged = cc
  replay_one-keeps h e x Seen.fresh q p logged = ground (
    arith,
    look_up-fresh (history_of h) e,
    map_get-map_set x.event_id e.event_id e (history_of h),
  )

  replay_one-logs :
      (h : Handle) (e : Event) (seen : Seen) {k : Handle}
      → look_up (history_of h) e ≡ seen
      → replay_one c sources h e seen ≡ ok k
      → IsLogged k e
  unfolding replay_one replay_fresh
  replay_one-logs h e Seen.repeated q p = ground (arith, look_up-repeated (history_of h) e)
  replay_one-logs h e Seen.conflicting q p = cc
  replay_one-logs h e Seen.fresh q p =
      ground (arith, map_get-map_set e.event_id e.event_id e (history_of h))

  replay_fresh-IsParsed :
      (s : Snapshot) (e : Event) {t : Snapshot}
      → replay_fresh c sources s e ≡ ok t
      → IsParsed c s
      → IsParsed c t
  unfolding replay_fresh
  replay_fresh-IsParsed s e {t} p parsed =
      elim (Bool-cases (some e.event_id == s.last_event_id && e.sequence == s.sequence)) [
        | inl again ↦ subst (IsParsed c) (ok-injective (rw again at p)) parsed
        | inr next ↦ (apply_event-Applied c sources s e (rw next at p)).after
      ]

  replay_one-IsParsed :
      (h : Handle) (e : Event) (seen : Seen) {k : Handle}
      → replay_one c sources h e seen ≡ ok k
      → IsParsed c h.snapshot
      → IsParsed c k.snapshot
  unfolding replay_one
  replay_one-IsParsed h e Seen.repeated p parsed =
      subst (λ x. IsParsed c x.snapshot) (ok-injective p) parsed
  replay_one-IsParsed h e Seen.conflicting p parsed = cc
  replay_one-IsParsed h e Seen.fresh {k} p parsed =
      let (s, q, r) = >>=-eq-ok (replay_fresh c sources h.snapshot e) _ p in
      subst (λ x. IsParsed c x.snapshot) (ok-injective r)
        (replay_fresh-IsParsed h.snapshot e q parsed)

  replay_events-keeps :
      (h : Handle) (xs : List Event) (x : Event) {k : Handle}
      → replay_events c sources h xs ≡ ok k
      → IsLogged h x
      → IsLogged k x
  unfolding replay_events
  replay_events-keeps h [] x p logged = ground arith
  replay_events-keeps h (y ∷ xs) x p logged =
      let (e, _, p1) = >>=-eq-ok (parse_event c y) _ p in
      let (k, q, p2) = >>=-eq-ok (replay_one c sources h e (look_up (history_of h) e)) _ p1 in
      replay_events-keeps k xs x p2 (replay_one-keeps h e x _ refl q logged)

  -- After a replay each of its events parses, and is in the history.
  pub replay_events-logs :
      (h : Handle) (xs : List Event) {k : Handle}
      → replay_events c sources h xs ≡ ok k
      → All (λ x. (parse_event c x ≡ ok x) × IsLogged k x) xs
  unfolding replay_events
  replay_events-logs h [] p = tt
  replay_events-logs h (y ∷ xs) {k = last} p =
      let (e, parsed, p1) = >>=-eq-ok (parse_event c y) _ p in
      let (k, q, p2) = >>=-eq-ok (replay_one c sources h e (look_up (history_of h) e)) _ p1 in
      let (same, _) = parse_event-IsParsedEvent c y parsed in
      (
        (
          parsed ∙ ap ok same,
          subst (IsLogged last) same (replay_events-keeps k xs e p2 (replay_one-logs h e _ refl q)),
        ),
        replay_events-logs k xs p2,
      )

  pub replay_events-IsParsed :
      (h : Handle) (xs : List Event) {k : Handle}
      → replay_events c sources h xs ≡ ok k
      → IsParsed c h.snapshot
      → IsParsed c k.snapshot
  unfolding replay_events
  replay_events-IsParsed h [] p parsed = subst (λ x. IsParsed c x.snapshot) (ok-injective p) parsed
  replay_events-IsParsed h (y ∷ xs) p parsed =
      let (e, _, p1) = >>=-eq-ok (parse_event c y) _ p in
      let (k, q, p2) = >>=-eq-ok (replay_one c sources h e (look_up (history_of h) e)) _ p1 in
      replay_events-IsParsed k xs p2 (replay_one-IsParsed h e _ q parsed)

  -- Known events leave the handle as it is.
  replay_events_of_logged :
      (h : Handle) (xs : List Event)
      → All (λ x. (parse_event c x ≡ ok x) × IsLogged h x) xs
      → replay_events c sources h xs ≡ ok h
  unfolding replay_events replay_one
  replay_events_of_logged h [] known = refl
  replay_events_of_logged h (x ∷ xs) ((parsed, logged), known) =
      rw (parsed, look_up_of_logged (history_of h) x logged) (replay_events_of_logged h xs known)

-- Replaying the events of a log onto the result of their replay succeeds and changes nothing,
-- neither the snapshot nor the history.
pub replay_from_twice :
    (c : Contracts) (h k : Handle) (xs : List Event) (ds : List Decision)
    → replay_from c h xs ds ≡ ok k
    → replay_from c k xs ds ≡ ok k
replay_from_twice c h k xs ds p =
    let (bounded, sources, indexed, parsed, events) = replay_from-parts c h xs ds p in
    let (_, h_parsed) = parse_snapshot-IsParsed c h.snapshot parsed in
    let k_parsed = replay_events-IsParsed c sources _ xs events h_parsed in
    replay_from_of c k xs ds (replay_events-IsLive c sources _ xs refl events) bounded indexed
      (parse_snapshot_of_IsParsed c k.snapshot k_parsed)
    ∙ replay_events_of_logged c sources k xs (replay_events-logs c sources _ xs events)
