-- ===== src/Controller/Apply/Parts.antt =====
-- What a successful `apply_event` went through.
use tasc.Base.{◌≡◌, ◌≢◌, true, arith, ◌==◌, ok, refuse, >>=-eq-ok, >>=-of-ok, ap, ◌∙◌}
use tasc.Controller.Types.{State, Event, Snapshot, SnapshotBody, Contracts, state_eq}
use tasc.Controller.Errors.{retired_terminal}
use tasc.Controller.Semantics.{check_snapshot}
use tasc.Controller.Schema.{valid_event, valid_snapshot}
use tasc.Controller.Log.{parse_event, parse_snapshot, create_snapshot, check_event_body}
use tasc.Controller.Envelope.{check_envelope}
use tasc.Controller.Facts.{Sources, on_fact}
use tasc.Controller.Apply.{apply_event, advance}

module _ (c : Contracts) where
  -- A parsed snapshot is its input, has the shape of the schema, is coherent, and its digest is
  -- that of its body.
  pub record IsParsed (s : Snapshot) : Type 0 where
    pub fits : c.fits_snapshot s ≡ true
    pub shape : valid_snapshot s ≡ true
    pub coherent : check_snapshot s.body ≡ ok tt
    pub digest : s.snapshot_digest ≡ c.digest_snapshot s.body

  pub parse_snapshot-IsParsed :
      (s : Snapshot) {t : Snapshot} → parse_snapshot c s ≡ ok t → (t ≡ s) × IsParsed s
  unfolding parse_snapshot
  parse_snapshot-IsParsed s h = ground arith

  pub parse_snapshot_of_IsParsed : (s : Snapshot) → IsParsed s → parse_snapshot c s ≡ ok s
  unfolding parse_snapshot
  parse_snapshot_of_IsParsed s h = ground arith

  pub create_snapshot-IsParsed :
      (b : SnapshotBody) {t : Snapshot} → create_snapshot c b ≡ ok t → (t.body ≡ b) × IsParsed t
  unfolding create_snapshot
  create_snapshot-IsParsed b h = ground arith

  pub record IsParsedEvent (e : Event) : Type 0 where
    pub shape : valid_event e ≡ true
    pub coherent : check_event_body c e.body ≡ ok tt
    pub identity : e.event_id ≡ c.digest_event e.body

  pub parse_event-IsParsedEvent :
      (e : Event) {x : Event} → parse_event c e ≡ ok x → (x ≡ e) × IsParsedEvent e
  unfolding parse_event
  parse_event-IsParsedEvent e h = ground arith

  pub record Applied (sources : Sources) (s : Snapshot) (e : Event) (t : Snapshot) : Type 0 where
    pub before : IsParsed s
    pub event : IsParsedEvent e
    pub envelope : check_envelope s e ≡ ok tt
    pub alive : s.state ≢ State.retired
    pub changed : SnapshotBody
    pub fact : on_fact sources e.occurred_at e.fact s.body ≡ ok changed
    pub body : t.body ≡ advance e changed
    pub after : IsParsed t

  pub apply_event-Applied :
      (sources : Sources) (s : Snapshot) (e : Event) {t : Snapshot}
      → apply_event c sources s e ≡ ok t
      → Applied sources s e t
  unfolding apply_event
  apply_event-Applied sources s e h =
      let (_, p, _) = >>=-eq-ok (parse_snapshot c s) _ h in
      let (x_is_s, parsed) = parse_snapshot-IsParsed s p in
      let h1 = >>=-of-ok _ h (p ∙ ap ok x_is_s) in
      let (_, q, _) = >>=-eq-ok (parse_event c e) _ h1 in
      let (y_is_e, parsed_event) = parse_event-IsParsedEvent e q in
      let h2 = >>=-of-ok _ h1 (q ∙ ap ok y_is_e) in
      let (_, envelope, h3) = >>=-eq-ok (check_envelope s e) _ h2 in
      let (_, alive, h4) = >>=-eq-ok (refuse (s.state == State.retired) retired_terminal) _ h3 in
      let (changed, fact, h5) = >>=-eq-ok (on_fact sources e.occurred_at e.fact s.body) _ h4 in
      let (body, after) = create_snapshot-IsParsed (advance e changed) h5 in
      record {
        before = parsed;
        event = parsed_event;
        envelope = envelope;
        alive = ground arith;
        changed = changed;
        fact = fact;
        body = body;
        after = after;
      }
