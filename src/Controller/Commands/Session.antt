-- ===== src/Controller/Commands/Session.antt =====
-- src/controller.ts: the log that commands made, replayed by `replayController`.
use tasc.Base.{
  ◌+◌, ◌≤◌, ◌≡◌, refl, ap, subst, ◌∙◌, true, List, [], ◌∷◌, none, leb, ◌==◌, nat_eq, option_eq,
  is_some, length, map_get, ok, refuse, ◌>>=◌, >>=-eq-ok, >>=-mono, ok-injective, require-of,
  Result, Option-cases, le→leb, inl, inr, arith, Memᴰ,
}
use tasc.Text.{Text, text_eq}
use tasc.Controller.Types.{
  State, Assessment, Fact, Event, Snapshot, SnapshotBody, Contracts, assessment_eq, state_eq,
}
use tasc.Controller.Schema.{max_controller_events, valid_snapshot, valid_snapshot_body}
use tasc.Controller.Errors.{Error, retired_terminal, not_live}
use tasc.Controller.Log.{parse_event, parse_snapshot, create_snapshot}
use tasc.Controller.Envelope.{check_envelope}
use tasc.Controller.Facts.{
  Sources, require_state, check_authentic, on_development, on_holdout, on_window, on_fact,
}
use tasc.Controller.Decisions.{Decision, index_sources}
use tasc.Controller.Decisions.Index.{Covers, index_sources-Covers}
use tasc.Controller.Apply.{apply_event, advance}
use tasc.Controller.Apply.Parts.{
  IsParsed, apply_event-Applied, create_snapshot-IsParsed, parse_snapshot_of_IsParsed,
}
use tasc.Controller.Replay.{Handle, live, history_of, require_live, replay_events, replay}
use tasc.Controller.Replay.Append.{
  IsLive, live_eta, replay_of, replay_from_of, replay_events-append,
}
use tasc.Controller.Commands.{Update, Protocol, append_live, create_controller}
use tasc.Controller.Commands.Logged.{append_live-Appended, replay_next, next_number}

module _ (s t : Sources) (more : Covers s t) where
  check_authentic-Covers :
      (a : Assessment) (u : Unit {0}) → check_authentic a s ≡ ok u → check_authentic a t ≡ ok u
  unfolding check_authentic
  check_authentic-Covers a u h = elim (Option-cases (map_get a.decision_digest s)) [
    | inl never ↦ absurd (ground (arith, h, never))
    | inr (b, found) ↦ ground (arith, h, found, more a.decision_digest b found)
  ]

  authentic_then :
      {A : Type 0} (a : Assessment) (k : Unit {0} → Result Error A) {r : A}
      → (check_authentic a s >>= k) ≡ ok r
      → (check_authentic a t >>= k) ≡ ok r
  authentic_then a k h =
      let (u, p, q) = >>=-eq-ok (check_authentic a s) k h in
      ap (λ m. m >>= k) (check_authentic-Covers a u p) ∙ q

  -- A fact that is applied with some sources is applied with more of them, to the same result.
  on_fact-Covers :
      (now : Text) (f : Fact) (b : SnapshotBody) {r : SnapshotBody}
      → on_fact s now f b ≡ ok r
      → on_fact t now f b ≡ ok r
  unfolding on_fact on_development on_holdout on_window
  on_fact-Covers now (Fact.development_assessment_recorded a) b h =
      >>=-mono (require_state b.state (State.dev_ready ∷ [])) _ _ (λ _. authentic_then a _) h
  on_fact-Covers now (Fact.holdout_assessment_recorded a) b h =
      >>=-mono (require_state b.state (State.shadow_assessing ∷ [])) _ _ (λ _. authentic_then a _) h
  on_fact-Covers now (Fact.window_assessment_recorded id a) b h =
      >>=-mono (require_state b.state (State.holdout_confirmed ∷ State.monitoring ∷ [])) _ _
        (λ _. authentic_then a _) h
  on_fact-Covers now (Fact.protocol_registered created expires) b h = h
  on_fact-Covers now (Fact.collection_started id) b h = h
  on_fact-Covers now (Fact.development_evidence_ready e) b h = h
  on_fact-Covers now (Fact.shadow_assessment_started frozen) b h = h
  on_fact-Covers now (Fact.window_manifest_recorded p) b h = h
  on_fact-Covers now (Fact.deployment_observed o) b h = h
  on_fact-Covers now (Fact.identity_drift_recorded d) b h = h
  on_fact-Covers now (Fact.protocol_expiry_observed as_of) b h = h
  on_fact-Covers now (Fact.controller_retired reason) b h = h

module _ (c : Contracts) where
  apply_event-Covers :
      (s t : Sources) (snapshot : Snapshot) (e : Event) {r : Snapshot}
      → Covers s t
      → apply_event c s snapshot e ≡ ok r
      → apply_event c t snapshot e ≡ ok r
  unfolding apply_event
  apply_event-Covers s t snapshot e more h =
      >>=-mono (parse_snapshot c snapshot) _ _
        (λ x. >>=-mono (parse_event c e) _ _ (λ y. >>=-mono (check_envelope x y) _ _ (λ _.
          >>=-mono (refuse (x.state == State.retired) retired_terminal) _ _ (λ _ p.
            let (changed, q, k) = >>=-eq-ok (on_fact s y.occurred_at y.fact x.body) _ p in
            ap (λ m. m >>= λ b. create_snapshot c (advance y b))
              (on_fact-Covers s t more y.occurred_at y.fact x.body q)
            ∙ k))))
        h

  -- Commands in a row, each with decisions from one list: every command of src/controller.ts that
  -- makes an event makes it by `appendLiveFact`. No event has the identity of an earlier one.
  pub data Session (ds : List Decision) : Handle → List Event → Handle → Type 0 where
    no_command : {h : Handle} → Session ds h [] h
    command :
        {h k : Handle} {es : List Event} (f : Fact) (now : Text) (own : List Decision) {u : Update}
        → ((d : Decision) → Memᴰ d own → Memᴰ d ds)
        → append_live c h f now own ≡ ok u
        → map_get u.event.event_id (history_of h) ≡ none
        → Session ds u.handle es k
        → Session ds h (u.event ∷ es) k

  -- The events of a session are numbered on from its first snapshot, and its last one parses.
  Session-length :
      (ds : List Decision) {h k : Handle} {es : List Event}
      → Session ds h es k
      → IsParsed c h.snapshot
      → (k.snapshot.sequence ≡ h.snapshot.sequence + length es) × IsParsed c k.snapshot
  Session-length ds Session.no_command parsed = (omega arith, parsed)
  Session-length ds (Session.command {h} f now own {u} inside made new rest) parsed =
      let done = append_live-Appended c h f now own made in
      let step = apply_event-Applied c done.sources h.snapshot u.event done.applied in
      let (later, last) = Session-length ds rest step.after in
      let number = next_number c h own done in
      let same = ap (λ b. b.sequence) step.body in (omega (arith, later, number, same), last)

  Session-events :
      (ds : List Decision) (sources : Sources) {h k : Handle} {es : List Event}
      → index_sources c ds ≡ ok sources
      → Session ds h es k
      → replay_events c sources h es ≡ ok k
  unfolding replay_events
  Session-events ds sources indexed Session.no_command = refl
  Session-events ds sources indexed
        (Session.command {h} {k} {es} f now own {u} inside made new rest) =
      let done = append_live-Appended c h f now own made in
      let more = index_sources-Covers c own ds inside done.indexed indexed in
      let applied = apply_event-Covers done.sources sources h.snapshot u.event more done.applied in
      replay_events-append c sources h (u.event ∷ []) es
      ∙ ap (λ r. r >>= λ x. replay_events c sources x es)
          (replay_next c h own sources done applied new)
      ∙ Session-events ds sources indexed rest

  parsed_bound : (s : Snapshot) → IsParsed c s → s.sequence ≤ max_controller_events
  parsed_bound s p = unfold valid_snapshot valid_snapshot_body in ground (arith, p.shape)

  -- What `create_controller` gives: a live draft without events.
  record Created (g : Handle) : Type 0 where
    is_live : IsLive g
    parsed : IsParsed c g.snapshot
    sequence : g.snapshot.sequence ≡ 0
    state : g.snapshot.state ≡ State.draft
    no_event : g.snapshot.last_event_id ≡ none

  create_controller-Created :
      (p : Protocol) (id : Text) {g : Handle} → create_controller c p id ≡ ok g → Created g
  unfolding create_controller
  create_controller-Created p id h =
      let (s, made, q) = >>=-eq-ok (create_snapshot c _) _ h in
      let (body, parsed) = create_snapshot-IsParsed c _ made in
      subst Created (ok-injective q) record {
        is_live = refl;
        parsed = parsed;
        sequence = ap (λ b. b.sequence) body;
        state = ap (λ b. b.state) body;
        no_event = ap (λ b. b.last_event_id) body;
      }

  require_live-Created : (g : Handle) → Created g → require_live c g ≡ ok g
  unfolding require_live
  require_live-Created g d =
      require-of (is_some g.history) not_live _ d.is_live
      ∙ ap (λ r. r >>= λ s. ok (live s (history_of g)))
          (parse_snapshot_of_IsParsed c g.snapshot d.parsed)
      ∙ ap ok (live_eta g d.is_live)

  -- The events that commands made since the creation of a controller, replayed from its genesis with
  -- the decisions that the commands were given, are all accepted and give the handle of the last
  -- command. It is required that the list of all decisions can be indexed, and that no event has the
  -- identity of an earlier one.
  pub Session-replay :
      (p : Protocol) (id : Text) (ds : List Decision) {sources : Sources} {g k : Handle}
      {es : List Event}
      → create_controller c p id ≡ ok g
      → index_sources c ds ≡ ok sources
      → Session ds g es k
      → replay c g es ds ≡ ok k
  Session-replay p id ds {sources} {g} {k} {es} created indexed session =
      let d = create_controller-Created p id created in
      let (number, last) = Session-length ds session d.parsed in
      let bounded : leb (length es) max_controller_events ≡ true =
        le→leb _ _ (omega (arith, number, d.sequence, parsed_bound k.snapshot last)) in
      replay_of c g es ds (require_live-Created g d)
        (ground (arith, d.sequence, d.state, d.no_event))
      ∙ replay_from_of c g es ds d.is_live bounded indexed
          (parse_snapshot_of_IsParsed c g.snapshot d.parsed)
      ∙ Session-events ds sources indexed session
