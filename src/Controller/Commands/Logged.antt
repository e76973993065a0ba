-- ===== src/Controller/Commands/Logged.antt =====
-- A command and the replay of the event that it made agree.
use tasc.Base.{
  ◌+◌, ◌≡◌, refl, sym, ap, ◌∙◌, List, [], ◌∷◌, none, some, arith, nat_eq, option_eq, is_some,
  map_get, map_set, ok, require, subst, ◌>>=◌, >>=-eq-ok, ok-injective, holds, ℕ_discrete,
}
use tasc.Text.{Text, text_eq}
use tasc.Controller.Types.{Fact, Event, EventBody, Snapshot, Contracts}
use tasc.Controller.Errors.{not_live}
use tasc.Controller.Log.{parse_snapshot, create_fact, fingerprint_fact, create_event, parse_event}
use tasc.Controller.Facts.{Sources}
use tasc.Controller.Decisions.{Decision, index_sources}
use tasc.Controller.Apply.{apply_event}
use tasc.Controller.Apply.Parts.{parse_snapshot-IsParsed, apply_event-Applied}
use tasc.Controller.Envelope.{check_envelope}
use tasc.Controller.Replay.{
  Handle, Seen, live, history_of, require_live, replay_fresh, replay_one, replay_events,
  replay_from,
}
use tasc.Controller.Replay.Append.{IsLive, live_eta, replay_from_of}
use tasc.Controller.Replay.Repeat.{look_up_of_new}
use tasc.Controller.Commands.{Update, make_event, append_event, append_live}

module _ (c : Contracts) where
  -- What a successful append went through.
  pub record Appended (h : Handle) (ds : List Decision) (u : Update) : Type 0 where
    pub is_live : IsLive h
    pub parsed : parse_snapshot c h.snapshot ≡ ok h.snapshot
    pub event_parsed : parse_event c u.event ≡ ok u.event
    pub sources : Sources
    pub indexed : index_sources c ds ≡ ok sources
    pub applied : apply_event c sources h.snapshot u.event ≡ ok u.handle.snapshot
    pub logged : u.handle.history ≡ some (map_set u.event.event_id u.event (history_of h))

  pub require_live-parts :
      (h : Handle) {k : Handle}
      → require_live c h ≡ ok k
      → IsLive h × (parse_snapshot c h.snapshot ≡ ok h.snapshot) × (k ≡ h)
  unfolding require_live
  require_live-parts h {k} p =
      let (_, is_live, p1) = >>=-eq-ok (require (is_some h.history) not_live) _ p in
      let (s, q, p2) = >>=-eq-ok (parse_snapshot c h.snapshot) _ p1 in
      let (same, _) = parse_snapshot-IsParsed c h.snapshot q in
      let alive : IsLive h = ground arith in
      (
        alive,
        q ∙ ap ok same,
        sym (ok-injective p2) ∙ ap (λ t. live t (history_of h)) same ∙ live_eta h alive,
      )

  create_event-parsed :
      (b : EventBody) {e : Event} → create_event c b ≡ ok e → parse_event c e ≡ ok e
  unfolding create_event
  create_event-parsed b h = ground arith

  make_event-parsed :
      (s : Snapshot) (f : Fact) (now : Text) {e : Event}
      → make_event c s f now ≡ ok e
      → parse_event c e ≡ ok e
  unfolding make_event
  make_event-parsed s f now h =
      let (fact, _, h1) = >>=-eq-ok (create_fact c f) _ h in
      let (digest, _, h2) = >>=-eq-ok (fingerprint_fact c fact) _ h1 in create_event-parsed _ h2

  create_fact-same : (f : Fact) {g : Fact} → create_fact c f ≡ ok g → g ≡ f
  unfolding create_fact
  create_fact-same f h = ground arith

  create_event-body : (b : EventBody) {e : Event} → create_event c b ≡ ok e → e.body ≡ b
  unfolding create_event
  create_event-body b h = ground arith

  make_event-fact :
      (s : Snapshot) (f : Fact) (now : Text) {e : Event}
      → make_event c s f now ≡ ok e
      → (e.fact ≡ f) × (e.occurred_at ≡ now)
  unfolding make_event
  make_event-fact s f now {e} h =
      let (fact, p, h1) = >>=-eq-ok (create_fact c f) _ h in
      let (digest, _, h2) = >>=-eq-ok (fingerprint_fact c fact) _ h1 in
      let body = create_event-body _ h2 in
      (ap (λ b. b.fact) body ∙ create_fact-same f p, ap (λ b. b.occurred_at) body)

  append_event-event :
      (h : Handle) (e : Event) (ds : List Decision) {u : Update}
      → append_event c h e ds ≡ ok u
      → u.event ≡ e
  unfolding append_event
  append_event-event h e ds p =
      let (sources, _, p1) = >>=-eq-ok (index_sources c ds) _ p in
      let (next, _, p2) = >>=-eq-ok (apply_event c sources h.snapshot e) _ p1 in
      sym (ap (λ x. x.event) (ok-injective p2))

  append_event-Appended :
      (h : Handle) (e : Event) (ds : List Decision) {u : Update}
      → IsLive h
      → parse_snapshot c h.snapshot ≡ ok h.snapshot
      → parse_event c e ≡ ok e
      → append_event c h e ds ≡ ok u
      → Appended h ds u
  unfolding append_event
  append_event-Appended h e ds is_live parsed event_parsed p =
      let (sources, indexed, p1) = >>=-eq-ok (index_sources c ds) _ p in
      let (next, applied, p2) = >>=-eq-ok (apply_event c sources h.snapshot e) _ p1 in
      subst (Appended h ds) (ok-injective p2) (record {
        is_live = is_live;
        parsed = parsed;
        event_parsed = event_parsed;
        sources = sources;
        indexed = indexed;
        applied = applied;
        logged = refl;
      })

  -- The steps of an append; the snapshot that is required to be live is the given one.
  append_live-parts :
      (h : Handle) (f : Fact) (now : Text) (ds : List Decision) {u : Update}
      → append_live c h f now ds ≡ ok u
      → (held : Handle) × (require_live c h ≡ ok held)
        × ((make_event c held.snapshot f now >>= λ e. append_event c held e ds) ≡ ok u)
  unfolding append_live
  append_live-parts h f now ds p = >>=-eq-ok (require_live c h) _ p

  held_event :
      {h held : Handle} (f : Fact) (now : Text) (ds : List Decision) {u : Update}
      → held ≡ h
      → (make_event c held.snapshot f now >>= λ e. append_event c held e ds) ≡ ok u
      → (make_event c h.snapshot f now >>= λ e. append_event c h e ds) ≡ ok u
  held_event f now ds {u} same p =
      subst (λ k. (make_event c k.snapshot f now >>= λ e. append_event c k e ds) ≡ ok u) same p

  pub append_live-Appended :
      (h : Handle) (f : Fact) (now : Text) (ds : List Decision) {u : Update}
      → append_live c h f now ds ≡ ok u
      → Appended h ds u
  append_live-Appended h f now ds p =
      let (held, q, p0) = append_live-parts h f now ds p in
      let (is_live, parsed, same) = require_live-parts h q in
      let (event, made, p1) =
        >>=-eq-ok (make_event c h.snapshot f now) _ (held_event f now ds same p0) in
      append_event-Appended h event ds is_live parsed (make_event-parsed h.snapshot f now made) p1

  -- The event that a command appends carries the command's fact and time.
  pub append_live-fact :
      (h : Handle) (f : Fact) (now : Text) (ds : List Decision) {u : Update}
      → append_live c h f now ds ≡ ok u
      → (u.event.fact ≡ f) × (u.event.occurred_at ≡ now)
  append_live-fact h f now ds p =
      let (held, _, p0) = append_live-parts h f now ds p in
      let (event, made, p1) = >>=-eq-ok (make_event c held.snapshot f now) _ p0 in
      let (fact, time) = make_event-fact held.snapshot f now made in
      let same = append_event-event held event ds p1 in
      (ap (λ e. e.fact) same ∙ fact, ap (λ e. e.occurred_at) same ∙ time)

  pub next_number :
      (h : Handle) (ds : List Decision) {u : Update}
      → Appended h ds u
      → u.event.sequence ≡ h.snapshot.sequence + 1
  next_number h ds {u} done =
      let step = apply_event-Applied c done.sources h.snapshot u.event done.applied in
      unfold check_envelope in ground (arith, step.envelope)

  next_fresh :
      (s : Snapshot) (sources : Sources) (e : Event) {t : Snapshot}
      → e.sequence ≡ s.sequence + 1
      → apply_event c sources s e ≡ ok t
      → replay_fresh c sources s e ≡ ok t
  unfolding replay_fresh
  next_fresh s sources e next applied = ground (arith, holds (ℕ_discrete e.sequence s.sequence))

  replay_one_fresh :
      (h : Handle) (sources : Sources) (e : Event) {t : Snapshot}
      → replay_fresh c sources h.snapshot e ≡ ok t
      → replay_one c sources h e Seen.fresh ≡ ok (live t (map_set e.event_id e (history_of h)))
  unfolding replay_one
  replay_one_fresh h sources e p =
      ap (λ r. r >>= λ s. ok (live s (map_set e.event_id e (history_of h)))) p

  -- The event is new and the next one, so the loop applies it.
  pub replay_next :
      (h : Handle) (ds : List Decision) (sources : Sources) {u : Update}
      → Appended h ds u
      → apply_event c sources h.snapshot u.event ≡ ok u.handle.snapshot
      → map_get u.event.event_id (history_of h) ≡ none
      → replay_events c sources h (u.event ∷ []) ≡ ok u.handle
  unfolding replay_events
  replay_next h ds sources {u} done applied new =
      let fresh = next_fresh h.snapshot sources u.event (next_number h ds done) applied in
      let logged : live u.handle.snapshot (map_set u.event.event_id u.event (history_of h))
          ≡ u.handle =
        ap (λ x. record { snapshot = u.handle.snapshot; history = x }) (sym done.logged) in
      rw
        (
          done.event_parsed,
          look_up_of_new (history_of h) u.event new,
          replay_one_fresh h sources u.event fresh,
          logged,
        )
        refl

  -- A command's event, replayed onto the snapshot that the command was given, gives the command's own
  -- result, where the event's identity is new to the log.
  pub append_live-replay :
      (h : Handle) (f : Fact) (now : Text) (ds : List Decision) {u : Update}
      → append_live c h f now ds ≡ ok u
      → map_get u.event.event_id (history_of h) ≡ none
      → replay_from c h (u.event ∷ []) ds ≡ ok u.handle
  append_live-replay h f now ds {u} p new =
      let done = append_live-Appended h f now ds p in
      replay_from_of c h (u.event ∷ []) ds done.is_live refl done.indexed done.parsed
      ∙ replay_next h ds done.sources done done.applied new
