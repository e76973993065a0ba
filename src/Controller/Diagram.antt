-- ===== src/Controller/Diagram.antt =====
-- The life cycle of a controller as a graph of states, apart from the code, and that the code
-- follows it.
use tasc.Base.{◌≡◌, refl, ◌≢◌, ◌⊎◌, inl, inr, true, false, arith, ok}
use tasc.Text.{Text}
use tasc.Controller.Types.{
  State, Status, Assessment, Manifest, Evidence, Observation, Drift, Fact, Event, Snapshot,
  SnapshotBody, Contracts, state_eq,
}
use tasc.Controller.Facts.{
  Sources, on_registered, on_collection, on_evidence, on_development, on_shadow, on_holdout,
  on_manifest, on_window, on_deployment, on_drift, on_expiry, on_retired, on_fact, with_assessment,
  after_development, after_holdout, after_window,
}
use tasc.Controller.Apply.{apply_event}
use tasc.Controller.Apply.Parts.{apply_event-Applied}

-- `Edge s f t`: in state `s` the fact `f` may be recorded, and `t` is the state after it.
pub data Edge : State → Fact → State → Type 0 where
  register :
      {created expires : Text}
      → Edge State.draft (Fact.protocol_registered created expires) State.registered
  collect : {id : Text} → Edge State.registered (Fact.collection_started id) State.collecting
  ready : {e : Evidence} → Edge State.collecting (Fact.development_evidence_ready e) State.dev_ready
  nominate :
      {a : Assessment}
      → a.status ≡ Status.nominated
      → Edge State.dev_ready (Fact.development_assessment_recorded a) State.nominated
  decline :
      {a : Assessment}
      → a.status ≢ Status.nominated
      → a.status ≢ Status.stale
      → Edge State.dev_ready (Fact.development_assessment_recorded a) State.hold
  outdate :
      {a : Assessment}
      → a.status ≡ Status.stale
      → Edge State.dev_ready (Fact.development_assessment_recorded a) State.stale
  shadow :
      {frozen : Text}
      → Edge State.nominated (Fact.shadow_assessment_started frozen) State.shadow_assessing
  confirm :
      {a : Assessment}
      → a.status ≡ Status.pass
      → Edge State.shadow_assessing (Fact.holdout_assessment_recorded a) State.holdout_confirmed
  unconfirmed :
      {a : Assessment}
      → a.status ≢ Status.pass
      → a.status ≢ Status.stale
      → Edge State.shadow_assessing (Fact.holdout_assessment_recorded a) State.hold
  confirm_late :
      {a : Assessment}
      → a.status ≡ Status.stale
      → Edge State.shadow_assessing (Fact.holdout_assessment_recorded a) State.stale
  seal_early :
      {p : Manifest}
      → Edge State.shadow_assessing (Fact.window_manifest_recorded p) State.shadow_assessing
  seal :
      {p : Manifest}
      → Edge State.holdout_confirmed (Fact.window_manifest_recorded p) State.holdout_confirmed
  withdraw :
      {p : Manifest}
      → Edge State.promotion_recommended (Fact.window_manifest_recorded p) State.holdout_confirmed
  seal_later :
      {p : Manifest} → Edge State.monitoring (Fact.window_manifest_recorded p) State.monitoring
  recommend :
      {id : Text} {a : Assessment}
      → a.status ≡ Status.pass
      → Edge State.holdout_confirmed
          (Fact.window_assessment_recorded id a)
          State.promotion_recommended
  keep :
      {id : Text} {a : Assessment}
      → a.status ≡ Status.pass
      → Edge State.monitoring (Fact.window_assessment_recorded id a) State.monitoring
  roll_back :
      {id : Text} {a : Assessment}
      → a.status ≡ Status.hold
      → Edge State.monitoring (Fact.window_assessment_recorded id a) State.rollback_recommended
  refuse_window :
      {id : Text} {a : Assessment}
      → a.status ≢ Status.pass
      → a.status ≢ Status.stale
      → Edge State.holdout_confirmed (Fact.window_assessment_recorded id a) State.hold
  unclear :
      {id : Text} {a : Assessment}
      → a.status ≢ Status.pass
      → a.status ≢ Status.stale
      → a.status ≢ Status.hold
      → Edge State.monitoring (Fact.window_assessment_recorded id a) State.hold
  window_late :
      {s : State} {id : Text} {a : Assessment}
      → a.status ≡ Status.stale
      → (s ≡ State.holdout_confirmed) ⊎ (s ≡ State.monitoring)
      → Edge s (Fact.window_assessment_recorded id a) State.stale
  deploy :
      {o : Observation}
      → Edge State.promotion_recommended (Fact.deployment_observed o) State.monitoring
  drift :
      {s : State} {d : Drift}
      → s ≢ State.retired
      → Edge s (Fact.identity_drift_recorded d) State.stale
  expire :
      {s : State} {as_of : Text}
      → s ≢ State.retired
      → Edge s (Fact.protocol_expiry_observed as_of) State.stale
  retire :
      {s : State} {reason : Text}
      → s ≢ State.retired
      → Edge s (Fact.controller_retired reason) State.retired

after_development-Edge :
    (st : Status) (a : Assessment) (s : SnapshotBody)
    → a.status ≡ st
    → Edge State.dev_ready
        (Fact.development_assessment_recorded a)
        (after_development st s a.selected_policy).state
after_development-Edge Status.nominated a s e = nominate e
after_development-Edge Status.stale a s e = outdate e
after_development-Edge st a s e = decline (λ n. cc) (λ n. cc)

after_holdout-Edge :
    (st : Status) (a : Assessment) (s : SnapshotBody)
    → a.status ≡ st
    → Edge State.shadow_assessing (Fact.holdout_assessment_recorded a) (after_holdout st s).state
after_holdout-Edge Status.pass a s e = confirm e
after_holdout-Edge Status.stale a s e = confirm_late e
after_holdout-Edge st a s e = unconfirmed (λ n. cc) (λ n. cc)

confirmed-Edge :
    (st : Status) (id : Text) (a : Assessment) (s : SnapshotBody)
    → a.status ≡ st
    → Edge State.holdout_confirmed
        (Fact.window_assessment_recorded id a)
        (after_window st false s).state
confirmed-Edge Status.pass id a s e = recommend e
confirmed-Edge Status.stale id a s e = window_late e (inl refl)
confirmed-Edge Status.hold id a s e = refuse_window (λ n. cc) (λ n. cc)
confirmed-Edge st id a s e = refuse_window (λ n. cc) (λ n. cc)

monitored-Edge :
    (st : Status) (id : Text) (a : Assessment) (s : SnapshotBody)
    → a.status ≡ st
    → Edge State.monitoring (Fact.window_assessment_recorded id a) (after_window st true s).state
monitored-Edge Status.pass id a s e = keep e
monitored-Edge Status.stale id a s e = window_late e (inr refl)
monitored-Edge Status.hold id a s e = roll_back e
monitored-Edge st id a s e = unclear (λ n. cc) (λ n. cc) (λ n. cc)

on_development-inv :
    (sources : Sources) (a : Assessment) (s : SnapshotBody) {t : SnapshotBody}
    → on_development sources a s ≡ ok t
    → (s.state ≡ State.dev_ready)
      × (t ≡ after_development a.status (with_assessment s a) a.selected_policy)
unfolding on_development
on_development-inv sources a s h = ground arith

on_holdout-inv :
    (sources : Sources) (a : Assessment) (s : SnapshotBody) {t : SnapshotBody}
    → on_holdout sources a s ≡ ok t
    → (s.state ≡ State.shadow_assessing) × (t ≡ after_holdout a.status (with_assessment s a))
unfolding on_holdout
on_holdout-inv sources a s h = ground arith

on_window-inv :
    (sources : Sources) (id : Text) (a : Assessment) (s : SnapshotBody) {t : SnapshotBody}
    → on_window sources id a s ≡ ok t
    → ((s.state ≡ State.holdout_confirmed)
        × (t ≡ after_window a.status false (with_assessment s a)))
      ⊎ ((s.state ≡ State.monitoring) × (t ≡ after_window a.status true (with_assessment s a)))
unfolding on_window
on_window-inv sources id a s h = ground arith

on_fact-Edge :
    (sources : Sources) (now : Text) (f : Fact) (s : SnapshotBody) {t : SnapshotBody}
    → on_fact sources now f s ≡ ok t
    → s.state ≢ State.retired
    → Edge s.state f t.state
unfolding on_fact
on_fact-Edge sources now (Fact.protocol_registered created expires) s h alive =
    unfold on_registered in grind (arith, register)
on_fact-Edge sources now (Fact.collection_started id) s h alive =
    unfold on_collection in grind (arith, collect)
on_fact-Edge sources now (Fact.development_evidence_ready e) s h alive =
    unfold on_evidence in grind (arith, ready)
on_fact-Edge sources now (Fact.development_assessment_recorded a) s h alive =
    let (from, to) = on_development-inv sources a s h in
    rw (from, to) (after_development-Edge a.status a (with_assessment s a) refl)
on_fact-Edge sources now (Fact.shadow_assessment_started frozen) s h alive =
    unfold on_shadow in grind (arith, shadow)
on_fact-Edge sources now (Fact.holdout_assessment_recorded a) s h alive =
    let (from, to) = on_holdout-inv sources a s h in
    rw (from, to) (after_holdout-Edge a.status a (with_assessment s a) refl)
on_fact-Edge sources now (Fact.window_manifest_recorded p) s h alive =
    unfold on_manifest in grind (arith, seal_early, seal, withdraw, seal_later)
on_fact-Edge sources now (Fact.window_assessment_recorded id a) s h alive =
    elim (on_window-inv sources id a s h) [
      | inl (from, to) ↦ rw (from, to) (confirmed-Edge a.status id a (with_assessment s a) refl)
      | inr (from, to) ↦ rw (from, to) (monitored-Edge a.status id a (with_assessment s a) refl)
    ]
on_fact-Edge sources now (Fact.deployment_observed o) s h alive =
    unfold on_deployment in grind (arith, deploy)
on_fact-Edge sources now (Fact.identity_drift_recorded d) s h alive =
    unfold on_drift in grind (arith, drift)
on_fact-Edge sources now (Fact.protocol_expiry_observed as_of) s h alive =
    unfold on_expiry in grind (arith, expire)
on_fact-Edge sources now (Fact.controller_retired reason) s h alive =
    unfold on_retired in grind (arith, retire)

-- Whatever the event, the sources and the snapshot: if the event is accepted, the state moves along
-- an edge of the life cycle that its fact labels.
pub apply_event-Edge :
    (c : Contracts) (sources : Sources) (s : Snapshot) (e : Event) {t : Snapshot}
    → apply_event c sources s e ≡ ok t
    → Edge s.state e.fact t.state
apply_event-Edge c sources s e {t} h =
    let done = apply_event-Applied c sources s e h in
    rw done.body (on_fact-Edge sources e.occurred_at e.fact s.body done.fact done.alive)
