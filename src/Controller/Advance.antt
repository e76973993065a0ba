-- ===== src/Controller/Advance.antt =====
-- What one accepted event leaves alone, and what it adds.
use tasc.Base.{
  ℕ, ◌+◌, ◌≡◌, ◌≢◌, ◌⊎◌, inl, inr, true, false, [], ◌∷◌, ◌++◌, none, some, arith, ok, ◌∙◌,
}
use tasc.Base.Int.{is_neg}
use tasc.Text.{Text, compare_code_units}
use tasc.Controller.Types.{
  State, SelectedPolicy, Assessment, Fact, Event, Snapshot, SnapshotBody, Contracts,
}
use tasc.Controller.Log.{compare_timestamps}
use tasc.Controller.Envelope.{check_envelope, is_expiry_safe}
use tasc.Controller.Semantics.{Decisions, check_state}
use tasc.Controller.Coherent.{check_snapshot-Coherent}
use tasc.Controller.Facts.{
  Sources, on_registered, on_collection, on_evidence, on_development, on_shadow, on_holdout,
  on_manifest, on_window, on_deployment, on_drift, on_expiry, on_retired, on_fact,
}
use tasc.Controller.Apply.{apply_event, advance}
use tasc.Controller.Apply.Parts.{apply_event-Applied}

-- The identity of a controller: who it is, and the protocol that it serves.
pub record SameController (s t : SnapshotBody) : Type 0 where
  pub controller_id : t.controller_id ≡ s.controller_id
  pub study_id : t.study_id ≡ s.study_id
  pub protocol_digest : t.protocol_digest ≡ s.protocol_digest
  pub created_at : t.protocol_created_at ≡ s.protocol_created_at
  pub expires_at : t.protocol_expires_at ≡ s.protocol_expires_at

on_fact-SameController :
    (sources : Sources) (now : Text) (f : Fact) (s : SnapshotBody) {t : SnapshotBody}
    → on_fact sources now f s ≡ ok t
    → SameController s t
unfolding on_fact on_registered on_collection on_evidence on_development on_shadow on_holdout
    on_manifest on_window on_deployment on_drift on_expiry on_retired
on_fact-SameController sources now (Fact.protocol_registered created expires) s h = ground arith
on_fact-SameController sources now _ s h = ground arith

SameController-advance :
    (e : Event) {s t : SnapshotBody} → SameController s t → SameController s (advance e t)
SameController-advance e kept = record {
  controller_id = kept.controller_id;
  study_id = kept.study_id;
  protocol_digest = kept.protocol_digest;
  created_at = kept.created_at;
  expires_at = kept.expires_at;
}

-- A policy that is selected is not replaced, and only a decision on development data selects one.
on_fact-policy :
    (sources : Sources) (now : Text) (f : Fact) (s : SnapshotBody) {t : SnapshotBody}
    → on_fact sources now f s ≡ ok t
    → (t.selected_policy ≡ s.selected_policy) ⊎ (s.state ≡ State.dev_ready)
unfolding on_fact on_registered on_collection on_evidence on_development on_shadow on_holdout
    on_manifest on_window on_deployment on_drift on_expiry on_retired
on_fact-policy sources now (Fact.protocol_registered created expires) s h = ground arith
on_fact-policy sources now _ s h = ground arith

on_fact-assessments :
    (sources : Sources) (now : Text) (f : Fact) (s : SnapshotBody) {t : SnapshotBody}
    → on_fact sources now f s ≡ ok t
    → (t.assessments ≡ s.assessments)
      ⊎ ((a : Assessment) × (t.assessments ≡ s.assessments ++ a ∷ []))
unfolding on_fact on_registered on_collection on_evidence on_development on_shadow on_holdout
    on_manifest on_window on_deployment on_drift on_expiry on_retired
on_fact-assessments sources now (Fact.development_assessment_recorded a) s h = inr (a, ground arith)
on_fact-assessments sources now (Fact.holdout_assessment_recorded a) s h = inr (a, ground arith)
on_fact-assessments sources now (Fact.window_assessment_recorded id a) s h = inr (a, ground arith)
on_fact-assessments sources now _ s h = inl (ground arith)

-- Before the development decision no policy is selected.
dev_ready-no_policy :
    (s : SnapshotBody) (d : Decisions) (total : ℕ)
    → check_state s.state s d total ≡ ok tt
    → s.state ≡ State.dev_ready
    → s.selected_policy ≡ none
unfolding check_state
dev_ready-no_policy s d total h ready = ground arith

-- The identity of the controller never changes; the event takes the next sequence number, names its
-- predecessor, and becomes the last event.
pub record Advances (s : Snapshot) (e : Event) (t : Snapshot) : Type 0 where
  pub same : SameController s.body t.body
  pub addressed : e.controller_id ≡ s.controller_id
  pub numbered : t.sequence ≡ s.sequence + 1
  pub chained : e.predecessor_event_id ≡ s.last_event_id
  pub last : t.last_event_id ≡ some e.event_id
  pub timed : t.last_event_at ≡ some e.occurred_at
  pub not_before_creation : is_neg (compare_code_units e.occurred_at s.protocol_created_at) ≡ false
  pub not_before_last :
      (time : Text)
      → s.last_event_at ≡ some time
      → is_neg (compare_code_units e.occurred_at time) ≡ false
  pub not_expired :
      is_expiry_safe e.fact ≡ false
      → is_neg (compare_code_units e.occurred_at s.protocol_expires_at) ≡ true

-- An accepted event is addressed to this controller, has the next sequence number and names the last
-- event as its predecessor; it becomes the last event, and the identity of the controller and of its
-- protocol stays. It is not before the protocol's creation nor before the last event, and it is before
-- the protocol's expiry unless it records expiry, drift or retirement.
pub apply_event-Advances :
    (c : Contracts) (sources : Sources) (s : Snapshot) (e : Event) {t : Snapshot}
    → apply_event c sources s e ≡ ok t
    → Advances s e t
apply_event-Advances c sources s e {t} h =
    let done = apply_event-Applied c sources s e h in
    let kept = on_fact-SameController sources e.occurred_at e.fact s.body done.fact in
    record {
      same = rw done.body (SameController-advance e kept);
      addressed = unfold check_envelope in ground (arith, done.envelope);
      numbered = unfold check_envelope in ground (arith, done.envelope, done.body);
      chained = unfold check_envelope in ground (arith, done.envelope);
      last = ground (arith, done.body);
      timed = ground (arith, done.body);
      not_before_creation =
          unfold check_envelope compare_timestamps in ground (arith, done.envelope);
      not_before_last =
          λ time at. unfold check_envelope compare_timestamps in ground (arith, done.envelope);
      not_expired =
          λ unsafe. unfold check_envelope compare_timestamps in ground (arith, done.envelope);
    }

-- A selected policy is frozen: no later event replaces it or takes it away.
pub apply_event-frozen :
    (c : Contracts) (sources : Sources) (s : Snapshot) (e : Event) {t : Snapshot}
    → apply_event c sources s e ≡ ok t
    → (p : SelectedPolicy) → s.selected_policy ≡ some p
    → t.selected_policy ≡ some p
apply_event-frozen c sources s e {t} h p selected =
    let done = apply_event-Applied c sources s e h in
    let coherent = check_snapshot-Coherent s.body done.before.coherent in
    rw done.body (elim (on_fact-policy sources e.occurred_at e.fact s.body done.fact) [
      | inl kept ↦ kept ∙ selected
      | inr ready ↦ cc (
        dev_ready-no_policy s.body coherent.decisions coherent.total coherent.state ready,
        selected,
      )
    ])

-- An accepted event keeps the assessments or adds one at their end.
pub apply_event-assessments :
    (c : Contracts) (sources : Sources) (s : Snapshot) (e : Event) {t : Snapshot}
    → apply_event c sources s e ≡ ok t
    → (t.assessments ≡ s.assessments)
      ⊎ ((a : Assessment) × (t.assessments ≡ s.assessments ++ a ∷ []))
apply_event-assessments c sources s e {t} h =
    let done = apply_event-Applied c sources s e h in
    rw done.body (on_fact-assessments sources e.occurred_at e.fact s.body done.fact)

-- A retired controller accepts no event.
pub apply_event-retired :
    (c : Contracts) (sources : Sources) (s : Snapshot) (e : Event) (t : Snapshot)
    → s.state ≡ State.retired
    → apply_event c sources s e ≢ ok t
apply_event-retired c sources s e t retired h = (apply_event-Applied c sources s e h).alive retired
