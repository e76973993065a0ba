-- ===== src/Controller/Replay/Induction.antt =====
-- What holds of every accepted event holds of a whole replay.
use tasc.Base.{
  ◌≤◌, ◌≡◌, refl, ap, ◌∙◌, subst, ◌⊎◌, inl, inr, ◌&&◌, List, [], ◌∷◌, ◌++◌, some, arith, ◌==◌,
  nat_eq, option_eq, Bool-cases, ok, >>=-eq-ok, ok-injective,
}
use tasc.Text.{text_eq}
use tasc.Controller.Types.{State, SelectedPolicy, Assessment, Event, Snapshot, Contracts}
use tasc.Controller.Log.{parse_event}
use tasc.Controller.Facts.{Sources}
use tasc.Controller.Apply.{apply_event}
use tasc.Controller.Advance.{
  SameController, apply_event-Advances, apply_event-frozen, apply_event-assessments,
  apply_event-retired,
}
use tasc.Controller.Replay.{
  Handle, Seen, history_of, look_up, replay_fresh, replay_one, replay_events,
}

module _ (c : Contracts) (sources : Sources) (R : Snapshot → Snapshot → Type 0)
    (same : (s : Snapshot) → R s s) (compose : (s t u : Snapshot) → R s t → R t u → R s u)
    (step : (s : Snapshot) (e : Event) (t : Snapshot)
      → apply_event c sources s e ≡ ok t
      → R s t) where
  replay_fresh-relates :
      (s : Snapshot) (e : Event) (t : Snapshot) → replay_fresh c sources s e ≡ ok t → R s t
  unfolding replay_fresh
  replay_fresh-relates s e t p =
      elim (Bool-cases (some e.event_id == s.last_event_id && e.sequence == s.sequence)) [
        | inl again ↦ subst (R s) (ok-injective (rw again at p)) (same s)
        | inr next ↦ step s e t (rw next at p)
      ]

  replay_one-relates :
      (h : Handle) (e : Event) (seen : Seen) (k : Handle)
      → replay_one c sources h e seen ≡ ok k
      → R h.snapshot k.snapshot
  unfolding replay_one
  replay_one-relates h e Seen.repeated k p =
      subst (λ x. R h.snapshot x.snapshot) (ok-injective p) (same h.snapshot)
  replay_one-relates h e Seen.conflicting k p = cc
  replay_one-relates h e Seen.fresh k p =
      let (s, q, r) = >>=-eq-ok (replay_fresh c sources h.snapshot e) _ p in
      subst (λ x. R h.snapshot x.snapshot) (ok-injective r) (replay_fresh-relates h.snapshot e s q)

  -- A relation that accepted events keep, and that composes, relates both ends of a replay.
  pub replay_events-relates :
      (h : Handle) (xs : List Event) (k : Handle)
      → replay_events c sources h xs ≡ ok k
      → R h.snapshot k.snapshot
  unfolding replay_events
  replay_events-relates h [] k p =
      subst (λ x. R h.snapshot x.snapshot) (ok-injective p) (same h.snapshot)
  replay_events-relates h (x ∷ xs) k p =
      let (e, _, p1) = >>=-eq-ok (parse_event c x) _ p in
      let (m, q, p2) = >>=-eq-ok (replay_one c sources h e (look_up (history_of h) e)) _ p1 in
      compose h.snapshot m.snapshot k.snapshot (replay_one-relates h e _ m q)
        (replay_events-relates m xs k p2)

-- A later snapshot of the same log: one controller, a policy that stays once it is selected, and
-- assessments that are only added to.
pub record Extends (s t : Snapshot) : Type 0 where
  pub controller : SameController s.body t.body
  pub policy : (p : SelectedPolicy) → s.selected_policy ≡ some p → t.selected_policy ≡ some p
  pub added : List Assessment
  pub assessments : t.assessments ≡ s.assessments ++ added
  pub sequence : s.sequence ≤ t.sequence

append_nil : (xs : List Assessment) → xs ≡ xs ++ []
append_nil [] = refl
append_nil (x ∷ xs) = ap (λ ys. x ∷ ys) (append_nil xs)

append_assoc : (xs ys zs : List Assessment) → (xs ++ ys) ++ zs ≡ xs ++ (ys ++ zs)
append_assoc [] ys zs = refl
append_assoc (x ∷ xs) ys zs = ap (λ us. x ∷ us) (append_assoc xs ys zs)

Extends-same : (s : Snapshot) → Extends s s
Extends-same s = record {
  controller = record {
    controller_id = refl;
    study_id = refl;
    protocol_digest = refl;
    created_at = refl;
    expires_at = refl;
  };
  policy = λ p h. h;
  added = [];
  assessments = append_nil s.assessments;
  sequence = omega arith;
}

Extends-then : (s t u : Snapshot) → Extends s t → Extends t u → Extends s u
Extends-then s t u a b = record {
  controller = record {
    controller_id = b.controller.controller_id ∙ a.controller.controller_id;
    study_id = b.controller.study_id ∙ a.controller.study_id;
    protocol_digest = b.controller.protocol_digest ∙ a.controller.protocol_digest;
    created_at = b.controller.created_at ∙ a.controller.created_at;
    expires_at = b.controller.expires_at ∙ a.controller.expires_at;
  };
  policy = λ p h. b.policy p (a.policy p h);
  added = a.added ++ b.added;
  assessments =
      b.assessments
      ∙ ap (λ xs. xs ++ b.added) a.assessments
      ∙ append_assoc s.assessments a.added b.added;
  sequence = omega (arith, a.sequence, b.sequence);
}

added_by :
    (s t : Snapshot)
    → (t.assessments ≡ s.assessments)
      ⊎ ((a : Assessment) × (t.assessments ≡ s.assessments ++ a ∷ []))
    → (added : List Assessment) × (t.assessments ≡ s.assessments ++ added)
added_by s t (inl kept) = ([], kept ∙ append_nil s.assessments)
added_by s t (inr (a, more)) = (a ∷ [], more)

module _ (c : Contracts) (sources : Sources) where
  apply_event-Extends :
      (s : Snapshot) (e : Event) (t : Snapshot) → apply_event c sources s e ≡ ok t → Extends s t
  apply_event-Extends s e t h =
      let advances = apply_event-Advances c sources s e h in
      let (added, assessments) = added_by s t (apply_event-assessments c sources s e h) in
      record {
        controller = advances.same;
        policy = apply_event-frozen c sources s e h;
        added = added;
        assessments = assessments;
        sequence = omega (arith, advances.numbered);
      }

  -- Along any replay the controller and its protocol stay, a selected policy stays, assessments are
  -- only added at the end, and the sequence number does not fall.
  pub replay_events-Extends :
      (h : Handle) (xs : List Event) (k : Handle)
      → replay_events c sources h xs ≡ ok k
      → Extends h.snapshot k.snapshot
  replay_events-Extends =
      replay_events-relates c sources Extends Extends-same Extends-then apply_event-Extends

  -- No replay moves a retired controller: whatever events it accepts, the snapshot is the given one.
  pub replay_events-retired :
      (h : Handle) (xs : List Event) (k : Handle)
      → replay_events c sources h xs ≡ ok k
      → h.snapshot.state ≡ State.retired
      → k.snapshot ≡ h.snapshot
  replay_events-retired =
      replay_events-relates c sources (λ s t. s.state ≡ State.retired → t ≡ s) (λ s r. refl)
        (λ s t u f g r. g (ap (λ x. x.state) (f r) ∙ r) ∙ f r)
        (λ s e t h r. absurd (apply_event-retired c sources s e t r h))
