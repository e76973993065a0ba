-- ===== src/Controller/Commands/Expiry.antt =====
-- The observation of the protocol's time.
use tasc.Base.{
  ◌≡◌, refl, sym, ap, ◌∙◌, subst, Bool, true, false, [], Option, none, some, arith, ==_refl,
  includes, ◌||◌, ok, ◌>>=◌, >>=-eq-ok, ok-injective, if◌then◌else◌, ◌⊎◌, inl, inr,
}
use tasc.Base.Int.{ℤ, is_neg}
use tasc.Text.{Text, text_eq, compare_code_units}
use tasc.Controller.Types.{State, Fact, Event, Snapshot, SnapshotBody, Contracts}
use tasc.Controller.Errors.{time_before_creation}
use tasc.Controller.Log.{compare_timestamps}
use tasc.Controller.Envelope.{refuse_before}
use tasc.Controller.Facts.{Sources, on_fact, on_expiry, protocol_expired, append_reason}
use tasc.Controller.Facts.Reasons.{append_reason-set}
use tasc.Controller.Apply.Parts.{apply_event-Applied}
use tasc.Controller.Replay.{Handle, require_live}
use tasc.Controller.Commands.{Update, append_live, observe_time}
use tasc.Controller.Commands.Logged.{require_live-parts, append_live-Appended, append_live-fact}

-- STALE, with the reason that the protocol expired.
abbrev pub IsExpired : Snapshot → Type 0
IsExpired s = (s.state ≡ State.stale) × (includes s.stale_reasons protocol_expired ≡ true)

on_expiry-stale :
    (sources : Sources) (now as_of : Text) (s : SnapshotBody) {t : SnapshotBody}
    → on_fact sources now (Fact.protocol_expiry_observed as_of) s ≡ ok t
    → (t.state ≡ State.stale) × (t.stale_reasons ≡ append_reason s.stale_reasons protocol_expired)
unfolding on_fact on_expiry
on_expiry-stale sources now as_of s h = (ground arith, ground arith)

compared_is : (a b : Text) {d : ℤ} → compare_timestamps a b ≡ ok d → d ≡ compare_code_units a b
unfolding compare_timestamps
compared_is a b h = ground arith

-- The two results of an observation.
abbrev unchanged : Handle → Option Event × Handle
unchanged h = (none, h)

abbrev recorded : Update → Option Event × Handle
recorded u = (some u.event, u.handle)

module _ (c : Contracts) where
  expiry-IsExpired :
      (h : Handle) (as_of : Text) {u : Update}
      → append_live c h (Fact.protocol_expiry_observed as_of) as_of [] ≡ ok u
      → IsExpired u.handle.snapshot
  expiry-IsExpired h as_of {u} p =
      let done = append_live-Appended c h (Fact.protocol_expiry_observed as_of) as_of [] p in
      let (fact, _) = append_live-fact c h (Fact.protocol_expiry_observed as_of) as_of [] p in
      let step = apply_event-Applied c done.sources h.snapshot u.event done.applied in
      let (state, reasons) =
        on_expiry-stale done.sources u.event.occurred_at as_of h.snapshot.body (
          subst (λ f. on_fact done.sources u.event.occurred_at f h.snapshot.body ≡ ok step.changed)
            fact step.fact) in
      let (_, members) = append_reason-set h.snapshot.stale_reasons protocol_expired in
      (
        ap (λ b. b.state) step.body ∙ state,
        ap (λ b. includes b.stale_reasons protocol_expired) step.body
            ∙ ap (λ r. includes r protocol_expired) reasons
            ∙ members protocol_expired
            ∙ ap (λ b. b || includes h.snapshot.stale_reasons protocol_expired)
                (==_refl protocol_expired),
      )

  -- The last step of `observe_time`, by whether the time is before expiry.
  observed :
      (h k : Handle) (as_of : Text) (early : Bool) (event : Option Event)
      → (if early
          then ok (unchanged h)
          else (append_live c h (Fact.protocol_expiry_observed as_of) as_of [] >>= λ u.
              ok (recorded u)))
        ≡ ok (event, k)
      → ((early ≡ true) × (event ≡ none) × (k ≡ h)) ⊎ ((early ≡ false) × IsExpired k.snapshot)
  observed h k as_of true event p =
      inl (refl, sym (ap (λ x. x.0) (ok-injective p)), sym (ap (λ x. x.1) (ok-injective p)))
  observed h k as_of false event p =
      let (u, q, r) =
        >>=-eq-ok (append_live c h (Fact.protocol_expiry_observed as_of) as_of []) _ p in
      inr (
        refl,
        subst (λ x. IsExpired x.snapshot) (ap (λ x. x.1) (ok-injective r))
            (expiry-IsExpired h as_of q),
      )

  -- Observing a time before the protocol's expiry records nothing and gives the snapshot back;
  -- observing a later one, or the expiry itself, makes the controller STALE for the reason that the
  -- protocol expired.
  pub observe_time-expires :
      (h k : Handle) (as_of : Text) (event : Option Event)
      → observe_time c h as_of ≡ ok (event, k)
      → ((is_neg (compare_code_units as_of h.snapshot.protocol_expires_at) ≡ true)
          × (event ≡ none)
          × (k ≡ h))
        ⊎ ((is_neg (compare_code_units as_of h.snapshot.protocol_expires_at) ≡ false)
            × IsExpired k.snapshot)
  unfolding observe_time
  observe_time-expires h k as_of event p =
      let (held, q, p1) = >>=-eq-ok (require_live c h) _ p in
      let (_, _, same) = require_live-parts c h q in
      let (_, _, p2) =
        >>=-eq-ok (refuse_before as_of held.snapshot.protocol_created_at time_before_creation) _
          p1 in
      let (d, compared, p3) =
        >>=-eq-ok (compare_timestamps as_of held.snapshot.protocol_expires_at) _ p2 in
      let difference = compared_is as_of held.snapshot.protocol_expires_at compared in
      subst
        (λ x.
          ((is_neg x ≡ true) × (event ≡ none) × (k ≡ h))
          ⊎ ((is_neg x ≡ false) × IsExpired k.snapshot))
        (difference ∙ ap (λ x. compare_code_units as_of x.snapshot.protocol_expires_at) same)
        (observed h k as_of (is_neg d) event p3)
