-- ===== src/Controller/Resume.antt =====
-- A checkpoint behind a verified prefix stands for the events of that prefix.
use tasc.Base.{
  ◌≤◌, ◌≡◌, sym, ap, ◌∙◌, true, List, ◌++◌, arith, leb, ◌==◌, length, length-append, ok, require,
  subst, ◌>>=◌, >>=-eq-ok, ok-injective, le→leb, nat_eq,
}
use mathlib.Core.Path.{◌≡⟨◌⟩◌, ◌∎}
use tasc.Controller.Types.{Event, Snapshot, Contracts, snapshot_eq, state_eq}
use tasc.Controller.Schema.{max_controller_events}
use tasc.Controller.Errors.{Error, prefix_mismatch}
use tasc.Controller.Log.{parse_snapshot}
use tasc.Controller.Decisions.{Decision}
use tasc.Controller.Apply.Parts.{parse_snapshot-IsParsed, parse_snapshot_of_IsParsed}
use tasc.Controller.Replay.{Handle, live, history_of, replay_events, replay_from, replay}
use tasc.Controller.Replay.Append.{
  IsLive, live_eta, require_live-IsLive, Replayed, replay-Replayed, replay_events-append,
  replay_events-IsLive, replay_from_of, replay_of,
}
use tasc.Controller.Checkpoint.{complete_prefix, capture, verify_checkpoint, resume}

equal_of_require : (a b : Snapshot) (e : Error) {u : Unit {0}} → require (a == b) e ≡ ok u → a ≡ b
equal_of_require a b e h = ground arith

module _ (c : Contracts) (s : Snapshot) (g : Handle) (xs : List Event) (ds : List Decision) where
  Replayed-IsLive : {k : Handle} → Replayed c g xs ds k → IsLive k
  Replayed-IsLive done =
      replay_events-IsLive c done.sources done.genesis xs (require_live-IsLive c g done.held)
        done.events

  -- A verified prefix replays to the checkpoint's snapshot.
  verify-parts :
      {k : Handle}
      → verify_checkpoint c s (complete_prefix g xs ds) ≡ ok k
      → (parse_snapshot c k.snapshot ≡ ok k.snapshot) × Replayed c g xs ds k
  unfolding verify_checkpoint
  verify-parts {k} h =
      let (x, parsed, h1) = >>=-eq-ok (parse_snapshot c s) _ h in
      let (_, _, h2) = >>=-eq-ok (capture (complete_prefix g xs ds)) _ h1 in
      let (r, replayed, h3) = >>=-eq-ok (replay c g xs ds) _ h2 in
      let (_, equal, h4) = >>=-eq-ok (require (r.snapshot == x) prefix_mismatch) _ h3 in
      let (same, s_parsed) = parse_snapshot-IsParsed c s parsed in
      let r_is_x = equal_of_require r.snapshot x prefix_mismatch equal in
      let done = replay-Replayed c g xs ds replayed in
      let r_is_k : r ≡ k =
        sym (live_eta r (Replayed-IsLive done))
        ∙ ap (λ t. live t (history_of r)) r_is_x
        ∙ ok-injective h4 in
      let x_parses : parse_snapshot c x ≡ ok x =
        rw same (parse_snapshot_of_IsParsed c s s_parsed) in
      subst (λ y. (parse_snapshot c y.snapshot ≡ ok y.snapshot) × Replayed c g xs ds y) r_is_k
        (rw r_is_x x_parses, done)

  resume_of :
      (ys : List Event) {k : Handle}
      → verify_checkpoint c s (complete_prefix g xs ds) ≡ ok k
      → resume c s (complete_prefix g xs ds) ys ds ≡ replay_from c k ys ds
  unfolding resume
  resume_of ys h = rw h

  -- Where prefix and suffix together have at most 10000 events, resuming from a checkpoint that its
  -- complete prefix verifies is replaying prefix and suffix from the genesis: the same handle, or the
  -- same error. The prefix, the suffix and the whole are replayed with one list of decisions.
  pub resume-replay :
      (ys : List Event) {k : Handle}
      → verify_checkpoint c s (complete_prefix g xs ds) ≡ ok k
      → length (xs ++ ys) ≤ max_controller_events
      → resume c s (complete_prefix g xs ds) ys ds ≡ replay c g (xs ++ ys) ds
  resume-replay ys {k} h bounded =
      let (parsed, done) = verify-parts h in
      let suffix : leb (length ys) max_controller_events ≡ true =
        le→leb _ _ (omega (arith, length-append xs ys)) in
      resume c s (complete_prefix g xs ds) ys ds
      ≡⟨ resume_of ys h ⟩ replay_from c k ys ds
      ≡⟨ replay_from_of c k ys ds (Replayed-IsLive done) suffix done.indexed parsed ⟩
        replay_events c done.sources k ys
      ≡⟨ sym (ap (λ r. r >>= λ h. replay_events c done.sources h ys) done.events) ⟩
        (replay_events c done.sources done.genesis xs >>= λ h. replay_events c done.sources h ys)
      ≡⟨ sym (replay_events-append c done.sources done.genesis xs ys) ⟩
        replay_events c done.sources done.genesis (xs ++ ys)
      ≡⟨ sym (
          replay_from_of c done.genesis (xs ++ ys) ds (require_live-IsLive c g done.held)
            (le→leb _ _ bounded) done.indexed done.parsed) ⟩
        replay_from c done.genesis (xs ++ ys) ds
      ≡⟨ sym (replay_of c g (xs ++ ys) ds done.held done.empty) ⟩ replay c g (xs ++ ys) ds ∎
