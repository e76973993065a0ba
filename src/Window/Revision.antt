-- ===== src/Window/Revision.antt =====
-- A revision that src/window.ts creates is one that the controller accepts after its predecessor.
use tasc.Base.{
  ◌≡◌, refl, sym, ap, ◌∙◌, subst, inl, inr, true, false, ◌&&◌, List, some, arith, ltb, ◌==◌, nat_eq,
  option_eq, last?, holds, Option-cases, ok, require, refuse, >>=-eq-ok,
}
use tasc.Base.Int.{is_neg}
use tasc.Text.{Text, text_eq, compare_code_units}
use tasc.Timestamp.{Fields, match_timestamp, is_timestamp, stamp, milliseconds}
use tasc.Timestamp.Order.{compare-stamp}
use tasc.Work.{max_safe_integer}
use tasc.Controller.Types.{Manifest, Ledger}
use tasc.Controller.Log.{compare_timestamps}
use tasc.Controller.Ledger.{find_ledger, check_next, append_revision, apply_existing, apply_window}
use tasc.Window.Types.{
  Capacity-discrete, capacity_eq, WindowManifest, Changes, WindowContracts, not_in_bounds,
  bad_shape, watermark_back, nothing_changed, too_many_revisions,
}
use tasc.Window.{
  check_body, parse_manifest, revision_body, revise, create_revision, project_manifest,
}
use tasc.Window.Schema.{valid_changes}

is_timestamp-match :
    (t : Text) → is_timestamp t ≡ true → (f : Fields) × (match_timestamp t ≡ some f)
unfolding is_timestamp
is_timestamp-match t h = elim (Option-cases (match_timestamp t)) [
  | inl never ↦ ground (arith, never)
  | inr found ↦ found
]

milliseconds-stamp : (t : Text) {f : Fields} → match_timestamp t ≡ some f → milliseconds t ≡ stamp f
unfolding milliseconds
milliseconds-stamp t h = ground (arith, h)

-- Two controller timestamps compare as their times do.
pub compare-milliseconds :
    (a b : Text)
    → is_timestamp a ≡ true
    → is_timestamp b ≡ true
    → is_neg (compare_code_units a b) ≡ ltb (milliseconds a) (milliseconds b)
compare-milliseconds a b p q =
    let (f, pf) = is_timestamp-match a p in
    let (g, qg) = is_timestamp-match b q in
    let (below, _) = compare-stamp a b f g pf qg in
    rw (milliseconds-stamp a pf, milliseconds-stamp b qg) below

module _ (w : WindowContracts) where
  -- The projection, of a manifest that parses.
  abbrev pub projection : WindowManifest → Manifest
  projection p = record {
    window_id = p.window_id;
    manifest_digest = p.self_digest;
    protocol_digest = p.protocol_digest;
    frozen_policy_digest = p.frozen_policy_digest;
    event_time_start_inclusive = p.event_time_start_inclusive;
    event_time_end_exclusive = p.event_time_end_exclusive;
    ingestion_watermark = p.ingestion_watermark;
    revision = p.revision;
    predecessor_manifest_digest = p.predecessor_manifest_digest;
    trace_set_digest = p.trace_set_digest;
    evaluator_set_digest = p.evaluator_set_digest;
    capacity_evidence_digest = w.digest_capacity p.capacity_evidence;
  }

  pub parse_manifest-same :
      (m : WindowManifest) {n : WindowManifest}
      → parse_manifest w m ≡ ok n
      → (n ≡ m) × (parse_manifest w m ≡ ok m)
  unfolding parse_manifest
  parse_manifest-same m h = ground arith

  project_of_parsed :
      (m : WindowManifest) → parse_manifest w m ≡ ok m → project_manifest w m ≡ ok (projection m)
  unfolding project_manifest
  project_of_parsed m h = rw h refl

  -- What a created revision is made of.
  pub record Revised (p : WindowManifest) (c : Changes) (n : WindowManifest) : Type 0 where
    pub previous : parse_manifest w p ≡ ok p
    pub next : parse_manifest w n ≡ ok n
    pub body : n.body ≡ revision_body w p c
    pub watermark :
        ltb (milliseconds c.ingestion_watermark) (milliseconds p.ingestion_watermark) ≡ false
    pub changed :
        (c.trace_set_digest == p.trace_set_digest
          && c.evaluator_set_digest == p.evaluator_set_digest
          && c.capacity_evidence == p.capacity_evidence)
        ≡ false

  pub create_revision-Revised :
      (p : WindowManifest) (c : Changes) {n : WindowManifest}
      → create_revision w p c ≡ ok n
      → Revised p c n
  unfolding create_revision revise
  create_revision-Revised p c {n} h =
      let (q, parsed, h1) = >>=-eq-ok (parse_manifest w p) _ h in
      let (same, good) = parse_manifest-same p parsed in
      let h1' = subst (λ x. revise w x c ≡ ok n) same h1 in
      let (_, _, h2) = >>=-eq-ok (require (w.fits_changes c) not_in_bounds) _ h1' in
      let (_, _, h3) = >>=-eq-ok (require (valid_changes c) bad_shape) _ h2 in
      let (_, watermark, h4) =
        >>=-eq-ok
          (refuse (ltb (milliseconds c.ingestion_watermark) (milliseconds p.ingestion_watermark))
            watermark_back)
          _ h3 in
      let (_, changed, h5) =
        >>=-eq-ok
          (refuse
            (c.trace_set_digest == p.trace_set_digest
              && c.evaluator_set_digest == p.evaluator_set_digest
              && c.capacity_evidence == p.capacity_evidence)
            nothing_changed)
          _ h4 in
      let (_, _, h6) =
        >>=-eq-ok (refuse (p.revision == max_safe_integer) too_many_revisions) _ h5 in
      let (_, _, h7) = >>=-eq-ok (check_body w (revision_body w p c)) _ h6 in
      let (last_same, last_good) = parse_manifest-same _ h7 in
      record {
        previous = good;
        next = subst (λ x. parse_manifest w x ≡ ok x) (sym last_same) last_good;
        body = ap (λ x. x.body) last_same;
        watermark = ground arith;
        changed = ground arith;
      }

  next_guards :
      (p n : WindowManifest) (c : Changes)
      → Revised p c n
      → is_timestamp p.ingestion_watermark ≡ true
      → is_timestamp c.ingestion_watermark ≡ true
      → (w.digest_capacity c.capacity_evidence ≡ w.digest_capacity p.capacity_evidence
          → c.capacity_evidence ≡ p.capacity_evidence)
      → check_next
          (projection p)
          (projection (record { body = revision_body w p c; self_digest = n.self_digest }))
        ≡ ok tt
  unfolding check_next compare_timestamps
  next_guards p n c r old new apart = ground (
    arith,
    r.watermark,
    r.changed,
    old,
    new,
    compare-milliseconds c.ingestion_watermark p.ingestion_watermark new old,
    holds (Capacity-discrete c.capacity_evidence p.capacity_evidence),
  )

  -- The projection of a created revision passes the controller's guards after that of its
  -- predecessor.
  pub create_revision-next :
      (p n : WindowManifest) (c : Changes)
      → create_revision w p c ≡ ok n
      → is_timestamp p.ingestion_watermark ≡ true
      → is_timestamp c.ingestion_watermark ≡ true
      → (w.digest_capacity c.capacity_evidence ≡ w.digest_capacity p.capacity_evidence
          → c.capacity_evidence ≡ p.capacity_evidence)
      → (project_manifest w p ≡ ok (projection p))
        × (project_manifest w n ≡ ok (projection n))
        × (check_next (projection p) (projection n) ≡ ok tt)
  create_revision-next p n c h old new apart =
      let r = create_revision-Revised p c h in
      (
        project_of_parsed p r.previous,
        project_of_parsed n r.next,
        subst
            (λ b.
              check_next (projection p)
                (projection (record { body = b; self_digest = n.self_digest }))
              ≡ ok tt)
            (sym r.body) (next_guards p n c r old new apart),
      )

apply_window_of_next :
    (windows : List Ledger) (l : Ledger) (p n : Manifest)
    → find_ledger n.window_id windows ≡ some l
    → last? l.revisions ≡ some p
    → check_next p n ≡ ok tt
    → apply_window windows n ≡ ok (append_revision n windows)
unfolding apply_window apply_existing
apply_window_of_next windows l p n found latest guards =
    rw (apply_window, found, latest, apply_existing, guards) refl

-- Where a ledger's last revision is the projection of a manifest, any revision created from that
-- manifest projects, and `applyWindowProjection` appends the projection to the ledger. It is required
-- that both watermarks are controller timestamps, which have no year 0, and that the capacity digest
-- tells the two declarations apart.
pub create_revision-accepted :
    (w : WindowContracts) (windows : List Ledger) (l : Ledger) (p n : WindowManifest) (c : Changes)
    → create_revision w p c ≡ ok n
    → is_timestamp p.ingestion_watermark ≡ true
    → is_timestamp c.ingestion_watermark ≡ true
    → (w.digest_capacity c.capacity_evidence ≡ w.digest_capacity p.capacity_evidence
        → c.capacity_evidence ≡ p.capacity_evidence)
    → find_ledger p.window_id windows ≡ some l
    → last? l.revisions ≡ some (projection w p)
    → (project_manifest w n ≡ ok (projection w n))
      × (apply_window windows (projection w n) ≡ ok (append_revision (projection w n) windows))
create_revision-accepted w windows l p n c h old new apart found latest =
    let (_, projected, guards) = create_revision-next w p n c h old new apart in
    let same = ap (λ b. b.window_id) (create_revision-Revised w p c h).body in
    (
      projected,
      apply_window_of_next windows l (projection w p) (projection w n)
          (ap (λ id. find_ledger id windows) same ∙ found) latest guards,
    )
