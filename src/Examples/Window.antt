-- ===== src/Examples/Window.antt =====
-- The theorems on windows, at one manifest, its revision and one trace.
use tasc.Base.{
  ℕ, zero, suc, ◌+◌, ◌≡◌, refl, ◌≤◌, true, [], ◌∷◌, ◌++◌, none, some, ok, arith, ℕ_discrete,
}
use tasc.Text.{Text, codes, is_slug, is_digest, Text-discrete}
use tasc.Timestamp.{is_timestamp, is_contract_timestamp, milliseconds}
use tasc.Controller.Types.{Ledger}
use tasc.Controller.Ledger.{find_ledger, append_revision, apply_window}
use tasc.Window.Types.{
  unavailable, ManifestBody, WindowManifest, Changes, Attempt, Trace, WindowContracts,
  Capacity-discrete,
}
use tasc.Window.{create_revision, project_manifest}
use tasc.Window.Schema.{valid_body, valid_changes}
use tasc.Window.Traces.{assert_trace_belongs}
use tasc.Window.Revision.{projection, create_revision-accepted}
use tasc.Window.Identity.{create_revision-keeps_traces}
use tasc.Window.Membership.{Belongs, assert_trace-Belongs, assert_trace-disjoint}

abbrev replicate : ℕ → ℕ → Text
replicate zero c = []
replicate (suc n) c = c ∷ replicate n c

abbrev digest_with : ℕ → Text
digest_with c = codes "sha256:" ++ (replicate 63 b'a' ++ c ∷ [])

-- Stands for SHA-256.
abbrev contracts : WindowContracts
contracts = record {
  digest_manifest = λ m. digest_with (b'0' + m.revision);
  digest_membership = λ _ _ _. digest_with b'f';
  digest_capacity = λ _. digest_with b'e';
  digest_selection = λ _ _ _. 30012;
  fits_manifest = λ _. true;
  fits_changes = λ _. true;
  fits_body = λ _. true;
  fits_binding = λ _ _ _. true;
  fits_selection = λ _ _ _. true;
  fits_policy = λ _. true;
}

abbrev body : Text → Text → ManifestBody
body start end = record {
  window_id = codes "window";
  protocol_digest = digest_with b'1';
  frozen_policy_digest = digest_with b'2';
  event_time_start_inclusive = start;
  event_time_end_exclusive = end;
  ingestion_watermark = codes "2026-07-29T00:00:00.000Z";
  closure_reason = codes "elapsed";
  membership_rule = record { seed = codes "seed"; sample_basis_points = 5000 };
  membership_digest = digest_with b'f';
  revision = 1;
  predecessor_manifest_digest = none;
  trace_set_digest = digest_with b'4';
  evaluator_set_digest = digest_with b'5';
  capacity_evidence = unavailable (codes "none");
}

abbrev day : ℕ → Text
day c = codes "2026-07-2" ++ c ∷ codes "T00:00:00.000Z"

abbrev sealed : ManifestBody → WindowManifest
sealed m = record { body = m; self_digest = digest_with (b'0' + m.revision) }

abbrev first : WindowManifest
first = sealed (body (day b'2') (day b'3'))

abbrev next : WindowManifest
next = sealed (body (day b'3') (day b'4'))

abbrev changes : Changes
changes = record {
  ingestion_watermark = codes "2026-07-29T12:00:00.000Z";
  closure_reason = codes "late-data";
  trace_set_digest = digest_with b'6';
  evaluator_set_digest = digest_with b'5';
  capacity_evidence = unavailable (codes "none");
}

abbrev second : WindowManifest
second = sealed (record (body (day b'2') (day b'3')) {
  ingestion_watermark = codes "2026-07-29T12:00:00.000Z";
  closure_reason = codes "late-data";
  revision = 2;
  predecessor_manifest_digest = some (digest_with b'1');
  trace_set_digest = digest_with b'6';
})

revised : create_revision contracts first changes ≡ ok second
unfolding create_revision is_slug is_digest Text-discrete ℕ_discrete Capacity-discrete
    is_contract_timestamp valid_body valid_changes milliseconds
revised = refl

old_time : is_timestamp first.ingestion_watermark ≡ true
unfolding is_timestamp ℕ_discrete Text-discrete
old_time = refl

new_time : is_timestamp changes.ingestion_watermark ≡ true
unfolding is_timestamp ℕ_discrete Text-discrete
new_time = refl

abbrev ledger : Ledger
ledger = record { window_id = codes "window"; revisions = projection contracts first ∷ [] }

found : find_ledger first.window_id (ledger ∷ []) ≡ some ledger
unfolding find_ledger Text-discrete ℕ_discrete
found = refl

create_revision-accepted_example :
    (project_manifest contracts second ≡ ok (projection contracts second))
    × (apply_window (ledger ∷ []) (projection contracts second)
        ≡ ok (append_revision (projection contracts second) (ledger ∷ [])))
create_revision-accepted_example =
    create_revision-accepted contracts (ledger ∷ []) ledger first second changes revised old_time
      new_time (λ _. refl) found refl

abbrev attempt : Attempt
attempt = record {
  started_at = codes "2026-07-22T10:00:00.000Z";
  completed_at = codes "2026-07-22T10:00:01.000Z";
}

abbrev trace : Trace
trace = record {
  split = codes "online";
  protocol_digest = digest_with b'1';
  policy_digest = digest_with b'2';
  collection_window_id = codes "window";
  collection_window_membership_digest = digest_with b'f';
  attempts = attempt ∷ [];
  case_id = codes "case";
  replicate_id = codes "r1";
}

belongs : assert_trace_belongs contracts trace first ≡ ok tt
unfolding assert_trace_belongs is_slug is_digest Text-discrete ℕ_discrete Capacity-discrete
    is_contract_timestamp valid_body milliseconds
belongs = refl

assert_trace-Belongs_example : Belongs contracts trace first
assert_trace-Belongs_example = assert_trace-Belongs contracts trace first belongs

apart : milliseconds first.event_time_end_exclusive ≤ milliseconds next.event_time_start_inclusive
apart = omega arith

assert_trace-disjoint_example : ¬ (assert_trace_belongs contracts trace next ≡ ok tt)
assert_trace-disjoint_example = assert_trace-disjoint contracts trace first next apart belongs

create_revision-keeps_traces_example : assert_trace_belongs contracts trace second ≡ ok tt
create_revision-keeps_traces_example =
    create_revision-keeps_traces contracts trace first second changes revised belongs
