-- ===== src/Controller/Semantics/Windows.antt =====
-- The window ledgers of a snapshot: each a contiguous chain of revisions, in the order of their
-- identifiers.
use tasc.Base.{
  ℕ, ◌+◌, Bool, false, not, ◌&&◌, ◌||◌, List, [], ◌∷◌, Option, none, some, ltb, ◌==◌, nat_eq,
  option_eq, is_some, length, includes, map_get, map_set, Result, ok, require, refuse, ◌>>=◌, ◌>>◌,
}
use tasc.Base.Int.{is_pos, is_nonneg}
use tasc.Text.{Text, text_eq, compare_code_units}
use tasc.Controller.Types.{SelectedPolicy, Manifest, Ledger, SnapshotBody}
use tasc.Controller.Schema.{before, max_controller_window_revisions}
use tasc.Controller.Errors.{
  Error, duplicate_ledger, ledger_order, revision_limit, revision_lineage, revision_coherence,
  revision_validity, revision_after_event, duplicate_manifest, revision_bounds, revision_watermark,
  revision_unchanged,
}

-- `policy !== null && policy.policyDigest === digest`.
abbrev pub policy_is : Option SelectedPolicy → Text → Bool
policy_is none digest = false
policy_is (some p) digest = p.policy_digest == digest

-- `time !== null && compareCodeUnits(t, time) > 0`.
abbrev pub after_time : Text → Option Text → Bool
after_time t none = false
after_time t (some time) = is_pos (compare_code_units t time)

abbrev pub digest_of : Option Manifest → Option Text
digest_of none = none
digest_of (some m) = some m.manifest_digest

pub data Scan : Type 0 where
  -- The loop's `windowIds`, `manifestProjections`, `totalRevisions` and `previousWindowId`.
  scan : List Text → List (Text × Manifest) → ℕ → Option Text → Scan

unfoldable pub check_successor : Option Manifest → Manifest → Result Error (Unit {0})
check_successor none r = ok tt
check_successor (some p) r = do
  refuse
      (not (r.event_time_start_inclusive == p.event_time_start_inclusive)
        || not (r.event_time_end_exclusive == p.event_time_end_exclusive))
      revision_bounds
  refuse (before r.ingestion_watermark p.ingestion_watermark) revision_watermark
  refuse
      (r.trace_set_digest == p.trace_set_digest
        && r.evaluator_set_digest == p.evaluator_set_digest
        && r.capacity_evidence_digest == p.capacity_evidence_digest)
      revision_unchanged

-- One round of the inner loop; `previousDigest` is the digest of `previousRevision`.
unfoldable pub check_revision :
    SnapshotBody
    → Ledger
    → List (Text × Manifest)
    → ℕ
    → Option Manifest
    → Manifest
    → Result Error (Unit {0})
unfolding check_successor
check_revision s l manifests index previous r = do
  require
      (r.window_id == l.window_id
        && r.revision == index + 1
        && r.predecessor_manifest_digest == digest_of previous)
      revision_lineage
  require
      (r.protocol_digest == s.protocol_digest && policy_is s.selected_policy r.frozen_policy_digest)
      revision_coherence
  refuse
      (before r.event_time_start_inclusive s.protocol_created_at
        || is_nonneg (compare_code_units r.ingestion_watermark s.protocol_expires_at))
      revision_validity
  refuse (after_time r.ingestion_watermark s.last_event_at) revision_after_event
  refuse (is_some (map_get r.manifest_digest manifests)) duplicate_manifest
  check_successor previous r

unfoldable pub check_revisions :
    SnapshotBody
    → Ledger
    → List (Text × Manifest)
    → ℕ
    → Option Manifest
    → List Manifest
    → Result Error (List (Text × Manifest))
check_revisions s l manifests index previous [] = ok manifests
check_revisions s l manifests index previous (r ∷ rs) = do
  check_revision s l manifests index previous r
  check_revisions s l (map_set r.manifest_digest r manifests) (index + 1) (some r) rs

-- `previous !== null && compareCodeUnits(previous, id) >= 0`.
abbrev pub not_after : Option Text → Text → Bool
not_after none id = false
not_after (some previous) id = is_nonneg (compare_code_units previous id)

unfoldable pub check_ledgers : SnapshotBody → Scan → List Ledger → Result Error Scan
check_ledgers s found [] = ok found
check_ledgers s (scan ids manifests total previous) (l ∷ ls) = do
  refuse (includes ids l.window_id) duplicate_ledger
  refuse (not_after previous l.window_id) ledger_order
  refuse (ltb max_controller_window_revisions (total + length l.revisions)) revision_limit
  manifests' ← check_revisions s l manifests 0 none l.revisions
  check_ledgers s
      (scan (l.window_id ∷ ids) manifests' (total + length l.revisions) (some l.window_id)) ls
