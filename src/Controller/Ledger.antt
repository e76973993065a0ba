-- ===== src/Controller/Ledger.antt =====
-- src/controller.ts, `applyWindowProjection`: a manifest opens a ledger at revision 1, or is the
-- exact next revision of the ledger of its window.
pub mod Append
use tasc.Base.{
  ℕ, ◌+◌, Bool, true, false, not, ◌&&◌, ◌||◌, List, [], ◌∷◌, ◌++◌, Option, none, some, ◌==◌, nat_eq,
  option_eq, is_some, find?, last?, map, if◌then◌else◌, Result, ok, err, require, refuse, ◌>>=◌,
  ◌>>◌,
}
use tasc.Base.Int.{is_neg}
use tasc.Text.{Text, text_eq}
use tasc.Text.Sort.{sort_by}
use tasc.Controller.Types.{Manifest, Ledger, Snapshot}
use tasc.Controller.Errors.{
  Error, type_error, ledger_start, ledger_revision, ledger_predecessor, ledger_bounds,
  ledger_watermark, ledger_unchanged,
}
use tasc.Controller.Log.{compare_timestamps}

unfoldable pub find_ledger : Text → List Ledger → Option Ledger
find_ledger id windows = find? (λ l. l.window_id == id) windows

-- `latestWindowProjection`.
unfoldable pub latest_manifest : Text → List Ledger → Option Manifest
unfolding find_ledger
latest_manifest id windows = elim (find_ledger id windows) [
  | none ↦ none
  | some l ↦ last? l.revisions
]

-- The guards on the next revision after `latest`.
unfoldable pub check_next : Manifest → Manifest → Result Error (Unit {0})
check_next latest p = do
  require (p.revision == latest.revision + 1) ledger_revision
  require (p.predecessor_manifest_digest == some latest.manifest_digest) ledger_predecessor
  refuse
      (not (p.event_time_start_inclusive == latest.event_time_start_inclusive)
        || not (p.event_time_end_exclusive == latest.event_time_end_exclusive))
      ledger_bounds
  d ← compare_timestamps p.ingestion_watermark latest.ingestion_watermark
  refuse (is_neg d) ledger_watermark
  refuse
      (p.trace_set_digest == latest.trace_set_digest
        && p.evaluator_set_digest == latest.evaluator_set_digest
        && p.capacity_evidence_digest == latest.capacity_evidence_digest)
      ledger_unchanged

unfoldable pub append_revision : Manifest → List Ledger → List Ledger
append_revision p windows =
    map
      (λ l.
        if l.window_id == p.window_id
        then record { window_id = l.window_id; revisions = l.revisions ++ p ∷ [] }
        else l)
      windows

-- A parsed snapshot has no ledger without revisions; `latest.revision` of one would throw.
unfoldable pub apply_existing :
    Manifest → List Ledger → Option Manifest → Result Error (List Ledger)
unfolding check_next append_revision
apply_existing p windows none = err type_error
apply_existing p windows (some latest) = do check_next latest p; ok (append_revision p windows)

unfoldable pub apply_window : List Ledger → Manifest → Result Error (List Ledger)
unfolding find_ledger apply_existing
apply_window windows p = elim (find_ledger p.window_id windows) [
  | none ↦ do
    refuse (not (p.revision == 1) || is_some p.predecessor_manifest_digest) ledger_start
    ok (
        sort_by (λ l. l.window_id)
          (windows ++ record { window_id = p.window_id; revisions = p ∷ [] } ∷ []))
  | some l ↦ apply_existing p windows (last? l.revisions)
]
