-- ===== src/Controller/Coherent/Chains.antt =====
-- The ledgers of a coherent snapshot are chains of revisions.
use tasc.Base.{
  ℕ, ◌+◌, ◌≡◌, false, List, [], ◌∷◌, Option, none, some, arith, ltb, nat_eq, option_eq, length,
  includes, map_set, ok, refuse, >>=-eq-ok,
}
use tasc.Text.{Text, text_eq}
use tasc.Controller.Types.{Manifest, Ledger, SnapshotBody, Snapshot, Contracts}
use tasc.Controller.Schema.{before, max_controller_window_revisions}
use tasc.Controller.Errors.{duplicate_ledger, ledger_order, revision_limit}
use tasc.Controller.Semantics.{
  Scan, scan, digest_of, not_after, check_successor, check_revision, check_revisions, check_ledgers,
}
use tasc.Controller.Coherent.{check_snapshot-Coherent}
use tasc.Controller.Log.{parse_snapshot}
use tasc.Controller.Apply.Parts.{parse_snapshot-IsParsed}

-- The revision follows the one before it, of which the first has none: its number is the next one, its
-- link is that one's digest, its bounds are that one's and its watermark is no earlier.
pub record Follows (window : Text) (index : ℕ) (previous : Option Manifest) (r : Manifest)
    : Type 0 where
  pub window_id : r.window_id ≡ window
  pub number : r.revision ≡ index + 1
  pub link : r.predecessor_manifest_digest ≡ digest_of previous
  pub successor :
      (p : Manifest)
      → previous ≡ some p
      → (r.event_time_start_inclusive ≡ p.event_time_start_inclusive)
        × (r.event_time_end_exclusive ≡ p.event_time_end_exclusive)
        × (before r.ingestion_watermark p.ingestion_watermark ≡ false)

abbrev pub IsChain : Text → ℕ → Option Manifest → List Manifest → Type 0
IsChain window index previous [] = Unit
IsChain window index previous (r ∷ rs) =
    Follows window index previous r × IsChain window (index + 1) (some r) rs

check_successor-bounds :
    (previous : Option Manifest) (r p : Manifest)
    → check_successor previous r ≡ ok tt
    → previous ≡ some p
    → (r.event_time_start_inclusive ≡ p.event_time_start_inclusive)
      × (r.event_time_end_exclusive ≡ p.event_time_end_exclusive)
      × (before r.ingestion_watermark p.ingestion_watermark ≡ false)
unfolding check_successor
check_successor-bounds none r p h same = cc
check_successor-bounds (some q) r p h same =
    (ground (arith, same, h), ground (arith, same, h), ground (arith, same, h))

check_revision-Follows :
    (s : SnapshotBody) (l : Ledger) (manifests : List (Text × Manifest)) (index : ℕ)
    (previous : Option Manifest) (r : Manifest)
    → check_revision s l manifests index previous r ≡ ok tt
    → Follows l.window_id index previous r
unfolding check_revision
check_revision-Follows s l manifests index previous r h = record {
  window_id = ground arith;
  number = ground arith;
  link = ground arith;
  successor = λ p same. check_successor-bounds previous r p (ground arith) same;
}

check_revisions-IsChain :
    (s : SnapshotBody) (l : Ledger) (manifests : List (Text × Manifest)) (index : ℕ)
    (previous : Option Manifest) (rs : List Manifest) {found : List (Text × Manifest)}
    → check_revisions s l manifests index previous rs ≡ ok found
    → IsChain l.window_id index previous rs
unfolding check_revisions
check_revisions-IsChain s l manifests index previous [] h = tt
check_revisions-IsChain s l manifests index previous (r ∷ rs) h =
    let (_, p, q) = >>=-eq-ok (check_revision s l manifests index previous r) _ h in
    (
      check_revision-Follows s l manifests index previous r p,
      check_revisions-IsChain s l (map_set r.manifest_digest r manifests) (index + 1) (some r) rs q,
    )

-- The ledgers stand in the strict order of their windows, and each is a chain from revision 1 on.
abbrev pub AreChains : Option Text → List Ledger → Type 0
AreChains previous [] = Unit
AreChains previous (l ∷ ls) =
    (not_after previous l.window_id ≡ false)
    × IsChain l.window_id 0 none l.revisions
    × AreChains (some l.window_id) ls

pub check_ledgers-AreChains :
    (s : SnapshotBody) (ids : List Text) (manifests : List (Text × Manifest)) (total : ℕ)
    (previous : Option Text) (ls : List Ledger) {found : Scan}
    → check_ledgers s (scan ids manifests total previous) ls ≡ ok found
    → AreChains previous ls
unfolding check_ledgers
check_ledgers-AreChains s ids manifests total previous [] h = tt
check_ledgers-AreChains s ids manifests total previous (l ∷ ls) h =
    let (_, _, h1) = >>=-eq-ok (refuse (includes ids l.window_id) duplicate_ledger) _ h in
    let (_, p, h2) = >>=-eq-ok (refuse (not_after previous l.window_id) ledger_order) _ h1 in
    let (_, _, h3) =
      >>=-eq-ok
        (refuse (ltb max_controller_window_revisions (total + length l.revisions)) revision_limit) _
        h2 in
    let (found, q, h4) = >>=-eq-ok (check_revisions s l manifests 0 none l.revisions) _ h3 in
    (
      ground (arith, p),
      check_revisions-IsChain s l manifests 0 none l.revisions q,
      check_ledgers-AreChains s (l.window_id ∷ ids) found (total + length l.revisions)
          (some l.window_id) ls h4,
    )

-- In a snapshot that parses, the ledgers are in strictly increasing order of their windows, and each is
-- a chain: its revisions are numbered 1, 2, 3 and so on, each names its predecessor's digest, keeps the
-- event bounds and does not move the watermark back.
pub parse_snapshot-AreChains :
    (c : Contracts) (s : Snapshot) {t : Snapshot}
    → parse_snapshot c s ≡ ok t
    → AreChains none s.windows
parse_snapshot-AreChains c s p =
    let (_, parsed) = parse_snapshot-IsParsed c s p in
    let k = check_snapshot-Coherent s.body parsed.coherent in
    check_ledgers-AreChains s.body [] [] 0 none s.windows k.ledgers
