-- ===== src/Controller/Coherent.antt =====
-- What `check_snapshot` found of a snapshot that passed it, section by section.
pub mod Chains
pub mod Confirmed
use tasc.Base.{ℕ, ◌≡◌, refl, List, [], Option, none, ok, Result, ◌>>=◌, ◌>>◌, >>=-eq-ok}
use tasc.Text.{Text}
use tasc.Controller.Types.{Manifest, SnapshotBody}
use tasc.Controller.Semantics.{
  Scan, scan, Decisions, check_identity, check_ledgers, check_assessments, check_policy,
  check_evidence, check_state, check_found, check_snapshot,
}

abbrev pub no_decisions : Decisions
no_decisions = record { development = none; holdout = none }

pub record Coherent (s : SnapshotBody) : Type 0 where
  pub identity : check_identity s ≡ ok tt
  pub ids : List Text
  pub manifests : List (Text × Manifest)
  pub total : ℕ
  pub previous : Option Text
  pub ledgers :
      check_ledgers s (scan [] [] 0 none) s.windows ≡ ok (scan ids manifests total previous)
  pub decisions : Decisions
  pub assessments : check_assessments s manifests [] 0 no_decisions s.assessments ≡ ok decisions
  pub policy : check_policy s decisions ≡ ok tt
  pub evidence : check_evidence s decisions ≡ ok tt
  pub state : check_state s.state s decisions total ≡ ok tt

check_found-Coherent :
    (s : SnapshotBody) (found : Scan)
    → check_identity s ≡ ok tt
    → check_ledgers s (scan [] [] 0 none) s.windows ≡ ok found
    → check_found s found ≡ ok tt
    → Coherent s
check_found-Coherent s (scan ids manifests total previous) identity ledgers h =
    let (d, assessments, h1) =
      >>=-eq-ok (check_assessments s manifests [] 0 no_decisions s.assessments) _ h in
    let (_, policy, h2) = >>=-eq-ok (check_policy s d) _ h1 in
    let (_, evidence, state) = >>=-eq-ok (check_evidence s d) _ h2 in
    record {
      identity = identity;
      ids = ids;
      manifests = manifests;
      total = total;
      previous = previous;
      ledgers = ledgers;
      decisions = d;
      assessments = assessments;
      policy = policy;
      evidence = evidence;
      state = state;
    }

pub check_snapshot-Coherent : (s : SnapshotBody) → check_snapshot s ≡ ok tt → Coherent s
unfolding check_snapshot
check_snapshot-Coherent s h =
    let (_, identity, h1) = >>=-eq-ok (check_identity s) _ h in
    let (found, ledgers, h2) = >>=-eq-ok (check_ledgers s (scan [] [] 0 none) s.windows) _ h1 in
    check_found-Coherent s found identity ledgers h2
