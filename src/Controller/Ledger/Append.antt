-- ===== src/Controller/Ledger/Append.antt =====
-- The ledgers only grow: a manifest adds one revision to the ledger of its window.
use tasc.Base.{
  ◌≡◌, refl, ap, subst, not, ◌||◌, List, [], ◌∷◌, ◌++◌, Option, none, some, arith, ◌==◌, nat_eq,
  option_eq, is_some, last?, map, holds, if◌then◌else◌, ok, refuse, >>=-eq-ok, ok-injective,
}
use tasc.Text.{Text, text_eq, Text-discrete}
use tasc.Text.Sort.{sort_by}
use tasc.Text.Sort.Sorted.{with_key-sort_by}
use tasc.Controller.Types.{Manifest, Ledger}
use tasc.Controller.Errors.{ledger_start}
use tasc.Controller.Ledger.{find_ledger, check_next, append_revision, apply_existing, apply_window}

abbrev in_ledger : Option Ledger → List Manifest
in_ledger none = []
in_ledger (some l) = l.revisions

-- The revisions recorded for a window.
abbrev pub revisions_of : Text → List Ledger → List Manifest
revisions_of id windows = in_ledger (find_ledger id windows)

abbrev with_revision : Manifest → Ledger → Ledger
with_revision p l = record { window_id = l.window_id; revisions = l.revisions ++ p ∷ [] }

abbrev at_window : Manifest → Ledger → Ledger
at_window p l = if l.window_id == p.window_id then with_revision p l else l

at_window-id : (p : Manifest) (l : Ledger) → (at_window p l).window_id ≡ l.window_id
at_window-id p l = ground (arith, holds (Text-discrete l.window_id p.window_id))

-- Changing ledgers under their identifiers changes what is found.
find_ledger-map :
    (f : Ledger → Ledger)
    → ((l : Ledger) → (f l).window_id ≡ l.window_id)
    → (id : Text) (windows : List Ledger)
    → find_ledger id (map f windows)
      ≡ elim (find_ledger id windows) [ none ↦ none | some l ↦ some (f l) ]
unfolding find_ledger
find_ledger-map f keeps id [] = refl
find_ledger-map f keeps id (w ∷ windows) =
    ground
      (arith, find_ledger-map f keeps id windows, ap (λ t. holds (Text-discrete t id)) (keeps w))

find_ledger-id :
    (id : Text) (windows : List Ledger) {l : Ledger}
    → find_ledger id windows ≡ some l
    → l.window_id ≡ id
unfolding find_ledger
find_ledger-id id [] h = cc
find_ledger-id id (w ∷ windows) {l} h = ground (arith, find_ledger-id id windows {l = l})

extended :
    (id : Text) (p : Manifest) (windows : List Ledger) (k : Option Ledger) {l : Ledger}
    → find_ledger p.window_id windows ≡ some l
    → find_ledger id windows ≡ k
    → in_ledger (elim k [ none ↦ none | some l ↦ some (at_window p l) ])
      ≡ (if p.window_id == id then in_ledger k ++ p ∷ [] else in_ledger k)
extended id p windows none found q = ground (arith, holds (Text-discrete p.window_id id))
extended id p windows (some k) found q = ground (
  arith,
  find_ledger-id id windows q,
  holds (Text-discrete p.window_id id),
  holds (Text-discrete k.window_id p.window_id),
)

-- The revisions after one is appended to the ledger of its window.
revisions-append_revision :
    (id : Text) (p : Manifest) (windows : List Ledger) {l : Ledger}
    → find_ledger p.window_id windows ≡ some l
    → revisions_of id (append_revision p windows)
      ≡ (if p.window_id == id then revisions_of id windows ++ p ∷ [] else revisions_of id windows)
unfolding append_revision
revisions-append_revision id p windows found =
    rw (find_ledger-map (at_window p) (at_window-id p) id windows)
      (extended id p windows (find_ledger id windows) found refl)

-- A ledger that is added at the end is found where no other is.
find_ledger-snoc :
    (id : Text) (windows : List Ledger) (l : Ledger)
    → find_ledger id (windows ++ l ∷ []) ≡ elim (find_ledger id windows) [
      | none ↦ if l.window_id == id then some l else none
      | some k ↦ some k
    ]
unfolding find_ledger
find_ledger-snoc id [] l = refl
find_ledger-snoc id (w ∷ windows) l = ground (arith, find_ledger-snoc id windows l)

find_ledger-sort_by :
    (id : Text) (windows : List Ledger)
    → find_ledger id (sort_by (λ l. l.window_id) windows) ≡ find_ledger id windows
unfolding find_ledger
find_ledger-sort_by id windows = with_key-sort_by (λ l. l.window_id) id windows

revisions-new :
    (id : Text) (p : Manifest) (windows : List Ledger)
    → find_ledger p.window_id windows ≡ none
    → revisions_of id (
        sort_by
          (λ l. l.window_id)
          (windows ++ record { window_id = p.window_id; revisions = p ∷ [] } ∷ []))
      ≡ (if p.window_id == id then revisions_of id windows ++ p ∷ [] else revisions_of id windows)
revisions-new id p windows found =
    let l : Ledger = record { window_id = p.window_id; revisions = p ∷ [] } in
    rw (find_ledger-sort_by id (windows ++ l ∷ []), find_ledger-snoc id windows l)
      (ground (arith, found, holds (Text-discrete p.window_id id)))

apply_existing-is :
    (p : Manifest) (windows vs : List Ledger) (latest : Option Manifest)
    → apply_existing p windows latest ≡ ok vs
    → append_revision p windows ≡ vs
unfolding apply_existing
apply_existing-is p windows vs none h = cc
apply_existing-is p windows vs (some latest) h =
    let (_, _, h1) = >>=-eq-ok (check_next latest p) _ h in ok-injective h1

apply_found :
    (p : Manifest) (windows vs : List Ledger) (found : Option Ledger)
    → find_ledger p.window_id windows ≡ found
    → apply_window windows p ≡ ok vs
    → (id : Text)
    → revisions_of id vs
      ≡ (if p.window_id == id then revisions_of id windows ++ p ∷ [] else revisions_of id windows)
unfolding apply_window
apply_found p windows vs none found h id =
    let (_, _, h1) =
      >>=-eq-ok
        (refuse (not (p.revision == 1) || is_some p.predecessor_manifest_digest) ledger_start) _
        (rw (apply_window, found) at h) in
    subst
      (λ x. revisions_of id x ≡ (
        if p.window_id == id then revisions_of id windows ++ p ∷ [] else revisions_of id windows))
      (ok-injective h1) (revisions-new id p windows found)
apply_found p windows vs (some l) found h id =
    subst
      (λ x. revisions_of id x ≡ (
        if p.window_id == id then revisions_of id windows ++ p ∷ [] else revisions_of id windows))
      (apply_existing-is p windows vs (last? l.revisions) (rw (apply_window, found) at h))
      (revisions-append_revision id p windows found)

-- A manifest that is accepted becomes the last revision of its window. The revisions that its window
-- had stay before it, and those of every other window stay as they were.
pub apply_window-appends :
    (windows vs : List Ledger) (p : Manifest)
    → apply_window windows p ≡ ok vs
    → (id : Text)
    → revisions_of id vs
      ≡ (if p.window_id == id then revisions_of id windows ++ p ∷ [] else revisions_of id windows)
apply_window-appends windows vs p h =
    apply_found p windows vs (find_ledger p.window_id windows) refl h
