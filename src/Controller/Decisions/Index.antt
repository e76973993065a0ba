-- ===== src/Controller/Decisions/Index.antt =====
-- src/controller.ts, `indexAuthenticAssessmentSources`: which assessments an index holds.
use tasc.Base.{
  ◌≡◌, refl, sym, ap, subst, ◌∙◌, ◌⊎◌, inl, inr, false, List, [], ◌∷◌, some, leb, length, ◌==◌,
  map_get, map_set, map_get-map_set, if◌then◌else◌, ok, >>=-eq-ok, refuse-eq-ok, require-eq-ok,
  ok-injective, arith, Memᴰ, if-split, ==_refl,
}
use tasc.Text.{Text, text_eq}
use tasc.Controller.Types.{Assessment, Contracts, assessment_eq}
use tasc.Controller.Errors.{source_conflict, too_many_sources}
use tasc.Controller.Schema.{max_controller_assessments}
use tasc.Controller.Facts.{Sources}
use tasc.Controller.Decisions.{Decision, project_decision, conflicts, index_from, index_sources}

-- Whatever the first index holds, the second holds.
abbrev pub Covers : Sources → Sources → Type 0
Covers s t = (k : Text) (a : Assessment) → map_get k s ≡ some a → map_get k t ≡ some a

module _ (c : Contracts) where
  index-keeps :
      (s : Sources) (k : Text) (a b : Assessment)
      → conflicts c (map_get b.decision_digest s) b ≡ false
      → map_get k s ≡ some a
      → map_get k (map_set b.decision_digest b s) ≡ some a
  index-keeps s k a b h p = ground (arith, h, p, map_get-map_set k b.decision_digest b s)

  index_from-Covers :
      (s : Sources) (ds : List Decision) {t : Sources} → index_from c s ds ≡ ok t → Covers s t
  unfolding index_from
  index_from-Covers s [] h k a p = subst (λ x. map_get k x ≡ some a) (ok-injective h) p
  index_from-Covers s (d ∷ ds) h k a p =
      let (b, _, h1) = >>=-eq-ok (project_decision c d) _ h in
      let (apart, h2) =
        refuse-eq-ok (conflicts c (map_get b.decision_digest s) b) source_conflict _ h1 in
      index_from-Covers (map_set b.decision_digest b s) ds h2 k a (index-keeps s k a b apart p)

  -- A decision of the list under the digest of its projection.
  record From (ds : List Decision) (k : Text) (a : Assessment) : Type 0 where
    decision : Decision
    member : Memᴰ decision ds
    projected : project_decision c decision ≡ ok a
    digest : a.decision_digest ≡ k

  later :
      (ds : List Decision) (d : Decision) (k : Text) (a : Assessment)
      → From ds k a
      → From (d ∷ ds) k a
  later ds d k a f = record {
    decision = f.decision;
    member = Memᴰ.tail f.member;
    projected = f.projected;
    digest = f.digest;
  }

  -- What is in an index with one more assessment.
  set-cases :
      (s : Sources) (k : Text) (a b : Assessment)
      → map_get k (map_set b.decision_digest b s) ≡ some a
      → (map_get k s ≡ some a) ⊎ ((b ≡ a) × (b.decision_digest ≡ k))
  set-cases s k a b p =
      let q = sym (map_get-map_set k b.decision_digest b s) ∙ p in
      if-split (b.decision_digest == k)
        (λ same here. inr (ground (arith, here), ground (arith, same))) (λ _ there. inl there) q

  index_from-From :
      (s : Sources) (ds : List Decision) (k : Text) (a : Assessment) {t : Sources}
      → index_from c s ds ≡ ok t
      → map_get k t ≡ some a
      → (map_get k s ≡ some a) ⊎ From ds k a
  unfolding index_from
  index_from-From s [] k a h p = inl (subst (λ x. map_get k x ≡ some a) (sym (ok-injective h)) p)
  index_from-From s (d ∷ ds) k a h p =
      let (b, projected, h1) = >>=-eq-ok (project_decision c d) _ h in
      let (_, h2) =
        refuse-eq-ok (conflicts c (map_get b.decision_digest s) b) source_conflict _ h1 in
      elim (index_from-From (map_set b.decision_digest b s) ds k a h2 p) [
        | inr f ↦ inr (later ds d k a f)
        | inl q ↦ elim (set-cases s k a b q) [
          | inl there ↦ inl there
          | inr (same, here) ↦ inr record {
            decision = d;
            member = Memᴰ.head refl;
            projected = projected ∙ ap ok same;
            digest = ap (λ x. x.decision_digest) (sym same) ∙ here;
          }
        ]
      ]

  -- Every decision of the list is in its index.
  index_from-finds :
      (s : Sources) (ds : List Decision) (d : Decision) (a : Assessment) {t : Sources}
      → index_from c s ds ≡ ok t
      → Memᴰ d ds
      → project_decision c d ≡ ok a
      → map_get a.decision_digest t ≡ some a
  unfolding index_from
  index_from-finds s [] d a h m p = elim m [ ]
  index_from-finds s (x ∷ ds) d a h (Memᴰ.head same) p =
      let (b, projected, h1) = >>=-eq-ok (project_decision c x) _ h in
      let (_, h2) =
        refuse-eq-ok (conflicts c (map_get b.decision_digest s) b) source_conflict _ h1 in
      let b_is_a : b ≡ a = ok-injective (sym projected ∙ ap (project_decision c) (sym same) ∙ p) in
      index_from-Covers (map_set b.decision_digest b s) ds h2 a.decision_digest a (
        subst (λ x. map_get x.decision_digest (map_set b.decision_digest b s) ≡ some x) b_is_a
          (map_get-map_set b.decision_digest b.decision_digest b s
            ∙ ap (λ y. if y then some b else map_get b.decision_digest s)
                (==_refl b.decision_digest)))
  index_from-finds s (x ∷ ds) d a h (Memᴰ.tail m) p =
      let (b, _, h1) = >>=-eq-ok (project_decision c x) _ h in
      let (_, h2) =
        refuse-eq-ok (conflicts c (map_get b.decision_digest s) b) source_conflict _ h1 in
      index_from-finds (map_set b.decision_digest b s) ds d a h2 m p

  -- The index of some of the decisions is part of the index of all.
  pub index_sources-Covers :
      (some_of ds : List Decision) {s t : Sources}
      → ((d : Decision) → Memᴰ d some_of → Memᴰ d ds)
      → index_sources c some_of ≡ ok s
      → index_sources c ds ≡ ok t
      → Covers s t
  unfolding index_sources map_get
  index_sources-Covers some_of ds {s} {t} inside h g k a p =
      let (_, h1) =
        require-eq-ok (leb (length some_of) max_controller_assessments) too_many_sources _ h in
      let (_, g1) =
        require-eq-ok (leb (length ds) max_controller_assessments) too_many_sources _ g in
      elim (index_from-From [] some_of k a h1 p) [
        | inl never ↦ absurd (cc never)
        | inr f ↦
            subst (λ x. map_get x t ≡ some a) f.digest
              (index_from-finds [] ds f.decision a g1 (inside f.decision f.member) f.projected)
      ]
