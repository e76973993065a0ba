-- ===== src/Stream/Snoc.antt =====
-- Lists that grow at their end, as the loops of src/runtime/sse.ts and src/runtime/ndjson.ts build them.
use tasc.Base.{
  ◌≡◌, refl, Bool, false, ◌||◌, List, [], ◌∷◌, ◌++◌, none, some, any, find?, last?, if◌then◌else◌,
  arith,
}

module _ {ℓ} {A : Type ℓ} (p : A → Bool) where
  pub any_snoc : (xs : List A) (x : A) → any p (xs ++ x ∷ []) ≡ (any p xs || p x)
  any_snoc [] x = ground arith
  any_snoc (y ∷ xs) x = ground (arith, any_snoc xs x)

  pub find?_snoc :
      (xs : List A) (x : A)
      → find? p (xs ++ x ∷ [])
        ≡ (elim (find? p xs) [ some y ↦ some y | none ↦ if p x then some x else none ])
  find?_snoc [] x = refl
  find?_snoc (y ∷ xs) x = ground (arith, find?_snoc xs x)

  -- The test holds at no element but the last, where it gives `over`; `over` is false of no elements.
  unfoldable pub AtEnd : List A → Bool → Type 0
  AtEnd [] over = over ≡ false
  AtEnd (x ∷ []) over = p x ≡ over
  AtEnd (x ∷ y ∷ xs) over = (p x ≡ false) × AtEnd (y ∷ xs) over

  pub AtEnd-snoc : (xs : List A) (x : A) → AtEnd xs false → AtEnd (xs ++ x ∷ []) (p x)
  unfolding AtEnd
  AtEnd-snoc [] x h = refl
  AtEnd-snoc (y ∷ []) x h = (h, refl)
  AtEnd-snoc (y ∷ z ∷ xs) x h = (h.0, AtEnd-snoc (z ∷ xs) x h.1)

module _ {ℓ} {A : Type ℓ} where
  pub last?_snoc : (xs : List A) (x : A) → last? (xs ++ x ∷ []) ≡ some x
  last?_snoc [] x = refl
  last?_snoc (y ∷ []) x = refl
  last?_snoc (y ∷ z ∷ xs) x = last?_snoc (z ∷ xs) x
