-- ===== src/Base/Results.antt =====
-- `throw` as a value, with the error type of the component.
use mathlib.Core.Path.{◌≡◌, refl, sym, ap, ◌∙◌}
use mathlib.Core.Bool.{Bool, true, false}
use mathlib.Core.List.{List, [], ◌∷◌}

pub data Result {ℓ} (E : Type 0) (A : Type ℓ) : Type ℓ where
  ok : A → Result E A
  err : E → Result E A

module _ {E : Type 0} where
  infixl 5 ◌>>=◌ ◌>>◌
  abbrev pub ◌>>=◌ {ℓ κ} : {A : Type ℓ} {B : Type κ} → Result E A → (A → Result E B) → Result E B
  err thrown >>= rest = err thrown
  ok x >>= rest = rest x

  abbrev pub ◌>>◌ {ℓ} : {B : Type ℓ} → Result E (Unit {0}) → Result E B → Result E B
  m >> k = m >>= λ _. k

  -- `if (!b) throw e`.
  abbrev pub require : Bool → E → Result E (Unit {0})
  require true e = ok tt
  require false e = err e

  -- `if (b) throw e`.
  abbrev pub refuse : Bool → E → Result E (Unit {0})
  refuse true e = err e
  refuse false e = ok tt

  pub ok-injective {ℓ} : {A : Type ℓ} {a b : A} → ◌≡◌ {A = Result E A} (ok a) (ok b) → a ≡ b
  ok-injective p = cc

  -- A loop that may throw in each round.
  abbrev pub each {ℓ} : {A : Type ℓ} → (A → Result E (Unit {0})) → List A → Result E (Unit {0})
  each f [] = ok tt
  each f (x ∷ xs) = f x >> each f xs

  -- A bind that succeeds: its first part gave a value, and the rest of it the result.
  pub >>=-eq-ok {ℓ κ} :
      {A : Type ℓ} {B : Type κ} (first : Result E A) (rest : A → Result E B) {last : B}
      → (first >>= rest) ≡ ok last
      → (x : A) × (first ≡ ok x) × (rest x ≡ ok last)
  >>=-eq-ok (err thrown) rest p = cc
  >>=-eq-ok (ok x) rest p = (x, refl, p)

  -- The continuation of a bind whose first part is known.
  pub >>=-of-ok {ℓ κ} :
      {A : Type ℓ} {B : Type κ} {m : Result E A} {a : A} (f : A → Result E B) {r : Result E B}
      → (m >>= f) ≡ r
      → m ≡ ok a
      → f a ≡ r
  >>=-of-ok f h e = sym (ap (λ x. x >>= f) e) ∙ h

  pub >>=-assoc {ℓ κ μ} :
      {A : Type ℓ} {B : Type κ} {C : Type μ} (m : Result E A) (f : A → Result E B)
      (g : B → Result E C)
      → (m >>= f >>= g) ≡ (m >>= λ a. f a >>= g)
  >>=-assoc (ok a) f g = refl
  >>=-assoc (err e) f g = refl

  -- Two continuations that agree on every value.
  pub >>=-congr {ℓ κ} :
      {A : Type ℓ} {B : Type κ} (m : Result E A) {f g : A → Result E B}
      → ((a : A) → f a ≡ g a)
      → (m >>= f) ≡ (m >>= g)
  >>=-congr (ok a) h = h a
  >>=-congr (err e) h = refl

  -- Guards that were passed.
  pub require-eq-ok {ℓ} :
      {B : Type ℓ} (b : Bool) (e : E) (k : Result E B) {last : B}
      → (require b e >> k) ≡ ok last
      → (b ≡ true) × (k ≡ ok last)
  require-eq-ok true e k p = (refl, p)
  require-eq-ok false e k p = absurd (cc p)

  pub refuse-eq-ok {ℓ} :
      {B : Type ℓ} (b : Bool) (e : E) (k : Result E B) {last : B}
      → (refuse b e >> k) ≡ ok last
      → (b ≡ false) × (k ≡ ok last)
  refuse-eq-ok true e k p = absurd (cc p)
  refuse-eq-ok false e k p = (refl, p)

  pub require-of {ℓ} :
      {B : Type ℓ} (b : Bool) (e : E) (k : Result E B) → b ≡ true → (require b e >> k) ≡ k
  require-of false e k h = absurd (cc h)
  require-of true e k h = refl

  -- A bind that succeeds still does where its second part is replaced by one that gives the same.
  pub >>=-mono {ℓ κ} :
      {A : Type ℓ} {B : Type κ} (m : Result E A) (f g : A → Result E B) {r : B}
      → ((a : A) → f a ≡ ok r → g a ≡ ok r)
      → (m >>= f) ≡ ok r
      → (m >>= g) ≡ ok r
  >>=-mono (ok a) f g h p = h a p
  >>=-mono (err e) f g h p = absurd (cc p)
