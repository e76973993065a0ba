-- ===== src/JsonInput/Yields.antt =====
-- Properties of what the parts of src/bounded-input.ts give, where they do not throw.
use tasc.Base.{
  ◌≡◌, refl, subst, Bool, true, false, nat_eq, if◌then◌else◌, Result, ok, err, require, refuse,
  ◌>>=◌, ◌>>◌,
}
use tasc.JsonInput.{InputError}
use tasc.Text.{text_eq}

-- What a result gives has a property.
unfoldable pub Yields : {A : Type 0} → (A → Type 0) → Result InputError A → Type 0
Yields P (ok a) = P a
Yields P (err e) = Unit

module _ {A B : Type 0} where
  pub >>=-Yields :
      (P : A → Type 0) (Q : B → Type 0) (m : Result InputError A) (k : A → Result InputError B)
      → Yields P m
      → ((a : A) → P a → Yields Q (k a))
      → Yields Q (m >>= k)
  unfolding Yields
  >>=-Yields P Q (ok a) k h f = f a h
  >>=-Yields P Q (err e) k h f = tt

module _ {A : Type 0} (P : A → Type 0) where
  pub ok-Yields : (a : A) → P a → Yields P (ok a)
  unfolding Yields
  ok-Yields a p = p

  pub err-Yields : (e : InputError) → Yields P (err e)
  unfolding Yields
  err-Yields e = tt

  pub if-Yields :
      (b : Bool) (x y : Result InputError A)
      → Yields P x
      → Yields P y
      → Yields P (if b then x else y)
  if-Yields true x y f g = f
  if-Yields false x y f g = g

  pub refuse-Yields :
      (b : Bool) (e : InputError) (k : Result InputError A)
      → Yields P k
      → Yields P (refuse b e >> k)
  unfolding Yields
  refuse-Yields true e k h = tt
  refuse-Yields false e k h = h

  pub require-Yields :
      (b : Bool) (e : InputError) (k : Result InputError A)
      → Yields P k
      → Yields P (require b e >> k)
  unfolding Yields
  require-Yields true e k h = h
  require-Yields false e k h = tt

  Yields-eq : (m : Result InputError A) (a : A) → Yields P m → m ≡ ok a → P a
  unfolding Yields
  Yields-eq (ok b) a h e = let q : b ≡ a = cc e in subst P q h
  Yields-eq (err x) a h e = absurd (cc e)

pub weaken-Yields :
    {A : Type 0} (P Q : A → Type 0) (m : Result InputError A)
    → ((a : A) → P a → Q a)
    → Yields P m
    → Yields Q m
unfolding Yields
weaken-Yields P Q (ok a) f h = f a h
weaken-Yields P Q (err e) f h = tt

pub elim-Yields :
    {A : Type 0} (P : A → Type 0) (b : Bool) (x y : Result InputError A)
    → Yields P x
    → Yields P y
    → Yields P (elim b [ true ↦ x | false ↦ y ])
elim-Yields P true x y f g = f
elim-Yields P false x y f g = g

-- A step whose result does not matter.
pub then-Yields :
    {A B : Type 0} (Q : B → Type 0) (m : Result InputError A) (k : A → Result InputError B)
    → ((a : A) → Yields Q (k a))
    → Yields Q (m >>= k)
unfolding Yields
then-Yields Q (ok a) k f = f a
then-Yields Q (err e) k f = tt

pub if-Yields_test :
    {A : Type 0} (P : A → Type 0) (b : Bool) (x y : Result InputError A)
    → (b ≡ true → Yields P x)
    → Yields P y
    → Yields P (if b then x else y)
if-Yields_test P true x y f g = f refl
if-Yields_test P false x y f g = g

-- Branches that know the test.
pub if-Yields_known :
    {A : Type 0} (P : A → Type 0) (b : Bool) (x y : Result InputError A)
    → (b ≡ true → Yields P x)
    → (b ≡ false → Yields P y)
    → Yields P (if b then x else y)
if-Yields_known P true x y f g = f refl
if-Yields_known P false x y f g = g refl

pub elim-Yields_known :
    {A : Type 0} (P : A → Type 0) (b : Bool) (x y : Result InputError A)
    → (b ≡ true → Yields P x)
    → (b ≡ false → Yields P y)
    → Yields P (elim b [ true ↦ x | false ↦ y ])
elim-Yields_known P true x y f g = f refl
elim-Yields_known P false x y f g = g refl
