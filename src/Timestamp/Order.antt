-- ===== src/Timestamp/Order.antt =====
-- The code-unit order of fixed-width timestamps is the order of the times that they name.
use native.Mathlib.Nat.{pow-suc, add-zero}
use tasc.Base.{
  ℕ, zero, suc, ◌+◌, ◌*◌, ◌^◌, ◌-◌, ◌<◌, ◌≡◌, refl, true, List, [], ◌∷◌, Option, none, some, arith,
  ltb, leb,
}
use tasc.Base.Int.{ℤ, pos, is_neg, is_pos}
use tasc.Text.{Text, compare_code_units}
use tasc.Timestamp.{
  ◌>>=◌, Fields, layout, digits, literal, match_groups, match_timestamp, to_fields, stamp,
}

-- `c` compares two strings of which the numbers `v` and `w` have been read, and `rest` compares
-- what is left of them.
abbrev Agrees : ℕ → ℕ → ℤ → ℤ → Type 0
Agrees v w c rest = (v < w → is_neg c ≡ true) × (w < v → is_pos c ≡ true) × (v ≡ w → c ≡ rest)

Agrees-digit :
    (v w : ℕ) (c : ℤ) (x y : ℕ) (a b : Text)
    → leb b'0' x ≡ true
    → leb x b'9' ≡ true
    → leb b'0' y ≡ true
    → leb y b'9' ≡ true
    → Agrees v w c (compare_code_units (x ∷ a) (y ∷ b))
    → Agrees (v * 10 + (x - b'0')) (w * 10 + (y - b'0')) c (compare_code_units a b)
unfolding compare_code_units
Agrees-digit v w c x y a b h1 h2 h3 h4 h = (λ p. ground arith, λ p. ground arith, λ p. ground arith)

digits-suc :
    (n v x : ℕ) (a : Text) {r : ℕ × Text}
    → digits (suc n) v (x ∷ a) ≡ some r
    → (leb b'0' x ≡ true) × (leb x b'9' ≡ true) × (digits n (v * 10 + (x - b'0')) a ≡ some r)
unfolding digits
digits-suc n v x a h = ground arith

Agrees-digits :
    (n v w : ℕ) (c : ℤ) (a b : Text) {v' w' : ℕ} {a' b' : Text}
    → digits n v a ≡ some (v', a')
    → digits n w b ≡ some (w', b')
    → Agrees v w c (compare_code_units a b)
    → Agrees v' w' c (compare_code_units a' b')
unfolding digits
Agrees-digits zero v w c a b p q h = ground arith
Agrees-digits (suc n) v w c [] b p q h = cc
Agrees-digits (suc n) v w c (x ∷ a) [] p q h = cc
Agrees-digits (suc n) v w c (x ∷ a) (y ∷ b) p q h =
    let (x1, x2, p') = digits-suc n v x a p in
    let (y1, y2, q') = digits-suc n w y b q in
    Agrees-digits n _ _ c a b p' q' (Agrees-digit v w c x y a b x1 x2 y1 y2 h)

digits-shift :
    (n base acc : ℕ) (t : Text) {v : ℕ} {r : Text}
    → digits n acc t ≡ some (v, r)
    → digits n (base + acc) t ≡ some (base * 10 ^ n + v, r)
unfolding digits
digits-shift zero base acc t h = ground arith
digits-shift (suc n) base acc [] h = cc
digits-shift (suc n) base acc (c ∷ t) {v} {r} h =
    let (x1, x2, p) = digits-suc n acc c t h in
    let shifted = digits-shift n (base * 10) (acc * 10 + (c - b'0')) t p in
    let regroup : (base + acc) * 10 + (c - b'0') ≡ base * 10 + (acc * 10 + (c - b'0')) =
      omega arith in
    let scaled : base * 10 ^ suc n + v ≡ base * 10 * 10 ^ n + v = rw (pow-suc 10 n) (omega arith) in
    rw (x1, x2, regroup, scaled) shifted

literal-compare :
    (k : ℕ) (a b : Text) {a' b' : Text}
    → literal k a ≡ some a'
    → literal k b ≡ some b'
    → compare_code_units a b ≡ compare_code_units a' b'
unfolding literal compare_code_units
literal-compare k [] b p q = cc
literal-compare k (x ∷ a) [] p q = cc
literal-compare k (x ∷ a) (y ∷ b) p q = ground arith

-- A group and its closing character.
Agrees-group :
    (n k v w : ℕ) (c : ℤ) (a b : Text) {x y : ℕ} {a1 b1 a2 b2 : Text}
    → digits n 0 a ≡ some (x, a1)
    → literal k a1 ≡ some a2
    → digits n 0 b ≡ some (y, b1)
    → literal k b1 ≡ some b2
    → Agrees v w c (compare_code_units a b)
    → Agrees (v * 10 ^ n + x) (w * 10 ^ n + y) c (compare_code_units a2 b2)
Agrees-group n k v w c a b {x} {y} {a1} {b1} {a2} {b2} p p' q q' h =
    rw (← literal-compare k a1 b1 p' q') (
      Agrees-digits n v w c a b (rw add-zero at (digits-shift n v 0 a p))
        (rw add-zero at (digits-shift n w 0 b q)) h)

-- The digits of the groups, as one number.
abbrev pub value : ℕ → List (ℕ × ℕ) → List ℕ → ℕ
value acc [] vs = acc
value acc ((n, k) ∷ groups) [] = acc
value acc ((n, k) ∷ groups) (v ∷ vs) = value (acc * 10 ^ n + v) groups vs

bind_some {ℓ κ} :
    {A : Type ℓ} {B : Type κ} (m : Option A) (f : A → Option B) {b : B}
    → (m >>= f) ≡ some b
    → (a : A) × (m ≡ some a) × (f a ≡ some b)
bind_some none f h = cc
bind_some (some a) f h = (a, refl, h)

-- What a match of one group and of the rest consists of.
match_groups-cons :
    (n k : ℕ) (groups : List (ℕ × ℕ)) (t : Text) {vs : List ℕ}
    → match_groups ((n, k) ∷ groups) t ≡ some vs
    → (v : ℕ) × (t1 t2 : Text) × (ws : List ℕ) × (digits n 0 t ≡ some (v, t1))
      × (literal k t1 ≡ some t2)
      × (match_groups groups t2 ≡ some ws)
      × (vs ≡ v ∷ ws)
unfolding match_groups
match_groups-cons n k groups t h =
    let ((v, t1), p, h1) = bind_some (digits n 0 t) _ h in
    let (t2, q, h2) = bind_some (literal k t1) _ h1 in
    let (ws, r, h3) = bind_some (match_groups groups t2) _ h2 in
    (v, t1, t2, ws, p, q, r, ground arith)

Agrees-match_groups :
    (groups : List (ℕ × ℕ)) (v w : ℕ) (c : ℤ) (a b : Text) {vs ws : List ℕ}
    → match_groups groups a ≡ some vs
    → match_groups groups b ≡ some ws
    → Agrees v w c (compare_code_units a b)
    → Agrees (value v groups vs) (value w groups ws) c (pos 0)
unfolding match_groups compare_code_units
Agrees-match_groups [] v w c [] [] p q h = h
Agrees-match_groups [] v w c [] (y ∷ b) p q h = cc
Agrees-match_groups [] v w c (x ∷ a) b p q h = cc
Agrees-match_groups ((n, k) ∷ groups) v w c a b p q h =
    let (x, a1, a2, xs, pd, pl, pm, pe) = match_groups-cons n k groups a p in
    let (y, b1, b2, ys, qd, ql, qm, qe) = match_groups-cons n k groups b q in
    rw (pe, qe)
      (Agrees-match_groups groups _ _ c a2 b2 pm qm (Agrees-group n k v w c a b pd pl qd ql h))

value-stamp : (vs : List ℕ) {f : Fields} → to_fields vs ≡ some f → value 0 layout vs ≡ stamp f
value-stamp (y ∷ mo ∷ d ∷ h ∷ mi ∷ s ∷ ms ∷ []) e = ground arith
value-stamp _ e = cc

sign_of_Agrees :
    (v w : ℕ) (c : ℤ) → Agrees v w c (pos 0) → (is_neg c ≡ ltb v w) × (is_pos c ≡ ltb w v)
sign_of_Agrees v w c h = (ground arith, ground arith)

-- For two strings of the fixed-width form, the sign of the code-unit comparison is that of the
-- comparison of the times: it is negative exactly when the left time is earlier, and positive
-- exactly when it is later.
pub compare-stamp :
    (a b : Text) (f g : Fields)
    → match_timestamp a ≡ some f
    → match_timestamp b ≡ some g
    → (is_neg (compare_code_units a b) ≡ ltb (stamp f) (stamp g))
      × (is_pos (compare_code_units a b) ≡ ltb (stamp g) (stamp f))
unfolding match_timestamp
compare-stamp a b f g p q =
    let (vs, pm, pf) = bind_some (match_groups layout a) _ p in
    let (ws, qm, qf) = bind_some (match_groups layout b) _ q in
    let agrees =
      Agrees-match_groups layout 0 0 (compare_code_units a b) a b pm qm
        ((λ h. ground arith), (λ h. ground arith), (λ _. refl)) in
    let agrees' : Agrees (stamp f) (stamp g) (compare_code_units a b) (pos 0) =
      rw (← value-stamp vs pf, ← value-stamp ws qf) agrees in
    sign_of_Agrees (stamp f) (stamp g) (compare_code_units a b) agrees'
