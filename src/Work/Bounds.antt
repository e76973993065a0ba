-- ===== src/Work/Bounds.antt =====
-- The checked arithmetic is the arithmetic of ℕ below its bound, and the limits hold of what passes.
use tasc.Base.{
  ℕ, zero, suc, ◌*◌, ◌/◌, ◌≤◌, ◌<◌, ◌≡◌, refl, ap, ◌∙◌, subst, ◌↔◌, List, [], ◌∷◌, arith, ltb,
  nat_eq, if◌then◌else◌, All, ok, err, >>=-eq-ok,
}
use native.Mathlib.Nat.{div-lt_iff_lt-mul}
use tasc.Work.{
  Number, natural, other, max_safe_integer, overflow, WorkBudget, AssessmentWorkInput,
  AssessmentWorkEstimate, safe, checked_multiply, checked_product, assessment_work_of, check_limit,
  check_limits, assert_within_work_budget,
}

-- The product without a bound.
abbrev pub product : ℕ → List ℕ → ℕ
product acc [] = acc
product acc (x ∷ xs) = product (acc * x) xs

quotient_iff : (m a b : ℕ) → (m / suc b < a) ↔ (m < a * suc b)
quotient_iff m a b = div-lt_iff_lt-mul (omega arith)

-- The division test is exact: it refuses the products above the bound and no others.
pub checked_multiply-eq :
    (a b : ℕ)
    → checked_multiply a b ≡ (if ltb max_safe_integer (a * b) then err overflow else ok (a * b))
unfolding checked_multiply
checked_multiply-eq zero b = ground arith
checked_multiply-eq (suc a) zero = ground arith
checked_multiply-eq (suc a) (suc b) = ground (arith, quotient_iff max_safe_integer (suc a) b)

checked_multiply_sound :
    (a b : ℕ) {r : ℕ} → checked_multiply a b ≡ ok r → (r ≡ a * b) × (r ≤ max_safe_integer)
checked_multiply_sound a b h = ground (arith, checked_multiply-eq a b)

checked_product_sound :
    (acc : ℕ) (xs : List ℕ) {r : ℕ}
    → acc ≤ max_safe_integer
    → checked_product acc xs ≡ ok r
    → (r ≡ product acc xs) × (r ≤ max_safe_integer)
unfolding checked_product
checked_product_sound acc [] bound h = ground arith
checked_product_sound acc (x ∷ xs) {r} bound h =
    let (next, p, h1) = >>=-eq-ok (checked_multiply acc x) _ h in
    let (exact, small) = checked_multiply_sound acc x p in
    let (same, least) = checked_product_sound next xs small h1 in
    (same ∙ ap (λ n. product n xs) exact, least)

abbrev pub IsPositive : ℕ → Type 0
IsPositive n = 0 < n

acc-le-product : (acc : ℕ) (xs : List ℕ) → All IsPositive xs → acc ≤ product acc xs
acc-le-product acc [] positive = omega arith
acc-le-product acc (zero ∷ xs) (p, positive) = omega (arith, p)
acc-le-product acc (suc x ∷ xs) (p, positive) =
    omega (arith, acc-le-product (acc * suc x) xs positive)

checked_product_complete :
    (acc : ℕ) (xs : List ℕ)
    → All IsPositive xs
    → product acc xs ≤ max_safe_integer
    → checked_product acc xs ≡ ok (product acc xs)
unfolding checked_product
checked_product_complete acc [] positive bound = refl
checked_product_complete acc (x ∷ xs) (p, positive) bound =
    let step : checked_multiply acc x ≡ ok (acc * x) =
      ground (arith, checked_multiply-eq acc x, acc-le-product (acc * x) xs positive, bound) in
    rw step (checked_product_complete (acc * x) xs positive bound)

-- The checked product of positive factors succeeds with their product exactly when that is at most
-- 2^53 - 1.
pub checked_product_iff :
    (xs : List ℕ)
    → All IsPositive xs
    → (checked_product 1 xs ≡ ok (product 1 xs)) ↔ (product 1 xs ≤ max_safe_integer)
checked_product_iff xs positive = (
  λ h. let (_, bound) = checked_product_sound 1 xs (omega arith) h in bound,
  checked_product_complete 1 xs positive,
)

-- A safe integer.
abbrev pub IsSafe : Number → Type 0
IsSafe x = (n : ℕ) × (x ≡ natural n) × (n ≤ max_safe_integer)

-- A number within a limit that is a safe integer.
abbrev pub IsLimited : ℕ → Number → Type 0
IsLimited n limit = (m : ℕ) × (limit ≡ natural m) × (m ≤ max_safe_integer) × (n ≤ m)

-- What the limits promise of an estimate: its five counts are safe integers within the caller's limits,
-- which are safe integers too, and so is their product, whatever work the estimate claims.
pub record Within (i : AssessmentWorkInput) (b : WorkBudget) : Type 0 where
  pub candidates : ℕ
  pub traces : ℕ
  pub evidence : ℕ
  pub draws : ℕ
  pub groups : ℕ
  pub input : i ≡ record {
    candidate_count = natural candidates;
    trace_rows = natural traces;
    evidence_rows = natural evidence;
    bootstrap_draws = natural draws;
    independent_groups = natural groups;
  }
  pub counts_safe :
      All (λ n. n ≤ max_safe_integer) (candidates ∷ traces ∷ evidence ∷ draws ∷ groups ∷ [])
  pub candidates_within : IsLimited candidates b.max_candidates
  pub traces_within : IsLimited traces b.max_trace_rows
  pub evidence_within : IsLimited evidence b.max_evidence_rows
  pub draws_within : IsLimited draws b.max_bootstrap_draws
  pub groups_within : IsLimited groups b.max_independent_groups
  pub work_within :
      IsLimited
        (product 1 (candidates ∷ traces ∷ evidence ∷ draws ∷ groups ∷ []))
        b.max_assessment_work
  pub work_safe :
      product 1 (candidates ∷ traces ∷ evidence ∷ draws ∷ groups ∷ []) ≤ max_safe_integer

safe-natural : (n : Number) {m : ℕ} → safe n ≡ ok m → n ≡ natural m
unfolding safe
safe-natural other h = cc
safe-natural (natural k) h = ground arith

safe-least : (n : Number) {m : ℕ} → safe n ≡ ok m → m ≤ max_safe_integer
unfolding safe
safe-least other h = cc
safe-least (natural k) h = ground arith

safe-IsSafe : (n : Number) {m : ℕ} → safe n ≡ ok m → IsSafe n
safe-IsSafe n {m} h = (m, safe-natural n h, safe-least n h)

check_limit-IsLimited : (n : ℕ) (limit : Number) → check_limit n limit ≡ ok tt → IsLimited n limit
unfolding check_limit
check_limit-IsLimited n limit h =
    let (m, p, h1) = >>=-eq-ok (safe limit) _ h in
    (m, safe-natural limit p, safe-least limit p, ground arith)

-- What `check_limits` accepts.
abbrev Limits : ℕ → ℕ → ℕ → ℕ → ℕ → ℕ → WorkBudget → Type 0
Limits c t e d g w b =
    IsLimited c b.max_candidates
    × IsLimited t b.max_trace_rows
    × IsLimited e b.max_evidence_rows
    × IsLimited d b.max_bootstrap_draws
    × IsLimited g b.max_independent_groups
    × IsLimited w b.max_assessment_work

check_limits-Limits :
    (c t e d g w : ℕ) (b : WorkBudget) → check_limits c t e d g w b ≡ ok tt → Limits c t e d g w b
unfolding check_limits
check_limits-Limits c t e d g w b h =
    let (_, p1, h1) = >>=-eq-ok (check_limit c b.max_candidates) _ h in
    let (_, p2, h2) = >>=-eq-ok (check_limit t b.max_trace_rows) _ h1 in
    let (_, p3, h3) = >>=-eq-ok (check_limit e b.max_evidence_rows) _ h2 in
    let (_, p4, h4) = >>=-eq-ok (check_limit d b.max_bootstrap_draws) _ h3 in
    let (_, p5, p6) = >>=-eq-ok (check_limit g b.max_independent_groups) _ h4 in
    (
      check_limit-IsLimited c _ p1,
      check_limit-IsLimited t _ p2,
      check_limit-IsLimited e _ p3,
      check_limit-IsLimited d _ p4,
      check_limit-IsLimited g _ p5,
      check_limit-IsLimited w _ p6,
    )

-- The recomputed work of counts that were read as natural numbers.
recomputed_work :
    (i : AssessmentWorkInput) (c t e d g : ℕ) {w : ℕ}
    → safe i.candidate_count ≡ ok c
    → safe i.trace_rows ≡ ok t
    → safe i.evidence_rows ≡ ok e
    → safe i.bootstrap_draws ≡ ok d
    → safe i.independent_groups ≡ ok g
    → assessment_work_of i ≡ ok w
    → checked_product 1 (c ∷ t ∷ e ∷ d ∷ g ∷ []) ≡ ok w
unfolding assessment_work_of
recomputed_work i c t e d g pc pt pe pd pg h = rw (pc, pt, pe, pd, pg) at h

counts_of :
    (i : AssessmentWorkInput) {c t e d g : ℕ}
    → safe i.candidate_count ≡ ok c
    → safe i.trace_rows ≡ ok t
    → safe i.evidence_rows ≡ ok e
    → safe i.bootstrap_draws ≡ ok d
    → safe i.independent_groups ≡ ok g
    → i ≡ record {
      candidate_count = natural c;
      trace_rows = natural t;
      evidence_rows = natural e;
      bootstrap_draws = natural d;
      independent_groups = natural g;
    }
counts_of i pc pt pe pd pg =
    let qc = safe-natural _ pc in
    let qt = safe-natural _ pt in
    let qe = safe-natural _ pe in let qd = safe-natural _ pd in let qg = safe-natural _ pg in cc

-- An estimate that passes the caller's budget has five counts and a product of them that are safe
-- integers within the budget's limits, which are safe integers themselves. The product is taken again
-- from the counts: of the work that the estimate states no more is said than that it is a safe integer.
pub assert_within_work_budget-Within :
    (e : AssessmentWorkEstimate) (b : WorkBudget)
    → assert_within_work_budget e b ≡ ok tt
    → Within e.input b × IsSafe e.assessment_work
unfolding assert_within_work_budget
assert_within_work_budget-Within e b h =
    let (c, pc, h1) = >>=-eq-ok (safe e.candidate_count) _ h in
    let (t, pt, h2) = >>=-eq-ok (safe e.trace_rows) _ h1 in
    let (v, pv, h3) = >>=-eq-ok (safe e.evidence_rows) _ h2 in
    let (d, pd, h4) = >>=-eq-ok (safe e.bootstrap_draws) _ h3 in
    let (g, pg, h5) = >>=-eq-ok (safe e.independent_groups) _ h4 in
    let (_, pa, h6) = >>=-eq-ok (safe e.assessment_work) _ h5 in
    let (w, pw, h7) = >>=-eq-ok (assessment_work_of e.input) _ h6 in
    let (exact, bound) =
      checked_product_sound 1 (c ∷ t ∷ v ∷ d ∷ g ∷ []) (omega arith)
        (recomputed_work e.input c t v d g pc pt pv pd pg pw) in
    let (lc, lt, lv, ld, lg, lw) = check_limits-Limits c t v d g w b h7 in
    let passed : Within e.input b = record {
      candidates = c;
      traces = t;
      evidence = v;
      draws = d;
      groups = g;
      input = counts_of e.input pc pt pv pd pg;
      counts_safe = (
        safe-least e.candidate_count pc,
        (
          safe-least e.trace_rows pt,
          (
            safe-least e.evidence_rows pv,
            (safe-least e.bootstrap_draws pd, (safe-least e.independent_groups pg, tt)),
          ),
        ),
      );
      candidates_within = lc;
      traces_within = lt;
      evidence_within = lv;
      draws_within = ld;
      groups_within = lg;
      work_within = subst (λ n. IsLimited n b.max_assessment_work) exact lw;
      work_safe = subst (λ n. n ≤ max_safe_integer) exact bound;
    } in
    (passed, safe-IsSafe e.assessment_work pa)
