-- ===== src/Work/Legacy/Exact.antt =====
-- The legacy estimate is exact: the sum of products below the bound, and a refusal above it.
use tasc.Base.{
  ℕ, zero, suc, ◌+◌, ◌-◌, ◌*◌, ◌≤◌, ◌<◌, ◌≡◌, refl, sym, ap, ◌∙◌, subst, ◌↔◌, arith, ok, >>=-eq-ok,
  ok-injective,
}
use tasc.Work.{Number, AssessmentWorkInput, max_safe_integer, checked_multiply}
use tasc.Work.Bounds.{checked_multiply-eq}
use tasc.Work.Legacy.{
  LegacyWork, LegacyAssessmentWorkEstimate, checked_add, check_counts, evaluation_work,
  frontier_work, total_work, estimate_legacy_assessment_work,
}

-- The work of the replay: each candidate is evaluated on the rows and the bootstrap draws and projected
-- on seven objectives, and the signatures are compared in pairs.
abbrev pub each_work : LegacyWork → ℕ
each_work i = i.trace_rows + i.evidence_rows + i.bootstrap_draws * i.independent_groups

abbrev pub pairs_work : LegacyWork → ℕ
pairs_work i = i.unique_objective_signatures * (i.unique_objective_signatures - 1) * 7

abbrev pub work_of : LegacyWork → ℕ
work_of i = i.candidate_count * each_work i + i.candidate_count * 7 + pairs_work i

multiply_exact : (a b : ℕ) {r : ℕ} → checked_multiply a b ≡ ok r → r ≡ a * b
multiply_exact a b h = ground (arith, checked_multiply-eq a b)

multiply_fits : (a b : ℕ) → a * b ≤ max_safe_integer → checked_multiply a b ≡ ok (a * b)
multiply_fits a b h = ground (arith, checked_multiply-eq a b)

add_exact : (a b : ℕ) {r : ℕ} → checked_add a b ≡ ok r → r ≡ a + b
unfolding checked_add
add_exact a b h = ground arith

add_small : (a b : ℕ) {r : ℕ} → b ≤ max_safe_integer → checked_add a b ≡ ok r → r ≤ max_safe_integer
unfolding checked_add
add_small a b small h = ground arith

add_fits : (a b : ℕ) → a + b ≤ max_safe_integer → checked_add a b ≡ ok (a + b)
unfolding checked_add
add_fits a b h = ground arith

multiply_small : (a b : ℕ) {r : ℕ} → checked_multiply a b ≡ ok r → r ≤ max_safe_integer
multiply_small a b h = ground (arith, checked_multiply-eq a b)

evaluation_exact :
    (i : LegacyWork) {r : ℕ × ℕ × ℕ}
    → evaluation_work i ≡ ok r
    → r ≡ (
      i.trace_rows + i.evidence_rows,
      i.bootstrap_draws * i.independent_groups,
      i.candidate_count * each_work i,
    )
unfolding evaluation_work
evaluation_exact i h =
    let (rows, p, h1) = >>=-eq-ok (checked_add i.trace_rows i.evidence_rows) _ h in
    let (grouped, q, h2) =
      >>=-eq-ok (checked_multiply i.bootstrap_draws i.independent_groups) _ h1 in
    let (each, r, h3) = >>=-eq-ok (checked_add rows grouped) _ h2 in
    let (evaluation, s, h4) = >>=-eq-ok (checked_multiply i.candidate_count each) _ h3 in
    let a = add_exact _ _ p in
    let b = multiply_exact _ _ q in let c = add_exact _ _ r in let d = multiply_exact _ _ s in cc

frontier_exact :
    (i : LegacyWork) {r : ℕ}
    → frontier_work i.unique_objective_signatures ≡ ok r
    → (r ≡ pairs_work i) × (r ≤ max_safe_integer)
unfolding frontier_work
frontier_exact i h =
    let (pairs, p, q) = >>=-eq-ok (checked_multiply i.unique_objective_signatures _) _ h in
    let a = multiply_exact _ _ p in
    let b = multiply_exact _ _ q in (b ∙ ap (λ n. n * 7) a, multiply_small _ _ q)

total_exact :
    (i : LegacyWork) {r : LegacyAssessmentWorkEstimate}
    → total_work i ≡ ok r
    → (r.input ≡ i) × (r.assessment_work ≡ work_of i) × (r.assessment_work ≤ max_safe_integer)
unfolding total_work
total_exact i {r} h =
    let ((rows, grouped, evaluation), p, h1) = >>=-eq-ok (evaluation_work i) _ h in
    let (projection, q, h2) = >>=-eq-ok (checked_multiply i.candidate_count 7) _ h1 in
    let (frontier, s, h3) = >>=-eq-ok (frontier_work i.unique_objective_signatures) _ h2 in
    let (both, t, h4) = >>=-eq-ok (checked_add evaluation projection) _ h3 in
    let (total, u, h5) = >>=-eq-ok (checked_add both frontier) _ h4 in
    let (frontier_is, frontier_small) = frontier_exact i s in
    let evaluation_is = ap (λ x. x.2) (evaluation_exact i p) in
    let projection_is = multiply_exact _ _ q in
    let both_is = add_exact _ _ t in
    let total_is = add_exact _ _ u in
    let small = add_small _ _ frontier_small u in
    let total_works : total ≡ work_of i =
      total_is
      ∙ ap (λ n. n + frontier) both_is
      ∙ ap (λ n. evaluation + projection + n) frontier_is
      ∙ ap (λ n. evaluation + n + pairs_work i) projection_is
      ∙ ap (λ n. n + i.candidate_count * 7 + pairs_work i) evaluation_is in
    subst
      (λ r.
        (r.input ≡ i) × (r.assessment_work ≡ work_of i) × (r.assessment_work ≤ max_safe_integer))
      (ok-injective h5) (refl, total_works, small)

le_multiple : (c x : ℕ) → 0 < c → x ≤ c * x
le_multiple zero x h = omega (arith, h)
le_multiple (suc c) x h = omega arith

total_fits :
    (i : LegacyWork)
    → 0 < i.candidate_count
    → work_of i ≤ max_safe_integer
    → (r : LegacyAssessmentWorkEstimate) × (total_work i ≡ ok r)
unfolding total_work evaluation_work frontier_work
total_fits i positive bound =
    let least = le_multiple i.candidate_count (each_work i) positive in
    let a = add_fits i.trace_rows i.evidence_rows (omega (arith, least, bound)) in
    let b = multiply_fits i.bootstrap_draws i.independent_groups (omega (arith, least, bound)) in
    let c =
      add_fits (i.trace_rows + i.evidence_rows) (i.bootstrap_draws * i.independent_groups)
        (omega (arith, least, bound)) in
    let d = multiply_fits i.candidate_count (each_work i) (omega (arith, bound)) in
    let e = multiply_fits i.candidate_count 7 (omega (arith, bound)) in
    let u = i.unique_objective_signatures in
    let f = multiply_fits u (u - 1) (omega (arith, bound)) in
    let g = multiply_fits (u * (u - 1)) 7 (omega (arith, bound)) in
    let h =
      add_fits (i.candidate_count * each_work i) (i.candidate_count * 7) (omega (arith, bound)) in
    let k =
      add_fits (i.candidate_count * each_work i + i.candidate_count * 7) (pairs_work i) bound in
    rw (a, b, c, d, e, f, g, h, k) (_, refl)

-- With a candidate to evaluate, the work is estimated exactly when the sum of products is at most
-- 2^53 - 1.
pub total_work_iff :
    (i : LegacyWork)
    → 0 < i.candidate_count
    → ((r : LegacyAssessmentWorkEstimate) × (total_work i ≡ ok r)) ↔ (work_of i ≤ max_safe_integer)
total_work_iff i positive = (
  λ (r, p).
      let (_, exact, small) = total_exact i p in subst (λ n. n ≤ max_safe_integer) exact small,
  total_fits i positive,
)

check_counts-least :
    (i : AssessmentWorkInput) (signatures : Number) {counts : LegacyWork}
    → check_counts i signatures ≡ ok counts
    → counts.unique_objective_signatures ≤ counts.candidate_count
unfolding check_counts
check_counts-least i signatures h = ground arith

-- An estimate of the legacy work is the sum of the products of its own counts, a safe integer, and
-- its signatures are no more than its candidates.
pub estimate_legacy-exact :
    (i : AssessmentWorkInput) (signatures : Number) {r : LegacyAssessmentWorkEstimate}
    → estimate_legacy_assessment_work i signatures ≡ ok r
    → (r.assessment_work ≡ work_of r.input)
      × (r.assessment_work ≤ max_safe_integer)
      × (r.unique_objective_signatures ≤ r.candidate_count)
unfolding estimate_legacy_assessment_work
estimate_legacy-exact i signatures {r} h =
    let (counts, p, q) = >>=-eq-ok (check_counts i signatures) _ h in
    let (same, exact, small) = total_exact counts q in
    (exact ∙ ap work_of (sym same), small, rw same (check_counts-least i signatures p))
