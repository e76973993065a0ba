-- ===== src/Cli/Decimal.antt =====
-- src/cli-args.ts, `boundedPositiveDecimal`: the decimal digits of a number are read as that number.
use tasc.Base.{
  ℕ, zero, suc, ◌+◌, ◌*◌, ◌-◌, ◌/◌, ◌%◌, ◌^◌, ◌≤◌, ◌<◌, ◌≡◌, ap, ◌∙◌, true, ◌&&◌, [], ◌∷◌, ◌++◌,
  ltb, leb, all, if◌then◌else◌, arith, ok, require-of, Bool-cases, inl, inr,
}
use tasc.Cli.{CliError, is_digit, is_positive_decimal, decimal, bounded_positive_decimal}
use tasc.Cli.Print.{show}
use tasc.Text.{Text}
use tasc.Work.{max_safe_integer}

decimal-snoc :
    (acc : ℕ) (t : Text) (d : ℕ) → decimal acc (t ++ (b'0' + d) ∷ []) ≡ decimal acc t * 10 + d
decimal-snoc acc [] d = omega arith
decimal-snoc acc (c ∷ t) d = decimal-snoc (acc * 10 + (c - b'0')) t d

is_positive_decimal-snoc :
    (t : Text) (d : ℕ)
    → is_positive_decimal t ≡ true
    → d < 10
    → is_positive_decimal (t ++ (b'0' + d) ∷ []) ≡ true
is_positive_decimal-snoc [] d h b = absurd (cc h)
is_positive_decimal-snoc (c ∷ t) d h b = ground (arith, h, all-snoc t d b)
  where
    all-snoc : (t : Text) (d : ℕ) → d < 10 → all is_digit (t ++ (b'0' + d) ∷ []) ≡ (all is_digit t)
    all-snoc [] d b = ground (arith, b)
    all-snoc (c ∷ t) d b = ground (arith, all-snoc t d b)

shorter : (rounds n : ℕ) → n < 10 ^ suc rounds → n / 10 < 10 ^ rounds
shorter rounds n h = omega (arith, h)

-- Enough rounds are as many as there are digits.
decimal-show : (rounds n : ℕ) → n < 10 ^ rounds → decimal 0 (show rounds n) ≡ n
unfolding show
decimal-show zero n h = omega (arith, h)
decimal-show (suc rounds) n h =
    let front = decimal-show rounds (n / 10) (shorter rounds n h) in
    let last = decimal-snoc 0 (show rounds (n / 10)) (n % 10) in
    elim (Bool-cases (ltb n 10)) [
      | inl small ↦ ground (arith, small)
      | inr large ↦
          ap
            (λ b.
              decimal 0
                (if b then (b'0' + n) ∷ [] else show rounds (n / 10) ++ (b'0' + n % 10) ∷ []))
            large
          ∙ last
          ∙ omega (arith, front)
    ]

is_positive_decimal-show :
    (rounds n : ℕ) → 1 ≤ n → n < 10 ^ rounds → is_positive_decimal (show rounds n) ≡ true
unfolding show
is_positive_decimal-show zero n p h = absurd (omega (arith, p, h))
is_positive_decimal-show (suc rounds) n p h = elim (Bool-cases (ltb n 10)) [
  | inl small ↦ ground (arith, small, p)
  | inr large ↦
      let front =
        is_positive_decimal-show rounds (n / 10) (ground (arith, large)) (shorter rounds n h) in
      ap
        (λ b.
          is_positive_decimal
            (if b then (b'0' + n) ∷ [] else show rounds (n / 10) ++ (b'0' + n % 10) ∷ []))
        large
      ∙ is_positive_decimal-snoc (show rounds (n / 10)) (n % 10) front (omega arith)
]

pub bounded_positive_decimal-show :
    (n maximum : ℕ)
    → 1 ≤ n
    → n ≤ maximum
    → maximum ≤ 300_000
    → bounded_positive_decimal (show 6 n) maximum ≡ ok n
unfolding bounded_positive_decimal
bounded_positive_decimal-show n maximum p h m =
    let read = decimal-show 6 n (omega (arith, h, m)) in
    let good = is_positive_decimal-show 6 n p (omega (arith, h, m)) in
    require-of (is_positive_decimal (show 6 n)) CliError.invalid_option_value _ good
    ∙ require-of (leb (decimal 0 (show 6 n)) max_safe_integer && leb (decimal 0 (show 6 n)) maximum)
        CliError.invalid_option_value _ (ground (arith, read, h, m))
    ∙ ap ok read
