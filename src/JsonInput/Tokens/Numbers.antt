-- ===== src/JsonInput/Tokens/Numbers.antt =====
-- src/bounded-input.ts, `scanNumber` and `scanLiteral`: they read the numbers and words of the grammar.
use tasc.Base.{
  ℕ, ◌≡◌, ◌⊎◌, inl, inr, refl, ap, subst, Bool, true, ◌||◌, [], ◌∷◌, ◌++◌, ◌==◌, nat_eq, arith,
}
use tasc.JsonInput.{
  InputError, JsonInputOptions, consume_number, digits, optional, some_digits, integer_part,
  fraction_part, exponent_part, scan_number, scan_literal,
}
use tasc.JsonInput.Tokens.{
  Digits, one, and_more, Signed, Whole, Fraction, IsMinus, IsSign, Exponent, IsNumber,
}
use tasc.JsonInput.Yields.{
  Yields, >>=-Yields, ok-Yields, err-Yields, weaken-Yields, then-Yields, require-Yields,
  if-Yields_known, elim-Yields_known,
}
use tasc.Network.{is_digit}
use tasc.Stream.Bytes.{take}
use tasc.Text.{Text}

-- What is left after a part of a number.
abbrev Leaves : (Text → Type 0) → ℕ × Text → Type 0
Leaves P r = P r.1

-- None or more digits.
abbrev Run : Text → Text → Type 0
Run t u = (t ≡ u) ⊎ Digits t u

Run-more : (c : ℕ) (t u : Text) → is_digit c ≡ true → Run t u → Digits (c ∷ t) u
Run-more c t u e (inl p) = subst (Digits (c ∷ t)) p (one e)
Run-more c t u e (inr d) = and_more e d

digits-Run : (most used : ℕ) (t : Text) → Yields (Leaves (Run t)) (digits most used t)
unfolding digits
digits-Run most used [] = ok-Yields (Leaves (Run [])) (used, []) (inl refl)
digits-Run most used (c ∷ t) =
    elim-Yields_known (Leaves (Run (c ∷ t))) (is_digit c) _ _
      (λ e. then-Yields (Leaves (Run (c ∷ t))) (consume_number most used) _ λ n.
        weaken-Yields (Leaves (Run t)) (Leaves (Run (c ∷ t))) _ (λ r k. inr (Run-more c t r.1 e k))
          (digits-Run most n t))
      (λ _. ok-Yields (Leaves (Run (c ∷ t))) (used, c ∷ t) (inl refl))

digits-Digits :
    (most used c : ℕ) (t : Text)
    → is_digit c ≡ true
    → Yields (Leaves (Digits (c ∷ t))) (digits most used (c ∷ t))
unfolding digits
digits-Digits most used c t h =
    elim-Yields_known (Leaves (Digits (c ∷ t))) (is_digit c) _ _
      (λ e. then-Yields (Leaves (Digits (c ∷ t))) (consume_number most used) _ λ n.
        weaken-Yields (Leaves (Run t)) (Leaves (Digits (c ∷ t))) _ (λ r k. Run-more c t r.1 e k)
          (digits-Run most n t))
      (λ e. absurd (cc (e, h)))

some_digits-Digits :
    (most used : ℕ) (t : Text) → Yields (Leaves (Digits t)) (some_digits most used t)
unfolding some_digits
some_digits-Digits most used [] = err-Yields (Leaves (Digits [])) InputError.invalid_json
some_digits-Digits most used (c ∷ t) =
    if-Yields_known (Leaves (Digits (c ∷ t))) (is_digit c) _ _ (λ e. digits-Digits most used c t e)
      (λ _. err-Yields (Leaves (Digits (c ∷ t))) InputError.invalid_json)

optional-Signed :
    (most used : ℕ) (Sign : ℕ → Type 0) (test : ℕ → Bool) (t : Text)
    → ((c : ℕ) → test c ≡ true → Sign c)
    → Yields (Leaves (Signed Sign t)) (optional test most used t)
unfolding optional
optional-Signed most used Sign test [] h = ok-Yields (Leaves (Signed Sign [])) (used, []) (inl refl)
optional-Signed most used Sign test (c ∷ t) h =
    if-Yields_known (Leaves (Signed Sign (c ∷ t))) (test c) _ _
      (λ e.
        then-Yields (Leaves (Signed Sign (c ∷ t))) (consume_number most used) _
          λ n. ok-Yields (Leaves (Signed Sign (c ∷ t))) (n, t) (inr (c, h c e, refl)))
      (λ _. ok-Yields (Leaves (Signed Sign (c ∷ t))) (used, c ∷ t) (inl refl))

module _ (most used : ℕ) where
  integer_part-Whole : (t : Text) → Yields (Leaves (Whole t)) (integer_part most used t)
  unfolding integer_part
  integer_part-Whole [] = err-Yields (Leaves (Whole [])) InputError.invalid_json
  integer_part-Whole (c ∷ t) =
      if-Yields_known (Leaves (Whole (c ∷ t))) (c == 0x30) _ _
        (λ e. then-Yields (Leaves (Whole (c ∷ t))) (consume_number most used) _ λ n.
          ok-Yields (Leaves (Whole (c ∷ t))) (n, t)
            (inl (let q : c ≡ b'0' = ground (arith, e) in ap (λ x. x ∷ t) q)))
        (λ e.
          weaken-Yields (Leaves (Digits (c ∷ t))) (Leaves (Whole (c ∷ t))) _
            (λ r k. inr (λ v p. let q : c ≡ b'0' = cc p in absurd (ground (arith, e, q)), k))
            (some_digits-Digits most used (c ∷ t)))

  fraction_part-Fraction : (t : Text) → Yields (Leaves (Fraction t)) (fraction_part most used t)
  unfolding fraction_part
  fraction_part-Fraction [] = ok-Yields (Leaves (Fraction [])) (used, []) (inl refl)
  fraction_part-Fraction (c ∷ t) =
      if-Yields_known (Leaves (Fraction (c ∷ t))) (c == 0x2e) _ _
        (λ e. then-Yields (Leaves (Fraction (c ∷ t))) (consume_number most used) _ λ n.
          weaken-Yields (Leaves (Digits t)) (Leaves (Fraction (c ∷ t))) _
            (λ r k. inr (t, (let q : c ≡ b'.' = ground (arith, e) in ap (λ x. x ∷ t) q), k))
            (some_digits-Digits most n t))
        (λ _. ok-Yields (Leaves (Fraction (c ∷ t))) (used, c ∷ t) (inl refl))

  exponent_part-Exponent : (t : Text) → Yields (Leaves (Exponent t)) (exponent_part most used t)
  unfolding exponent_part
  exponent_part-Exponent [] = ok-Yields (Leaves (Exponent [])) (used, []) (inl refl)
  exponent_part-Exponent (c ∷ t) =
      if-Yields_known P (c == 0x65 || c == 0x45) _ _
        (λ e. then-Yields P (consume_number most used) _ λ n.
          >>=-Yields (Leaves (Signed IsSign t)) P _ _
            (optional-Signed most n IsSign _ t (λ d h. ground (arith, h)))
            λ r signed.
              weaken-Yields (Leaves (Digits r.1)) P _
                (λ q k. inr (c, t, r.1, refl, ground (arith, e), signed, k))
                (some_digits-Digits most r.0 r.1))
        (λ _. ok-Yields P (used, c ∷ t) (inl refl))
    where
      P : ℕ × Text → Type 0
      P = Leaves (Exponent (c ∷ t))

-- `scanNumber` reads a number of the grammar.
pub scan_number-IsNumber : (o : JsonInputOptions) (t : Text) → Yields (IsNumber t) (scan_number o t)
unfolding scan_number
scan_number-IsNumber o t =
    >>=-Yields (Leaves (Signed IsMinus t)) (IsNumber t) _ _
      (optional-Signed most 0 IsMinus _ t (λ c e. ground (arith, e)))
      λ a ha.
        >>=-Yields (Leaves (Whole a.1)) (IsNumber t) _ _ (integer_part-Whole most a.0 a.1) λ b hb.
          >>=-Yields (Leaves (Fraction b.1)) (IsNumber t) _ _ (fraction_part-Fraction most b.0 b.1)
            λ d hd.
              >>=-Yields (Leaves (Exponent d.1)) (IsNumber t) _ _
                (exponent_part-Exponent most d.0 d.1)
                λ e he.
                  require-Yields (IsNumber t) (o.is_finite (take e.0 t)) InputError.number_range _ (
                    ok-Yields (IsNumber t) e.1 record {
                      after_sign = a.1;
                      after_whole = b.1;
                      after_fraction = d.1;
                      sign = ha;
                      whole = hb;
                      fraction = hd;
                      exponent = he;
                    })
  where
    most : ℕ
    most = o.limits.numeric_token_length

-- `scanLiteral` reads its literal.
pub scan_literal-append :
    (literal t : Text) → Yields (λ u. t ≡ literal ++ u) (scan_literal literal t)
unfolding scan_literal
scan_literal-append [] t = ok-Yields (λ u. t ≡ u) t refl
scan_literal-append (l ∷ literal) [] = err-Yields _ InputError.invalid_json
scan_literal-append (l ∷ literal) (c ∷ t) =
    if-Yields_known (λ u. c ∷ t ≡ l ∷ (literal ++ u)) (c == l) _ _
      (λ e.
        let q : c ≡ l = ground (arith, e) in
        weaken-Yields (λ u. t ≡ literal ++ u) (λ u. c ∷ t ≡ l ∷ (literal ++ u)) _ (λ u p. cc (q, p))
          (scan_literal-append literal t))
      (λ _. err-Yields _ InputError.invalid_json)
