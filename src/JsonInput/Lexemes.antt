-- ===== src/JsonInput/Lexemes.antt =====
-- src/bounded-input.ts: strings, numbers and literals leave a shorter text.
use tasc.Base.{
  ℕ, suc, ◌+◌, ◌≤◌, ◌<◌, ◌≡◌, sym, subst, Bool, true, false, ◌&&◌, ◌||◌, [], ◌∷◌, ◌==◌, nat_eq,
  length, ok, ◌>>=◌, arith,
}
use tasc.JsonInput.{
  InputError, JsonInputOptions, skip_whitespace, StringMode, StringState, is_plain, string_step,
  string_loop, consume_number, digits, optional, some_digits, integer_part, fraction_part,
  exponent_part, scan_number, scan_literal,
}
use tasc.Network.{is_digit}
use tasc.Stream.Bytes.{take}
use tasc.Text.{Text, text_eq}
use tasc.JsonInput.Yields.{
  Yields, >>=-Yields, ok-Yields, err-Yields, if-Yields, if-Yields_test, weaken-Yields,
  refuse-Yields, require-Yields, elim-Yields, then-Yields,
}

-- What is left of the text is no longer than a bound.
abbrev pub Left : {X : Type 0} → ℕ → X × Text → Type 0
Left n r = length r.1 ≤ n

pub string_loop-shrinks :
    (most : ℕ) (mode : StringMode) (s : StringState) (t : Text)
    → Yields (Left (length t)) (string_loop most mode s t)
unfolding string_loop
string_loop-shrinks most mode s [] = err-Yields (Left 0) InputError.invalid_json
string_loop-shrinks most mode s (c ∷ t) =
    elim-Yields (Left (suc (length t))) (is_plain mode && c == 0x22) _ _
      (refuse-Yields (Left (suc (length t))) s.pending InputError.invalid_unicode _
        (ok-Yields (Left (suc (length t))) (s.decoded, t) (omega arith)))
      (then-Yields (Left (suc (length t))) (string_step most c mode s) _ λ n.
        weaken-Yields (Left (length t)) (Left (suc (length t))) _ (λ r h. omega (arith, h))
          (string_loop-shrinks most (n.0) (n.1) t))

digits-shrinks : (most used : ℕ) (t : Text) → Yields (Left (length t)) (digits most used t)
unfolding digits
digits-shrinks most used [] = ok-Yields (Left 0) (used, []) (omega arith)
digits-shrinks most used (c ∷ t) =
    elim-Yields (Left (suc (length t))) (is_digit c) _ _
      (then-Yields (Left (suc (length t))) (consume_number most used) _ λ u.
        weaken-Yields (Left (length t)) (Left (suc (length t))) _ (λ r h. omega (arith, h))
          (digits-shrinks most u t))
      (ok-Yields (Left (suc (length t))) (used, c ∷ t) (omega arith))

-- After a unit that is a digit, the digits are shorter.
digits-shrinks_first :
    (most used c : ℕ) (t : Text)
    → is_digit c ≡ true
    → Yields (Left (length t)) (digits most used (c ∷ t))
unfolding digits
digits-shrinks_first most used c t e =
    subst
      (λ b. Yields (Left (length t)) (elim b [
        | true ↦ do used' ← consume_number most used; digits most used' t
        | false ↦ ok (used, c ∷ t)
      ]))
      (sym e)
      (then-Yields (Left (length t)) (consume_number most used) _ λ u. digits-shrinks most u t)

optional-shrinks :
    (test : ℕ → Bool) (most used : ℕ) (t : Text)
    → Yields (Left (length t)) (optional test most used t)
unfolding optional
optional-shrinks test most used [] = ok-Yields (Left 0) (used, []) (omega arith)
optional-shrinks test most used (c ∷ t) =
    if-Yields (Left (suc (length t))) (test c) _ _
      (then-Yields (Left (suc (length t))) (consume_number most used) _
        λ u. ok-Yields (Left (suc (length t))) (u, t) (omega arith))
      (ok-Yields (Left (suc (length t))) (used, c ∷ t) (omega arith))

-- One unit is consumed at least.
abbrev Less : ℕ → ℕ × Text → Type 0
Less n r = length r.1 < n

some_digits-shrinks :
    (most used : ℕ) (t : Text) → Yields (Less (length t)) (some_digits most used t)
unfolding some_digits
some_digits-shrinks most used [] = err-Yields (Less 0) InputError.invalid_json
some_digits-shrinks most used (c ∷ t) =
    if-Yields_test (Less (suc (length t))) (is_digit c) _ _
      (λ e.
        weaken-Yields (Left (length t)) (Less (suc (length t))) _ (λ r h. omega (arith, h))
          (digits-shrinks_first most used c t e))
      (err-Yields (Less (suc (length t))) InputError.invalid_json)

integer_part-shrinks :
    (most used : ℕ) (t : Text) → Yields (Less (length t)) (integer_part most used t)
unfolding integer_part
integer_part-shrinks most used [] = err-Yields (Less 0) InputError.invalid_json
integer_part-shrinks most used (c ∷ t) =
    if-Yields (Less (suc (length t))) (c == 0x30) _ _
      (then-Yields (Less (suc (length t))) (consume_number most used) _
        λ u. ok-Yields (Less (suc (length t))) (u, t) (omega arith))
      (some_digits-shrinks most used (c ∷ t))

fraction_part-shrinks :
    (most used : ℕ) (t : Text) → Yields (Left (length t)) (fraction_part most used t)
unfolding fraction_part
fraction_part-shrinks most used [] = ok-Yields (Left 0) (used, []) (omega arith)
fraction_part-shrinks most used (c ∷ t) =
    if-Yields (Left (suc (length t))) (c == 0x2e) _ _
      (then-Yields (Left (suc (length t))) (consume_number most used) _ λ u.
        weaken-Yields (Less (length t)) (Left (suc (length t))) _ (λ r h. omega (arith, h))
          (some_digits-shrinks most u t))
      (ok-Yields (Left (suc (length t))) (used, c ∷ t) (omega arith))

exponent_part-shrinks :
    (most used : ℕ) (t : Text) → Yields (Left (length t)) (exponent_part most used t)
unfolding exponent_part
exponent_part-shrinks most used [] = ok-Yields (Left 0) (used, []) (omega arith)
exponent_part-shrinks most used (c ∷ t) =
    if-Yields (Left (suc (length t))) (c == 0x65 || c == 0x45) _ _
      (then-Yields (Left (suc (length t))) (consume_number most used) _ λ u.
        >>=-Yields (Left (length t)) (Left (suc (length t))) (optional _ most u t) _
          (optional-shrinks _ most u t)
          λ r h.
            weaken-Yields (Less (length r.1)) (Left (suc (length t))) _ (λ q k. omega (arith, h, k))
              (some_digits-shrinks most r.0 r.1))
      (ok-Yields (Left (suc (length t))) (used, c ∷ t) (omega arith))

abbrev pub Shorter : ℕ → Text → Type 0
Shorter n t = length t < n

pub scan_number-shrinks :
    (o : JsonInputOptions) (t : Text) → Yields (Shorter (length t)) (scan_number o t)
unfolding scan_number
scan_number-shrinks o t =
    >>=-Yields (Left (length t)) (Shorter (length t)) _ _
      (optional-shrinks _ o.limits.numeric_token_length 0 t)
      λ a ha.
        >>=-Yields (Less (length a.1)) (Shorter (length t)) _ _
          (integer_part-shrinks o.limits.numeric_token_length a.0 a.1)
          λ b hb.
            >>=-Yields (Left (length b.1)) (Shorter (length t)) _ _
              (fraction_part-shrinks o.limits.numeric_token_length b.0 b.1)
              λ d hd.
                >>=-Yields (Left (length d.1)) (Shorter (length t)) _ _
                  (exponent_part-shrinks o.limits.numeric_token_length d.0 d.1)
                  λ e he.
                    require-Yields (Shorter (length t)) (o.is_finite (take e.0 t))
                      InputError.number_range _
                      (ok-Yields (Shorter (length t)) e.1 (omega (arith, ha, hb, hd, he)))

scan_literal-shrinks :
    (literal t : Text)
    → Yields (λ rest. length rest + length literal ≡ length t) (scan_literal literal t)
unfolding scan_literal
scan_literal-shrinks [] t = ok-Yields (λ rest. length rest + 0 ≡ length t) t (omega arith)
scan_literal-shrinks (l ∷ literal) [] = err-Yields _ InputError.invalid_json
scan_literal-shrinks (l ∷ literal) (c ∷ t) =
    if-Yields _ (c == l) _ _
      (weaken-Yields (λ (rest : Text). length rest + length literal ≡ length t) _ _
        (λ rest h. omega (arith, h)) (scan_literal-shrinks literal t))
      (err-Yields _ InputError.invalid_json)

pub skip_whitespace-le : (t : Text) → length (skip_whitespace t) ≤ length t
unfolding skip_whitespace
skip_whitespace-le [] = omega arith
skip_whitespace-le (c ∷ t) = ground (arith, skip_whitespace-le t)

-- A literal is not empty.
pub literal-shrinks :
    (l : ℕ) (literal t : Text) → Yields (Shorter (length t)) (scan_literal (l ∷ literal) t)
literal-shrinks l literal t =
    weaken-Yields (λ (rest : Text). length rest + suc (length literal) ≡ length t)
      (Shorter (length t)) _ (λ rest h. omega (arith, h)) (scan_literal-shrinks (l ∷ literal) t)
