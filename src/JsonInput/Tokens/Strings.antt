-- ===== src/JsonInput/Tokens/Strings.antt =====
-- src/bounded-input.ts, `scanString`: it reads the strings of the grammar.
use tasc.Base.{
  ℕ, zero, suc, ◌+◌, ◌*◌, ◌≤◌, ◌≡◌, refl, ap, sym, subst, ◌∙◌, Bool, true, false, ◌&&◌, [], ◌∷◌,
  ◌++◌, Option, none, some, ltb, ◌==◌, nat_eq, length, length-append, Result, ok, refuse, ◌>>=◌,
  ◌>>◌, arith,
}
use tasc.JsonInput.{
  InputError, StringMode, StringState, plain, escaped, hex, hex_value, simple_escape, consume_unit,
  plain_unit, escaped_unit, is_plain, or_invalid, string_step, string_loop, scan_string,
}
use tasc.JsonInput.Tokens.{Chars, close, unit, escape, letter, unicode, digit, last_digit}
use tasc.JsonInput.Yields.{
  Yields, >>=-Yields, ok-Yields, err-Yields, weaken-Yields, then-Yields, refuse-Yields,
  if-Yields_known, elim-Yields_known,
}
use tasc.Stream.Bytes.{append_assoc, append_nil}
use tasc.Stream.Limits.{BoundedJsonLimits}
use tasc.Text.{Text}

closing :
    (mode : StringMode) (c : ℕ) (t : Text)
    → (is_plain mode && c == b'"') ≡ true
    → Chars mode (c ∷ t) [] t
closing plain c t e =
    let q : b'"' ≡ c = ground (arith, e) in subst (λ x. Chars plain (x ∷ t) [] t) q close
closing escaped c t e = absurd (cc e)
closing (hex n v) c t e = absurd (cc e)

known-digit :
    {A : Type 0} (P : A → Type 0) (r : Option ℕ) (k : ℕ → Result InputError A)
    → ((n : ℕ) → r ≡ some n → Yields P (k n))
    → Yields P (or_invalid r >>= k)
known-digit P none k f = err-Yields P InputError.invalid_json
known-digit P (some n) k f = f n refl

module _ (most : ℕ) where
  -- One more unit was decoded.
  abbrev Pushed : ℕ → StringState → StringState → Type 0
  Pushed k s s' =
      (s'.decoded ≡ s.decoded ++ k ∷ [])
      × (s'.decoded_units ≡ s.decoded_units + 1)
      × (s'.decoded_units ≤ most)

  plain_unit-Pushed : (k : ℕ) (s : StringState) → Yields (Pushed k s) (plain_unit most k s)
  unfolding plain_unit
  plain_unit-Pushed k s =
      then-Yields (Pushed k s) (consume_unit k s.pending) _
        λ pending. within pending (ltb most (s.decoded_units + 1)) refl
    where
      within :
          (p b : Bool)
          → ltb most (s.decoded_units + 1) ≡ b
          → Yields (Pushed k s) (
              refuse b InputError.decoded_string_limit
              >> ok (record {
                decoded_units = s.decoded_units + 1;
                pending = p;
                decoded = s.decoded ++ k ∷ [];
              }))
      within p true e = err-Yields (Pushed k s) InputError.decoded_string_limit
      within p false e = ok-Yields (Pushed k s) _ (refl, refl, ground (arith, e))

  escaped_unit-Pushed : (k : ℕ) (s : StringState) → Yields (Pushed k s) (escaped_unit most k s)
  unfolding escaped_unit
  escaped_unit-Pushed k s = within (ltb most (s.decoded_units + 1)) refl
    where
      within :
          (b : Bool)
          → ltb most (s.decoded_units + 1) ≡ b
          → Yields (Pushed k s) (
              refuse b InputError.decoded_string_limit
              >> (consume_unit k s.pending >>= λ p. ok (record {
                decoded_units = s.decoded_units + 1;
                pending = p;
                decoded = s.decoded ++ k ∷ [];
              })))
      within true e = err-Yields (Pushed k s) InputError.decoded_string_limit
      within false e =
          then-Yields (Pushed k s) (consume_unit k s.pending) _
            λ p. ok-Yields (Pushed k s) _ (refl, refl, ground (arith, e))

  -- One unit of the source, in the place `mode`: what it decodes to is put before what the rest does.
  record Step (mode : StringMode) (c : ℕ) (s : StringState) (r : StringMode × StringState)
      : Type 0 where
    before : Text
    spells : (t d u : Text) → Chars r.0 t d u → Chars mode (c ∷ t) (before ++ d) u
    decoded : (r.1).decoded ≡ s.decoded ++ before
    counted : (r.1).decoded_units ≡ s.decoded_units + length before
    kept : s.decoded_units ≤ most → (r.1).decoded_units ≤ most

  Pushed-Step :
      (mode : StringMode) (c k : ℕ) (s s' : StringState)
      → ((t d u : Text) → Chars plain t d u → Chars mode (c ∷ t) (k ∷ d) u)
      → Pushed k s s'
      → Step mode c s (plain, s')
  Pushed-Step mode c k s s' spells p = record {
    before = k ∷ [];
    spells = spells;
    decoded = p.0;
    counted = p.1;
    kept = λ _. p.2;
  }

  same-Step :
      (mode mode' : StringMode) (c : ℕ) (s : StringState)
      → ((t d u : Text) → Chars mode' t d u → Chars mode (c ∷ t) d u)
      → Step mode c s (mode', s)
  same-Step mode mode' c s spells = record {
    before = [];
    spells = spells;
    decoded = sym (append_nil s.decoded);
    counted = omega arith;
    kept = λ h. h;
  }

  string_step-Step :
      (mode : StringMode) (c : ℕ) (s : StringState)
      → (is_plain mode && c == b'"') ≡ false
      → Yields (Step mode c s) (string_step most c mode s)
  unfolding string_step
  string_step-Step plain c s inner =
      if-Yields_known (Step plain c s) (ltb c 0x20) _ _
        (λ _. err-Yields (Step plain c s) InputError.invalid_json)
        (λ printable.
          if-Yields_known (Step plain c s) (c == 0x5c) _ _
            (λ e.
              ok-Yields (Step plain c s) (escaped, s)
                (same-Step plain escaped c s (λ t d u. escape (ground (arith, e)))))
            (λ ne. >>=-Yields (Pushed c s) (Step plain c s) _ _ (plain_unit-Pushed c s) λ s' p.
              ok-Yields (Step plain c s) (plain, s')
                (Pushed-Step plain c c s s'
                  (λ t d u.
                    unit (ground (arith, printable)) (λ x. absurd (ground (arith, inner, x)))
                      (λ x. absurd (ground (arith, ne, x))))
                  p)))
  string_step-Step escaped c s inner =
      if-Yields_known (Step escaped c s) (c == 0x75) _ _
        (λ e.
          ok-Yields (Step escaped c s) (hex 3 0, s)
            (same-Step escaped (hex 3 0) c s (λ t d u. unicode (ground (arith, e)))))
        (λ _. known-digit (Step escaped c s) (simple_escape c) _ λ k e.
          >>=-Yields (Pushed k s) (Step escaped c s) _ _ (escaped_unit-Pushed k s) λ s' p.
            ok-Yields (Step escaped c s) (plain, s')
              (Pushed-Step escaped c k s s' (λ t d u. letter e) p))
  string_step-Step (hex zero v) c s inner =
      known-digit (Step (hex zero v) c s) (hex_value c) _ λ k e.
        >>=-Yields (Pushed (v * 16 + k) s) (Step (hex zero v) c s) _ _
          (escaped_unit-Pushed (v * 16 + k) s)
          λ s' p.
            ok-Yields (Step (hex zero v) c s) (plain, s')
              (Pushed-Step (hex zero v) c (v * 16 + k) s s' (λ t d u. last_digit e) p)
  string_step-Step (hex (suc n) v) c s inner =
      known-digit (Step (hex (suc n) v) c s) (hex_value c) _ λ k e.
        ok-Yields (Step (hex (suc n) v) c s) (hex n (v * 16 + k), s)
          (same-Step (hex (suc n) v) (hex n (v * 16 + k)) c s (λ t d u. digit e))

  -- What is left of a string: it spells what is decoded after the units so far.
  abbrev Spelled : StringMode → StringState → Text → Text × Text → Type 0
  Spelled mode s t r =
      (d : Text) × Chars mode t d r.1
      × (r.0 ≡ s.decoded ++ d)
      × (s.decoded_units ≤ most → s.decoded_units + length d ≤ most)

  Step-Spelled :
      (mode : StringMode) (c : ℕ) (s : StringState) (t : Text) (n : StringMode × StringState)
      (r : Text × Text)
      → Step mode c s n
      → Spelled n.0 n.1 t r
      → Spelled mode s (c ∷ t) r
  Step-Spelled mode c s t n r k (d, chars, e, fits) = (
    k.before ++ d,
    k.spells t d r.1 chars,
    e ∙ ap (λ x. x ++ d) k.decoded ∙ append_assoc s.decoded k.before d,
    λ h. omega (arith, fits (k.kept h), k.counted, length-append k.before d),
  )

  string_loop-Spelled :
      (mode : StringMode) (s : StringState) (t : Text)
      → Yields (Spelled mode s t) (string_loop most mode s t)
  unfolding string_loop
  string_loop-Spelled mode s [] = err-Yields (Spelled mode s []) InputError.invalid_json
  string_loop-Spelled mode s (c ∷ t) =
      elim-Yields_known (Spelled mode s (c ∷ t)) (is_plain mode && c == 0x22) _ _
        (λ e. refuse-Yields (Spelled mode s (c ∷ t)) s.pending InputError.invalid_unicode _ (
          ok-Yields (Spelled mode s (c ∷ t)) (s.decoded, t)
            ([], closing mode c t e, sym (append_nil s.decoded), λ h. omega (arith, h))))
        (λ e.
          >>=-Yields (Step mode c s) (Spelled mode s (c ∷ t)) _ _ (string_step-Step mode c s e)
            λ n k.
              weaken-Yields (Spelled n.0 n.1 t) (Spelled mode s (c ∷ t)) _
                (λ r h. Step-Spelled mode c s t n r k h) (string_loop-Spelled n.0 n.1 t))

-- `scanString` reads a string of the grammar, of no more units than allowed, and returns what it spells.
pub scan_string-Chars :
    (l : BoundedJsonLimits ℕ) (t : Text)
    → Yields
        (λ (r : Text × Text). Chars plain t r.0 r.1 × (length r.0 ≤ l.decoded_string_length))
        (scan_string l t)
unfolding scan_string
scan_string-Chars l t =
    weaken-Yields (Spelled most plain begun t) _ _
      (λ r (d, chars, e, fits). (
        subst (λ x. Chars plain t x r.1) (sym e) chars,
        omega (arith, fits (omega arith), ap length e),
      ))
      (string_loop-Spelled most plain begun t)
  where
    most : ℕ
    most = l.decoded_string_length

    begun : StringState
    begun = record { decoded_units = 0; pending = false; decoded = [] }
