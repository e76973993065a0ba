-- ===== src/JsonInput/Meaning.antt =====
-- src/bounded-input.ts, `validateJsonGrammar`: what the open frames wait for, in terms of the grammar, and
-- that a value is read as the grammar derives it.
use tasc.Base.{
  ℕ, suc, ◌+◌, ◌≤◌, ◌≡◌, subst, inl, inr, Bool, true, false, List, [], ◌∷◌, ltb, ◌==◌, nat_eq,
  if◌then◌else◌, length, Result, ok, err, ◌>>=◌, ◌||◌, arith,
}
use tasc.JsonInput.{InputError, JsonInputOptions, skip_whitespace, plain}
use tasc.JsonInput.Machine.{
  Frame, object_frame, array_frame, key_or_end, value_or_end, Scanner, consume_token, push_frame,
  scan_scalar, scan_value,
}
use tasc.JsonInput.Tokens.{Chars, Scalar, text, number, word, IsNumber}
use tasc.JsonInput.Tokens.Strings.{scan_string-Chars}
use tasc.JsonInput.Tokens.Numbers.{scan_number-IsNumber, scan_literal-append}
use tasc.Network.{is_digit}
use tasc.JsonInput.Yields.{
  if-Yields, weaken-Yields, if-Yields_known, Yields, >>=-Yields, ok-Yields, err-Yields,
}
use tasc.Text.{Text, text_eq, codes}
use tasc.JsonInput.Grammar.{
  Phase, one_value, members, elements, Reads, IsJson, scalar, object, array,
}

module _ (o : JsonInputOptions) where
  abbrev pub phase_of : Frame → ℕ → Phase
  phase_of (object_frame state keys) n = members state keys n
  phase_of (array_frame state items) n = elements state items n

  -- What the text must be for the scanner to accept it: what each open frame waits for, from the
  -- innermost to the outermost, and nothing more.
  unfoldable pub Means : List Frame → Bool → Text → Type 0
  Means [] true t = skip_whitespace t ≡ []
  Means [] false t = IsJson o t
  Means (f ∷ fs) true t = (u : Text) × Reads o (phase_of f (suc (length fs))) t u × Means fs true u
  Means (f ∷ fs) false t = Unit

  abbrev pub Leads : Type 0 → Scanner → Type 0
  Leads G s = Means s.frames s.root_complete s.rest → G

  pub token-Yields :
      {A : Type 0} (Q : A → Type 0) (s : Scanner) (k : Scanner → Result InputError A)
      → Yields Q (k (record s { tokens = s.tokens + 1 }))
      → Yields Q (consume_token o s >>= k)
  unfolding consume_token Yields
  token-Yields Q s k h = go (ltb o.limits.tokens (s.tokens + 1))
    where
      go :
          (b : Bool)
          → Yields Q (
              (if b then err InputError.token_limit else ok (record s { tokens = s.tokens + 1 }))
              >>= k)
      go true = tt
      go false = h

  pub push_frame-Leads :
      (G : Type 0) (s : Scanner) (root : s.root_complete ≡ true) (f : Frame) (t : Text)
      → ((u : Text)
          → suc (length s.frames) ≤ o.limits.depth
          → Reads o (phase_of f (suc (length s.frames))) t u
          → Means s.frames true u
          → G)
      → Yields (Leads G) (push_frame o f t s)
  unfolding push_frame Means
  push_frame-Leads G s root f t h =
      if-Yields_known (Leads G) (ltb o.limits.depth (length s.frames + 1)) _ _
        (λ _. err-Yields (Leads G) InputError.depth_limit)
        (λ e.
          ok-Yields (Leads G) (record s { frames = f ∷ s.frames; rest = t })
            (λ m.
              let (u, r, p) = subst (λ b. Means (f ∷ s.frames) b t) root m in
              h u (ground (arith, e)) r p))

  -- A value that is not a container is one of the grammar's scalars.
  scan_scalar-Scalar :
      (c : ℕ) (t : Text)
      → Yields (Scalar o.limits.decoded_string_length (c ∷ t)) (scan_scalar o c t)
  unfolding scan_scalar
  scan_scalar-Scalar c t =
      if-Yields_known P (c == 0x22) _ _
        (λ e.
          >>=-Yields (λ (r : Text × Text). Chars plain t r.0 r.1 × (length r.0 ≤ most)) P _ _
            (scan_string-Chars o.limits t)
            λ r (chars, fits).
              let q : b'"' ≡ c = ground (arith, e) in
              ok-Yields P r.1 (subst (λ x. Scalar most (x ∷ t) r.1) q (text chars fits)))
        (λ _.
          if-Yields P (c == 0x74) _ _
            (weaken-Yields _ P _ (λ u p. word (inl p)) (scan_literal-append (codes "true") (c ∷ t)))
            (if-Yields P (c == 0x66) _ _
              (weaken-Yields _ P _ (λ u p. word (inr (inl p)))
                (scan_literal-append (codes "false") (c ∷ t)))
              (if-Yields P (c == 0x6e) _ _
                (weaken-Yields _ P _ (λ u p. word (inr (inr p)))
                  (scan_literal-append (codes "null") (c ∷ t)))
                (if-Yields P (c == 0x2d || is_digit c) _ _
                  (weaken-Yields (IsNumber (c ∷ t)) P _ (λ u n. number n)
                    (scan_number-IsNumber o (c ∷ t)))
                  (err-Yields P InputError.invalid_json)))))
    where
      most : ℕ
      most = o.limits.decoded_string_length

      P : Text → Type 0
      P = Scalar most (c ∷ t)

  module _ (G : Type 0) (s : Scanner) (root : s.root_complete ≡ true) where
    pub put_frames-Leads :
        (fs : List Frame) (t : Text)
        → (Means fs true t → G)
        → Yields (Leads G) (consume_token o s >>= λ s'. ok (record s' { frames = fs; rest = t }))
    put_frames-Leads fs t h = token-Yields (Leads G) s _ (
        ok-Yields (Leads G) (record s { tokens = s.tokens + 1; frames = fs; rest = t })
          (λ m. h (subst (λ b. Means fs b t) root m)))

    pub scan_value-Leads :
        (c : ℕ) (t : Text)
        → ((u : Text) → Reads o (one_value (length s.frames)) (c ∷ t) u → Means s.frames true u → G)
        → Yields (Leads G) (scan_value o (c ∷ t) s)
    unfolding scan_value
    scan_value-Leads c t h = token-Yields (Leads G) s _ (
        if-Yields_known (Leads G) (c == 0x7b) _ _
          (λ e.
            push_frame-Leads G counted root (object_frame (key_or_end true) []) t
              (λ u d r p. h u (object (ground (arith, e)) d r) p))
          (λ ne.
            if-Yields_known (Leads G) (c == 0x5b) _ _
              (λ e.
                push_frame-Leads G counted root (array_frame (value_or_end true) 0) t
                  (λ u d r p. h u (array (ground (arith, e)) d r) p))
              (λ na.
                >>=-Yields (Scalar o.limits.decoded_string_length (c ∷ t)) (Leads G)
                  (scan_scalar o c t) _ (scan_scalar-Scalar c t)
                  (λ u e.
                    ok-Yields (Leads G) (record counted { rest = u })
                      (λ m. h u (scalar e) (subst (λ b. Means s.frames b u) root m))))))
      where
        counted : Scanner
        counted = record s { tokens = s.tokens + 1 }
