-- ===== src/JsonInput/Progress.antt =====
-- src/bounded-input.ts: each round of `validateJsonGrammar` consumes a part of the source, so that the loop
-- ends.
use tasc.Base.{
  ℕ, zero, suc, ◌+◌, ◌<◌, ◌≡◌, refl, true, ◌||◌, List, [], ◌∷◌, Option, some, ltb, ◌==◌, nat_eq,
  includes, length, Result, ok, err, ◌>>=◌, arith,
}
use tasc.JsonInput.{InputError, JsonInputOptions, skip_whitespace, scan_string}
use tasc.JsonInput.Machine.{
  Frame, object_frame, array_frame, ObjectState, key_or_end, colon, value, comma_or_end, ArrayState,
  value_or_end, item_comma_or_end, Scanner, consume_token, push_frame, scan_scalar, scan_value,
  scan_key, scan_object, scan_array, scan_frame, Round, stop, more, round, run, new_scanner,
  validate_json_grammar,
}
use tasc.Network.{is_digit}
use tasc.Text.{Text, codes, text_eq}
use tasc.JsonInput.Yields.{
  Yields, >>=-Yields, ok-Yields, err-Yields, if-Yields, refuse-Yields, require-Yields, then-Yields,
}
use tasc.JsonInput.Lexemes.{
  Left, Shorter, string_loop-shrinks, scan_number-shrinks, literal-shrinks, skip_whitespace-le,
}

-- The scanner's text is shorter than a bound.
abbrev Moved : ℕ → Scanner → Type 0
Moved n s = length s.rest < n

module _ (o : JsonInputOptions) where
  scan_scalar-shrinks : (c : ℕ) (t : Text) → Yields (Shorter (suc (length t))) (scan_scalar o c t)
  unfolding scan_scalar scan_string
  scan_scalar-shrinks c t =
      if-Yields P (c == 0x22) _ _
        (>>=-Yields (Left (length t)) P _ _ (string_loop-shrinks _ _ _ t)
          λ r h. ok-Yields P r.1 (omega (arith, h)))
        (if-Yields P (c == 0x74) _ _ (literal-shrinks b't' (codes "rue") (c ∷ t)) (
          if-Yields P (c == 0x66) _ _ (literal-shrinks b'f' (codes "alse") (c ∷ t)) (
            if-Yields P (c == 0x6e) _ _ (literal-shrinks b'n' (codes "ull") (c ∷ t)) (
              if-Yields P (c == 0x2d || is_digit c) _ _ (scan_number-shrinks o (c ∷ t))
                (err-Yields P InputError.invalid_json)))))
    where
      P : Text → Type 0
      P = Shorter (suc (length t))

  push_frame-shrinks :
      (f : Frame) (t : Text) (s : Scanner) → Yields (Moved (suc (length t))) (push_frame o f t s)
  unfolding push_frame
  push_frame-shrinks f t s =
      if-Yields (Moved (suc (length t))) _ _ _
        (err-Yields (Moved (suc (length t))) InputError.depth_limit)
        (ok-Yields (Moved (suc (length t))) (record s { frames = f ∷ s.frames; rest = t })
          (omega arith))

  scan_value-shrinks : (t : Text) (s : Scanner) → Yields (Moved (length t)) (scan_value o t s)
  unfolding scan_value
  scan_value-shrinks [] s =
      then-Yields (Moved 0) (consume_token o s) _ λ _. err-Yields (Moved 0) InputError.invalid_json
  scan_value-shrinks (c ∷ t) s = then-Yields P (consume_token o s) _ λ s'.
      if-Yields P (c == 0x7b) _ _ (push_frame-shrinks (object_frame (key_or_end true) []) t s') (
        if-Yields P (c == 0x5b) _ _ (push_frame-shrinks (array_frame (value_or_end true) 0) t s') (
          >>=-Yields (Shorter (suc (length t))) P (scan_scalar o c t) _ (scan_scalar-shrinks c t)
            λ rest h. ok-Yields P (record s' { rest = rest }) (omega (arith, h))))
    where
      P : Scanner → Type 0
      P = Moved (suc (length t))

  scan_key-shrinks :
      (keys : List Text) (fs : List Frame) (t : Text) (s : Scanner)
      → Yields (Moved (suc (length t))) (scan_key o keys fs t s)
  unfolding scan_key scan_string
  scan_key-shrinks keys fs t s = then-Yields P (consume_token o s) _ λ s'.
      >>=-Yields (Left (length t)) P _ _ (string_loop-shrinks _ _ _ t) λ scanned h.
        refuse-Yields P (ltb o.limits.object_keys (s'.object_keys + 1)) InputError.object_key_limit
          _
          (refuse-Yields P (includes keys scanned.0) InputError.duplicate_key _ (
            ok-Yields P
              (record s' {
                frames = object_frame colon (scanned.0 ∷ keys) ∷ fs;
                rest = scanned.1;
                object_keys = s'.object_keys + 1;
              })
              (omega (arith, h))))
    where
      P : Scanner → Type 0
      P = Moved (suc (length t))

  -- A frame is closed, or it goes on in another state.
  put_frames-shrinks :
      (fs : List Frame) (t : Text) (s : Scanner)
      → Yields
          (Moved (suc (length t)))
          (consume_token o s >>= λ s'. ok (record s' { frames = fs; rest = t }))
  put_frames-shrinks fs t s =
      then-Yields (Moved (suc (length t))) (consume_token o s) _
        λ s'. ok-Yields (Moved (suc (length t))) (record s' { frames = fs; rest = t }) (omega arith)

  scan_object-shrinks :
      (state : ObjectState) (keys : List Text) (fs : List Frame) (c : ℕ) (t : Text) (s : Scanner)
      → Yields (Moved (suc (length t))) (scan_object o state keys fs c t s)
  unfolding scan_object
  scan_object-shrinks (key_or_end allow_end) keys fs c t s =
      if-Yields (Moved (suc (length t))) (c == 0x7d) _ _
        (require-Yields (Moved (suc (length t))) allow_end InputError.invalid_json _
          (put_frames-shrinks fs t s))
        (if-Yields (Moved (suc (length t))) (c == 0x22) _ _ (scan_key-shrinks keys fs t s)
          (err-Yields (Moved (suc (length t))) InputError.invalid_json))
  scan_object-shrinks colon keys fs c t s =
      if-Yields (Moved (suc (length t))) (c == 0x3a) _ _ (put_frames-shrinks _ t s)
        (err-Yields (Moved (suc (length t))) InputError.invalid_json)
  scan_object-shrinks value keys fs c t s = scan_value-shrinks (c ∷ t) _
  scan_object-shrinks comma_or_end keys fs c t s =
      if-Yields (Moved (suc (length t))) (c == 0x2c) _ _ (put_frames-shrinks _ t s) (
        if-Yields (Moved (suc (length t))) (c == 0x7d) _ _ (put_frames-shrinks fs t s)
          (err-Yields (Moved (suc (length t))) InputError.invalid_json))

  scan_array-shrinks :
      (state : ArrayState) (items : ℕ) (fs : List Frame) (c : ℕ) (t : Text) (s : Scanner)
      → Yields (Moved (suc (length t))) (scan_array o state items fs c t s)
  unfolding scan_array
  scan_array-shrinks (value_or_end allow_end) items fs c t s =
      if-Yields (Moved (suc (length t))) (c == 0x5d) _ _
        (require-Yields (Moved (suc (length t))) allow_end InputError.invalid_json _
          (put_frames-shrinks fs t s))
        (refuse-Yields (Moved (suc (length t))) (ltb o.limits.array_items (items + 1))
          InputError.array_item_limit _ (scan_value-shrinks (c ∷ t) _))
  scan_array-shrinks item_comma_or_end items fs c t s =
      if-Yields (Moved (suc (length t))) (c == 0x2c) _ _ (put_frames-shrinks _ t s) (
        if-Yields (Moved (suc (length t))) (c == 0x5d) _ _ (put_frames-shrinks fs t s)
          (err-Yields (Moved (suc (length t))) InputError.invalid_json))

  -- A round that goes on leaves a shorter text.
  abbrev Progress : ℕ → Round → Type 0
  Progress n r = elim r [ stop ↦ Unit {0} | more s ↦ length s.rest < n ]

  going-shrinks :
      (n : ℕ) (m : Result InputError Scanner)
      → Yields (Moved n) m
      → Yields (Progress n) (m >>= λ s. ok (more s))
  going-shrinks n m h =
      >>=-Yields (Moved n) (Progress n) m _ h λ s k. ok-Yields (Progress n) (more s) k

  round-shrinks :
      (fs : List Frame) (t : Text) (s : Scanner) → Yields (Progress (length t)) (round o fs t s)
  unfolding round scan_frame
  round-shrinks [] [] s =
      if-Yields (Progress 0) s.root_complete _ _ (ok-Yields (Progress 0) stop tt)
        (err-Yields (Progress 0) InputError.invalid_json)
  round-shrinks [] (c ∷ t) s =
      if-Yields (Progress (suc (length t))) s.root_complete _ _
        (err-Yields (Progress (suc (length t))) InputError.invalid_json)
        (going-shrinks (suc (length t)) _ (scan_value-shrinks (c ∷ t) _))
  round-shrinks (f ∷ fs) [] s = err-Yields (Progress 0) InputError.invalid_json
  round-shrinks (object_frame state keys ∷ fs) (c ∷ t) s =
      going-shrinks (suc (length t)) _ (scan_object-shrinks state keys fs c t s)
  round-shrinks (array_frame state items ∷ fs) (c ∷ t) s =
      going-shrinks (suc (length t)) _ (scan_array-shrinks state items fs c t s)

  abbrev Settled : Option (Result InputError (Unit {0})) → Type 0
  Settled r = (a : Result InputError (Unit {0})) × (r ≡ some a)

  settle :
      (rounds n : ℕ) (m : Result InputError Round)
      → Yields (Progress n) m
      → ((s : Scanner) → length s.rest < n → Settled (run o rounds s))
      → Settled (elim m [
        | err e ↦ some (err e)
        | ok r ↦ elim r [ stop ↦ some (ok tt) | more s' ↦ run o rounds s' ]
      ])
  unfolding Yields
  settle rounds n (err e) h f = (err e, refl)
  settle rounds n (ok stop) h f = (ok tt, refl)
  settle rounds n (ok (more s)) h f = f s h

  run-settles : (rounds : ℕ) (s : Scanner) → length s.rest < rounds → Settled (run o rounds s)
  unfolding run
  run-settles zero s h = absurd (omega arith)
  run-settles (suc rounds) s h =
      settle rounds (length (skip_whitespace s.rest)) _
        (round-shrinks s.frames (skip_whitespace s.rest) s)
        λ s' k. run-settles rounds s' (omega (arith, skip_whitespace-le s.rest))

  -- The scanner ends on every source: it accepts it, or it reports an error.
  pub validate_json_grammar-ends :
      (source : Text)
      → (r : Result InputError (Unit {0})) × (validate_json_grammar o source ≡ some r)
  unfolding validate_json_grammar new_scanner
  validate_json_grammar-ends source =
      run-settles (suc (length source)) (new_scanner source) (omega arith)
