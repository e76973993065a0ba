-- ===== src/JsonInput/Sound.antt =====
-- src/bounded-input.ts, `validateJsonGrammar`: the scanner accepts only what the grammar derives.
use tasc.Base.{
  ℕ, zero, suc, ◌+◌, ◌≤◌, ◌≡◌, refl, sym, subst, Bool, true, false, List, [], ◌∷◌, Option, some,
  ltb, ◌==◌, nat_eq, includes, length, Result, ok, err, refuse, ◌>>=◌, ◌>>◌, arith,
}
use tasc.JsonInput.{InputError, JsonInputOptions, skip_whitespace, scan_string, plain}
use tasc.JsonInput.Machine.{
  Frame, object_frame, array_frame, ObjectState, key_or_end, colon, value, comma_or_end, ArrayState,
  value_or_end, item_comma_or_end, Scanner, scan_value, scan_key, scan_object, scan_array,
  scan_frame, Round, stop, more, round, run, new_scanner, validate_json_grammar,
}
use tasc.JsonInput.Tokens.{Chars}
use tasc.JsonInput.Tokens.Strings.{scan_string-Chars}
use tasc.JsonInput.Yields.{
  if-Yields_known, Yields, >>=-Yields, ok-Yields, err-Yields, refuse-Yields,
}
use tasc.Text.{Text, text_eq}
use tasc.JsonInput.Grammar.{
  one_value, Reads, IsJson, no_member, key, after_key, member, next_member, last_member, no_element,
  element, next_element, last_element,
}
use tasc.JsonInput.Meaning.{Means, Leads, token-Yields, put_frames-Leads, scan_value-Leads}

module _ (o : JsonInputOptions) where
  module _ (T : Text) (fs : List Frame) (c : ℕ) (t : Text) (at : skip_whitespace T ≡ c ∷ t)
      (s : Scanner) (root : s.root_complete ≡ true) where
    -- The text at the index begins with a unit that was seen.
    seen : (k : ℕ) → (c == k) ≡ true → skip_whitespace T ≡ k ∷ t
    seen k e = let q : c ≡ k = ground (arith, e) in subst (λ x. skip_whitespace T ≡ x ∷ t) q at

    scan_key-Leads :
        (b : Bool) (keys : List Text)
        → skip_whitespace T ≡ b'"' ∷ t
        → Yields
            (Leads o (Means o (object_frame (key_or_end b) keys ∷ fs) true T))
            (scan_key o keys fs t s)
    unfolding scan_key Means
    scan_key-Leads b keys e = token-Yields o Q s _ (
        >>=-Yields
          (λ (r : Text × Text).
            Chars plain t r.0 r.1 × (length r.0 ≤ o.limits.decoded_string_length))
          Q (scan_string o.limits t) _ (scan_string-Chars o.limits t)
          λ r scanned.
            refuse-Yields Q (ltb o.limits.object_keys (s.object_keys + 1))
              InputError.object_key_limit _ (fresh r scanned (includes keys r.0) refl))
      where
        Q : Scanner → Type 0
        Q = Leads o (Means o (object_frame (key_or_end b) keys ∷ fs) true T)

        fresh :
            (r : Text × Text)
            → Chars plain t r.0 r.1 × (length r.0 ≤ o.limits.decoded_string_length)
            → (d : Bool) → includes keys r.0 ≡ d
            → Yields Q (
                refuse d InputError.duplicate_key
                >> ok (record s {
                  tokens = s.tokens + 1;
                  frames = object_frame colon (r.0 ∷ keys) ∷ fs;
                  rest = r.1;
                  object_keys = s.object_keys + 1;
                }))
        fresh r scanned true d = err-Yields Q InputError.duplicate_key
        fresh r scanned false d = ok-Yields Q _ (λ m.
            let (u, k, p) =
              subst (λ x. Means o (object_frame colon (r.0 ∷ keys) ∷ fs) x r.1) root m in
            (u, key e scanned.0 scanned.1 d k, p))

    scan_object-Leads :
        (state : ObjectState) (keys : List Text)
        → Yields
            (Leads o (Means o (object_frame state keys ∷ fs) true T))
            (scan_object o state keys fs c t s)
    unfolding scan_object Means
    scan_object-Leads (key_or_end true) keys =
        if-Yields_known (Leads o (Means o (object_frame (key_or_end true) keys ∷ fs) true T))
          (c == 0x7d) _ _
          (λ e. put_frames-Leads o _ s root fs t (λ m. (t, no_member (seen b'}' e), m)))
          (λ _.
            if-Yields_known _ (c == 0x22) _ _ (λ e. scan_key-Leads true keys (seen b'"' e))
              (λ _. err-Yields _ InputError.invalid_json))
    scan_object-Leads (key_or_end false) keys =
        if-Yields_known (Leads o (Means o (object_frame (key_or_end false) keys ∷ fs) true T))
          (c == 0x7d) _ _ (λ e. err-Yields _ InputError.invalid_json)
          (λ _.
            if-Yields_known _ (c == 0x22) _ _ (λ e. scan_key-Leads false keys (seen b'"' e))
              (λ _. err-Yields _ InputError.invalid_json))
    scan_object-Leads colon keys =
        if-Yields_known (Leads o (Means o (object_frame colon keys ∷ fs) true T)) (c == 0x3a) _ _
          (λ e.
            put_frames-Leads o _ s root (object_frame value keys ∷ fs) t
              (λ (u, r, p). (u, after_key (seen b':' e) r, p)))
          (λ _. err-Yields _ InputError.invalid_json)
    scan_object-Leads value keys =
        scan_value-Leads o _ (record s { frames = object_frame comma_or_end keys ∷ fs }) root c t
          (λ u r (v, k, p).
            (v, member (subst (λ x. Reads o (one_value (suc (length fs))) x u) (sym at) r) k, p))
    scan_object-Leads comma_or_end keys =
        if-Yields_known (Leads o (Means o (object_frame comma_or_end keys ∷ fs) true T)) (c == 0x2c)
          _ _
          (λ e.
            put_frames-Leads o _ s root (object_frame (key_or_end false) keys ∷ fs) t
              (λ (u, r, p). (u, next_member (seen b',' e) r, p)))
          (λ _.
            if-Yields_known _ (c == 0x7d) _ _
              (λ e. put_frames-Leads o _ s root fs t (λ m. (t, last_member (seen b'}' e), m)))
              (λ _. err-Yields _ InputError.invalid_json))

    scan_item-Leads :
        (b : Bool) (items : ℕ)
        → Yields (Leads o (Means o (array_frame (value_or_end b) items ∷ fs) true T)) (
            refuse (ltb o.limits.array_items (items + 1)) InputError.array_item_limit
            >> scan_value o
                (c ∷ t)
                (record s { frames = array_frame item_comma_or_end (items + 1) ∷ fs }))
    unfolding Means
    scan_item-Leads b items = within (ltb o.limits.array_items (items + 1)) refl
      where
        within :
            (d : Bool)
            → ltb o.limits.array_items (items + 1) ≡ d
            → Yields (Leads o (Means o (array_frame (value_or_end b) items ∷ fs) true T)) (
                refuse d InputError.array_item_limit
                >> scan_value o
                    (c ∷ t)
                    (record s { frames = array_frame item_comma_or_end (items + 1) ∷ fs }))
        within true e = err-Yields _ InputError.array_item_limit
        within false e =
            scan_value-Leads o _
              (record s { frames = array_frame item_comma_or_end (items + 1) ∷ fs }) root c t
              (λ u r (v, k, p). (
                v,
                element (ground (arith, e))
                    (subst (λ x. Reads o (one_value (suc (length fs))) x u) (sym at) r) k,
                p,
              ))

    scan_array-Leads :
        (state : ArrayState) (items : ℕ)
        → Yields
            (Leads o (Means o (array_frame state items ∷ fs) true T))
            (scan_array o state items fs c t s)
    unfolding scan_array Means
    scan_array-Leads (value_or_end true) items =
        if-Yields_known (Leads o (Means o (array_frame (value_or_end true) items ∷ fs) true T))
          (c == 0x5d) _ _
          (λ e. put_frames-Leads o _ s root fs t (λ m. (t, no_element (seen b']' e), m)))
          (λ _. scan_item-Leads true items)
    scan_array-Leads (value_or_end false) items =
        if-Yields_known (Leads o (Means o (array_frame (value_or_end false) items ∷ fs) true T))
          (c == 0x5d) _ _ (λ _. err-Yields _ InputError.invalid_json)
          (λ _. scan_item-Leads false items)
    scan_array-Leads item_comma_or_end items =
        if-Yields_known (Leads o (Means o (array_frame item_comma_or_end items ∷ fs) true T))
          (c == 0x2c) _ _
          (λ e.
            put_frames-Leads o _ s root (array_frame (value_or_end false) items ∷ fs) t
              (λ (u, r, p). (u, next_element (seen b',' e) r, p)))
          (λ _.
            if-Yields_known _ (c == 0x5d) _ _
              (λ e. put_frames-Leads o _ s root fs t (λ m. (t, last_element (seen b']' e), m)))
              (λ _. err-Yields _ InputError.invalid_json))

    scan_frame-Leads :
        (f : Frame) → Yields (Leads o (Means o (f ∷ fs) true T)) (scan_frame o f fs c t s)
    unfolding scan_frame
    scan_frame-Leads (object_frame state keys) = scan_object-Leads state keys
    scan_frame-Leads (array_frame state items) = scan_array-Leads state items

  -- What a round that ends well says of the text.
  abbrev Follows : Type 0 → Round → Type 0
  Follows G r = elim r [ stop ↦ G | more s ↦ Leads o G s ]

  going-Follows :
      (G : Type 0) (m : Result InputError Scanner)
      → Yields (Leads o G) m
      → Yields (Follows G) (m >>= λ s. ok (more s))
  going-Follows G m h =
      >>=-Yields (Leads o G) (Follows G) m _ h λ s k. ok-Yields (Follows G) (more s) k

  any-Follows : (m : Result InputError Scanner) → Yields (Leads o (Unit {0})) m
  unfolding Yields
  any-Follows (ok s) = λ _. tt
  any-Follows (err e) = tt

  root-Follows :
      (b : Bool) (T t : Text) (s : Scanner)
      → s.root_complete ≡ b
      → s.frames ≡ []
      → skip_whitespace T ≡ t
      → Yields (Follows (Means o [] b T)) (round o [] t s)
  unfolding round Means IsJson
  root-Follows true T [] s root empty at =
      if-Yields_known (Follows (Means o [] true T)) s.root_complete _ _
        (λ _. ok-Yields (Follows (Means o [] true T)) stop at)
        (λ _. err-Yields _ InputError.invalid_json)
  root-Follows false T [] s root empty at =
      if-Yields_known (Follows (IsJson o T)) s.root_complete _ _ (λ e. absurd (cc (e, root)))
        (λ _. err-Yields _ InputError.invalid_json)
  root-Follows true T (c ∷ t) s root empty at =
      if-Yields_known (Follows (Means o [] true T)) s.root_complete _ _
        (λ _. err-Yields _ InputError.invalid_json) (λ e. absurd (cc (e, root)))
  root-Follows false T (c ∷ t) s root empty at =
      if-Yields_known (Follows (IsJson o T)) s.root_complete _ _
        (λ _. err-Yields _ InputError.invalid_json)
        (λ _. going-Follows (IsJson o T) _ (
          scan_value-Leads o (IsJson o T) (record s { root_complete = true }) refl c t
            (λ u r m. (
              u,
              subst (λ x. Reads o (one_value 0) x u) (sym at)
                  (subst (λ fs. Reads o (one_value (length fs)) (c ∷ t) u) empty r),
              subst (λ fs. Means o fs true u) empty m,
            ))))

  frame-Follows :
      (b : Bool) (f : Frame) (fs : List Frame) (T t : Text) (s : Scanner)
      → s.root_complete ≡ b
      → skip_whitespace T ≡ t
      → Yields (Follows (Means o (f ∷ fs) b T)) (round o (f ∷ fs) t s)
  unfolding round Means
  frame-Follows b f fs T [] s root at = err-Yields _ InputError.invalid_json
  frame-Follows true f fs T (c ∷ t) s root at =
      going-Follows _ _ (scan_frame-Leads T fs c t at s root f)
  frame-Follows false f fs T (c ∷ t) s root at =
      going-Follows _ _ (any-Follows (scan_frame o f fs c t s))

  round-Follows :
      (s : Scanner) (fs : List Frame)
      → s.frames ≡ fs
      → Yields (Follows (Means o fs s.root_complete s.rest)) (round o fs (skip_whitespace s.rest) s)
  round-Follows s [] e = root-Follows s.root_complete s.rest (skip_whitespace s.rest) s refl e refl
  round-Follows s (f ∷ fs) e =
      frame-Follows s.root_complete f fs s.rest (skip_whitespace s.rest) s refl refl

  -- A round, and then the rest of the loop.
  accepted :
      (G : Type 0) (rounds : ℕ) (m : Result InputError Round)
      → Yields (Follows G) m
      → ((s : Scanner) → run o rounds s ≡ some (ok tt) → Means o s.frames s.root_complete s.rest)
      → ◌≡◌ {A = Option (Result InputError (Unit {0}))}
          (elim m [
            | err e ↦ some (err e)
            | ok r ↦ elim r [ stop ↦ some (ok tt) | more s' ↦ run o rounds s' ]
          ])
          (some (ok tt))
      → G
  unfolding Yields
  accepted G rounds (err x) h f e = absurd (cc e)
  accepted G rounds (ok stop) h f e = h
  accepted G rounds (ok (more s)) h f e = h (f s e)

  run-Means :
      (rounds : ℕ) (s : Scanner)
      → run o rounds s ≡ some (ok tt)
      → Means o s.frames s.root_complete s.rest
  unfolding run
  run-Means zero s e = absurd (cc e)
  run-Means (suc rounds) s e =
      accepted _ rounds _ (round-Follows s s.frames refl) (run-Means rounds) e

  -- A source that the scanner accepts is one JSON value with whitespace around it, in which the keys of
  -- each object are distinct, no array has too many items and no more containers are open than allowed.
  pub validate_json_grammar-IsJson :
      (source : Text) → validate_json_grammar o source ≡ some (ok tt) → IsJson o source
  unfolding validate_json_grammar new_scanner Means
  validate_json_grammar-IsJson source e = run-Means (suc (length source)) (new_scanner source) e
