-- ===== src/JsonInput/Machine.antt =====
-- src/bounded-input.ts, `validateJsonGrammar`: the scanner as a machine with a stack of open containers.
use tasc.Base.{
  ℕ, zero, suc, ◌+◌, Bool, true, false, ◌||◌, List, [], ◌∷◌, Option, none, some, ltb, ◌==◌, nat_eq,
  includes, if◌then◌else◌, length, Result, ok, err, require, refuse, ◌>>=◌, ◌>>◌,
}
use tasc.JsonInput.{
  InputError, JsonInputOptions, skip_whitespace, scan_string, scan_number, scan_literal,
}
use tasc.Network.{is_digit}
use tasc.Text.{Text, text_eq, codes}

-- The states of a frame. Those that wait for an element carry `allowEnd`; an array counts its items,
-- an object keeps its keys.
pub data ObjectState : Type 0 where
  key_or_end : Bool → ObjectState
  colon value comma_or_end : ObjectState

pub data ArrayState : Type 0 where
  value_or_end : Bool → ArrayState
  item_comma_or_end : ArrayState

pub data Frame : Type 0 where
  object_frame : ObjectState → List Text → Frame
  array_frame : ArrayState → ℕ → Frame

-- `Scanner`, the innermost frame first; `rest` is the source from the index on.
pub record Scanner : Type 0 where
  pub frames : List Frame
  pub rest : Text
  pub tokens : ℕ
  pub object_keys : ℕ
  pub root_complete : Bool

unfoldable pub new_scanner : Text → Scanner
new_scanner source = record {
  frames = [];
  rest = source;
  tokens = 0;
  object_keys = 0;
  root_complete = false;
}

-- One round of the loop, it stops, or it goes on with a scanner.
pub data Round : Type 0 where
  stop : Round
  more : Scanner → Round

module _ (o : JsonInputOptions) where
  -- `consumeToken`.
  unfoldable pub consume_token : Scanner → Result InputError Scanner
  consume_token s =
      if ltb o.limits.tokens (s.tokens + 1)
      then err InputError.token_limit
      else ok (record s { tokens = s.tokens + 1 })

  -- `pushFrame`, on the text after the opening bracket.
  unfoldable pub push_frame : Frame → Text → Scanner → Result InputError Scanner
  push_frame f t s =
      if ltb o.limits.depth (length s.frames + 1)
      then err InputError.depth_limit
      else ok (record s { frames = f ∷ s.frames; rest = t })

  abbrev move : Scanner → Text → Scanner
  move s t = record s { rest = t }

  -- A value that is not a container: what follows it.
  unfoldable pub scan_scalar : ℕ → Text → Result InputError Text
  unfolding scan_string scan_number scan_literal
  scan_scalar c t =
      if c == 0x22
      then (do scanned ← scan_string o.limits t; ok scanned.1)
      else if c == 0x74
      then scan_literal (codes "true") (c ∷ t)
      else if c == 0x66
      then scan_literal (codes "false") (c ∷ t)
      else if c == 0x6e
      then scan_literal (codes "null") (c ∷ t)
      else if c == 0x2d || is_digit c
      then scan_number o (c ∷ t)
      else err InputError.invalid_json

  -- `scanValue`, on the text at the index.
  unfoldable pub scan_value : Text → Scanner → Result InputError Scanner
  unfolding consume_token push_frame scan_scalar
  scan_value [] s = do _ ← consume_token s; err InputError.invalid_json
  scan_value (c ∷ t) s = do
    s' ← consume_token s
    if c == 0x7b
        then push_frame (object_frame (key_or_end true) []) t s'
        else if c == 0x5b
        then push_frame (array_frame (value_or_end true) 0) t s'
        else (do rest ← scan_scalar c t; ok (move s' rest))

  -- `consumePunctuation` and `completeFrame`, where the punctuation was seen.
  abbrev close_frame : List Frame → Text → Scanner → Result InputError Scanner
  close_frame fs t s = do s' ← consume_token s; ok (record s' { frames = fs; rest = t })

  abbrev next_state : Frame → List Frame → Text → Scanner → Result InputError Scanner
  next_state f fs t s = do s' ← consume_token s; ok (record s' { frames = f ∷ fs; rest = t })

  -- A key, after its opening quote.
  unfoldable pub scan_key : List Text → List Frame → Text → Scanner → Result InputError Scanner
  unfolding consume_token scan_string
  scan_key keys fs t s = do
    s' ← consume_token s
    scanned ← scan_string o.limits t
    refuse (ltb o.limits.object_keys (s'.object_keys + 1)) InputError.object_key_limit
    refuse (includes keys scanned.0) InputError.duplicate_key
    ok (record s' {
      frames = object_frame colon (scanned.0 ∷ keys) ∷ fs;
      rest = scanned.1;
      object_keys = s'.object_keys + 1;
    })

  -- `scanObject`, with the frames under the object's and the text at the index.
  unfoldable pub scan_object :
      ObjectState → List Text → List Frame → ℕ → Text → Scanner → Result InputError Scanner
  unfolding consume_token scan_key scan_value
  scan_object (key_or_end allow_end) keys fs c t s =
      if c == 0x7d
      then (do require allow_end InputError.invalid_json; close_frame fs t s)
      else if c == 0x22
      then scan_key keys fs t s
      else err InputError.invalid_json
  scan_object colon keys fs c t s =
      if c == 0x3a then next_state (object_frame value keys) fs t s else err InputError.invalid_json
  scan_object value keys fs c t s =
      scan_value (c ∷ t) (record s { frames = object_frame comma_or_end keys ∷ fs })
  scan_object comma_or_end keys fs c t s =
      if c == 0x2c
      then next_state (object_frame (key_or_end false) keys) fs t s
      else if c == 0x7d
      then close_frame fs t s
      else err InputError.invalid_json

  -- `scanArray`.
  unfoldable pub scan_array :
      ArrayState → ℕ → List Frame → ℕ → Text → Scanner → Result InputError Scanner
  unfolding consume_token scan_value
  scan_array (value_or_end allow_end) items fs c t s =
      if c == 0x5d then (do require allow_end InputError.invalid_json; close_frame fs t s) else (do
        refuse (ltb o.limits.array_items (items + 1)) InputError.array_item_limit
        scan_value (c ∷ t) (record s { frames = array_frame item_comma_or_end (items + 1) ∷ fs }))
  scan_array item_comma_or_end items fs c t s =
      if c == 0x2c
      then next_state (array_frame (value_or_end false) items) fs t s
      else if c == 0x5d
      then close_frame fs t s
      else err InputError.invalid_json

  unfoldable pub scan_frame : Frame → List Frame → ℕ → Text → Scanner → Result InputError Scanner
  unfolding scan_object scan_array
  scan_frame (object_frame state keys) fs c t s = scan_object state keys fs c t s
  scan_frame (array_frame state items) fs c t s = scan_array state items fs c t s

  abbrev going : Result InputError Scanner → Result InputError Round
  going m = m >>= λ s. ok (more s)

  -- One round, on the text after the whitespace.
  unfoldable pub round : List Frame → Text → Scanner → Result InputError Round
  unfolding scan_value scan_frame
  round [] [] s = if s.root_complete then ok stop else err InputError.invalid_json
  round [] (c ∷ t) s =
      if s.root_complete
      then err InputError.invalid_json
      else going (scan_value (c ∷ t) (record s { root_complete = true }))
  round (f ∷ fs) [] s = err InputError.invalid_json
  round (f ∷ fs) (c ∷ t) s = going (scan_frame f fs c t s)

  -- The loop, for a number of rounds at most; `none` if it goes on after them.
  unfoldable pub run : ℕ → Scanner → Option (Result InputError (Unit {0}))
  unfolding round skip_whitespace
  run zero s = none
  run (suc rounds) s = elim (round s.frames (skip_whitespace s.rest) s) [
    | err e ↦ some (err e)
    | ok r ↦ elim r [ stop ↦ some (ok tt) | more s' ↦ run rounds s' ]
  ]

  -- `validateJsonGrammar`. Each round but the last consumes a unit of the source.
  unfoldable pub validate_json_grammar : Text → Option (Result InputError (Unit {0}))
  unfolding run new_scanner
  validate_json_grammar source = run (suc (length source)) (new_scanner source)
