-- ===== src/JsonInput/Grammar.antt =====
-- The grammar of JSON, apart from the code of src/bounded-input.ts but for its whitespace and the states
-- of its frames.
use tasc.Base.{ℕ, suc, ◌+◌, ◌≤◌, ◌≡◌, Bool, true, false, List, [], ◌∷◌, nat_eq, includes, length}
use tasc.JsonInput.{JsonInputOptions, skip_whitespace, plain}
use tasc.JsonInput.Tokens.{Chars, Scalar}
use tasc.JsonInput.Machine.{
  ObjectState, key_or_end, colon, value, comma_or_end, ArrayState, value_or_end, item_comma_or_end,
}
use tasc.Text.{Text, text_eq}

-- What is read: a value, the rest of an object in a state with the keys that it has, or the rest of an
-- array in a state with the number of its items; and the number of containers that are open.
pub data Phase : Type 0 where
  one_value : ℕ → Phase
  members : ObjectState → List Text → ℕ → Phase
  elements : ArrayState → ℕ → ℕ → Phase

module _ (o : JsonInputOptions) where
  -- `Reads p t u`: the text `t` begins with what is read in the phase `p`, and `u` is left. Keys are
  -- distinct, arrays and depth are within the limits.
  pub data Reads : Phase → Text → Text → Type 0 where
    scalar :
        {n : ℕ} {t u : Text} → Scalar o.limits.decoded_string_length t u → Reads (one_value n) t u
    object :
        {c n : ℕ} {t u : Text}
        → c ≡ b'{'
        → suc n ≤ o.limits.depth
        → Reads (members (key_or_end true) [] (suc n)) t u
        → Reads (one_value n) (c ∷ t) u
    array :
        {c n : ℕ} {t u : Text}
        → c ≡ b'['
        → suc n ≤ o.limits.depth
        → Reads (elements (value_or_end true) 0 (suc n)) t u
        → Reads (one_value n) (c ∷ t) u
    no_member :
        {n : ℕ} {keys : List Text} {t u : Text}
        → skip_whitespace t ≡ b'}' ∷ u
        → Reads (members (key_or_end true) keys n) t u
    key :
        {n : ℕ} {b : Bool} {keys : List Text} {t u v : Text} {k : Text}
        → skip_whitespace t ≡ b'"' ∷ u
        → Chars plain u k v
        → length k ≤ o.limits.decoded_string_length
        → includes keys k ≡ false
        → {w : Text} → Reads (members colon (k ∷ keys) n) v w
        → Reads (members (key_or_end b) keys n) t w
    after_key :
        {n : ℕ} {keys : List Text} {t u v : Text}
        → skip_whitespace t ≡ b':' ∷ u
        → Reads (members value keys n) u v
        → Reads (members colon keys n) t v
    member :
        {n : ℕ} {keys : List Text} {t u v : Text}
        → Reads (one_value n) (skip_whitespace t) u
        → Reads (members comma_or_end keys n) u v
        → Reads (members value keys n) t v
    next_member :
        {n : ℕ} {keys : List Text} {t u v : Text}
        → skip_whitespace t ≡ b',' ∷ u
        → Reads (members (key_or_end false) keys n) u v
        → Reads (members comma_or_end keys n) t v
    last_member :
        {n : ℕ} {keys : List Text} {t u : Text}
        → skip_whitespace t ≡ b'}' ∷ u
        → Reads (members comma_or_end keys n) t u
    no_element :
        {n m : ℕ} {t u : Text}
        → skip_whitespace t ≡ b']' ∷ u
        → Reads (elements (value_or_end true) m n) t u
    element :
        {n m : ℕ} {b : Bool} {t u v : Text}
        → m + 1 ≤ o.limits.array_items
        → Reads (one_value n) (skip_whitespace t) u
        → Reads (elements item_comma_or_end (m + 1) n) u v
        → Reads (elements (value_or_end b) m n) t v
    next_element :
        {n m : ℕ} {t u v : Text}
        → skip_whitespace t ≡ b',' ∷ u
        → Reads (elements (value_or_end false) m n) u v
        → Reads (elements item_comma_or_end m n) t v
    last_element :
        {n m : ℕ} {t u : Text}
        → skip_whitespace t ≡ b']' ∷ u
        → Reads (elements item_comma_or_end m n) t u

  -- One value, with whitespace around it.
  unfoldable pub IsJson : Text → Type 0
  IsJson source =
      (u : Text) × Reads (one_value 0) (skip_whitespace source) u × (skip_whitespace u ≡ [])
