-- ===== src/JsonInput/Tokens.antt =====
-- The strings, numbers and words of JSON as a grammar, apart from the scanner of src/bounded-input.ts.
pub mod Strings
pub mod Numbers
use tasc.Base.{
  ℕ, zero, suc, ◌+◌, ◌*◌, ◌≤◌, ◌≡◌, ◌≢◌, ◌⊎◌, true, false, List, [], ◌∷◌, ◌++◌, some, length,
}
use tasc.JsonInput.{StringMode, plain, escaped, hex, hex_value, simple_escape}
use tasc.Network.{is_digit}
use tasc.Text.{Text, codes}

-- `Chars m t d u`: from the place `m` in a string on, the text `t` spells the units `d` and the closing
-- quote, and `u` is left.
pub data Chars : StringMode → Text → Text → Text → Type 0 where
  close : {u : Text} → Chars plain (b'"' ∷ u) [] u
  unit :
      {c : ℕ} {t d u : Text}
      → 32 ≤ c
      → c ≢ b'"'
      → c ≢ b'\\'
      → Chars plain t d u
      → Chars plain (c ∷ t) (c ∷ d) u
  escape : {c : ℕ} {t d u : Text} → c ≡ b'\\' → Chars escaped t d u → Chars plain (c ∷ t) d u
  letter :
      {c k : ℕ} {t d u : Text}
      → simple_escape c ≡ some k
      → Chars plain t d u
      → Chars escaped (c ∷ t) (k ∷ d) u
  unicode : {c : ℕ} {t d u : Text} → c ≡ b'u' → Chars (hex 3 0) t d u → Chars escaped (c ∷ t) d u
  digit :
      {n v c k : ℕ} {t d u : Text}
      → hex_value c ≡ some k
      → Chars (hex n (v * 16 + k)) t d u
      → Chars (hex (suc n) v) (c ∷ t) d u
  last_digit :
      {v c k : ℕ} {t d u : Text}
      → hex_value c ≡ some k
      → Chars plain t d u
      → Chars (hex zero v) (c ∷ t) ((v * 16 + k) ∷ d) u

-- One digit at least.
pub data Digits : Text → Text → Type 0 where
  one : {c : ℕ} {t : Text} → is_digit c ≡ true → Digits (c ∷ t) t
  and_more : {c : ℕ} {t u : Text} → is_digit c ≡ true → Digits t u → Digits (c ∷ t) u

-- The parts of a number, each from a text to what is left of it.
abbrev pub Signed : (ℕ → Type 0) → Text → Text → Type 0
Signed IsSign t u = (t ≡ u) ⊎ ((c : ℕ) × IsSign c × (t ≡ c ∷ u))

abbrev pub Whole : Text → Text → Type 0
Whole t u = (t ≡ b'0' ∷ u) ⊎ (((v : Text) → t ≢ b'0' ∷ v) × Digits t u)

abbrev pub Fraction : Text → Text → Type 0
Fraction t u = (t ≡ u) ⊎ ((v : Text) × (t ≡ b'.' ∷ v) × Digits v u)

abbrev pub IsMinus : ℕ → Type 0
IsMinus c = c ≡ b'-'

abbrev pub IsSign : ℕ → Type 0
IsSign c = (c ≡ b'+') ⊎ (c ≡ b'-')

abbrev pub Exponent : Text → Text → Type 0
Exponent t u =
    (t ≡ u)
    ⊎ ((c : ℕ) × (v : Text) × (w : Text) × (t ≡ c ∷ v)
        × ((c ≡ b'e') ⊎ (c ≡ b'E'))
        × Signed IsSign v w
        × Digits w u)

pub record IsNumber (t u : Text) : Type 0 where
  pub after_sign : Text
  pub after_whole : Text
  pub after_fraction : Text
  pub sign : Signed IsMinus t after_sign
  pub whole : Whole after_sign after_whole
  pub fraction : Fraction after_whole after_fraction
  pub exponent : Exponent after_fraction u

abbrev pub IsWord : Text → Text → Type 0
IsWord t u = (t ≡ codes "true" ++ u) ⊎ (t ≡ codes "false" ++ u) ⊎ (t ≡ codes "null" ++ u)

-- A string of at most so many units, a number or a word.
pub data Scalar : ℕ → Text → Text → Type 0 where
  text : {most : ℕ} {t d u : Text} → Chars plain t d u → length d ≤ most → Scalar most (b'"' ∷ t) u
  number : {most : ℕ} {t u : Text} → IsNumber t u → Scalar most t u
  word : {most : ℕ} {t u : Text} → IsWord t u → Scalar most t u
