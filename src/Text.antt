-- ===== src/Text.antt =====
-- src/determinism.ts, the order of strings, and the string formats of src/evidence.ts. A string is
-- the list of its UTF-16 code units.
pub mod Order
pub mod Sort
use Prim.Native.Char.{Char, code}
use Prim.Native.String.{String}
use Prim.Native.String
use tasc.Base.{
  ℕ, ◌-◌, ◌≡◌, Bool, true, false, ◌&&◌, ◌||◌, List, [], ◌∷◌, leb, ◌==◌, Eq, nat_eq, ℕ_discrete,
  if◌then◌else◌, length, all, last?, Option, none, some,
}
use tasc.Base.Int.{ℤ, sub_ℕ, pos, is_nonzero}

abbrev pub Text : Type 0
Text = List ℕ

unfoldable pub Text-discrete : Discrete Text
Text-discrete = hlevel ℕ_discrete

instance abbrev pub text_eq : Eq Text
text_eq = record { eq_dec = Text-discrete }

-- The code units of an ASCII literal.
abbrev pub codes : String → Text
codes String.[] = []
codes (String.◌∷◌ c s) = code c ∷ codes s

-- `compareCodeUnits`: the loop stops at the first differing unit. Past the shared length the
-- difference of the two lengths is that of what is left of them.
unfoldable pub compare_code_units : Text → Text → ℤ
compare_code_units [] right = sub_ℕ 0 (length right)
compare_code_units (l ∷ left) [] = sub_ℕ (length (l ∷ left)) 0
compare_code_units (l ∷ left) (r ∷ right) =
    let difference = sub_ℕ l r in
    let rest = compare_code_units left right in if is_nonzero difference then difference else rest

abbrev is_lower_or_digit : ℕ → Bool
is_lower_or_digit c = (leb b'a' c && leb c b'z') || (leb b'0' c && leb c b'9')

abbrev is_slug_unit : ℕ → Bool
is_slug_unit c = is_lower_or_digit c || c == b'.' || c == b'_' || c == b'-'

abbrev is_hex : ℕ → Bool
is_hex c = (leb b'a' c && leb c b'f') || (leb b'0' c && leb c b'9')

abbrev holds_of : (ℕ → Bool) → Option ℕ → Bool
holds_of p none = false
holds_of p (some c) = p c

abbrev first? : Text → Option ℕ
first? [] = none
first? (c ∷ t) = some c

-- `contractSlugSchema`: both ends are letters or digits, and `.`, `_`, `-` may stand between.
unfoldable pub is_slug : Text → Bool
is_slug t =
    leb 1 (length t)
    && leb (length t) 128
    && all is_slug_unit t
    && holds_of is_lower_or_digit (first? t)
    && holds_of is_lower_or_digit (last? t)

-- `contractDigestSchema`: "sha256:" and 64 hexadecimal digits.
abbrev is_digest_body : Text → Text → Bool
is_digest_body [] t = length t == 64 && all is_hex t
is_digest_body (p ∷ prefix) [] = false
is_digest_body (p ∷ prefix) (c ∷ t) = c == p && is_digest_body prefix t

unfoldable pub is_digest : Text → Bool
is_digest t = length t == 71 && is_digest_body (codes "sha256:") t
