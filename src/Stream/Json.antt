-- ===== src/Stream/Json.antt =====
-- The JSON values that src/runtime/sse.ts and src/runtime/ndjson.ts inspect, and UTF-8 encoding.
use tasc.Base.{
  ℕ, ◌+◌, ◌-◌, ◌*◌, ◌/◌, ◌%◌, Bool, true, false, not, ◌&&◌, ◌||◌, List, [], ◌∷◌, ◌++◌, Option, none,
  some, ltb, leb, ◌==◌, is_empty, if◌then◌else◌,
}
use tasc.Text.{Text, codes, text_eq}
use tasc.Work.{Number, natural, max_safe_integer}

-- What `parseBoundedJson` returns. A number is a natural number or any other.
mutual
  pub data Json : Type 0 where
    null : Json
    boolean : Bool → Json
    number : Number → Json
    string : Text → Json
    array : Items → Json
    object : Members → Json

  pub data Items : Type 0 where
    no_items : Items
    item : Json → Items → Items

  pub data Members : Type 0 where
    no_members : Members
    member : Text → Json → Members → Members

-- `isRecord`.
abbrev pub is_record : Json → Bool
is_record (object ms) = true
is_record _ = false

-- `value[key]` on an object; `none` where it is `undefined`. Keys occur once.
unfoldable pub get_member : Text → Members → Option Json
get_member key no_members = none
get_member key (member k v ms) = let rest = get_member key ms in if k == key then some v else rest

-- `value[key]`, where anything but an object has no such member.
unfoldable pub own : Text → Json → Option Json
unfolding get_member
own key (object ms) = get_member key ms
own key _ = none

abbrev pub text_of : Option Json → Option Text
text_of (some (string t)) = some t
text_of _ = none

abbrev pub json_or_null : Option Json → Json
json_or_null none = null
json_or_null (some j) = j

-- `hasNonEmptyText`.
abbrev pub has_non_empty_text : Option Json → Bool
has_non_empty_text (some (string t)) = not (is_empty t)
has_non_empty_text _ = false

abbrev pub is_true : Option Json → Bool
is_true (some (boolean b)) = b
is_true _ = false

abbrev is_present : Option Json → Bool
is_present none = false
is_present (some null) = false
is_present (some _) = true

-- `hasUsage`. A member that is `null` or missing is not usage.
unfoldable pub has_usage : Json → Bool
unfolding own
has_usage json =
    is_present (own (codes "usage") json)
    || is_present (own (codes "usage") (json_or_null (own (codes "response") json)))

-- A non-negative safe integer.
abbrev pub is_count : Option Json → Bool
is_count (some (number (natural n))) = leb n max_safe_integer
is_count _ = false

-- The bytes of one code point.
abbrev point_bytes : ℕ → List ℕ
point_bytes p =
    if ltb p 0x80
    then p ∷ []
    else if ltb p 0x800
    then (0xc0 + p / 64) ∷ (0x80 + p % 64) ∷ []
    else if ltb p 0x1_0000
    then (0xe0 + p / 4096) ∷ (0x80 + p / 64 % 64) ∷ (0x80 + p % 64) ∷ []
    else (0xf0 + p / 262144) ∷ (0x80 + p / 4096 % 64) ∷ (0x80 + p / 64 % 64) ∷ (0x80 + p % 64) ∷ []

abbrev is_high : ℕ → Bool
is_high u = leb 0xd800 u && leb u 0xdbff

abbrev is_low : ℕ → Bool
is_low u = leb 0xdc00 u && leb u 0xdfff

-- `new TextEncoder().encode(text)`: an unpaired surrogate becomes U+FFFD. `before` is a high
-- surrogate that waits for its other half.
unfoldable pub encode_from : Option ℕ → Text → List ℕ
encode_from none [] = []
encode_from (some high) [] = point_bytes 0xfffd
encode_from none (u ∷ t) =
    let waiting = encode_from (some u) t in
    let rest = encode_from none t in
    if is_high u
    then waiting
    else if is_low u
    then point_bytes 0xfffd ++ rest
    else point_bytes u ++ rest
encode_from (some high) (u ∷ t) =
    let waiting = encode_from (some u) t in
    let rest = encode_from none t in
    if is_low u
    then point_bytes (0x1_0000 + (high - 0xd800) * 1024 + (u - 0xdc00)) ++ rest
    else if is_high u
    then point_bytes 0xfffd ++ waiting
    else point_bytes 0xfffd ++ (point_bytes u ++ rest)

unfoldable pub encode_utf8 : Text → List ℕ
unfolding encode_from
encode_utf8 t = encode_from none t
