-- ===== src/Network.antt =====
-- src/runtime/network-policy.ts: which IPv4 addresses the collector may connect to.
pub mod Blocks
pub mod Canonical
use tasc.Base.{
  ℕ, ◌+◌, ◌-◌, ◌*◌, Bool, true, false, not, ◌&&◌, ◌||◌, List, [], ◌∷◌, Option, none, some, leb,
  ◌==◌, nat_eq, length, all, if◌then◌else◌,
}
use tasc.Text.{Text}

-- `split` at one code unit.
abbrev pub push : ℕ → List Text → List Text
push c [] = (c ∷ []) ∷ []
push c (p ∷ ps) = (c ∷ p) ∷ ps

unfoldable pub split : ℕ → Text → List Text
split k [] = [] ∷ []
split k (c ∷ t) = let rest = split k t in if c == k then [] ∷ rest else push c rest

abbrev pub is_digit : ℕ → Bool
is_digit c = leb b'0' c && leb c b'9'

-- The test of `/^(?:0|[1-9][0-9]{0,2})$/`.
abbrev pub is_octet_text : Text → Bool
is_octet_text [] = false
is_octet_text (c ∷ ds) =
    (c == b'0' && length ds == 0)
    || ((leb b'1' c && leb c b'9') && (all is_digit ds && leb (length ds) 2))

-- `Number(part)` of decimal digits.
abbrev pub number : ℕ → Text → ℕ
number acc [] = acc
number acc (c ∷ t) = number (acc * 10 + (c - b'0')) t

-- One octet; `none` is the source's -1.
unfoldable pub octet : Text → Option ℕ
octet part = if is_octet_text part && leb (number 0 part) 255 then some (number 0 part) else none

pub record Octets : Type 0 where
  pub a : ℕ
  pub b : ℕ
  pub c : ℕ
  pub d : ℕ

abbrev pub octets_of : Option ℕ → Option ℕ → Option ℕ → Option ℕ → Option Octets
octets_of (some a) (some b) (some c) (some d) = some (record { a = a; b = b; c = c; d = d })
octets_of _ _ _ _ = none

abbrev pub of_parts : List Text → Option Octets
of_parts (p ∷ q ∷ r ∷ s ∷ []) = octets_of (octet p) (octet q) (octet r) (octet s)
of_parts _ = none

-- `parseCanonicalIpv4`.
unfoldable pub parse_canonical_ipv4 : Text → Option Octets
unfolding split octet
parse_canonical_ipv4 address = of_parts (split b'.' address)

-- The condition under which `isPublicIpv4` returns false for octets.
unfoldable pub is_reserved : ℕ → ℕ → ℕ → Bool
is_reserved a b c =
    a == 0
    || (a == 10
        || (a == 127
            || (leb 224 a
                || ((a == 100 && leb 64 b && leb b 127)
                    || ((a == 169 && b == 254)
                        || ((a == 172 && leb 16 b && leb b 31)
                            || ((a == 192 && b == 0 && c == 0)
                                || ((a == 192 && b == 0 && c == 2)
                                    || ((a == 192 && b == 88 && c == 99)
                                        || ((a == 192 && b == 168)
                                            || ((a == 198 && (b == 18 || b == 19))
                                                || ((a == 198 && b == 51 && c == 100)
                                                    || (a == 203 && b == 0 && c == 113)))))))))))))

abbrev pub public_octets : Option Octets → Bool
public_octets none = false
public_octets (some o) = not (is_reserved o.a o.b o.c)

-- `isPublicIpv4`.
unfoldable pub is_public_ipv4 : Text → Bool
unfolding parse_canonical_ipv4 is_reserved
is_public_ipv4 address = public_octets (parse_canonical_ipv4 address)
