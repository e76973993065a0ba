-- ===== src/Examples/Network.antt =====
-- The theorems on addresses, at one public and one reserved address.
use tasc.Base.{◌≡◌, refl, ◌↔◌, true, false, some, any, ℕ_discrete}
use tasc.Text.{Text, codes}
use tasc.Network.{Octets, parse_canonical_ipv4, is_public_ipv4}
use tasc.Network.Blocks.{address, in_block, reserved_blocks}
use tasc.Network.Canonical.{dotted, AreOctets, parse_canonical_ipv4_iff, is_public_ipv4-blocks}

abbrev public : Text
public = codes "93.184.216.34"

abbrev public_octets : Octets
public_octets = record { a = 93; b = 184; c = 216; d = 34 }

public_is_public : is_public_ipv4 public ≡ true
unfolding is_public_ipv4 ℕ_discrete
public_is_public = refl

metadata_is_not : is_public_ipv4 (codes "169.254.169.254") ≡ false
unfolding is_public_ipv4 ℕ_discrete
metadata_is_not = refl

padded_is_not : is_public_ipv4 (codes "93.184.216.034") ≡ false
unfolding is_public_ipv4 ℕ_discrete
padded_is_not = refl

parse_canonical_ipv4_iff_example :
    (parse_canonical_ipv4 public ≡ some public_octets)
    ↔ ((public ≡ dotted public_octets) × AreOctets public_octets)
parse_canonical_ipv4_iff_example = parse_canonical_ipv4_iff public public_octets

is_public_ipv4-blocks_example : (is_public_ipv4 public ≡ true) ↔ (
    (o : Octets) × (parse_canonical_ipv4 public ≡ some o)
    × (any (in_block (address o.a o.b o.c o.d)) reserved_blocks ≡ false))
is_public_ipv4-blocks_example = is_public_ipv4-blocks public
