-- ===== src/Network/Blocks.antt =====
-- The reserved octets as blocks of 32-bit addresses.
use tasc.Base.{
  ℕ, ◌+◌, ◌*◌, ◌≤◌, ◌≡◌, refl, Bool, true, false, not, ◌&&◌, ◌||◌, List, [], ◌∷◌, arith, leb, ◌==◌,
  nat_eq, holds, ℕ_discrete, any,
}
use tasc.Network.{is_reserved}

-- The address with these octets, as one number.
abbrev pub address : ℕ → ℕ → ℕ → ℕ → ℕ
address a b c d = a * 16777216 + b * 65536 + c * 256 + d

-- A block: the first address, and how many addresses it has.
abbrev pub in_block : ℕ → ℕ × ℕ → Bool
in_block n (first, size) = leb first n && not (leb (first + size) n)

-- The blocks in the notation of their registry.
abbrev pub reserved_blocks : List (ℕ × ℕ)
reserved_blocks =
    -- 0.0.0.0/8, 10.0.0.0/8, 127.0.0.0/8, 224.0.0.0/3
    (0, 16777216)
    ∷ (167772160, 16777216)
    ∷ (2130706432, 16777216)
    ∷ (3758096384, 536870912)
    -- 100.64.0.0/10, 169.254.0.0/16, 172.16.0.0/12
    ∷ (1681915904, 4194304)
    ∷ (2851995648, 65536)
    ∷ (2886729728, 1048576)
    -- 192.0.0.0/24, 192.0.2.0/24, 192.88.99.0/24, 192.168.0.0/16
    ∷ (3221225472, 256)
    ∷ (3221225984, 256)
    ∷ (3227017984, 256)
    ∷ (3232235520, 65536)
    -- 198.18.0.0/15, 198.51.100.0/24, 203.0.113.0/24
    ∷ (3323068416, 131072)
    ∷ (3325256704, 256)
    ∷ (3405803776, 256)
    ∷ []

-- A /8, a /16 and a /24 block.
block8 :
    (a b c d x : ℕ)
    → b ≤ 255
    → c ≤ 255
    → d ≤ 255
    → in_block (address a b c d) (x * 16777216, 16777216) ≡ (a == x)
block8 a b c d x hb hc hd = ground (arith, holds (ℕ_discrete a x))

block16 :
    (a b c d x y : ℕ)
    → b ≤ 255
    → c ≤ 255
    → d ≤ 255
    → y ≤ 255
    → in_block (address a b c d) (x * 16777216 + y * 65536, 65536) ≡ (a == x && b == y)
block16 a b c d x y hb hc hd hy = ground (arith, holds (ℕ_discrete a x), holds (ℕ_discrete b y))

block24 :
    (a b c d x y z : ℕ)
    → b ≤ 255
    → c ≤ 255
    → d ≤ 255
    → y ≤ 255
    → z ≤ 255
    → in_block (address a b c d) (x * 16777216 + y * 65536 + z * 256, 256)
      ≡ (a == x && b == y && c == z)
block24 a b c d x y z hb hc hd hy hz =
    ground (arith, holds (ℕ_discrete a x), holds (ℕ_discrete b y), holds (ℕ_discrete c z))

block10 :
    (a b c d x : ℕ)
    → b ≤ 255
    → c ≤ 255
    → d ≤ 255
    → in_block (address a b c d) (x * 16777216 + 4194304, 4194304)
      ≡ (a == x && leb 64 b && leb b 127)
block10 a b c d x hb hc hd = ground (arith, holds (ℕ_discrete a x))

block12 :
    (a b c d x : ℕ)
    → b ≤ 255
    → c ≤ 255
    → d ≤ 255
    → in_block (address a b c d) (x * 16777216 + 1048576, 1048576)
      ≡ (a == x && leb 16 b && leb b 31)
block12 a b c d x hb hc hd = ground (arith, holds (ℕ_discrete a x))

block15 :
    (a b c d x : ℕ)
    → b ≤ 255
    → c ≤ 255
    → d ≤ 255
    → in_block (address a b c d) (x * 16777216 + 1179648, 131072) ≡ (a == x && (b == 18 || b == 19))
block15 a b c d x hb hc hd =
    ground (arith, holds (ℕ_discrete a x), holds (ℕ_discrete b 18), holds (ℕ_discrete b 19))

block3 :
    (a b c d : ℕ)
    → a ≤ 255
    → b ≤ 255
    → c ≤ 255
    → d ≤ 255
    → in_block (address a b c d) (3758096384, 536870912) ≡ leb 224 a
block3 a b c d ha hb hc hd = ground arith

or_false : (p : Bool) → (p || false) ≡ p
or_false true = refl
or_false false = refl

-- The octets that are refused are those of the addresses in the fourteen reserved blocks.
pub is_reserved-blocks :
    (a b c d : ℕ)
    → a ≤ 255
    → b ≤ 255
    → c ≤ 255
    → d ≤ 255
    → is_reserved a b c ≡ any (in_block (address a b c d)) reserved_blocks
unfolding is_reserved
is_reserved-blocks a b c d ha hb hc hd =
    rw
      (
        block8 a b c d 0 hb hc hd,
        block8 a b c d 10 hb hc hd,
        block8 a b c d 127 hb hc hd,
        block3 a b c d ha hb hc hd,
        block10 a b c d 100 hb hc hd,
        block16 a b c d 169 254 hb hc hd (omega arith),
        block12 a b c d 172 hb hc hd,
        block24 a b c d 192 0 0 hb hc hd (omega arith) (omega arith),
        block24 a b c d 192 0 2 hb hc hd (omega arith) (omega arith),
        block24 a b c d 192 88 99 hb hc hd (omega arith) (omega arith),
        block16 a b c d 192 168 hb hc hd (omega arith),
        block15 a b c d 198 hb hc hd,
        block24 a b c d 198 51 100 hb hc hd (omega arith) (omega arith),
        block24 a b c d 203 0 113 hb hc hd (omega arith) (omega arith),
        or_false (a == 203 && b == 0 && c == 113),
      )
      refl
