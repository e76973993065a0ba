-- ===== src/Network/Canonical.antt =====
-- An accepted IPv4 address is the dotted decimal form of its octets.
use tasc.Base.{
  ℕ, ◌+◌, ◌/◌, ◌%◌, ◌≤◌, ◌≡◌, refl, sym, ap, ◌∙◌, inl, inr, ◌↔◌, true, false, not, List, [], ◌∷◌,
  ◌++◌, Option, none, some, arith, ltb, ◌==◌, nat_eq, holds, ℕ_discrete, any, if◌then◌else◌,
  Bool-cases,
}
use tasc.Text.{Text}
use tasc.Network.{
  push, split, octet, Octets, octets_of, of_parts, parse_canonical_ipv4, public_octets,
  is_public_ipv4,
}
use tasc.Network.Blocks.{address, in_block, reserved_blocks, is_reserved-blocks}

-- The decimal form of a number below 1000, without leading zeros.
abbrev pub decimal : ℕ → Text
decimal n =
    if ltb n 10
    then (b'0' + n) ∷ []
    else if ltb n 100
    then (b'0' + n / 10) ∷ (b'0' + n % 10) ∷ []
    else (b'0' + n / 100) ∷ (b'0' + n / 10 % 10) ∷ (b'0' + n % 10) ∷ []

abbrev pub dotted : Octets → Text
dotted o = decimal o.a ++ (b'.' ∷ (decimal o.b ++ (b'.' ∷ (decimal o.c ++ (b'.' ∷ decimal o.d)))))

octet-decimal : (t : Text) (n : ℕ) → octet t ≡ some n → (decimal n ≡ t) × (n ≤ 255)
unfolding octet
octet-decimal [] n h = ground (arith, h)
octet-decimal (c ∷ []) n h = (ground (arith, h), ground (arith, h))
octet-decimal (c ∷ d ∷ []) n h = (ground (arith, h), ground (arith, h))
octet-decimal (c ∷ d ∷ e ∷ []) n h = (ground (arith, h), ground (arith, h))
octet-decimal (c ∷ d ∷ e ∷ f ∷ t) n h = ground (arith, h)

abbrev join : List Text → Text
join [] = []
join (p ∷ []) = p
join (p ∷ q ∷ ps) = p ++ (b'.' ∷ join (q ∷ ps))

join-push : (c : ℕ) (ps : List Text) → join (push c ps) ≡ c ∷ join ps
join-push c [] = refl
join-push c (p ∷ []) = refl
join-push c (p ∷ q ∷ ps) = refl

-- A split text has a first part.
abbrev IsFilled : List Text → Type 0
IsFilled ps = (p : Text) × (qs : List Text) × (ps ≡ p ∷ qs)

push-IsFilled : (c : ℕ) (ps : List Text) → IsFilled (push c ps)
push-IsFilled c [] = (_, _, refl)
push-IsFilled c (p ∷ ps) = (_, _, refl)

split-IsFilled : (k : ℕ) (t : Text) → IsFilled (split k t)
unfolding split
split-IsFilled k [] = (_, _, refl)
split-IsFilled k (c ∷ t) = elim (ℕ_discrete c k) [
  | yes same ↦ ([], split k t, ground (arith, same))
  | no other ↦ let (p, qs, e) = push-IsFilled c (split k t) in (p, qs, ground (arith, other, e))
]

join-new : (ps : List Text) → IsFilled ps → join ([] ∷ ps) ≡ b'.' ∷ join ps
join-new [] (p, qs, e) = cc
join-new (p ∷ ps) filled = refl

join-split : (t : Text) → join (split b'.' t) ≡ t
unfolding split
join-split [] = refl
join-split (c ∷ t) = ground (
  arith,
  holds (ℕ_discrete c b'.'),
  join-push c (split b'.' t),
  join-new (split b'.' t) (split-IsFilled b'.' t),
  join-split t,
)

abbrev pub AreOctets : Octets → Type 0
AreOctets o = (o.a ≤ 255) × (o.b ≤ 255) × (o.c ≤ 255) × (o.d ≤ 255)

octets_of-parts :
    (p q r s : Text) (w x y z : Option ℕ) (o : Octets)
    → octet p ≡ w
    → octet q ≡ x
    → octet r ≡ y
    → octet s ≡ z
    → octets_of w x y z ≡ some o
    → (octet p ≡ some o.a) × (octet q ≡ some o.b) × (octet r ≡ some o.c) × (octet s ≡ some o.d)
octets_of-parts p q r s (some w) (some x) (some y) (some z) o hp hq hr hs h =
    (ground (arith, hp, h), ground (arith, hq, h), ground (arith, hr, h), ground (arith, hs, h))
octets_of-parts p q r s _ _ _ _ o hp hq hr hs h = cc

join_four :
    (p q r s w x y z : Text)
    → w ≡ p
    → x ≡ q
    → y ≡ r
    → z ≡ s
    → join (p ∷ q ∷ r ∷ s ∷ []) ≡ w ++ (b'.' ∷ (x ++ (b'.' ∷ (y ++ (b'.' ∷ z)))))
join_four p q r s w x y z hw hx hy hz = rw (hw, hx, hy, hz) refl

of_parts-dotted :
    (ps : List Text) (o : Octets) → of_parts ps ≡ some o → (join ps ≡ dotted o) × AreOctets o
of_parts-dotted (p ∷ q ∷ r ∷ s ∷ []) o h =
    let (hp, hq, hr, hs) = octets_of-parts p q r s _ _ _ _ o refl refl refl refl h in
    let (dp, lp) = octet-decimal p o.a hp in
    let (dq, lq) = octet-decimal q o.b hq in
    let (dr, lr) = octet-decimal r o.c hr in
    let (ds, ls) = octet-decimal s o.d hs in
    (
      join_four p q r s (decimal o.a) (decimal o.b) (decimal o.c) (decimal o.d) dp dq dr ds,
      (lp, lq, lr, ls),
    )
of_parts-dotted _ o h =
    (cc, (ground (arith, h), ground (arith, h), ground (arith, h), ground (arith, h)))

parse-dotted :
    (t : Text) (o : Octets) → parse_canonical_ipv4 t ≡ some o → (t ≡ dotted o) × AreOctets o
unfolding parse_canonical_ipv4
parse-dotted t o h =
    let (same, small) = of_parts-dotted (split b'.' t) o h in (sym (join-split t) ∙ same, small)

-- No dot inside a part.
abbrev IsPlain : Text → Type 0
IsPlain [] = Unit
IsPlain (c ∷ t) = ((c == b'.') ≡ false) × IsPlain t

split-plain : (t : Text) → IsPlain t → split b'.' t ≡ t ∷ []
unfolding split
split-plain [] plain = refl
split-plain (c ∷ t) (other, plain) = rw (other, split-plain t plain) refl

split-dot : (t rest : Text) → IsPlain t → split b'.' (t ++ b'.' ∷ rest) ≡ t ∷ split b'.' rest
unfolding split
split-dot [] rest plain = ground (arith, holds (ℕ_discrete b'.' b'.'))
split-dot (c ∷ t) rest (other, plain) = rw (other, split-dot t rest plain) refl

digit-plain : (n : ℕ) → n ≤ 9 → ((b'0' + n) == b'.') ≡ false
digit-plain n h = ground (arith, holds (ℕ_discrete (b'0' + n) b'.'))

decimal-IsPlain : (n : ℕ) → n ≤ 255 → IsPlain (decimal n)
decimal-IsPlain n h = elim (Bool-cases (ltb n 10)) [
  | inl few ↦ rw few (digit-plain n (ground (arith, few)), tt)
  | inr many ↦ elim (Bool-cases (ltb n 100)) [
    | inl two ↦
        rw (many, two)
          (digit-plain (n / 10) (ground (arith, two)), (digit-plain (n % 10) (omega arith), tt))
    | inr three ↦
        rw (many, three)
          (
            digit-plain (n / 100) (omega (arith, h)),
            (digit-plain (n / 10 % 10) (omega arith), (digit-plain (n % 10) (omega arith), tt)),
          )
  ]
]

octet_of_decimal : (n : ℕ) → n ≤ 255 → octet (decimal n) ≡ some n
unfolding octet
octet_of_decimal n h = elim (Bool-cases (ltb n 10)) [
  | inl few ↦ rw few (ground (arith, few))
  | inr many ↦ elim (Bool-cases (ltb n 100)) [
    | inl two ↦ rw (many, two) (ground (arith, many, two))
    | inr three ↦ rw (many, three) (ground (arith, three, h))
  ]
]

split-dotted :
    (o : Octets)
    → AreOctets o
    → split b'.' (dotted o) ≡ decimal o.a ∷ decimal o.b ∷ decimal o.c ∷ decimal o.d ∷ []
split-dotted o (a, b, c, d) =
    split-dot (decimal o.a) _ (decimal-IsPlain o.a a)
    ∙ ap (λ ps. decimal o.a ∷ ps)
        (split-dot (decimal o.b) _ (decimal-IsPlain o.b b)
          ∙ ap (λ ps. decimal o.b ∷ ps)
              (split-dot (decimal o.c) _ (decimal-IsPlain o.c c)
                ∙ ap (λ ps. decimal o.c ∷ ps) (split-plain (decimal o.d) (decimal-IsPlain o.d d))))

dotted-parse : (o : Octets) → AreOctets o → parse_canonical_ipv4 (dotted o) ≡ some o
unfolding parse_canonical_ipv4
dotted-parse o (a, b, c, d) =
    rw
      (
        parse_canonical_ipv4,
        split-dotted o (a, b, c, d),
        octet_of_decimal o.a a,
        octet_of_decimal o.b b,
        octet_of_decimal o.c c,
        octet_of_decimal o.d d,
      )
      refl

-- An address parses to four octets exactly when it is their dotted decimal form without leading zeros
-- and each of them is at most 255.
pub parse_canonical_ipv4_iff :
    (t : Text) (o : Octets) → (parse_canonical_ipv4 t ≡ some o) ↔ ((t ≡ dotted o) × AreOctets o)
parse_canonical_ipv4_iff t o =
    (parse-dotted t o, λ (same, small). ap parse_canonical_ipv4 same ∙ dotted-parse o small)

public_parsed :
    (t : Text) (parsed : Option Octets)
    → parse_canonical_ipv4 t ≡ parsed
    → public_octets parsed ≡ true
    → (o : Octets) × (parse_canonical_ipv4 t ≡ some o)
      × (any (in_block (address o.a o.b o.c o.d)) reserved_blocks ≡ false)
public_parsed t none h public = cc
public_parsed t (some o) h public =
    let (_, (a, b, c, d)) = parse-dotted t o h in
    (o, h, sym (is_reserved-blocks o.a o.b o.c o.d a b c d) ∙ ground (arith, public))

-- An address is public exactly when it parses to four octets and is in none of the fourteen reserved
-- blocks.
pub is_public_ipv4-blocks :
    (t : Text)
    → (is_public_ipv4 t ≡ true) ↔ (
        (o : Octets) × (parse_canonical_ipv4 t ≡ some o)
        × (any (in_block (address o.a o.b o.c o.d)) reserved_blocks ≡ false))
unfolding is_public_ipv4
is_public_ipv4-blocks t = (
  public_parsed t (parse_canonical_ipv4 t) refl,
  λ (o, parsed, free).
      let (_, (a, b, c, d)) = parse-dotted t o parsed in
      ap public_octets parsed ∙ ap not (is_reserved-blocks o.a o.b o.c o.d a b c d ∙ free),
)
