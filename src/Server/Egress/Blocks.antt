-- ===== src/Server/Egress/Blocks.antt =====
-- The IPv4 policy as a table of address blocks.
use Prim.Native.Nat.{bit_and}
use newppp.Prelude.{
  ℕ, ◌+◌, ◌-◌, ◌*◌, ◌/◌, ◌^◌, ◌<◌, ◌≡◌, refl, sym, all_below, all_below_sound, ==→eq, Bool-cases,
  inl, inr, Bool, true, false, not, leb, ◌==◌, ◌&&◌, if◌then◌else◌, List, [], ◌∷◌, arith,
}
use newppp.Server.Egress.{Ipv4Addr, is_public_v4}

-- An address as a number, and a block as its first address and the length of its prefix.
abbrev pub number : Ipv4Addr → ℕ
number o = ((o.a * 256 + o.b) * 256 + o.c) * 256 + o.d

abbrev quad : ℕ → ℕ → ℕ → ℕ → ℕ
quad a b c d = number (record { a = a; b = b; c = c; d = d })

abbrev pub within : ℕ → ℕ × ℕ → Bool
within n (base, len) = n / 2 ^ (32 - len) == base / 2 ^ (32 - len)

abbrev pub any_within : ℕ → List (ℕ × ℕ) → Bool
any_within n [] = false
any_within n (blk ∷ blks) = if within n blk then true else any_within n blks

-- The special-purpose blocks that the policy refuses.
abbrev pub refused_blocks : List (ℕ × ℕ)
refused_blocks =
    (quad 0 0 0 0, 8)
    ∷ (quad 10 0 0 0, 8)
    ∷ (quad 100 64 0 0, 10)
    ∷ (quad 127 0 0 0, 8)
    ∷ (quad 169 254 0 0, 16)
    ∷ (quad 172 16 0 0, 12)
    ∷ (quad 192 0 0 0, 24)
    ∷ (quad 192 0 2 0, 24)
    ∷ (quad 192 168 0 0, 16)
    ∷ (quad 198 18 0 0, 15)
    ∷ (quad 198 51 100 0, 24)
    ∷ (quad 203 0 113 0, 24)
    ∷ (quad 224 0 0 0, 4)
    ∷ (quad 240 0 0 0, 4)
    ∷ []

abbrev pub IsIpv4 : Ipv4Addr → Type 0
IsIpv4 o = (o.a < 256) × (o.b < 256) × (o.c < 256) × (o.d < 256)

nibble_table : all_below 256 (λ x. bit_and x 0xf0 == x / 16 * 16) ≡ true
unfolding all_below
nibble_table = refl

high_nibble : (x : ℕ) → x < 256 → bit_and x 0xf0 ≡ x / 16 * 16
high_nibble x h =
    ==→eq _ _ (all_below_sound 256 (λ y. bit_and y 0xf0 == y / 16 * 16) x nibble_table h)

-- The blocks in terms of the octets.
abbrev octet_tests : Ipv4Addr → List Bool
octet_tests o =
    (o.a == 0)
    ∷ (o.a == 10)
    ∷ (o.a == 100 && (leb 64 o.b && leb o.b 127))
    ∷ (o.a == 127)
    ∷ (o.a == 169 && o.b == 254)
    ∷ (o.a == 172 && (leb 16 o.b && leb o.b 31))
    ∷ (o.a == 192 && (o.b == 0 && o.c == 0))
    ∷ (o.a == 192 && (o.b == 0 && o.c == 2))
    ∷ (o.a == 192 && o.b == 168)
    ∷ (o.a == 198 && (leb 18 o.b && leb o.b 19))
    ∷ (o.a == 198 && (o.b == 51 && o.c == 100))
    ∷ (o.a == 203 && (o.b == 0 && o.c == 113))
    ∷ (leb 224 o.a && leb o.a 239)
    ∷ leb 240 o.a
    ∷ []

abbrev any : List Bool → Bool
any [] = false
any (b ∷ bs) = if b then true else any bs

abbrev Agree : ℕ → List (ℕ × ℕ) → List Bool → Type 0
Agree n [] [] = Unit {0}
Agree n (blk ∷ blks) (b ∷ bs) = (within n blk ≡ b) × Agree n blks bs
Agree n _ _ = ⊥

any-Agree :
    (n : ℕ) (blks : List (ℕ × ℕ)) (bs : List Bool) → Agree n blks bs → any_within n blks ≡ any bs
any-Agree n [] [] h = refl
any-Agree n [] (b ∷ bs) h = absurd h
any-Agree n (blk ∷ blks) [] h = absurd h
any-Agree n (blk ∷ blks) (b ∷ bs) h = ground (arith, any-Agree n blks bs h.1)

module _ (o : Ipv4Addr) (h : IsIpv4 o) where
  prefix8 : (k : ℕ) → within (number o) (quad k 0 0 0, 8) ≡ (o.a == k)
  prefix8 k =
      let top : number o / 2 ^ 24 ≡ o.a = omega arith in
      let base : quad k 0 0 0 / 2 ^ 24 ≡ k = omega arith in rw (top, base)

  prefix16 : (k j : ℕ) → j < 256 → within (number o) (quad k j 0 0, 16) ≡ (o.a == k && o.b == j)
  prefix16 k j hj =
      let top : number o / 2 ^ 16 ≡ o.a * 256 + o.b = omega arith in
      let base : quad k j 0 0 / 2 ^ 16 ≡ k * 256 + j = omega arith in rw (top, base) (ground arith)

  prefix24 :
      (k j i : ℕ)
      → j < 256
      → i < 256
      → within (number o) (quad k j i 0, 24) ≡ (o.a == k && (o.b == j && o.c == i))
  prefix24 k j i hj hi =
      let top : number o / 2 ^ 8 ≡ o.a * 65536 + o.b * 256 + o.c = omega arith in
      let base : quad k j i 0 / 2 ^ 8 ≡ k * 65536 + j * 256 + i = omega arith in
      rw (top, base) (ground arith)

  shared : within (number o) (quad 100 64 0 0, 10) ≡ (o.a == 100 && (leb 64 o.b && leb o.b 127))
  shared = let top : number o / 2 ^ 22 ≡ o.a * 4 + o.b / 64 = omega arith in rw top (ground arith)

  private12 : within (number o) (quad 172 16 0 0, 12) ≡ (o.a == 172 && (leb 16 o.b && leb o.b 31))
  private12 =
      let top : number o / 2 ^ 20 ≡ o.a * 16 + o.b / 16 = omega arith in rw top (ground arith)

  benchmark : within (number o) (quad 198 18 0 0, 15) ≡ (o.a == 198 && (leb 18 o.b && leb o.b 19))
  benchmark =
      let top : number o / 2 ^ 17 ≡ o.a * 128 + o.b / 2 = omega arith in rw top (ground arith)

  multicast : within (number o) (quad 224 0 0 0, 4) ≡ (leb 224 o.a && leb o.a 239)
  multicast = let top : number o / 2 ^ 28 ≡ o.a / 16 = omega arith in rw top (ground arith)

  reserved : within (number o) (quad 240 0 0 0, 4) ≡ leb 240 o.a
  reserved = let top : number o / 2 ^ 28 ≡ o.a / 16 = omega arith in rw top (ground arith)

  blocks-octets : any_within (number o) refused_blocks ≡ any (octet_tests o)
  blocks-octets = any-Agree (number o) refused_blocks (octet_tests o) (
    prefix8 0,
    (
      prefix8 10,
      (
        shared,
        (
          prefix8 127,
          (
            prefix16 169 254 (omega arith),
            (
              private12,
              (
                prefix24 192 0 0 (omega arith) (omega arith),
                (
                  prefix24 192 0 2 (omega arith) (omega arith),
                  (
                    prefix16 192 168 (omega arith),
                    (
                      benchmark,
                      (
                        prefix24 198 51 100 (omega arith) (omega arith),
                        (
                          prefix24 203 0 113 (omega arith) (omega arith),
                          (multicast, (reserved, tt)),
                        ),
                      ),
                    ),
                  ),
                ),
              ),
            ),
          ),
        ),
      ),
    ),
  )

-- The policy's tests and the blocks, where the first octet is the head of some block.
abbrev Same : ℕ → ℕ → ℕ → ℕ → Type 0
Same a b c d =
    let o : Ipv4Addr = record { a = a; b = b; c = c; d = d } in
    is_public_v4 o ≡ not (any (octet_tests o))

module _ (b c d : ℕ) where
  Same-0 : Same 0 b c d
  unfolding is_public_v4
  Same-0 = ground arith

  Same-10 : Same 10 b c d
  unfolding is_public_v4
  Same-10 = ground arith

  Same-100 : Same 100 b c d
  unfolding is_public_v4
  Same-100 = ground arith

  Same-127 : Same 127 b c d
  unfolding is_public_v4
  Same-127 = ground arith

  Same-169 : Same 169 b c d
  unfolding is_public_v4
  Same-169 = ground arith

  Same-172 : Same 172 b c d
  unfolding is_public_v4
  Same-172 = ground arith

  Same-192 : Same 192 b c d
  unfolding is_public_v4
  Same-192 = ground arith

  Same-198 : Same 198 b c d
  unfolding is_public_v4
  Same-198 = ground arith

  Same-203 : Same 203 b c d
  unfolding is_public_v4
  Same-203 = ground arith

-- No block of a prefix of 8 bits or more begins with this octet.
record IsOther (a : ℕ) : Type 0 where
  n0 : (a == 0) ≡ false
  n10 : (a == 10) ≡ false
  n100 : (a == 100) ≡ false
  n127 : (a == 127) ≡ false
  n169 : (a == 169) ≡ false
  n172 : (a == 172) ≡ false
  n192 : (a == 192) ≡ false
  n198 : (a == 198) ≡ false
  n203 : (a == 203) ≡ false

Same-other : (a b c d : ℕ) → a < 256 → IsOther a → Same a b c d
unfolding is_public_v4
Same-other a b c d h n =
    rw (n.n0, n.n10, n.n100, n.n127, n.n169, n.n172, n.n192, n.n198, n.n203)
      (ground (arith, high_nibble a h))

-- On a test that hits, the number is known.
by_hit : (a k : ℕ) (P : ℕ → Type 0) → P k → ((a == k) ≡ false → P a) → P a
by_hit a k P hit miss = elim (Bool-cases (a == k)) [
  | inl e ↦ let same : k ≡ a = sym (==→eq a k e) in rw same at hit
  | inr e ↦ miss e
]

octets-public : (a b c d : ℕ) → a < 256 → Same a b c d
octets-public a b c d h =
    let P = λ (x : ℕ). Same x b c d in
    by_hit a 0 P (Same-0 b c d) λ n0. by_hit a 10 P (Same-10 b c d) λ n10.
      by_hit a 100 P (Same-100 b c d) λ n100. by_hit a 127 P (Same-127 b c d) λ n127.
        by_hit a 169 P (Same-169 b c d) λ n169. by_hit a 172 P (Same-172 b c d) λ n172.
          by_hit a 192 P (Same-192 b c d) λ n192. by_hit a 198 P (Same-198 b c d) λ n198.
            by_hit a 203 P (Same-203 b c d) λ n203. Same-other a b c d h (record {
              n0 = n0;
              n10 = n10;
              n100 = n100;
              n127 = n127;
              n169 = n169;
              n172 = n172;
              n192 = n192;
              n198 = n198;
              n203 = n203;
            })

-- An IPv4 address is a public target exactly if it lies in none of the refused blocks.
pub is_public_v4-blocks :
    (o : Ipv4Addr) → IsIpv4 o → is_public_v4 o ≡ not (any_within (number o) refused_blocks)
is_public_v4-blocks o h = rw (blocks-octets o h) (octets-public o.a o.b o.c o.d h.0)
