-- ===== src/PublicIp/Address/Blocks6.antt =====
-- `is_public_ipv6` against a table of prefixes. The masks become divisions by a checked table.
use Prim.Native.Nat.{bit_and}
use cirrusync.Prelude.{
  ℕ, ◌+◌, ◌*◌, ◌/◌, ◌<◌, ◌≡◌, refl, Bool, true, false, ◌&&◌, not, List, [], ◌∷◌, arith, ◌==◌,
  ==_iff, if◌then◌else◌, any, all_below, all_below_sound,
}
use cirrusync.PublicIp.{Ipv6Addr}
use cirrusync.PublicIp.Address.{is_public_ipv6, reserved_ipv6}
use cirrusync.PublicIp.Address.Blocks.{Block, covers}

high_three : all_below 65536 (λ x. bit_and x 0xe000 == x / 8192 * 8192) ≡ true
unfolding all_below
high_three = refl

high_four : all_below 65536 (λ x. bit_and x 0xf000 == x / 4096 * 4096) ≡ true
unfolding all_below
high_four = refl

mask_e000 : (x : ℕ) → x < 65536 → bit_and x 0xe000 ≡ x / 8192 * 8192
mask_e000 x h = (==_iff _ _).0 (all_below_sound 65536 _ x high_three h)

mask_f000 : (x : ℕ) → x < 65536 → bit_and x 0xf000 ≡ x / 4096 * 4096
mask_f000 x h = (==_iff _ _).0 (all_below_sound 65536 _ x high_four h)

-- The first 48 bits of an address: every block below is at least a /48.
abbrev pub bits6 : ℕ → ℕ → ℕ → ℕ
bits6 s0 s1 s2 = (s0 * 65536 + s1) * 65536 + s2

-- 2000::/3
abbrev pub global_unicast : Block
global_unicast = (bits6 0x2000 0 0, 0x200000000000)

abbrev pub special_blocks6 : List Block
special_blocks6 =
    (bits6 0x2001 0 0, 0x2000000)
    ∷ (bits6 0x2001 0xdb8 0, 0x10000)
    ∷ (bits6 0x2002 0 0, 0x100000000)
    ∷ (bits6 0x2620 0x4f 0x8000, 1)
    ∷ (bits6 0x3ffe 0 0, 0x100000000)
    ∷ (bits6 0x3fff 0 0, 0x10000000)
    ∷ []

pub record IsSegments (x : Ipv6Addr) : Type 0 where
  pub s0_lt : x.s0 < 65536
  pub s1_lt : x.s1 < 65536
  pub s2_lt : x.s2 < 65536

module _ (s t u : ℕ) (hs : s < 65536) (ht : t < 65536) (hu : u < 65536) where
  unicast : (bit_and s 0xe000 == 0x2000) ≡ covers (bits6 s t u) global_unicast
  unicast = rw (mask_e000 s hs) (ground arith)

  special : any (covers (bits6 s t u)) special_blocks6 ≡ reserved_ipv6 s t u
  unfolding reserved_ipv6
  special = rw (mask_f000 t ht) (ground arith)

-- An IPv6 address of 16-bit segments is publishable exactly when it is in 2000::/3 and in none of
-- the listed blocks.
pub is_public_ipv6-blocks :
    (x : Ipv6Addr)
    → IsSegments x
    → let n = bits6 x.s0 x.s1 x.s2 in
      is_public_ipv6 x ≡ (covers n global_unicast && not (any (covers n) special_blocks6))
unfolding is_public_ipv6
is_public_ipv6-blocks x h =
    rw
      (
        ← unicast x.s0 x.s1 x.s2 h.s0_lt h.s1_lt h.s2_lt,
        special x.s0 x.s1 x.s2 h.s0_lt h.s1_lt h.s2_lt,
      )
      (both (bit_and x.s0 0xe000 == 0x2000) (reserved_ipv6 x.s0 x.s1 x.s2))
  where
    both : (p q : Bool) → (if not p then false else if q then false else true) ≡ (p && not q)
    both p q = ground arith
