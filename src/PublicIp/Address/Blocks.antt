-- ===== src/PublicIp/Address/Blocks.antt =====
-- The rejected IPv4 blocks as a table of CIDR prefixes, and `is_public_ipv4` against it.
use cirrusync.Prelude.{
  ℕ, ◌+◌, ◌*◌, ◌/◌, ◌<◌, ◌≡◌, Bool, true, false, ◌&&◌, ◌||◌, not, List, [], ◌∷◌, ◌++◌, arith, leb,
  ◌==◌, within, if◌then◌else◌, any, any-append, ◌∙◌,
}
use cirrusync.PublicIp.{Ipv4Addr}
use cirrusync.PublicIp.Address.{is_public_ipv4, reserved_by_prefix, reserved_assignment}

-- a.b.c.d as a 32-bit number.
abbrev pub bits : ℕ → ℕ → ℕ → ℕ → ℕ
bits a b c d = ((a * 256 + b) * 256 + c) * 256 + d

-- `x` lies in the aligned block of `size` addresses that `network` lies in.
abbrev pub in_block : ℕ → ℕ → ℕ → Bool
in_block network size x = x / size == network / size

-- Each row is a network and the number of its addresses: 2 ^ 24 for a /8, 2 ^ 8 for a /24.
abbrev pub Block : Type 0
Block = ℕ × ℕ

abbrev pub covers : ℕ → Block → Bool
covers x (network, size) = in_block network size x

abbrev pub prefix_blocks : List Block
prefix_blocks =
    (bits 0 0 0 0, 0x1000000)
    ∷ (bits 10 0 0 0, 0x1000000)
    ∷ (bits 127 0 0 0, 0x1000000)
    ∷ (bits 224 0 0 0, 0x20000000)
    ∷ (bits 100 64 0 0, 0x400000)
    ∷ (bits 169 254 0 0, 0x10000)
    ∷ (bits 172 16 0 0, 0x100000)
    ∷ (bits 192 168 0 0, 0x10000)
    ∷ []

abbrev pub assigned_blocks : List Block
assigned_blocks =
    (bits 192 0 0 0, 0x100)
    ∷ (bits 192 0 2 0, 0x100)
    ∷ (bits 192 88 99 0, 0x100)
    ∷ (bits 192 31 196 0, 0x100)
    ∷ (bits 192 52 193 0, 0x100)
    ∷ (bits 192 175 48 0, 0x100)
    ∷ (bits 198 18 0 0, 0x20000)
    ∷ (bits 198 51 100 0, 0x100)
    ∷ (bits 203 0 113 0, 0x100)
    ∷ []

abbrev pub in_special_block : ℕ → Bool
in_special_block x = any (covers x) (prefix_blocks ++ assigned_blocks)

module _ (a b c d : ℕ) (ha : a < 256) (hb : b < 256) (hc : c < 256) (hd : d < 256) where
  first_octet : (k : ℕ) → in_block (k * 0x1000000) 0x1000000 (bits a b c d) ≡ (a == k)
  first_octet k = ground arith

  two_octets :
      (k l : ℕ)
      → l < 256
      → in_block ((k * 256 + l) * 0x10000) 0x10000 (bits a b c d) ≡ (a == k && b == l)
  two_octets k l hl = ground arith

  three_octets :
      (k l m : ℕ)
      → l < 256
      → m < 256
      → in_block (((k * 256 + l) * 256 + m) * 0x100) 0x100 (bits a b c d)
        ≡ (a == k && b == l && c == m)
  three_octets k l m hl hm = ground arith

  upper_octets : in_block (bits 224 0 0 0) 0x20000000 (bits a b c d) ≡ leb 224 a
  upper_octets = ground arith

  shared_space : in_block (bits 100 64 0 0) 0x400000 (bits a b c d) ≡ (a == 100 && within 64 127 b)
  shared_space = ground arith

  private_b : in_block (bits 172 16 0 0) 0x100000 (bits a b c d) ≡ (a == 172 && within 16 31 b)
  private_b = ground arith

  benchmarking :
      in_block (bits 198 18 0 0) 0x20000 (bits a b c d) ≡ (a == 198 && (b == 18 || b == 19))
  benchmarking = ground arith

  by_prefix : any (covers (bits a b c d)) prefix_blocks ≡ reserved_by_prefix a b
  unfolding reserved_by_prefix
  by_prefix =
      rw
        (
          first_octet 0,
          first_octet 10,
          first_octet 127,
          upper_octets,
          shared_space,
          two_octets 169 254 (omega arith),
          private_b,
          two_octets 192 168 (omega arith),
        )
        (ground arith)

  by_assignment : any (covers (bits a b c d)) assigned_blocks ≡ reserved_assignment a b c
  unfolding reserved_assignment
  by_assignment =
      rw
        (
          three_octets 192 0 0 (omega arith) (omega arith),
          three_octets 192 0 2 (omega arith) (omega arith),
          three_octets 192 88 99 (omega arith) (omega arith),
          three_octets 192 31 196 (omega arith) (omega arith),
          three_octets 192 52 193 (omega arith) (omega arith),
          three_octets 192 175 48 (omega arith) (omega arith),
          benchmarking,
          three_octets 198 51 100 (omega arith) (omega arith),
          three_octets 203 0 113 (omega arith) (omega arith),
        )
        (ground arith)

  either_block :
      in_special_block (bits a b c d) ≡ (reserved_by_prefix a b || reserved_assignment a b c)
  either_block =
      any-append (covers (bits a b c d)) prefix_blocks assigned_blocks
      ∙ rw (by_prefix, by_assignment)

pub record IsOctets (x : Ipv4Addr) : Type 0 where
  pub a_lt : x.a < 256
  pub b_lt : x.b < 256
  pub c_lt : x.c < 256
  pub d_lt : x.d < 256

-- An IPv4 address of four octets is publishable exactly when it lies in none of the listed blocks.
pub is_public_ipv4-blocks :
    (x : Ipv4Addr) → IsOctets x → is_public_ipv4 x ≡ not (in_special_block (bits x.a x.b x.c x.d))
unfolding is_public_ipv4
is_public_ipv4-blocks x h =
    rw (either_block x.a x.b x.c x.d h.a_lt h.b_lt h.c_lt h.d_lt)
      (negated (reserved_by_prefix x.a x.b) (reserved_assignment x.a x.b x.c))
  where
    negated : (p q : Bool) → (if p then false else if q then false else true) ≡ not (p || q)
    negated p q = ground arith
