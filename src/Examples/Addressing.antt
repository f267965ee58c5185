-- ===== src/Examples/Addressing.antt =====
-- The theorems on public addresses and their discovery at concrete inputs.
use cirrusync.Prelude.Strings.{trim}
use cirrusync.Prelude.Strings.{len}
use cirrusync.Http.{read_chunks}
use cirrusync.Http.{announces_more}
use cirrusync.Http.{is_success}
use cirrusync.PublicIp.Discover.{query_provider}
use cirrusync.Prelude.{◌≡◌, ◌↔◌, refl, true, not, [], ◌∷◌, ◌&&◌, any, arith, ok}
use cirrusync.PublicIp.{Ipv4Addr, Ipv6Addr, ipv4, matches}
use cirrusync.PublicIp.Address.{is_public_ipv4, is_public_ipv6, is_public_address}
use cirrusync.PublicIp.Address.Blocks.{in_special_block, bits, covers, is_public_ipv4-blocks}
use cirrusync.PublicIp.Address.Blocks6.{
  bits6, global_unicast, special_blocks6, is_public_ipv6-blocks,
}
use cirrusync.PublicIp.Response.{parse_provider_response, Accepted, parse_provider_response-ok_iff}
use cirrusync.PublicIp.Discover.{discover}
use cirrusync.PublicIp.Discover.Outcome.{Outcome, discover-Outcome, discover-public}
use cirrusync.Updater.Host.{network}
use cirrusync.Examples.Instances.{sample_text, sample_host, one, provider}

abbrev shared_space : Ipv4Addr
shared_space = record { a = 100; b = 64; c = 0; d = 1 }

is_public_ipv4-blocks_example :
    is_public_ipv4 shared_space ≡ not (in_special_block (bits 100 64 0 1))
is_public_ipv4-blocks_example =
    is_public_ipv4-blocks shared_space
      (record { a_lt = omega arith; b_lt = omega arith; c_lt = omega arith; d_lt = omega arith })

parse_provider_response-ok_iff_example :
    (parse_provider_response sample_text (1 ∷ 1 ∷ 1 ∷ 1 ∷ []) ipv4 ≡ ok one)
    ↔ Accepted sample_text (1 ∷ 1 ∷ 1 ∷ 1 ∷ []) ipv4 one
parse_provider_response-ok_iff_example =
    parse_provider_response-ok_iff sample_text (1 ∷ 1 ∷ 1 ∷ 1 ∷ []) ipv4 one

discover-Outcome_example :
    Outcome sample_text
      (network sample_host)
      1000
      ipv4
      ((network sample_host).now 0).0
      ((network sample_host).now 0).1
      (provider ∷ [])
      (discover sample_text
        (network sample_host)
        (record { timeout = 1000 })
        ipv4
        (provider ∷ [])
        0).0
discover-Outcome_example =
    discover-Outcome sample_text (network sample_host) (record { timeout = 1000 }) ipv4
      (provider ∷ []) 0

found_one :
    (discover sample_text
      (network sample_host)
      (record { timeout = 1000 })
      ipv4
      (provider ∷ [])
      0).0
    ≡ ok one
unfolding discover query_provider is_success announces_more read_chunks parse_provider_response len
    trim matches is_public_address
found_one = refl

discover-public_example : (matches ipv4 one ≡ true) × (is_public_address one ≡ true)
discover-public_example =
    discover-public sample_text (network sample_host) (record { timeout = 1000 }) ipv4
      (provider ∷ []) 0 one found_one

abbrev documentation : Ipv6Addr
documentation = record { s0 = 0x2001; s1 = 0xdb8; s2 = 0; s3 = 0; s4 = 0; s5 = 0; s6 = 0; s7 = 1 }

is_public_ipv6-blocks_example : is_public_ipv6 documentation ≡ (
    covers (bits6 0x2001 0xdb8 0) global_unicast
    && not (any (covers (bits6 0x2001 0xdb8 0)) special_blocks6))
is_public_ipv6-blocks_example =
    is_public_ipv6-blocks documentation
      (record { s0_lt = omega arith; s1_lt = omega arith; s2_lt = omega arith })
