-- ===== src/PublicIp.antt =====
-- src/public_ip.rs: the data of public-address discovery.
pub mod Address
pub mod Response
pub mod Discover
use cirrusync.Prelude.{ℕ, Bool, true, false, Option, List, []}
use cirrusync.Prelude.Strings.{Text, text}

-- The four octets and the eight 16-bit segments of std's addresses.
pub record Ipv4Addr : Type 0 where
  pub a : ℕ
  pub b : ℕ
  pub c : ℕ
  pub d : ℕ

pub record Ipv6Addr : Type 0 where
  pub s0 : ℕ
  pub s1 : ℕ
  pub s2 : ℕ
  pub s3 : ℕ
  pub s4 : ℕ
  pub s5 : ℕ
  pub s6 : ℕ
  pub s7 : ℕ

pub data IpAddr : Type 0 where
  v4 : Ipv4Addr → IpAddr
  v6 : Ipv6Addr → IpAddr

pub data AddressFamily : Type 0 where
  ipv4 ipv6 : AddressFamily

unfoldable pub matches : AddressFamily → IpAddr → Bool
matches ipv4 (v4 x) = true
matches ipv4 (v6 x) = false
matches ipv6 (v4 x) = false
matches ipv6 (v6 x) = true

unfoldable pub family_str : AddressFamily → Text
family_str ipv4 = text "IPv4"
family_str ipv6 = text "IPv6"

pub data ProviderError : Type 0 where
  request : Text → ProviderError
  timed_out : ProviderError
  http_status : ℕ → ProviderError
  response_too_large : ℕ → ProviderError
  non_utf8_response : ProviderError
  empty_response : ProviderError
  malformed_response : ProviderError
  wrong_address_family : AddressFamily → IpAddr → ProviderError
  non_public_address : IpAddr → ProviderError

pub record ProviderFailure : Type 0 where
  pub provider : Text
  pub error : ProviderError

pub data PublicIpError : Type 0 where
  invalid_timeout : PublicIpError
  client_build : Text → PublicIpError
  no_providers : AddressFamily → PublicIpError
  all_providers_failed : AddressFamily → List ProviderFailure → PublicIpError
  deadline_exceeded : AddressFamily → List ProviderFailure → PublicIpError

unfoldable pub failures : PublicIpError → List ProviderFailure
failures invalid_timeout = []
failures (client_build e) = []
failures (no_providers family) = []
failures (all_providers_failed family fs) = fs
failures (deadline_exceeded family fs) = fs

-- std's text form of an address, both ways, and its UTF-8 decoder.
pub record IpText : Type 0 where
  pub parse_ip : Text → Option IpAddr
  pub show_ip : IpAddr → Text
  pub from_utf8 : List ℕ → Option Text
