-- ===== src/Updater/Addresses.antt =====
-- src/updater.rs: the addresses that the configured records need, `discover_required_addresses`.
-- The two families' discoveries run one after the other here.
use cirrusync.Prelude.{
  Bool, true, false, Option, none, some, List, [], ◌∷◌, ◌++◌, any, Result, ok, err,
}
use cirrusync.Prelude.Strings.{Text, text}
use cirrusync.PublicIp.{AddressFamily, ipv4, ipv6, IpAddr, PublicIpError}
use cirrusync.PublicIp.Discover.{PublicIpClient, discover}
use cirrusync.Config.{Config, RecordConfig, RecordType, type_str}
use cirrusync.Config.Validate.{same_type}
use cirrusync.Cloudflare.Client.{Client}
use cirrusync.Updater.{CycleFailure}
use cirrusync.Updater.Failures.{discovery_failure}
use cirrusync.Updater.Host.{Host, network}

pub record Updater : Type 0 where
  pub config : Config
  pub cloudflare : Client
  pub public_ip : PublicIpClient

-- `none` is a family that no record needs; an error is the text of its display.
pub record DiscoveredAddresses : Type 0 where
  pub found4 : Option (Result IpAddr Text)
  pub found6 : Option (Result IpAddr Text)

unfoldable pub discovered_for : DiscoveredAddresses → RecordType → Option (Result IpAddr Text)
discovered_for d RecordType.a = d.found4
discovered_for d RecordType.aaaa = d.found6

unfoldable pub address_of : RecordType → Option (Result IpAddr Text) → Result IpAddr Text
address_of t none = err (type_str t ++ text " address discovery was not configured")
address_of t (some (ok address)) = ok address
address_of t (some (err message)) = err message

unfoldable pub for_record : DiscoveredAddresses → RecordConfig → Result IpAddr Text
unfolding discovered_for address_of
for_record d r = address_of r.record_type (discovered_for d r.record_type)

unfoldable pub failures_of : Text → Option (Result IpAddr Text) → List CycleFailure
failures_of target none = []
failures_of target (some (ok address)) = []
failures_of target (some (err message)) = discovery_failure target message ∷ []

unfoldable pub append_discovery_failures :
    DiscoveredAddresses → List CycleFailure → List CycleFailure
unfolding failures_of
append_discovery_failures d failures =
    (failures ++ failures_of (text "public IPv4 address") d.found4)
    ++ failures_of (text "public IPv6 address") d.found6

unfoldable pub needs : RecordType → List RecordConfig → Bool
unfolding same_type
needs t = any (λ r. same_type r.record_type t)

module _ (host : Host) where
  open host use {api, show_discovery_error}

  unfoldable pub shown : Result IpAddr PublicIpError → Result IpAddr Text
  shown (ok address) = ok address
  shown (err e) = err (show_discovery_error e)

  unfoldable pub family_of : RecordType → AddressFamily
  family_of RecordType.a = ipv4
  family_of RecordType.aaaa = ipv6

  -- One family's discovery, if a record needs it.
  unfoldable pub discover_family :
      PublicIpClient
      → Bool
      → AddressFamily
      → List Text
      → api.World
      → Option (Result IpAddr Text) × api.World
  unfolding shown
  discover_family public_ip false family providers w = (none, w)
  discover_family public_ip true family providers w =
      let (r, w') = discover host.ip (network host) public_ip family providers w in
      (some (shown r), w')

  unfoldable pub discover_required_addresses : Updater → api.World → DiscoveredAddresses × api.World
  unfolding discover_family
  discover_required_addresses u w =
      let (four, w1) =
        discover_family u.public_ip (needs RecordType.a u.config.records) ipv4
          u.config.discovery4.providers w in
      let (six, w2) =
        discover_family u.public_ip (needs RecordType.aaaa u.config.records) ipv6
          u.config.discovery6.providers w1 in
      (record { found4 = four; found6 = six }, w2)
