-- ===== src/Updater/Cycle/Discovery.antt =====
-- The addresses of a cycle, for `discover_required_addresses` in src/updater.rs.
use cirrusync.Prelude.{
  ◌≡◌, ◌≢◌, refl, ap, Bool, true, false, Option, none, some, List, [], ◌∷◌, ◌++◌, ◌+◌, arith,
  length, length-append, All, Result, ok, err,
}
use cirrusync.Prelude.Strings.{Text, text}
use cirrusync.PublicIp.{AddressFamily, ipv4, ipv6, IpAddr, matches, PublicIpError}
use cirrusync.PublicIp.Address.{is_public_address}
use cirrusync.PublicIp.Discover.Outcome.{discover-public}
use cirrusync.PublicIp.Discover.{PublicIpClient}
use cirrusync.Config.{RecordConfig, RecordType}
use cirrusync.Config.Validate.{same_type}
use cirrusync.Updater.{CycleFailure}
use cirrusync.Updater.Host.{Host, network}
use cirrusync.Updater.Addresses.{
  Updater, DiscoveredAddresses, discovered_for, address_of, for_record, failures_of,
  append_discovery_failures, needs, family_of, shown, discover_family, discover_required_addresses,
}
use cirrusync.Updater.Cycle.Ledger.{Known}

same_type_refl : (t : RecordType) → same_type t t ≡ true
unfolding same_type
same_type_refl RecordType.a = refl
same_type_refl RecordType.aaaa = refl

module _ (all : List RecordConfig) where
  abbrev Needed : List RecordConfig → Type 0
  Needed = All (λ r. needs r.record_type all ≡ true)

  needs-within :
      (rs : List RecordConfig)
      → ((t : RecordType) → needs t rs ≡ true → needs t all ≡ true)
      → Needed rs
  unfolding needs
  needs-within [] h = tt
  needs-within (r ∷ rs) h =
      (h r.record_type (rw same_type_refl refl), needs-within rs (λ t k. h t (ground (arith, k))))

  -- Each record's family is needed.
  needs-each : Needed all
  needs-each = needs-within all (λ t h. h)

no_discovery_failures :
    (d : DiscoveredAddresses)
    → length (append_discovery_failures d []) ≡ 0
    → (length (failures_of (text "public IPv4 address") d.found4) ≡ 0)
      × (length (failures_of (text "public IPv6 address") d.found6) ≡ 0)
unfolding append_discovery_failures
no_discovery_failures d h = omega (
  arith,
  length-append (failures_of (text "public IPv4 address") d.found4)
      (failures_of (text "public IPv6 address") d.found6),
  h,
)

-- Discovery adds to the failures that there were.
pub append_discovery_failures-length :
    (d : DiscoveredAddresses) (failures : List CycleFailure)
    → length (append_discovery_failures d failures)
      ≡ length failures + length (append_discovery_failures d [])
unfolding append_discovery_failures
append_discovery_failures-length d failures =
    let four = failures_of (text "public IPv4 address") d.found4 in
    let six = failures_of (text "public IPv6 address") d.found6 in
    omega (
      arith,
      length-append (failures ++ four) six,
      length-append failures four,
      length-append four six,
    )

some-injective : {A : Type 0} {a b : A} → some a ≡ some b → a ≡ b
some-injective h = cc

address_of-ok :
    (t : RecordType) (o : Option (Result IpAddr Text)) (a : IpAddr)
    → address_of t o ≡ ok a
    → o ≡ some (ok a)
unfolding address_of
address_of-ok t none a h = cc
address_of-ok t (some (ok b)) a h = cc
address_of-ok t (some (err e)) a h = cc

module _ (host : Host) where
  open host use {api}

  known-family :
      (o : Option (Result IpAddr Text)) (target : Text)
      → o ≢ none
      → length (failures_of target o) ≡ 0
      → (address : IpAddr) × (o ≡ some (ok address))
  unfolding failures_of
  known-family none target n h = absurd (n refl)
  known-family (some (ok address)) target n h = (address, refl)
  known-family (some (err message)) target n h = absurd (omega (arith, h))

  discover_family-some :
      (c : PublicIpClient) (b : Bool) (family : AddressFamily) (providers : List Text)
      (w : api.World)
      → b ≡ true
      → (discover_family host c b family providers w).0 ≢ none
  unfolding discover_family
  discover_family-some c true family providers w h e = cc
  discover_family-some c false family providers w h e = cc

  shown-ok : (r : Result IpAddr PublicIpError) (a : IpAddr) → shown host r ≡ ok a → r ≡ ok a
  unfolding shown
  shown-ok (ok b) a h = cc
  shown-ok (err e) a h = cc

  discover_family-public :
      (c : PublicIpClient) (b : Bool) (family : AddressFamily) (providers : List Text)
      (w : api.World) (a : IpAddr)
      → (discover_family host c b family providers w).0 ≡ some (ok a)
      → (matches family a ≡ true) × (is_public_address a ≡ true)
  unfolding discover_family
  discover_family-public c true family providers w a h =
      discover-public host.ip (network host) c family providers w a
        (shown-ok _ a (some-injective h))
  discover_family-public c false family providers w a h = cc

  module _ (u : Updater) (w : api.World) where
    abbrev pub found : DiscoveredAddresses
    found = (discover_required_addresses host u w).0

    known-one :
        (r : RecordConfig)
        → needs r.record_type u.config.records ≡ true
        → length (append_discovery_failures found []) ≡ 0
        → (address : IpAddr) × (for_record found r ≡ ok address)
    unfolding discover_required_addresses append_discovery_failures for_record discovered_for
        address_of
    known-one r n h = by_type r.record_type n
      where
        by_type :
            (t : RecordType)
            → needs t u.config.records ≡ true
            → (address : IpAddr) × (address_of t (discovered_for found t) ≡ ok address)
        by_type RecordType.a n =
            let (address, e) =
              known-family found.found4 (text "public IPv4 address")
                (discover_family-some u.public_ip _ _ _ _ n) (no_discovery_failures found h).0 in
            (address, ap (address_of _) e)
        by_type RecordType.aaaa n =
            let (address, e) =
              known-family found.found6 (text "public IPv6 address")
                (discover_family-some u.public_ip _ _ _ _ n) (no_discovery_failures found h).1 in
            (address, ap (address_of _) e)

    Known-all :
        (rs : List RecordConfig)
        → Needed u.config.records rs
        → length (append_discovery_failures found []) ≡ 0
        → Known found rs
    Known-all [] n h = tt
    Known-all (r ∷ rs) n h = (known-one r n.0 h, Known-all rs n.1 h)

    -- Where the discovery reports no failure, every configured record has an address.
    pub discovered-Known :
        length (append_discovery_failures found []) ≡ 0 → Known found u.config.records
    discovered-Known = Known-all u.config.records (needs-each u.config.records)

    -- Whatever the providers and the network do, the address that a record is given is a public
    -- one of the family of the record's type.
    pub for_record-public :
        (r : RecordConfig) (a : IpAddr)
        → for_record found r ≡ ok a
        → (matches (family_of host r.record_type) a ≡ true) × (is_public_address a ≡ true)
    unfolding for_record discovered_for discover_required_addresses family_of
    for_record-public r a h = by_type r.record_type (address_of-ok r.record_type _ a h)
      where
        by_type :
            (t : RecordType)
            → discovered_for found t ≡ some (ok a)
            → (matches (family_of host t) a ≡ true) × (is_public_address a ≡ true)
        by_type RecordType.a e = discover_family-public u.public_ip _ ipv4 _ _ a e
        by_type RecordType.aaaa e = discover_family-public u.public_ip _ ipv6 _ _ a e
