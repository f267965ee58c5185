-- ===== src/Config/Validate/Records.antt =====
-- What the parts of `Config::validate` accept: identifiers, providers and records.
use cirrusync.Prelude.{
  ℕ, ◌+◌, ◌≤◌, ◌≡◌, refl, ◌↔◌, ◌⊎◌, inl, inr, Bool, true, false, ◌&&◌, Option, none, some, List, [],
  ◌∷◌, ◌++◌, map, arith, is_empty, length, all, any, All, Result, ok, err, Result-cases,
}
use cirrusync.Prelude.Strings.{
  Text, text, text_eq, len, trim, to_ascii_lowercase, ends_with, is_ascii_hexdigit, text_eq_iff,
}
use cirrusync.Config.{Config, IpDiscoveryConfig, RecordConfig, family, max_providers_per_family}
use cirrusync.Config.Names.{canonical_dns_name, IsDnsName, validate_dns_name-ok_iff}
use cirrusync.Config.Validate.{
  ParseUrl, UrlParts, is_some, validate_range, validate_identifier, validate_url,
  validate_providers, validate_discovery, validate_record, RecordKey, record_key, same_key,
  family_enabled, validate_records, indexed,
}

-- No key is the same as one seen before it.
abbrev pub Fresh {ℓ} : {K : Type ℓ} → (K → K → Bool) → List K → List K → Type 0
Fresh same seen [] = Unit
Fresh same seen (k ∷ ks) = (any (same k) seen ≡ false) × Fresh same (k ∷ seen) ks

abbrev pub IsIdentifier : Option Text → Type 0
IsIdentifier none = Unit
IsIdentifier (some v) =
    (v ≡ to_ascii_lowercase (trim v)) × (len v ≡ 32) × (all is_ascii_hexdigit v ≡ true)

pub validate_identifier-ok_iff :
    (field : Text) (o : Option Text) → (validate_identifier field o ≡ ok tt) ↔ IsIdentifier o
unfolding validate_identifier
validate_identifier-ok_iff field none = (λ _. tt, λ _. refl)
validate_identifier-ok_iff field (some v) =
    ground (arith, text_eq_iff v (to_ascii_lowercase (trim v)))

pub validate_range-ok_iff :
    (field : Text) (value low high : ℕ)
    → (validate_range field value low high ≡ ok tt) ↔ ((low ≤ value) × (value ≤ high))
unfolding validate_range
validate_range-ok_iff field value low high = ground arith

-- A URL that may be asked: HTTPS, with a host, and with neither credentials nor a fragment.
pub record IsProviderUrl (url : UrlParts) : Type 0 where
  pub https : url.scheme ≡ text "https"
  pub has_host : is_some url.host ≡ true
  pub no_username : is_empty url.username ≡ true
  pub no_password : is_some url.password ≡ false
  pub no_fragment : is_some url.fragment ≡ false

validate_url-ok_iff :
    (field : Text) (url : UrlParts) (unique : List Text)
    → (validate_url field url unique ≡ ok tt)
      ↔ (IsProviderUrl url × (any (text_eq url.serialized) unique ≡ false))
unfolding validate_url
validate_url-ok_iff field url unique = ground (arith, text_eq_iff url.scheme (text "https"))

abbrev pub Usable : Result UrlParts Text → Type 0
Usable (ok url) = IsProviderUrl url
Usable (err e) = ⊥

abbrev pub serialized_of : Result UrlParts Text → Text
serialized_of (ok url) = url.serialized
serialized_of (err e) = []

module _ (parse_url : ParseUrl) where
  abbrev pub IsProvider : Text → Type 0
  IsProvider provider = (len provider ≤ 2048) × Usable (parse_url provider)

  abbrev pub serialized : List Text → List Text
  serialized = map (λ p. serialized_of (parse_url p))

  providers-ok_iff :
      (field : Text) (index : ℕ) (unique providers : List Text)
      → (validate_providers parse_url field index unique providers ≡ ok tt)
        ↔ (All IsProvider providers × Fresh text_eq unique (serialized providers))
  unfolding validate_providers
  providers-ok_iff field index unique [] = ((λ _. (tt, tt)), λ _. refl)
  providers-ok_iff field index unique (p ∷ rest) = elim (Result-cases (parse_url p)) [
    | inl (url, e) ↦
        rw (e, validate_providers)
          (ground (
            arith,
            validate_url-ok_iff (indexed field index) url unique,
            providers-ok_iff field (index + 1) (url.serialized ∷ unique) rest,
          ))
    | inr (x, e) ↦ rw (e, validate_providers) (ground arith)
  ]

  -- An enabled section has providers; there are at most eight, all usable and all different.
  pub record IsDiscovery (d : IpDiscoveryConfig) : Type 0 where
    pub some_provider : (d.enabled && is_empty d.providers) ≡ false
    pub few : length d.providers ≤ max_providers_per_family
    pub usable : All IsProvider d.providers
    pub distinct : Fresh text_eq [] (serialized d.providers)

  pub validate_discovery-ok_iff :
      (field : Text) (d : IpDiscoveryConfig)
      → (validate_discovery parse_url field d ≡ ok tt) ↔ IsDiscovery d
  unfolding validate_discovery
  validate_discovery-ok_iff field d =
      ground (arith, providers-ok_iff (field ++ text ".providers") 0 [] d.providers)

-- A record that `validate` accepts. Its names are canonical already, so the fields that speak of
-- the canonical names speak of its own.
pub record IsRecord (r : RecordConfig) : Type 0 where
  pub canonical_zone : r.zone ≡ canonical_dns_name r.zone
  pub canonical_name : r.name ≡ canonical_dns_name r.name
  pub zone_name : IsDnsName (canonical_dns_name r.zone) false
  pub record_name : IsDnsName (canonical_dns_name r.name) true
  pub in_zone :
      (canonical_dns_name r.name ≡ canonical_dns_name r.zone)
      ⊎ (ends_with (canonical_dns_name r.name) (text "." ++ canonical_dns_name r.zone) ≡ true)
  pub zone_identifier : IsIdentifier r.zone_id
  pub ttl_range : (r.ttl ≡ 1) ⊎ ((60 ≤ r.ttl) × (r.ttl ≤ 86400))
  pub proxied_ttl : r.proxied ≡ true → r.ttl ≡ 1

pub validate_record-ok_iff :
    (r : RecordConfig) (field : Text) → (validate_record r field ≡ ok tt) ↔ IsRecord r
unfolding validate_record
validate_record-ok_iff r field = ground (
  arith,
  text_eq_iff r.zone (canonical_dns_name r.zone),
  text_eq_iff r.name (canonical_dns_name r.name),
  text_eq_iff (canonical_dns_name r.name) (canonical_dns_name r.zone),
  validate_dns_name-ok_iff (canonical_dns_name r.zone) false,
  validate_dns_name-ok_iff (canonical_dns_name r.name) true,
  validate_identifier-ok_iff (field ++ text ".zone_id") r.zone_id,
)

abbrev pub IsEnabled : Config → RecordConfig → Type 0
IsEnabled config r = family_enabled config (family r.record_type) ≡ true

-- Every record is valid, its family's discovery is enabled, and no two have the same key.
abbrev pub AreRecords : Config → List RecordKey → List RecordConfig → Type 0
AreRecords config unique rs =
    All (λ r. IsRecord r × IsEnabled config r) rs × Fresh same_key unique (map record_key rs)

pub validate_records-ok_iff :
    (config : Config) (index : ℕ) (unique : List RecordKey) (rs : List RecordConfig)
    → (validate_records config index unique rs ≡ ok tt) ↔ AreRecords config unique rs
unfolding validate_records
validate_records-ok_iff config index unique [] = ((λ _. (tt, tt)), λ _. refl)
validate_records-ok_iff config index unique (r ∷ rest) = ground (
  arith,
  validate_record-ok_iff r (indexed (text "records") index),
  validate_records-ok_iff config (index + 1) (record_key r ∷ unique) rest,
)
