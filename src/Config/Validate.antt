-- ===== src/Config/Validate.antt =====
-- src/config.rs: `Config::validate` and its parts, in the order of the source.
pub mod Records
pub mod Whole
use cirrusync.Prelude.{
  ℕ, ◌+◌, Bool, true, false, ◌&&◌, ◌||◌, not, Option, none, some, List, [], ◌∷◌, ◌++◌, ltb, ◌==◌,
  within, is_empty, length, all, any, Result, ok, ◌>>=◌, ◌>>◌, ensure, reject, map_err,
}
use cirrusync.Prelude.Strings.{
  Text, text, text_eq, len, trim, to_ascii_lowercase, starts_with, ends_with, is_ascii_hexdigit,
  decimal,
}
use cirrusync.PublicIp.{AddressFamily, ipv4, ipv6, family_str}
use cirrusync.Config.{
  Config, IpDiscoveryConfig, RecordConfig, RecordType, family, type_str, ConfigError, invalid_field,
  min_interval_seconds, max_interval_seconds, min_request_timeout_seconds,
  max_request_timeout_seconds, max_records, max_providers_per_family,
}
use cirrusync.Config.Names.{canonical_dns_name, validate_dns_name}

abbrev pub Checked : Type 0
Checked = Result (Unit {0}) ConfigError

-- What the program reads of a parsed `reqwest::Url`, and the parser.
pub record UrlParts : Type 0 where
  pub scheme : Text
  pub host : Option Text
  pub username : Text
  pub password : Option Text
  pub fragment : Option Text
  pub serialized : Text

abbrev pub ParseUrl : Type 0
ParseUrl = Text → Result UrlParts Text

abbrev pub is_some {ℓ} : {A : Type ℓ} → Option A → Bool
is_some none = false
is_some (some x) = true

unfoldable pub validate_range : Text → ℕ → ℕ → ℕ → Checked
validate_range field value low high = ensure (within low high value) (
    invalid_field field (
      text "must be between " ++ decimal low ++ text " and " ++ decimal high ++ text ", inclusive"))

-- A configured 32-digit identifier: an account ID or a zone ID.
unfoldable pub validate_identifier : Text → Option Text → Checked
validate_identifier field none = ok tt
validate_identifier field (some value) = do
  ensure (text_eq value (to_ascii_lowercase (trim value)))
      (invalid_field field (text "must already be lowercase and trimmed"))
  ensure (len value == 32 && all is_ascii_hexdigit value)
      (invalid_field field (text "must be exactly 32 hexadecimal characters"))

abbrev indexed : Text → ℕ → Text
indexed field index = field ++ text "[" ++ decimal index ++ text "]"

-- The tests of one parsed provider URL, the duplicate test last.
validate_url : Text → UrlParts → List Text → Checked
validate_url field url unique = do
  ensure (text_eq url.scheme (text "https"))
      (invalid_field field (text "only HTTPS provider URLs are allowed"))
  ensure (is_some url.host) (invalid_field field (text "URL must include a host"))
  reject (not (is_empty url.username) || is_some url.password)
      (invalid_field field (text "URL must not contain embedded credentials"))
  reject (is_some url.fragment) (invalid_field field (text "URL fragments are not allowed"))
  reject (any (text_eq url.serialized) unique) (invalid_field field (text "duplicate provider URL"))

module _ (parse_url : ParseUrl) where
  parse_provider : Text → Text → Result UrlParts ConfigError
  parse_provider field provider = do
    reject (ltb 2048 (len provider)) (invalid_field field (text "URL is too long"))
    map_err (parse_url provider) (λ e. invalid_field field (text "invalid URL: " ++ e))

  -- The loop over the providers; `unique` holds the serialized URLs seen so far.
  validate_providers : Text → ℕ → List Text → List Text → Checked
  unfolding parse_provider validate_url
  validate_providers field index unique [] = ok tt
  validate_providers field index unique (provider ∷ rest) = do
    url ← parse_provider (indexed field index) provider
    validate_url (indexed field index) url unique
    validate_providers field (index + 1) (url.serialized ∷ unique) rest

  unfoldable pub validate_discovery : Text → IpDiscoveryConfig → Checked
  unfolding validate_providers
  validate_discovery field discovery = do
    reject (discovery.enabled && is_empty discovery.providers) (
        invalid_field (field ++ text ".providers")
          (text "must contain at least one provider when discovery is enabled"))
    reject (ltb max_providers_per_family (length discovery.providers)) (
        invalid_field (field ++ text ".providers")
          (text "at most " ++ decimal max_providers_per_family ++ text " providers are allowed"))
    validate_providers (field ++ text ".providers") 0 [] discovery.providers

unfoldable pub validate_record : RecordConfig → Text → Checked
unfolding validate_identifier
validate_record record' field = do
  let zone = canonical_dns_name record'.zone
  let name = canonical_dns_name record'.name
  ensure (text_eq record'.zone zone) (
      invalid_field (field ++ text ".zone")
        (text "must already be lowercase, trimmed, and without a trailing dot"))
  ensure (text_eq record'.name name) (
      invalid_field (field ++ text ".name")
        (text "must already be lowercase, trimmed, and without a trailing dot"))
  map_err (validate_dns_name zone false) (invalid_field (field ++ text ".zone"))
  map_err (validate_dns_name name true) (invalid_field (field ++ text ".name"))
  reject (not (text_eq name zone) && not (ends_with name (text "." ++ zone))) (
      invalid_field (field ++ text ".name")
        (record'.name ++ text " does not belong to zone " ++ record'.zone))
  validate_identifier (field ++ text ".zone_id") record'.zone_id
  reject (not (record'.ttl == 1) && not (within 60 86400 record'.ttl)) (
      invalid_field (field ++ text ".ttl")
        (text "must be 1 (automatic) or between 60 and 86400 seconds"))
  reject (record'.proxied && not (record'.ttl == 1))
      (invalid_field (field ++ text ".ttl") (text "must be 1 (automatic) when proxied is true"))

-- The key by which records are told apart.
pub record RecordKey : Type 0 where
  pub zone : Text
  pub name : Text
  pub record_type : RecordType

pub record_key : RecordConfig → RecordKey
record_key r = record {
  zone = canonical_dns_name r.zone;
  name = canonical_dns_name r.name;
  record_type = r.record_type;
}

unfoldable pub same_type : RecordType → RecordType → Bool
same_type RecordType.a RecordType.a = true
same_type RecordType.a RecordType.aaaa = false
same_type RecordType.aaaa RecordType.a = false
same_type RecordType.aaaa RecordType.aaaa = true

pub same_key : RecordKey → RecordKey → Bool
unfolding same_type
same_key k j =
    text_eq k.zone j.zone && text_eq k.name j.name && same_type k.record_type j.record_type

pub family_enabled : Config → AddressFamily → Bool
family_enabled config ipv4 = config.discovery4.enabled
family_enabled config ipv6 = config.discovery6.enabled

-- The loop over the records; `unique` holds the keys seen so far.
pub validate_records : Config → ℕ → List RecordKey → List RecordConfig → Checked
unfolding family_enabled same_key record_key
validate_records config index unique [] = ok tt
validate_records config index unique (r ∷ rest) = do
  let field = indexed (text "records") index
  validate_record r field
  ensure (family_enabled config (family r.record_type)) (
      invalid_field (field ++ text ".type") (
        type_str r.record_type
        ++ text " records require the "
        ++ family_str (family r.record_type)
        ++ text " discovery section to be enabled"))
  reject (any (same_key (record_key r)) unique) (
      invalid_field field (
        text "duplicate "
        ++ type_str r.record_type
        ++ text " record for "
        ++ r.name
        ++ text " in zone "
        ++ r.zone))
  validate_records config (index + 1) (record_key r ∷ unique) rest

-- `Path::is_absolute` on Unix.
pub is_absolute : Text → Bool
is_absolute path = starts_with path (text "/")

unfoldable pub validate : ParseUrl → Config → Checked
unfolding validate_records is_absolute
validate parse_url config = do
  validate_range (text "interval_seconds") config.interval_seconds min_interval_seconds
      max_interval_seconds
  validate_range (text "request_timeout_seconds") config.request_timeout_seconds
      min_request_timeout_seconds max_request_timeout_seconds
  ensure (is_absolute config.cloudflare.api_token_file)
      (invalid_field (text "cloudflare.api_token_file") (text "must be an absolute path"))
  validate_identifier (text "cloudflare.account_id") config.cloudflare.account_id
  reject (is_empty config.records)
      (invalid_field (text "records") (text "at least one record is required"))
  reject (ltb max_records (length config.records)) (
      invalid_field (text "records")
        (text "at most " ++ decimal max_records ++ text " records are allowed"))
  validate_discovery parse_url (text "ipv4") config.discovery4
  validate_discovery parse_url (text "ipv6") config.discovery6
  validate_records config 0 [] config.records
