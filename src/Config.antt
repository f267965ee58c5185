-- ===== src/Config.antt =====
-- src/config.rs: the configuration's data, its defaults and its errors. Paths are texts.
pub mod Names
pub mod Validate
pub mod Load
pub mod Token
use cirrusync.Prelude.{ℕ, ◌*◌, Bool, true, false, Option, none, List, [], ◌∷◌}
use cirrusync.Prelude.Strings.{Text, text}
use cirrusync.PublicIp.{AddressFamily, ipv4, ipv6}

abbrev pub min_interval_seconds : ℕ
min_interval_seconds = 60

abbrev pub max_interval_seconds : ℕ
max_interval_seconds = 86400

abbrev pub min_request_timeout_seconds : ℕ
min_request_timeout_seconds = 1

abbrev pub max_request_timeout_seconds : ℕ
max_request_timeout_seconds = 120

abbrev pub max_records : ℕ
max_records = 50

abbrev pub max_providers_per_family : ℕ
max_providers_per_family = 8

abbrev pub max_config_bytes : ℕ
max_config_bytes = 256 * 1024

abbrev pub max_token_bytes : ℕ
max_token_bytes = 16 * 1024

pub data RecordType : Type 0 where
  a aaaa : RecordType

unfoldable pub family : RecordType → AddressFamily
family a = ipv4
family aaaa = ipv6

unfoldable pub type_str : RecordType → Text
type_str a = text "A"
type_str aaaa = text "AAAA"

pub record CloudflareConfig : Type 0 where
  pub api_token_file : Text
  pub account_id : Option Text

pub record IpDiscoveryConfig : Type 0 where
  pub enabled : Bool
  pub providers : List Text

pub record RecordConfig : Type 0 where
  pub zone : Text
  pub zone_id : Option Text
  pub name : Text
  pub record_type : RecordType
  pub ttl : ℕ
  pub proxied : Bool
  pub create_if_missing : Bool

pub record Config : Type 0 where
  pub interval_seconds : ℕ
  pub request_timeout_seconds : ℕ
  pub cloudflare : CloudflareConfig
  pub discovery4 : IpDiscoveryConfig
  pub discovery6 : IpDiscoveryConfig
  pub records : List RecordConfig

unfoldable pub default_config : Config
default_config = record {
  interval_seconds = 300;
  request_timeout_seconds = 15;
  cloudflare = record { api_token_file = text "/etc/cirrusync/token"; account_id = none };
  discovery4 = record {
    enabled = true;
    providers = text "https://api.cloudflare.com/cdn-cgi/trace" ∷ text "https://api.ipify.org" ∷ [];
  };
  discovery6 = record { enabled = false; providers = text "https://api6.ipify.org" ∷ [] };
  records = [];
}

-- Where a token came from.
pub data TokenSource : Type 0 where
  environment file : TokenSource

unfoldable pub description : TokenSource → Text
description environment = text "CIRRUSYNC_TOKEN"
description file = text "the configured token file"

-- An `io::Error` is the text that it displays.
pub data ConfigError : Type 0 where
  read : Text → Text → ConfigError
  parse_failed : Option Text → Text → ConfigError
  config_too_large : Option Text → ConfigError
  insecure_config_file : Text → Text → ConfigError
  invalid_field : Text → Text → ConfigError
  token_metadata : Text → Text → ConfigError
  token_read : Text → Text → ConfigError
  insecure_token_file : Text → Text → ConfigError
  token_too_large : Text → ConfigError
  token_value_too_large : Text → ConfigError
  non_unicode_environment_token : ConfigError
  empty_token : Text → ConfigError
  invalid_token : Text → ConfigError
