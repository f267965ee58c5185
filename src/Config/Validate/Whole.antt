-- ===== src/Config/Validate/Whole.antt =====
-- What `Config::validate` accepts, as a whole.
use cirrusync.Prelude.{◌≤◌, ◌≡◌, ◌↔◌, true, false, [], arith, is_empty, length, ok}
use cirrusync.Prelude.Strings.{text}
use cirrusync.Config.{
  Config, min_interval_seconds, max_interval_seconds, min_request_timeout_seconds,
  max_request_timeout_seconds, max_records,
}
use cirrusync.Config.Validate.{ParseUrl, is_absolute, validate}
use cirrusync.Config.Validate.Records.{
  IsIdentifier, validate_identifier-ok_iff, validate_range-ok_iff, IsDiscovery,
  validate_discovery-ok_iff, AreRecords, validate_records-ok_iff,
}

pub record IsConfig (parse_url : ParseUrl) (config : Config) : Type 0 where
  pub interval_low : min_interval_seconds ≤ config.interval_seconds
  pub interval_high : config.interval_seconds ≤ max_interval_seconds
  pub timeout_low : min_request_timeout_seconds ≤ config.request_timeout_seconds
  pub timeout_high : config.request_timeout_seconds ≤ max_request_timeout_seconds
  pub absolute_token : is_absolute config.cloudflare.api_token_file ≡ true
  pub account : IsIdentifier config.cloudflare.account_id
  pub some_record : is_empty config.records ≡ false
  pub few_records : length config.records ≤ max_records
  pub discovery4 : IsDiscovery parse_url config.discovery4
  pub discovery6 : IsDiscovery parse_url config.discovery6
  pub records : AreRecords config [] config.records

-- `validate` accepts exactly the configurations in which the two durations are in range, the token
-- path is absolute, the account ID and the two discovery sections are well formed, and the 1 to 50
-- records are each valid, of an enabled family and of different keys.
pub validate-ok_iff :
    (parse_url : ParseUrl) (config : Config)
    → (validate parse_url config ≡ ok tt) ↔ IsConfig parse_url config
unfolding validate
validate-ok_iff parse_url config = ground (
  arith,
  validate_range-ok_iff (text "interval_seconds") config.interval_seconds min_interval_seconds
      max_interval_seconds,
  validate_range-ok_iff (text "request_timeout_seconds") config.request_timeout_seconds
      min_request_timeout_seconds max_request_timeout_seconds,
  validate_identifier-ok_iff (text "cloudflare.account_id") config.cloudflare.account_id,
  validate_discovery-ok_iff parse_url (text "ipv4") config.discovery4,
  validate_discovery-ok_iff parse_url (text "ipv6") config.discovery6,
  validate_records-ok_iff config 0 [] config.records,
)
