-- ===== src/Cloudflare.antt =====
-- src/cloudflare.rs: the data of the API client. An operation is the text that the errors name.
pub mod Errors
pub mod Sanitize
pub mod Credentials
pub mod Client
pub mod Zones
pub mod Records
pub mod Frame
use cirrusync.Prelude.{ℕ, ◌*◌, Bool, Option, List}
use cirrusync.Prelude.Int.{ℤ}
use cirrusync.Prelude.Strings.{Text}

abbrev pub zone_page_size : ℕ
zone_page_size = 50

abbrev pub record_page_size : ℕ
record_page_size = 100

abbrev pub max_pages : ℕ
max_pages = 100

abbrev pub max_response_bytes : ℕ
max_response_bytes = 1024 * 1024

-- Seconds.
abbrev pub max_retry_after : ℕ
max_retry_after = 60 * 60

abbrev pub max_error_details : ℕ
max_error_details = 4

abbrev pub max_error_message_bytes : ℕ
max_error_message_bytes = 256

abbrev pub max_error_summary_bytes : ℕ
max_error_summary_bytes = 1024

pub record DnsRecord : Type 0 where
  pub id : Text
  pub record_type : Text
  pub name : Text
  pub content : Text
  pub ttl : ℕ
  pub proxied : Bool

pub record RecordPayload : Type 0 where
  pub record_type : Text
  pub name : Text
  pub content : Text
  pub ttl : ℕ
  pub proxied : Bool

pub record EditProbePayload : Type 0 where
  pub record_type : Text
  pub name : Text
  pub ttl : ℕ

pub record ApiErrorDetail : Type 0 where
  pub code : Option ℤ
  pub message : Text

-- Durations are seconds; the preformatted `retry_suffix` is computed where it is displayed.
pub data CloudflareError : Type 0 where
  invalid_base_url : CloudflareError
  invalid_token : CloudflareError
  account_id_required : CloudflareError
  invalid_account_id : CloudflareError
  user_token_account_mismatch : CloudflareError
  global_api_key_unsupported : CloudflareError
  unsupported_credential_type : CloudflareError
  invalid_timeout : CloudflareError
  client_build : Text → CloudflareError
  request_failed : Text → Text → CloudflareError
  authentication : ℕ → Text → List ApiErrorDetail → CloudflareError
  permission_denied : ℕ → Text → List ApiErrorDetail → CloudflareError
  rate_limited : Option ℕ → Text → List ApiErrorDetail → CloudflareError
  api : Text → ℕ → Option ℕ → Text → List ApiErrorDetail → CloudflareError
  malformed_response : Text → Text → CloudflareError
  response_too_large : Text → ℕ → CloudflareError
  missing_result : Text → CloudflareError
  zone_not_found : Text → CloudflareError
  ambiguous_zone : Text → CloudflareError
  zone_name_mismatch : Text → Text → Text → CloudflareError
  zone_id_mismatch : Text → Text → CloudflareError
  zone_not_active : Text → Text → CloudflareError
  record_not_found : Text → Text → CloudflareError
  ambiguous_record : Text → Text → CloudflareError
  token_inactive : Text → CloudflareError
  pagination_limit : Text → CloudflareError

pub data VerificationTarget : Type 0 where
  user : VerificationTarget
  account : Text → VerificationTarget
