-- ===== src/Cloudflare/Errors.antt =====
-- src/cloudflare.rs: how errors are classified and displayed.
use cirrusync.Prelude.{ℕ, Bool, true, false, ◌||◌, Option, none, some, [], ◌++◌, ◌==◌}
use cirrusync.Prelude.Strings.{Text, text, decimal}
use cirrusync.Http.{is_server_error}
use cirrusync.Cloudflare.{
  CloudflareError, invalid_base_url, invalid_token, account_id_required, invalid_account_id,
  user_token_account_mismatch, global_api_key_unsupported, unsupported_credential_type,
  invalid_timeout, client_build, request_failed, authentication, permission_denied, rate_limited,
  api, malformed_response, response_too_large, missing_result, zone_not_found, ambiguous_zone,
  zone_name_mismatch, zone_id_mismatch, zone_not_active, record_not_found, ambiguous_record,
  token_inactive, pagination_limit,
}

unfoldable pub retry_after : CloudflareError → Option ℕ
retry_after (rate_limited delay m es) = delay
retry_after (api op status delay m es) = delay
retry_after _ = none

unfoldable pub is_authentication_failure : CloudflareError → Bool
is_authentication_failure (authentication status m es) = true
is_authentication_failure (token_inactive status) = true
is_authentication_failure _ = false

unfoldable pub is_permission_denied : CloudflareError → Bool
is_permission_denied (permission_denied status m es) = true
is_permission_denied _ = false

unfoldable pub is_rate_limited : CloudflareError → Bool
is_rate_limited (rate_limited delay m es) = true
is_rate_limited _ = false

unfoldable pub is_not_found : CloudflareError → Bool
is_not_found (api op status delay m es) = status == 404
is_not_found _ = false

unfoldable pub is_transient : CloudflareError → Bool
is_transient (request_failed op e) = true
is_transient (rate_limited delay m es) = true
is_transient (malformed_response op reason) = true
is_transient (response_too_large op limit) = true
is_transient (missing_result op) = true
is_transient (api op status delay m es) = is_server_error status || status == 408 || status == 409
is_transient _ = false

retry_suffix : Option ℕ → Text
retry_suffix none = []
retry_suffix (some delay) = text " (retry after " ++ decimal delay ++ text "s)"

-- `StatusCode`'s display; the reason phrases are the http crate's.
module _ (canonical_reason : ℕ → Option Text) where
  display_status : ℕ → Text
  display_status status = decimal status ++ text " " ++ (elim (canonical_reason status) [
    | none ↦ text "<unknown status code>"
    | some reason ↦ reason
  ])

  -- `CloudflareError::to_string`.
  pub display : CloudflareError → Text
  unfolding display_status retry_suffix
  display invalid_base_url = text "invalid Cloudflare API base URL"
  display invalid_token = text "Cloudflare API token contains invalid characters"
  display account_id_required =
      text
        "Cloudflare account API tokens require cloudflare.account_id (the 32-character Account ID)"
  display invalid_account_id =
      text "Cloudflare account ID must be exactly 32 hexadecimal characters"
  display user_token_account_mismatch =
      text "cloudflare.account_id must be omitted when using a cfut_ user API token"
  display global_api_key_unsupported =
      text "Cloudflare Global API Keys are unsupported; use a restricted API token"
  display unsupported_credential_type =
      text "unsupported Cloudflare credential type; use a cfut_ or cfat_ API token"
  display invalid_timeout = text "Cloudflare request timeout must be nonzero"
  display (client_build e) = text "could not construct Cloudflare HTTP client: " ++ e
  display (request_failed op e) = text "Cloudflare request failed while " ++ op ++ text ": " ++ e
  display (authentication status m es) =
      text "Cloudflare authentication failed (" ++ display_status status ++ text "): " ++ m
  display (permission_denied status m es) =
      text "Cloudflare permission denied (" ++ display_status status ++ text "): " ++ m
  display (rate_limited delay m es) =
      text "Cloudflare rate limit exceeded" ++ retry_suffix delay ++ text ": " ++ m
  display (api op status delay m es) =
      text "Cloudflare API error while "
      ++ op
      ++ text " ("
      ++ display_status status
      ++ text ")"
      ++ retry_suffix delay
      ++ text ": "
      ++ m
  display (malformed_response op reason) =
      text "malformed Cloudflare response while " ++ op ++ text ": " ++ reason
  display (response_too_large op limit) =
      text "Cloudflare response exceeded the "
      ++ decimal limit
      ++ text "-byte safety limit while "
      ++ op
  display (missing_result op) = text "Cloudflare response omitted its result while " ++ op
  display (zone_not_found zone) = text "Cloudflare zone not found: " ++ zone
  display (ambiguous_zone zone) =
      text "multiple Cloudflare zones matched " ++ zone ++ text "; configure an explicit zone_id"
  display (zone_name_mismatch expected actual zone_id) =
      text "Cloudflare zone ID "
      ++ zone_id
      ++ text " belongs to "
      ++ actual
      ++ text ", not configured zone "
      ++ expected
  display (zone_id_mismatch expected actual) =
      text "Cloudflare explicit-zone response returned ID "
      ++ actual
      ++ text ", expected "
      ++ expected
  display (zone_not_active zone status) =
      text "Cloudflare zone " ++ zone ++ text " is not active (status: " ++ status ++ text ")"
  display (record_not_found record_type name) =
      text "Cloudflare "
      ++ record_type
      ++ text " record "
      ++ name
      ++ text " does not exist and creation is disabled"
  display (ambiguous_record record_type name) =
      text "multiple Cloudflare " ++ record_type ++ text " records matched " ++ name
  display (token_inactive status) =
      text "Cloudflare API token is not active (status: " ++ status ++ text ")"
  display (pagination_limit op) =
      text "Cloudflare pagination exceeded the safety limit while " ++ op
