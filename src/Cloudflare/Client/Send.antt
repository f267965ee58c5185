-- ===== src/Cloudflare/Client/Send.antt =====
-- src/cloudflare.rs: `send`, `read_response_body` and the pagination and retry helpers.
pub mod Classes
use cirrusync.Prelude.{
  ℕ, zero, suc, ◌+◌, ◌-◌, ◌*◌, ◌^◌, Bool, true, false, not, Option, none, some, List, [], ◌∷◌, min,
  ltb, ◌==◌, if◌then◌else◌, Result, ok, err,
}
use cirrusync.Prelude.Strings.{Text, trim, is_ascii_digit}
use cirrusync.Http.{
  Response, Exchange, replied, failed, is_success, ReadError, transport, too_large, announces_more,
  read_chunks,
}
use cirrusync.Cloudflare.{
  CloudflareError, request_failed, authentication, permission_denied, rate_limited, api,
  malformed_response, response_too_large, missing_result, ApiErrorDetail, max_response_bytes,
  max_retry_after, max_error_summary_bytes,
}
use cirrusync.Cloudflare.Sanitize.{prepare_error_details, sanitize_remote_value}
use cirrusync.Cloudflare.Client.{
  Request, ResultInfo, ApiEnvelope, ApiResponse, Decode, Api, Client, Session, expired, Call,
  of_result,
}

next_by_total : ℕ → ℕ → ℕ → Option ℕ → Bool
next_by_total page count size none = count == size
next_by_total page count size (some total) = ltb page total

unfoldable pub has_next_page : ℕ → ℕ → ℕ → Option ResultInfo → Bool
unfolding next_by_total
has_next_page page count size none = count == size
has_next_page page count size (some info) = next_by_total page count size info.total_pages

-- `parse::<u64>()`: an optional plus sign, digits, and no overflow on the way.
digits_value : ℕ → Text → Option ℕ
digits_value n [] = some n
digits_value n (c ∷ s) =
    let m = n * 10 + (c - b'0') in
    let rest = digits_value m s in
    if not (is_ascii_digit c) then none else if ltb (2 ^ 64 - 1) m then none else rest

unsigned_digits : Text → Option ℕ
unfolding digits_value
unsigned_digits [] = none
unsigned_digits (c ∷ s) = digits_value 0 (c ∷ s)

parse_u64 : Text → Option ℕ
unfolding unsigned_digits
parse_u64 [] = none
parse_u64 (c ∷ s) = if c == b'+' then unsigned_digits s else unsigned_digits (c ∷ s)

unfoldable pub parse_retry_after : Option Text → Option ℕ
unfolding parse_u64
parse_retry_after none = none
parse_retry_after (some header) = elim (parse_u64 (trim header)) [
  | none ↦ none
  | some delay ↦ some (min delay max_retry_after)
]

unfoldable pub of_read_error : Text → ReadError → CloudflareError
of_read_error operation (transport e) = request_failed operation e
of_read_error operation too_large = response_too_large operation max_response_bytes

unfoldable pub read_response_body : Text → Response → Result (List ℕ) CloudflareError
unfolding of_read_error
read_response_body operation r =
    if announces_more max_response_bytes r.content_length
    then err (response_too_large operation max_response_bytes)
    else elim (read_chunks max_response_bytes [] r.chunks) [
      | ok body ↦ ok body
      | err e ↦ err (of_read_error operation e)
    ]

abbrev pub errors_of : {T : Type 0} → Result (ApiEnvelope T) Text → List ApiErrorDetail
errors_of (ok envelope) = envelope.errors
errors_of (err e) = []

module _ (net : Api) (client : Client) (operation : Text) where
  open net use {canonical_reason}

  details : List ApiErrorDetail → ℕ → Text × List ApiErrorDetail
  details errors status = prepare_error_details canonical_reason errors status client.api_token

  -- What a reply of an unsuccessful status is, or an envelope that says so.
  pub status_error : ℕ → Option ℕ → List ApiErrorDetail → CloudflareError
  unfolding details
  status_error status retry_after errors =
      let (message, kept) = details errors status in
      if status == 401
      then authentication status message kept
      else if status == 403
      then permission_denied status message kept
      else if status == 429
      then rate_limited retry_after message kept
      else api operation status retry_after message kept

  -- A successful status with an envelope that denies success.
  pub envelope_error : ℕ → Option ℕ → List ApiErrorDetail → CloudflareError
  unfolding details
  envelope_error status retry_after errors =
      let (message, kept) = details errors status in api operation status retry_after message kept

module _ (net : Api) (client : Client) {T : Type 0} (operation : Text) where
  pub of_result_field : Option T → Option ResultInfo → Result (ApiResponse T) CloudflareError
  of_result_field none info = err (missing_result operation)
  of_result_field (some result) info = ok (record { result = result; result_info = info })

  pub of_envelope :
      ℕ → Option ℕ → Result (ApiEnvelope T) Text → Result (ApiResponse T) CloudflareError
  unfolding envelope_error of_result_field
  of_envelope status retry_after (err e) = err (
      malformed_response operation
        (sanitize_remote_value e client.api_token max_error_summary_bytes))
  of_envelope status retry_after (ok envelope) =
      if not envelope.success
      then err (envelope_error net client operation status retry_after envelope.errors)
      else of_result_field envelope.result envelope.result_info

  pub of_body : ℕ → Option ℕ → Result (ApiEnvelope T) Text → Result (ApiResponse T) CloudflareError
  unfolding of_envelope status_error
  of_body status retry_after parsed =
      if not (is_success status)
      then err (status_error net client operation status retry_after (errors_of parsed))
      else of_envelope status retry_after parsed

  pub of_response : Decode T → Response → Result (ApiResponse T) CloudflareError
  unfolding of_body
  of_response decode r = elim (read_response_body operation r) [
    | err e ↦ err e
    | ok body ↦ of_body r.status (parse_retry_after r.retry_after) (decode body)
  ]

  -- All of `send` behind the exchange.
  unfoldable pub interpret : Decode T → Exchange → Result (ApiResponse T) CloudflareError
  unfolding of_response
  interpret decode (failed e) = err (request_failed operation e)
  interpret decode (replied r) = of_response decode r

module _ (net : Api) where
  open net use {World, exchange, expiry}

  abbrev pub record_sent : Request → World → Session World → Session World
  record_sent request w s = record s {
    world = w;
    sent = record { request = request; flagged = s.mutation_in_flight } ∷ s.sent;
  }

  unfoldable pub answered : Request → Session World → Option Exchange × Session World
  answered request s = let (x, w) = exchange request s.world in (some x, record_sent request w s)

  -- One exchange, unless the deadline passes first.
  unfoldable pub await_exchange :
      Option ℕ → Request → Session World → Option Exchange × Session World
  unfolding answered
  await_exchange none request s = answered request s
  await_exchange (some deadline) request s = elim (expiry deadline request s.world) [
    | some w ↦ (none, record_sent request w s)
    | none ↦ answered request s
  ]

  module _ (client : Client) (limit : Option ℕ) where
    unfoldable pub send :
        {T : Type 0} → Text → Decode T → Request → Call World (ApiResponse T) CloudflareError
    unfolding interpret
    send operation decode request s =
        let (x, s') = await_exchange limit request s in
        (
          elim x [ none ↦ expired | some e ↦ of_result (interpret net client operation decode e) ],
          s',
        )
