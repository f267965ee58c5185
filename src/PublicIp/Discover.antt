-- ===== src/PublicIp/Discover.antt =====
-- src/public_ip.rs: `PublicIpClient::discover` and `query_provider`, over a clock and a network.
-- Times are nanoseconds. `get` is one `tokio::time::timeout` around one request and its body.
pub mod Keeps
pub mod Outcome
use cirrusync.Prelude.{
  ℕ, zero, ◌-◌, ◌/◌, ◌^◌, true, false, not, ◌||◌, Option, none, some, List, [], ◌∷◌, ◌++◌, min,
  ◌==◌, if◌then◌else◌, length, Result, ok, err,
}
use cirrusync.Prelude.Strings.{Text, text, text_eq}
use cirrusync.Http.{
  Exchange, replied, failed, is_success, ReadError, transport, too_large, announces_more,
  read_chunks,
}
use cirrusync.PublicIp.{
  IpAddr, AddressFamily, ProviderError, request, timed_out, http_status, response_too_large,
  non_utf8_response, ProviderFailure, PublicIpError, no_providers, all_providers_failed,
  deadline_exceeded, IpText,
}
use cirrusync.PublicIp.Response.{max_response_bytes, parse_provider_response}

pub data Timed : Type 0 where
  elapsed : Timed
  completed : Exchange → Timed

-- `Instant::now()`, a request under a timeout, and `Url::parse(..).origin().ascii_serialization()`.
pub record Network : Type 1 where
  pub World : Type 0
  pub now : World → ℕ × World
  pub get : Text → ℕ → World → Timed × World
  pub origin : Text → Option Text

pub record PublicIpClient : Type 0 where
  pub timeout : ℕ

of_read_error : ReadError → ProviderError
of_read_error (transport e) = request e
of_read_error too_large = response_too_large max_response_bytes

module _ (t : IpText) where
  read_body : AddressFamily → Result (List ℕ) ReadError → Result IpAddr ProviderError
  unfolding of_read_error
  read_body family (err e) = err (of_read_error e)
  read_body family (ok body) = elim (t.from_utf8 body) [
    | none ↦ err non_utf8_response
    | some response ↦ parse_provider_response t response family
  ]

  unfoldable pub query_provider : AddressFamily → Exchange → Result IpAddr ProviderError
  unfolding read_body
  query_provider family (failed e) = err (request e)
  query_provider family (replied r) =
      if not (is_success r.status)
      then err (http_status r.status)
      else if announces_more max_response_bytes r.content_length
      then err (response_too_large max_response_bytes)
      else read_body family (read_chunks max_response_bytes [] r.chunks)

module _ (t : IpText) (net : Network) where
  open net use {World, now, get, origin}

  unfoldable pub redact_provider_url : Text → Text
  redact_provider_url provider = elim (origin provider) [
    | none ↦ text "<invalid provider URL>"
    | some o ↦
        if text_eq o (text "null") then text "<invalid provider URL>" else o ++ text "/<redacted>"
  ]

  abbrev pub failure : Text → ProviderError → ProviderFailure
  failure provider e = record { provider = redact_provider_url provider; error = e }

  -- The outcome of one attempt: an address, or the failure that is recorded.
  pub attempt : AddressFamily → Text → Timed → Result IpAddr ProviderFailure
  attempt family provider elapsed = err (failure provider timed_out)
  attempt family provider (completed x) = elim (query_provider t family x) [
    | ok address ↦ ok address
    | err e ↦ err (failure provider e)
  ]

  -- `self.timeout.saturating_sub(started.elapsed()) / providers_left`
  pub attempt_timeout : ℕ → ℕ → ℕ → ℕ → ℕ
  attempt_timeout timeout started time left = (timeout - (time - started)) / min left (2 ^ 32 - 1)

  -- The loop over the providers that are left.
  pub attempts :
      ℕ
      → AddressFamily
      → ℕ
      → List Text
      → List ProviderFailure
      → World
      → Result IpAddr PublicIpError × World
  unfolding attempt_timeout attempt
  attempts timeout family started [] failures w = (err (all_providers_failed family failures), w)
  attempts timeout family started (provider ∷ rest) failures w =
      let (time, w1) = now w in
      let share = attempt_timeout timeout started time (length (provider ∷ rest)) in
      elim ((timeout - (time - started)) == 0 || share == 0) [
        | true ↦ (err (deadline_exceeded family failures), w1)
        | false ↦
            let (timed, w2) = get provider share w1 in
            elim (attempt family provider timed) [
              | ok address ↦ (ok address, w2)
              | err f ↦ attempts timeout family started rest (failures ++ (f ∷ [])) w2
            ]
      ]

  unfoldable pub discover :
      PublicIpClient → AddressFamily → List Text → World → Result IpAddr PublicIpError × World
  unfolding attempts
  discover client family [] w = (err (no_providers family), w)
  discover client family (provider ∷ rest) w =
      let (started, w1) = now w in attempts client.timeout family started (provider ∷ rest) [] w1
