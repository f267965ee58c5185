-- ===== src/Cloudflare/Zones.antt =====
-- src/cloudflare.rs: token verification, zone resolution and the zone cache.
pub mod Cache
use cirrusync.Prelude.{
  ℕ, zero, suc, ◌+◌, Bool, true, false, not, Option, none, some, List, [], ◌∷◌, ◌++◌, if◌then◌else◌,
  length, Result, ok, err,
}
use cirrusync.Prelude.Strings.{
  Text, text, text_eq, to_ascii_lowercase, eq_ignore_ascii_case, decimal,
}
use cirrusync.Cloudflare.{
  CloudflareError, authentication, permission_denied, zone_not_found, ambiguous_zone,
  zone_name_mismatch, zone_id_mismatch, zone_not_active, token_inactive, pagination_limit,
  VerificationTarget, user, account, zone_page_size, max_pages, max_error_message_bytes,
  max_error_summary_bytes,
}
use cirrusync.Cloudflare.Errors.{is_not_found}
use cirrusync.Cloudflare.Sanitize.{sanitize_and_truncate, sanitize_remote_value}
use cirrusync.Cloudflare.Client.{
  Request, get, Zone, TokenVerification, Api, Client, Session, Reply, expired, failed, done, Call,
  ◌>>=◌, return, fail, lift, map_failed,
}
use cirrusync.Cloudflare.Client.Send.{send, has_next_page}

abbrev pub ZoneCache : Type 0
ZoneCache = List (Text × Text)

unfoldable pub cache_get : Text → ZoneCache → Option Text
cache_get key [] = none
cache_get key ((k, id) ∷ rest) = if text_eq k key then some id else cache_get key rest

pub cache_insert : Text → Text → ZoneCache → ZoneCache
cache_insert key id [] = (key, id) ∷ []
cache_insert key id ((k, old) ∷ rest) =
    if text_eq k key then (k, id) ∷ rest else (k, old) ∷ cache_insert key id rest

-- `retain(|_, cached| !cached.eq_ignore_ascii_case(zone_id))`
unfoldable pub cache_forget : Text → ZoneCache → ZoneCache
cache_forget zone_id [] = []
cache_forget zone_id ((k, id) ∷ rest) =
    if eq_ignore_ascii_case id zone_id
    then cache_forget zone_id rest
    else (k, id) ∷ cache_forget zone_id rest

unfoldable pub contextualize_account_verification_error : CloudflareError → CloudflareError
contextualize_account_verification_error (authentication status message errors) =
    authentication status
      (sanitize_and_truncate
        (message ++ text "; verify that cloudflare.account_id is the token's owning account")
        max_error_summary_bytes)
      errors
contextualize_account_verification_error (permission_denied status message errors) =
    permission_denied status
      (sanitize_and_truncate
        (message ++ text "; verify that cloudflare.account_id is the token's owning account")
        max_error_summary_bytes)
      errors
contextualize_account_verification_error other = other

unfoldable pub explicit_key : Text → Text → Text
explicit_key zone_id zone_name =
    text "id:" ++ to_ascii_lowercase zone_id ++ text ":" ++ to_ascii_lowercase zone_name

unfoldable pub named_key : Text → Text
named_key zone_name = text "name:" ++ to_ascii_lowercase zone_name

pub active : Text → Bool
active status = eq_ignore_ascii_case status (text "active")

-- The active and the first inactive match found so far.
abbrev pub Matches : Type 0
Matches = Option Text × Option Text

first_inactive : Option Text → Text → Option Text
first_inactive none status = some status
first_inactive (some old) status = some old

module _ (net : Api) (client : Client) where
  remote_value : Text → Text
  remote_value value = sanitize_remote_value value client.api_token max_error_message_bytes

  -- The `for` loop over the zones of a page.
  match_zones : Text → Matches → List Zone → Result Matches CloudflareError
  unfolding first_inactive remote_value active
  match_zones zone_name (exact, inactive) [] = ok (exact, inactive)
  match_zones zone_name (none, inactive) (zone ∷ rest) =
      let skip = match_zones zone_name (none, inactive) rest in
      let hit = match_zones zone_name (some zone.id, inactive) rest in
      let dormant =
        match_zones zone_name (none, first_inactive inactive (remote_value zone.status)) rest in
      if not (eq_ignore_ascii_case zone.name zone_name)
      then skip
      else if active zone.status
      then hit
      else dormant
  match_zones zone_name (some id, inactive) (zone ∷ rest) =
      let skip = match_zones zone_name (some id, inactive) rest in
      let dormant =
        match_zones zone_name (some id, first_inactive inactive (remote_value zone.status)) rest in
      if not (eq_ignore_ascii_case zone.name zone_name)
      then skip
      else if active zone.status
      then err (ambiguous_zone zone_name)
      else dormant

  -- What the pages come to.
  resolved : Text → Matches → Result Text CloudflareError
  resolved zone_name (some id, inactive) = ok id
  resolved zone_name (none, some status) = err (zone_not_active zone_name status)
  resolved zone_name (none, none) = err (zone_not_found zone_name)

  -- The tests of an explicit zone's reply.
  check_zone : Text → Text → Zone → Result Text CloudflareError
  unfolding remote_value active
  check_zone zone_name zone_id zone =
      if not (eq_ignore_ascii_case zone.name zone_name)
      then err (zone_name_mismatch zone_name (remote_value zone.name) zone_id)
      else if not (eq_ignore_ascii_case zone.id zone_id)
      then err (zone_id_mismatch zone_id (remote_value zone.id))
      else if not (active zone.status)
      then err (zone_not_active zone_name (remote_value zone.status))
      else ok zone_id

  verified : TokenVerification → Result (Unit {0}) CloudflareError
  unfolding remote_value active
  verified v = if active v.status then ok tt else err (token_inactive (remote_value v.status))

module _ (net : Api) where
  open net use {World}

  unfoldable pub insert_cache : Text → Text → Call World Text CloudflareError
  insert_cache key id s = (done id, record s { zone_cache = cache_insert key id s.zone_cache })

  unfoldable pub forget_if : Bool → Text → Session World → Session World
  forget_if true zone_id s = record s { zone_cache = cache_forget zone_id s.zone_cache }
  forget_if false zone_id s = s

  unfoldable pub invalidate_zone_after_not_found :
      Text → CloudflareError → Session World → Session World
  unfolding forget_if
  invalidate_zone_after_not_found zone_id error s = forget_if (is_not_found error) zone_id s

  -- A request whose error is looked at before it is returned.
  unfoldable pub forget_on_error :
      {A : Type 0}
      → Text
      → Reply A CloudflareError × Session World
      → Reply A CloudflareError × Session World
  forget_on_error zone_id (expired, s) = (expired, s)
  forget_on_error zone_id (failed e, s) = (failed e, invalidate_zone_after_not_found zone_id e s)
  forget_on_error zone_id (done a, s) = (done a, s)

  unfoldable pub checking_zone :
      {A : Type 0} → Text → Call World A CloudflareError → Call World A CloudflareError
  unfolding forget_on_error
  checking_zone zone_id m s = forget_on_error zone_id (m s)

module _ (net : Api) (client : Client) (limit : Option ℕ) where
  open net use {World, decode_token, decode_zone, decode_zones}

  verify_path : VerificationTarget → List Text
  verify_path user = text "user" ∷ text "tokens" ∷ text "verify" ∷ []
  verify_path (account id) = text "accounts" ∷ id ∷ text "tokens" ∷ text "verify" ∷ []

  verification_error : VerificationTarget → CloudflareError → CloudflareError
  verification_error user e = e
  verification_error (account id) e = contextualize_account_verification_error e

  unfoldable pub verify_token : Call World (Unit {0}) CloudflareError
  unfolding verify_path verification_error verified
  verify_token = do
    response ←
        map_failed
          (send net client limit (text "verifying the API token") decode_token
            (get (verify_path client.verification_target) []))
          (verification_error client.verification_target)
    lift (verified net client response.result)

  unfoldable pub ask_explicit : Text → Text → Call World Text CloudflareError
  unfolding check_zone insert_cache
  ask_explicit zone_name zone_id = do
    response ←
        send net client limit (text "verifying an explicit zone ID") decode_zone
          (get (text "zones" ∷ zone_id ∷ []) [])
    id ← lift (check_zone net client zone_name zone_id response.result)
    insert_cache net (explicit_key zone_id zone_name) id

  -- A cached answer, or the one that `ask` gets.
  unfoldable pub cached_or :
      Option Text → Call World Text CloudflareError → Call World Text CloudflareError
  cached_or none ask = ask
  cached_or (some id) ask = return id

  unfoldable pub resolve_explicit_zone_id : Text → Text → Call World Text CloudflareError
  unfolding ask_explicit cached_or
  resolve_explicit_zone_id zone_name zone_id s =
      cached_or (cache_get (explicit_key zone_id zone_name) s.zone_cache)
        (ask_explicit zone_name zone_id) s

  unfoldable pub zone_query : Text → ℕ → Request
  zone_query zone_name page = get (text "zones" ∷ []) (
      (text "name", zone_name)
      ∷ (text "page", decimal page)
      ∷ (text "per_page", decimal zone_page_size)
      ∷ [])

  -- The loop over the pages, with the number of pages that may still be asked for.
  unfoldable pub zone_pages : ℕ → Text → ℕ → Matches → Call World Text CloudflareError
  unfolding match_zones resolved insert_cache zone_query
  zone_pages zero zone_name page found = fail (pagination_limit (text "looking up a zone"))
  zone_pages (suc left) zone_name page found = do
    response ←
        send net client limit (text "looking up a zone") decode_zones (zone_query zone_name page)
    found' ← lift (match_zones net client zone_name found response.result)
    let next = zone_pages left zone_name (page + 1) found'
    let last : Call World Text CloudflareError = do
      id ← lift (resolved net client zone_name found')
      insert_cache net (named_key zone_name) id
    if has_next_page page (length response.result) zone_page_size response.result_info
        then next
        else last

  unfoldable pub resolve_named_zone_id : Text → Call World Text CloudflareError
  unfolding zone_pages cached_or
  resolve_named_zone_id zone_name s =
      cached_or (cache_get (named_key zone_name) s.zone_cache)
        (zone_pages max_pages zone_name 1 (none, none)) s

  unfoldable pub resolve_zone_id : Text → Option Text → Call World Text CloudflareError
  unfolding resolve_explicit_zone_id resolve_named_zone_id
  resolve_zone_id zone_name none = resolve_named_zone_id zone_name
  resolve_zone_id zone_name (some zone_id) = resolve_explicit_zone_id zone_name zone_id
