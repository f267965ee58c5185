-- ===== src/Cloudflare/Client/Send/Classes.antt =====
-- What `send` makes of a reply, for src/cloudflare.rs.
use cirrusync.Prelude.{
  ℕ, ◌≡◌, refl, sym, ◌∙◌, inl, inr, true, false, Option, none, some, List, arith, ◌==◌, Result, ok,
  err, Bool-cases,
}
use cirrusync.Prelude.Strings.{Text}
use cirrusync.Http.{Response, replied, is_success}
use cirrusync.Cloudflare.{CloudflareError, missing_result, ApiErrorDetail}
use cirrusync.Cloudflare.Errors.{
  is_authentication_failure, is_permission_denied, is_rate_limited, is_not_found,
}
use cirrusync.Cloudflare.Client.{ResultInfo, ApiEnvelope, Decode, Api, Client}
use cirrusync.Cloudflare.Client.Send.{
  errors_of, parse_retry_after, read_response_body, status_error, envelope_error, of_result_field,
  of_envelope, of_body, of_response, interpret,
}

-- The error's class is the one of the status.
pub record Classified (status : ℕ) (e : CloudflareError) : Type 0 where
  pub authentication : is_authentication_failure e ≡ (status == 401)
  pub permission : is_permission_denied e ≡ (status == 403)
  pub rate : is_rate_limited e ≡ (status == 429)
  pub missing : is_not_found e ≡ (status == 404)

-- A success that is none is in no class.
plain :
    (status : ℕ) (e : CloudflareError)
    → is_success status ≡ true
    → is_authentication_failure e ≡ false
    → is_permission_denied e ≡ false
    → is_rate_limited e ≡ false
    → is_not_found e ≡ false
    → Classified status e
unfolding is_success
plain status e h a p r m = record {
  authentication = ground arith;
  permission = ground arith;
  rate = ground arith;
  missing = ground arith;
}

-- A result's one error.
err-injective : {A E : Type 0} (r : Result A E) (x e : E) → r ≡ err x → r ≡ err e → x ≡ e
err-injective r x e h k = cc

via :
    {A : Type 0} (status : ℕ) (r : Result A CloudflareError) (x e : CloudflareError)
    → r ≡ err x
    → r ≡ err e
    → Classified status x
    → Classified status e
via status r x e h k c = rw (← err-injective r x e h k) c

module _ (net : Api) (client : Client) (operation : Text) where
  status_error-Classified :
      (status : ℕ) (delay : Option ℕ) (errors : List ApiErrorDetail)
      → Classified status (status_error net client operation status delay errors)
  unfolding status_error is_authentication_failure is_permission_denied is_rate_limited is_not_found
  status_error-Classified status delay errors = record {
    authentication = ground arith;
    permission = ground arith;
    rate = ground arith;
    missing = ground arith;
  }

  envelope_error-Classified :
      (status : ℕ) (delay : Option ℕ) (errors : List ApiErrorDetail)
      → is_success status ≡ true
      → Classified status (envelope_error net client operation status delay errors)
  unfolding envelope_error is_success is_authentication_failure is_permission_denied is_rate_limited
      is_not_found
  envelope_error-Classified status delay errors h = plain status _ h refl refl refl (ground arith)

module _ (net : Api) (client : Client) {T : Type 0} (operation : Text) where
  of_result_field-Classified :
      (status : ℕ) (result : Option T) (info : Option ResultInfo) (e : CloudflareError)
      → is_success status ≡ true
      → of_result_field net client operation result info ≡ err e
      → Classified status e
  unfolding of_result_field is_authentication_failure is_permission_denied is_rate_limited
      is_not_found
  of_result_field-Classified status none info e h k =
      via status _ (missing_result operation) e refl k (plain status _ h refl refl refl refl)
  of_result_field-Classified status (some result) info e h k = cc

  of_envelope-Classified :
      (status : ℕ) (delay : Option ℕ) (parsed : Result (ApiEnvelope T) Text) (e : CloudflareError)
      → is_success status ≡ true
      → of_envelope net client operation status delay parsed ≡ err e
      → Classified status e
  unfolding of_envelope is_authentication_failure is_permission_denied is_rate_limited is_not_found
  of_envelope-Classified status delay (err x) e h k =
      via status _ _ e refl k (plain status _ h refl refl refl refl)
  of_envelope-Classified status delay (ok envelope) e h k = elim (Bool-cases envelope.success) [
    | inl good ↦
        of_result_field-Classified status envelope.result envelope.result_info e h
          (ground (arith, k, good))
    | inr bad ↦
        via status _ _ e (rw (of_envelope, bad) refl) k
          (envelope_error-Classified net client operation status delay envelope.errors h)
  ]

  of_body-Classified :
      (status : ℕ) (delay : Option ℕ) (parsed : Result (ApiEnvelope T) Text) (e : CloudflareError)
      → of_body net client operation status delay parsed ≡ err e
      → Classified status e
  unfolding of_body
  of_body-Classified status delay parsed e k = elim (Bool-cases (is_success status)) [
    | inl good ↦
        of_envelope-Classified status delay parsed e good (sym (rw (of_body, good) refl) ∙ k)
    | inr bad ↦
        via status _ _ e (rw (of_body, bad) refl) k
          (status_error-Classified net client operation status delay (errors_of parsed))
  ]

  -- Once a reply's body is read, an error says what its status means: an authentication failure
  -- for 401, a denied permission for 403, a rate limit for 429, a missing object for 404, and no
  -- other status has one of these classes.
  pub interpret-Classified :
      (decode : Decode T) (r : Response) (body : List ℕ) (e : CloudflareError)
      → read_response_body operation r ≡ ok body
      → interpret net client operation decode (replied r) ≡ err e
      → Classified r.status e
  unfolding interpret of_response of_body
  interpret-Classified decode r body e h k =
      of_body-Classified r.status (parse_retry_after r.retry_after) (decode body) e
        (sym (rw (interpret, of_response, h) refl) ∙ k)
