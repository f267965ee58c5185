-- ===== src/Cloudflare/Client.antt =====
-- src/cloudflare.rs: the client's state, `send`, and the monad of its requests. The HTTP exchange,
-- the deadline of an enclosing `timeout_at` and the JSON decoder are parameters.
pub mod Send
pub mod Done
use cirrusync.Prelude.{ℕ, Bool, true, false, Option, List, Result, ok, err}
use cirrusync.Prelude.Strings.{Text}
use cirrusync.Http.{Exchange}
use cirrusync.Cloudflare.{
  DnsRecord, RecordPayload, EditProbePayload, ApiErrorDetail, VerificationTarget,
}

-- A request by its method, its path segments below the API base, and its query or JSON body.
pub data Request : Type 0 where
  get : List Text → List (Text × Text) → Request
  patch : List Text → RecordPayload → Request
  patch_probe : List Text → EditProbePayload → Request
  post : List Text → RecordPayload → Request

-- Whether a request can change DNS.
unfoldable pub is_mutation : Request → Bool
is_mutation (get path query) = false
is_mutation (patch path payload) = true
is_mutation (patch_probe path payload) = true
is_mutation (post path payload) = true

pub record ResultInfo : Type 0 where
  pub total_pages : Option ℕ

pub record ApiEnvelope (T : Type 0) : Type 0 where
  pub success : Bool
  pub errors : List ApiErrorDetail
  pub result : Option T
  pub result_info : Option ResultInfo

pub record ApiResponse (T : Type 0) : Type 0 where
  pub result : T
  pub result_info : Option ResultInfo

pub record Zone : Type 0 where
  pub id : Text
  pub name : Text
  pub status : Text

pub record TokenVerification : Type 0 where
  pub status : Text

-- `serde_json::from_slice` at one result type: an envelope, or the text of the error.
abbrev pub Decode : Type 0 → Type 0
Decode T = List ℕ → Result (ApiEnvelope T) Text

-- `expiry d request w` is the world in which the deadline `d` has passed before the reply to
-- `request` was complete, if it does; `exchange` is the reply otherwise. `now` reads the clock.
pub record Api : Type 1 where
  pub World : Type 0
  pub exchange : Request → World → Exchange × World
  pub expiry : ℕ → Request → World → Option World
  pub now : World → ℕ × World
  pub decode_token : Decode TokenVerification
  pub decode_zone : Decode Zone
  pub decode_zones : Decode (List Zone)
  pub decode_record : Decode DnsRecord
  pub decode_records : Decode (List DnsRecord)
  pub canonical_reason : ℕ → Option Text

-- The part of `CloudflareClient` that does not change. The timeout is in nanoseconds.
pub record Client : Type 0 where
  pub api_token : Text
  pub verification_target : VerificationTarget
  pub request_timeout : ℕ

-- A request that was sent, and whether the cycle's `mutation_in_flight` flag was set meanwhile.
pub record Sent : Type 0 where
  pub request : Request
  pub flagged : Bool

-- The world, the shared zone cache, the `mutation_in_flight` flag of the `CycleControl`, and the
-- requests sent so far, the newest first. The program keeps no such list; it is there to be spoken
-- of.
pub record Session (W : Type 0) : Type 0 where
  pub world : W
  pub zone_cache : List (Text × Text)
  pub mutation_in_flight : Bool
  pub sent : List Sent

-- What an awaited call comes to: cut off by its deadline, failed, or done.
pub data Reply (A E : Type 0) : Type 0 where
  expired : Reply A E
  failed : E → Reply A E
  done : A → Reply A E

abbrev pub Call : Type 0 → Type 0 → Type 0 → Type 0
Call W A E = Session W → Reply A E × Session W

abbrev pub of_result : {A E : Type 0} → Result A E → Reply A E
of_result (ok a) = done a
of_result (err e) = failed e

abbrev pub map_reply_err : {A E F : Type 0} → Reply A E → (E → F) → Reply A F
map_reply_err expired g = expired
map_reply_err (failed e) g = failed (g e)
map_reply_err (done a) g = done a

module _ {W : Type 0} where
  abbrev pub bind_reply :
      {A B E : Type 0} → Reply A E → Session W → (A → Call W B E) → Reply B E × Session W
  bind_reply expired s f = (expired, s)
  bind_reply (failed e) s f = (failed e, s)
  bind_reply (done a) s f = f a s

  infixl 5 ◌>>=◌
  unfoldable pub ◌>>=◌ : {A B E : Type 0} → Call W A E → (A → Call W B E) → Call W B E
  ◌>>=◌ m f s = bind_reply (m s).0 (m s).1 f

  abbrev pub return : {A E : Type 0} → A → Call W A E
  return a s = (done a, s)

  abbrev pub fail : {A E : Type 0} → E → Call W A E
  fail e s = (failed e, s)

  abbrev pub lift : {A E : Type 0} → Result A E → Call W A E
  lift r s = (of_result r, s)

  -- `.map_err(g)` on the result of an awaited call.
  abbrev pub map_failed : {A E F : Type 0} → Call W A E → (E → F) → Call W A F
  map_failed m g s = (map_reply_err (m s).0 g, (m s).1)
