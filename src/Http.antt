-- ===== src/Http.antt =====
-- What src/public_ip.rs and src/cloudflare.rs see of an HTTP reply, and the loop by which both
-- collect a body under a byte limit.
use cirrusync.Prelude.{
  ℕ, ◌+◌, ◌≤◌, ◌≡◌, Bool, false, Option, none, some, List, [], ◌∷◌, ◌++◌, arith, ltb, if◌then◌else◌,
  length, length-append, Result, ok, err,
}
use cirrusync.Prelude.Strings.{Text}

-- One `response.chunk().await`: bytes, or the text of the transport's error.
pub data Chunk : Type 0 where
  bytes : List ℕ → Chunk
  broken : Text → Chunk

-- The Retry-After header stands as text, if it was sent and is visible ASCII.
pub record Response : Type 0 where
  pub status : ℕ
  pub content_length : Option ℕ
  pub retry_after : Option Text
  pub chunks : List Chunk

pub data Exchange : Type 0 where
  replied : Response → Exchange
  failed : Text → Exchange

-- `StatusCode::is_success` and `is_server_error`
unfoldable pub is_success : ℕ → Bool
is_success status = if ltb status 200 then false else ltb status 300

unfoldable pub is_server_error : ℕ → Bool
is_server_error status = if ltb status 500 then false else ltb status 600

pub data ReadError : Type 0 where
  transport : Text → ReadError
  too_large : ReadError

unfoldable pub announces_more : ℕ → Option ℕ → Bool
announces_more limit none = false
announces_more limit (some length) = ltb limit length

unfoldable pub read_chunks : ℕ → List ℕ → List Chunk → Result (List ℕ) ReadError
read_chunks limit body [] = ok body
read_chunks limit body (broken e ∷ rest) = err (transport e)
read_chunks limit body (bytes more ∷ rest) =
    let read = read_chunks limit (body ++ more) rest in
    if ltb limit (length body + length more) then err too_large else read

pub read_chunks-length :
    (limit : ℕ) (body : List ℕ) (chunks : List Chunk) (out : List ℕ)
    → length body ≤ limit
    → read_chunks limit body chunks ≡ ok out
    → length out ≤ limit
unfolding read_chunks
read_chunks-length limit body [] out h e = ground arith
read_chunks-length limit body (broken x ∷ rest) out h e = ground arith
read_chunks-length limit body (bytes more ∷ rest) out h e =
    ground (arith, length-append body more, read_chunks-length limit (body ++ more) rest out)
