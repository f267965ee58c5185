-- ===== src/Cloudflare/Credentials.antt =====
-- src/cloudflare.rs: which verification endpoint a credential uses, or why it is refused.
use cirrusync.Prelude.{
  ◌≡◌, ◌⊎◌, ◌≢◌, Bool, true, false, ◌&&◌, ◌||◌, Option, none, some, [], ◌∷◌, arith, ◌==◌, within,
  if◌then◌else◌, is_empty, all, Result, ok, err, ◌>>=◌, Result-cases, inl, inr,
}
use cirrusync.Prelude.Strings.{
  Text, text, len, trim, to_ascii_lowercase, starts_with, is_ascii_hexdigit, is_ascii_lowercase,
}
use cirrusync.Cloudflare.{
  CloudflareError, account_id_required, invalid_account_id, user_token_account_mismatch,
  global_api_key_unsupported, unsupported_credential_type, VerificationTarget, user, account,
}

-- `token.split_once('_')`, the part before.
before_underscore : Text → Option Text
before_underscore [] = none
before_underscore (c ∷ s) =
    let rest = before_underscore s in
    if c == b'_' then some [] else elim rest [ none ↦ none | some p ↦ some (c ∷ p) ]

unfoldable pub has_scannable_credential_prefix : Text → Bool
unfolding before_underscore
has_scannable_credential_prefix token = elim (before_underscore token) [
  | none ↦ false
  | some prefix ↦
      within 3 12 (len prefix) && starts_with prefix (text "cf") && all is_ascii_lowercase prefix
]

check_account_id : Text → Result (Option Text) CloudflareError
check_account_id value =
    if is_empty value
    then ok none
    else if len value == 32 && all is_ascii_hexdigit value
    then ok (some (to_ascii_lowercase value))
    else err invalid_account_id

-- The account ID trimmed, dropped when blank, checked and lowercased.
pub normalize_account_id : Option Text → Result (Option Text) CloudflareError
unfolding check_account_id
normalize_account_id none = ok none
normalize_account_id (some value) = check_account_id (trim value)

account_target : Option Text → Result VerificationTarget CloudflareError
account_target none = err account_id_required
account_target (some id) = ok (account id)

user_target : Option Text → Result VerificationTarget CloudflareError
user_target none = ok user
user_target (some id) = err user_token_account_mismatch

either_target : Option Text → Result VerificationTarget CloudflareError
either_target none = ok user
either_target (some id) = ok (account id)

target_for : Text → Option Text → Result VerificationTarget CloudflareError
unfolding account_target user_target either_target
target_for token account_id =
    if starts_with token (text "cfat_")
    then account_target account_id
    else if starts_with token (text "cfut_")
    then user_target account_id
    else if starts_with token (text "cfk_")
    then err global_api_key_unsupported
    else if has_scannable_credential_prefix token
    then err unsupported_credential_type
    else either_target account_id

unfoldable pub select_verification_target :
    Text → Option Text → Result VerificationTarget CloudflareError
unfolding normalize_account_id target_for
select_verification_target token account_id = do
  normalized ← normalize_account_id account_id
  target_for token normalized

-- What is known of an accepted pairing of a token with an account ID.
pub record MayVerify (token : Text) (normalized : Option Text) : Type 0 where
  pub no_global_key : starts_with token (text "cfk_") ≡ false
  pub known_prefix :
      (has_scannable_credential_prefix token ≡ false)
      ⊎ ((starts_with token (text "cfat_") || starts_with token (text "cfut_")) ≡ true)
  pub account_needed : (starts_with token (text "cfat_") ≡ false) ⊎ (normalized ≢ none)
  pub account_barred : (starts_with token (text "cfut_") ≡ false) ⊎ (normalized ≡ none)

abbrev pub target_of : Option Text → VerificationTarget
target_of none = user
target_of (some id) = account id

-- A token begins with one of the prefixes at most.
one_prefix :
    (token : Text)
    → starts_with token (text "cfk_") ≡ true
    → (starts_with token (text "cfat_") ≡ false) × (starts_with token (text "cfut_") ≡ false)
unfolding starts_with text
one_prefix [] h = cc
one_prefix (a ∷ []) h = ground arith
one_prefix (a ∷ b ∷ []) h = ground arith
one_prefix (a ∷ b ∷ c ∷ s) h = ground arith

one_owner :
    (token : Text)
    → starts_with token (text "cfat_") ≡ true
    → starts_with token (text "cfut_") ≡ false
unfolding starts_with text
one_owner [] h = cc
one_owner (a ∷ []) h = ground arith
one_owner (a ∷ b ∷ []) h = ground arith
one_owner (a ∷ b ∷ c ∷ s) h = ground arith

target_for-MayVerify :
    (token : Text) (normalized : Option Text) (target : VerificationTarget)
    → target_for token normalized ≡ ok target
    → (target ≡ target_of normalized) × MayVerify token normalized
unfolding target_for
target_for-MayVerify token none target h = ground (arith, one_prefix token, one_owner token)
target_for-MayVerify token (some id) target h = ground (arith, one_prefix token, one_owner token)

-- A credential is accepted only if it is no Global API Key and of no unknown Cloudflare kind, an
-- account-owned token comes with a valid account ID and a user-owned one with none; the target is
-- then the account's endpoint exactly when an account ID was given.
pub select_verification_target-MayVerify :
    (token : Text) (account_id : Option Text) (target : VerificationTarget)
    → select_verification_target token account_id ≡ ok target
    → (normalized : Option Text) × (normalize_account_id account_id ≡ ok normalized)
      × (target ≡ target_of normalized)
      × MayVerify token normalized
unfolding select_verification_target
select_verification_target-MayVerify token account_id target h =
    elim (Result-cases (normalize_account_id account_id)) [
      | inr (e, q) ↦ absurd (ground arith)
      | inl (normalized, q) ↦
          let r = target_for-MayVerify token normalized target (ground arith) in
          (normalized, q, r.0, r.1)
    ]

-- A normalized account ID is 32 bytes that were hexadecimal digits.
pub normalize_account_id-hex :
    (value id : Text)
    → normalize_account_id (some value) ≡ ok (some id)
    → (id ≡ to_ascii_lowercase (trim value))
      × (len (trim value) ≡ 32)
      × (all is_ascii_hexdigit (trim value) ≡ true)
unfolding normalize_account_id
normalize_account_id-hex value id h = ground arith
