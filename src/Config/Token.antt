-- ===== src/Config/Token.antt =====
-- src/config.rs: loading the API token. The answers of the operating system are `FileCalls`.
pub mod Laws
use Prim.Native.Nat.{bit_and}
use cirrusync.Prelude.{
  ℕ, ◌-◌, ◌^◌, Bool, true, false, ◌&&◌, ◌||◌, not, ◌++◌, ltb, ◌==◌, if◌then◌else◌, is_empty, any,
  Result, ok, err, ◌>>=◌, ◌>>◌, ensure, reject, map_err,
}
use cirrusync.Prelude.Strings.{Text, text, len, trim, is_whitespace, is_control, decimal, octal4}
use cirrusync.Config.{
  Config, ConfigError, TokenSource, environment, file, description, token_metadata, token_read,
  insecure_token_file, token_too_large, token_value_too_large, non_unicode_environment_token,
  empty_token, invalid_token, max_token_bytes,
}
use cirrusync.Config.Load.{
  Metadata, IoError, is_eloop, AclAnswer, absent, present, acl_failed, FileCalls,
}

-- The secret is the token's text.
pub secret_from_text : Text → TokenSource → Result Text ConfigError
secret_from_text contents source = do
  reject (ltb max_token_bytes (len contents)) (token_value_too_large (description source))
  reject (is_empty (trim contents)) (empty_token (description source))
  reject (any (λ c. is_whitespace c || is_control c) (trim contents))
      (invalid_token (description source))
  ok (trim contents)

token_open_error : Text → IoError → ConfigError
token_open_error path e =
    if is_eloop e
    then insecure_token_file path (text "symbolic links are not accepted")
    else token_read path e.shown

validate_opened_token_path :
    Text → Metadata → Result Metadata IoError → Result (Unit {0}) ConfigError
validate_opened_token_path path opened answer = do
  named ← map_err answer (λ e. token_metadata path e.shown)
  reject named.is_symlink (insecure_token_file path (text "symbolic links are not accepted"))
  reject (not (named.dev == opened.dev) || not (named.ino == opened.ino))
      (insecure_token_file path (text "path changed while the token file was being opened"))

reject_token_access_acl : Text → AclAnswer → Result (Unit {0}) ConfigError
reject_token_access_acl path absent = ok tt
reject_token_access_acl path present =
    err (insecure_token_file path (text "extended POSIX access ACLs are not accepted"))
reject_token_access_acl path (acl_failed e) = err (token_metadata path e)

-- `!0o640` of a `u32`
abbrev pub outside_0640 : ℕ
outside_0640 = 2 ^ 32 - 1 - 0o640

pub bad_mode : ℕ → Bool
bad_mode mode = not (bit_and mode outside_0640 == 0) || bit_and mode 0o400 == 0

pub group_readable : ℕ → Bool
group_readable mode = not (bit_and mode 0o040 == 0)

-- The Linux branch.
validate_token_metadata : Text → Metadata → ℕ → AclAnswer → Result (Unit {0}) ConfigError
unfolding bad_mode group_readable reject_token_access_acl
validate_token_metadata path m effective_group acl = do
  let mode = bit_and m.mode 0o7777
  ensure m.is_file (insecure_token_file path (text "path must refer to a regular file"))
  reject (bad_mode mode) (
      insecure_token_file path
        (text "mode " ++ octal4 mode ++ text " is too permissive; use 0600 or root:service 0640"))
  ensure (m.uid == 0) (
      insecure_token_file path (text "mode " ++ octal4 mode ++ text " token must be owned by root"))
  reject (group_readable mode && not (m.gid == effective_group)) (
      insecure_token_file path (
        text "group-readable token GID "
        ++ decimal m.gid
        ++ text " does not match effective GID "
        ++ decimal effective_group))
  reject_token_access_acl path acl

unfoldable pub load_token_file : Text → FileCalls → Result Text ConfigError
unfolding token_open_error validate_opened_token_path validate_token_metadata secret_from_text
load_token_file path calls = do
  map_err calls.opened (token_open_error path)
  m ← map_err calls.metadata (λ e. token_metadata path e.shown)
  validate_opened_token_path path m calls.named
  validate_token_metadata path m calls.effective_group calls.acl
  reject (ltb max_token_bytes m.size) (token_too_large path)
  contents ← map_err calls.contents (λ e. token_read path e.shown)
  reject (ltb max_token_bytes (len contents)) (token_too_large path)
  secret_from_text contents file

-- `CIRRUSYNC_TOKEN`: not set, set to text, or set to bytes that are no text.
pub data EnvToken : Type 0 where
  unset non_unicode : EnvToken
  value : Text → EnvToken

unfoldable pub load_api_token : Config → EnvToken → FileCalls → Result Text ConfigError
unfolding load_token_file
load_api_token config unset calls = load_token_file config.cloudflare.api_token_file calls
load_api_token config non_unicode calls = err non_unicode_environment_token
load_api_token config (value v) calls = secret_from_text v environment
