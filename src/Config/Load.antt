-- ===== src/Config/Load.antt =====
-- src/config.rs: opening, parsing and canonicalizing a configuration. The operating system's
-- answers to the calls of `open_config_file` and the TOML parser are parameters.
pub mod Laws
use Prim.Native.Nat.{bit_and}
use cirrusync.Prelude.{
  ℕ, zero, suc, ◌+◌, Bool, true, false, ◌&&◌, ◌||◌, not, Option, none, some, List, [], ◌∷◌, ◌++◌,
  map, min, ltb, ◌==◌, if◌then◌else◌, is_empty, take, Result, ok, ◌>>=◌, ◌>>◌, ensure, reject,
  map_err,
}
use cirrusync.Prelude.Strings.{Text, text, len, trim, to_ascii_lowercase, decimal, octal4, utf8}
use cirrusync.Config.{
  Config, IpDiscoveryConfig, RecordConfig, ConfigError, read, parse_failed, config_too_large,
  insecure_config_file, max_config_bytes,
}
use cirrusync.Config.Names.{canonical_dns_name}
use cirrusync.Config.Validate.{ParseUrl, validate}

-- `fs::Metadata`, as far as the program reads it.
pub record Metadata : Type 0 where
  pub is_file : Bool
  pub is_dir : Bool
  pub is_symlink : Bool
  pub dev : ℕ
  pub ino : ℕ
  pub nlink : ℕ
  pub mode : ℕ
  pub uid : ℕ
  pub gid : ℕ
  pub size : ℕ

-- `io::ErrorKind`, as far as the program tells the kinds apart.
pub data ErrorKind : Type 0 where
  not_found already_exists would_block other : ErrorKind

pub record IoError : Type 0 where
  pub kind : ErrorKind
  pub raw_os_error : Option ℕ
  pub shown : Text

-- `fgetxattr` of the POSIX access ACL.
pub data AclAnswer : Type 0 where
  absent : AclAnswer
  present : AclAnswer
  acl_failed : Text → AclAnswer

-- The answers to `open`, `fstat`, `lstat`, `geteuid`, `getegid`, `fgetxattr` and the bounded read.
pub record FileCalls : Type 0 where
  pub opened : Result (Unit {0}) IoError
  pub metadata : Result Metadata IoError
  pub named : Result Metadata IoError
  pub effective_user : ℕ
  pub effective_group : ℕ
  pub acl : AclAnswer
  pub contents : Result Text IoError

unfoldable pub is_eloop : IoError → Bool
is_eloop e = elim e.raw_os_error [ none ↦ false | some code ↦ code == 40 ]

open_error : Text → IoError → ConfigError
open_error path e =
    if is_eloop e
    then insecure_config_file path (text "symbolic links are not accepted")
    else read path e.shown

-- The tests on the descriptor and on the name, in the order of the source.
check_config_file : Text → ℕ → Metadata → Metadata → Result (Unit {0}) ConfigError
check_config_file path user opened named = do
  reject named.is_symlink (insecure_config_file path (text "symbolic links are not accepted"))
  reject (not (named.dev == opened.dev) || not (named.ino == opened.ino))
      (insecure_config_file path (text "path changed while the configuration was being opened"))
  reject (not (bit_and (bit_and opened.mode 0o7777) 0o022 == 0)) (
      insecure_config_file path (
        text "mode "
        ++ octal4 (bit_and opened.mode 0o7777)
        ++ text " permits group or other users to modify DNS configuration"))
  reject (not (opened.uid == 0) && not (opened.uid == user)) (
      insecure_config_file path (
        text "owner UID "
        ++ decimal opened.uid
        ++ text " is neither root nor the current effective UID"))
  reject (ltb max_config_bytes opened.size) (config_too_large (some path))

unfoldable pub open_config_file : Text → FileCalls → Result (Unit {0}) ConfigError
unfolding open_error check_config_file
open_config_file path calls = do
  map_err calls.opened (open_error path)
  opened ← map_err calls.metadata (λ e. read path e.shown)
  ensure opened.is_file (insecure_config_file path (text "path must refer to a regular file"))
  named ← map_err calls.named (λ e. read path e.shown)
  check_config_file path calls.effective_user opened named

pub count_newlines : List ℕ → ℕ
count_newlines [] = 0
count_newlines (b ∷ bs) = if b == 0xa then suc (count_newlines bs) else count_newlines bs

-- The number of bytes behind the last newline, or of all bytes if there is none.
since_newline : ℕ → List ℕ → ℕ
since_newline n [] = n
since_newline n (b ∷ bs) = since_newline (if b == 0xa then 0 else suc n) bs

-- Line and byte column, from 1, of a byte offset; offsets past the end are cut back.
unfoldable pub line_column : Text → ℕ → ℕ × ℕ
unfolding count_newlines since_newline
line_column contents offset =
    let prefix = take (min offset (len contents)) (utf8 contents) in
    (suc (count_newlines prefix), suc (since_newline 0 prefix))

unfoldable pub safe_parse_position : Text → ℕ → Text
unfolding line_column
safe_parse_position contents offset =
    let (line, column) = line_column contents offset in
    text " at line " ++ decimal line ++ text ", byte column " ++ decimal column

abbrev non_blank : Text → Option Text
non_blank value = if is_empty value then none else some value

-- `take().map(|value| value.trim().to_ascii_lowercase()).filter(|value| !value.is_empty())`
canonical_identifier : Option Text → Option Text
canonical_identifier none = none
canonical_identifier (some value) = non_blank (to_ascii_lowercase (trim value))

canonical_record : RecordConfig → RecordConfig
unfolding canonical_identifier
canonical_record r = record r {
  zone = canonical_dns_name r.zone;
  name = canonical_dns_name r.name;
  zone_id = canonical_identifier r.zone_id;
}

trimmed_providers : IpDiscoveryConfig → IpDiscoveryConfig
trimmed_providers d = record d { providers = map trim d.providers }

unfoldable pub canonicalize : Config → Config
unfolding canonical_record trimmed_providers
canonicalize config = record config {
  cloudflare = record (config.cloudflare) {
    account_id = canonical_identifier config.cloudflare.account_id;
  };
  discovery4 = trimmed_providers config.discovery4;
  discovery6 = trimmed_providers config.discovery6;
  records = map canonical_record config.records;
}

-- `toml::from_str`: a configuration, or the start of the error's span.
abbrev pub ParseToml : Type 0
ParseToml = Text → Result Config (Option ℕ)

position : Text → Option ℕ → Text
position contents none = []
position contents (some start) = safe_parse_position contents start

module _ (toml : ParseToml) (parse_url : ParseUrl) where
  unfoldable pub parse : Text → Option Text → Result Config ConfigError
  unfolding position
  parse contents path = do
    reject (ltb max_config_bytes (len contents)) (config_too_large path)
    config ← map_err (toml contents) (λ start. parse_failed path (position contents start))
    validate parse_url (canonicalize config)
    ok (canonicalize config)

  unfoldable pub load : Text → FileCalls → Result Config ConfigError
  unfolding parse
  load path calls = do
    open_config_file path calls
    contents ← map_err calls.contents (λ e. read path e.shown)
    reject (ltb max_config_bytes (len contents)) (config_too_large (some path))
    parse contents (some path)

  unfoldable pub from_toml : Text → Result Config ConfigError
  unfolding parse
  from_toml contents = parse contents none
