-- ===== src/Config/Token/Laws.antt =====
-- What a token that was loaded is known to satisfy.
use Prim.Native.Nat.{bit_and}
use cirrusync.Prelude.{
  ℕ, ◌≤◌, ◌<◌, ◌≡◌, refl, ◌⊎◌, inl, inr, ◌↔◌, Bool, true, false, ◌||◌, not, arith, ltb, ◌==◌,
  if◌then◌else◌, is_empty, any, ok, Result-cases, all_below, all_below_sound,
}
use cirrusync.Prelude.Strings.{Text, len, trim, is_whitespace, is_control}
use cirrusync.Config.{Config, TokenSource, file, environment, max_token_bytes}
use cirrusync.Config.Load.{Metadata, AclAnswer, absent, present, acl_failed, FileCalls}
use cirrusync.Config.Token.{
  secret_from_text, validate_opened_token_path, validate_token_metadata, reject_token_access_acl,
  bad_mode, group_readable, load_token_file, EnvToken, unset, non_unicode, value, load_api_token,
}

-- A token that may stand in an authorization header.
pub record IsToken (secret : Text) : Type 0 where
  pub filled : is_empty secret ≡ false
  pub clean : any (λ c. is_whitespace c || is_control c) secret ≡ false

pub secret_from_text-ok_iff :
    (contents : Text) (source : TokenSource) (secret : Text)
    → (secret_from_text contents source ≡ ok secret)
      ↔ ((secret ≡ trim contents) × (len contents ≤ max_token_bytes) × IsToken (trim contents))
unfolding secret_from_text
secret_from_text-ok_iff contents source secret = ground arith

-- The masked mode is one of 0400, 0440, 0600 and 0640.
abbrev pub one_of_modes : ℕ → Bool
one_of_modes mode = mode == 0o400 || mode == 0o440 || mode == 0o600 || mode == 0o640

mode_table :
    all_below 4096 (λ m. if bad_mode m then not (one_of_modes m) else one_of_modes m) ≡ true
unfolding all_below bad_mode
mode_table = refl

mode_allowed : (mode : ℕ) → mode < 4096 → bad_mode mode ≡ false → one_of_modes mode ≡ true
mode_allowed mode h e = ground (arith, all_below_sound 4096 _ mode mode_table)

mask_table : all_below 65536 (λ m. ltb (bit_and m 0o7777) 4096) ≡ true
unfolding all_below
mask_table = refl

masked-lt : (mode : ℕ) → mode < 65536 → bit_and mode 0o7777 < 4096
masked-lt mode h = ground (arith, all_below_sound 65536 _ mode mask_table h)

-- A file that only root can have written, and that no one but root and one group may read.
pub record IsProtected (m named : Metadata) (effective_group : ℕ) (acl : AclAnswer) : Type 0 where
  pub regular : m.is_file ≡ true
  pub no_link : named.is_symlink ≡ false
  pub same_device : named.dev ≡ m.dev
  pub same_file : named.ino ≡ m.ino
  pub mode : one_of_modes (bit_and m.mode 0o7777) ≡ true
  pub root : m.uid ≡ 0
  pub group : (group_readable (bit_and m.mode 0o7777) ≡ false) ⊎ (m.gid ≡ effective_group)
  pub no_acl : acl ≡ absent
  pub small : m.size ≤ max_token_bytes

reject_token_access_acl-ok :
    (path : Text) (acl : AclAnswer) → reject_token_access_acl path acl ≡ ok tt → acl ≡ absent
unfolding reject_token_access_acl
reject_token_access_acl-ok path absent h = refl
reject_token_access_acl-ok path present h = cc
reject_token_access_acl-ok path (acl_failed e) h = cc

metadata-ok :
    (path : Text) (m : Metadata) (group : ℕ) (acl : AclAnswer)
    → m.mode < 65536
    → validate_token_metadata path m group acl ≡ ok tt
    → (m.is_file ≡ true)
      × (one_of_modes (bit_and m.mode 0o7777) ≡ true)
      × (m.uid ≡ 0)
      × ((group_readable (bit_and m.mode 0o7777) ≡ false) ⊎ (m.gid ≡ group))
      × (acl ≡ absent)
unfolding validate_token_metadata
metadata-ok path m group acl h e = ground (
  arith,
  mode_allowed (bit_and m.mode 0o7777) (masked-lt m.mode h),
  reject_token_access_acl-ok path acl,
)

path-ok :
    (path : Text) (m named : Metadata) (calls : FileCalls)
    → calls.named ≡ ok named
    → validate_opened_token_path path m calls.named ≡ ok tt
    → (named.is_symlink ≡ false) × (named.dev ≡ m.dev) × (named.ino ≡ m.ino)
unfolding validate_opened_token_path
path-ok path m named calls n h = ground arith

load_token_file-IsToken :
    (path : Text) (calls : FileCalls) (secret : Text)
    → load_token_file path calls ≡ ok secret
    → IsToken secret
unfolding load_token_file
load_token_file-IsToken path calls secret h = elim (Result-cases calls.contents) [
  | inr (e, q) ↦ absurd (ground arith)
  | inl (contents, q) ↦
      let k = (secret_from_text-ok_iff contents file secret).0 (ground arith) in rw (k.0) k.2
]

-- A token that is read from a file is not empty and holds no whitespace or control character, and
-- its file is a regular one of root's with mode 0400, 0440, 0600 or 0640, of the effective group
-- if the group may read it, without an access ACL and still the one that its path names, where the
-- metadata's mode has 16 bits.
pub load_token_file-IsProtected :
    (path : Text) (calls : FileCalls) (m named : Metadata) (secret : Text)
    → calls.metadata ≡ ok m
    → calls.named ≡ ok named
    → m.mode < 65536
    → load_token_file path calls ≡ ok secret
    → IsToken secret × IsProtected m named calls.effective_group calls.acl
unfolding load_token_file
load_token_file-IsProtected path calls m named secret p n bits h =
    elim (Result-cases calls.contents) [
      | inr (e, q) ↦ absurd (ground arith)
      | inl (contents, q) ↦
          let a = metadata-ok path m calls.effective_group calls.acl bits (ground arith) in
          let b = path-ok path m named calls n (ground arith) in
          (
            load_token_file-IsToken path calls secret h,
            record {
              regular = a.0;
              no_link = b.0;
              same_device = b.1;
              same_file = b.2;
              mode = a.1;
              root = a.2;
              group = a.3;
              no_acl = a.4;
              small = ground arith;
            },
          )
    ]

-- Whatever its source, a token that `load_api_token` returns is not empty and holds neither
-- whitespace nor control characters.
pub load_api_token-IsToken :
    (config : Config) (env : EnvToken) (calls : FileCalls) (secret : Text)
    → load_api_token config env calls ≡ ok secret
    → IsToken secret
unfolding load_api_token
load_api_token-IsToken config unset calls secret h =
    load_token_file-IsToken config.cloudflare.api_token_file calls secret h
load_api_token-IsToken config non_unicode calls secret h = cc
load_api_token-IsToken config (value v) calls secret h =
    let k = (secret_from_text-ok_iff v environment secret).0 h in rw (k.0) k.2

-- Where a token comes from. `CIRRUSYNC_TOKEN` takes precedence where it is set; otherwise the token
-- is what the token file holds, and that file is protected.
pub data TokenFrom (calls : FileCalls) (secret : Text) : EnvToken → Type 0 where
  from_variable :
      (v : Text) → secret ≡ trim v → len v ≤ max_token_bytes → TokenFrom calls secret (value v)
  from_file :
      (m named : Metadata) (contents : Text)
      → calls.contents ≡ ok contents
      → secret ≡ trim contents
      → calls.metadata ≡ ok m
      → calls.named ≡ ok named
      → IsProtected m named calls.effective_group calls.acl
      → TokenFrom calls secret unset

load_token_file-TokenFrom :
    (path : Text) (calls : FileCalls) (secret : Text)
    → ((m : Metadata) → calls.metadata ≡ ok m → m.mode < 65536)
    → load_token_file path calls ≡ ok secret
    → TokenFrom calls secret unset
unfolding load_token_file validate_opened_token_path
load_token_file-TokenFrom path calls secret bits h = elim (Result-cases calls.metadata) [
  | inr (e, q) ↦ absurd (ground arith)
  | inl (m, p) ↦ elim (Result-cases calls.named) [
    | inr (e, q) ↦ absurd (ground arith)
    | inl (named, n) ↦ elim (Result-cases calls.contents) [
      | inr (e, q) ↦ absurd (ground arith)
      | inl (contents, c) ↦
          let k = (secret_from_text-ok_iff contents file secret).0 (ground arith) in
          from_file m named contents c k.0 p n
            (load_token_file-IsProtected path calls m named secret p n (bits m p) h).1
    ]
  ]
]

-- The source of a token that `load_api_token` returns, where the metadata's mode has 16 bits.
pub load_api_token-TokenFrom :
    (config : Config) (env : EnvToken) (calls : FileCalls) (secret : Text)
    → ((m : Metadata) → calls.metadata ≡ ok m → m.mode < 65536)
    → load_api_token config env calls ≡ ok secret
    → TokenFrom calls secret env
unfolding load_api_token
load_api_token-TokenFrom config unset calls secret bits h =
    load_token_file-TokenFrom config.cloudflare.api_token_file calls secret bits h
load_api_token-TokenFrom config non_unicode calls secret bits h = cc
load_api_token-TokenFrom config (value v) calls secret bits h =
    let k = (secret_from_text-ok_iff v environment secret).0 h in from_variable v k.0 k.1
