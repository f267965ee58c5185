-- ===== src/App/Laws.antt =====
-- What a command that succeeds has done, for src/main.rs.
use cirrusync.Prelude.{
  ℕ, zero, suc, ◌*◌, ◌≤◌, ◌<◌, refl, arith, Option, ℕ, ◌≡◌, ◌≢◌, inl, inr, Option, none, some,
  arith, Result, ok, err, ◌>>=◌, map_err, Result-cases,
}
use cirrusync.Prelude.Strings.{Text}
use cirrusync.PublicIp.Discover.{PublicIpClient}
use cirrusync.Config.{Config}
use cirrusync.Config.Load.{ParseToml, load}
use cirrusync.Config.Load.Laws.{load-trusted, Opened}
use cirrusync.Config.Token.{load_api_token}
use cirrusync.Config.Validate.{ParseUrl}
use cirrusync.Config.Validate.Whole.{IsConfig}
use cirrusync.Cloudflare.Credentials.{select_verification_target}
use cirrusync.Cloudflare.Client.{Client}
use cirrusync.Config.Load.{Metadata}
use cirrusync.Config.Token.Laws.{
  IsToken, TokenFrom, load_api_token-TokenFrom, load_api_token-IsToken,
}
use cirrusync.Cloudflare.Credentials.{
  normalize_account_id, target_of, MayVerify, select_verification_target-MayVerify,
}
use cirrusync.Updater.Addresses.{Updater}
use cirrusync.App.{
  config, cloudflare, public_ip, Builders, with_api_base, new_client, new_public_ip, new_updater,
  request_timeout, Surroundings, build_updater,
}

pub map_err-ok :
    {A E F : Type 0} (r : Result A E) (f : E → F) (a : A) → map_err r f ≡ ok a → r ≡ ok a
map_err-ok (ok b) f a h = cc
map_err-ok (err e) f a h = cc

-- A client that was built has the timeout and the token, and its endpoint is that of the token.
pub record IsBuilt (token : Text) (account_id : Option Text) (timeout : ℕ) (c : Client)
    : Type 0 where
  pub token_kept : c.api_token ≡ token
  pub timeout_kept : c.request_timeout ≡ timeout
  pub some_time : timeout ≢ 0
  pub endpoint : select_verification_target token account_id ≡ ok c.verification_target

with_api_base-IsBuilt :
    (b : Builders) (token : Text) (account_id : Option Text) (timeout : ℕ) (c : Client)
    → with_api_base b token account_id timeout ≡ ok c
    → IsBuilt token account_id timeout c
unfolding with_api_base
with_api_base-IsBuilt b token account_id timeout c h =
    elim (Result-cases (select_verification_target token account_id)) [
      | inr (e, q) ↦ absurd (ground arith)
      | inl (target, q) ↦ record {
        token_kept = ground arith;
        timeout_kept = ground arith;
        some_time = λ z. ground arith;
        endpoint = ground arith;
      }
    ]

IsBuilt-at :
    {token other : Text} {account_id : Option Text} {timeout : ℕ} {c : Client}
    → other ≡ token
    → IsBuilt token account_id timeout c
    → IsBuilt other account_id timeout c
IsBuilt-at e b = rw e b

new_client-IsBuilt :
    (b : Builders) (token : Text) (account_id : Option Text) (timeout : ℕ) (c : Client)
    → new_client b token account_id timeout ≡ ok c
    → IsBuilt token account_id timeout c
unfolding new_client
new_client-IsBuilt b token none timeout c h = with_api_base-IsBuilt b token none timeout c h
new_client-IsBuilt b token (some id) timeout c h =
    with_api_base-IsBuilt b token (some id) timeout c h

new_public_ip-timeout :
    (b : Builders) (timeout : ℕ) (c : PublicIpClient)
    → new_public_ip b timeout ≡ ok c
    → c.timeout ≡ timeout
unfolding new_public_ip
new_public_ip-timeout b timeout c h = ground arith

new_updater-parts :
    (parse_url : ParseUrl) (c : Config) (client : Client) (public : PublicIpClient) (u : Updater)
    → new_updater parse_url c client public ≡ ok u
    → (u.config ≡ c) × (u.cloudflare ≡ client) × (u.public_ip ≡ public)
unfolding new_updater
new_updater-parts parse_url c client public u h = ground arith

module _ (toml : ParseToml) (parse_url : ParseUrl) (around : Surroundings) where
  -- What an updater is built of.
  pub record IsAssembled (u : Updater) : Type 0 where
    pub loaded : load toml parse_url around.config_path around.config_calls ≡ ok u.config
    pub valid : IsConfig parse_url u.config
    pub trusted : Opened around.config_calls
    pub token_loaded :
        load_api_token u.config around.token_variable around.token_calls ≡ ok u.cloudflare.api_token
    pub client :
        IsBuilt u.cloudflare.api_token u.config.cloudflare.account_id
          (request_timeout u.config)
          u.cloudflare
    pub discovery_timeout : u.public_ip.timeout ≡ request_timeout u.config

  assembled :
      (c : Config) (token : Text) (client : Client) (public : PublicIpClient) (u : Updater)
      → load toml parse_url around.config_path around.config_calls ≡ ok c
      → load_api_token c around.token_variable around.token_calls ≡ ok token
      → new_client around.builders token c.cloudflare.account_id (request_timeout c) ≡ ok client
      → new_public_ip around.builders (request_timeout c) ≡ ok public
      → new_updater parse_url c client public ≡ ok u
      → IsAssembled u
  assembled c token client public u l t cl pu up =
      let (config_kept, client_kept, public_kept) =
        new_updater-parts parse_url c client public u up in
      let (valid, trusted) =
        load-trusted toml parse_url around.config_path around.config_calls c l in
      let b = new_client-IsBuilt around.builders token _ _ client cl in
      record {
        loaded = rw config_kept l;
        valid = rw config_kept valid;
        trusted = trusted;
        token_loaded = rw (config_kept, client_kept, b.token_kept) t;
        client = rw (config_kept, client_kept) (IsBuilt-at b.token_kept b);
        discovery_timeout =
            rw (config_kept, public_kept) (new_public_ip-timeout around.builders _ public pu);
      }

  -- An updater that is built was made of what `load`, `load_api_token` and the constructors returned.
  pub build_updater-IsAssembled :
      (u : Updater) → build_updater toml parse_url around ≡ ok u → IsAssembled u
  unfolding build_updater
  build_updater-IsAssembled u h =
      elim (Result-cases (load toml parse_url around.config_path around.config_calls)) [
        | inr (e, q) ↦ absurd (ground arith)
        | inl (c, q) ↦
            elim (Result-cases (load_api_token c around.token_variable around.token_calls)) [
              | inr (e, p) ↦ absurd (ground arith)
              | inl (token, p) ↦ with_token u c token q p (ground arith)
            ]
      ]
    where
      with_token :
          (u : Updater) (c : Config) (token : Text)
          → load toml parse_url around.config_path around.config_calls ≡ ok c
          → load_api_token c around.token_variable around.token_calls ≡ ok token
          → (do
            client ←
                map_err
                  (new_client around.builders token c.cloudflare.account_id (request_timeout c))
                  cloudflare
            public ← map_err (new_public_ip around.builders (request_timeout c)) public_ip
            map_err (new_updater parse_url c client public) config)
            ≡ ok u
          → IsAssembled u
      with_token u c token q p h =
          elim (Result-cases
            (new_client around.builders token c.cloudflare.account_id (request_timeout c))) [
              | inr (e, k) ↦ absurd (ground arith)
              | inl (client, k) ↦
                  elim (Result-cases (new_public_ip around.builders (request_timeout c))) [
                    | inr (e, j) ↦ absurd (ground arith)
                    | inl (public, j) ↦
                        assembled c token client public u q p k j
                          (map_err-ok _ config u (ground arith))
                  ]
            ]

  -- What an updater may be relied on for.
  pub record IsTrusted (u : Updater) : Type 0 where
    pub valid : IsConfig parse_url u.config
    pub trusted : Opened around.config_calls
    pub token_from : TokenFrom around.token_calls u.cloudflare.api_token around.token_variable
    pub clean : IsToken u.cloudflare.api_token
    pub may_verify :
        (account_id : Option Text) × (normalize_account_id u.config.cloudflare.account_id
          ≡ ok account_id)
        × (u.cloudflare.verification_target ≡ target_of account_id)
        × MayVerify u.cloudflare.api_token account_id
    pub some_time : 1 ≤ u.config.request_timeout_seconds
    pub request_time : u.cloudflare.request_timeout ≡ u.config.request_timeout_seconds * 1000000000
    pub discovery_time : u.public_ip.timeout ≡ u.config.request_timeout_seconds * 1000000000

  -- Where the modes of files have 16 bits: an updater that is built has a valid configuration from a
  -- trusted file. Its token, which is not empty and holds no whitespace or control character, is that
  -- of `CIRRUSYNC_TOKEN` where that is set, and otherwise that of a protected file, and is none that
  -- the choice of the endpoint bars: no Global API Key, none of an unknown kind, account-owned only
  -- with an account ID and user-owned only without one; the endpoint is the account's exactly if the
  -- configuration has an ID. Requests and discovery have the configured time, which is not zero.
  pub build_updater-IsTrusted :
      (u : Updater)
      → ((m : Metadata) → around.token_calls.metadata ≡ ok m → m.mode < 65536)
      → build_updater toml parse_url around ≡ ok u
      → IsTrusted u
  build_updater-IsTrusted u bits h =
      let a = build_updater-IsAssembled u h in
      record {
        valid = a.valid;
        trusted = a.trusted;
        token_from =
            load_api_token-TokenFrom u.config around.token_variable around.token_calls _ bits
              a.token_loaded;
        clean =
            load_api_token-IsToken u.config around.token_variable around.token_calls _
              a.token_loaded;
        may_verify = select_verification_target-MayVerify _ _ _ a.client.endpoint;
        some_time = time_positive u.config.request_timeout_seconds (λ z. a.client.some_time z);
        request_time = a.client.timeout_kept;
        discovery_time = a.discovery_timeout;
      }
    where
      time_positive : (n : ℕ) → (n * 1000000000 ≡ 0 → ⊥) → 1 ≤ n
      time_positive zero k = absurd (k refl)
      time_positive (suc n) k = omega arith
