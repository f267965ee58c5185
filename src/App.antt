-- ===== src/App.antt =====
-- src/main.rs, src/error.rs: the command line behind its parsing, and the construction of what it
-- runs, with the constructors of src/cloudflare.rs, src/public_ip.rs and src/updater.rs.
pub mod Laws
pub mod Outcome
use cirrusync.Prelude.{
  ℕ, zero, suc, ◌+◌, ◌*◌, Bool, true, false, ◌&&◌, not, Option, none, some, ◌++◌, ◌==◌,
  if◌then◌else◌, is_empty, Result, ok, err, ◌>>=◌, ◌>>◌, ensure, reject, map_err,
}
use cirrusync.Prelude.Strings.{Text, text, trim}
use cirrusync.PublicIp.{PublicIpError}
use cirrusync.PublicIp
use cirrusync.PublicIp.Discover.{PublicIpClient}
use cirrusync.Config.{Config, ConfigError}
use cirrusync.Config.Load.{FileCalls, ParseToml, load}
use cirrusync.Config.Token.{EnvToken, load_api_token}
use cirrusync.Config.Validate.{ParseUrl, validate}
use cirrusync.Cloudflare.{CloudflareError}
use cirrusync.Cloudflare
use cirrusync.Cloudflare.Credentials.{select_verification_target}
use cirrusync.Cloudflare.Client.{Client, Session}
use cirrusync.Updater.{CycleReport, is_success, report_str, CheckReport, check_is_success}
use cirrusync.Updater.Host.{Host}
use cirrusync.Updater.Addresses.{Updater}
use cirrusync.Updater.Cycle.{run_cycle}
use cirrusync.Updater.Check.{nanoseconds, check_report_str}
use cirrusync.Updater.Check.Run.{check}

pub data DaemonError : Type 0 where
  runtime_lock : Text → DaemonError
  signal : Text → DaemonError

pub data AppError : Type 0 where
  config : ConfigError → AppError
  cloudflare : CloudflareError → AppError
  public_ip : PublicIpError → AppError
  daemon : DaemonError → AppError
  logging : Text → AppError
  output : Text → AppError
  synchronization : Text → AppError
  check_failed : Text → AppError

abbrev pub failure_exit_code : ℕ
failure_exit_code = 1

pub data Command : Type 0 where
  run once print_config : Command
  check_command : Bool → Bool → Command

-- What `reqwest` and `url` answer while clients are built: whether a header value is a valid one,
-- the errors of the two builders, and whether the base URL parses.
pub record Builders : Type 0 where
  pub is_header_value : Text → Bool
  pub cloudflare_build : Option Text
  pub public_ip_build : Option Text
  pub base_url_parses : Bool

abbrev built {ι} : {E : Type ι} → Option Text → (Text → E) → Result (Unit {0}) E
built none e = ok tt
built (some shown) e = err (e shown)

-- Timeouts are nanoseconds.
pub with_api_base : Builders → Text → Option Text → ℕ → Result Client CloudflareError
with_api_base b token account_id timeout = do
  reject (timeout == 0) Cloudflare.invalid_timeout
  target ← select_verification_target token account_id
  ensure (b.is_header_value (text "Bearer " ++ token)) Cloudflare.invalid_token
  built b.cloudflare_build Cloudflare.client_build
  ensure b.base_url_parses Cloudflare.invalid_base_url
  ok (record { api_token = token; verification_target = target; request_timeout = timeout })

-- `CloudflareClient::new` and `new_with_account_id`
unfoldable pub new_client : Builders → Text → Option Text → ℕ → Result Client CloudflareError
unfolding with_api_base
new_client b token none timeout = with_api_base b token none timeout
new_client b token (some account_id) timeout = with_api_base b token (some account_id) timeout

unfoldable pub new_public_ip : Builders → ℕ → Result PublicIpClient PublicIpError
new_public_ip b timeout = do
  reject (timeout == 0) PublicIp.invalid_timeout
  built b.public_ip_build PublicIp.client_build
  ok (record { timeout = timeout })

-- `Updater::new` validates the configuration once more. The identity of the runtime lock follows from
-- the configuration (`Updater.Lock.for_config`), and a command starts with the cursor at 0.
unfoldable pub new_updater :
    ParseUrl → Config → Client → PublicIpClient → Result Updater ConfigError
new_updater parse_url c client public = do
  validate parse_url c
  ok (record { config = c; cloudflare = client; public_ip = public })

abbrev pub request_timeout : Config → ℕ
request_timeout c = c.request_timeout_seconds * nanoseconds

-- What the program reads of its surroundings before a command runs: the file calls of the
-- configuration and of the token, and `CIRRUSYNC_TOKEN`.
pub record Surroundings : Type 0 where
  pub config_path : Text
  pub config_calls : FileCalls
  pub token_variable : EnvToken
  pub token_calls : FileCalls
  pub builders : Builders

module _ (toml : ParseToml) (parse_url : ParseUrl) (around : Surroundings) where
  unfoldable pub build_updater : Result Updater AppError
  unfolding new_client new_public_ip new_updater
  build_updater = do
    c ← map_err (load toml parse_url around.config_path around.config_calls) config
    token ← map_err (load_api_token c around.token_variable around.token_calls) config
    client ←
        map_err (new_client around.builders token c.cloudflare.account_id (request_timeout c))
          cloudflare
    public ← map_err (new_public_ip around.builders (request_timeout c)) public_ip
    map_err (new_updater parse_url c client public) config

  unfoldable pub once_result : CycleReport → Result (Unit {0}) AppError
  once_result report = ensure (is_success report) (synchronization (report_str report))

  check_result : CheckReport → Result (Unit {0}) AppError
  check_result report = ensure (check_is_success report) (check_failed (check_report_str report))

  -- `write_example_config`, with the error of the write.
  write_example_config : Option Text → Result (Unit {0}) AppError
  write_example_config none = ok tt
  write_example_config (some shown) = err (output shown)

  module _ (host : Host) where
    open host use {api}

    -- A command on an updater. `lock` is what acquiring the runtime lock comes to. A daemon's loop
    -- ends as `loop` says; its cycles are those of `Daemon.Run`, and are not followed here.
    unfoldable pub run_command :
        Updater
        → Command
        → Result (Unit {0}) Text
        → Result (Unit {0}) DaemonError
        → Option Text
        → Session api.World
        → Result (Unit {0}) AppError × Session api.World
    unfolding once_result check_result write_example_config
    run_command u run (err message) loop written s = (err (daemon (runtime_lock message)), s)
    run_command u run (ok held) loop written s = (map_err loop daemon, s)
    run_command u once lock loop written s =
        let (report, cursor, s') = run_cycle host u lock 0 s in (once_result report, s')
    run_command u (check_command allow_create allow_edit_probe) lock loop written s =
        let (report, s') = check host u allow_create allow_edit_probe lock s in
        (check_result report, s')
    run_command u print_config lock loop written s = (write_example_config written, s)

    abbrev with_updater :
        Result Updater AppError
        → Session api.World
        → (Updater → Result (Unit {0}) AppError × Session api.World)
        → Result (Unit {0}) AppError × Session api.World
    with_updater (err e) s f = (err e, s)
    with_updater (ok u) s f = f u

    -- The example is printed without reading the configuration.
    unfoldable pub execute :
        Command
        → Result (Unit {0}) Text
        → Result (Unit {0}) DaemonError
        → Option Text
        → Session api.World
        → Result (Unit {0}) AppError × Session api.World
    unfolding build_updater run_command write_example_config
    execute print_config lock loop written s = (write_example_config written, s)
    execute run lock loop written s =
        with_updater build_updater s (λ u. run_command u run lock loop written s)
    execute once lock loop written s =
        with_updater build_updater s (λ u. run_command u once lock loop written s)
    execute (check_command c p) lock loop written s =
        with_updater build_updater s (λ u. run_command u (check_command c p) lock loop written s)

unfoldable pub exit_code : Result (Unit {0}) AppError → ℕ
exit_code (ok tt) = 0
exit_code (err e) = failure_exit_code

-- The filter's directives. `is_filter` says what `EnvFilter::try_new` accepts.
directives : (Text → Bool) → Option Text → Text
directives is_filter none = text "cirrusync=info"
directives is_filter (some value) =
    if not (is_empty (trim value)) && is_filter value then value else text "cirrusync=info"

unfoldable pub select_log_filter : (Text → Bool) → ℕ → Bool → Option Text → Text
unfolding directives
select_log_filter is_filter verbose true rust_log = text "cirrusync=warn"
select_log_filter is_filter zero false rust_log = directives is_filter rust_log
select_log_filter is_filter (suc zero) false rust_log = text "cirrusync=debug"
select_log_filter is_filter (suc (suc n)) false rust_log = text "cirrusync=trace"

-- The exit status, from what starting the log and the command came to.
unfoldable pub main_code : Result (Unit {0}) Text → Result (Unit {0}) AppError → ℕ
unfolding exit_code
main_code (err e) outcome = failure_exit_code
main_code (ok tt) outcome = exit_code outcome
