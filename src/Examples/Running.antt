-- ===== src/Examples/Running.antt =====
-- The command line's theorems at concrete inputs.
use cirrusync.Updater.Addresses.{
  append_discovery_failures, needs, discover_required_addresses, for_record, Updater,
}
use cirrusync.Updater.Cycle.{count_outcome, start_index, visit_order, run_cycle_until, run_cycle}
use cirrusync.Cloudflare.Records.{update_record, is_match, match_records, find_record}
use cirrusync.Updater.Plan.{same_ip, plan_existing_record, execute_record_plan, plan_record}
use cirrusync.Config.{type_str}
use cirrusync.Cloudflare.Zones.{checking_zone, cache_get, resolve_zone_id}
use cirrusync.Cloudflare.Client.Send.{has_next_page, read_response_body, await_exchange, send}
use cirrusync.Prelude.Strings.{eq_ignore_ascii_case, trim, len, starts_with, text}
use cirrusync.Cloudflare.Client.{◌>>=◌}
use cirrusync.PublicIp.Address.{is_public_address}
use cirrusync.PublicIp.{matches}
use cirrusync.PublicIp.Response.{parse_provider_response}
use cirrusync.Http.{read_chunks, announces_more}
use cirrusync.PublicIp.Discover.{query_provider, discover}
use cirrusync.Cloudflare.Credentials.{has_scannable_credential_prefix, select_verification_target}
use cirrusync.Prelude.{arith, ◌<◌, ◌*◌, ◌≡◌, refl, true, false, none, [], ok}
use cirrusync.Config.Load.{Metadata, ParseToml}
use cirrusync.Config.Token.{unset, load_api_token}
use cirrusync.Config.Validate.{validate}
use cirrusync.Config.Validate.Whole.{validate-ok_iff}
use cirrusync.Config.Load.Laws.{load-trusted}
use cirrusync.Updater.{is_success}
use cirrusync.Daemon.Run.{Daemon, signal, cycling, start, on_signal}
use cirrusync.Daemon.Run.Stop.{signalled_by, none_yet, Stopping, signalled_by-Stopping}
use cirrusync.App.{
  Surroundings, new_client, new_updater, new_public_ip, build_updater, run_command, once_result,
  exit_code, once, execute, main_code,
}
use cirrusync.App.Laws.{IsTrusted, build_updater-IsTrusted}
use cirrusync.App.Outcome.{Achieved, main_code-Achieved}
use cirrusync.Examples.Instances.{sample_config, sample_client, sample_host, sample_session}
use cirrusync.Examples.Configuring.{sample_url, root_calls, sample_loads, token_loads}
use cirrusync.Http

abbrev sample_toml : ParseToml
sample_toml contents = ok sample_config

abbrev around : Surroundings
around = record {
  config_path = text "/etc/cirrusync/config.toml";
  config_calls = root_calls [];
  token_variable = unset;
  token_calls = root_calls (text "token");
  builders = record {
    is_header_value = λ value. true;
    cloudflare_build = none;
    public_ip_build = none;
    base_url_parses = true;
  };
}

abbrev built_updater : Updater
built_updater = record {
  config = sample_config;
  cloudflare = record sample_client { request_timeout = 10 * 1000000000 };
  public_ip = record { timeout = 10 * 1000000000 };
}

token_found : load_api_token sample_config unset (root_calls (text "token")) ≡ ok (text "token")
unfolding load_api_token
token_found = token_loads

client_built :
    new_client around.builders (text "token") none (10 * 1000000000) ≡ ok built_updater.cloudflare
unfolding new_client select_verification_target starts_with text has_scannable_credential_prefix
    is_success
client_built = refl

config_valid : validate sample_url sample_config ≡ ok tt
config_valid =
    (validate-ok_iff sample_url sample_config).1
      (load-trusted sample_toml sample_url (text "/etc/cirrusync/config.toml") (root_calls [])
        sample_config sample_loads).0

updater_built : build_updater sample_toml sample_url around ≡ ok built_updater
unfolding build_updater new_updater new_public_ip
updater_built = rw (sample_loads, token_found, client_built, config_valid) refl

modes_short : (m : Metadata) → (root_calls (text "token")).metadata ≡ ok m → m.mode < 65536
modes_short m h = ground arith

build_updater-IsTrusted_example : IsTrusted sample_toml sample_url around built_updater
build_updater-IsTrusted_example =
    build_updater-IsTrusted sample_toml sample_url around built_updater modes_short updater_built

cycle_succeeds : is_success (run_cycle sample_host built_updater (ok tt) 0 sample_session).0 ≡ true
unfolding is_success Http.is_success run_cycle run_cycle_until visit_order start_index for_record
    discover_required_addresses needs discover query_provider announces_more read_chunks
    parse_provider_response len trim matches is_public_address plan_record ◌>>=◌ resolve_zone_id
    cache_get send await_exchange read_response_body eq_ignore_ascii_case text has_next_page
    find_record checking_zone match_records is_match type_str execute_record_plan
    plan_existing_record same_ip update_record count_outcome append_discovery_failures
cycle_succeeds = refl

exits_well :
    main_code
      (ok tt)
      (execute sample_toml sample_url around sample_host once (ok tt) (ok tt) none sample_session).0
    ≡ 0
unfolding main_code execute run_command once_result exit_code
exits_well = rw (updater_built, cycle_succeeds) refl

main_code-Achieved_example :
    Achieved sample_toml sample_url around sample_host (ok tt) (ok tt) none sample_session once
main_code-Achieved_example =
    main_code-Achieved sample_toml sample_url around sample_host (ok tt) (ok tt) none sample_session
      refl tt (ok tt) once exits_well

-- The signal comes while a mutation is in flight, and the loop has not gone on.
abbrev mutating_daemon : Daemon
mutating_daemon = record start { phase = cycling true }

signalled_by-Stopping_example :
    Stopping false mutating_daemon 0 (on_signal true false mutating_daemon)
unfolding signalled_by
signalled_by-Stopping_example =
    signalled_by-Stopping {interval = 300} (signal true false refl) refl none_yet
