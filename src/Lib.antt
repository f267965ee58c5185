-- ===== src/Lib.antt =====
-- Cirrusync, a dynamic DNS client for Cloudflare: a model of the Rust program under src/.
--
-- The program loads a configuration and an API token, and then runs cycles: it asks providers for
-- the machine's public addresses, looks the configured DNS records up, and changes those that are
-- out of date. The daemon runs one cycle after another, with a delay that depends on the report,
-- until a signal comes. The parts and their files:
--
--   Prelude     Boolean tests, lists, results, texts and signed numbers on the native naturals. A
--               text is the list of its code points; `len` counts the bytes of its UTF-8 form.
--               Dict: the sets and maps of std as lists, over an interface `Eq` of their keys.
--   Http        what the program reads of a reply, and the loop that collects a body under a limit.
--   PublicIp    src/public_ip.rs. Address: `is_public_address`. Response:
--               `parse_provider_response`. Discover: `discover` and `query_provider`.
--   Config      src/config.rs. Names: `canonical_dns_name` and `validate_dns_name`. Validate:
--               `validate`. Load: `load`, `parse`, `canonicalize` and `safe_parse_position`.
--               Token: `load_api_token`, `load_token_file` and their tests.
--   Cloudflare  src/cloudflare.rs. Errors: the classes of errors. Credentials:
--               `select_verification_target`. Sanitize: `sanitize_and_truncate` and
--               `prepare_error_details`. Client: the state of `CloudflareClient` and the monad of
--               its calls; Client/Send: `send`. Zones: `verify_token`, `resolve_zone_id` and the
--               zone cache. Records: `find_record`, `update_record`, `probe_record_edit` and
--               `create_record`.
--   Updater     src/updater.rs. Failures and the reports. Host: what the updater runs on. Plan:
--               `plan_record` and `execute_record_plan`. Addresses: `discover_required_addresses`.
--               Cycle: `run_cycle_until`, `run_cycle_locked` and `run_cycle`. Check: the records of a
--               check, its edit probes and creations; Check/Proofs: `ZoneProofs`; Check/Run:
--               `check_records`, `check_until` and `check`. Lock: `RuntimeLockIdentity` and its
--               paths; Lock/Open: `open_runtime_lock`; Lock/Parent: `prepare_lock_parent` and the
--               tests on lock directories; Lock/Acquire: `acquire` and the drop of its guard.
--   Daemon      src/daemon.rs. The retry policy; Run: `run_loop` as a step relation; Jitter:
--               `jitter_percent`.
--   App         src/main.rs and src/error.rs: the commands, `build_updater` with the constructors
--               of the clients and of `Updater`, the log filter and the exit status.
--   Examples    the theorems at concrete inputs.
--
-- State. A call of the Cloudflare client is a function from a `Session` to a reply and a session:
-- the world, the zone cache, the flag `mutation_in_flight` of `CycleControl`, and the list of the
-- requests that were sent, each with the flag as it stood meanwhile. The list is no variable of the
-- program; the properties speak of it. A reply is `expired` where the deadline of an enclosing
-- `timeout_at` cut the call off. Times are nanoseconds in discovery and in a cycle, and seconds in
-- the daemon.
--
-- Parameters. The HTTP exchange, the JSON, TOML and URL parsers, std's texts of IP addresses, the
-- clock, the deadline's expiry, the answers of the file system, `flock`, the builders of the HTTP
-- clients and the reason phrases of statuses belong to other code; they are fields of `IpText`,
-- `Network`, `Api`, `Host`, `FileCalls`, `LockSystem` and `Builders`, or arguments. Of these only three
-- are assumed to do anything in particular, and only where a theorem names it: by `IsFaithful` std
-- prints an address so that it parses back, by `Locking` a lock that `flock` grants is held, and the
-- calls that `acquire` makes on other files take none away, and a file's mode has 16 bits. What other processes do between two
-- calls is in the world that a call returns.
--
-- Bounds. The loops over pages take the number of pages that may still be asked for: it starts as
-- `max_pages`, 100, which is the program's own limit, and at zero the loop ends in the program's
-- `PaginationLimit`. All other loops recur on their lists or on a count.
--
-- Not modelled: the parsing of arguments by clap, the log, the text of the example configuration and
-- of the configuration's `Debug` form, the Unix signal handlers of src/daemon.rs (that a signal came
-- is a step), the joining of path segments to a URL, the closing of files that are dropped, the
-- disabled lock of the program's tests, the branches for other systems than Linux, and the
-- installer and the scripts. A command takes the outcome of acquiring the runtime lock as an
-- argument; acquiring it stands for itself in Updater/Lock. The two discoveries of a cycle, which
-- the program awaits together, run one after the other here. A `HashSet` or `HashMap` is a list, so
-- its order is that of insertion; a theorem that depends on an order says which.
pub mod Prelude
pub mod Http
pub mod PublicIp
pub mod Config
pub mod Cloudflare
pub mod Updater
pub mod Daemon
pub mod App
pub mod Examples
