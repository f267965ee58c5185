-- ===== src/Updater/Check/Run.antt =====
-- src/updater.rs: `check` from its start, and its loop over the records.
pub mod Records
pub mod Balance
pub mod Ledger
use cirrusync.Prelude.{
  ◌+◌, Bool, true, false, ◌||◌, Option, none, some, List, [], ◌∷◌, if◌then◌else◌, length, Result,
  ok, err,
}
use cirrusync.Prelude.Strings.{Text, text}
use cirrusync.Config.{RecordConfig}
use cirrusync.Cloudflare.{DnsRecord, CloudflareError}
use cirrusync.Cloudflare.Errors.{is_authentication_failure, is_permission_denied, is_rate_limited}
use cirrusync.Cloudflare.Client.{Session, Reply, expired, failed, done}
use cirrusync.Cloudflare.Zones.{verify_token, resolve_zone_id}
use cirrusync.Updater.{FailureStage, CheckReport}
use cirrusync.Updater.Failures.{cloudflare_failure, coordination_failure, check_deadline_failure}
use cirrusync.Updater.Host.{Host}
use cirrusync.Updater.Plan.{at_stage, lookup}
use cirrusync.Updater.Addresses.{
  Updater, DiscoveredAddresses, append_discovery_failures, discover_required_addresses,
}
use cirrusync.Updater.Check.Proofs.{
  for_config, mark_resolved, summarize_check_proofs, finalize_check_report,
}
use cirrusync.Updater.Check.{
  check_timeout, empty_check_report, add_failure, CheckOptions, Progress, Visited, late, fail_check,
  handle_existing_check_record, handle_missing_check_record,
}

module _ (host : Host) (u : Updater) where
  open host use {api, overrun}

  -- `expired` is `CheckLookupError::Deadline`, an error is `CheckLookupError::Cloudflare`.
  abbrev pub Inspected : Type 0
  Inspected = Reply (Text × Option DnsRecord) (FailureStage × CloudflareError)

  pub inspected_record :
      Text → Reply (Option DnsRecord) (FailureStage × CloudflareError) → Inspected
  inspected_record zone_id expired = expired
  inspected_record zone_id (failed e) = failed e
  inspected_record zone_id (done existing) = done (zone_id, existing)

  -- The zone is marked as resolved before the record is looked up.
  pub inspect_zone :
      CheckOptions
      → RecordConfig
      → Reply Text (FailureStage × CloudflareError)
      → Progress api.World
      → Inspected × Progress api.World
  unfolding inspected_record
  inspect_zone o r expired c = (expired, c)
  inspect_zone o r (failed e) c = (failed e, c)
  inspect_zone o r (done zone_id) c =
      let (reply, s) = lookup host u.cloudflare (some o.deadline) r zone_id c.session in
      (
        inspected_record zone_id reply,
        record c { proofs = mark_resolved r zone_id c.proofs; session = s },
      )

  pub inspect_check_record :
      CheckOptions → RecordConfig → Progress api.World → Inspected × Progress api.World
  unfolding inspect_zone
  inspect_check_record o r c =
      let (reply, s) =
        at_stage host u.cloudflare FailureStage.zone_lookup
          (resolve_zone_id api u.cloudflare (some o.deadline) r.zone r.zone_id) c.session in
      inspect_zone o r reply (record c { session = s })

  -- What the loop does with one record.
  pub handle_check_record :
      CheckOptions
      → DiscoveredAddresses
      → RecordConfig
      → Inspected
      → Progress api.World
      → Visited host u
  handle_check_record o addresses r expired c = late host u c
  handle_check_record o addresses r (failed (stage, e)) c = fail_check host u r stage e c
  handle_check_record o addresses r (done (zone_id, some existing)) c =
      handle_existing_check_record host u o r zone_id existing c
  handle_check_record o addresses r (done (zone_id, none)) c =
      handle_missing_check_record host u o addresses r zone_id c

  pub check_record :
      CheckOptions → DiscoveredAddresses → RecordConfig → Progress api.World → Visited host u
  unfolding inspect_check_record handle_check_record
  check_record o addresses r c =
      let (inspected, c') = inspect_check_record o r c in
      handle_check_record o addresses r inspected c'

  pub check_records :
      CheckOptions
      → DiscoveredAddresses
      → List RecordConfig
      → Progress api.World
      → Progress api.World
  unfolding check_record
  check_records o addresses [] c = c
  check_records o addresses (r ∷ rest) c =
      let (abort, c') = check_record o addresses r c in
      elim abort [ true ↦ c' | false ↦ check_records o addresses rest c' ]

  -- The report and the session that a check leaves.
  abbrev pub Checked : Type 0
  Checked = CheckReport × Session api.World

  -- `check_until` behind the discovery.
  pub check_found : CheckOptions → DiscoveredAddresses → Progress api.World → Checked
  unfolding check_records
  check_found o addresses c =
      let c' = check_records o addresses u.config.records (record c {
        report = record c.report {
          failures = append_discovery_failures addresses c.report.failures;
        };
      }) in
      (finalize_check_report c'.proofs o.allow_edit_probe c'.report, c'.session)

  -- `check_until` behind the verification of the token.
  pub check_verified : CheckOptions → Progress api.World → Checked
  unfolding check_found
  check_verified o c = elim (overrun o.deadline c.session.world) [
    | some w ↦ (
      summarize_check_proofs c.proofs (add_failure check_deadline_failure c.report),
      record c.session { world = w },
    )
    | none ↦
        let (addresses, w) = discover_required_addresses host u c.session.world in
        check_found o addresses (record c { session = record c.session { world = w } })
  ]

  pub aborts_check : CloudflareError → Bool
  aborts_check e = is_authentication_failure e || is_permission_denied e || is_rate_limited e

  pub token_checked : CheckOptions → Reply (Unit {0}) CloudflareError → Progress api.World → Checked
  unfolding check_verified aborts_check
  token_checked o expired c =
      (summarize_check_proofs c.proofs (add_failure check_deadline_failure c.report), c.session)
  token_checked o (done tt) c =
      check_verified o (record c { report = record c.report { authenticated = true } })
  token_checked o (failed e) c =
      let report =
        add_failure
          (cloudflare_failure api.canonical_reason (text "Cloudflare API token")
            FailureStage.authentication e)
          c.report in
      let rest = check_verified o (record c { report = report }) in
      if aborts_check e then (summarize_check_proofs c.proofs report, c.session) else rest

  pub check_until : CheckOptions → Session api.World → Checked
  unfolding token_checked
  check_until o s =
      let (reply, s') = verify_token api u.cloudflare (some o.deadline) s in
      token_checked o reply (record {
        proofs = for_config u.config;
        report = empty_check_report (length u.config.records);
        session = s';
      })

  pub check_locked : Bool → Bool → Session api.World → Checked
  unfolding check_until
  check_locked allow_create allow_edit_probe s =
      let (now, w) = api.now s.world in
      check_until
        (record {
          allow_create = allow_create;
          allow_edit_probe = allow_edit_probe;
          deadline = now + check_timeout;
        })
        (record s { world = w })

  -- `lock` is what acquiring the runtime lock comes to, which is asked for only where the check
  -- may write; an error is the text of its display.
  pub check : Bool → Bool → Result (Unit {0}) Text → Session api.World → Checked
  unfolding check_locked
  check allow_create allow_edit_probe lock s =
      let run = check_locked allow_create allow_edit_probe s in
      if allow_create || allow_edit_probe
      then elim lock [
        | err message ↦ (
          add_failure (coordination_failure message) (empty_check_report (length u.config.records)),
          s,
        )
        | ok held ↦ run
      ]
      else run
