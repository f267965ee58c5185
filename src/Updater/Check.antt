-- ===== src/Updater/Check.antt =====
-- src/updater.rs: the `check` workflow. Times are nanoseconds, as in a cycle.
pub mod Proofs
pub mod Run
pub mod Visit
pub mod Handle
use cirrusync.Prelude.{
  ℕ, suc, ◌+◌, ◌-◌, ◌*◌, ◌^◌, Bool, true, false, ◌&&◌, ◌||◌, not, Option, none, some, [], ◌∷◌, ◌++◌,
  min, leb, if◌then◌else◌, length, Result, ok, err,
}
use cirrusync.Prelude.Strings.{Text, text, decimal}
use cirrusync.PublicIp.{IpAddr}
use cirrusync.Config.{RecordConfig}
use cirrusync.Cloudflare.{DnsRecord, RecordPayload, CloudflareError}
use cirrusync.Cloudflare.Client.{Session, Reply, expired, failed, done, Client}
use cirrusync.Cloudflare.Records.{probe_record_edit, create_record}
use cirrusync.Updater.{FailureStage, CycleFailure, CheckReport}
use cirrusync.Updater.Failures.{cloudflare_failure, permanent_failure, check_deadline_failure}
use cirrusync.Updater.Host.{Host}
use cirrusync.Updater.Plan.{record_payload, lookup, during_mutation}
use cirrusync.Updater.Addresses.{Updater, DiscoveredAddresses, for_record}
use cirrusync.Updater.Cycle.{aborts_cycle, at_time}
use cirrusync.Updater.Check.Proofs.{ZoneProofs, needs_proof, mark_proven}

abbrev pub nanoseconds : ℕ
nanoseconds = 1000000000

abbrev pub check_timeout : ℕ
check_timeout = 300 * nanoseconds

abbrev pub mutation_start_margin : ℕ
mutation_start_margin = 1 * nanoseconds

-- `Duration::MAX`
abbrev pub longest_duration : ℕ
longest_duration = 2 ^ 64 * nanoseconds - 1

pub empty_check_report : ℕ → CheckReport
empty_check_report records = record {
  records = records;
  authenticated = false;
  existing = 0;
  creatable = 0;
  created = 0;
  edit_verified_zones = 0;
  edit_permission_verified = false;
  failures = [];
}

unfoldable pub check_report_str : CheckReport → Text
check_report_str r =
    decimal r.records
    ++ text " record(s): "
    ++ decimal r.existing
    ++ text " existing, "
    ++ decimal r.creatable
    ++ text " creatable, "
    ++ decimal r.created
    ++ text " created, edit permission verified for "
    ++ decimal r.edit_verified_zones
    ++ text " zone(s), "
    ++ decimal (length r.failures)
    ++ text " failure(s)"

abbrev pub add_failure : CycleFailure → CheckReport → CheckReport
add_failure f report = record report { failures = report.failures ++ (f ∷ []) }

pub record CheckOptions : Type 0 where
  pub allow_create : Bool
  pub allow_edit_probe : Bool
  pub deadline : ℕ

-- What the loop over the records changes: the proofs, the report and the session.
pub record Progress (W : Type 0) : Type 0 where
  pub proofs : ZoneProofs
  pub report : CheckReport
  pub session : Session W

abbrev pub add_to_report : {W : Type 0} → CycleFailure → Progress W → Progress W
add_to_report f c = record c { report = add_failure f c.report }

-- Whether the request's time and the margin are left before the deadline.
pub mutation_can_finish_before : Client → ℕ → ℕ → Bool
mutation_can_finish_before client deadline now =
    leb now deadline
    && leb (min (client.request_timeout + mutation_start_margin) longest_duration) (deadline - now)

module _ (host : Host) (u : Updater) where
  open host use {api, ip, overrun}

  -- The loop goes on after `false`, and breaks after `true`.
  abbrev pub Visited : Type 0
  Visited = Bool × Progress api.World

  abbrev pub late : Progress api.World → Visited
  late c = (true, add_to_report check_deadline_failure c)

  pub fail_check : RecordConfig → FailureStage → CloudflareError → Progress api.World → Visited
  fail_check r stage e c =
      (aborts_cycle e, add_to_report (cloudflare_failure api.canonical_reason r.name stage e) c)

  -- A test of the clock, and what follows where the time is left and where it is not.
  pub if_in_time : ℕ → Progress api.World → (Progress api.World → Visited) → Visited
  unfolding mutation_can_finish_before
  if_in_time deadline c next =
      let clock = api.now c.session.world in
      let c' = record c { session = at_time host u deadline clock c.session } in
      let go = next c' in
      if mutation_can_finish_before u.cloudflare deadline clock.0 then go else late c'

  -- The end of `handle_existing_check_record`, with the result of `probe_edit_permission`. No
  -- deadline applies to a mutation, so none has expired.
  pub finish_probe :
      RecordConfig → Text → Reply DnsRecord CloudflareError → Progress api.World → Visited
  unfolding fail_check
  finish_probe r zone_id expired c = (true, c)
  finish_probe r zone_id (done changed) c =
      (false, record c { proofs = mark_proven zone_id c.proofs })
  finish_probe r zone_id (failed e) c = fail_check r FailureStage.edit_permission e c

  pub probe_existing : RecordConfig → Text → DnsRecord → Progress api.World → Visited
  unfolding finish_probe
  probe_existing r zone_id existing c =
      let (reply, s) =
        during_mutation host u.cloudflare (probe_record_edit api u.cloudflare none zone_id existing)
          c.session in
      finish_probe r zone_id reply (record c { session = s })

  abbrev pub count_existing : Progress api.World → Progress api.World
  count_existing c = record c { report = record c.report { existing = c.report.existing + 1 } }

  pub handle_existing_check_record :
      CheckOptions → RecordConfig → Text → DnsRecord → Progress api.World → Visited
  unfolding probe_existing if_in_time
  handle_existing_check_record o r zone_id existing c =
      let counted = count_existing c in
      let probed = if_in_time o.deadline counted (probe_existing r zone_id existing) in
      if not o.allow_edit_probe || not (needs_proof zone_id c.proofs)
      then (false, counted)
      else probed

  pub finish_create :
      RecordConfig → Text → Reply DnsRecord CloudflareError → Progress api.World → Visited
  unfolding fail_check
  finish_create r zone_id expired c = (true, c)
  finish_create r zone_id (done made) c = (
    false,
    record c {
      proofs = mark_proven zone_id c.proofs;
      report = record c.report { created = c.report.created + 1 };
    },
  )
  finish_create r zone_id (failed e) c = fail_check r FailureStage.creation e c

  pub create_missing : RecordConfig → Text → RecordPayload → Progress api.World → Visited
  unfolding finish_create
  create_missing r zone_id payload c =
      let (reply, s) =
        during_mutation host u.cloudflare (create_record api u.cloudflare none zone_id payload)
          c.session in
      finish_create r zone_id reply (record c { session = s })

  -- What the second lookup of a missing record came to.
  pub after_recheck :
      CheckOptions
      → RecordConfig
      → Text
      → RecordPayload
      → Reply (Option DnsRecord) (FailureStage × CloudflareError)
      → Progress api.World
      → Visited
  unfolding handle_existing_check_record create_missing
  after_recheck o r zone_id payload expired c = late c
  after_recheck o r zone_id payload (failed (stage, e)) c = fail_check r stage e c
  after_recheck o r zone_id payload (done (some existing)) c =
      handle_existing_check_record o r zone_id existing c
  after_recheck o r zone_id payload (done none) c =
      if_in_time o.deadline c (create_missing r zone_id payload)

  pub recheck : CheckOptions → RecordConfig → Text → IpAddr → Progress api.World → Visited
  unfolding after_recheck
  recheck o r zone_id address c =
      let (reply, s) = lookup host u.cloudflare (some o.deadline) r zone_id c.session in
      after_recheck o r zone_id (record_payload ip r address) reply (record c { session = s })

  -- The last part of `handle_missing_check_record`: the record may be created.
  pub create_checked :
      CheckOptions → RecordConfig → Text → Result IpAddr Text → Progress api.World → Visited
  unfolding recheck
  create_checked o r zone_id (err message) c = (false, c)
  create_checked o r zone_id (ok address) c = if_in_time o.deadline c (recheck o r zone_id address)

  abbrev pub missing_failure : RecordConfig → CycleFailure
  missing_failure r =
      permanent_failure r.name FailureStage.record_lookup
        (text "record does not exist and creation is disabled")

  pub handle_missing_check_record :
      CheckOptions → DiscoveredAddresses → RecordConfig → Text → Progress api.World → Visited
  unfolding create_checked
  handle_missing_check_record o addresses r zone_id c =
      let disabled : Visited = (false, add_to_report (missing_failure r) c) in
      let left : Visited =
        (false, record c { report = record c.report { creatable = c.report.creatable + 1 } }) in
      let checked = create_checked o r zone_id (for_record addresses r) c in
      if not r.create_if_missing then disabled else if not o.allow_create then left else checked
