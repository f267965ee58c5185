-- ===== src/Updater/Cycle.antt =====
-- src/updater.rs: the synchronization cycle. Times are nanoseconds.
pub mod Discovery
pub mod Order
pub mod Visit
pub mod Ledger
pub mod Accounting
use cirrusync.Prelude.{
  ℕ, zero, suc, ◌+◌, ◌*◌, ◌%◌, ◌^◌, Bool, true, false, ◌||◌, none, some, List, [], ◌∷◌, ◌++◌, leb,
  if◌then◌else◌, length, get_elem?, Result, ok, err,
}
use cirrusync.Prelude.Strings.{Text}
use cirrusync.Config.{RecordConfig}
use cirrusync.Cloudflare.{CloudflareError}
use cirrusync.Cloudflare.Errors.{is_authentication_failure, is_rate_limited}
use cirrusync.Cloudflare.Client.{Session, Reply, expired, failed, done}
use cirrusync.Updater.{FailureStage, CycleFailure, CycleReport, empty_report}
use cirrusync.Updater.Failures.{cloudflare_failure, coordination_failure, cycle_deadline_failure}
use cirrusync.Updater.Host.{Host}
use cirrusync.Updater.Plan.{RecordPlan, RecordOutcome, plan_record, execute_record_plan}
use cirrusync.Updater.Addresses.{
  Updater, DiscoveredAddresses, for_record, append_discovery_failures, discover_required_addresses,
}

-- `records[(start + offset) % count]` for the offsets from `offset` on.
pub offsets_from : List RecordConfig → ℕ → ℕ → ℕ → List RecordConfig
offsets_from records start offset zero = []
offsets_from records start offset (suc left) =
    elim (get_elem? records ((start + offset) % length records)) [
      | none ↦ []
      | some r ↦ r ∷ offsets_from records start (offset + 1) left
    ]

-- The order in which a cycle visits the records.
unfoldable pub visit_order : List RecordConfig → ℕ → List RecordConfig
unfolding offsets_from
visit_order records start = offsets_from records start 0 (length records)

-- `fetch_add(1) % record_count`, or 0 without records.
unfoldable pub start_index : ℕ → ℕ → ℕ
start_index cursor zero = 0
start_index cursor (suc count) = cursor % suc count

-- The cursor is advanced only when there are records.
unfoldable pub next_cursor : ℕ → ℕ → ℕ
next_cursor cursor zero = cursor
next_cursor cursor (suc count) = (cursor + 1) % 2 ^ 64

abbrev pub push_failure : CycleReport → CycleFailure → CycleReport
push_failure report f = record report { failures = report.failures ++ (f ∷ []) }

unfoldable pub count_outcome : CycleReport → RecordOutcome → CycleReport
count_outcome report RecordOutcome.unchanged = record report { unchanged = report.unchanged + 1 }
count_outcome report RecordOutcome.updated = record report { updated = report.updated + 1 }
count_outcome report RecordOutcome.created = record report { created = report.created + 1 }

unfoldable pub aborts_cycle : CloudflareError → Bool
aborts_cycle e = is_authentication_failure e || is_rate_limited e

-- Whether the loop over the records goes on after one of them.
pub data Flow : Type 0 where
  next stop : Flow

module _ (host : Host) where
  open host use {api, stopped, overrun, show_discovery_error}

  abbrev pub State : Type 0
  State = CycleReport × Session api.World

  module _ (u : Updater) (deadline : ℕ) where
    pub fail_record : RecordConfig → FailureStage × CloudflareError → CycleReport → CycleReport
    fail_record r (stage, e) report =
        push_failure report (cloudflare_failure api.canonical_reason r.name stage e)

    flow_after : FailureStage × CloudflareError → Flow
    flow_after (stage, e) = if aborts_cycle e then stop else next

    -- The outcome of a plan that was carried out. No deadline applies, so none has expired.
    pub finish_record :
        RecordConfig
        → Reply RecordOutcome (FailureStage × CloudflareError) × Session api.World
        → CycleReport
        → Flow × State
    unfolding fail_record flow_after
    finish_record r (expired, s) report = (stop, (report, s))
    finish_record r (done outcome, s) report = (next, (count_outcome report outcome, s))
    finish_record r (failed e, s) report = (flow_after e, (fail_record r e report, s))

    abbrev pub at_time : ℕ × api.World → Session api.World → Session api.World
    at_time (t, w) s = record s { world = w }

    pub run_plan : RecordConfig → RecordPlan → CycleReport → Session api.World → Flow × State
    unfolding finish_record
    run_plan r plan report s =
        let clock = api.now s.world in
        let late : Flow × State =
          (stop, (push_failure report cycle_deadline_failure, at_time clock s)) in
        let go : Flow × State =
          finish_record r (execute_record_plan host u.cloudflare plan (at_time clock s)) report in
        if leb deadline clock.0 then late else go

    pub planned :
        RecordConfig
        → Reply RecordPlan (FailureStage × CloudflareError) × Session api.World
        → CycleReport
        → Flow × State
    unfolding run_plan
    planned r (expired, s) report = (stop, (push_failure report cycle_deadline_failure, s))
    planned r (failed e, s) report = (flow_after e, (fail_record r e report, s))
    planned r (done plan, s) report = run_plan r plan report s

    pub visit_record : DiscoveredAddresses → RecordConfig → State → Flow × State
    unfolding planned
    visit_record addresses r (report, s) = elim (for_record addresses r) [
      | err message ↦ (next, (report, s))
      | ok address ↦ planned r (plan_record host u.cloudflare (some deadline) r address s) report
    ]

    pub visit_records : DiscoveredAddresses → List RecordConfig → State → State
    unfolding visit_record
    visit_records addresses [] (report, s) = (report, s)
    visit_records addresses (r ∷ rest) (report, s) = elim (stopped s.world) [
      | true ↦ (record report { interrupted = true }, s)
      | false ↦
          let (flow, st) = visit_record addresses r (report, s) in
          elim flow [ stop ↦ st | next ↦ visit_records addresses rest st ]
    ]

    -- The cycle behind the discovery, with the cursor as it was before `fetch_add`.
    pub synchronize : DiscoveredAddresses → ℕ → Session api.World → State
    unfolding visit_records
    synchronize addresses cursor s =
        visit_records addresses
          (visit_order u.config.records (start_index cursor (length u.config.records)))
          (
            record (empty_report (length u.config.records)) {
              failures = append_discovery_failures addresses [];
            },
            s,
          )

    -- The report, the cursor and the session that a cycle leaves.
    unfoldable pub run_cycle_until : ℕ → Session api.World → CycleReport × ℕ × Session api.World
    unfolding synchronize
    run_cycle_until cursor s = elim (overrun deadline s.world) [
      | some w ↦ (
        push_failure (empty_report (length u.config.records)) cycle_deadline_failure,
        cursor,
        record s { world = w },
      )
      | none ↦
          let (addresses, w) = discover_required_addresses host u s.world in
          let (report, s') = synchronize addresses cursor (record s { world = w }) in
          (report, next_cursor cursor (length u.config.records), s')
    ]

  pub run_cycle_locked : Updater → ℕ → Session api.World → CycleReport × ℕ × Session api.World
  run_cycle_locked u cursor s =
      let (now, w) = api.now s.world in
      run_cycle_until u (now + u.config.interval_seconds * 1000000000) cursor
        (record s { world = w })

  -- `lock` is what acquiring the runtime lock came to; an error is the text of its display.
  unfoldable pub run_cycle :
      Updater → Result (Unit {0}) Text → ℕ → Session api.World → CycleReport × ℕ × Session api.World
  unfolding run_cycle_locked
  run_cycle u (err message) cursor s = (
    push_failure (empty_report (length u.config.records)) (coordination_failure message),
    cursor,
    s,
  )
  run_cycle u (ok held) cursor s = run_cycle_locked u cursor s
