-- ===== src/Updater/Cycle/Visit.antt =====
-- What the visit of one record sends and reports, for `synchronize` in src/updater.rs.
use cirrusync.Prelude.{
  ℕ, suc, ◌+◌, ◌≤◌, ◌≡◌, ◌≢◌, refl, sym, ap, ◌∙◌, inl, inr, false, some, [], ◌∷◌, arith, leb,
  length, length-append, Bool-cases, ok,
}
use cirrusync.PublicIp.{IpAddr}
use cirrusync.Config.{RecordConfig}
use cirrusync.Cloudflare.{CloudflareError}
use cirrusync.Cloudflare.Client.{Session, Reply, expired, failed, done, bind_reply, ◌>>=◌, return}
use cirrusync.Cloudflare.Frame.{Logs, Logs-same, Logs-then}
use cirrusync.Updater.{FailureStage, CycleFailure, CycleReport}
use cirrusync.Updater.Host.{Host}
use cirrusync.Updater.Plan.{RecordPlan, update, create, RecordOutcome, execute_record_plan}
use cirrusync.Updater.Plan.Effects.{
  planned_mutations, plan_record-Logs, execute_record_plan-Logs, execute_record_plan-settled,
}
use cirrusync.Updater.Addresses.{Updater, DiscoveredAddresses, for_record}
use cirrusync.Updater.Cycle.{
  Flow, count_outcome, push_failure, finish_record, fail_record, run_plan, planned, visit_record,
  at_time,
}

abbrev pub written : CycleReport → ℕ
written report = report.updated + report.created

abbrev pub completed : CycleReport → ℕ
completed report = report.unchanged + report.updated + report.created

abbrev pub failure_count : CycleReport → ℕ
failure_count report = length report.failures

abbrev outcome_mutations : RecordOutcome → ℕ
outcome_mutations RecordOutcome.unchanged = 0
outcome_mutations RecordOutcome.updated = 1
outcome_mutations RecordOutcome.created = 1

push_failure-count :
    (report : CycleReport) (f : CycleFailure)
    → failure_count (push_failure report f) ≡ failure_count report + 1
push_failure-count report f = length-append report.failures (f ∷ [])

-- What a visit adds to a report, and what it sends: every change that is counted was sent, and
-- every mutation that was sent is counted or followed by a failure. A visit that reports no
-- failure settles its record.
pub record VisitLedger {W : Type 0} (report : CycleReport) (s : Session W)
    (out : Flow × (CycleReport × Session W)) : Type 0 where
  pub sent : ℕ
  pub logs : Logs sent s out.1.1
  pub at_least : written out.1.0 ≤ written report + sent
  pub at_most :
      sent + written report + failure_count report ≤ written out.1.0 + failure_count out.1.0
  pub failures_kept : failure_count report ≤ failure_count out.1.0
  pub settles :
      failure_count out.1.0 ≡ 0 → (out.0 ≡ Flow.next) × (completed out.1.0 ≡ suc (completed report))
  pub records_kept : out.1.0.records ≡ report.records

-- A visit that ends in a failure.
failing-VisitLedger :
    {W : Type 0} {n : ℕ} (report : CycleReport) (s t : Session W) (f : CycleFailure) (flow : Flow)
    → n ≤ 1
    → Logs n s t
    → VisitLedger report s (flow, (push_failure report f, t))
failing-VisitLedger {n = n} report s t f flow h l =
    let c = push_failure-count report f in
    record {
      sent = n;
      logs = l;
      at_least = omega arith;
      at_most = omega (arith, c);
      failures_kept = omega (arith, c);
      settles = λ z. absurd (omega (arith, c, z));
      records_kept = refl;
    }

counted-VisitLedger :
    {W : Type 0} (outcome : RecordOutcome) (report : CycleReport) (s t : Session W)
    → Logs (outcome_mutations outcome) s t
    → VisitLedger report s (Flow.next, (count_outcome report outcome, t))
unfolding count_outcome
counted-VisitLedger RecordOutcome.unchanged report s t l = record {
  sent = 0;
  logs = l;
  at_least = omega arith;
  at_most = omega arith;
  failures_kept = omega arith;
  settles = λ z. (refl, omega arith);
  records_kept = refl;
}
counted-VisitLedger RecordOutcome.updated report s t l = record {
  sent = 1;
  logs = l;
  at_least = omega arith;
  at_most = omega arith;
  failures_kept = omega arith;
  settles = λ z. (refl, omega arith);
  records_kept = refl;
}
counted-VisitLedger RecordOutcome.created report s t l = record {
  sent = 1;
  logs = l;
  at_least = omega arith;
  at_most = omega arith;
  failures_kept = omega arith;
  settles = λ z. (refl, omega arith);
  records_kept = refl;
}

bind_reply-return-done :
    {W A B E : Type 0} (r : Reply A E) (t : Session W) (b c : B)
    → (bind_reply r t (λ a. return b)).0 ≡ done c
    → b ≡ c
bind_reply-return-done expired t b c h = cc
bind_reply-return-done (failed e) t b c h = cc
bind_reply-return-done (done a) t b c h = cc

done-injective : {A E : Type 0} (x : Reply A E) (a b : A) → x ≡ done a → x ≡ done b → a ≡ b
done-injective x a b h k = cc

planned-le : (plan : RecordPlan) → planned_mutations plan ≤ 1
unfolding planned_mutations
planned-le RecordPlan.unchanged = omega arith
planned-le (update zone_id record_id payload) = omega arith
planned-le (create zone_id payload) = omega arith

module _ (host : Host) (u : Updater) (deadline : ℕ) where
  open host use {api}

  execute-outcome :
      (plan : RecordPlan) (s : Session api.World) (o : RecordOutcome)
      → (execute_record_plan host u.cloudflare plan s).0 ≡ done o
      → outcome_mutations o ≡ planned_mutations plan
  unfolding execute_record_plan ◌>>=◌ planned_mutations
  execute-outcome RecordPlan.unchanged s o h =
      ap outcome_mutations (sym (done-injective _ RecordOutcome.unchanged o refl h))
  execute-outcome (update zone_id record_id payload) s o h =
      ap outcome_mutations (sym (bind_reply-return-done _ _ RecordOutcome.updated o h))
  execute-outcome (create zone_id payload) s o h =
      ap outcome_mutations (sym (bind_reply-return-done _ _ RecordOutcome.created o h))

  finish_record-VisitLedger :
      (r : RecordConfig) (n : ℕ)
      (x : Reply RecordOutcome (FailureStage × CloudflareError) × Session api.World)
      (report : CycleReport) (s : Session api.World)
      → n ≤ 1
      → Logs n s x.1
      → x.0 ≢ expired
      → ((o : RecordOutcome) → x.0 ≡ done o → outcome_mutations o ≡ n)
      → VisitLedger report s (finish_record host u deadline r x report)
  unfolding finish_record fail_record
  finish_record-VisitLedger r n (expired, t) report s h l e o = absurd (e refl)
  finish_record-VisitLedger r n (failed x, t) report s h l e o =
      failing-VisitLedger report s t _ _ h l
  finish_record-VisitLedger r n (done outcome, t) report s h l e o =
      counted-VisitLedger outcome report s t (rw (o outcome refl) l)

  run_plan-VisitLedger :
      (r : RecordConfig) (plan : RecordPlan) (report : CycleReport) (s t : Session api.World)
      → t.mutation_in_flight ≡ false
      → Logs 0 s t
      → VisitLedger report s (run_plan host u deadline r plan report t)
  unfolding run_plan
  run_plan-VisitLedger r plan report s t f l = elim (Bool-cases (leb deadline clock.0)) [
    | inl late ↦ rw late (failing-VisitLedger report s started _ _ (omega arith) (before l))
    | inr go ↦ rw go (
        finish_record-VisitLedger r (planned_mutations plan) _ report s (planned-le plan)
          (Logs-then (before l) (execute_record_plan-Logs host u.cloudflare plan started f))
          (execute_record_plan-settled host u.cloudflare plan started)
          (execute-outcome plan started))
  ]
    where
      clock : ℕ × api.World
      clock = api.now t.world

      started : Session api.World
      started = at_time host u deadline clock t

      before : Logs 0 s t → Logs 0 s started
      before l = Logs-then l (Logs-same t started refl refl)

  planned-VisitLedger :
      (r : RecordConfig) (x : Reply RecordPlan (FailureStage × CloudflareError) × Session api.World)
      (report : CycleReport) (s : Session api.World)
      → x.1.mutation_in_flight ≡ false
      → Logs 0 s x.1
      → VisitLedger report s (planned host u deadline r x report)
  unfolding planned fail_record
  planned-VisitLedger r (expired, t) report s f l =
      failing-VisitLedger report s t _ _ (omega arith) l
  planned-VisitLedger r (failed e, t) report s f l =
      failing-VisitLedger report s t _ _ (omega arith) l
  planned-VisitLedger r (done plan, t) report s f l = run_plan-VisitLedger r plan report s t f l

  pub visit_record-VisitLedger :
      (addresses : DiscoveredAddresses) (r : RecordConfig) (address : IpAddr) (report : CycleReport)
      (s : Session api.World)
      → for_record addresses r ≡ ok address
      → s.mutation_in_flight ≡ false
      → VisitLedger report s (visit_record host u deadline addresses r (report, s))
  unfolding visit_record
  visit_record-VisitLedger addresses r address report s h f =
      let l = plan_record-Logs host u.cloudflare (some deadline) r address s in
      rw (h, visit_record) (planned-VisitLedger r _ report s (l.flag ∙ f) l)
