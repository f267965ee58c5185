-- ===== src/Updater/Check/Handle/Whole.antt =====
-- The handlers of existing and of missing records in a check, from end to end, for src/updater.rs.
use cirrusync.Prelude.{
  ◌≡◌, refl, sym, ◌∙◌, Bool, true, false, ◌||◌, not, Option, none, some, arith, Result, ok, err,
}
use cirrusync.Prelude.Strings.{Text}
use cirrusync.Prelude.Dict.{text_equality}
use cirrusync.PublicIp.{IpAddr}
use cirrusync.Config.{RecordConfig}
use cirrusync.Cloudflare.{DnsRecord, RecordPayload, CloudflareError}
use cirrusync.Cloudflare.Client.{Reply, expired, failed, done}
use cirrusync.Cloudflare.Frame.{mutations}
use cirrusync.Cloudflare.Frame.Calls.{find_record-Logs}
use cirrusync.Updater.{FailureStage}
use cirrusync.Updater.Host.{Host}
use cirrusync.Updater.Addresses.{Updater, DiscoveredAddresses, for_record}
use cirrusync.Updater.Check.Proofs.{needs_proof}
use cirrusync.Updater.Check.{
  CheckOptions, Progress, count_existing, handle_existing_check_record, after_recheck, recheck,
  create_checked, handle_missing_check_record,
}
use cirrusync.Updater.Check.Visit.{
  failure_count, Asks-reads, Asks-same, Step, Step-fail, Step-then, Step-after, Step-if, Step-asks,
}
use cirrusync.Updater.Check.Handle.{
  add_zero, err-ne-ok, fail_check-Step, probe_existing-Step, create_missing-Step, if_in_time-Step,
  count_existing-Step, creatable-Step,
}

module _ (host : Host) (u : Updater) (c p : Bool) where
  open host use {api}

  -- Where the records' requests are allowed, `c` and `p` are the options of the check.
  module _ (o : CheckOptions) (hc : o.allow_create ≡ c) (hp : o.allow_edit_probe ≡ p) where
    pub handle_existing-Step :
        (r : RecordConfig) (zone_id : Text) (existing : DnsRecord) (x : Progress api.World)
        → x.session.mutation_in_flight ≡ false
        → Step c p 1 x (handle_existing_check_record host u o r zone_id existing x)
    unfolding handle_existing_check_record
    handle_existing-Step r zone_id existing x f =
        Step-if c p x (not o.allow_edit_probe || not (needs_proof zone_id x.proofs)) _ _
          (λ b. count_existing-Step host u c p x)
          λ b.
            Step-then c p x (count_existing host u x) false _ (add_zero _)
              (count_existing-Step host u c p x)
              (if_in_time-Step host u c p o.deadline _ _ f λ y g e.
                probe_existing-Step host u c p r zone_id existing y (sym hp ∙ ground (arith, b)) g)

    after_recheck-Step :
        (r : RecordConfig) (zone_id : Text) (payload : RecordPayload)
        (reply : Reply (Option DnsRecord) (FailureStage × CloudflareError)) (x : Progress api.World)
        → c ≡ true
        → x.session.mutation_in_flight ≡ false
        → Step c p 1 x (after_recheck host u o r zone_id payload reply x)
    unfolding after_recheck
    after_recheck-Step r zone_id payload expired x h f = Step-fail c p x true _
    after_recheck-Step r zone_id payload (failed (stage, e)) x h f =
        fail_check-Step host u c p r stage e x
    after_recheck-Step r zone_id payload (done (some existing)) x h f =
        handle_existing-Step r zone_id existing x f
    after_recheck-Step r zone_id payload (done none) x h f =
        if_in_time-Step host u c p o.deadline x _ f
          λ y g e. create_missing-Step host u c p r zone_id payload y h g

    recheck-Step :
        (r : RecordConfig) (zone_id : Text) (address : IpAddr) (x : Progress api.World)
        → c ≡ true
        → x.session.mutation_in_flight ≡ false
        → Step c p 1 x (recheck host u o r zone_id address x)
    unfolding recheck
    recheck-Step r zone_id address x h f =
        let l = find_record-Logs api u.cloudflare (some o.deadline) zone_id _ r.name x.session in
        Step-after c p x _ false _ (Step-asks c p x _ (Asks-reads c p l))
          (after_recheck-Step r zone_id _ _ _ h (l.flag ∙ f))

    create_checked-Step :
        (r : RecordConfig) (zone_id : Text) (known : Result IpAddr Text) (x : Progress api.World)
        → c ≡ true
        → (failure_count x.report ≡ 0 → (address : IpAddr) × (known ≡ ok address))
        → x.session.mutation_in_flight ≡ false
        → Step c p 1 x (create_checked host u o r zone_id known x)
    unfolding create_checked mutations
    create_checked-Step r zone_id (err message) x h k f = record {
      asks = Asks-same c p _ _ refl refl;
      proven = omega arith;
      created = omega arith;
      tracked = λ t. t;
      expected_kept = refl;
      failures_kept = omega arith;
      settles = λ z. absurd (err-ne-ok (k z).1);
      records_kept = refl;
      authenticated_kept = refl;
    }
    create_checked-Step r zone_id (ok address) x h k f =
        if_in_time-Step host u c p o.deadline x _ f λ y g e. recheck-Step r zone_id address y h g

    pub handle_missing-Step :
        (addresses : DiscoveredAddresses) (r : RecordConfig) (zone_id : Text)
        (x : Progress api.World)
        → (failure_count x.report ≡ 0 → (address : IpAddr) × (for_record addresses r ≡ ok address))
        → x.session.mutation_in_flight ≡ false
        → Step c p 1 x (handle_missing_check_record host u o addresses r zone_id x)
    unfolding handle_missing_check_record mutations
    handle_missing-Step addresses r zone_id x k f =
        Step-if c p x (not r.create_if_missing) _ _ (λ a. Step-fail c p x false _)
          λ a.
            Step-if c p x (not o.allow_create) _ _ (λ b. creatable-Step host u c p x)
              λ b. create_checked-Step r zone_id _ x (sym hc ∙ ground (arith, b)) k f
