-- ===== src/Updater/Check/Run/Records.antt =====
-- The loop of a check over the records, for `check_records` in src/updater.rs.
use cirrusync.Prelude.{
  ℕ, suc, ◌+◌, ◌≡◌, refl, sym, ◌∙◌, inl, inr, Bool, true, false, none, some, List, [], ◌∷◌, arith,
  length, All, Bool-cases, ok,
}
use cirrusync.Prelude.Strings.{Text}
use cirrusync.Prelude.Dict.{contains}
use cirrusync.PublicIp.{IpAddr}
use cirrusync.Config.{RecordConfig}
use cirrusync.Cloudflare.{CloudflareError}
use cirrusync.Cloudflare.Client.{Reply, expired, failed, done}
use cirrusync.Cloudflare.Frame.Calls.{resolve_zone_id-Logs, find_record-Logs}
use cirrusync.Updater.{FailureStage}
use cirrusync.Updater.Host.{Host}
use cirrusync.Updater.Addresses.{Updater, DiscoveredAddresses, for_record}
use cirrusync.Updater.Cycle.Ledger.{Known}
use cirrusync.Updater.Check.Proofs.{zone_equality, zone_of, ZoneProofs, mark_resolved}
use cirrusync.Updater.Check.Proofs.Tracking.{mark_resolved-IsTracking}
use cirrusync.Updater.Check.{CheckOptions, Progress, Visited}
use cirrusync.Updater.Check.Run.{
  Inspected, inspect_zone, inspect_check_record, handle_check_record, check_record, check_records,
}
use cirrusync.Updater.Check.Visit.{
  failure_count, Asks-reads, Step, Step-fail, Step-then, Step-after, Step-refl, Step-asks,
}
use cirrusync.Updater.Check.Handle.{fail_check-Step}
use cirrusync.Updater.Check.Handle.Whole.{handle_existing-Step, handle_missing-Step}

one_add : (n : ℕ) → 1 + n ≡ suc n
one_add n = omega arith

-- The zone of every record is expected.
abbrev pub Expected : ZoneProofs → List RecordConfig → Type 0
Expected p = All (λ r. contains p.expected (zone_of r) ≡ true)

module _ (host : Host) (u : Updater) (c p : Bool) (o : CheckOptions) where
  open host use {api}

  inspect_zone-Step :
      (r : RecordConfig) (reply : Reply Text (FailureStage × CloudflareError))
      (x : Progress api.World)
      → contains x.proofs.expected (zone_of r) ≡ true
      → Step c p 0 x (false, (inspect_zone host u o r reply x).1)
  unfolding inspect_zone mark_resolved
  inspect_zone-Step r expired x h = Step-refl c p x
  inspect_zone-Step r (failed e) x h = Step-refl c p x
  inspect_zone-Step r (done zone_id) x h = record {
    asks =
        Asks-reads c p
          (find_record-Logs api u.cloudflare (some o.deadline) zone_id _ r.name x.session);
    proven = omega arith;
    created = omega arith;
    tracked = mark_resolved-IsTracking r zone_id x.proofs h;
    expected_kept = refl;
    failures_kept = omega arith;
    settles = λ z. (refl, omega arith);
    records_kept = refl;
    authenticated_kept = refl;
  }

  inspect-Step :
      (r : RecordConfig) (x : Progress api.World)
      → contains x.proofs.expected (zone_of r) ≡ true
      → Step c p 0 x (false, (inspect_check_record host u o r x).1)
  unfolding inspect_check_record
  inspect-Step r x h =
      Step-after c p x _ false _
        (Step-asks c p x _ (
          Asks-reads c p
            (resolve_zone_id-Logs api u.cloudflare (some o.deadline) r.zone r.zone_id x.session)))
        (inspect_zone-Step r _ _ h)

  module _ (hc : o.allow_create ≡ c) (hp : o.allow_edit_probe ≡ p) where
    handle-Step :
        (addresses : DiscoveredAddresses) (r : RecordConfig) (inspected : Inspected host u)
        (x : Progress api.World)
        → (failure_count x.report ≡ 0 → (address : IpAddr) × (for_record addresses r ≡ ok address))
        → x.session.mutation_in_flight ≡ false
        → Step c p 1 x (handle_check_record host u o addresses r inspected x)
    unfolding handle_check_record
    handle-Step addresses r expired x k f = Step-fail c p x true _
    handle-Step addresses r (failed (stage, e)) x k f = fail_check-Step host u c p r stage e x
    handle-Step addresses r (done (zone_id, some existing)) x k f =
        handle_existing-Step host u c p o hc hp r zone_id existing x f
    handle-Step addresses r (done (zone_id, none)) x k f =
        handle_missing-Step host u c p o hc hp addresses r zone_id x k f

    check_record-Step :
        (addresses : DiscoveredAddresses) (r : RecordConfig) (x : Progress api.World)
        → contains x.proofs.expected (zone_of r) ≡ true
        → (failure_count x.report ≡ 0 → (address : IpAddr) × (for_record addresses r ≡ ok address))
        → x.session.mutation_in_flight ≡ false
        → Step c p 1 x (check_record host u o addresses r x)
    unfolding check_record
    check_record-Step addresses r x h k f =
        let i = inspect-Step r x h in
        Step-after c p x _ false _ i (
          handle-Step addresses r _ _ (λ z. k (omega (arith, i.failures_kept, z)))
            (i.asks.flag ∙ f))

    true-ne-false : true ≡ false → ⊥
    true-ne-false h = cc

    -- An abort leaves a failure.
    Step-stopped :
        {n : ℕ} (x : Progress api.World) (out : Visited host u)
        → out.0 ≡ true
        → Step c p 1 x out
        → Step c p n x (false, out.1)
    Step-stopped x out e v = record {
      asks = v.asks;
      proven = v.proven;
      created = v.created;
      tracked = v.tracked;
      expected_kept = v.expected_kept;
      failures_kept = v.failures_kept;
      settles = λ z. absurd (true-ne-false (sym e ∙ (v.settles z).0));
      records_kept = v.records_kept;
      authenticated_kept = v.authenticated_kept;
    }

    Step-next :
        {n : ℕ} (x : Progress api.World) (out : Visited host u) (y : Progress api.World)
        → Step c p 1 x out
        → Step c p n out.1 (false, y)
        → Step c p (suc n) x (false, y)
    Step-next x out y v l = Step-then c p x out.1 out.0 (false, y) (one_add _) v l

    check_records-next :
        (addresses : DiscoveredAddresses) (r : RecordConfig) (rs : List RecordConfig)
        (x : Progress api.World)
        → (check_record host u o addresses r x).0 ≡ false
        → check_records host u o addresses (r ∷ rs) x
          ≡ check_records host u o addresses rs (check_record host u o addresses r x).1
    unfolding check_records
    check_records-next addresses r rs x h = rw (check_records, h) refl

    check_records-stop :
        (addresses : DiscoveredAddresses) (r : RecordConfig) (rs : List RecordConfig)
        (x : Progress api.World)
        → (check_record host u o addresses r x).0 ≡ true
        → check_records host u o addresses (r ∷ rs) x ≡ (check_record host u o addresses r x).1
    unfolding check_records
    check_records-stop addresses r rs x h = rw (check_records, h) refl

    pub check_records-Step :
        (addresses : DiscoveredAddresses) (rs : List RecordConfig) (x : Progress api.World)
        → Expected x.proofs rs
        → (failure_count x.report ≡ 0 → Known addresses rs)
        → x.session.mutation_in_flight ≡ false
        → Step c p (length rs) x (false, check_records host u o addresses rs x)
    unfolding check_records
    check_records-Step addresses [] x h k f = Step-refl c p x
    check_records-Step addresses (r ∷ rs) x h k f =
        let v = check_record-Step addresses r x h.0 (λ z. (k z).0) f in
        elim (Bool-cases (check_record host u o addresses r x).0) [
          | inl e ↦ rw (check_records-stop addresses r rs x e) (Step-stopped x _ e v)
          | inr e ↦ rw (check_records-next addresses r rs x e) (
              Step-next x _ _ v (
                check_records-Step addresses rs _ (rw v.expected_kept h.1)
                  (λ z. (k (omega (arith, v.failures_kept, z))).1) (v.asks.flag ∙ f)))
        ]
