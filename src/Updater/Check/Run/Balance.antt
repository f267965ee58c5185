-- ===== src/Updater/Check/Run/Balance.antt =====
-- What a check has sent and reported so far, for `check_until` in src/updater.rs.
use cirrusync.Prelude.{
  ℕ, ◌≤◌, ◌≡◌, refl, ◌∙◌, ◌⊎◌, inl, inr, Bool, true, false, List, [], ◌∷◌, arith, length,
  length-append, is_empty, if◌then◌else◌, &&-left, &&-right,
}
use cirrusync.Config.{Config, RecordConfig}
use cirrusync.Cloudflare.Client.{Session}
use cirrusync.Cloudflare.Frame.{mutations, mutations-append, Logs}
use cirrusync.Updater.{CycleFailure, CheckReport, check_is_success}
use cirrusync.Updater.Check.Proofs.{
  for_config, zone_of, is_complete, summarize_check_proofs, finalize_check_report,
}
use cirrusync.Updater.Check.Proofs.Tracking.{IsTracking, for_config-IsTracking, for_config-Expected}
use cirrusync.Updater.Check.Proofs.Complete.{verified_count_bound, is_complete-proven}
use cirrusync.Updater.Check.{Progress, empty_check_report, add_failure}
use cirrusync.Updater.Check.Visit.{settled, failure_count, Asks, Asks-reads, Asks-then, Step}
use cirrusync.Updater.Check.Run.Records.{Expected}

-- What a check of `records` leaves, from its start on.
pub record Balance {W : Type 0} (c p : Bool) (records : List RecordConfig) (s : Session W)
    (out : CheckReport × Session W) : Type 0 where
  pub asks : Asks c p s out.1
  pub created : out.0.created ≤ mutations asks.new
  pub verified : out.0.edit_verified_zones ≤ mutations asks.new
  pub counts : out.0.records ≡ length records
  pub settles :
      check_is_success out.0 ≡ true
      → (settled out.0 ≡ length records) × ((length records ≤ 0) ⊎ (1 ≤ mutations asks.new))

pub successful :
    (r : CheckReport)
    → check_is_success r ≡ true
    → (failure_count r ≡ 0) × (r.edit_permission_verified ≡ true)
unfolding check_is_success
successful r h = empty r.failures (&&-right _ _ h)
  where
    empty :
        (fs : List CycleFailure)
        → is_empty fs ≡ true
        → (length fs ≡ 0) × (r.edit_permission_verified ≡ true)
    empty [] k = (refl, &&-right _ _ (&&-left _ _ h))
    empty (f ∷ fs) k = cc

-- Where a check stands after its start in `s`, with `n` records accounted for.
pub record Sofar {W : Type 0} (c p : Bool) (config : Config) (n : ℕ) (s : Session W)
    (x : Progress W) : Type 0 where
  pub asks : Asks c p s x.session
  pub proven : length x.proofs.proven_ids ≤ mutations asks.new
  pub created : x.report.created ≤ mutations asks.new
  pub tracked : IsTracking x.proofs
  pub expected_kept : x.proofs.expected ≡ (for_config config).expected
  pub counts : x.report.records ≡ length config.records
  pub settles : failure_count x.report ≡ 0 → settled x.report ≡ n

module _ {W : Type 0} (c p : Bool) (config : Config) (s : Session W) where
  pub Sofar-start :
      (t : Session W)
      → Logs 0 s t
      → Sofar c p config 0 s (record {
        proofs = for_config config;
        report = empty_check_report (length config.records);
        session = t;
      })
  unfolding for_config empty_check_report
  Sofar-start t l = record {
    asks = Asks-reads c p l;
    proven = omega arith;
    created = omega arith;
    tracked = for_config-IsTracking config;
    expected_kept = refl;
    counts = refl;
    settles = λ z. refl;
  }

  pub Sofar-Step :
      {n : ℕ} (x y : Progress W) (b : Bool)
      → Sofar c p config 0 s x
      → Step c p n x (b, y)
      → Sofar c p config n s y
  Sofar-Step x y b f l = record {
    asks = Asks-then f.asks l.asks;
    proven = omega (arith, f.proven, l.proven, mutations-append l.asks.new f.asks.new);
    created = omega (arith, f.created, l.created, mutations-append l.asks.new f.asks.new);
    tracked = l.tracked f.tracked;
    expected_kept = l.expected_kept ∙ f.expected_kept;
    counts = l.records_kept ∙ f.counts;
    settles = λ z. omega (arith, (l.settles z).1, f.settles (omega (arith, z, l.failures_kept)));
  }

  -- A deadline or a denied token ends the check, with a failure.
  pub Balance-early :
      {n : ℕ} (x : Progress W) (f : CycleFailure) (t : Session W)
      → Sofar c p config n s x
      → Asks c p x.session t
      → Balance c p config.records s (summarize_check_proofs x.proofs (add_failure f x.report), t)
  unfolding summarize_check_proofs
  Balance-early x f t l a = record {
    asks = Asks-then l.asks a;
    created = omega (arith, l.created, mutations-append a.new l.asks.new);
    verified =
        omega (arith, verified_count_bound x.proofs, l.proven, mutations-append a.new l.asks.new);
    counts = l.counts;
    settles =
        λ h. absurd (omega (arith, (successful _ h).0, length-append x.report.failures (f ∷ [])));
  }

  pub Balance-if :
      (b : Bool) (hit miss : CheckReport × Session W)
      → Balance c p config.records s hit
      → Balance c p config.records s miss
      → Balance c p config.records s (if b then hit else miss)
  Balance-if true hit miss h k = h
  Balance-if false hit miss h k = k

  complete-mutations :
      (x : Progress W) (rs : List RecordConfig) (n : ℕ)
      → IsTracking x.proofs
      → Expected x.proofs rs
      → length x.proofs.proven_ids ≤ n
      → is_complete x.proofs ≡ true
      → (length rs ≤ 0) ⊎ (1 ≤ n)
  complete-mutations x [] n t e h k = inl (omega arith)
  complete-mutations x (r ∷ rs) n t e h k =
      inr (omega (arith, h, is_complete-proven x.proofs (zone_of r) t e.0 k))

  pub Balance-final :
      (x : Progress W) (b : Bool)
      → Sofar c p config (length config.records) s x
      → Balance c p config.records s (finalize_check_report x.proofs b x.report, x.session)
  unfolding finalize_check_report summarize_check_proofs
  Balance-final x b l = record {
    asks = l.asks;
    created = l.created;
    verified = omega (arith, verified_count_bound x.proofs, l.proven);
    counts = l.counts;
    settles = λ h.
        let (z, k) = successful _ h in
        (
          l.settles (omega (arith, z, length-append x.report.failures _)),
          complete-mutations x config.records _ l.tracked
              (rw l.expected_kept (for_config-Expected config)) l.proven k,
        );
  }
