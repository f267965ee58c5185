-- ===== src/Updater/Check/Run/Ledger.antt =====
-- What a whole check sends and reports, for `check` in src/updater.rs.
use cirrusync.Prelude.{
  ◌+◌, ◌≤◌, ◌≡◌, refl, ◌∙◌, ◌⊎◌, inl, inr, Bool, true, false, ◌||◌, some, List, [], ◌++◌, arith,
  length, All, Bool-cases, Option-cases, Result, ok, err,
}
use cirrusync.Prelude.Strings.{Text}
use cirrusync.Config.{RecordConfig}
use cirrusync.Cloudflare.{CloudflareError}
use cirrusync.Cloudflare.Client.{Sent, Session, Reply, expired, failed, done}
use cirrusync.Cloudflare.Frame.{mutations, WellFlagged}
use cirrusync.Cloudflare.Frame.Calls.{verify_token-Logs}
use cirrusync.Updater.{CheckReport, check_is_success}
use cirrusync.Updater.Failures.{coordination_failure}
use cirrusync.Updater.Host.{Host}
use cirrusync.Updater.Addresses.{
  Updater, DiscoveredAddresses, append_discovery_failures, discover_required_addresses,
}
use cirrusync.Updater.Cycle.Discovery.{discovered-Known, append_discovery_failures-length}
use cirrusync.Updater.Cycle.Ledger.{Known}
use cirrusync.Updater.Check.Proofs.Tracking.{for_config-Expected}
use cirrusync.Updater.Check.{check_timeout, CheckOptions, Progress, empty_check_report, add_failure}
use cirrusync.Updater.Check.Visit.{may_send, settled, Asks-same, Step-fail, Step-asks}
use cirrusync.Updater.Check.Run.{
  aborts_check, check_found, check_verified, token_checked, check_until, check_locked, check,
}
use cirrusync.Updater.Check.Run.Records.{check_records-Step}
use cirrusync.Updater.Check.Run.Balance.{
  Balance, successful, Sofar, Sofar-start, Sofar-Step, Balance-early, Balance-final, Balance-if,
}

-- What a check leaves: its report and the session. Every request that was sent is permitted by the
-- options; the flag is down again and told the mutations from the other requests; every record
-- that is counted as created and every zone that is counted as verified took a mutation; and the
-- report names a failure, or leaves the permission unproved, unless every record is accounted for
-- and a mutation was sent, if there is a record at all.
pub record CheckLedger {W : Type 0} (allow_create allow_edit_probe : Bool)
    (records : List RecordConfig) (s : Session W) (out : CheckReport × Session W) : Type 0 where
  pub new : List Sent
  pub appended : out.1.sent ≡ new ++ s.sent
  pub permitted : All (λ x. may_send allow_create allow_edit_probe x.request ≡ true) new
  pub flag_down : out.1.mutation_in_flight ≡ false
  pub well_flagged : WellFlagged new
  pub created : out.0.created ≤ mutations new
  pub verified : out.0.edit_verified_zones ≤ mutations new
  pub counts : out.0.records ≡ length records
  pub settles :
      (check_is_success out.0 ≡ false)
      ⊎ ((settled out.0 ≡ length records) × ((length records ≤ 0) ⊎ (1 ≤ mutations new)))

module _ (host : Host) (u : Updater) (c p : Bool) where
  open host use {api, overrun}

  module _ (o : CheckOptions) (hc : o.allow_create ≡ c) (hp : o.allow_edit_probe ≡ p) where
    check_found-Balance :
        (addresses : DiscoveredAddresses) (s : Session api.World) (x : Progress api.World)
        → (length (append_discovery_failures addresses []) ≡ 0 → Known addresses u.config.records)
        → x.session.mutation_in_flight ≡ false
        → Sofar c p u.config 0 s x
        → Balance c p u.config.records s (check_found host u o addresses x)
    unfolding check_found
    check_found-Balance addresses s x k f l =
        let added = append_discovery_failures-length addresses x.report.failures in
        let y : Progress api.World = record x {
          report = record x.report {
            failures = append_discovery_failures addresses x.report.failures;
          };
        } in
        let m : Sofar c p u.config 0 s y = record {
          asks = l.asks;
          proven = l.proven;
          created = l.created;
          tracked = l.tracked;
          expected_kept = l.expected_kept;
          counts = l.counts;
          settles = λ z. l.settles (omega (arith, z, added));
        } in
        Balance-final c p u.config s _ _ (
          Sofar-Step c p u.config s y _ false m (
            check_records-Step host u c p o hc hp addresses u.config.records y
              (rw l.expected_kept (for_config-Expected u.config)) (λ z. k (omega (arith, z, added)))
              f))

    check_verified-Balance :
        (s : Session api.World) (x : Progress api.World)
        → x.session.mutation_in_flight ≡ false
        → Sofar c p u.config 0 s x
        → Balance c p u.config.records s (check_verified host u o x)
    unfolding check_verified
    check_verified-Balance s x f l = elim (Option-cases (overrun o.deadline x.session.world)) [
      | inr (w, e) ↦
          rw (check_verified, e)
            (Balance-early c p u.config s x _ _ l (Asks-same c p x.session _ refl refl))
      | inl e ↦
          let found' = discover_required_addresses host u x.session.world in
          rw (check_verified, e)
            (check_found-Balance found'.0 s _ (discovered-Known host u x.session.world) f (
              Sofar-Step c p u.config s x _ false l (
                Step-asks c p x (record x.session { world = found'.1 })
                  (Asks-same c p x.session _ refl refl))))
    ]

    token_checked-Balance :
        (s : Session api.World) (reply : Reply (Unit {0}) CloudflareError) (x : Progress api.World)
        → x.session.mutation_in_flight ≡ false
        → Sofar c p u.config 0 s x
        → Balance c p u.config.records s (token_checked host u o reply x)
    unfolding token_checked
    token_checked-Balance s expired x f l =
        Balance-early c p u.config s x _ _ l (Asks-same c p x.session _ refl refl)
    token_checked-Balance s (done tt) x f l = check_verified-Balance s _ f (record {
      asks = l.asks;
      proven = l.proven;
      created = l.created;
      tracked = l.tracked;
      expected_kept = l.expected_kept;
      counts = l.counts;
      settles = l.settles;
    })
    token_checked-Balance s (failed e) x f l =
        Balance-if c p u.config s (aborts_check host u e) _ _
          (Balance-early c p u.config s x _ _ l (Asks-same c p x.session _ refl refl))
          (check_verified-Balance s _ f
            (Sofar-Step c p u.config s x _ true l (Step-fail c p x true _)))

    check_until-Balance :
        (s : Session api.World)
        → s.mutation_in_flight ≡ false
        → Balance c p u.config.records s (check_until host u o s)
    unfolding check_until
    check_until-Balance s f =
        let l = verify_token-Logs api u.cloudflare (some o.deadline) s in
        token_checked-Balance s _ _ (l.flag ∙ f) (Sofar-start c p u.config s _ l)

  check_locked-Balance :
      (s : Session api.World)
      → s.mutation_in_flight ≡ false
      → Balance c p u.config.records s (check_locked host u c p s)
  unfolding check_locked
  check_locked-Balance s f =
      let clock = api.now s.world in
      let b =
        check_until-Balance
          (record { allow_create = c; allow_edit_probe = p; deadline = clock.0 + check_timeout })
          refl refl (record s { world = clock.1 }) f in
      record {
        asks = record {
          new = b.asks.new;
          appended = b.asks.appended;
          permitted = b.asks.permitted;
          flag = b.asks.flag;
          flags = b.asks.flags;
        };
        created = b.created;
        verified = b.verified;
        counts = b.counts;
        settles = b.settles;
      }

  unlocked-Balance :
      (message : Text) (s : Session api.World)
      → Balance c p u.config.records s (
        add_failure (coordination_failure message) (empty_check_report (length u.config.records)),
        s,
      )
  unfolding empty_check_report
  unlocked-Balance message s = record {
    asks = Asks-same c p s s refl refl;
    created = omega arith;
    verified = omega arith;
    counts = refl;
    settles = λ h. absurd (omega (arith, (successful _ h).0));
  }

  check-Balance :
      (lock : Result (Unit {0}) Text) (s : Session api.World)
      → s.mutation_in_flight ≡ false
      → Balance c p u.config.records s (check host u c p lock s)
  unfolding check
  check-Balance (ok held) s f =
      let b = check_locked-Balance s f in Balance-if c p u.config s (c || p) _ _ b b
  check-Balance (err message) s f =
      Balance-if c p u.config s (c || p) _ _ (unlocked-Balance message s) (check_locked-Balance s f)

  -- From a session with the flag down, for every outcome of the runtime lock and every behaviour
  -- of the network: a check reads, sends edit probes only if they are allowed and creates records
  -- only if that is allowed, and never replaces a record; mutations are sent under the flag
  -- `mutation_in_flight` and nothing else is, and the flag is down at the end; no more records
  -- are counted as created, and no more zones as verified, than mutations were sent; and a report
  -- of success means that every configured record is accounted for and that, if there is one, a
  -- mutation was sent.
  pub check-CheckLedger :
      (lock : Result (Unit {0}) Text) (s : Session api.World)
      → s.mutation_in_flight ≡ false
      → CheckLedger c p u.config.records s (check host u c p lock s)
  check-CheckLedger lock s f =
      let b = check-Balance lock s f in
      record {
        new = b.asks.new;
        appended = b.asks.appended;
        permitted = b.asks.permitted;
        flag_down = b.asks.flag ∙ f;
        well_flagged = b.asks.flags f;
        created = b.created;
        verified = b.verified;
        counts = b.counts;
        settles = elim (Bool-cases (check_is_success (check host u c p lock s).0)) [
          | inl h ↦ inr (b.settles h)
          | inr h ↦ inl h
        ];
      }
