-- ===== src/Updater/Check/Handle.antt =====
-- The handlers of existing and of missing records in a check, for src/updater.rs.
pub mod Whole
use cirrusync.Prelude.{
  ℕ, ◌+◌, ◌≤◌, ◌≡◌, ◌≢◌, refl, sym, Bool, true, false, none, List, [], ◌∷◌, arith, length, ok, err,
}
use cirrusync.Prelude.Strings.{Text}
use cirrusync.Prelude.Dict.{text_equality, add}
use cirrusync.Config.{RecordConfig}
use cirrusync.Cloudflare.{DnsRecord, RecordPayload, CloudflareError}
use cirrusync.Cloudflare.Client.{Request, is_mutation, Session, Reply, expired, failed, done, Call}
use cirrusync.Cloudflare.Records.{probe_record_edit, create_record}
use cirrusync.Cloudflare.Frame.{mutations}
use cirrusync.Updater.{FailureStage}
use cirrusync.Updater.Host.{Host}
use cirrusync.Updater.Plan.{during_mutation}
use cirrusync.Updater.Plan.Effects.{mutate-sent, mutate-settled}
use cirrusync.Updater.Addresses.{Updater}
use cirrusync.Updater.Check.Proofs.{mark_proven}
use cirrusync.Updater.Check.Proofs.Tracking.{mark_proven-IsTracking}
use cirrusync.Updater.Check.{
  Progress, Visited, fail_check, if_in_time, count_existing, finish_probe, probe_existing,
  finish_create, create_missing, mutation_can_finish_before,
}
use cirrusync.Updater.Check.Visit.{
  may_send, Asks, Asks-same, Step, Step-fail, Step-after, Step-if, Step-asks,
}

pub add_zero : (n : ℕ) → n + 0 ≡ n
add_zero n = omega arith

pub err-ne-ok : {A E : Type 0} {a : A} {e : E} → err e ≡ ok a → ⊥
err-ne-ok h = cc

length-add : (t : Text) (ts : List Text) → length (add t ts) ≤ length ts + 1
unfolding add
length-add t ts = ground arith

module _ (host : Host) (u : Updater) (c p : Bool) where
  open host use {api}

  -- A mutation is one permitted request.
  during_mutation-Asks :
      {A E : Type 0} (m : Call api.World A E) (request : Request) (s : Session api.World)
      → is_mutation request ≡ true
      → may_send c p request ≡ true
      → s.mutation_in_flight ≡ false
      → ((t : Session api.World)
          → (m t).1.sent ≡ record { request = request; flagged = t.mutation_in_flight } ∷ t.sent)
      → (a : Asks c p s (during_mutation host u.cloudflare m s).1) × (mutations a.new ≡ 1)
  unfolding during_mutation mutations
  during_mutation-Asks m request s h k f e = (
    record {
      new = record { request = request; flagged = true } ∷ [];
      appended = e _;
      permitted = (k, tt);
      flag = sym f;
      flags = λ g. (sym h, tt);
    },
    rw (mutations, h) refl,
  )

  pub fail_check-Step :
      {n : ℕ} (r : RecordConfig) (stage : FailureStage) (e : CloudflareError)
      (x : Progress api.World)
      → Step c p n x (fail_check host u r stage e x)
  unfolding fail_check
  fail_check-Step r stage e x = Step-fail c p x _ _

  finish_probe-Step :
      (r : RecordConfig) (zone_id : Text) (reply : Reply DnsRecord CloudflareError)
      (x : Progress api.World) (t : Session api.World) (a : Asks c p x.session t)
      → mutations a.new ≡ 1
      → reply ≢ expired
      → Step c p 0 x (finish_probe host u r zone_id reply (record x { session = t }))
  unfolding finish_probe mark_proven
  finish_probe-Step r zone_id expired x t a one h = absurd (h refl)
  finish_probe-Step r zone_id (failed e) x t a one h =
      Step-after c p x _ false _ (Step-asks c p x t a) (fail_check-Step r _ e _)
  finish_probe-Step r zone_id (done changed) x t a one h = record {
    asks = a;
    proven = omega (arith, one, length-add zone_id x.proofs.proven_ids);
    created = omega arith;
    tracked = mark_proven-IsTracking zone_id x.proofs;
    expected_kept = refl;
    failures_kept = omega arith;
    settles = λ z. (refl, omega arith);
    records_kept = refl;
    authenticated_kept = refl;
  }

  finish_create-Step :
      (r : RecordConfig) (zone_id : Text) (reply : Reply DnsRecord CloudflareError)
      (x : Progress api.World) (t : Session api.World) (a : Asks c p x.session t)
      → mutations a.new ≡ 1
      → reply ≢ expired
      → Step c p 1 x (finish_create host u r zone_id reply (record x { session = t }))
  unfolding finish_create mark_proven
  finish_create-Step r zone_id expired x t a one h = absurd (h refl)
  finish_create-Step r zone_id (failed e) x t a one h =
      Step-after c p x _ false _ (Step-asks c p x t a) (fail_check-Step r _ e _)
  finish_create-Step r zone_id (done made) x t a one h = record {
    asks = a;
    proven = omega (arith, one, length-add zone_id x.proofs.proven_ids);
    created = omega (arith, one);
    tracked = mark_proven-IsTracking zone_id x.proofs;
    expected_kept = refl;
    failures_kept = omega arith;
    settles = λ z. (refl, omega arith);
    records_kept = refl;
    authenticated_kept = refl;
  }

  pub probe_existing-Step :
      (r : RecordConfig) (zone_id : Text) (existing : DnsRecord) (x : Progress api.World)
      → p ≡ true
      → x.session.mutation_in_flight ≡ false
      → Step c p 0 x (probe_existing host u r zone_id existing x)
  unfolding probe_existing probe_record_edit is_mutation may_send during_mutation
  probe_existing-Step r zone_id existing x h f =
      let (a, one) =
        during_mutation-Asks (probe_record_edit api u.cloudflare none zone_id existing) _ x.session
          refl h f λ t. (mutate-sent api u.cloudflare none zone_id _ _ t).0 in
      finish_probe-Step r zone_id _ x _ a one (mutate-settled api u.cloudflare zone_id _ _ _)

  pub create_missing-Step :
      (r : RecordConfig) (zone_id : Text) (payload : RecordPayload) (x : Progress api.World)
      → c ≡ true
      → x.session.mutation_in_flight ≡ false
      → Step c p 1 x (create_missing host u r zone_id payload x)
  unfolding create_missing create_record is_mutation may_send during_mutation
  create_missing-Step r zone_id payload x h f =
      let (a, one) =
        during_mutation-Asks (create_record api u.cloudflare none zone_id payload) _ x.session refl
          h f λ t. (mutate-sent api u.cloudflare none zone_id _ _ t).0 in
      finish_create-Step r zone_id _ x _ a one (mutate-settled api u.cloudflare zone_id _ _ _)

  -- A step under the test of the clock.
  pub if_in_time-Step :
      {n : ℕ} (deadline : ℕ) (x : Progress api.World) (next : Progress api.World → Visited host u)
      → x.session.mutation_in_flight ≡ false
      → ((y : Progress api.World)
          → y.session.mutation_in_flight ≡ false
          → y.report ≡ x.report
          → Step c p n y (next y))
      → Step c p n x (if_in_time host u deadline x next)
  unfolding if_in_time
  if_in_time-Step deadline x next f h =
      let clock = api.now x.session.world in
      Step-after c p x _ false _
        (Step-asks c p x _
          (Asks-same c p x.session (record x.session { world = clock.1 }) refl refl))
        (Step-if c p _ (mutation_can_finish_before u.cloudflare deadline clock.0) _ _
          (λ b. h _ f refl) λ b. Step-fail c p _ true _)

  pub count_existing-Step : (x : Progress api.World) → Step c p 1 x (false, count_existing host u x)
  unfolding mutations
  count_existing-Step x = record {
    asks = Asks-same c p _ _ refl refl;
    proven = omega arith;
    created = omega arith;
    tracked = λ t. t;
    expected_kept = refl;
    failures_kept = omega arith;
    settles = λ h. (refl, omega arith);
    records_kept = refl;
    authenticated_kept = refl;
  }

  pub creatable-Step :
      (x : Progress api.World)
      → Step c p 1 x
          (false, record x { report = record x.report { creatable = x.report.creatable + 1 } })
  unfolding mutations
  creatable-Step x = record {
    asks = Asks-same c p _ _ refl refl;
    proven = omega arith;
    created = omega arith;
    tracked = λ t. t;
    expected_kept = refl;
    failures_kept = omega arith;
    settles = λ h. (refl, omega arith);
    records_kept = refl;
    authenticated_kept = refl;
  }
