-- ===== src/Updater/Cycle/Ledger.antt =====
-- What the visits of a cycle send and report, for `synchronize` in src/updater.rs.
use cirrusync.Prelude.{
  ℕ, suc, ◌+◌, ◌≤◌, ◌≡◌, refl, sym, ap, ◌∙◌, ◌⊎◌, inl, inr, true, false, List, [], ◌∷◌, arith,
  length, All, Bool-cases, ok, err, Result-cases,
}
use cirrusync.Prelude.Strings.{Text}
use cirrusync.PublicIp.{IpAddr}
use cirrusync.Config.{RecordConfig}
use cirrusync.Cloudflare.Client.{Session}
use cirrusync.Cloudflare.Frame.{Logs, Logs-trans, Logs-refl}
use cirrusync.Updater.{CycleReport}
use cirrusync.Updater.Host.{Host}
use cirrusync.Updater.Addresses.{Updater, DiscoveredAddresses, for_record}
use cirrusync.Updater.Cycle.{Flow, visit_record, visit_records}
use cirrusync.Updater.Cycle.Visit.{
  written, completed, failure_count, VisitLedger, visit_record-VisitLedger,
}

-- What a series of visits adds to a report, and what it sends.
pub record Ledger {W : Type 0} (n : ℕ) (report : CycleReport) (s : Session W)
    (st : CycleReport × Session W) : Type 0 where
  pub sent : ℕ
  pub logs : Logs sent s st.1
  pub at_least : written st.0 ≤ written report + sent
  pub at_most : sent + written report + failure_count report ≤ written st.0 + failure_count st.0
  pub failures_kept : failure_count report ≤ failure_count st.0
  pub settles :
      failure_count st.0 ≡ 0 → st.0.interrupted ≡ false → completed st.0 ≡ completed report + n
  pub records_kept : st.0.records ≡ report.records

Ledger-visit :
    {W : Type 0} {n : ℕ} (report : CycleReport) (s : Session W)
    (out : Flow × (CycleReport × Session W)) (st : CycleReport × Session W)
    → VisitLedger report s out
    → Ledger n out.1.0 out.1.1 st
    → Ledger (suc n) report s st
Ledger-visit report s out st v l = record {
  sent = v.sent + l.sent;
  logs = Logs-trans v.logs l.logs;
  at_least = omega (arith, v.at_least, l.at_least);
  at_most = omega (arith, v.at_most, l.at_most);
  failures_kept = omega (arith, v.failures_kept, l.failures_kept);
  settles = λ z i. omega (arith, l.settles z i, (v.settles (omega (arith, l.failures_kept, z))).1);
  records_kept = l.records_kept ∙ v.records_kept;
}

next-ne-stop : Flow.next ≡ Flow.stop → ⊥
next-ne-stop e = cc

Ledger-stopped :
    {W : Type 0} {n : ℕ} (report : CycleReport) (s : Session W)
    (out : Flow × (CycleReport × Session W))
    → out.0 ≡ Flow.stop
    → VisitLedger report s out
    → Ledger n report s out.1
Ledger-stopped report s out e v = record {
  sent = v.sent;
  logs = v.logs;
  at_least = v.at_least;
  at_most = v.at_most;
  failures_kept = v.failures_kept;
  settles = λ z i. absurd (next-ne-stop (sym (v.settles z).0 ∙ e));
  records_kept = v.records_kept;
}

ok-ne-err : {A E : Type 0} {a : A} {e : E} → ok a ≡ err e → ⊥
ok-ne-err h = cc

-- Every one of the records has an address.
abbrev pub Known : DiscoveredAddresses → List RecordConfig → Type 0
Known addresses = All (λ r. (address : IpAddr) × (for_record addresses r ≡ ok address))

-- A record without an address is passed over. It leaves a failure, which was there before.
Ledger-skip :
    {W : Type 0} {n : ℕ} (report : CycleReport) (s : Session W) (st : CycleReport × Session W)
    → (failure_count report ≡ 0 → ⊥)
    → Ledger n report s st
    → Ledger (suc n) report s st
Ledger-skip report s st k l = record {
  sent = l.sent;
  logs = l.logs;
  at_least = l.at_least;
  at_most = l.at_most;
  failures_kept = l.failures_kept;
  settles = λ z i. absurd (k (omega (arith, l.failures_kept, z)));
  records_kept = l.records_kept;
}

Ledger-none : {W : Type 0} (report : CycleReport) (s : Session W) → Ledger 0 report s (report, s)
Ledger-none report s = record {
  sent = 0;
  logs = Logs-refl s;
  at_least = omega arith;
  at_most = omega arith;
  failures_kept = omega arith;
  settles = λ z i. omega arith;
  records_kept = refl;
}

Ledger-interrupted :
    {W : Type 0} {n : ℕ} (report : CycleReport) (s : Session W)
    → Ledger n report s (record report { interrupted = true }, s)
Ledger-interrupted report s = record {
  sent = 0;
  logs = Logs-refl s;
  at_least = omega arith;
  at_most = omega arith;
  failures_kept = omega arith;
  settles = λ z i. absurd (ground (arith, i));
  records_kept = refl;
}

module _ (host : Host) (u : Updater) (deadline : ℕ) (addresses : DiscoveredAddresses) where
  open host use {api, stopped}

  visit_records-go :
      (r : RecordConfig) (rs : List RecordConfig) (report : CycleReport) (s : Session api.World)
      → stopped s.world ≡ false
      → (visit_record host u deadline addresses r (report, s)).0 ≡ Flow.next
      → visit_records host u deadline addresses (r ∷ rs) (report, s)
        ≡ visit_records host u deadline addresses rs
            (visit_record host u deadline addresses r (report, s)).1
  unfolding visit_records
  visit_records-go r rs report s h e = rw (visit_records, h, e) refl

  visit_records-stop :
      (r : RecordConfig) (rs : List RecordConfig) (report : CycleReport) (s : Session api.World)
      → stopped s.world ≡ false
      → (visit_record host u deadline addresses r (report, s)).0 ≡ Flow.stop
      → visit_records host u deadline addresses (r ∷ rs) (report, s)
        ≡ (visit_record host u deadline addresses r (report, s)).1
  unfolding visit_records
  visit_records-stop r rs report s h e = rw (visit_records, h, e) refl

  visit_record-skip :
      (r : RecordConfig) (message : Text) (report : CycleReport) (s : Session api.World)
      → for_record addresses r ≡ err message
      → visit_record host u deadline addresses r (report, s) ≡ (Flow.next, (report, s))
  unfolding visit_record
  visit_record-skip r message report s h = rw (visit_record, h) refl

  Flow-cases : (x : Flow) → (x ≡ Flow.next) ⊎ (x ≡ Flow.stop)
  Flow-cases Flow.next = inl refl
  Flow-cases Flow.stop = inr refl

  visited-Ledger :
      {n : ℕ} (r : RecordConfig) (rs : List RecordConfig) (report : CycleReport)
      (s : Session api.World)
      → stopped s.world ≡ false
      → let out = visit_record host u deadline addresses r (report, s) in
        VisitLedger report s out
        → Ledger n out.1.0 out.1.1 (visit_records host u deadline addresses rs out.1)
        → Ledger (suc n) report s (visit_records host u deadline addresses (r ∷ rs) (report, s))
  visited-Ledger r rs report s h v l =
      let out = visit_record host u deadline addresses r (report, s) in
      elim (Flow-cases out.0) [
        | inl e ↦ rw (visit_records-go r rs report s h e) (Ledger-visit report s out _ v l)
        | inr e ↦ rw (visit_records-stop r rs report s h e) (Ledger-stopped report s out e v)
      ]

  pub visit_records-Ledger :
      (rs : List RecordConfig) (report : CycleReport) (s : Session api.World)
      → (failure_count report ≡ 0 → Known addresses rs)
      → s.mutation_in_flight ≡ false
      → Ledger (length rs) report s (visit_records host u deadline addresses rs (report, s))
  unfolding visit_records
  visit_records-Ledger [] report s k f = Ledger-none report s
  visit_records-Ledger (r ∷ rs) report s k f = elim (Bool-cases (stopped s.world)) [
    | inl h ↦ rw (visit_records, h) (Ledger-interrupted report s)
    | inr h ↦ elim (Result-cases (for_record addresses r)) [
      | inl (a, hit) ↦
          let out = visit_record host u deadline addresses r (report, s) in
          let v = visit_record-VisitLedger host u deadline addresses r a report s hit f in
          visited-Ledger r rs report s h v (
            visit_records-Ledger rs out.1.0 out.1.1 (λ z. (k (omega (arith, v.failures_kept, z))).1)
              (v.logs.flag ∙ f))
      | inr (e, miss) ↦
          let skip = visit_record-skip r e report s miss in
          rw (visit_records-go r rs report s h (ap (λ x. x.0) skip), skip)
            (Ledger-skip report s _ (λ z. ok-ne-err (sym ((k z).0.1) ∙ miss))
              (visit_records-Ledger rs report s (λ z. (k z).1) f))
    ]
  ]
