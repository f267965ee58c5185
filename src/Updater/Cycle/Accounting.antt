-- ===== src/Updater/Cycle/Accounting.antt =====
-- What a whole cycle sends and reports, for `run_cycle` in src/updater.rs.
use cirrusync.Prelude.{
  ◌%◌, ℕ, ◌+◌, ◌≤◌, ◌≡◌, refl, ap, ◌∙◌, ◌⊎◌, inl, inr, true, false, ◌&&◌, not, List, [], ◌∷◌, ◌++◌,
  arith, length, length-append, is_empty, take, drop, All, All-append, Bool-cases, Result, ok, err,
  Option-cases,
}
use cirrusync.Prelude.Strings.{Text}
use cirrusync.Config.{RecordConfig}
use cirrusync.Cloudflare.Client.{Session}
use cirrusync.Cloudflare.Frame.{WellFlagged, Sends, Logs-Sends, Logs, Logs-same, Logs-then}
use cirrusync.Updater.{CycleFailure, CycleReport, is_success, empty_report}
use cirrusync.Updater.Host.{Host}
use cirrusync.Updater.Addresses.{Updater, DiscoveredAddresses, append_discovery_failures}
use cirrusync.Updater.Cycle.{
  visit_order, start_index, push_failure, synchronize, run_cycle_until, run_cycle_locked, run_cycle,
}
use cirrusync.Updater.Cycle.Order.{take-drop, visit_order-rotation}
use cirrusync.Updater.Cycle.Visit.{written, completed, failure_count}
use cirrusync.Updater.Cycle.Ledger.{Known, visit_records-Ledger}
use cirrusync.Updater.Cycle.Discovery.{discovered-Known}

-- What a cycle of `records` records leaves, from its start on.
record Balance {W : Type 0} (records : ℕ) (s : Session W) (out : CycleReport × ℕ × Session W)
    : Type 0 where
  sent : ℕ
  logs : Logs sent s out.2
  at_least : written out.0 ≤ sent
  at_most : sent ≤ written out.0 + failure_count out.0
  settles : is_success out.0 ≡ true → completed out.0 ≡ records
  counts : out.0.records ≡ records

-- What a cycle of `records` records leaves: its report, the rotation's cursor and the session. A
-- change that is counted was sent; a mutation that was sent is counted or followed by a failure;
-- the flag is down again and told the mutations from the other requests; and the report names a
-- failure or an interruption unless every record is settled.
pub record CycleLedger {W : Type 0} (records : ℕ) (s : Session W)
    (out : CycleReport × ℕ × Session W) : Type 0 where
  pub sent : ℕ
  pub sends : Sends sent s out.2
  pub at_least : written out.0 ≤ sent
  pub at_most : sent ≤ written out.0 + failure_count out.0
  pub settles : (is_success out.0 ≡ false) ⊎ (completed out.0 ≡ records)
  pub counts : out.0.records ≡ records

failed-Balance :
    {W : Type 0} (records cursor : ℕ) (s : Session W) (w : W) (f : CycleFailure)
    → Balance records s (push_failure (empty_report records) f, cursor, record s { world = w })
unfolding is_success
failed-Balance records cursor s w f = record {
  sent = 0;
  logs = Logs-same s _ refl refl;
  at_least = omega arith;
  at_most = omega arith;
  settles = λ h. cc;
  counts = refl;
}

succeeded :
    (r : CycleReport) → is_success r ≡ true → (failure_count r ≡ 0) × (r.interrupted ≡ false)
unfolding is_success
succeeded r h = empty r.failures h
  where
    empty :
        (fs : List CycleFailure)
        → (is_empty fs && not r.interrupted) ≡ true
        → (length fs ≡ 0) × (r.interrupted ≡ false)
    empty [] h = (refl, ground arith)
    empty (f ∷ fs) h = cc

All-split {κ} :
    {A : Type 0} (P : A → Type κ) (xs ys : List A) → All P (xs ++ ys) → All P xs × All P ys
All-split P [] ys h = (tt, h)
All-split P (x ∷ xs) ys h = let (p, q) = All-split P xs ys h.1 in ((h.0, p), q)

All-rotation {κ} :
    (P : RecordConfig → Type κ) (records : List RecordConfig) (cursor : ℕ)
    → All P records
    → All P (visit_order records (start_index cursor (length records)))
All-rotation P records cursor h =
    let start = cursor % length records in
    let e = visit_order-rotation records cursor in
    let whole = take-drop start records in
    let (front, back) = All-split P (take start records) (drop start records) (rw whole h) in
    rw e (All-append P (drop start records) (take start records) back front)

length-rotation :
    (records : List RecordConfig) (cursor : ℕ)
    → length (visit_order records (start_index cursor (length records))) ≡ length records
length-rotation records cursor =
    let start = cursor % length records in
    let e = visit_order-rotation records cursor in
    let whole = take-drop start records in
    ap length e
    ∙ omega (
      arith,
      length-append (drop start records) (take start records),
      length-append (take start records) (drop start records),
    )
    ∙ ap length whole

module _ (host : Host) (u : Updater) where
  open host use {api, overrun}

  synchronized-Balance :
      (deadline cursor next : ℕ) (addresses : DiscoveredAddresses) (s t : Session api.World)
      → (length (append_discovery_failures addresses []) ≡ 0 → Known addresses u.config.records)
      → s.mutation_in_flight ≡ false
      → Logs 0 s t
      → let (report, t') = synchronize host u deadline addresses cursor t in
        Balance (length u.config.records) s (report, next, t')
  unfolding synchronize
  synchronized-Balance deadline cursor next addresses s t k f l =
      let rs = visit_order u.config.records (start_index cursor (length u.config.records)) in
      let v =
        visit_records-Ledger host u deadline addresses rs
          (record (empty_report (length u.config.records)) {
            failures = append_discovery_failures addresses [];
          })
          t (λ z. All-rotation _ u.config.records cursor (k z)) (l.flag ∙ f) in
      record {
        sent = v.sent;
        logs = Logs-then l v.logs;
        at_least = omega (arith, v.at_least);
        at_most = omega (arith, v.at_most);
        settles = λ h.
            let (z, i) = succeeded _ h in
            omega (arith, v.settles z i, length-rotation u.config.records cursor);
        counts = v.records_kept;
      }

  run_cycle_until-Balance :
      (deadline cursor : ℕ) (s : Session api.World)
      → s.mutation_in_flight ≡ false
      → Balance (length u.config.records) s (run_cycle_until host u deadline cursor s)
  unfolding run_cycle_until
  run_cycle_until-Balance deadline cursor s f = elim (Option-cases (overrun deadline s.world)) [
    | inl e ↦
        rw (run_cycle_until, e)
          (synchronized-Balance deadline cursor _ _ s _ (discovered-Known host u s.world) f
            (Logs-same s _ refl refl))
    | inr (w, e) ↦ rw (run_cycle_until, e) (failed-Balance _ cursor s w _)
  ]

  run_cycle-Balance :
      (lock : Result (Unit {0}) Text) (cursor : ℕ) (s : Session api.World)
      → s.mutation_in_flight ≡ false
      → Balance (length u.config.records) s (run_cycle host u lock cursor s)
  unfolding run_cycle run_cycle_locked
  run_cycle-Balance (err message) cursor s f = failed-Balance _ cursor s s.world _
  run_cycle-Balance (ok held) cursor s f =
      let r = run_cycle_until-Balance _ cursor (record s { world = (api.now s.world).1 }) f in
      record {
        sent = r.sent;
        logs = Logs-then (Logs-same s _ refl refl) r.logs;
        at_least = r.at_least;
        at_most = r.at_most;
        settles = r.settles;
        counts = r.counts;
      }

  -- From a session with the flag down and a log that fits it, for a cycle with the runtime lock,
  -- without it, or cut off during the discovery: each change that the report counts was sent to
  -- the API, each mutation that was sent is counted or followed by a failure, mutations are sent
  -- under the flag `mutation_in_flight` and nothing else is, the flag is down at the end, and a
  -- report of success means that every configured record is settled.
  pub run_cycle-CycleLedger :
      (lock : Result (Unit {0}) Text) (cursor : ℕ) (s : Session api.World)
      → s.mutation_in_flight ≡ false
      → WellFlagged s.sent
      → CycleLedger (length u.config.records) s (run_cycle host u lock cursor s)
  run_cycle-CycleLedger lock cursor s f w =
      let r = run_cycle-Balance lock cursor s f in
      record {
        sent = r.sent;
        sends = Logs-Sends f w r.logs;
        at_least = r.at_least;
        at_most = r.at_most;
        settles = elim (Bool-cases (is_success (run_cycle host u lock cursor s).0)) [
          | inl h ↦ inr (r.settles h)
          | inr h ↦ inl h
        ];
        counts = r.counts;
      }
