-- ===== src/Daemon/Run.antt =====
-- src/daemon.rs: the loop as a step relation. A cycle that is cut off while the program awaits a
-- request is the environment's choice, and so is the shutdown signal.
pub mod Stop
use cirrusync.Prelude.{
  ℕ, zero, suc, ◌+◌, ◌-◌, ◌^◌, ◌≤◌, ◌<◌, ◌≡◌, refl, ◌∙◌, Bool, true, false, List, [], ◌∷◌, min,
  arith, if◌then◌else◌, length, All,
}
use cirrusync.Updater.{CycleReport, is_success}
use cirrusync.Daemon.{LoopState, initial, after_report}

-- Where the loop is: asleep, in a cycle, waiting for the cycle of the last mutation, or returned. The
-- flag of `cycling` is `mutation_in_flight`; those of `draining` and of `returned` say whether the
-- signal handler failed.
pub data Phase : Type 0 where
  sleeping : Phase
  cycling : Bool → Phase
  draining : Bool → Phase
  returned : Bool → Phase

pub record Daemon : Type 0 where
  pub vars : LoopState
  pub phase : Phase
  pub stop_requested : Bool
  -- Mutations that were dropped before their reply.
  pub dropped : ℕ

-- The head of the loop: no sleep before the first cycle.
unfoldable pub head : LoopState → Phase
head s = elim s.next_delay [ zero ↦ cycling false | suc n ↦ sleeping ]

-- A mutation that is in flight when the cycle's future is dropped is lost.
pub cut_off : Bool → ℕ → ℕ
cut_off true n = suc n
cut_off false n = n

-- What the `select!` of the cycle does with the signal: wait for a mutation, or drop the cycle.
pub on_signal : Bool → Bool → Daemon → Daemon
unfolding cut_off
on_signal in_flight signal_failed d =
    let stopped : Daemon = record d { stop_requested = true } in
    if in_flight
    then record stopped { phase = draining signal_failed }
    else record stopped { phase = returned signal_failed; dropped = cut_off in_flight d.dropped }

pub data Step (interval : ℕ) (d : Daemon) : Daemon → Type 0 where
  -- The delay is over.
  wake : d.phase ≡ sleeping → Step interval d (record d { phase = cycling false })
  -- The signal comes while the loop sleeps.
  signal_asleep :
      (signal_failed : Bool)
      → d.phase ≡ sleeping
      → Step interval d (record d { phase = returned signal_failed })
  -- The cycle begins a mutation, or its guard is dropped.
  flag :
      (before now : Bool)
      → d.phase ≡ cycling before
      → Step interval d (record d { phase = cycling now })
  -- The signal comes during a cycle.
  signal :
      (in_flight signal_failed : Bool)
      → d.phase ≡ cycling in_flight
      → Step interval d (on_signal in_flight signal_failed d)
  -- The awaited cycle ends after the signal.
  drained :
      (signal_failed : Bool)
      → d.phase ≡ draining signal_failed
      → Step interval d (record d { phase = returned signal_failed })
  -- The cycle ends by itself.
  report :
      (r : CycleReport) (jitter : ℕ) (vars : LoopState)
      → d.phase ≡ cycling false
      → vars ≡ after_report interval r jitter d.vars
      → Step interval d (record d { vars = vars; phase = head vars })

pub data Reach (interval : ℕ) (s : Daemon) : Daemon → Type 0 where
  here : Reach interval s s
  more : {d e : Daemon} → Reach interval s d → Step interval d e → Reach interval s e

unfoldable pub start : Daemon
unfolding initial head
start = record { vars = initial; phase = head initial; stop_requested = false; dropped = 0 }

-- What the phase says of the rest: a sleep lasts a second at least, and the loop drains only after
-- it has asked the cycle to stop.
abbrev pub Fits : Phase → LoopState → Bool → Type 0
Fits sleeping vars stop_requested = 1 ≤ vars.next_delay
Fits (cycling in_flight) vars stop_requested = Unit
Fits (draining signal_failed) vars stop_requested = stop_requested ≡ true
Fits (returned signal_failed) vars stop_requested = Unit

pub record Inv (d : Daemon) : Type 0 where
  pub none_dropped : d.dropped ≡ 0
  pub counter : d.vars.consecutive_failures < 2 ^ 32
  pub fits : Fits d.phase d.vars d.stop_requested

start-Inv : Inv start
unfolding start head
start-Inv = record { none_dropped = refl; counter = omega arith; fits = tt }

on_signal-Inv :
    (in_flight signal_failed : Bool) (d : Daemon)
    → Inv d
    → Inv (on_signal in_flight signal_failed d)
unfolding on_signal
on_signal-Inv true signal_failed d v = record {
  none_dropped = v.none_dropped;
  counter = v.counter;
  fits = refl;
}
on_signal-Inv false signal_failed d v = record {
  none_dropped = v.none_dropped;
  counter = v.counter;
  fits = tt;
}

head-Fits : (s : LoopState) (b : Bool) → Fits (head s) s b
unfolding head
head-Fits s b = by_delay s.next_delay
  where
    by_delay :
        (n : ℕ)
        → Fits (elim n [ zero ↦ cycling false | suc m ↦ sleeping ]) (record s { next_delay = n }) b
    by_delay zero = tt
    by_delay (suc m) = omega arith

after_report-counter :
    (interval : ℕ) (r : CycleReport) (jitter : ℕ) (s : LoopState)
    → (after_report interval r jitter s).consecutive_failures < 2 ^ 32
unfolding after_report
after_report-counter interval r jitter s = ground arith

Step-Inv : {interval : ℕ} {d e : Daemon} → Inv d → Step interval d e → Inv e
Step-Inv v (wake p) = record { none_dropped = v.none_dropped; counter = v.counter; fits = tt }
Step-Inv v (signal_asleep f p) = record {
  none_dropped = v.none_dropped;
  counter = v.counter;
  fits = tt;
}
Step-Inv v (flag b n p) = record { none_dropped = v.none_dropped; counter = v.counter; fits = tt }
Step-Inv {d = d} v (signal in_flight f p) = on_signal-Inv in_flight f d v
Step-Inv v (drained f p) = record { none_dropped = v.none_dropped; counter = v.counter; fits = tt }
Step-Inv {interval} {d} v (report r jitter vars p q) = record {
  none_dropped = v.none_dropped;
  counter = rw q (after_report-counter interval r jitter d.vars);
  fits = head-Fits vars d.stop_requested;
}

-- However the shutdown signal falls, the daemon never drops a mutation that is in flight, sleeps,
-- where it sleeps, for a second at least, keeps its failure counter a `u32`, and drains only after
-- it has asked the cycle to stop.
pub Reach-Inv : {interval : ℕ} {d : Daemon} → Reach interval start d → Inv d
Reach-Inv here = start-Inv
Reach-Inv (more r st) = Step-Inv (Reach-Inv r) st

-- The loop's variables after some reports, each with its jitter.
pub after_reports : ℕ → List (CycleReport × ℕ) → LoopState → LoopState
after_reports interval [] s = s
after_reports interval ((r, jitter) ∷ rest) s =
    after_reports interval rest (after_report interval r jitter s)

failing_onto :
    (interval : ℕ) (reports : List (CycleReport × ℕ)) (s : LoopState)
    → All (λ x. is_success x.0 ≡ false) reports
    → s.consecutive_failures < 2 ^ 32
    → (after_reports interval reports s).consecutive_failures
      ≡ min (s.consecutive_failures + length reports) (2 ^ 32 - 1)
unfolding after_reports after_report
failing_onto interval [] s h lt = omega arith
failing_onto interval ((r, jitter) ∷ rest) s h lt =
    failing_onto interval rest (after_report interval r jitter s) h.1
      (after_report-counter interval r jitter s)
    ∙ rw (h.0) (omega arith)

-- A successful cycle restores the polling interval and forgets the failures before it; the counter
-- is then the number of failed cycles since, up to the largest `u32`.
pub after_reports-counter :
    (interval : ℕ) (ok_report : CycleReport) (jitter : ℕ) (failing : List (CycleReport × ℕ))
    (s : LoopState)
    → is_success ok_report ≡ true
    → All (λ x. is_success x.0 ≡ false) failing
    → let t = after_report interval ok_report jitter s in
      (t.next_delay ≡ interval)
      × ((after_reports interval failing t).consecutive_failures
          ≡ min (length failing) (2 ^ 32 - 1))
unfolding after_report
after_reports-counter interval r jitter failing s h k = (
  rw h refl,
  failing_onto interval failing (after_report interval r jitter s) k
        (after_report-counter interval r jitter s)
      ∙ rw h (omega arith),
)
