-- ===== src/Examples/Serving.antt =====
-- The daemon's theorems at concrete inputs.
use cirrusync.Prelude.{◌*◌, ◌/◌, ◌^◌, ◌-◌, ◌≡◌, ◌≤◌, refl, true, false, [], ◌∷◌, arith, min, max}
use cirrusync.Updater.{CycleReport, is_success, retry_after, empty_report}
use cirrusync.Daemon.{initial, max_backoff, backoff_delay, retry_delay, after_report}
use cirrusync.Daemon.Backoff.{wished, backoff_delay_bounds, backoff_delay_mono, retry_delay_bounds}
use cirrusync.Daemon.Run.{
  cycling, head, Reach, here, more, flag, signal, start, on_signal, Inv, Reach-Inv, after_reports,
  after_reports-counter,
}

abbrev interrupted_report : CycleReport
interrupted_report = record (empty_report 1) { interrupted = true }

-- The signal comes while a mutation is in flight.
signalled : Reach 300 start (on_signal true false (record start { phase = cycling true }))
unfolding start head
signalled = more (more here (flag false true refl)) (signal true false refl)

Reach-Inv_example : Inv (on_signal true false (record start { phase = cycling true }))
Reach-Inv_example = Reach-Inv signalled

after_reports-counter_example :
    let t = after_report 300 (empty_report 1) 80 initial in
    (t.next_delay ≡ 300)
    × ((after_reports 300 ((interrupted_report, 90) ∷ []) t).consecutive_failures
        ≡ min 1 (2 ^ 32 - 1))
unfolding is_success
after_reports-counter_example =
    after_reports-counter 300 (empty_report 1) 80 ((interrupted_report, 90) ∷ []) initial refl
      (refl, tt)

backoff_delay_bounds_example :
    let capped = min (5 * 2 ^ (3 - 1)) 300 in
    (1 ≤ backoff_delay 3 75)
    × (backoff_delay 3 75 ≤ 300)
    × (capped / 2 ≤ backoff_delay 3 75)
    × (backoff_delay 3 75 ≤ capped)
backoff_delay_bounds_example = backoff_delay_bounds 3 75

backoff_delay_mono_example : backoff_delay 2 75 ≤ backoff_delay 40 75
backoff_delay_mono_example = backoff_delay_mono 2 40 75 (omega arith)

retry_delay_bounds_example :
    let wish = wished (retry_after interrupted_report) in
    (wish ≤ retry_delay interrupted_report 1 300 75)
    × (1 ≤ retry_delay interrupted_report 1 300 75)
    × (retry_delay interrupted_report 1 300 75 ≤ max wish (max 300 max_backoff))
retry_delay_bounds_example = retry_delay_bounds interrupted_report 1 300 75 (omega arith)
