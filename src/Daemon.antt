-- ===== src/Daemon.antt =====
-- src/daemon.rs: the retry policy and the loop. Durations are whole seconds.
pub mod Backoff
pub mod Run
pub mod Jitter
use cirrusync.Prelude.{
  ℕ, zero, suc, ◌+◌, ◌-◌, ◌*◌, ◌/◌, ◌^◌, true, false, Option, none, some, min, max, if◌then◌else◌,
}
use cirrusync.Updater.{
  CycleReport, is_success, retry_after, has_authentication_failure, has_retryable_failure,
}

abbrev pub initial_backoff : ℕ
initial_backoff = 5

abbrev pub max_backoff : ℕ
max_backoff = 300

abbrev pub u64_max : ℕ
u64_max = 2 ^ 64 - 1

abbrev pub saturating_mul : ℕ → ℕ → ℕ
saturating_mul a b = min (a * b) u64_max

abbrev pub clamp : ℕ → ℕ → ℕ → ℕ
clamp low high x = min high (max low x)

-- `1_u64 << exponent`, for exponents up to 31.
pub multiplier : ℕ → ℕ
multiplier consecutive_failures = 2 ^ min (consecutive_failures - 1) 31

calculate_backoff : ℕ → ℕ → ℕ → ℕ → ℕ
calculate_backoff consecutive_failures initial maximum jitter_percent =
    let uncapped = saturating_mul initial (multiplier consecutive_failures) in
    let capped = min uncapped maximum in
    let jittered = saturating_mul capped (clamp 50 100 jitter_percent) / 100 in
    min (max jittered 1) maximum

pub backoff_delay : ℕ → ℕ → ℕ
unfolding calculate_backoff
backoff_delay consecutive_failures jitter_percent =
    calculate_backoff consecutive_failures initial_backoff max_backoff jitter_percent

pub policy_delay : CycleReport → ℕ → ℕ → ℕ → ℕ
policy_delay report consecutive_failures interval jitter_percent =
    if has_authentication_failure report
    then max_backoff
    else if has_retryable_failure report
    then backoff_delay consecutive_failures jitter_percent
    else interval

at_least : Option ℕ → ℕ → ℕ
at_least none delay = delay
at_least (some retry) delay = max delay retry

pub retry_delay : CycleReport → ℕ → ℕ → ℕ → ℕ
unfolding policy_delay at_least
retry_delay report consecutive_failures interval jitter_percent =
    at_least (retry_after report) (policy_delay report consecutive_failures interval jitter_percent)

-- The variables of `run_loop`.
pub record LoopState : Type 0 where
  pub next_delay : ℕ
  pub consecutive_failures : ℕ

pub initial : LoopState
initial = record { next_delay = 0; consecutive_failures = 0 }

-- `saturating_add(1)` of a `u32`.
abbrev pub bump : ℕ → ℕ
bump n = min (n + 1) (2 ^ 32 - 1)

-- What the loop does with the report of a cycle that ran to its end.
pub after_report : ℕ → CycleReport → ℕ → LoopState → LoopState
after_report interval report jitter_percent s =
    if is_success report
    then record { next_delay = interval; consecutive_failures = 0 }
    else (let failures = bump s.consecutive_failures in
        record {
          next_delay = retry_delay report failures interval jitter_percent;
          consecutive_failures = failures;
        })
