-- ===== src/Daemon/Backoff.antt =====
-- The retry delays: their bounds, their growth, and the server's own wish.
use native.Mathlib.Nat.{pow-le-pow_right, mul-le-mul_left, mul-le-mul_right}
use cirrusync.Prelude.{
  ◌⊎◌, inl, inr, refl, ℕ, ◌-◌, ◌*◌, ◌/◌, ◌^◌, ◌≤◌, ◌≡◌, Option, none, some, min, max, arith,
}
use cirrusync.Updater.{CycleReport, retry_after}
use cirrusync.Daemon.{
  initial_backoff, max_backoff, saturating_mul, multiplier, backoff_delay, policy_delay, at_least,
  retry_delay,
}

multiplier-pos : (n : ℕ) → 1 ≤ multiplier n
unfolding multiplier
multiplier-pos n = pow-le-pow_right {n = 2} (omega arith) {i = 0} {j = min (n - 1) 31} (omega arith)

multiplier-le : (n : ℕ) → multiplier n ≤ 2 ^ 31
unfolding multiplier
multiplier-le n = pow-le-pow_right {n = 2} (omega arith) {i = min (n - 1) 31} {j = 31} (omega arith)

multiplier_mono : (m n : ℕ) → m ≤ n → multiplier m ≤ multiplier n
unfolding multiplier
multiplier_mono m n h = pow-le-pow_right {n = 2} (omega arith) (omega arith)

-- A delay of at most 300 seconds under a jitter of 50 to 100 percent: no product saturates.
scale : ℕ → ℕ → ℕ
scale c j = c * j / 100

scale_bounds :
    (c j : ℕ) → 50 ≤ j → j ≤ 100 → (c / 2 ≤ scale c j) × (scale c j ≤ c) × (c * j ≤ c * 100)
unfolding scale
scale_bounds c j low high = (
  omega (arith, mul-le-mul_left c low),
  omega (arith, mul-le-mul_left c high),
  mul-le-mul_left c high,
)

scale_mono : (c d j : ℕ) → c ≤ d → scale c j ≤ scale d j
unfolding scale
scale_mono c d j h = omega (arith, mul-le-mul_right j h)

abbrev jitter_of : ℕ → ℕ
jitter_of jitter = min 100 (max 50 jitter)

abbrev capped : ℕ → ℕ
capped n = min (initial_backoff * multiplier n) max_backoff

-- The exponent's own limit shows in no delay.
capped_doubling : (n : ℕ) → min (5 * 2 ^ (n - 1)) 300 ≡ capped n
unfolding multiplier
capped_doubling n = elim (split_at (n - 1)) [
  | inl low ↦ rw low refl
  | inr (high, e) ↦ rw e (omega (arith, pow-le-pow_right {n = 2} (omega arith) high))
]
  where
    split_at : (m : ℕ) → (min m 31 ≡ m) ⊎ ((31 ≤ m) × (min m 31 ≡ 31))
    split_at m = omega arith

not_saturated : (n : ℕ) → min (saturating_mul initial_backoff (multiplier n)) max_backoff ≡ capped n
not_saturated n = omega (arith, multiplier-le n)

backoff_delay_scaled :
    (n jitter : ℕ) → backoff_delay n jitter ≡ min (max (scale (capped n) (jitter_of jitter)) 1) 300
unfolding backoff_delay scale
backoff_delay_scaled n jitter =
    rw (not_saturated n)
      (omega (arith, (scale_bounds (capped n) (jitter_of jitter) (omega arith) (omega arith)).2))

-- Whatever the jitter, the backoff behind `n` failures in a row waits for 1 to 300 seconds, and
-- between half, rounded down, and the whole of the lesser of 300 seconds and 5 seconds doubled
-- `n - 1` times.
pub backoff_delay_bounds :
    (n jitter : ℕ)
    → let capped = min (5 * 2 ^ (n - 1)) 300 in
      (1 ≤ backoff_delay n jitter)
      × (backoff_delay n jitter ≤ 300)
      × (capped / 2 ≤ backoff_delay n jitter)
      × (backoff_delay n jitter ≤ capped)
unfolding backoff_delay
backoff_delay_bounds n jitter =
    let b = scale_bounds (capped n) (jitter_of jitter) (omega arith) (omega arith) in
    rw (capped_doubling n, backoff_delay_scaled n jitter)
      (omega (arith, multiplier-pos n, b.0, b.1))

-- Under one jitter the delay never falls as failures follow one another.
pub backoff_delay_mono : (m n jitter : ℕ) → m ≤ n → backoff_delay m jitter ≤ backoff_delay n jitter
unfolding backoff_delay
backoff_delay_mono m n jitter h =
    rw (backoff_delay_scaled m jitter, backoff_delay_scaled n jitter)
      (omega (
        arith,
        scale_mono (capped m) (capped n) (jitter_of jitter) (omega (arith, multiplier_mono m n h)),
      ))

policy_delay_bounds :
    (report : CycleReport) (n interval jitter : ℕ)
    → 1 ≤ interval
    → (1 ≤ policy_delay report n interval jitter)
      × (policy_delay report n interval jitter ≤ max interval max_backoff)
unfolding policy_delay
policy_delay_bounds report n interval jitter h = ground (arith, backoff_delay_bounds n jitter)

-- What the server asked for, or nothing.
abbrev pub wished : Option ℕ → ℕ
wished none = 0
wished (some r) = r

at_least_bounds :
    (o : Option ℕ) (delay bound : ℕ)
    → 1 ≤ delay
    → delay ≤ bound
    → (wished o ≤ at_least o delay)
      × (1 ≤ at_least o delay)
      × (at_least o delay ≤ max (wished o) bound)
unfolding at_least
at_least_bounds none delay bound low high = omega arith
at_least_bounds (some x) delay bound low high = omega arith

-- A retry never waits less than the server asked for, and never less than a second if the polling
-- interval is not zero; it waits no longer than the longest of the interval, the 300 seconds and
-- the server's wish.
pub retry_delay_bounds :
    (report : CycleReport) (n interval jitter : ℕ)
    → 1 ≤ interval
    → let wish = wished (retry_after report) in
      (wish ≤ retry_delay report n interval jitter)
      × (1 ≤ retry_delay report n interval jitter)
      × (retry_delay report n interval jitter ≤ max wish (max interval max_backoff))
unfolding retry_delay
retry_delay_bounds report n interval jitter h =
    let b = policy_delay_bounds report n interval jitter h in
    at_least_bounds (retry_after report) (policy_delay report n interval jitter)
      (max interval max_backoff) b.0 b.1
