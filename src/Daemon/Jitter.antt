-- ===== src/Daemon/Jitter.antt =====
-- src/daemon.rs: `jitter_percent`, with the clock's answer, the process ID and `JITTER_COUNTER` as
-- arguments.
use Prim.Native.Nat.{bit_xor}
use cirrusync.Prelude.{ℕ, ◌+◌, ◌*◌, ◌/◌, ◌%◌, ◌^◌, ◌≤◌, Option, none, some, arith}

abbrev pub first_jitter_counter : ℕ
first_jitter_counter = 0x9e3779b97f4a7c15

-- `duration.as_secs() ^ u64::from(duration.subsec_nanos())`, 0 before the epoch.
timestamp : Option (ℕ × ℕ) → ℕ
timestamp none = 0
timestamp (some (seconds, nanoseconds)) = bit_xor seconds nanoseconds

mix : ℕ → ℕ
mix n =
    let a = bit_xor n (n / 2 ^ 30) * 0xbf58476d1ce4e5b9 % 2 ^ 64 in
    let b = bit_xor a (a / 2 ^ 27) * 0x94d049bb133111eb % 2 ^ 64 in bit_xor b (b / 2 ^ 31)

-- The percentage, and the counter behind `fetch_add`. The sum is a `u16`.
pub jitter_percent : Option (ℕ × ℕ) → ℕ → ℕ → ℕ × ℕ
unfolding timestamp mix
jitter_percent since_epoch process_id counter = (
  50 + mix (bit_xor (bit_xor (timestamp since_epoch) counter) process_id) % 51,
  (counter + 0x9e3779b97f4a7c15) % 2 ^ 64,
)

-- The percentage is one that the backoff does not clamp.
pub jitter_percent_bounds :
    (since_epoch : Option (ℕ × ℕ)) (process_id counter : ℕ)
    → let p = (jitter_percent since_epoch process_id counter).0 in (50 ≤ p) × (p ≤ 100)
unfolding jitter_percent
jitter_percent_bounds since_epoch process_id counter = (omega arith, omega arith)
