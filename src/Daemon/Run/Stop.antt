-- ===== src/Daemon/Run/Stop.antt =====
-- src/daemon.rs: how the loop takes a shutdown signal, and how it ends behind one.
use cirrusync.Prelude.{
  ℕ, suc, ◌≡◌, refl, sym, ap, ◌∙◌, Bool, true, false, Option, none, some, arith,
}
use cirrusync.Daemon.Run.{
  Phase, sleeping, cycling, draining, returned, Daemon, cut_off, on_signal, Step, wake,
  signal_asleep, flag, signal, drained, report,
}

-- The steps that take the shutdown signal, with whether its handler failed.
unfoldable pub signalled_by : {interval : ℕ} {d e : Daemon} → Step interval d e → Option Bool
signalled_by (wake p) = none
signalled_by (signal_asleep failed p) = some failed
signalled_by (flag x y p) = none
signalled_by (signal x failed p) = some failed
signalled_by (drained failed p) = none
signalled_by (report r j v p q) = none

-- What the loop has to do with a signal: asleep, it returns; in a cycle it asks the cycle to stop,
-- and returns if no mutation is in flight, and waits for the cycle's end otherwise.
pub data Signalled (failed : Bool) (d : Daemon) : Daemon → Type 0 where
  asleep : d.phase ≡ sleeping → Signalled failed d (record d { phase = returned failed })
  idle :
      d.phase ≡ cycling false
      → Signalled failed d (record d { phase = returned failed; stop_requested = true })
  in_flight :
      d.phase ≡ cycling true
      → Signalled failed d (record d { phase = draining failed; stop_requested = true })

some-injective : {A : Type 0} {a b : A} → some a ≡ some b → a ≡ b
some-injective h = cc

Signalled-at : {f g : Bool} {d e : Daemon} → some f ≡ some g → Signalled f d e → Signalled g d e
Signalled-at {d = d} {e} h s = rw (← some-injective h) s

in_cycle :
    (b failed : Bool) (d : Daemon) → d.phase ≡ cycling b → Signalled failed d (on_signal b failed d)
unfolding on_signal cut_off
in_cycle true failed d p = in_flight p
in_cycle false failed d p = idle p

none-ne-some : {A : Type 0} {a : A} → none ≡ some a → ⊥
none-ne-some h = cc

answered :
    {interval : ℕ} {failed : Bool} {d e : Daemon} (st : Step interval d e)
    → signalled_by st ≡ some failed
    → Signalled failed d e
unfolding signalled_by
answered (wake p) h = absurd (none-ne-some h)
answered (signal_asleep f p) h = Signalled-at h (asleep p)
answered (flag x y p) h = absurd (none-ne-some h)
answered {d = d} (signal b f p) h = Signalled-at h (in_cycle b f d p)
answered (drained f p) h = absurd (none-ne-some h)
answered (report r j v p q) h = absurd (none-ne-some h)

-- So many steps.
pub data Steps (interval : ℕ) (d : Daemon) : ℕ → Daemon → Type 0 where
  none_yet : Steps interval d 0 d
  then_one :
      {n : ℕ} {e f : Daemon} → Steps interval d n e → Step interval e f → Steps interval d (suc n) f

-- What is left of the loop in a phase, and the signal's result that the phase keeps.
left_in : Phase → ℕ
left_in sleeping = 2
left_in (cycling b) = 2
left_in (draining b) = 1
left_in (returned b) = 0

kept_in : Phase → Bool
kept_in sleeping = false
kept_in (cycling b) = false
kept_in (draining b) = b
kept_in (returned b) = b

clash : (p q : Phase) → p ≡ q → (left_in p ≡ left_in q → ⊥) → ⊥
clash p q e h = h (ap left_in e)

returned-final :
    {interval : ℕ} {d e : Daemon} (b : Bool) → d.phase ≡ returned b → Step interval d e → ⊥
unfolding left_in
returned-final b h (wake p) = clash _ _ (sym p ∙ h) λ e. omega (arith, e)
returned-final b h (signal_asleep f p) = clash _ _ (sym p ∙ h) λ e. omega (arith, e)
returned-final b h (flag x y p) = clash _ _ (sym p ∙ h) λ e. omega (arith, e)
returned-final b h (signal x f p) = clash _ _ (sym p ∙ h) λ e. omega (arith, e)
returned-final b h (drained f p) = clash _ _ (sym p ∙ h) λ e. omega (arith, e)
returned-final b h (report r j v p q) = clash _ _ (sym p ∙ h) λ e. omega (arith, e)

-- From the wait for the last cycle only the return follows, with the signal's result.
draining-returns :
    {interval : ℕ} {d e : Daemon} (b : Bool)
    → d.phase ≡ draining b
    → Step interval d e
    → e.phase ≡ returned b
unfolding left_in kept_in
draining-returns b h (wake p) = absurd (clash _ _ (sym p ∙ h) λ e. omega (arith, e))
draining-returns b h (signal_asleep f p) = absurd (clash _ _ (sym p ∙ h) λ e. omega (arith, e))
draining-returns b h (flag x y p) = absurd (clash _ _ (sym p ∙ h) λ e. omega (arith, e))
draining-returns b h (signal x f p) = absurd (clash _ _ (sym p ∙ h) λ e. omega (arith, e))
draining-returns b h (drained f p) = ap returned (ap kept_in (sym p ∙ h))
draining-returns b h (report r j v p q) = absurd (clash _ _ (sym p ∙ h) λ e. omega (arith, e))

-- So many steps behind a signal: none, and the loop has returned or waits for the cycle in which the
-- signal found a mutation in flight; or the one of the wait's end, and the loop has returned. It
-- returns what the signal's handler came to.
pub data Stopping (failed : Bool) (d : Daemon) (n : ℕ) (e : Daemon) : Type 0 where
  at_once : n ≡ 0 → e.phase ≡ returned failed → Stopping failed d n e
  waiting : n ≡ 0 → d.phase ≡ cycling true → e.phase ≡ draining failed → Stopping failed d n e
  waited : n ≡ 1 → d.phase ≡ cycling true → e.phase ≡ returned failed → Stopping failed d n e

Signalled-Stopping : {failed : Bool} {d e : Daemon} → Signalled failed d e → Stopping failed d 0 e
Signalled-Stopping (asleep p) = at_once refl refl
Signalled-Stopping (idle p) = at_once refl refl
Signalled-Stopping (in_flight p) = waiting refl p refl

Stopping-Step :
    {interval : ℕ} {failed : Bool} {d e f : Daemon} {n : ℕ}
    → Stopping failed d n e
    → Step interval e f
    → Stopping failed d (suc n) f
Stopping-Step {failed = failed} (at_once z r) st = absurd (returned-final failed r st)
Stopping-Step {failed = failed} (waiting z c w) st =
    waited (ap suc z) c (draining-returns failed w st)
Stopping-Step {failed = failed} (waited z c r) st = absurd (returned-final failed r st)

Steps-Stopping :
    {interval : ℕ} {failed : Bool} {d e f : Daemon} {n : ℕ}
    → Signalled failed d e
    → Steps interval e n f
    → Stopping failed d n f
Steps-Stopping s none_yet = Signalled-Stopping s
Steps-Stopping s (then_one steps st) = Stopping-Step (Steps-Stopping s steps) st

-- Behind a step that takes a shutdown signal the loop makes one step at most, whatever happens: it
-- has returned at once, or, where the signal found a mutation in flight, it waits for the end of
-- that cycle and then returns. No other cycle begins, and the loop returns what the signal's handler
-- came to. That the awaited cycle ends is one step here.
pub signalled_by-Stopping :
    {interval n : ℕ} {failed : Bool} {d e f : Daemon} (st : Step interval d e)
    → signalled_by st ≡ some failed
    → Steps interval e n f
    → Stopping failed d n f
signalled_by-Stopping st h steps = Steps-Stopping (answered st h) steps
