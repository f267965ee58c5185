-- ===== src/App/Outcome.antt =====
-- What an exit status of zero means, for src/main.rs.
use cirrusync.Prelude.{
  ◌≤◌, ◌≡◌, refl, inl, inr, Bool, true, false, ◌||◌, Option, none, some, List, [], ◌∷◌, arith,
  is_empty, length, All, Result, ok, err, ensure-ok, Bool-cases,
}
use cirrusync.Prelude.Strings.{Text}
use cirrusync.Config.Load.{ParseToml}
use cirrusync.Config.Validate.{ParseUrl}
use cirrusync.Cloudflare.Client.{Request, get, patch, patch_probe, post, is_mutation, Sent, Session}
use cirrusync.Cloudflare.Frame.{mutations, WellFlagged}
use cirrusync.Updater.Host.{Host}
use cirrusync.Updater.Addresses.{Updater}
use cirrusync.Updater.Cycle.{run_cycle}
use cirrusync.Updater.Cycle.Visit.{completed}
use cirrusync.Updater.Cycle.Accounting.{run_cycle-CycleLedger}
use cirrusync.Updater.Check.Visit.{may_send, settled}
use cirrusync.Updater.Check.Run.{check}
use cirrusync.Updater.Check.Run.Ledger.{check-CheckLedger}
use cirrusync.App.{
  AppError, daemon, Surroundings, build_updater, Command, run, once, print_config, check_command,
  once_result, check_result, write_example_config, run_command, execute, with_updater, exit_code,
  main_code, DaemonError,
}
use cirrusync.App.Laws.{IsAssembled, build_updater-IsAssembled, map_err-ok}

mutation-allowed :
    (c p : Bool) (r : Request) → may_send c p r ≡ true → is_mutation r ≡ true → (c || p) ≡ true
unfolding may_send is_mutation
mutation-allowed c p (get path query) h k = cc
mutation-allowed c p (patch path payload) h k = cc
mutation-allowed true p (patch_probe path payload) h k = refl
mutation-allowed false p (patch_probe path payload) h k = h
mutation-allowed c p (post path payload) h k = rw h refl

-- Where a mutation was sent, one of the two kinds is allowed.
mutations-allowed :
    (c p : Bool) (xs : List Sent)
    → All (λ x. may_send c p x.request ≡ true) xs
    → 1 ≤ mutations xs
    → (c || p) ≡ true
unfolding mutations
mutations-allowed c p [] h le = absurd (omega (arith, le))
mutations-allowed c p (x ∷ xs) h le = elim (Bool-cases (is_mutation x.request)) [
  | inl k ↦ mutation-allowed c p x.request h.0 k
  | inr k ↦ mutations-allowed c p xs h.1 (ground (arith, k, le))
]

exit_code-ok : (r : Result (Unit {0}) AppError) → exit_code r ≡ 0 → r ≡ ok tt
unfolding exit_code
exit_code-ok (ok tt) h = refl
exit_code-ok (err e) h = absurd (omega (arith, h))

main_code-ok :
    (log : Result (Unit {0}) Text) (r : Result (Unit {0}) AppError)
    → main_code log r ≡ 0
    → r ≡ ok tt
unfolding main_code
main_code-ok (ok tt) r h = exit_code-ok r h
main_code-ok (err e) r h = absurd (omega (arith, h))

none-nonempty : {A : Type 0} (xs : List A) → is_empty xs ≡ false → length xs ≤ 0 → ⊥
none-nonempty [] h le = cc
none-nonempty (x ∷ xs) h le = omega (arith, le)

true-ne-false : {b : Bool} → b ≡ true → b ≡ false → ⊥
true-ne-false h k = cc

module _ (toml : ParseToml) (parse_url : ParseUrl) (around : Surroundings) (host : Host) where
  open host use {api}

  run_daemon-ok :
      (lock : Result (Unit {0}) Text) (loop : Result (Unit {0}) DaemonError) (written : Option Text)
      (u : Updater) (s : Session api.World)
      → (run_command toml parse_url around host u run lock loop written s).0 ≡ ok tt
      → (lock ≡ ok tt) × (loop ≡ ok tt)
  unfolding run_command
  run_daemon-ok (ok held) loop written u s h = (refl, map_err-ok loop daemon tt h)
  run_daemon-ok (err e) loop written u s h = cc

  module _ (lock : Result (Unit {0}) Text) (loop : Result (Unit {0}) DaemonError)
      (written : Option Text) (s : Session api.World) where
    -- What a command has achieved on an updater.
    abbrev pub Done : Command → Updater → Type 0
    Done run u = (lock ≡ ok tt) × (loop ≡ ok tt)
    Done once u = completed (run_cycle host u lock 0 s).0 ≡ length u.config.records
    Done (check_command c p) u =
        (settled (check host u c p lock s).0 ≡ length u.config.records) × ((c || p) ≡ true)
    Done print_config u = Unit

    abbrev pub Achieved : Command → Type 0
    Achieved run = (u : Updater) × IsAssembled toml parse_url around u × Done run u
    Achieved once = (u : Updater) × IsAssembled toml parse_url around u × Done once u
    Achieved (check_command c p) =
        (u : Updater) × IsAssembled toml parse_url around u × Done (check_command c p) u
    Achieved print_config = written ≡ none

    write_example-ok :
        (w : Option Text) → write_example_config toml parse_url around w ≡ ok tt → w ≡ none
    unfolding write_example_config
    write_example-ok none h = refl
    write_example-ok (some e) h = cc

    with_updater-ok :
        (built : Result Updater AppError)
        (f : Updater → Result (Unit {0}) AppError × Session api.World)
        → (with_updater toml parse_url around host built s f).0 ≡ ok tt
        → (u : Updater) × (built ≡ ok u) × ((f u).0 ≡ ok tt)
    with_updater-ok (ok u) f h = (u, refl, h)
    with_updater-ok (err e) f h = cc

    module _ (f : s.mutation_in_flight ≡ false) (w : WellFlagged s.sent) where
      run_command-Done :
          (cmd : Command) (u : Updater)
          → is_empty u.config.records ≡ false
          → (run_command toml parse_url around host u cmd lock loop written s).0 ≡ ok tt
          → Done cmd u
      unfolding run_command once_result check_result
      run_command-Done run u n h = run_daemon-ok lock loop written u s h
      run_command-Done once u n h = elim (run_cycle-CycleLedger host u lock 0 s f w).settles [
        | inl bad ↦ absurd (true-ne-false (ensure-ok _ _ h) bad)
        | inr all ↦ all
      ]
      run_command-Done (check_command c p) u n h =
          let l = check-CheckLedger host u c p lock s f in
          elim l.settles [
            | inl bad ↦ absurd (true-ne-false (ensure-ok _ _ h) bad)
            | inr (all, inl le) ↦ absurd (none-nonempty u.config.records n le)
            | inr (all, inr le) ↦ (all, mutations-allowed c p l.new l.permitted le)
          ]
      run_command-Done print_config u n h = tt

      built-Achieved :
          (cmd : Command)
          → (with_updater toml parse_url around host
              (build_updater toml parse_url around)
              s
              (λ u. run_command toml parse_url around host u cmd lock loop written s)).0
            ≡ ok tt
          → (u : Updater) × IsAssembled toml parse_url around u × Done cmd u
      built-Achieved cmd h =
          let (u, e, k) = with_updater-ok (build_updater toml parse_url around) _ h in
          let a = build_updater-IsAssembled toml parse_url around u e in
          (u, a, run_command-Done cmd u a.valid.some_record k)

      -- From a session with the flag down and a log that fits it: where the program exits with
      -- status 0, every part of its updater was loaded and checked, and `once` has settled every
      -- configured record, `check` has accounted for every one and was allowed to write, `run` had
      -- the runtime lock and its loop ended without an error, and `print-config` has written the example.
      pub main_code-Achieved :
          (log : Result (Unit {0}) Text) (cmd : Command)
          → main_code log (execute toml parse_url around host cmd lock loop written s).0 ≡ 0
          → Achieved cmd
      unfolding execute
      main_code-Achieved log run h = built-Achieved run (main_code-ok log _ h)
      main_code-Achieved log once h = built-Achieved once (main_code-ok log _ h)
      main_code-Achieved log (check_command c p) h =
          built-Achieved (check_command c p) (main_code-ok log _ h)
      main_code-Achieved log print_config h = write_example-ok written (main_code-ok log _ h)
