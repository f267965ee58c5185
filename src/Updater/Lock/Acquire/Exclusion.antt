-- ===== src/Updater/Lock/Acquire/Exclusion.antt =====
-- What a process that has the runtime lock holds, for `acquire` in src/updater.rs.
use cirrusync.Prelude.{
  map, ◌++◌, All, ℕ, ◌≡◌, refl, ap, ◌∙◌, Bool, true, false, List, [], ◌∷◌, is_empty, if◌then◌else◌,
  Result, ok, err,
}
use cirrusync.Prelude.Strings.{Text, text}
use cirrusync.Config.Load.{IoError}
use cirrusync.Updater.Lock.{
  RuntimeLockError, RuntimeLockIdentity, hex, join, lock_path, lock_paths_in, LockSystem, Machine,
  Attempt, ◌>>=◌,
}
use cirrusync.Updater.Lock.Open.{open_runtime_lock}
use cirrusync.Updater.Lock.Open.Checks.{
  Opened, open_runtime_lock-Opened, >>=-ok, return-ok, return-state, paired,
}
use cirrusync.Updater.Lock.Parent.{PreparedLockParent, prepare_lock_parent}
use cirrusync.Updater.Lock.Parent.Checks.{Prepared, prepare_lock_parent-Prepared}
use cirrusync.Updater.Lock.Acquire.Keeps.{Locking, lock_all-Keeps}
use cirrusync.Updater.Lock.Acquire.{lock_outcome, lock_one, lock_all, acquire}

module _ (sys : LockSystem) (locking : Locking sys) where
  open sys use {World, File, try_lock_exclusive}
  open locking use {Holds, gained}

  if-err :
      (b : Bool) (e f : RuntimeLockError) (r : Result (Unit {0}) RuntimeLockError)
      → r ≡ (if b then err e else err f)
      → r ≡ ok tt
      → ⊥
  if-err true e f r h k = cc
  if-err false e f r h k = cc

  lock_outcome-ok :
      (path : Text) (answer : Result (Unit {0}) IoError)
      → lock_outcome sys path answer ≡ ok tt
      → answer ≡ ok tt
  unfolding lock_outcome
  lock_outcome-ok path (ok tt) h = refl
  lock_outcome-ok path (err e) h = absurd (if-err _ _ _ _ refl h)

  held_after : (file : File) (w v : World) → try_lock_exclusive file w ≡ (ok tt, v) → Holds file v
  held_after file w v e = rw (← ap (λ r. r.1) e) (gained file w (ap (λ r. r.0) e))

  lock_one-taken :
      (path : Text) (file locked : File) (s t : Machine World)
      → lock_one sys path file s ≡ (ok locked, t)
      → (file ≡ locked) × (try_lock_exclusive file s.world ≡ (ok tt, t.world))
  unfolding lock_one
  lock_one-taken path file locked s t h = >>=-ok _ _ _ locked t h λ a e h1.
      let answer = try_lock_exclusive file s.world in
      (
        return-ok file locked _ t h1,
        ap (λ r. (r, answer.1)) (lock_outcome-ok path answer.0 e)
            ∙ ap (λ m. (ok tt, m.world)) (return-state file locked _ t h1),
      )

  -- From one world to another the paths were opened one after the other, each as a private file of
  -- the owner, and `flock` granted the exclusive lock of each before the next was opened.
  pub data Taken (owner : ℕ) : List Text → List File → World → World → Type 0 where
    none_left : {w : World} → Taken owner [] [] w w
    and_then :
        {paths : List Text} {files : List File} {start opened locked end : World} (path : Text)
        (file : File)
        → Opened sys owner path file start opened
        → try_lock_exclusive file opened ≡ (ok tt, locked)
        → Taken owner paths files locked end
        → Taken owner (path ∷ paths) (file ∷ files) start end

  -- The locks of all these files are held in a world.
  abbrev pub AllHeld : World → List File → Type 0
  AllHeld w files = All (λ file. Holds file w) files

  lock_all-Taken :
      (owner : ℕ) (paths : List Text) (files : List File) (s t : Machine World)
      → lock_all sys owner paths s ≡ (ok files, t)
      → Taken owner paths files s.world t.world × AllHeld t.world files
  unfolding lock_all
  lock_all-Taken owner [] files s t h =
      rw (← return-ok [] files s t h, ← return-state [] files s t h) (none_left, tt)
  lock_all-Taken owner (path ∷ paths) files s t h = >>=-ok _ _ s files t h λ file e h1.
      >>=-ok _ _ _ files t h1 λ locked e1 h2. >>=-ok _ _ _ files t h2 λ rest e2 h3.
        let s1 = (open_runtime_lock sys path owner s).1 in
        let s2 = (lock_one sys path file s1).1 in
        let s3 = (lock_all sys owner paths s2).1 in
        let (same, granted) =
          lock_one-taken path file locked s1 s2 (paired (lock_one sys path file) s1 locked e1) in
        let opened =
          open_runtime_lock-Opened sys path owner file s s1
            (paired (open_runtime_lock sys path owner) s file e) in
        let end = return-state (locked ∷ rest) files s3 t h3 in
        let (taken, held) =
          lock_all-Taken owner paths rest s2 t
            (paired (lock_all sys owner paths) s2 rest e2 ∙ ap (λ m. (ok rest, m)) end) in
        rw (← return-ok (locked ∷ rest) files s3 t h3, ← same)
          (
            and_then path file opened granted taken,
            (
              rw (← end) (
                  lock_all-Keeps sys locking owner paths file s2
                    (held_after file s1.world s2.world granted)),
              held,
            ),
          )

  lock_paths_written :
      (parent : Text) (identity : RuntimeLockIdentity)
      → lock_paths_in parent identity
        ≡ map
            (λ hash. parent ++ text "/" ++ (text "record-" ++ hex 16 hash ++ text ".lock"))
            identity.resource_hashes
  unfolding lock_paths_in lock_path join
  lock_paths_written parent identity = refl

  if-ok :
      {A : Type 0} (b : Bool) (e : RuntimeLockError) (go : Attempt World A) (s t : Machine World)
      (a : A)
      → (if b then (err e, s) else go s) ≡ (ok a, t)
      → go s ≡ (ok a, t)
  if-ok {A = A} true e go s t a h = absurd (err-ne-ok (ap (λ x. x.0) h))
    where
      err-ne-ok : {e : RuntimeLockError} {a : A} → err e ≡ ok a → ⊥
      err-ne-ok h = cc
  if-ok false e go s t a h = h

  -- Where `flock` and the file system keep their promise: a process that acquires the runtime lock
  -- has prepared its lock directory, the installed root itself or, below a temporary root, the one
  -- that bears its owner's number, as a real directory that nobody else may write to and whose owner
  -- is that of a file that the process made as a probe; behind that it has opened `record-<hash>.lock`
  -- in that directory for each of its hashes, one after the other, as a private file of that owner,
  -- and `flock` granted the lock of each before the next was opened; and at the end it holds the lock
  -- of every one.
  pub acquire-Locked :
      (identity : RuntimeLockIdentity) (files : List File) (s t : Machine World)
      → acquire sys identity s ≡ (ok files, t)
      → (parent : PreparedLockParent) × (prepared : Machine World) × Prepared sys identity.lock_root
          identity.temporary_root parent s prepared
        × Taken parent.expected_owner
            (map
              (λ hash. parent.path ++ text "/" ++ (text "record-" ++ hex 16 hash ++ text ".lock"))
              identity.resource_hashes)
            files
            prepared.world
            t.world
        × AllHeld t.world files
  unfolding acquire
  acquire-Locked identity files s t h =
      let prepare = prepare_lock_parent sys identity.lock_root identity.temporary_root in
      let lock : PreparedLockParent → Attempt World (List File) =
        λ p. lock_all sys p.expected_owner (lock_paths_in p.path identity) in
      >>=-ok prepare lock s files t
        (if-ok (is_empty identity.resource_hashes) _ (prepare >>= lock) s t files h)
        λ parent e h1.
          let (taken, held) =
            lock_all-Taken parent.expected_owner (lock_paths_in parent.path identity) files
              (prepare s).1 t h1 in
          (
            parent,
            (prepare s).1,
            prepare_lock_parent-Prepared sys identity.lock_root identity.temporary_root parent s
                (prepare s).1 (paired prepare s parent e),
            rw (← lock_paths_written parent.path identity) taken,
            held,
          )
