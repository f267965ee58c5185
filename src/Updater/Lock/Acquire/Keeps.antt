-- ===== src/Updater/Lock/Acquire/Keeps.antt =====
-- What the acquiring of a runtime lock takes away from the locks that are held: nothing, for
-- src/updater.rs.
use cirrusync.Prelude.{ℕ, ◌≡◌, Bool, true, false, List, [], ◌∷◌, Result, ok, err}
use cirrusync.Prelude.Strings.{Text}
use cirrusync.Config.Load.{Metadata, IoError, ErrorKind}
use cirrusync.Updater.Lock.{
  RuntimeLockError, LockSystem, Machine, Attempt, ◌>>=◌, continue, return, insecure_if,
}
use cirrusync.Updater.Lock.Open.{
  open_runtime_lock, validate_existing_lock_target, check_opened, check_existing, existing_target,
}
use cirrusync.Updater.Lock.Acquire.{lock_outcome, lock_one, lock_all}

-- What `flock` and the file system promise: an exclusive lock that is granted is held, and opening
-- and locking other files and reading metadata take none away. `Holds file w` says that the
-- process holds an exclusive lock through `file`.
pub record Locking (sys : LockSystem) : Type 1 where
  pub Holds : sys.File → sys.World → Type 0
  pub gained :
      (file : sys.File) (w : sys.World)
      → (sys.try_lock_exclusive file w).0 ≡ ok tt
      → Holds file (sys.try_lock_exclusive file w).1
  pub kept_by_lock :
      (file other : sys.File) (w : sys.World)
      → Holds file w
      → Holds file (sys.try_lock_exclusive other w).1
  pub kept_by_open :
      (file : sys.File) (path : Text) (w : sys.World)
      → Holds file w
      → Holds file (sys.open_lock_file path w).1
  pub kept_by_metadata :
      (file other : sys.File) (w : sys.World)
      → Holds file w
      → Holds file (sys.file_metadata other w).1
  pub kept_by_name :
      (file : sys.File) (path : Text) (w : sys.World)
      → Holds file w
      → Holds file (sys.symlink_metadata path w).1

module _ (sys : LockSystem) (locking : Locking sys) where
  open sys use {World, File, try_lock_exclusive}
  open locking use {Holds, gained, kept_by_lock, kept_by_open, kept_by_metadata, kept_by_name}

  -- An attempt that takes no lock away.
  abbrev Keeps : {A : Type 0} → Attempt World A → Type 0
  Keeps m = (file : File) (s : Machine World) → Holds file s.world → Holds file (m s).1.world

  Keeps->>= :
      {A B : Type 0} (m : Attempt World A) (f : A → Attempt World B)
      → Keeps m
      → ((a : A) → Keeps (f a))
      → Keeps (m >>= f)
  unfolding ◌>>=◌
  Keeps->>= m f km kf file s h = go (m s).0 (m s).1 (km file s h)
    where
      go :
          (r : Result _ RuntimeLockError) (t : Machine World)
          → Holds file t.world
          → Holds file (continue r t f).1.world
      go (err e) t k = k
      go (ok a) t k = kf a file t k

  insecure_if-Keeps : (b : Bool) (path reason : Text) → Keeps (insecure_if b path reason)
  insecure_if-Keeps true path reason file s h = h
  insecure_if-Keeps false path reason file s h = h

  check_existing-Keeps :
      (path : Text) (owner : ℕ) (m : Metadata) → Keeps (check_existing sys path owner m)
  unfolding check_existing
  check_existing-Keeps path owner m = Keeps->>= _ _ (insecure_if-Keeps _ path _) λ _.
      Keeps->>= _ _ (insecure_if-Keeps _ path _)
        λ _. Keeps->>= _ _ (insecure_if-Keeps _ path _) λ _. insecure_if-Keeps _ path _

  existing_target-Keeps :
      (path : Text) (owner : ℕ) (answer : Result Metadata IoError)
      → Keeps (existing_target sys path owner answer)
  unfolding existing_target
  existing_target-Keeps path owner (ok m) = check_existing-Keeps path owner m
  existing_target-Keeps path owner (err e) = by_kind e.kind
    where
      by_kind :
          (k : ErrorKind) → Keeps (existing_target sys path owner (err (record e { kind = k })))
      by_kind ErrorKind.not_found file s h = h
      by_kind ErrorKind.already_exists file s h = h
      by_kind ErrorKind.would_block file s h = h
      by_kind ErrorKind.other file s h = h

  check_opened-Keeps :
      (path : Text) (owner : ℕ) (opened named : Metadata)
      → Keeps (check_opened sys path owner opened named)
  unfolding check_opened
  check_opened-Keeps path owner opened named = Keeps->>= _ _ (insecure_if-Keeps _ path _) λ _.
      Keeps->>= _ _ (insecure_if-Keeps _ path _) λ _.
        Keeps->>= _ _ (insecure_if-Keeps _ path _)
          λ _. Keeps->>= _ _ (insecure_if-Keeps _ path _) λ _. insecure_if-Keeps _ path _

  validate_existing-Keeps :
      (path : Text) (owner : ℕ) → Keeps (validate_existing_lock_target sys path owner)
  unfolding validate_existing_lock_target
  validate_existing-Keeps path owner file s h =
      existing_target-Keeps path owner _ file _ (kept_by_name file path s.world h)

  open_runtime_lock-Keeps : (path : Text) (owner : ℕ) → Keeps (open_runtime_lock sys path owner)
  unfolding open_runtime_lock
  open_runtime_lock-Keeps path owner = Keeps->>= _ _ (validate_existing-Keeps path owner) λ _.
      Keeps->>= _ _ (λ file s h. kept_by_open file path s.world h)
        λ opening.
          Keeps->>= _ _ (λ file s h. kept_by_metadata file opening s.world h)
            λ opened.
              Keeps->>= _ _ (λ file s h. kept_by_name file path s.world h)
                λ named. Keeps->>= _ _ (check_opened-Keeps path owner opened named) λ _ file s h. h

  lock_one-Keeps : (path : Text) (other : File) → Keeps (lock_one sys path other)
  unfolding lock_one
  lock_one-Keeps path other file s h =
      Keeps->>= (λ t. (lock_outcome sys path _, t)) (λ held. return other) (λ f t k. k)
        (λ _ f t k. k) file (record s { world = (try_lock_exclusive other s.world).1 })
        (kept_by_lock file other s.world h)

  pub lock_all-Keeps : (owner : ℕ) (paths : List Text) → Keeps (lock_all sys owner paths)
  unfolding lock_all
  lock_all-Keeps owner [] file s h = h
  lock_all-Keeps owner (path ∷ paths) file s h =
      Keeps->>= _ _ (open_runtime_lock-Keeps path owner)
        (λ opened.
          Keeps->>= _ _ (lock_one-Keeps path opened)
            λ locked. Keeps->>= _ _ (lock_all-Keeps owner paths) λ files f s h. h)
        file s h
