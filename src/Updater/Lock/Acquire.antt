-- ===== src/Updater/Lock/Acquire.antt =====
-- src/updater.rs: acquiring and releasing the runtime lock.
pub mod Keeps
pub mod Exclusion
use cirrusync.Prelude.{
  ℕ, zero, suc, Bool, true, false, ◌||◌, Option, none, some, List, [], ◌∷◌, ◌==◌, if◌then◌else◌,
  is_empty, Result, ok, err,
}
use cirrusync.Prelude.Strings.{Text, text}
use cirrusync.Config.Load.{IoError, ErrorKind}
use cirrusync.Updater.Lock.{
  RuntimeLockError, insecure, already_running, lock_failed, RuntimeLockIdentity, lock_paths_in,
  LockSystem, Machine, Attempt, ◌>>=◌, return,
}
use cirrusync.Updater.Lock.Open.{open_runtime_lock}
use cirrusync.Updater.Lock.Parent.{prepare_lock_parent}

abbrev would_block : ErrorKind → Bool
would_block ErrorKind.would_block = true
would_block _ = false

same_os_error : Option ℕ → Option ℕ → Bool
same_os_error none expected = false
same_os_error (some code) none = false
same_os_error (some code) (some expected) = code == expected

unfoldable pub is_lock_contended : IoError → IoError → Bool
unfolding same_os_error
is_lock_contended expected e =
    would_block e.kind || same_os_error e.raw_os_error expected.raw_os_error

module _ (sys : LockSystem) where
  open sys use {World, File, try_lock_exclusive, unlock, contended_error}

  pub lock_outcome : Text → Result (Unit {0}) IoError → Result (Unit {0}) RuntimeLockError
  lock_outcome path (ok tt) = ok tt
  lock_outcome path (err e) =
      if is_lock_contended contended_error e
      then err (already_running path)
      else err (lock_failed path e)

  pub lock_one : Text → File → Attempt World File
  unfolding lock_outcome
  lock_one path file s =
      let (answer, w) = try_lock_exclusive file s.world in
      let locked : Attempt World File = do held ← λ t. (lock_outcome path answer, t); return file
      in locked (record s { world = w })

  -- The loop over the paths. The files that a failure drops are closed, which releases them.
  pub lock_all : ℕ → List Text → Attempt World (List File)
  unfolding lock_one
  lock_all owner [] = return []
  lock_all owner (path ∷ paths) = do
    file ← open_runtime_lock sys path owner
    locked ← lock_one path file
    files ← lock_all owner paths
    return (locked ∷ files)

  -- The guard is the list of its files. The disabled lock of the tests is left out.
  unfoldable pub acquire : RuntimeLockIdentity → Attempt World (List File)
  unfolding lock_all
  acquire identity s =
      let go : Attempt World (List File) = do
        prepared ← prepare_lock_parent sys identity.lock_root identity.temporary_root
        lock_all prepared.expected_owner (lock_paths_in prepared.path identity)
      in if is_empty identity.resource_hashes
        then (err (insecure [] (text "no managed DNS resources were available to lock")), s)
        else go s

  -- The guard's drop.
  pub release : List File → Machine World → Machine World
  release [] s = s
  release (file ∷ files) s = release files (record s { world = unlock file s.world })
