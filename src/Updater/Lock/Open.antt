-- ===== src/Updater/Lock/Open.antt =====
-- src/updater.rs: opening a lock file, on Linux.
pub mod Checks
use Prim.Native.Nat.{bit_and}
use cirrusync.Prelude.{ℕ, Bool, true, false, ◌||◌, not, ◌++◌, ◌==◌, Result, ok, err}
use cirrusync.Prelude.Strings.{Text, text, decimal, octal4}
use cirrusync.Config.Load.{Metadata, IoError, ErrorKind}
use cirrusync.Updater.Lock.{
  RuntimeLockError, LockSystem, Attempt, ◌>>=◌, ◌>>◌, return, insecure_if, calling,
}

abbrev pub mode_bits : Metadata → ℕ
mode_bits m = bit_and m.mode 0o777

abbrev pub too_permissive : Metadata → Bool
too_permissive m = not (bit_and (mode_bits m) 0o077 == 0)

owner_mismatch : ℕ → ℕ → Text
owner_mismatch owner expected =
    text "lock file owner "
    ++ decimal owner
    ++ text " does not match lock directory owner "
    ++ decimal expected

permissive_mode : Metadata → Text
permissive_mode m = text "lock file mode " ++ octal4 (mode_bits m) ++ text " is too permissive"

module _ (sys : LockSystem) (path : Text) (expected_owner : ℕ) where
  open sys use {World, File, symlink_metadata, open_lock_file, file_metadata}

  unfoldable pub check_existing : Metadata → Attempt World (Unit {0})
  unfolding owner_mismatch permissive_mode
  check_existing m = do
    insecure_if (m.is_symlink || not m.is_file) path
        (text "existing lock target must be a regular, non-symbolic-link file")
    insecure_if (not (m.uid == expected_owner)) path (owner_mismatch m.uid expected_owner)
    insecure_if (not (m.nlink == 1)) path (text "hard-linked lock files are not accepted")
    insecure_if (too_permissive m) path (permissive_mode m)

  -- A target that is not there yet will be created.
  unfoldable pub existing_target : Result Metadata IoError → Attempt World (Unit {0})
  unfolding check_existing
  existing_target (ok m) = check_existing m
  existing_target (err e) = elim e.kind [
    | ErrorKind.not_found ↦ return tt
    | _ ↦ λ s. (err (RuntimeLockError.open_failed path e), s)
  ]

  unfoldable pub validate_existing_lock_target : Attempt World (Unit {0})
  unfolding existing_target
  validate_existing_lock_target s =
      let (answer, w) = symlink_metadata path s.world in
      existing_target answer (record s { world = w })

  -- The tests on the descriptor and on the name.
  unfoldable pub check_opened : Metadata → Metadata → Attempt World (Unit {0})
  unfolding owner_mismatch permissive_mode
  check_opened opened named = do
    insecure_if (named.is_symlink || not opened.is_file) path
        (text "lock target must be a regular file, not a symbolic link")
    insecure_if (not (named.dev == opened.dev) || not (named.ino == opened.ino)) path
        (text "lock path changed while it was being opened")
    insecure_if (not (opened.nlink == 1)) path (text "hard-linked lock files are not accepted")
    insecure_if (not (opened.uid == expected_owner)) path (owner_mismatch opened.uid expected_owner)
    insecure_if (too_permissive opened) path (permissive_mode opened)

  unfoldable pub open_runtime_lock : Attempt World File
  unfolding validate_existing_lock_target check_opened
  open_runtime_lock = do
    validate_existing_lock_target
    file ← calling path (open_lock_file path)
    opened ← calling path (file_metadata file)
    named ← calling path (symlink_metadata path)
    check_opened opened named
    return file
