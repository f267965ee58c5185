-- ===== src/Updater/Lock/Parent.antt =====
-- src/updater.rs: the directory of the lock files, on Linux.
pub mod Probe
pub mod Checks
use Prim.Native.Nat.{bit_and}
use cirrusync.Prelude.{
  ℕ, zero, suc, ◌+◌, ◌%◌, ◌^◌, Bool, true, false, ◌&&◌, ◌||◌, not, ◌++◌, ◌==◌, Result, ok, err,
}
use cirrusync.Prelude.Strings.{Text, text, decimal, octal4}
use cirrusync.Config.Load.{Metadata, IoError, ErrorKind}
use cirrusync.Updater.Lock.{
  RuntimeLockError, insecure, open_failed, hex, join, LockSystem, Attempt, ◌>>=◌, ◌>>◌, return,
  insecure_if, opening, calling,
}
use cirrusync.Updater.Lock.Open.{mode_bits, too_permissive}

pub record PreparedLockParent : Type 0 where
  pub path : Text
  pub expected_owner : ℕ

-- `temporary_lock_root`: `/tmp` itself where it cannot be made canonical.
abbrev pub root_or_tmp : Result Text IoError → Text
root_or_tmp (ok path) = path
root_or_tmp (err e) = text "/tmp"

-- The name of an ownership probe. The program prints the pieces in hexadecimal.
pub probe_name : ℕ → ℕ → ℕ → ℕ → Text
probe_name process timestamp sequence attempt =
    text ".cirrusync-owner-"
    ++ decimal process
    ++ text "-"
    ++ hex 32 timestamp
    ++ text "-"
    ++ hex 16 sequence
    ++ text "-"
    ++ hex 2 attempt

-- A directory that is there already is as good as a new one.
created_directory : Text → Result (Unit {0}) IoError → Result (Unit {0}) RuntimeLockError
created_directory parent (ok tt) = ok tt
created_directory parent (err e) = elim e.kind [
  | ErrorKind.already_exists ↦ ok tt
  | _ ↦ err (open_failed parent e)
]

module _ {W : Type 0} where
  pub validate_owner_match : Text → ℕ → ℕ → Attempt W (Unit {0})
  validate_owner_match path parent_owner current_owner =
      insecure_if (not (parent_owner == current_owner)) path (
        text "lock directory owner "
        ++ decimal parent_owner
        ++ text " does not match process owner "
        ++ decimal current_owner)

  -- The tests of `validate_private_lock_container` on the metadata.
  pub check_container : Text → Metadata → Attempt W (Unit {0})
  check_container root m = do
    insecure_if (m.is_symlink || not m.is_dir) root
        (text "ownership-probe parent must be a real directory")
    insecure_if (not (bit_and m.mode 0o022 == 0) && bit_and m.mode 0o1000 == 0) root
        (text "ownership-probe parent is writable by other users without the sticky bit")

  pub check_directory : Text → Metadata → Attempt W Metadata
  check_directory path m = do
    insecure_if (m.is_symlink || not m.is_dir) path
        (text "lock parent must be a real directory, not a symbolic link")
    return m

  pub validate_installed_lock_parent : Text → Metadata → ℕ → Attempt W PreparedLockParent
  unfolding validate_owner_match
  validate_installed_lock_parent root m current_owner = do
    insecure_if (not (bit_and (mode_bits m) 0o022 == 0)) root (
        text "installed lock directory mode "
        ++ octal4 (mode_bits m)
        ++ text " permits group or other writes")
    validate_owner_match root m.uid current_owner
    return (record { path = root; expected_owner = m.uid })

  -- The end of `prepare_temporary_lock_parent`.
  pub check_temporary : Text → ℕ → Metadata → Attempt W PreparedLockParent
  unfolding validate_owner_match
  check_temporary parent current_owner m = do
    insecure_if (too_permissive m) parent
        (text "private lock directory mode " ++ octal4 (mode_bits m) ++ text " is too permissive")
    validate_owner_match parent m.uid current_owner
    return (record { path = parent; expected_owner = current_owner })

module _ (sys : LockSystem) where
  open sys use {
    World, File, symlink_metadata, create_directory, create_probe, remove_file, file_metadata,
    canonical_temporary, unix_nanoseconds, process_id,
  }

  pub validate_private_lock_container : Text → Attempt World (Unit {0})
  unfolding check_container
  validate_private_lock_container root = do
    m ← calling root (symlink_metadata root)
    check_container root m

  pub create_private_lock_directory : Text → Attempt World (Unit {0})
  unfolding created_directory
  create_private_lock_directory parent s =
      let (answer, w) = create_directory parent s.world in
      (created_directory parent answer, record s { world = w })

  pub lock_directory_metadata : Text → Attempt World Metadata
  unfolding check_directory
  lock_directory_metadata path = do m ← calling path (symlink_metadata path); check_directory path m

  -- `fetch_add(1)` on the `AtomicUsize`, which wraps.
  pub next_sequence : Attempt World ℕ
  next_sequence s =
      (ok s.probe_counter, record s { probe_counter = (s.probe_counter + 1) % 2 ^ 64 })

  -- The probe is removed before its owner is looked at.
  pub probe_owner : Text → File → Attempt World ℕ
  probe_owner path file s =
      let (metadata, w) = file_metadata file s.world in
      let (removed, w') = remove_file path w in
      let both : Attempt World ℕ = do
        m ← λ t. (opening path metadata, t)
        λ t. (opening path removed, t)
        return m.uid
      in both (record s { world = w' })

  abbrev pub retry_or_fail :
      Text → Result File IoError → (File → Attempt World ℕ) → Attempt World ℕ → Attempt World ℕ
  retry_or_fail path (ok file) found retry s = found file s
  retry_or_fail path (err e) found retry s = elim e.kind [
    | ErrorKind.already_exists ↦ retry s
    | _ ↦ (err (open_failed path e), s)
  ]

  -- The loop over the attempts, with the number of those that are left.
  pub probe_attempts : ℕ → ℕ → Text → ℕ → Attempt World ℕ
  unfolding probe_name next_sequence probe_owner
  probe_attempts zero attempt root timestamp s =
      (err (insecure root (text "could not create a collision-free ownership probe")), s)
  probe_attempts (suc left) attempt root timestamp s =
      let retry = probe_attempts left (attempt + 1) root timestamp in
      let try_path : Text → Attempt World ℕ = λ path t.
        let (answer, w) = create_probe path t.world in
        retry_or_fail path answer (probe_owner path) retry (record t { world = w }) in
      let go : Attempt World ℕ = do
        sequence ← next_sequence
        try_path (join root (probe_name process_id timestamp sequence attempt))
      in go s

  pub current_file_owner : Text → Attempt World ℕ
  unfolding validate_private_lock_container probe_attempts
  current_file_owner root = do
    validate_private_lock_container root
    timestamp ← λ s. let (t, w) = unix_nanoseconds s.world in (ok t, record s { world = w })
    probe_attempts 16 0 root timestamp

  pub prepare_temporary_lock_parent : Text → Attempt World PreparedLockParent
  unfolding validate_private_lock_container current_file_owner create_private_lock_directory
      lock_directory_metadata check_temporary
  prepare_temporary_lock_parent root = do
    validate_private_lock_container root
    current_owner ← current_file_owner root
    let parent = join root (text "cirrusync-runtime-" ++ decimal current_owner)
    create_private_lock_directory parent
    m ← lock_directory_metadata parent
    check_temporary parent current_owner m

  pub temporary_lock_root : Attempt World Text
  temporary_lock_root s =
      let (answer, w) = canonical_temporary s.world in
      (ok (root_or_tmp answer), record s { world = w })

  pub prepare_installed_lock_parent : Text → Attempt World PreparedLockParent
  unfolding lock_directory_metadata current_file_owner validate_installed_lock_parent
      temporary_lock_root
  prepare_installed_lock_parent root = do
    m ← lock_directory_metadata root
    probe_root ← temporary_lock_root
    current_owner ← current_file_owner probe_root
    validate_installed_lock_parent root m current_owner

  unfoldable pub prepare_lock_parent : Text → Bool → Attempt World PreparedLockParent
  unfolding prepare_temporary_lock_parent prepare_installed_lock_parent
  prepare_lock_parent root true = prepare_temporary_lock_parent root
  prepare_lock_parent root false = prepare_installed_lock_parent root
