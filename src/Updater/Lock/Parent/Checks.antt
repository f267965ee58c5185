-- ===== src/Updater/Lock/Parent/Checks.antt =====
-- What a lock directory that was prepared is, for `prepare_lock_parent` in src/updater.rs.
use Prim.Native.Nat.{bit_and}
use cirrusync.Prelude.{ℕ, ◌≡◌, sym, ap, ◌∙◌, Bool, true, false, not, ◌++◌, ◌==◌, ==_iff, ok}
use cirrusync.Prelude.Strings.{Text, text, decimal}
use cirrusync.Config.Load.{Metadata}
use cirrusync.Updater.Lock.{LockSystem, Machine, ◌>>◌, return, insecure_if, calling, join}
use cirrusync.Updater.Lock.Open.{mode_bits}
use cirrusync.Updater.Lock.Open.Checks.{
  >>=-ok, return-ok, return-state, paired, called, Still, insecure_if-state, insecure_if-then,
  insecure_if-ok, not-false, either-false,
}
use cirrusync.Updater.Lock.Parent.Probe.{ProbedBelow, current_file_owner-ProbedBelow}
use cirrusync.Updater.Lock.Parent.{
  PreparedLockParent, validate_owner_match, validate_private_lock_container, check_directory,
  validate_installed_lock_parent, check_temporary, create_private_lock_directory,
  lock_directory_metadata, current_file_owner, temporary_lock_root, prepare_temporary_lock_parent,
  prepare_installed_lock_parent, prepare_lock_parent,
}

-- A real directory of an owner, to which the bits of a mask are denied.
pub record IsDirectory (owner mask : ℕ) (m : Metadata) : Type 0 where
  pub is_directory : m.is_dir ≡ true
  pub no_link : m.is_symlink ≡ false
  pub owned : m.uid ≡ owner
  pub denied : bit_and (bit_and m.mode 0o777) mask ≡ 0

module _ (sys : LockSystem) where
  open sys use {World, File, symlink_metadata}

  -- How the directory was prepared. Its owner is that of a file which the process made as a probe. A
  -- temporary one lies below the root and bears the owner's number; it was looked at last, and is
  -- closed to others. An installed one is the root itself; it was looked at first, and others may not
  -- write to it.
  pub data Prepared (root : Text)
      : Bool → PreparedLockParent → Machine World → Machine World → Type 0 where
    temporary :
        {start end : Machine World} (owner : ℕ) (m : Metadata) (looking : World)
        → ProbedBelow sys root owner
        → symlink_metadata
            (root ++ text "/" ++ (text "cirrusync-runtime-" ++ decimal owner))
            looking
          ≡ (ok m, end.world)
        → IsDirectory owner 0o077 m
        → Prepared root true
            (record {
              path = root ++ text "/" ++ (text "cirrusync-runtime-" ++ decimal owner);
              expected_owner = owner;
            })
            start
            end
    installed :
        {start end : Machine World} (owner : ℕ) (m : Metadata) (below : Text)
        → ProbedBelow sys below owner
        → (symlink_metadata root start.world).0 ≡ ok m
        → IsDirectory owner 0o022 m
        → Prepared root false (record { path = root; expected_owner = owner }) start end

  looked_at :
      (path : Text) (m : Metadata) (s t : Machine World)
      → lock_directory_metadata sys path s ≡ (ok m, t)
      → (symlink_metadata path s.world ≡ (ok m, t.world))
        × (m.is_dir ≡ true)
        × (m.is_symlink ≡ false)
  unfolding lock_directory_metadata check_directory
  looked_at path m s t h = >>=-ok _ _ s m t h λ n e h1. insecure_if-then _ path _ _ _ m t h1 λ p h2.
      let s1 = (calling path (symlink_metadata path) s).1 in
      let same = return-ok n m s1 t h2 in
      let (no_link, real) = either-false n.is_symlink (not n.is_dir) p in
      rw (← same) (
        called path (symlink_metadata path) n s e
            ∙ ap (λ r. (ok n, r.world)) (return-state n m s1 t h2),
        not-false n.is_dir real,
        no_link,
      )

  owner_matched :
      (path : Text) (a b : ℕ) (s : Machine World)
      → (validate_owner_match path a b s).0 ≡ ok tt
      → a ≡ b
  unfolding validate_owner_match
  owner_matched path a b s h = (==_iff a b).0 (not-false _ (insecure_if-ok _ path _ s h))

  owner_match-Still : (path : Text) (a b : ℕ) → Still {W = World} (validate_owner_match path a b)
  unfolding validate_owner_match
  owner_match-Still path a b s = insecure_if-state _ path _ s

  -- What is left of a directory when its owner and its mode were tested.
  tested :
      (path : Text) (owner mask : ℕ) (m : Metadata) (p parent : PreparedLockParent) (reason : Text)
      (s t : Machine World)
      → (insecure_if (not (bit_and (mode_bits m) mask == 0)) path reason
            >> (validate_owner_match path m.uid owner >> return p))
          s
        ≡ (ok parent, t)
      → (bit_and (mode_bits m) mask ≡ 0) × (m.uid ≡ owner) × (p ≡ parent) × (s ≡ t)
  tested path owner mask m p parent reason s t h =
      insecure_if-then _ path reason _ s parent t h λ closed h1.
        >>=-ok (validate_owner_match path m.uid owner) (λ done. return p) s parent t h1
          λ a e h2.
            let s1 = (validate_owner_match path m.uid owner s).1 in
            (
              (==_iff _ 0).0 (not-false _ closed),
              owner_matched path m.uid owner s e,
              return-ok p parent s1 t h2,
              sym (owner_match-Still path m.uid owner s) ∙ return-state p parent s1 t h2,
            )

  prepare_temporary-Prepared :
      (root : Text) (parent : PreparedLockParent) (s t : Machine World)
      → prepare_temporary_lock_parent sys root s ≡ (ok parent, t)
      → Prepared root true parent s t
  unfolding prepare_temporary_lock_parent check_temporary join
  prepare_temporary-Prepared root parent s t h = >>=-ok _ _ s parent t h λ a e h1.
      >>=-ok _ _ _ parent t h1 λ owner e1 h2. >>=-ok _ _ _ parent t h2 λ b e2 h3.
        >>=-ok _ _ _ parent t h3 λ m e3 h4.
          let path = join root (text "cirrusync-runtime-" ++ decimal owner) in
          let s1 = (validate_private_lock_container sys root s).1 in
          let s2 = (current_file_owner sys root s1).1 in
          let s3 = (create_private_lock_directory sys path s2).1 in
          let s4 = (lock_directory_metadata sys path s3).1 in
          let (looked, real, no_link) =
            looked_at path m s3 s4 (paired (lock_directory_metadata sys path) s3 m e3) in
          let (denied, owned, same, end) =
            tested path owner 0o077 m (record { path = path; expected_owner = owner }) parent _ s4 t
              h4 in
          rw (← same) (
            temporary owner m s3.world
              (current_file_owner-ProbedBelow sys root owner s1 s2
                (paired (current_file_owner sys root) s1 owner e1))
              (looked ∙ ap (λ r. (ok m, r.world)) end)
              (record { is_directory = real; no_link = no_link; owned = owned; denied = denied }))

  prepare_installed-Prepared :
      (root : Text) (parent : PreparedLockParent) (s t : Machine World)
      → prepare_installed_lock_parent sys root s ≡ (ok parent, t)
      → Prepared root false parent s t
  unfolding prepare_installed_lock_parent validate_installed_lock_parent
  prepare_installed-Prepared root parent s t h = >>=-ok _ _ s parent t h λ m e h1.
      >>=-ok _ _ _ parent t h1 λ below e1 h2. >>=-ok _ _ _ parent t h2 λ owner e2 h3.
        let s1 = (lock_directory_metadata sys root s).1 in
        let s2 = (temporary_lock_root sys s1).1 in
        let s3 = (current_file_owner sys below s2).1 in
        let (looked, real, no_link) =
          looked_at root m s s1 (paired (lock_directory_metadata sys root) s m e) in
        let (denied, owned, same, end) =
          tested root owner 0o022 m (record { path = root; expected_owner = m.uid }) parent _ s3 t
            h3 in
        rw (← same, owned)
          (installed owner m below
            (current_file_owner-ProbedBelow sys below owner s2 s3
              (paired (current_file_owner sys below) s2 owner e2))
            (ap (λ r. r.0) looked)
            (record { is_directory = real; no_link = no_link; owned = owned; denied = denied }))

  -- A lock directory that was prepared is a real one of the owner that lock files are to have.
  pub prepare_lock_parent-Prepared :
      (root : Text) (temporary_root : Bool) (parent : PreparedLockParent) (s t : Machine World)
      → prepare_lock_parent sys root temporary_root s ≡ (ok parent, t)
      → Prepared root temporary_root parent s t
  unfolding prepare_lock_parent
  prepare_lock_parent-Prepared root true parent s t h = prepare_temporary-Prepared root parent s t h
  prepare_lock_parent-Prepared root false parent s t h =
      prepare_installed-Prepared root parent s t h
