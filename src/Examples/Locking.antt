-- ===== src/Examples/Locking.antt =====
-- The runtime lock's theorems at concrete inputs.
use cirrusync.Prelude.{
  map, ◌++◌, ◌<◌, ◌^◌, ◌≡◌, refl, ◌∙◌, ap, Bool, true, false, ◌||◌, some, List, [], ◌∷◌, any, ◌==◌,
  ok,
}
use cirrusync.Prelude.Strings.{Text, text, text_eq, to_ascii_lowercase, text_eq_refl}
use cirrusync.Prelude.Dict.{text_equality, contains, add, contains-add}
use cirrusync.Config.Load.{Metadata, ErrorKind}
use cirrusync.Updater.Lock.{
  fnv1a_hash, ◌>>=◌, RuntimeLockIdentity, LockSystem, Machine, hex, lock_paths_in,
  resource_hashes_of, resource_lock_hash,
}
use cirrusync.Updater.Lock.Open.{open_runtime_lock}
use cirrusync.Updater.Lock.Open.Checks.{Opened, open_runtime_lock-Opened}
use cirrusync.Updater.Lock.Parent.{PreparedLockParent, prepare_lock_parent}
use cirrusync.Updater.Lock.Parent.Checks.{Prepared}
use cirrusync.Updater.Lock.Acquire.{acquire}
use cirrusync.Updater.Lock.Acquire.Keeps.{Locking}
use cirrusync.Updater.Lock.Acquire.Exclusion.{Taken, AllHeld, acquire-Locked}
use cirrusync.Updater.Lock.Hashes.{Ascending, resource_hashes_of-Ascending, resource_lock_hash-case}
use cirrusync.Examples.Instances.{sample_record}

-- Every path names a private thing that serves as a file and as a directory.
abbrev sample_metadata : Metadata
sample_metadata = record {
  is_file = true;
  is_dir = true;
  is_symlink = false;
  dev = 1;
  ino = 2;
  nlink = 1;
  mode = 0o700;
  uid = 7;
  gid = 7;
  size = 0;
}

-- The world is the list of the paths whose lock is held; a file is its path.
abbrev sample_system : LockSystem
sample_system = record {
  World = List Text;
  File = Text;
  symlink_metadata = λ path w. (ok sample_metadata, w);
  create_directory = λ path w. (ok tt, w);
  create_probe = λ path w. (ok path, w);
  remove_file = λ path w. (ok tt, w);
  open_lock_file = λ path w. (ok path, w);
  file_metadata = λ file w. (ok sample_metadata, w);
  try_lock_exclusive = λ file w. (ok tt, add file w);
  unlock = λ file w. w;
  canonical_temporary = λ w. (ok (text "/tmp"), w);
  unix_nanoseconds = λ w. (0, w);
  process_id = 1;
  contended_error = record {
    kind = ErrorKind.would_block;
    raw_os_error = some 11;
    shown = text "locked";
  };
}

held_after : (file : Text) (w : List Text) → contains (add file w) file ≡ true
held_after file w = contains-add file file w ∙ ap (λ b. b || contains w file) (text_eq_refl file)

kept_after :
    (file other : Text) (w : List Text)
    → contains w file ≡ true
    → contains (add other w) file ≡ true
kept_after file other w h = contains-add other file w ∙ either (text_eq other file) h
  where
    either : (b : Bool) → contains w file ≡ true → (b || contains w file) ≡ true
    either true h = refl
    either false h = h

sample_locking : Locking sample_system
sample_locking = record {
  Holds = λ file w. contains w file ≡ true;
  gained = λ file w h. held_after file w;
  kept_by_lock = kept_after;
  kept_by_open = λ file path w h. h;
  kept_by_metadata = λ file other w h. h;
  kept_by_name = λ file path w h. h;
}

abbrev idle : Machine (List Text)
idle = record { world = []; probe_counter = 0 }

open_runtime_lock-Opened_example : Opened sample_system 7 (text "a.lock") (text "a.lock") [] []
unfolding open_runtime_lock ◌>>=◌
open_runtime_lock-Opened_example =
    open_runtime_lock-Opened sample_system (text "a.lock") 7 (text "a.lock") idle idle refl

abbrev sample_identity : RuntimeLockIdentity
sample_identity = record {
  resource_hashes = 5 ∷ 9 ∷ [];
  lock_root = text "/var/lib/cirrusync";
  temporary_root = false;
}

abbrev locked_paths : List Text
locked_paths =
    text "/var/lib/cirrusync/record-0000000000000005.lock"
    ∷ text "/var/lib/cirrusync/record-0000000000000009.lock"
    ∷ []

abbrev holding : Machine (List Text)
holding = record {
  world =
      text "/var/lib/cirrusync/record-0000000000000009.lock"
      ∷ text "/var/lib/cirrusync/record-0000000000000005.lock"
      ∷ [];
  probe_counter = 1;
}

acquired : acquire sample_system sample_identity idle ≡ (ok locked_paths, holding)
unfolding acquire ◌>>=◌ prepare_lock_parent lock_paths_in open_runtime_lock text add text_eq
acquired = refl

acquire-Locked_example :
    (parent : PreparedLockParent) × (prepared : Machine (List Text)) × Prepared sample_system
      (text "/var/lib/cirrusync")
      false
      parent
      idle
      prepared
    × Taken sample_system sample_locking parent.expected_owner
        (map
          (λ hash. parent.path ++ text "/" ++ (text "record-" ++ hex 16 hash ++ text ".lock"))
          (5 ∷ 9 ∷ []))
        locked_paths
        prepared.world
        holding.world
    × AllHeld sample_system sample_locking holding.world locked_paths
acquire-Locked_example =
    acquire-Locked sample_system sample_locking sample_identity locked_paths idle holding acquired

resource_hashes_of-Ascending_example :
    let rs = sample_record ∷ sample_record ∷ [] in
    Ascending (resource_hashes_of rs)
    × (any (λ n. n == 3) (resource_hashes_of rs) ≡ any (λ r. resource_lock_hash r == 3) rs)
resource_hashes_of-Ascending_example =
    resource_hashes_of-Ascending (sample_record ∷ sample_record ∷ []) 3

resource_lock_hash-case_example :
    let r = record sample_record { zone = text "Example.COM" } in
    (resource_lock_hash sample_record ≡ resource_lock_hash r)
    × (resource_lock_hash sample_record < 2 ^ 64)
unfolding text to_ascii_lowercase
resource_lock_hash-case_example =
    resource_lock_hash-case sample_record (record sample_record { zone = text "Example.COM" }) refl
      refl refl

-- A published value of the 64-bit FNV-1a hash.
fnv1a_hash_of_a : fnv1a_hash (b'a' ∷ []) ≡ 0xaf63dc4c8601ec8c
unfolding fnv1a_hash
fnv1a_hash_of_a = refl
