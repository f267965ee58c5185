-- ===== src/Updater/Lock.antt =====
-- src/updater.rs: the runtime lock's identity, its errors, and what its operations run on.
pub mod Open
pub mod Parent
pub mod Acquire
pub mod Hashes
use Prim.Native.Nat.{bit_xor}
use cirrusync.Prelude.{
  ℕ, zero, suc, ◌+◌, ◌-◌, ◌*◌, ◌/◌, ◌%◌, ◌^◌, Bool, true, false, List, [], ◌∷◌, ◌++◌, map, ltb, leb,
  ◌==◌, if◌then◌else◌, Result, ok, err,
}
use cirrusync.Prelude.Strings.{Text, text, trim, trim_end_by, to_ascii_lowercase, utf8}
use cirrusync.Config.{RecordConfig, Config, type_str}
use cirrusync.Config.Load.{Metadata, IoError, ErrorKind}

pub data RuntimeLockError : Type 0 where
  open_failed : Text → IoError → RuntimeLockError
  insecure : Text → Text → RuntimeLockError
  already_running : Text → RuntimeLockError
  lock_failed : Text → IoError → RuntimeLockError

unfoldable pub lock_error_str : RuntimeLockError → Text
lock_error_str (open_failed path source) =
    text "could not open runtime lock target " ++ path ++ text ": " ++ source.shown
lock_error_str (already_running path) =
    text "another Cirrusync process already holds runtime lock " ++ path
lock_error_str (insecure path reason) = text "unsafe runtime lock " ++ path ++ text ": " ++ reason
lock_error_str (lock_failed path source) =
    text "could not lock runtime target " ++ path ++ text ": " ++ source.shown

-- `hash = (hash ^ byte).wrapping_mul(0x100_0000_01b3)` on a `u64`
fnv1a_onto : ℕ → List ℕ → ℕ
fnv1a_onto hash [] = hash
fnv1a_onto hash (b ∷ bs) = fnv1a_onto (bit_xor hash b * 0x100000001b3 % 2 ^ 64) bs

unfoldable pub fnv1a_hash : List ℕ → ℕ
unfolding fnv1a_onto
fnv1a_hash bytes = fnv1a_onto 0xcbf29ce484222325 bytes

pub canonical_lock_name : Text → Text
canonical_lock_name name = to_ascii_lowercase (trim_end_by (λ c. c == b'.') (trim name))

pub resource_lock_hash : RecordConfig → ℕ
unfolding canonical_lock_name fnv1a_hash
resource_lock_hash r = fnv1a_hash (
    utf8 (
      canonical_lock_name r.zone
      ++ (0 ∷ type_str r.record_type)
      ++ (0 ∷ canonical_lock_name r.name)))

-- `sort_unstable` on numbers, and `dedup`.
pub insert_sorted : ℕ → List ℕ → List ℕ
insert_sorted n [] = n ∷ []
insert_sorted n (m ∷ ms) = let rest = insert_sorted n ms in if leb n m then n ∷ m ∷ ms else m ∷ rest

pub sort : List ℕ → List ℕ
unfolding insert_sorted
sort [] = []
sort (n ∷ ns) = insert_sorted n (sort ns)

pub dedup : List ℕ → List ℕ
dedup [] = []
dedup (n ∷ []) = n ∷ []
dedup (n ∷ m ∷ ms) = let rest = dedup (m ∷ ms) in if n == m then rest else n ∷ rest

pub record RuntimeLockIdentity : Type 0 where
  pub resource_hashes : List ℕ
  pub lock_root : Text
  pub temporary_root : Bool

pub resource_hashes_of : List RecordConfig → List ℕ
unfolding sort dedup resource_lock_hash
resource_hashes_of records = dedup (sort (map resource_lock_hash records))

-- Whether `/var/lib/cirrusync` is there, by the answer of `symlink_metadata`.
abbrev pub is_installed : Result Metadata IoError → Bool
is_installed (ok m) = true
is_installed (err e) = elim e.kind [ ErrorKind.not_found ↦ false | _ ↦ true ]

unfoldable pub for_config : Config → Result Metadata IoError → Text → RuntimeLockIdentity
unfolding resource_hashes_of
for_config config installed temporary_lock_root = record {
  resource_hashes = resource_hashes_of config.records;
  lock_root = if is_installed installed then text "/var/lib/cirrusync" else temporary_lock_root;
  temporary_root = elim (is_installed installed) [ true ↦ false | false ↦ true ];
}

-- `{:0Nx}`: the last `n` hexadecimal digits, of which there are no more where this is used.
abbrev hex_digit : ℕ → ℕ
hex_digit d = if ltb d 10 then b'0' + d else b'a' + d - 10

pub hex : ℕ → ℕ → Text
hex zero value = []
hex (suc n) value = hex n (value / 16) ++ (hex_digit (value % 16) ∷ [])

-- `Path::join`, for a parent that ends in no slash and a name that starts with none.
unfoldable pub join : Text → Text → Text
join parent name = parent ++ text "/" ++ name

unfoldable pub lock_path : Text → ℕ → Text
unfolding hex join
lock_path parent hash = join parent (text "record-" ++ hex 16 hash ++ text ".lock")

unfoldable pub lock_paths_in : Text → RuntimeLockIdentity → List Text
unfolding lock_path
lock_paths_in parent identity = map (lock_path parent) identity.resource_hashes

-- What the lock runs on: the file system's calls, `flock`, the process and the clock. Each call
-- leaves the world to whatever other processes do in it.
pub record LockSystem : Type 1 where
  pub World : Type 0
  pub File : Type 0
  pub symlink_metadata : Text → World → Result Metadata IoError × World
  pub create_directory : Text → World → Result (Unit {0}) IoError × World
  pub create_probe : Text → World → Result File IoError × World
  pub remove_file : Text → World → Result (Unit {0}) IoError × World
  pub open_lock_file : Text → World → Result File IoError × World
  pub file_metadata : File → World → Result Metadata IoError × World
  pub try_lock_exclusive : File → World → Result (Unit {0}) IoError × World
  pub unlock : File → World → World
  pub canonical_temporary : World → Result Text IoError × World
  pub unix_nanoseconds : World → ℕ × World
  pub process_id : ℕ
  pub contended_error : IoError

-- The world, and the counter of the ownership probes, `OWNER_PROBE_COUNTER`.
pub record Machine (W : Type 0) : Type 0 where
  pub world : W
  pub probe_counter : ℕ

abbrev pub Attempt : Type 0 → Type 0 → Type 0
Attempt W A = Machine W → Result A RuntimeLockError × Machine W

-- A call of the file system, whose error is `RuntimeLockError::Open` with a path.
abbrev pub opening : {A : Type 0} → Text → Result A IoError → Result A RuntimeLockError
opening path (ok a) = ok a
opening path (err e) = err (open_failed path e)

module _ {W : Type 0} where
  abbrev pub continue :
      {A B : Type 0}
      → Result A RuntimeLockError
      → Machine W
      → (A → Attempt W B)
      → Result B RuntimeLockError × Machine W
  continue (err e) m f = (err e, m)
  continue (ok a) m f = f a m

  infixl 5 ◌>>=◌
  unfoldable pub ◌>>=◌ : {A B : Type 0} → Attempt W A → (A → Attempt W B) → Attempt W B
  ◌>>=◌ m f s = continue (m s).0 (m s).1 f

  infixl 5 ◌>>◌
  abbrev pub ◌>>◌ : {B : Type 0} → Attempt W (Unit {0}) → Attempt W B → Attempt W B
  ◌>>◌ m next = m >>= λ done. next

  abbrev pub return : {A : Type 0} → A → Attempt W A
  return a m = (ok a, m)

  -- `if b { return Err(RuntimeLockError::Insecure { path, reason }) }`
  abbrev pub insecure_if : Bool → Text → Text → Attempt W (Unit {0})
  insecure_if true path reason m = (err (insecure path reason), m)
  insecure_if false path reason m = (ok tt, m)

  abbrev pub calling : {A : Type 0} → Text → (W → Result A IoError × W) → Attempt W A
  calling path call m = (opening path (call m.world).0, record m { world = (call m.world).1 })
