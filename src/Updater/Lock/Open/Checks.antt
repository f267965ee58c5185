-- ===== src/Updater/Lock/Open/Checks.antt =====
-- What a lock file that was opened is, for `open_runtime_lock` in src/updater.rs.
use Prim.Native.Nat.{bit_and}
use cirrusync.Prelude.{
  ℕ, ◌≡◌, refl, sym, ap, ◌∙◌, Bool, true, false, ◌||◌, not, ◌==◌, ==_iff, Result, ok, err,
}
use cirrusync.Prelude.Strings.{Text}
use cirrusync.Config.Load.{Metadata, IoError, ErrorKind}
use cirrusync.Updater.Lock.{
  RuntimeLockError, LockSystem, Machine, Attempt, continue, ◌>>=◌, ◌>>◌, return, insecure_if,
  opening, calling,
}
use cirrusync.Updater.Lock.Open.{
  mode_bits, too_permissive, check_existing, existing_target, validate_existing_lock_target,
  check_opened, open_runtime_lock,
}

module _ {W : Type 0} where
  continue-ok :
      {A B : Type 0} (r : Result A RuntimeLockError) (s : Machine W) (f : A → Attempt W B) (b : B)
      (t : Machine W)
      → continue r s f ≡ (ok b, t)
      → (a : A) × (r ≡ ok a) × (f a s ≡ (ok b, t))
  continue-ok (err e) s f b t h = absurd (err-ne-ok (ap (λ x. x.0) h))
    where
      err-ne-ok : {A : Type 0} {a : A} {e : RuntimeLockError} → err e ≡ ok a → ⊥
      err-ne-ok h = cc
  continue-ok (ok a) s f b t h = (a, refl, h)

  -- A chain that succeeds has succeeded at each of its links.
  pub >>=-ok {ℓ} :
      {A B : Type 0} {P : Type ℓ} (m : Attempt W A) (f : A → Attempt W B) (s : Machine W) (b : B)
      (t : Machine W)
      → (m >>= f) s ≡ (ok b, t)
      → ((a : A) → (m s).0 ≡ ok a → f a (m s).1 ≡ (ok b, t) → P)
      → P
  unfolding ◌>>=◌
  >>=-ok m f s b t h k = let (a, e, g) = continue-ok (m s).0 (m s).1 f b t h in k a e g

  pub insecure_if-ok :
      (b : Bool) (path reason : Text) (s : Machine W)
      → (insecure_if b path reason s).0 ≡ ok tt
      → b ≡ false
  insecure_if-ok true path reason s h = cc
  insecure_if-ok false path reason s h = refl

  pub insecure_if-state :
      (b : Bool) (path reason : Text) (s : Machine W) → (insecure_if b path reason s).1 ≡ s
  insecure_if-state true path reason s = refl
  insecure_if-state false path reason s = refl

  -- An attempt that leaves the machine as it is.
  abbrev pub Still : {A : Type 0} → Attempt W A → Type 0
  Still m = (s : Machine W) → (m s).1 ≡ s

  pub Still->>= :
      {A B : Type 0} (m : Attempt W A) (f : A → Attempt W B)
      → Still m
      → ((a : A) → Still (f a))
      → Still (m >>= f)
  unfolding ◌>>=◌
  Still->>= m f km kf s = go (m s).0 (m s).1 (km s)
    where
      go : (r : Result _ RuntimeLockError) (t : Machine W) → t ≡ s → (continue r t f).1 ≡ s
      go (err e) t k = k
      go (ok a) t k = kf a t ∙ k

  -- A test that was passed.
  pub insecure_if-then {ℓ} :
      {B : Type 0} {P : Type ℓ} (b : Bool) (path reason : Text) (next : Attempt W B) (s : Machine W)
      (x : B) (t : Machine W)
      → (insecure_if b path reason >> next) s ≡ (ok x, t)
      → (b ≡ false → next s ≡ (ok x, t) → P)
      → P
  insecure_if-then b path reason next s x t h k =
      >>=-ok (insecure_if b path reason) (λ done. next) s x t h
        λ a e g.
          k (insecure_if-ok b path reason s e)
            (ap next (sym (insecure_if-state b path reason s)) ∙ g)

pub paired :
    {W A : Type 0} (m : Attempt W A) (s : Machine W) (a : A)
    → (m s).0 ≡ ok a
    → m s ≡ (ok a, (m s).1)
paired m s a e = ap (λ r. (r, (m s).1)) e

ok-injective : {A : Type 0} (r : Result A RuntimeLockError) (a b : A) → r ≡ ok a → r ≡ ok b → a ≡ b
ok-injective r a b h k = cc

pub return-ok : {W A : Type 0} (a b : A) (s t : Machine W) → return {W = W} a s ≡ (ok b, t) → a ≡ b
return-ok a b s t h = ok-injective (ok a) a b refl (ap (λ x. x.0) h)

pub return-state :
    {W A : Type 0} (a b : A) (s t : Machine W) → return {W = W} a s ≡ (ok b, t) → s ≡ t
return-state a b s t h = ap (λ x. x.1) h

pub opening-ok :
    {A : Type 0} (path : Text) (r : Result A IoError) (a : A) → opening path r ≡ ok a → r ≡ ok a
opening-ok path (ok b) a h = cc
opening-ok path (err e) a h = cc

-- A call that succeeded, with its answer and the world behind it.
pub called :
    {W A : Type 0} (path : Text) (call : W → Result A IoError × W) (a : A) (s : Machine W)
    → (calling path call s).0 ≡ ok a
    → call s.world ≡ (ok a, (call s.world).1)
called path call a s e = ap (λ r. (r, (call s.world).1)) (opening-ok path (call s.world).0 a e)

-- A regular file with one name, of the expected owner, that nobody else may use.
pub record IsPrivateFile (owner : ℕ) (m : Metadata) : Type 0 where
  pub regular : m.is_file ≡ true
  pub one_name : m.nlink ≡ 1
  pub owned : m.uid ≡ owner
  pub private_mode : bit_and (mode_bits m) 0o077 ≡ 0

-- The opening of a path between two worlds, call by call: the path is looked at, then opened; then
-- the descriptor's metadata are read, which are those of a private file, and then the path is looked
-- at once more and names that file, by no symbolic link.
pub record Opened (sys : LockSystem) (owner : ℕ) (path : Text) (file : sys.File)
    (start end : sys.World) : Type 0 where
  pub opened : Metadata
  pub named : Metadata
  pub behind_opening : sys.World
  pub opened_so :
      sys.open_lock_file path (sys.symlink_metadata path start).1 ≡ (ok file, behind_opening)
  pub behind_reading : sys.World
  pub described : sys.file_metadata file behind_opening ≡ (ok opened, behind_reading)
  pub named_so : sys.symlink_metadata path behind_reading ≡ (ok named, end)
  pub is_private : IsPrivateFile owner opened
  pub no_link : named.is_symlink ≡ false
  pub same_device : named.dev ≡ opened.dev
  pub same_inode : named.ino ≡ opened.ino

pub not-false : (b : Bool) → not b ≡ false → b ≡ true
not-false true h = refl
not-false false h = cc

pub either-false : (a b : Bool) → (a || b) ≡ false → (a ≡ false) × (b ≡ false)
either-false true b h = cc
either-false false b h = (refl, h)

module _ (sys : LockSystem) (path : Text) (owner : ℕ) where
  open sys use {World, File, symlink_metadata, open_lock_file, file_metadata}

  -- What the tests on the metadata leave.
  record Passed (opened named : Metadata) : Type 0 where
    is_private : IsPrivateFile owner opened
    no_link : named.is_symlink ≡ false
    same_device : named.dev ≡ opened.dev
    same_inode : named.ino ≡ opened.ino

  check_opened-Passed :
      (opened named : Metadata) (s t : Machine World)
      → check_opened sys path owner opened named s ≡ (ok tt, t)
      → Passed opened named
  unfolding check_opened
  check_opened-Passed opened named s t h = insecure_if-then _ path _ _ s tt t h λ p h1.
      insecure_if-then _ path _ _ s tt t h1 λ q h2. insecure_if-then _ path _ _ s tt t h2 λ r h3.
        insecure_if-then _ path _ _ s tt t h3 λ v h4.
          let w = insecure_if-ok (too_permissive opened) path _ s (ap (λ x. x.0) h4) in
          let (no_link, regular) = either-false named.is_symlink (not opened.is_file) p in
          let (device, inode) =
            either-false (not (named.dev == opened.dev)) (not (named.ino == opened.ino)) q in
          record {
            is_private = record {
              regular = not-false opened.is_file regular;
              one_name = (==_iff opened.nlink 1).0 (not-false _ r);
              owned = (==_iff opened.uid owner).0 (not-false _ v);
              private_mode = (==_iff _ 0).0 (not-false _ w);
            };
            no_link = no_link;
            same_device = (==_iff named.dev opened.dev).0 (not-false _ device);
            same_inode = (==_iff named.ino opened.ino).0 (not-false _ inode);
          }

  check_existing-Still : (m : Metadata) → Still (check_existing sys path owner m)
  unfolding check_existing
  check_existing-Still m = Still->>= _ _ (insecure_if-state _ path _) λ _.
      Still->>= _ _ (insecure_if-state _ path _)
        λ _. Still->>= _ _ (insecure_if-state _ path _) λ _. insecure_if-state _ path _

  existing_target-Still : (r : Result Metadata IoError) → Still (existing_target sys path owner r)
  unfolding existing_target
  existing_target-Still (ok m) = check_existing-Still m
  existing_target-Still (err e) = by_kind e.kind
    where
      by_kind :
          (k : ErrorKind) → Still (existing_target sys path owner (err (record e { kind = k })))
      by_kind ErrorKind.not_found s = refl
      by_kind ErrorKind.already_exists s = refl
      by_kind ErrorKind.would_block s = refl
      by_kind ErrorKind.other s = refl

  check_opened-Still : (opened named : Metadata) → Still (check_opened sys path owner opened named)
  unfolding check_opened
  check_opened-Still opened named = Still->>= _ _ (insecure_if-state _ path _) λ _.
      Still->>= _ _ (insecure_if-state _ path _) λ _.
        Still->>= _ _ (insecure_if-state _ path _)
          λ _. Still->>= _ _ (insecure_if-state _ path _) λ _. insecure_if-state _ path _

  validated_world :
      (s : Machine World)
      → (symlink_metadata path s.world).1 ≡ (validate_existing_lock_target sys path owner s).1.world
  unfolding validate_existing_lock_target
  validated_world s = sym (ap (λ t. t.world) (existing_target-Still _ _))

  -- A lock file that `open_runtime_lock` returns was opened, and its metadata, read after that, are
  -- those of a regular file of the expected owner with one name and no access for group and others;
  -- the path, looked at after both, named that file, by no symbolic link, whatever others do to the
  -- file system between the calls.
  pub open_runtime_lock-Opened :
      (file : File) (s t : Machine World)
      → open_runtime_lock sys path owner s ≡ (ok file, t)
      → Opened sys owner path file s.world t.world
  unfolding open_runtime_lock
  open_runtime_lock-Opened file s t h = >>=-ok _ _ s file t h λ a e h1.
      >>=-ok _ _ _ file t h1 λ f e1 h2. >>=-ok _ _ _ file t h2 λ opened e2 h3.
        >>=-ok _ _ _ file t h3 λ named e3 h4. >>=-ok _ _ _ file t h4 λ d e4 h5.
          let passed =
            check_opened-Passed opened named _ _
              (paired (check_opened sys path owner opened named) _ d e4) in
          let same = return-ok f file _ t h5 in
          let checked = return-state f file _ t h5 in
          let s1 = (validate_existing_lock_target sys path owner s).1 in
          let s2 = (calling path (open_lock_file path) s1).1 in
          let s3 = (calling path (file_metadata f) s2).1 in
          let end = ap (λ m. m.world) (sym (check_opened-Still opened named _) ∙ checked) in
          rw (← same) (record {
            opened = opened;
            named = named;
            behind_opening = _;
            opened_so =
                ap (open_lock_file path) (validated_world s)
                ∙ called path (open_lock_file path) f s1 e1;
            behind_reading = _;
            described = called path (file_metadata f) opened s2 e2;
            named_so =
                called path (symlink_metadata path) named s3 e3 ∙ ap (λ w. (ok named, w)) end;
            is_private = passed.is_private;
            no_link = passed.no_link;
            same_device = passed.same_device;
            same_inode = passed.same_inode;
          })
