-- ===== src/Updater/Lock/Parent/Probe.antt =====
-- Whose number `current_file_owner` in src/updater.rs reports.
use cirrusync.Prelude.{ℕ, zero, suc, ◌+◌, ◌≡◌, refl, ap, ◌⊎◌, inl, inr, ◌++◌, Result, ok, err}
use cirrusync.Prelude.Strings.{Text, text}
use cirrusync.Config.Load.{Metadata, IoError, ErrorKind}
use cirrusync.Updater.Lock.{RuntimeLockError, LockSystem, Machine, Attempt, return, join}
use cirrusync.Updater.Lock.Open.Checks.{>>=-ok, return-ok, opening-ok}
use cirrusync.Updater.Lock.Parent.{
  probe_name, next_sequence, probe_owner, retry_or_fail, probe_attempts, current_file_owner,
}

module _ (sys : LockSystem) where
  open sys use {World, File, create_probe, file_metadata}

  -- The process created a new file below the root, whose metadata name the owner.
  pub record ProbedBelow (root : Text) (owner : ℕ) : Type 0 where
    pub name : Text
    pub file : File
    pub metadata : Metadata
    pub before : World
    pub behind : World
    pub created : create_probe (root ++ text "/" ++ name) before ≡ (ok file, behind)
    pub described : (file_metadata file behind).0 ≡ ok metadata
    pub owned : metadata.uid ≡ owner

  err-not-ok :
      {A : Type 0} (e : RuntimeLockError) (a : A) (s t : Machine World)
      → (err e, s) ≡ return a t
      → ⊥
  err-not-ok e a s t h = ok-ne-err (ap (λ r. r.0) h)
    where
      ok-ne-err : {A : Type 0} {e : RuntimeLockError} {a : A} → err e ≡ ok a → ⊥
      ok-ne-err h = cc

  found_or_retried :
      (path : Text) (r : Result File IoError) (found : File → Attempt World ℕ)
      (retry : Attempt World ℕ) (s t : Machine World) (n : ℕ)
      → retry_or_fail sys path r found retry s ≡ (ok n, t)
      → ((file : File) × (r ≡ ok file) × (found file s ≡ (ok n, t))) ⊎ (retry s ≡ (ok n, t))
  found_or_retried path (ok file) found retry s t n h = inl (file, refl, h)
  found_or_retried path (err e) found retry s t n h = by_kind e.kind h
    where
      by_kind :
          (k : ErrorKind)
          → retry_or_fail sys path (err (record e { kind = k })) found retry s ≡ (ok n, t)
          → ((file : File) × (err e ≡ ok file) × (found file s ≡ (ok n, t))) ⊎ (retry s ≡ (ok n, t))
      by_kind ErrorKind.already_exists g = inr g
      by_kind ErrorKind.not_found g = absurd (err-not-ok _ n s t g)
      by_kind ErrorKind.would_block g = absurd (err-not-ok _ n s t g)
      by_kind ErrorKind.other g = absurd (err-not-ok _ n s t g)

  probe_owner-described :
      (path : Text) (file : File) (n : ℕ) (s t : Machine World)
      → probe_owner sys path file s ≡ (ok n, t)
      → (m : Metadata) × ((file_metadata file s.world).0 ≡ ok m) × (m.uid ≡ n)
  unfolding probe_owner
  probe_owner-described path file n s t h =
      >>=-ok _ _ _ n t h λ m e h1.
        >>=-ok _ _ _ n t h1 λ a e1 h2. (m, opening-ok path _ m e, return-ok m.uid n _ t h2)

  probe_attempts-ProbedBelow :
      (left attempt : ℕ) (root : Text) (timestamp owner : ℕ) (s t : Machine World)
      → probe_attempts sys left attempt root timestamp s ≡ (ok owner, t)
      → ProbedBelow root owner
  unfolding probe_attempts join
  probe_attempts-ProbedBelow zero attempt root timestamp owner s t h =
      absurd (err-not-ok _ owner s t h)
  probe_attempts-ProbedBelow (suc left) attempt root timestamp owner s t h =
      >>=-ok _ _ s owner t h λ sequence e h1.
        let name = probe_name sys.process_id timestamp sequence attempt in
        let w = (next_sequence sys s).1.world in
        elim (found_or_retried (join root name) (create_probe (join root name) w).0 _ _ _ t owner
          h1) [
            | inl (file, made, found) ↦
                let (m, described, owned) =
                  probe_owner-described (join root name) file owner _ t found in
                record {
                  name = name;
                  file = file;
                  metadata = m;
                  before = w;
                  behind = (create_probe (join root name) w).1;
                  created = ap (λ r. (r, (create_probe (join root name) w).1)) made;
                  described = described;
                  owned = owned;
                }
            | inr again ↦
                probe_attempts-ProbedBelow left (attempt + 1) root timestamp owner _ t again
          ]

  pub current_file_owner-ProbedBelow :
      (root : Text) (owner : ℕ) (s t : Machine World)
      → current_file_owner sys root s ≡ (ok owner, t)
      → ProbedBelow root owner
  unfolding current_file_owner
  current_file_owner-ProbedBelow root owner s t h = >>=-ok _ _ s owner t h λ a e h1.
      >>=-ok _ _ _ owner t h1
        λ timestamp e1 h2. probe_attempts-ProbedBelow 16 0 root timestamp owner _ t h2
