-- ===== src/Updater/Lock/Hashes.antt =====
-- Which records share a lock, for `RuntimeLockIdentity::for_config` in src/updater.rs.
use Prim.Native.Nat.{bit_xor}
use cirrusync.Prelude.{
  ℕ, ◌*◌, ◌%◌, ◌^◌, ◌≤◌, ◌<◌, ◌≡◌, refl, sym, ap, ◌∙◌, inl, inr, Bool, true, false, ◌||◌, List, [],
  ◌∷◌, ◌++◌, map, arith, leb, ◌==◌, ==_iff, leb→le, any, All, Bool-cases,
}
use cirrusync.Prelude.Strings.{
  Text, is_whitespace, is_ascii_uppercase, lower, to_ascii_lowercase, trim, trim_start_by,
  trim_end_by, keep_end, utf8,
}
use cirrusync.Config.{RecordConfig, type_str}
use cirrusync.Updater.Lock.{
  fnv1a_onto, fnv1a_hash, canonical_lock_name, resource_lock_hash, insert_sorted, sort, dedup,
  resource_hashes_of,
}

-- In strictly ascending order.
abbrev pub Ascending : List ℕ → Type 0
Ascending [] = Unit
Ascending (n ∷ ns) = All (λ m. n < m) ns × Ascending ns

abbrev Sorted : List ℕ → Type 0
Sorted [] = Unit
Sorted (n ∷ ns) = All (λ m. n ≤ m) ns × Sorted ns

All-map : (P Q : ℕ → Type 0) (ns : List ℕ) → ((n : ℕ) → P n → Q n) → All P ns → All Q ns
All-map P Q [] f h = tt
All-map P Q (n ∷ ns) f h = (f n h.0, All-map P Q ns f h.1)

All-insert_sorted :
    (P : ℕ → Type 0) (n : ℕ) (ns : List ℕ) → P n → All P ns → All P (insert_sorted n ns)
unfolding insert_sorted
All-insert_sorted P n [] p h = (p, tt)
All-insert_sorted P n (m ∷ ms) p h = elim (Bool-cases (leb n m)) [
  | inl b ↦ rw (insert_sorted, b) (p, h)
  | inr b ↦ rw (insert_sorted, b) (h.0, All-insert_sorted P n ms p h.1)
]

insert_sorted-Sorted : (n : ℕ) (ns : List ℕ) → Sorted ns → Sorted (insert_sorted n ns)
unfolding insert_sorted
insert_sorted-Sorted n [] h = (tt, tt)
insert_sorted-Sorted n (m ∷ ms) h = elim (Bool-cases (leb n m)) [
  | inl b ↦
      rw (insert_sorted, b)
        ((leb→le n m b, All-map _ _ ms (λ k le. omega (arith, leb→le n m b, le)) h.0), h)
  | inr b ↦
      rw (insert_sorted, b)
        (All-insert_sorted _ n ms (ground (arith, b)) h.0, insert_sorted-Sorted n ms h.1)
]

sort-Sorted : (ns : List ℕ) → Sorted (sort ns)
unfolding sort
sort-Sorted [] = tt
sort-Sorted (n ∷ ns) = insert_sorted-Sorted n (sort ns) (sort-Sorted ns)

All-dedup : (P : ℕ → Type 0) (ns : List ℕ) → All P ns → All P (dedup ns)
unfolding dedup
All-dedup P [] h = tt
All-dedup P (n ∷ []) h = h
All-dedup P (n ∷ m ∷ ms) h = elim (Bool-cases (n == m)) [
  | inl b ↦ rw (dedup, b) (All-dedup P (m ∷ ms) h.1)
  | inr b ↦ rw (dedup, b) (h.0, All-dedup P (m ∷ ms) h.1)
]

dedup-Ascending : (ns : List ℕ) → Sorted ns → Ascending (dedup ns)
unfolding dedup
dedup-Ascending [] h = tt
dedup-Ascending (n ∷ []) h = (tt, tt)
dedup-Ascending (n ∷ m ∷ ms) h = elim (Bool-cases (n == m)) [
  | inl b ↦ rw (dedup, b) (dedup-Ascending (m ∷ ms) h.1)
  | inr b ↦
      let less : n < m = ground (arith, b, h.0.0) in
      rw (dedup, b)
        (
          All-dedup _ (m ∷ ms) (less, All-map _ _ ms (λ k le. omega (arith, less, le)) h.1.0),
          dedup-Ascending (m ∷ ms) h.1,
        )
]

any-insert_sorted :
    (p : ℕ → Bool) (n : ℕ) (ns : List ℕ) → any p (insert_sorted n ns) ≡ (p n || any p ns)
unfolding insert_sorted
any-insert_sorted p n [] = refl
any-insert_sorted p n (m ∷ ms) = ground (arith, any-insert_sorted p n ms)

any-sort : (p : ℕ → Bool) (ns : List ℕ) → any p (sort ns) ≡ any p ns
unfolding sort
any-sort p [] = refl
any-sort p (n ∷ ns) = ground (arith, any-insert_sorted p n (sort ns), any-sort p ns)

any-dedup : (p : ℕ → Bool) (ns : List ℕ) → any p (dedup ns) ≡ any p ns
unfolding dedup
any-dedup p [] = refl
any-dedup p (n ∷ []) = refl
any-dedup p (n ∷ m ∷ ms) = elim (Bool-cases (n == m)) [
  | inl b ↦ rw (dedup, b, any-dedup p (m ∷ ms), (==_iff n m).0 b) (twice (p m) (any p ms))
  | inr b ↦ rw (dedup, b, any-dedup p (m ∷ ms)) refl
]
  where
    twice : (x y : Bool) → (x || y) ≡ (x || (x || y))
    twice true y = refl
    twice false y = refl

any-map :
    {A : Type 0} (p : ℕ → Bool) (f : A → ℕ) (xs : List A) → any p (map f xs) ≡ any (λ x. p (f x)) xs
any-map p f [] = refl
any-map p f (x ∷ xs) = ap (λ b. p (f x) || b) (any-map p f xs)

-- The lock takes the hashes of the configured records and no others, each once, in ascending order:
-- all processes take the locks that they share in one order.
pub resource_hashes_of-Ascending :
    (records : List RecordConfig) (h : ℕ)
    → Ascending (resource_hashes_of records)
      × (any (λ n. n == h) (resource_hashes_of records)
          ≡ any (λ r. resource_lock_hash r == h) records)
unfolding resource_hashes_of
resource_hashes_of-Ascending records h =
    let hashes = map resource_lock_hash records in
    (
      dedup-Ascending (sort hashes) (sort-Sorted hashes),
      any-dedup _ (sort hashes) ∙ any-sort _ hashes ∙ any-map _ resource_lock_hash records,
    )

fnv1a_onto_bound : (bs : List ℕ) (hash : ℕ) → hash < 2 ^ 64 → fnv1a_onto hash bs < 2 ^ 64
unfolding fnv1a_onto
fnv1a_onto_bound [] hash h = h
fnv1a_onto_bound (b ∷ bs) hash h =
    fnv1a_onto_bound bs (bit_xor hash b * 0x100000001b3 % 2 ^ 64) (omega arith)

fnv1a_hash_bound : (bs : List ℕ) → fnv1a_hash bs < 2 ^ 64
unfolding fnv1a_hash
fnv1a_hash_bound bs = fnv1a_onto_bound bs 0xcbf29ce484222325 (omega arith)

is_whitespace-lower : (c : ℕ) → is_whitespace (lower c) ≡ is_whitespace c
unfolding lower is_ascii_uppercase is_whitespace
is_whitespace-lower c = elim (Bool-cases (is_ascii_uppercase c)) [
  | inl h ↦ rw (lower, h) (ground (arith, h))
  | inr h ↦ rw (lower, h) refl
]

is_dot-lower : (c : ℕ) → (lower c == b'.') ≡ (c == b'.')
unfolding lower is_ascii_uppercase
is_dot-lower c = ground arith

-- Trimming by a test that does not see the letters' case.
module _ (p : ℕ → Bool) (blind : (c : ℕ) → p (lower c) ≡ p c) where
  trim_start_by-lower :
      (s : Text) → trim_start_by p (to_ascii_lowercase s) ≡ to_ascii_lowercase (trim_start_by p s)
  unfolding trim_start_by to_ascii_lowercase
  trim_start_by-lower [] = refl
  trim_start_by-lower (c ∷ s) = elim (Bool-cases (p c)) [
    | inl h ↦ rw (trim_start_by, blind c, h) (trim_start_by-lower s)
    | inr h ↦ rw (trim_start_by, blind c, h) refl
  ]

  keep_end-lower :
      (b : Bool) (c : ℕ) (s : Text)
      → keep_end b (lower c) (map lower s) ≡ map lower (keep_end b c s)
  keep_end-lower true c [] = refl
  keep_end-lower false c [] = refl
  keep_end-lower true c (d ∷ s) = refl
  keep_end-lower false c (d ∷ s) = refl

  trim_end_by-lower :
      (s : Text) → trim_end_by p (to_ascii_lowercase s) ≡ to_ascii_lowercase (trim_end_by p s)
  unfolding trim_end_by to_ascii_lowercase
  trim_end_by-lower [] = refl
  trim_end_by-lower (c ∷ s) =
      rw (blind c, trim_end_by-lower s) (keep_end-lower (p c) c (trim_end_by p s))

canonical_lock_name-lower :
    (name : Text)
    → trim_end_by (λ c. c == b'.') (trim (to_ascii_lowercase name)) ≡ canonical_lock_name name
unfolding canonical_lock_name trim
canonical_lock_name-lower name =
    ap (trim_end_by (λ c. c == b'.')) (
      ap (trim_end_by is_whitespace) (trim_start_by-lower is_whitespace is_whitespace-lower name)
      ∙ trim_end_by-lower is_whitespace is_whitespace-lower _)
    ∙ trim_end_by-lower _ is_dot-lower _

same_name :
    (s t : Text)
    → to_ascii_lowercase s ≡ to_ascii_lowercase t
    → canonical_lock_name s ≡ canonical_lock_name t
same_name s t h =
    sym (canonical_lock_name-lower s)
    ∙ ap (λ x. trim_end_by (λ c. c == b'.') (trim x)) h
    ∙ canonical_lock_name-lower t

-- Records of one type whose zones and names differ at most in the case of their letters share a
-- lock, whose hash is a `u64`.
pub resource_lock_hash-case :
    (r q : RecordConfig)
    → r.record_type ≡ q.record_type
    → to_ascii_lowercase r.zone ≡ to_ascii_lowercase q.zone
    → to_ascii_lowercase r.name ≡ to_ascii_lowercase q.name
    → (resource_lock_hash r ≡ resource_lock_hash q) × (resource_lock_hash r < 2 ^ 64)
unfolding resource_lock_hash
resource_lock_hash-case r q ty zone name = (
  rw (ty, same_name r.zone q.zone zone, same_name r.name q.name name) refl,
  fnv1a_hash_bound (
      utf8 (
        canonical_lock_name r.zone
        ++ (0 ∷ type_str r.record_type)
        ++ (0 ∷ canonical_lock_name r.name))),
)
