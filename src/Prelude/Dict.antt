-- ===== src/Prelude/Dict.antt =====
-- Hash sets as lists without repetition, and std's ordered map, for keys with an equality test.
pub mod Maps
pub mod Size
use Prim.Native.Nat.{ℕ, zero, suc, ◌≤◌}
use mathlib.Core.Path.{◌≡◌, refl, sym, ap, ◌∙◌}
use mathlib.Core.Logic.{◌↔◌, inl, inr}
use mathlib.Core.Bool.{Bool, true, false, ◌&&◌, ◌||◌}
use mathlib.Core.Option.{Option, none, some}
use mathlib.Core.List.{List, [], ◌∷◌}
use native.Mathlib.Omega.{arith}
use cirrusync.Prelude.Tests.{if◌then◌else◌, ltb, ◌==◌, Bool-cases}
use cirrusync.Prelude.Lists.{length, is_empty, all}
use cirrusync.Prelude.Strings.{Text, text_eq, text_eq_iff}

pub record Eq {ℓ} (A : Type ℓ) : Type ℓ where
  pub same : A → A → Bool
  pub same_iff : (a b : A) → (same a b ≡ true) ↔ (a ≡ b)

instance abbrev pub text_equality : Eq Text
text_equality = record { same = text_eq; same_iff = text_eq_iff }

abbrev pub is_some {ℓ} : {A : Type ℓ} → Option A → Bool
is_some none = false
is_some (some a) = true

module _ {ℓ} {A : Type ℓ} ⦃e : Eq A⦄ where
  pub same_refl : (a : A) → e.same a a ≡ true
  same_refl a = (e.same_iff a a).1 refl

  pub same_congr : (i k j : A) → e.same i k ≡ true → e.same i j ≡ e.same k j
  same_congr i k j h = ap (λ x. e.same x j) ((e.same_iff i k).0 h)

  pub same_join : (i k j : A) → e.same i j ≡ true → e.same k j ≡ true → e.same i k ≡ true
  same_join i k j h g = (e.same_iff i k).1 ((e.same_iff i j).0 h ∙ sym ((e.same_iff k j).0 g))

  pub same_sym : (i j : A) → e.same i j ≡ false → e.same j i ≡ false
  same_sym i j h = elim (Bool-cases (e.same j i)) [
    | inl s ↦ absurd (ground (arith, h, same_join i j i (same_refl i) s))
    | inr s ↦ s
  ]

  -- `HashSet::contains` and `HashSet::insert`
  unfoldable pub contains : List A → A → Bool
  contains [] a = false
  contains (x ∷ xs) a = e.same x a || contains xs a

  unfoldable pub add : A → List A → List A
  unfolding contains
  add a xs = if contains xs a then xs else a ∷ xs

  -- `collect` into a set
  unfoldable pub collect : List A → List A
  unfolding add
  collect [] = []
  collect (x ∷ xs) = add x (collect xs)

  abbrev pub Unique : List A → Type 0
  Unique [] = Unit
  Unique (x ∷ xs) = (contains xs x ≡ false) × Unique xs

  pub contains-add : (a b : A) (xs : List A) → contains (add a xs) b ≡ (e.same a b || contains xs b)
  unfolding add contains
  contains-add a b xs = elim (Bool-cases (contains xs a)) [
    | inl old ↦ elim (Bool-cases (e.same a b)) [
      | inl s ↦ rw (add, old, s, ← (e.same_iff a b).0 s) old
      | inr d ↦ rw (add, old, d) refl
    ]
    | inr new ↦ rw (add, new) refl
  ]

  add-Unique : (a : A) (xs : List A) → Unique xs → Unique (add a xs)
  unfolding add
  add-Unique a xs u = elim (Bool-cases (contains xs a)) [
    | inl old ↦ rw (add, old) u
    | inr new ↦ rw (add, new) (new, u)
  ]

  pub collect-Unique : (xs : List A) → Unique (collect xs)
  unfolding collect
  collect-Unique [] = tt
  collect-Unique (x ∷ xs) = add-Unique x (collect xs) (collect-Unique xs)

unfoldable pub count {ℓ} : {A : Type ℓ} → (A → Bool) → List A → ℕ
count p [] = 0
count p (x ∷ xs) = if p x then suc (count p xs) else count p xs

module _ {ℓ} {A : Type ℓ} (p : A → Bool) where
  count_bound : (xs : List A) → count p xs ≤ length xs
  unfolding count
  count_bound [] = omega arith
  count_bound (x ∷ xs) = ground (arith, count_bound xs)

  pub count-all : (xs : List A) → count p xs ≡ length xs → all p xs ≡ true
  unfolding count
  count-all [] h = refl
  count-all (x ∷ xs) h = ground (arith, count-all xs, count_bound xs)

  pub all-count : (xs : List A) → all p xs ≡ true → count p xs ≡ length xs
  unfolding count
  all-count [] h = refl
  all-count (x ∷ xs) h = ground (arith, all-count xs)

-- The order of `str`, which is that of the code points.
text_ltb : Text → Text → Bool
text_ltb [] [] = false
text_ltb [] (c ∷ t) = true
text_ltb (c ∷ s) [] = false
text_ltb (c ∷ s) (d ∷ t) = if ltb c d then true else c == d && text_ltb s t

-- `BTreeMap::entry(k).or_insert(v)` on the ordered list of the entries.
pub or_insert {κ} : {V : Type κ} → Text → V → List (Text × V) → List (Text × V)
unfolding text_ltb
or_insert k v [] = (k, v) ∷ []
or_insert k v ((j, w) ∷ m) =
    let rest = or_insert k v m in
    if text_ltb k j then (k, v) ∷ (j, w) ∷ m else if text_eq k j then (j, w) ∷ m else (j, w) ∷ rest

pub is_empty-or_insert {κ} :
    {V : Type κ} (k : Text) (v : V) (m : List (Text × V)) → is_empty (or_insert k v m) ≡ false
unfolding or_insert
is_empty-or_insert k v [] = refl
is_empty-or_insert k v ((j, w) ∷ m) = ground arith
