-- ===== src/Prelude/Dict/Maps.antt =====
-- Hash maps as lists of pairs with distinct keys.
use Prim.Native.Nat.{suc}
use mathlib.Core.Path.{◌≡◌, refl, sym, ap, ◌∙◌}
use mathlib.Core.Logic.{inl, inr}
use mathlib.Core.Bool.{Bool, true, ◌&&◌, ◌||◌, not}
use mathlib.Core.Option.{Option, none, some}
use mathlib.Core.List.{List, [], ◌∷◌}
use native.Mathlib.Omega.{arith}
use cirrusync.Prelude.Tests.{if◌then◌else◌, Bool-cases, &&-both}
use cirrusync.Prelude.Lists.{length, all}
use cirrusync.Prelude.Dict.{
  Eq, is_some, same_refl, same_congr, same_join, same_sym, contains, Unique, count,
}

none-ne-some {κ} : {V : Type κ} {v : V} → none ≡ some v → ⊥
none-ne-some h = cc

module _ {ℓ κ} {A : Type ℓ} {V : Type κ} ⦃e : Eq A⦄ where
  -- `HashMap::get` and `HashMap::insert`
  unfoldable pub get : A → List (A × V) → Option V
  get k [] = none
  get k ((j, v) ∷ d) = let rest = get k d in if e.same j k then some v else rest

  unfoldable pub put : A → V → List (A × V) → List (A × V)
  put k v [] = (k, v) ∷ []
  put k v ((j, w) ∷ d) = let rest = put k v d in if e.same j k then (k, v) ∷ d else (j, w) ∷ rest

  pub get-put :
      (j k : A) (v : V) (d : List (A × V))
      → get j (put k v d) ≡ (if e.same k j then some v else get j d)
  unfolding get put
  get-put j k v [] = refl
  get-put j k v ((i, w) ∷ d) = elim (Bool-cases (e.same i k)) [
    | inl s ↦ elim (Bool-cases (e.same k j)) [
      | inl t ↦ rw (put, s, get, t) refl
      | inr t ↦ rw (put, s, get, t, same_congr i k j s ∙ t) refl
    ]
    | inr s ↦ elim (Bool-cases (e.same i j)) [
      | inl t ↦ elim (Bool-cases (e.same k j)) [
        | inl r ↦ absurd (ground (arith, s, same_join i k j t r))
        | inr r ↦ rw (put, s, get, t, r) refl
      ]
      | inr t ↦ rw (put, s, get, t) (get-put j k v d)
    ]
  ]

  abbrev pub has : A → List (A × V) → Bool
  has k d = is_some (get k d)

  pub length-put :
      (k : A) (v : V) (d : List (A × V))
      → length (put k v d) ≡ (if has k d then length d else suc (length d))
  unfolding get put
  length-put k v [] = refl
  length-put k v ((j, w) ∷ d) = elim (Bool-cases (e.same j k)) [
    | inl s ↦ rw (put, s, get) refl
    | inr s ↦ rw (put, s, get) (ground (arith, length-put k v d))
  ]

  -- No key stands twice.
  abbrev pub Distinct : List (A × V) → Type κ
  Distinct [] = Unit
  Distinct ((k, v) ∷ d) = (get k d ≡ none) × Distinct d

  pub put-Distinct : (k : A) (v : V) (d : List (A × V)) → Distinct d → Distinct (put k v d)
  unfolding get put
  put-Distinct k v [] u = (refl, tt)
  put-Distinct k v ((j, w) ∷ d) u = elim (Bool-cases (e.same j k)) [
    | inl s ↦ rw (put, s) (rw (← (e.same_iff j k).0 s) (u.0), u.1)
    | inr s ↦ rw (put, s) (get-put j k v d ∙ rw (same_sym j k s) (u.0), put-Distinct k v d u.1)
  ]

  -- A test of all values, and of those that `get` returns.
  pub all-get :
      (p : V → Bool) (d : List (A × V)) (k : A) (v : V)
      → all (λ x. p x.1) d ≡ true
      → get k d ≡ some v
      → p v ≡ true
  unfolding get
  all-get p [] k v h g = cc
  all-get p ((j, w) ∷ d) k v h g = elim (Bool-cases (e.same j k)) [
    | inl s ↦ ground arith
    | inr s ↦ all-get p d k v (ground arith) (ground arith)
  ]

  pub get-all :
      (p : V → Bool) (d : List (A × V))
      → Distinct d
      → ((k : A) (v : V) → get k d ≡ some v → p v ≡ true)
      → all (λ x. p x.1) d ≡ true
  unfolding get
  get-all p [] u h = refl
  get-all p ((j, w) ∷ d) u h =
      &&-both _ _ (h j w (rw (get, same_refl j) refl))
        (get-all p d u.1 λ k v g. h k v (later k v g))
    where
      later : (k : A) (v : V) → get k d ≡ some v → get k ((j, w) ∷ d) ≡ some v
      later k v g = elim (Bool-cases (e.same j k)) [
        | inl s ↦ absurd (none-ne-some (sym u.0 ∙ ap (λ i. get i d) ((e.same_iff j k).0 s) ∙ g))
        | inr s ↦ rw (get, s) g
      ]

  pub has-put : (j k : A) (v : V) (d : List (A × V)) → has j (put k v d) ≡ (e.same k j || has j d)
  has-put j k v d = elim (Bool-cases (e.same k j)) [
    | inl s ↦ rw (get-put j k v d, s) refl
    | inr s ↦ rw (get-put j k v d, s) refl
  ]

  -- An insertion adds its key to the unique ones with a value, if it is new among them.
  pub count-put :
      (k : A) (v : V) (d : List (A × V)) (es : List A)
      → Unique es
      → count (λ x. has x (put k v d)) es ≡ (
          if contains es k && not (has k d)
          then suc (count (λ x. has x d) es)
          else count (λ x. has x d) es)
  unfolding count contains
  count-put k v d [] u = refl
  count-put k v d (x ∷ es) u = elim (Bool-cases (e.same x k)) [
    | inl s ↦
        let here = (e.same_iff x k).0 s in
        rw (has-put x k v d, here, same_refl k, count-put k v d es u.1, ← here, u.0) (ground arith)
    | inr s ↦ rw (has-put x k v d, same_sym x k s, s, count-put k v d es u.1) (ground arith)
  ]
