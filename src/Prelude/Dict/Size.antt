-- ===== src/Prelude/Dict/Size.antt =====
-- How many elements a set has.
use Prim.Native.Nat.{suc, ◌≤◌}
use mathlib.Core.Path.{◌≡◌, refl, sym, ap, ◌∙◌}
use mathlib.Core.Logic.{inl, inr}
use mathlib.Core.Bool.{true, false, ◌&&◌, ◌||◌, not}
use mathlib.Core.List.{List, [], ◌∷◌}
use native.Mathlib.Omega.{arith}
use cirrusync.Prelude.Tests.{if◌then◌else◌, Bool-cases}
use cirrusync.Prelude.Lists.{length}
use cirrusync.Prelude.Dict.{Eq, same_refl, contains, contains-add, collect, Unique}

module _ {ℓ} {A : Type ℓ} ⦃e : Eq A⦄ where
  remove : A → List A → List A
  remove a [] = []
  remove a (x ∷ xs) = if e.same x a then remove a xs else x ∷ remove a xs

  contains-remove :
      (a b : A) (xs : List A) → contains (remove a xs) b ≡ (contains xs b && not (e.same a b))
  unfolding contains remove
  contains-remove a b [] = refl
  contains-remove a b (x ∷ xs) = elim (Bool-cases (e.same x a)) [
    | inl s ↦ rw (remove, s, contains-remove a b xs, (e.same_iff x a).0 s) (ground arith)
    | inr s ↦ elim (Bool-cases (e.same x b)) [
      | inl t ↦ rw (remove, s, contains, t) (other a x b s t)
      | inr t ↦ rw (remove, s, contains, t) (contains-remove a b xs)
    ]
  ]
    where
      other : (a x b : A) → e.same x a ≡ false → e.same x b ≡ true → true ≡ not (e.same a b)
      other a x b s t = elim (Bool-cases (e.same a b)) [
        | inl q ↦ absurd (
            ground
              (arith, s, (e.same_iff x a).1 ((e.same_iff x b).0 t ∙ sym ((e.same_iff a b).0 q))))
        | inr q ↦ rw q refl
      ]

  remove-Unique : (a : A) (xs : List A) → Unique xs → Unique (remove a xs)
  unfolding remove
  remove-Unique a [] u = tt
  remove-Unique a (x ∷ xs) u = elim (Bool-cases (e.same x a)) [
    | inl s ↦ rw (remove, s) (remove-Unique a xs u.1)
    | inr s ↦ rw (remove, s) (rw (contains-remove a x xs, u.0) refl, remove-Unique a xs u.1)
  ]

  remove_absent : (a : A) (xs : List A) → contains xs a ≡ false → remove a xs ≡ xs
  unfolding remove contains
  remove_absent a [] h = refl
  remove_absent a (x ∷ xs) h = elim (Bool-cases (e.same x a)) [
    | inl s ↦ absurd (ground (arith, s, h))
    | inr s ↦ rw (remove, s) (ap (◌∷◌ x) (remove_absent a xs (ground (arith, s, h))))
  ]

  length-remove : (a : A) (xs : List A) → Unique xs → length xs ≤ suc (length (remove a xs))
  unfolding remove
  length-remove a [] u = omega arith
  length-remove a (x ∷ xs) u = elim (Bool-cases (e.same x a)) [
    | inl s ↦ rw (remove, s, remove_absent a xs (rw (← (e.same_iff x a).0 s) (u.0))) (omega arith)
    | inr s ↦ rw (remove, s) (omega (arith, length-remove a xs u.1))
  ]

  -- A set within another has no more elements.
  pub length-within :
      (xs ys : List A)
      → Unique xs
      → ((a : A) → contains xs a ≡ true → contains ys a ≡ true)
      → length xs ≤ length ys
  unfolding contains
  length-within [] [] u h = omega arith
  length-within (x ∷ xs) [] u h = absurd (ground (arith, h x (rw (same_refl x) refl)))
  length-within xs (y ∷ ys) u h = omega (
    arith,
    length-remove y xs u,
    length-within (remove y xs) ys (remove-Unique y xs u)
        λ a k. ground (arith, h a, contains-remove y a xs),
  )

  pub contains-collect : (a : A) (xs : List A) → contains (collect xs) a ≡ contains xs a
  unfolding collect contains
  contains-collect a [] = refl
  contains-collect a (x ∷ xs) =
      contains-add x a (collect xs) ∙ ap (λ b. e.same x a || b) (contains-collect a xs)
