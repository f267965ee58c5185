-- ===== src/Updater/Cycle/Order.antt =====
-- The order of a cycle's records, for `synchronize` in src/updater.rs.
use native.Mathlib.Nat.{mod-lt, mod-eq_of_lt}
use cirrusync.Prelude.{
  ℕ, zero, suc, ◌+◌, ◌-◌, ◌%◌, ◌≤◌, ◌<◌, ◌≡◌, refl, ap, ◌∙◌, some, List, [], ◌∷◌, ◌++◌, arith,
  length, get_elem?, take, drop,
}
use cirrusync.Config.{RecordConfig}
use cirrusync.Updater.Cycle.{offsets_from, visit_order, start_index}

mod-wrapped : (a n : ℕ) → n ≤ a → a < n + n → a % n + n ≡ a
mod-wrapped a n h k = grind arith

-- The element at a position in range, and the rest from there.
record At (records : List RecordConfig) (i : ℕ) : Type 0 where
  element : RecordConfig
  found : get_elem? records i ≡ some element
  rest : drop i records ≡ element ∷ drop (suc i) records

at : (records : List RecordConfig) (i : ℕ) → i < length records → At records i
at [] i h = absurd (ground arith)
at (r ∷ records) zero h = record { element = r; found = refl; rest = refl }
at (r ∷ records) (suc i) h =
    let a = at records i (omega (arith, h)) in
    record { element = a.element; found = a.found; rest = a.rest }

drop-length : (records : List RecordConfig) → drop (length records) records ≡ []
drop-length [] = refl
drop-length (r ∷ records) = drop-length records

abbrev none_of : List RecordConfig
none_of = []

nothing : (n : ℕ) → none_of ≡ drop n none_of ++ take n none_of
nothing zero = refl
nothing (suc n) = refl

pub take-drop : (n : ℕ) (records : List RecordConfig) → take n records ++ drop n records ≡ records
take-drop zero records = refl
take-drop (suc n) [] = refl
take-drop (suc n) (r ∷ records) = ap (◌∷◌ r) (take-drop n records)

module _ (records : List RecordConfig) (start : ℕ) where
  offsets_from-step :
      (left offset i : ℕ)
      → (start + offset) % length records ≡ i
      → (a : At records i)
      → offsets_from records start offset (suc left)
        ≡ a.element ∷ offsets_from records start (offset + 1) left
  unfolding offsets_from
  offsets_from-step left offset i e a = rw (offsets_from, e, a.found) refl

  -- Behind the end the visit goes on at the front.
  offsets_from-wrapped :
      (left offset j : ℕ)
      → j + length records ≡ start + offset
      → j + left ≤ start
      → start < length records
      → offsets_from records start offset left ≡ take left (drop j records)
  unfolding offsets_from
  offsets_from-wrapped zero offset j e h lt = refl
  offsets_from-wrapped (suc left) offset j e h lt =
      let a = at records j (omega arith) in
      offsets_from-step left offset j
        (omega (arith, mod-wrapped (start + offset) (length records) (omega arith) (omega arith))) a
      ∙ ap (◌∷◌ a.element)
          (offsets_from-wrapped left (offset + 1) (suc j) (omega arith) (omega arith) lt)
      ∙ rw a.rest refl

  offsets_from-drop :
      (k left offset : ℕ)
      → left ≡ k + start
      → start + offset + k ≡ length records
      → start < length records
      → offsets_from records start offset left ≡ drop (start + offset) records ++ take start records
  offsets_from-drop zero left offset q e lt =
      let end : start + offset ≡ length records = omega arith in
      let rest : left ≡ start = omega arith in
      rw (end, drop-length, rest)
        (offsets_from-wrapped start offset 0 (omega arith) (omega arith) lt)
  offsets_from-drop (suc k) left offset q e lt =
      let a = at records (start + offset) (omega arith) in
      let more : left ≡ suc (k + start) = omega arith in
      let next : start + (offset + 1) ≡ suc (start + offset) = omega arith in
      rw more (
        offsets_from-step (k + start) offset (start + offset) (mod-eq_of_lt (omega arith)) a
        ∙ ap (◌∷◌ a.element) (offsets_from-drop k (k + start) (offset + 1) refl (omega arith) lt)
        ∙ rw (next, a.rest) refl)

  visit_order-at :
      start < length records → visit_order records start ≡ drop start records ++ take start records
  unfolding visit_order
  visit_order-at lt =
      let origin : start + 0 ≡ start = omega arith in
      offsets_from-drop (length records - start) (length records) 0 (omega arith) (omega arith) lt
      ∙ rw origin refl

-- Whatever the cursor, a cycle's order is the configured one from the record on at the cursor's
-- value modulo the number of records, followed by the records before that one.
pub visit_order-rotation :
    (records : List RecordConfig) (cursor : ℕ)
    → visit_order records (start_index cursor (length records))
      ≡ drop (cursor % length records) records ++ take (cursor % length records) records
unfolding start_index visit_order offsets_from
visit_order-rotation [] cursor = nothing (cursor % 0)
visit_order-rotation (r ∷ records) cursor =
    visit_order-at (r ∷ records) _ (mod-lt cursor (omega arith))
