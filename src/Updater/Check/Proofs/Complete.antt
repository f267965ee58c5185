-- ===== src/Updater/Check/Proofs/Complete.antt =====
-- When the proofs of edit permission are complete, for `ZoneProofs` in src/updater.rs.
use cirrusync.Prelude.{
  ◌≡◌, refl, sym, ◌∙◌, inl, inr, Bool, true, false, ◌&&◌, Option, none, some, List, [], ◌∷◌, map,
  arith, length, is_empty, all, ◌≤◌, ==_iff, &&-left, &&-right, &&-both, Bool-cases, Option-cases,
}
use cirrusync.Prelude.Strings.{Text, text_eq, text_eq_iff}
use cirrusync.Prelude.Dict.{
  text_equality, contains, collect, collect-Unique, count-all, all-count, is_empty-or_insert,
}
use cirrusync.Prelude.Dict.Maps.{get, has, all-get, get-all}
use cirrusync.Prelude.Dict.Size.{length-within, contains-collect}
use cirrusync.Updater.Check.Proofs.{
  ConfiguredZone, same_zone, same_zone_iff, zone_equality, ZoneProofs, is_complete, note_zone,
  note_zones, unverified_targets, proven_values, verified_count,
}
use cirrusync.Updater.Check.Proofs.Tracking.{IsTracking}

-- A zone is resolved, to an ID that is proven.
pub is_verified : ZoneProofs → ConfiguredZone → Bool
is_verified p z = elim (get z p.resolved) [ none ↦ false | some id ↦ contains p.proven_ids id ]

is_empty-note_zone :
    (p : ZoneProofs) (z : ConfiguredZone) (o : Option Text) (targets : List (Text × Text))
    → get z p.resolved ≡ o
    → is_empty (note_zone p z o targets) ≡ (is_verified p z && is_empty targets)
unfolding note_zone is_verified
is_empty-note_zone p z none targets h = rw (is_verified, h) (is_empty-or_insert _ _ targets)
is_empty-note_zone p z (some id) targets h = elim (Bool-cases (contains p.proven_ids id)) [
  | inl k ↦ rw (note_zone, is_verified, h, k) refl
  | inr k ↦ rw (note_zone, is_verified, h, k) (is_empty-or_insert _ _ targets)
]

is_empty-note_zones :
    (p : ZoneProofs) (zs : List ConfiguredZone) (targets : List (Text × Text))
    → is_empty (note_zones p zs targets) ≡ (all (is_verified p) zs && is_empty targets)
unfolding note_zones
is_empty-note_zones p [] targets = refl
is_empty-note_zones p (z ∷ zs) targets = ground (
  arith,
  is_empty-note_zones p zs (note_zone p z (get z p.resolved) targets),
  is_empty-note_zone p z (get z p.resolved) targets refl,
)

is_empty-map : {A B : Type 0} (f : A → B) (xs : List A) → is_empty (map f xs) ≡ is_empty xs
is_empty-map f [] = refl
is_empty-map f (x ∷ xs) = refl

verified-has :
    (p : ZoneProofs) (zs : List ConfiguredZone)
    → all (is_verified p) zs ≡ true
    → all (λ z. has z p.resolved) zs ≡ true
unfolding is_verified
verified-has p [] h = refl
verified-has p (z ∷ zs) h = ground (arith, verified-has p zs)

has-verified :
    (p : ZoneProofs) (zs : List ConfiguredZone)
    → all (λ e. contains p.proven_ids e.1) p.resolved ≡ true
    → all (λ z. has z p.resolved) zs ≡ true
    → all (is_verified p) zs ≡ true
unfolding is_verified
has-verified p [] h k = refl
has-verified p (z ∷ zs) h k = elim (Option-cases (get z p.resolved)) [
  | inl e ↦ ground (arith, e, k)
  | inr (id, e) ↦
      rw (is_verified, e, all-get (contains p.proven_ids) p.resolved z id h e)
        (has-verified p zs h (ground (arith, k)))
]

all-contains :
    (p : ConfiguredZone → Bool) (zs : List ConfiguredZone) (z : ConfiguredZone)
    → all p zs ≡ true
    → contains zs z ≡ true
    → p z ≡ true
unfolding contains
all-contains p [] z h k = cc
all-contains p (x ∷ zs) z h k = elim (Bool-cases (same_zone x z)) [
  | inl s ↦ rw (← (same_zone_iff x z).0 s) (&&-left _ _ h)
  | inr s ↦ all-contains p zs z (&&-right _ _ h) (ground (arith, s, k))
]

is_verified-get :
    (p : ZoneProofs) (z : ConfiguredZone) (id : Text)
    → get z p.resolved ≡ some id
    → is_verified p z ≡ contains p.proven_ids id
unfolding is_verified
is_verified-get p z id h = rw (is_verified, h) refl

bool-eq : (a b : Bool) → (a ≡ true → b ≡ true) → (b ≡ true → a ≡ true) → a ≡ b
bool-eq true b h k = sym (h refl)
bool-eq false true h k = k refl
bool-eq false false h k = refl

complete_is_verified :
    (p : ZoneProofs) → IsTracking p → is_complete p ≡ true → all (is_verified p) p.expected ≡ true
unfolding is_complete
complete_is_verified p t h =
    has-verified p p.expected (&&-right _ _ h)
      (count-all _ p.expected (t.resolved_counted ∙ (==_iff _ _).0 (&&-left _ _ h)))

verified_is_complete :
    (p : ZoneProofs) → IsTracking p → all (is_verified p) p.expected ≡ true → is_complete p ≡ true
unfolding is_complete
verified_is_complete p t h =
    &&-both _ _
      ((==_iff _ _).1
        (sym t.resolved_counted ∙ all-count _ p.expected (verified-has p p.expected h)))
      (get-all (contains p.proven_ids) p.resolved t.resolved_once λ z id g.
        sym (is_verified-get p z id g)
        ∙ all-contains (is_verified p) p.expected z h (t.resolved_expected z id g))

-- Where the expected and the resolved zones are tracked, the count of `is_complete` says what the
-- search of `unverified_targets` does: the proofs are complete exactly if no target is left.
pub is_complete-unverified_targets :
    (p : ZoneProofs) → IsTracking p → is_complete p ≡ is_empty (unverified_targets p)
unfolding unverified_targets
is_complete-unverified_targets p t =
    bool-eq _ _ (complete_is_verified p t) (verified_is_complete p t)
    ∙ sym (is_empty-map _ _ ∙ is_empty-note_zones p p.expected [] ∙ ground arith)

contains-proven_values :
    (proven : List Text) (d : List (ConfiguredZone × Text)) (id : Text)
    → contains (proven_values proven d) id ≡ true
    → contains proven id ≡ true
unfolding proven_values contains
contains-proven_values proven [] id h = cc
contains-proven_values proven ((z, t) ∷ d) id h = elim (Bool-cases (contains proven t)) [
  | inl k ↦ elim (Bool-cases (text_eq t id)) [
    | inl e ↦ rw (← (text_eq_iff t id).0 e) k
    | inr e ↦ contains-proven_values proven d id (ground (arith, h, k, e))
  ]
  | inr k ↦ contains-proven_values proven d id (ground (arith, h, k))
]

-- A zone that is counted as verified is proven.
pub verified_count_bound : (p : ZoneProofs) → verified_count p ≤ length p.proven_ids
unfolding verified_count
verified_count_bound p =
    length-within (collect (proven_values p.proven_ids p.resolved)) p.proven_ids (collect-Unique _)
      λ a h. contains-proven_values p.proven_ids p.resolved a (sym (contains-collect a _) ∙ h)

proven-some : (proven : List Text) (id : Text) → contains proven id ≡ true → 1 ≤ length proven
unfolding contains
proven-some [] id h = cc
proven-some (t ∷ proven) id h = omega arith

verified-some :
    (p : ZoneProofs) (z : ConfiguredZone) → is_verified p z ≡ true → 1 ≤ length p.proven_ids
unfolding is_verified
verified-some p z h = elim (Option-cases (get z p.resolved)) [
  | inl e ↦ ground (arith, h, e)
  | inr (id, e) ↦ proven-some p.proven_ids id (sym (is_verified-get p z id e) ∙ h)
]

-- Where a zone is expected, complete proofs took one at least.
pub is_complete-proven :
    (p : ZoneProofs) (z : ConfiguredZone)
    → IsTracking p
    → contains p.expected z ≡ true
    → is_complete p ≡ true
    → 1 ≤ length p.proven_ids
is_complete-proven p z t h k =
    verified-some p z (all-contains (is_verified p) p.expected z (complete_is_verified p t k) h)
