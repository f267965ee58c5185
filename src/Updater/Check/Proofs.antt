-- ===== src/Updater/Check/Proofs.antt =====
-- src/updater.rs: `ZoneProofs`, for which zones the check has exercised a DNS write. A `HashSet` and
-- a `HashMap` are lists here; the program leaves the order of their elements open.
pub mod Tracking
pub mod Complete
use cirrusync.Prelude.{
  ℕ, ◌≡◌, ◌↔◌, refl, ap, arith, Bool, true, false, ◌&&◌, not, Option, none, some, List, [], ◌∷◌,
  ◌++◌, map, length, all, ◌==◌, if◌then◌else◌, &&-left, &&-right, &&-both,
}
use cirrusync.Prelude.Strings.{Text, text, to_ascii_lowercase, text_eq_iff, text_eq}
use cirrusync.Prelude.Dict.{Eq, text_equality, contains, add, collect, or_insert}
use cirrusync.Prelude.Dict.Maps.{get, put}
use cirrusync.Config.{RecordConfig, Config}
use cirrusync.Updater.{FailureStage, CheckReport}
use cirrusync.Updater.Failures.{permanent_failure}

pub record ConfiguredZone : Type 0 where
  pub name : Text
  pub explicit_id : Option Text

same_id : Option Text → Option Text → Bool
same_id none none = true
same_id none (some t) = false
same_id (some s) none = false
same_id (some s) (some t) = text_eq s t

same_id_iff : (a b : Option Text) → (same_id a b ≡ true) ↔ (a ≡ b)
unfolding same_id
same_id_iff none none = (λ h. refl, λ h. refl)
same_id_iff none (some t) = (λ h. cc, λ h. cc)
same_id_iff (some s) none = (λ h. cc, λ h. cc)
same_id_iff (some s) (some t) = (λ h. ap some ((text_eq_iff s t).0 h), λ h. (text_eq_iff s t).1 cc)

pub same_zone : ConfiguredZone → ConfiguredZone → Bool
same_zone x y = text_eq x.name y.name && same_id x.explicit_id y.explicit_id

zone_eq : {x y : ConfiguredZone} → x.name ≡ y.name → x.explicit_id ≡ y.explicit_id → x ≡ y
zone_eq p q = ground (arith, p, q)

pub same_zone_iff : (x y : ConfiguredZone) → (same_zone x y ≡ true) ↔ (x ≡ y)
unfolding same_zone
same_zone_iff x y = (
  λ h.
      zone_eq ((text_eq_iff x.name y.name).0 (&&-left _ _ h))
        ((same_id_iff x.explicit_id y.explicit_id).0 (&&-right _ _ h)),
  λ e.
      &&-both _ _ ((text_eq_iff _ _).1 (ap (λ z. z.name) e))
        ((same_id_iff _ _).1 (ap (λ z. z.explicit_id) e)),
)

-- `derive(PartialEq)`
instance abbrev pub zone_equality : Eq ConfiguredZone
zone_equality = record { same = same_zone; same_iff = same_zone_iff }

unfoldable pub zone_of : RecordConfig → ConfiguredZone
zone_of r = record { name = to_ascii_lowercase r.zone; explicit_id = r.zone_id }

-- `a.or(b)`
abbrev or_else : Option Text → Option Text → Option Text
or_else none b = b
or_else (some a) b = some a

pub named_with : Text → Option Text → Text
named_with name none = name
named_with name (some zone_id) = name ++ text " (zone ID " ++ zone_id ++ text ")"

pub display_target : ConfiguredZone → Option Text → Text
unfolding named_with
display_target z resolved_id = named_with z.name (or_else resolved_id z.explicit_id)

pub record ZoneProofs : Type 0 where
  pub expected : List ConfiguredZone
  pub resolved : List (ConfiguredZone × Text)
  pub proven_ids : List Text

unfoldable pub for_config : Config → ZoneProofs
for_config c = record { expected = collect (map zone_of c.records); resolved = []; proven_ids = [] }

unfoldable pub mark_resolved : RecordConfig → Text → ZoneProofs → ZoneProofs
mark_resolved r zone_id p = record p { resolved = put (zone_of r) zone_id p.resolved }

unfoldable pub needs_proof : Text → ZoneProofs → Bool
needs_proof zone_id p = not (contains p.proven_ids zone_id)

unfoldable pub mark_proven : Text → ZoneProofs → ZoneProofs
mark_proven zone_id p = record p { proven_ids = add zone_id p.proven_ids }

pub proven_values : List Text → List (ConfiguredZone × Text) → List Text
proven_values proven [] = []
proven_values proven ((z, id) ∷ d) =
    let rest = proven_values proven d in if contains proven id then id ∷ rest else rest

pub verified_count : ZoneProofs → ℕ
unfolding proven_values
verified_count p = length (collect (proven_values p.proven_ids p.resolved))

unfoldable pub is_complete : ZoneProofs → Bool
is_complete p =
    length p.resolved == length p.expected && all (λ e. contains p.proven_ids e.1) p.resolved

abbrev unwrap_or_default : Option Text → Text
unwrap_or_default none = []
unwrap_or_default (some t) = t

-- The entry of one expected zone.
pub note_zone : ZoneProofs → ConfiguredZone → Option Text → List (Text × Text) → List (Text × Text)
unfolding display_target
note_zone p z none targets =
    or_insert (text "unresolved:" ++ z.name ++ text ":" ++ unwrap_or_default z.explicit_id)
      (display_target z none) targets
note_zone p z (some zone_id) targets =
    if contains p.proven_ids zone_id
    then targets
    else or_insert (text "resolved:" ++ zone_id) (display_target z (some zone_id)) targets

pub note_zones : ZoneProofs → List ConfiguredZone → List (Text × Text) → List (Text × Text)
unfolding note_zone
note_zones p [] targets = targets
note_zones p (z ∷ zs) targets = note_zones p zs (note_zone p z (get z p.resolved) targets)

pub unverified_targets : ZoneProofs → List Text
unfolding note_zones
unverified_targets p = map (λ e. e.1) (note_zones p p.expected [])

unfoldable pub summarize_check_proofs : ZoneProofs → CheckReport → CheckReport
unfolding verified_count is_complete
summarize_check_proofs p report = record report {
  edit_verified_zones = verified_count p;
  edit_permission_verified = is_complete p;
}

-- The flag says whether the edit probe was asked for.
unproved_message : Bool → Text
unproved_message true = text "DNS edit permission could not be proved for this zone"
unproved_message false =
    text "DNS edit permission was not exercised; rerun check with --allow-edit-probe"

unfoldable pub finalize_check_report : ZoneProofs → Bool → CheckReport → CheckReport
unfolding summarize_check_proofs unproved_message unverified_targets
finalize_check_report p edit_probe_requested report =
    let summary = summarize_check_proofs p report in
    record summary {
      failures =
          summary.failures
          ++ map
              (λ target.
                permanent_failure target FailureStage.edit_permission
                  (unproved_message edit_probe_requested))
              (unverified_targets p);
    }
