-- ===== src/Updater/Check/Proofs/Tracking.antt =====
-- Which zones the proofs of edit permission expect and resolve, for `ZoneProofs` in src/updater.rs.
use cirrusync.Prelude.{
  ◌≡◌, refl, sym, ◌∙◌, ◌⊎◌, inl, inr, true, false, some, List, [], ◌∷◌, map, arith, length,
  Bool-cases, All,
}
use cirrusync.Prelude.Strings.{Text}
use cirrusync.Prelude.Dict.{text_equality, contains, count, Unique, collect-Unique, same_refl}
use cirrusync.Prelude.Dict.Maps.{
  get, put, has, Distinct, put-Distinct, get-put, length-put, count-put,
}
use cirrusync.Prelude.Dict.Size.{contains-collect}
use cirrusync.Config.{Config, RecordConfig}
use cirrusync.Updater.Check.Proofs.{
  ConfiguredZone, same_zone, same_zone_iff, zone_equality, zone_of, ZoneProofs, for_config,
  mark_resolved, mark_proven,
}

-- The expected zones stand once each, and the resolved ones are among them, with one ID each.
pub record IsTracking (p : ZoneProofs) : Type 0 where
  pub expected_once : Unique p.expected
  pub resolved_once : Distinct p.resolved
  pub resolved_expected :
      (z : ConfiguredZone) (id : Text) → get z p.resolved ≡ some id → contains p.expected z ≡ true
  pub resolved_counted : count (λ z. has z p.resolved) p.expected ≡ length p.resolved

count-none : (es : List ConfiguredZone) → count (λ z. has {V = Text} z []) es ≡ 0
unfolding count get
count-none [] = refl
count-none (z ∷ es) = count-none es

pub for_config-IsTracking : (c : Config) → IsTracking (for_config c)
unfolding for_config get
for_config-IsTracking c = record {
  expected_once = collect-Unique (map zone_of c.records);
  resolved_once = tt;
  resolved_expected = λ z id h. cc;
  resolved_counted = count-none _;
}

pub mark_resolved-IsTracking :
    (r : RecordConfig) (zone_id : Text) (p : ZoneProofs)
    → contains p.expected (zone_of r) ≡ true
    → IsTracking p
    → IsTracking (mark_resolved r zone_id p)
unfolding mark_resolved
mark_resolved-IsTracking r zone_id p h t = record {
  expected_once = t.expected_once;
  resolved_once = put-Distinct (zone_of r) zone_id p.resolved t.resolved_once;
  resolved_expected = λ z id g. tracked z id (Bool-cases (same_zone (zone_of r) z)) g;
  resolved_counted =
      count-put (zone_of r) zone_id p.resolved p.expected t.expected_once
      ∙ rw (h, t.resolved_counted, length-put (zone_of r) zone_id p.resolved) (ground arith);
}
  where
    tracked :
        (z : ConfiguredZone) (id : Text)
        → (same_zone (zone_of r) z ≡ true) ⊎ (same_zone (zone_of r) z ≡ false)
        → get z (put (zone_of r) zone_id p.resolved) ≡ some id
        → contains p.expected z ≡ true
    tracked z id (inl s) g = rw (← (same_zone_iff (zone_of r) z).0 s) h
    tracked z id (inr s) g =
        t.resolved_expected z id (sym (get-put z (zone_of r) zone_id p.resolved ∙ rw s refl) ∙ g)

pub mark_proven-IsTracking :
    (zone_id : Text) (p : ZoneProofs) → IsTracking p → IsTracking (mark_proven zone_id p)
unfolding mark_proven
mark_proven-IsTracking zone_id p t = record {
  expected_once = t.expected_once;
  resolved_once = t.resolved_once;
  resolved_expected = t.resolved_expected;
  resolved_counted = t.resolved_counted;
}

zones-Expected :
    (rs : List RecordConfig) (zs : List ConfiguredZone)
    → ((z : ConfiguredZone) → contains (map zone_of rs) z ≡ true → contains zs z ≡ true)
    → All (λ r. contains zs (zone_of r) ≡ true) rs
unfolding contains
zones-Expected [] zs h = tt
zones-Expected (r ∷ rs) zs h = (
  h (zone_of r) (rw (same_refl (zone_of r)) refl),
  zones-Expected rs zs λ z k. h z (ground (arith, k)),
)

-- The zone of every configured record is expected.
pub for_config-Expected :
    (c : Config) → All (λ r. contains (for_config c).expected (zone_of r) ≡ true) c.records
unfolding for_config
for_config-Expected c =
    zones-Expected c.records _ λ z h. contains-collect z (map zone_of c.records) ∙ h
