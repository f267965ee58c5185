-- ===== src/Cloudflare/Zones/Cache.antt =====
-- The zone cache, for src/cloudflare.rs.
use cirrusync.Prelude.{◌≡◌, refl, sym, ◌∙◌, inl, inr, false, some, [], ◌∷◌, arith, Bool-cases}
use cirrusync.Prelude.Strings.{Text, eq_ignore_ascii_case}
use cirrusync.Cloudflare.Zones.{ZoneCache, cache_get, cache_forget}

-- After a zone was forgotten, no key is answered with its ID, in any letter case.
pub cache_get-cache_forget :
    (key zone_id id : Text) (cache : ZoneCache)
    → cache_get key (cache_forget zone_id cache) ≡ some id
    → eq_ignore_ascii_case id zone_id ≡ false
unfolding cache_get cache_forget
cache_get-cache_forget key zone_id id [] h = cc
cache_get-cache_forget key zone_id id ((k, old) ∷ rest) h =
    elim (Bool-cases (eq_ignore_ascii_case old zone_id)) [
      | inl gone ↦
          cache_get-cache_forget key zone_id id rest (sym (rw (cache_forget, gone) refl) ∙ h)
      | inr kept ↦ ground (arith, h, kept, cache_get-cache_forget key zone_id id rest)
    ]
