-- ===== src/Examples/Checking.antt =====
-- The check workflow's theorems at concrete inputs.
use cirrusync.Prelude.{◌≡◌, refl, true, [], ◌∷◌, is_empty, ok}
use cirrusync.Prelude.Strings.{text, text_eq}
use cirrusync.Prelude.Dict.{collect}
use cirrusync.Prelude.Dict.Maps.{put}
use cirrusync.Updater.Check.Proofs.{
  ZoneProofs, for_config, mark_resolved, mark_proven, is_complete, unverified_targets,
}
use cirrusync.Updater.Check.Proofs.Tracking.{
  IsTracking, for_config-IsTracking, mark_resolved-IsTracking, mark_proven-IsTracking,
  for_config-Expected,
}
use cirrusync.Updater.Check.Proofs.Complete.{is_complete-unverified_targets}
use cirrusync.Updater.Check.Run.{check}
use cirrusync.Updater.Check.Run.Ledger.{CheckLedger, check-CheckLedger}
use cirrusync.Examples.Instances.{
  sample_host, sample_record, sample_config, sample_updater, sample_session,
}

check-CheckLedger_example :
    CheckLedger true true
      (sample_record ∷ [])
      sample_session
      (check sample_host sample_updater true true (ok tt) sample_session)
check-CheckLedger_example =
    check-CheckLedger sample_host sample_updater true true (ok tt) sample_session refl

abbrev proven_zone : ZoneProofs
proven_zone =
    mark_proven (text "z1") (mark_resolved sample_record (text "z1") (for_config sample_config))

proven_zone-IsTracking : IsTracking proven_zone
proven_zone-IsTracking = mark_proven-IsTracking (text "z1") _ (
    mark_resolved-IsTracking sample_record (text "z1") (for_config sample_config)
      (for_config-Expected sample_config).0 (for_config-IsTracking sample_config))

is_complete-unverified_targets_example :
    is_complete proven_zone ≡ is_empty (unverified_targets proven_zone)
is_complete-unverified_targets_example =
    is_complete-unverified_targets proven_zone proven_zone-IsTracking

-- The zone that was resolved and proven is the only one that is expected.
proven_zone_complete : is_complete proven_zone ≡ true
unfolding is_complete for_config mark_resolved mark_proven put collect text_eq text
proven_zone_complete = refl
