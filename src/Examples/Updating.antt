-- ===== src/Examples/Updating.antt =====
-- The updater's theorems at concrete inputs, and runs of a cycle.
use cirrusync.Prelude.{◌%◌, ◌≡◌, ◌↔◌, refl, true, none, [], ◌∷◌, ◌++◌, take, drop, length, ok}
use cirrusync.Prelude.Strings.{text, len, trim}
use cirrusync.PublicIp.{ipv4, matches}
use cirrusync.Http.{is_success, announces_more, read_chunks}
use cirrusync.PublicIp.Discover.{discover, query_provider}
use cirrusync.PublicIp.Response.{parse_provider_response}
use cirrusync.PublicIp.Address.{is_public_address}
use cirrusync.Cloudflare.Frame.{Sends}
use cirrusync.Updater.Plan.{
  RecordPlan, update, plan_record, execute_record_plan, plan_existing_record, record_payload,
}
use cirrusync.Updater.Plan.Effects.{
  planned_mutations, planned_requests, sent_flagged, plan_and_execute-Sends,
}
use cirrusync.Updater.Plan.Current.{
  HoldsAddress, plan_existing_record-unchanged_iff, plan_existing_record-converges,
}
use cirrusync.Updater.Addresses.{family_of, discover_required_addresses, needs, for_record}
use cirrusync.Updater.Cycle.{start_index, visit_order, run_cycle}
use cirrusync.Updater.Cycle.Order.{visit_order-rotation}
use cirrusync.Updater.Cycle.Discovery.{found, for_record-public}
use cirrusync.Updater.Cycle.Accounting.{CycleLedger, run_cycle-CycleLedger}
use cirrusync.Examples.Instances.{
  sample_text, sample_text-IsFaithful, one, old_record, sample_host, sample_record, sample_client,
  sample_updater, sample_session,
}

run_cycle-CycleLedger_example :
    CycleLedger 1 sample_session (run_cycle sample_host sample_updater (ok tt) 0 sample_session)
run_cycle-CycleLedger_example =
    run_cycle-CycleLedger sample_host sample_updater (ok tt) 0 sample_session refl tt

abbrev new_plan : RecordPlan
new_plan = update (text "z1") (text "r1") (record_payload sample_text sample_record one)

plan_and_execute-Sends_example :
    Sends 0 sample_session
      (plan_record sample_host sample_client none sample_record one sample_session).1
    × Sends
        (planned_mutations new_plan)
        sample_session
        (execute_record_plan sample_host sample_client new_plan sample_session).1
    × ((execute_record_plan sample_host sample_client new_plan sample_session).1.sent
        ≡ sent_flagged (planned_requests new_plan) ++ sample_session.sent)
plan_and_execute-Sends_example =
    plan_and_execute-Sends sample_host sample_client none sample_record one new_plan sample_session
      refl tt

visit_order-rotation_example :
    let rs = sample_record ∷ record sample_record { ttl = 60 } ∷ [] in
    visit_order rs (start_index 5 (length rs)) ≡ drop (5 % length rs) rs ++ take (5 % length rs) rs
visit_order-rotation_example =
    visit_order-rotation (sample_record ∷ record sample_record { ttl = 60 } ∷ []) 5

plan_existing_record-unchanged_iff_example :
    (plan_existing_record sample_text sample_record one (text "z1") old_record
      ≡ RecordPlan.unchanged)
    ↔ HoldsAddress sample_text sample_record one old_record
plan_existing_record-unchanged_iff_example =
    plan_existing_record-unchanged_iff sample_text sample_record one (text "z1") old_record

plan_existing_record-converges_example :
    plan_existing_record sample_text sample_record one
      (text "z1")
      (record old_record { content = 1 ∷ 1 ∷ 1 ∷ 1 ∷ [] })
    ≡ RecordPlan.unchanged
unfolding record_payload
plan_existing_record-converges_example =
    plan_existing_record-converges sample_text sample_text-IsFaithful sample_record one (text "z1")
      (record old_record { content = 1 ∷ 1 ∷ 1 ∷ 1 ∷ [] }) refl refl refl

address_found : for_record (found sample_host sample_updater 0) sample_record ≡ ok one
unfolding for_record discover_required_addresses needs discover query_provider is_success
    announces_more read_chunks parse_provider_response len trim matches is_public_address
address_found = refl

for_record-public_example : (matches ipv4 one ≡ true) × (is_public_address one ≡ true)
unfolding family_of
for_record-public_example =
    for_record-public sample_host sample_updater 0 sample_record one address_found
