-- ===== src/Updater/Plan.antt =====
-- src/updater.rs: planning one record, and carrying the plan out.
pub mod Current
pub mod Effects
use cirrusync.Prelude.{ℕ, Bool, true, false, ◌&&◌, not, Option, none, some, ◌==◌, if◌then◌else◌}
use cirrusync.Prelude.Strings.{Text}
use cirrusync.PublicIp.{Ipv4Addr, Ipv6Addr, IpAddr, v4, v6, IpText}
use cirrusync.Config.{RecordConfig, type_str}
use cirrusync.Cloudflare.{DnsRecord, RecordPayload, CloudflareError, record_not_found}
use cirrusync.Cloudflare.Client.{Session, Call, ◌>>=◌, return, fail, map_failed, Client}
use cirrusync.Cloudflare.Zones.{resolve_zone_id}
use cirrusync.Cloudflare.Records.{find_record, update_record, create_record}
use cirrusync.Updater.{FailureStage}
use cirrusync.Updater.Host.{Host}

pub same_ipv4 : Ipv4Addr → Ipv4Addr → Bool
same_ipv4 x y = x.a == y.a && x.b == y.b && x.c == y.c && x.d == y.d

pub same_ipv6 : Ipv6Addr → Ipv6Addr → Bool
same_ipv6 x y =
    x.s0 == y.s0
    && x.s1 == y.s1
    && x.s2 == y.s2
    && x.s3 == y.s3
    && x.s4 == y.s4
    && x.s5 == y.s5
    && x.s6 == y.s6
    && x.s7 == y.s7

-- `IpAddr`'s `==`
unfoldable pub same_ip : IpAddr → IpAddr → Bool
unfolding same_ipv4 same_ipv6
same_ip (v4 x) (v4 y) = same_ipv4 x y
same_ip (v4 x) (v6 y) = false
same_ip (v6 x) (v4 y) = false
same_ip (v6 x) (v6 y) = same_ipv6 x y

pub same_parsed : Option IpAddr → IpAddr → Bool
same_parsed none address = false
same_parsed (some x) address = same_ip x address

pub same_bool : Bool → Bool → Bool
same_bool true b = b
same_bool false b = not b

pub data RecordPlan : Type 0 where
  unchanged : RecordPlan
  update : Text → Text → RecordPayload → RecordPlan
  create : Text → RecordPayload → RecordPlan

pub data RecordOutcome : Type 0 where
  unchanged updated created : RecordOutcome

module _ (t : IpText) where
  unfoldable pub record_payload : RecordConfig → IpAddr → RecordPayload
  record_payload r address = record {
    record_type = type_str r.record_type;
    name = r.name;
    content = t.show_ip address;
    ttl = r.ttl;
    proxied = r.proxied;
  }

  -- Whether an existing record holds the managed values already.
  pub is_current : RecordConfig → IpAddr → DnsRecord → Bool
  unfolding same_parsed same_bool
  is_current r address existing =
      same_parsed (t.parse_ip existing.content) address
      && existing.ttl == r.ttl
      && same_bool existing.proxied r.proxied

  unfoldable pub plan_existing_record : RecordConfig → IpAddr → Text → DnsRecord → RecordPlan
  unfolding record_payload is_current
  plan_existing_record r address zone_id existing =
      if is_current r address existing
      then RecordPlan.unchanged
      else update zone_id existing.id (record_payload r address)

module _ (host : Host) (client : Client) where
  open host use {api, ip}

  abbrev pub Staged : Type 0 → Type 0
  Staged A = Call api.World A (FailureStage × CloudflareError)

  abbrev pub at_stage : {A : Type 0} → FailureStage → Call api.World A CloudflareError → Staged A
  at_stage stage m = map_failed m (λ e. (stage, e))

  abbrev pub lookup : Option ℕ → RecordConfig → Text → Staged (Option DnsRecord)
  lookup limit r zone_id =
      at_stage FailureStage.record_lookup
        (find_record api client limit zone_id (type_str r.record_type) r.name)

  -- The second lookup found the record, or it is missing still.
  plan_rechecked : RecordConfig → IpAddr → Text → Option DnsRecord → RecordPlan
  plan_rechecked r address zone_id (some existing) =
      plan_existing_record ip r address zone_id existing
  plan_rechecked r address zone_id none = create zone_id (record_payload ip r address)

  -- The first lookup found nothing. The flag is `create_if_missing`.
  pub plan_absent : Bool → Option ℕ → RecordConfig → IpAddr → Text → Staged RecordPlan
  unfolding plan_rechecked
  plan_absent false limit r address zone_id =
      fail (FailureStage.record_lookup, record_not_found (type_str r.record_type) r.name)
  plan_absent true limit r address zone_id = do
    rechecked ← lookup limit r zone_id
    return (plan_rechecked r address zone_id rechecked)

  pub plan_found : Option ℕ → RecordConfig → IpAddr → Text → Option DnsRecord → Staged RecordPlan
  unfolding plan_absent
  plan_found limit r address zone_id (some existing) =
      return (plan_existing_record ip r address zone_id existing)
  plan_found limit r address zone_id none = plan_absent r.create_if_missing limit r address zone_id

  unfoldable pub plan_record : Option ℕ → RecordConfig → IpAddr → Staged RecordPlan
  unfolding plan_found
  plan_record limit r address = do
    zone_id ← at_stage FailureStage.zone_lookup (resolve_zone_id api client limit r.zone r.zone_id)
    existing ← lookup limit r zone_id
    plan_found limit r address zone_id existing

  abbrev pub set_in_flight : Bool → Session api.World → Session api.World
  set_in_flight flag s = record s { mutation_in_flight = flag }

  -- `begin_mutation`, the call, and the guard's drop.
  unfoldable pub during_mutation : {A E : Type 0} → Call api.World A E → Call api.World A E
  during_mutation m s = let (r, s') = m (set_in_flight true s) in (r, set_in_flight false s')

  -- No deadline cuts off a mutation.
  unfoldable pub execute_record_plan : RecordPlan → Staged RecordOutcome
  unfolding during_mutation
  execute_record_plan RecordPlan.unchanged = return RecordOutcome.unchanged
  execute_record_plan (update zone_id record_id payload) = do
    changed ←
        at_stage FailureStage.update
          (during_mutation (update_record api client none zone_id record_id payload))
    return RecordOutcome.updated
  execute_record_plan (create zone_id payload) = do
    made ←
        at_stage FailureStage.creation
          (during_mutation (create_record api client none zone_id payload))
    return RecordOutcome.created
