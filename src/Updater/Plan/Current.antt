-- ===== src/Updater/Plan/Current.antt =====
-- Which records are left alone, for `plan_existing_record` in src/updater.rs.
use cirrusync.Prelude.{◌≡◌, refl, ap, ◌∙◌, ◌↔◌, true, Option, none, some, arith, ==_refl, &&-left}
use cirrusync.Prelude.Strings.{Text}
use cirrusync.PublicIp.{IpAddr, v4, v6, IpText}
use cirrusync.Config.{RecordConfig}
use cirrusync.Cloudflare.{DnsRecord}
use cirrusync.Updater.Host.{IsFaithful}
use cirrusync.Updater.Plan.{
  same_ipv4, same_ipv6, same_ip, same_parsed, same_bool, RecordPlan, is_current, record_payload,
  plan_existing_record,
}

same_ip-eq : (x y : IpAddr) → same_ip x y ≡ true → x ≡ y
unfolding same_ip same_ipv4 same_ipv6
same_ip-eq (v4 x) (v4 y) h = ground arith
same_ip-eq (v4 x) (v6 y) h = cc
same_ip-eq (v6 x) (v4 y) h = cc
same_ip-eq (v6 x) (v6 y) h = ground arith

same_ip_refl : (x : IpAddr) → same_ip x x ≡ true
unfolding same_ip same_ipv4 same_ipv6
same_ip_refl (v4 x) = ground arith
same_ip_refl (v6 x) = ground arith

same_parsed-eq :
    (o : Option IpAddr) (address : IpAddr) → same_parsed o address ≡ true → o ≡ some address
unfolding same_parsed
same_parsed-eq none address h = cc
same_parsed-eq (some x) address h = ap some (same_ip-eq x address h)

-- A record's content is an address, and its TTL and proxy state are the configured ones.
pub record HoldsAddress (t : IpText) (r : RecordConfig) (address : IpAddr) (existing : DnsRecord)
    : Type 0 where
  pub content : t.parse_ip existing.content ≡ some address
  pub ttl : existing.ttl ≡ r.ttl
  pub proxied : existing.proxied ≡ r.proxied

module _ (t : IpText) where
  is_current-HoldsAddress :
      (r : RecordConfig) (address : IpAddr) (existing : DnsRecord)
      → is_current t r address existing ≡ true
      → HoldsAddress t r address existing
  unfolding is_current same_parsed same_bool
  is_current-HoldsAddress r address existing h = record {
    content = same_parsed-eq _ address (&&-left _ _ (&&-left _ _ h));
    ttl = ground arith;
    proxied = ground arith;
  }

  HoldsAddress-is_current :
      (r : RecordConfig) (address : IpAddr) (existing : DnsRecord)
      → HoldsAddress t r address existing
      → is_current t r address existing ≡ true
  unfolding is_current same_parsed same_bool
  HoldsAddress-is_current r address existing h =
      rw (h.content, h.ttl, h.proxied, same_ip_refl, ==_refl) (ground arith)

  -- An existing record is left alone exactly if it holds the address with the configured TTL and
  -- proxy state.
  pub plan_existing_record-unchanged_iff :
      (r : RecordConfig) (address : IpAddr) (zone_id : Text) (existing : DnsRecord)
      → (plan_existing_record t r address zone_id existing ≡ RecordPlan.unchanged)
        ↔ HoldsAddress t r address existing
  unfolding plan_existing_record
  plan_existing_record-unchanged_iff r address zone_id existing = (
    λ h. is_current-HoldsAddress r address existing (ground arith),
    λ h. rw (HoldsAddress-is_current r address existing h) refl,
  )

  -- Once a record has the content, TTL and proxy state of the payload that an update sends, it is
  -- left alone, where std's printed addresses parse back.
  pub plan_existing_record-converges :
      IsFaithful t
      → (r : RecordConfig) (address : IpAddr) (zone_id : Text) (stored : DnsRecord)
      → stored.content ≡ (record_payload t r address).content
      → stored.ttl ≡ (record_payload t r address).ttl
      → stored.proxied ≡ (record_payload t r address).proxied
      → plan_existing_record t r address zone_id stored ≡ RecordPlan.unchanged
  unfolding record_payload
  plan_existing_record-converges f r address zone_id stored c l p =
      (plan_existing_record-unchanged_iff r address zone_id stored).1
        (record { content = ap t.parse_ip c ∙ f.parse_show address; ttl = l; proxied = p })
