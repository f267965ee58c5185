-- ===== src/Cloudflare/Records.antt =====
-- src/cloudflare.rs: finding, updating, probing and creating DNS records.
pub mod Find
pub mod Pages
use cirrusync.Prelude.{
  ℕ, zero, suc, ◌+◌, Bool, true, false, ◌&&◌, Option, none, some, List, [], ◌∷◌, if◌then◌else◌,
  length, Result, ok, err,
}
use cirrusync.Prelude.Strings.{Text, text, eq_ignore_ascii_case, decimal}
use cirrusync.Cloudflare.{
  DnsRecord, RecordPayload, CloudflareError, ambiguous_record, pagination_limit, record_page_size,
  max_pages,
}
use cirrusync.Cloudflare.Client.{
  Request, get, patch, patch_probe, post, ApiResponse, Api, Client, Call, ◌>>=◌, return, fail, lift,
}
use cirrusync.Cloudflare.Client.Send.{send, has_next_page}
use cirrusync.Cloudflare.Zones.{checking_zone}

unfoldable pub is_match : Text → Text → DnsRecord → Bool
is_match record_type name r =
    eq_ignore_ascii_case r.name name && eq_ignore_ascii_case r.record_type record_type

-- The `for` loop over the records of a page.
unfoldable pub match_records :
    Text → Text → Option DnsRecord → List DnsRecord → Result (Option DnsRecord) CloudflareError
match_records record_type name found [] = ok found
match_records record_type name none (r ∷ rest) =
    match_records record_type name (if is_match record_type name r then some r else none) rest
match_records record_type name (some old) (r ∷ rest) =
    let skip = match_records record_type name (some old) rest in
    if is_match record_type name r then err (ambiguous_record record_type name) else skip

module _ (net : Api) (client : Client) (limit : Option ℕ) where
  open net use {World, decode_record, decode_records}

  abbrev pub records_path : Text → List Text
  records_path zone_id = text "zones" ∷ zone_id ∷ text "dns_records" ∷ []

  abbrev pub record_path : Text → Text → List Text
  record_path zone_id record_id = text "zones" ∷ zone_id ∷ text "dns_records" ∷ record_id ∷ []

  unfoldable pub record_query : Text → Text → Text → ℕ → Request
  record_query zone_id record_type name page = get (records_path zone_id) (
      (text "name.exact", name)
      ∷ (text "type", record_type)
      ∷ (text "match", text "all")
      ∷ (text "page", decimal page)
      ∷ (text "per_page", decimal record_page_size)
      ∷ [])

  unfoldable pub fetch_page :
      Text → Text → Text → ℕ → Call World (ApiResponse (List DnsRecord)) CloudflareError
  unfolding record_query
  fetch_page zone_id record_type name page = checking_zone net zone_id (
      send net client limit (text "looking up a DNS record") decode_records
        (record_query zone_id record_type name page))

  -- The loop over the pages, with the number of pages that may still be asked for.
  unfoldable pub record_pages :
      ℕ → Text → Text → Text → ℕ → Option DnsRecord → Call World (Option DnsRecord) CloudflareError
  unfolding fetch_page
  record_pages zero zone_id record_type name page found =
      fail (pagination_limit (text "looking up a DNS record"))
  record_pages (suc left) zone_id record_type name page found = do
    response ← fetch_page zone_id record_type name page
    found' ← lift (match_records record_type name found response.result)
    let next = record_pages left zone_id record_type name (page + 1) found'
    if has_next_page page (length response.result) record_page_size response.result_info
        then next
        else return found'

  unfoldable pub find_record : Text → Text → Text → Call World (Option DnsRecord) CloudflareError
  unfolding record_pages
  find_record zone_id record_type name = record_pages max_pages zone_id record_type name 1 none

  unfoldable pub mutate : Text → Text → Request → Call World DnsRecord CloudflareError
  mutate zone_id operation request = do
    response ← checking_zone net zone_id (send net client limit operation decode_record request)
    return response.result

  unfoldable pub update_record : Text → Text → RecordPayload → Call World DnsRecord CloudflareError
  unfolding mutate
  update_record zone_id record_id payload =
      mutate zone_id (text "updating a DNS record") (patch (record_path zone_id record_id) payload)

  unfoldable pub probe_record_edit : Text → DnsRecord → Call World DnsRecord CloudflareError
  unfolding mutate
  probe_record_edit zone_id r = mutate zone_id (text "probing DNS edit permission") (
      patch_probe (record_path zone_id r.id)
        (record { record_type = r.record_type; name = r.name; ttl = r.ttl }))

  unfoldable pub create_record : Text → RecordPayload → Call World DnsRecord CloudflareError
  unfolding mutate
  create_record zone_id payload =
      mutate zone_id (text "creating a DNS record") (post (records_path zone_id) payload)
