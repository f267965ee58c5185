-- ===== src/Examples/Requesting.antt =====
-- The Cloudflare client's theorems at concrete inputs.
use cirrusync.Prelude.Strings.{
  to_ascii_lowercase, starts_with, is_ascii_hexdigit, trim, Text, text, len, is_control,
  eq_ignore_ascii_case,
}
use cirrusync.Cloudflare.Client.Send.{
  has_next_page, await_exchange, send, read_response_body, interpret,
}
use cirrusync.Cloudflare.Zones.{checking_zone, cache_get, cache_forget}
use cirrusync.Cloudflare.Client.{◌>>=◌, Decode, TokenVerification, done, Session}
use cirrusync.Cloudflare.Sanitize.{prepare_error_details, sanitize_and_truncate}
use cirrusync.Http.{is_success, read_chunks, announces_more, bytes, Response, replied}
use cirrusync.Prelude.{
  ◌≡◌, ◌≤◌, ◌++◌, refl, true, false, not, Option, none, some, [], ◌∷◌, all, ok, err, ◌↔◌, List,
}
use cirrusync.Cloudflare.{
  CloudflareError, VerificationTarget, account, authentication, DnsRecord, max_pages,
}
use cirrusync.Cloudflare.Credentials.{
  normalize_account_id, select_verification_target, MayVerify, target_of,
  select_verification_target-MayVerify,
}
use cirrusync.Cloudflare.Sanitize.Laws.{len-sanitize_and_truncate, sanitize_and_truncate-clean}
use cirrusync.Cloudflare.Client.Send.Classes.{Classified, interpret-Classified}
use cirrusync.Cloudflare.Zones.Cache.{cache_get-cache_forget}
use cirrusync.Cloudflare.Records.{is_match, match_records, find_record}
use cirrusync.Cloudflare.Records.Find.{matching, verdict, of_option, match_records-verdict}
use cirrusync.Examples.Instances.{sample_api, sample_client, sample_session, old_record}
use cirrusync.Cloudflare.Records.Pages.{Picked, find_record-Picked, Fetched, find_record-Fetched}

abbrev refused : Response
refused = record { status = 401; content_length = none; retry_after = none; chunks = bytes [] ∷ [] }

abbrev no_json : Decode TokenVerification
no_json body = err (text "no JSON")

abbrev refusal : CloudflareError
refusal = authentication 401 (text "unspecified Cloudflare error") []

refused_body : read_response_body [] refused ≡ ok []
unfolding read_response_body announces_more read_chunks
refused_body = refl

refused_reply : interpret sample_api sample_client [] no_json (replied refused) ≡ err refusal
unfolding interpret read_response_body announces_more read_chunks is_success text
    prepare_error_details sanitize_and_truncate trim
refused_reply = refl

interpret-Classified_example : Classified 401 refusal
interpret-Classified_example =
    interpret-Classified sample_api sample_client [] no_json refused [] refusal refused_body
      refused_reply

match_records-verdict_example :
    match_records (text "A") (text "home.example.com") none (old_record ∷ old_record ∷ [])
    ≡ verdict (text "A") (text "home.example.com") (
        of_option none
        ++ matching (text "A") (text "home.example.com") (old_record ∷ old_record ∷ []))
match_records-verdict_example =
    match_records-verdict (text "A") (text "home.example.com") none (old_record ∷ old_record ∷ [])

abbrev found_session : Session sample_api.World
found_session =
    (find_record sample_api sample_client none (text "z1") (text "a") (text "HOME.example.com")
      sample_session).1

record_found :
    find_record sample_api sample_client none
      (text "z1")
      (text "a")
      (text "HOME.example.com")
      sample_session
    ≡ (done (some old_record), found_session)
unfolding find_record ◌>>=◌ checking_zone send await_exchange read_response_body announces_more
    read_chunks is_success match_records has_next_page is_match eq_ignore_ascii_case text
record_found = refl

find_record-Picked_example :
    (all : List DnsRecord) × Fetched sample_api sample_client none
      (text "z1")
      (text "a")
      (text "HOME.example.com")
      max_pages
      1
      sample_session
      all
      found_session
    × Picked (text "a") (text "HOME.example.com") all (some old_record)
find_record-Picked_example =
    find_record-Picked sample_api sample_client none (text "z1") (text "a")
      (text "HOME.example.com") (some old_record) sample_session found_session record_found

find_record-Fetched_example :
    (find_record sample_api sample_client none
        (text "z1")
        (text "a")
        (text "HOME.example.com")
        sample_session
      ≡ (done (some old_record), found_session))
    ↔ ((all : List DnsRecord) × Fetched sample_api sample_client none
          (text "z1")
          (text "a")
          (text "HOME.example.com")
          max_pages
          1
          sample_session
          all
          found_session
        × (verdict
              (text "a")
              (text "HOME.example.com")
              (matching (text "a") (text "HOME.example.com") all)
            ≡ ok (some old_record)))
find_record-Fetched_example =
    find_record-Fetched sample_api sample_client none (text "z1") (text "a")
      (text "HOME.example.com") (some old_record) sample_session found_session

abbrev sample_account : Text
sample_account = text "0123456789ABCDEF0123456789abcdef"

abbrev sample_target : VerificationTarget
sample_target = account (text "0123456789abcdef0123456789abcdef")

target_selected :
    select_verification_target (text "cfat_secret") (some sample_account) ≡ ok sample_target
unfolding select_verification_target trim text len is_ascii_hexdigit starts_with to_ascii_lowercase
target_selected = refl

select_verification_target-MayVerify_example :
    (normalized : Option Text) × (normalize_account_id (some sample_account) ≡ ok normalized)
    × (sample_target ≡ target_of normalized)
    × MayVerify (text "cfat_secret") normalized
select_verification_target-MayVerify_example =
    select_verification_target-MayVerify (text "cfat_secret") (some sample_account) sample_target
      target_selected

len-sanitize_and_truncate_example : len (sanitize_and_truncate (text "a\nb") 2) ≤ 2
len-sanitize_and_truncate_example = len-sanitize_and_truncate (text "a\nb") 2

sanitize_and_truncate-clean_example :
    all (λ c. not (is_control c)) (sanitize_and_truncate (text "a\nb") 2) ≡ true
sanitize_and_truncate-clean_example = sanitize_and_truncate-clean (text "a\nb") 2

kept_zone :
    cache_get
      (text "l")
      (cache_forget (text "Z2") ((text "k", text "z2") ∷ (text "l", text "z1") ∷ []))
    ≡ some (text "z1")
unfolding cache_get cache_forget eq_ignore_ascii_case text
kept_zone = refl

cache_get-cache_forget_example : eq_ignore_ascii_case (text "z1") (text "Z2") ≡ false
cache_get-cache_forget_example =
    cache_get-cache_forget (text "l") (text "Z2") (text "z1")
      ((text "k", text "z2") ∷ (text "l", text "z1") ∷ []) kept_zone
