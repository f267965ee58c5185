-- ===== src/Cloudflare/Records/Find.antt =====
-- The search of a record among those of the fetched pages, for `find_record` in src/cloudflare.rs.
use cirrusync.Prelude.{
  ◌≡◌, refl, inl, inr, Option, none, some, List, [], ◌∷◌, ◌++◌, if◌then◌else◌, Result, ok, err,
  Bool-cases,
}
use cirrusync.Prelude.Strings.{Text}
use cirrusync.Cloudflare.{DnsRecord, CloudflareError, ambiguous_record}
use cirrusync.Cloudflare.Records.{is_match, match_records}

-- The records of the name and the type, and what they come to.
unfoldable pub matching : Text → Text → List DnsRecord → List DnsRecord
matching record_type name [] = []
matching record_type name (r ∷ rs) =
    if is_match record_type name r
    then r ∷ matching record_type name rs
    else matching record_type name rs

unfoldable pub verdict : Text → Text → List DnsRecord → Result (Option DnsRecord) CloudflareError
verdict record_type name [] = ok none
verdict record_type name (r ∷ []) = ok (some r)
verdict record_type name (r ∷ s ∷ rs) = err (ambiguous_record record_type name)

abbrev pub of_option : {A : Type 0} → Option A → List A
of_option none = []
of_option (some a) = a ∷ []

module _ (record_type name : Text) where
  match_records-some :
      (old : DnsRecord) (rs : List DnsRecord)
      → match_records record_type name (some old) rs
        ≡ verdict record_type name (old ∷ matching record_type name rs)
  unfolding match_records matching verdict
  match_records-some old [] = refl
  match_records-some old (r ∷ rs) = elim (Bool-cases (is_match record_type name r)) [
    | inl h ↦ rw (match_records, matching, h) refl
    | inr h ↦ rw (match_records, matching, h) (match_records-some old rs)
  ]

  -- The one match of a list of records is found; without one nothing is, and with more the search
  -- fails.
  pub match_records-verdict :
      (found : Option DnsRecord) (rs : List DnsRecord)
      → match_records record_type name found rs
        ≡ verdict record_type name (of_option found ++ matching record_type name rs)
  unfolding match_records matching verdict
  match_records-verdict none [] = refl
  match_records-verdict none (r ∷ rs) = elim (Bool-cases (is_match record_type name r)) [
    | inl h ↦ rw (match_records, matching, h) (match_records-some r rs)
    | inr h ↦ rw (match_records, matching, h) (match_records-verdict none rs)
  ]
  match_records-verdict (some old) rs = match_records-some old rs
