-- ===== src/Cloudflare/Records/Pages.antt =====
-- `find_record` in src/cloudflare.rs against the list of all records on the pages that it fetches.
use cirrusync.Prelude.{
  All, &&-left, &&-right, &&-both, ℕ, zero, suc, ◌+◌, ◌≡◌, refl, sym, ap, ◌∙◌, ◌↔◌, Bool, true,
  false, Option, none, some, List, [], ◌∷◌, ◌++◌, if◌then◌else◌, length, append_assoc, ok,
  Bool-cases, inl, inr,
}
use cirrusync.Prelude.Strings.{Text, text_eq_iff, to_ascii_lowercase, eq_ignore_ascii_case}
use cirrusync.Cloudflare.{DnsRecord, record_page_size, max_pages}
use cirrusync.Cloudflare.Client.{ApiResponse, Api, Client, Session, done, ◌>>=◌, return}
use cirrusync.Cloudflare.Client.Done.{
  if-true, if-false, failed-not-done, lift-done, return-done, >>=-done,
}
use cirrusync.Cloudflare.Client.Send.{has_next_page}
use cirrusync.Cloudflare.Records.{is_match, match_records, fetch_page, record_pages, find_record}
use cirrusync.Cloudflare.Records.Find.{matching, verdict, of_option, match_records-verdict}

true-ne-false : {b : Bool} → b ≡ true → b ≡ false → ⊥
true-ne-false h k = cc

cons-ne-nil : {A : Type 0} {x : A} {xs : List A} → x ∷ xs ≡ [] → ⊥
cons-ne-nil h = cc

head-injective : {A : Type 0} {x y : A} {xs ys : List A} → x ∷ xs ≡ y ∷ ys → x ≡ y
head-injective h = cc

tail-injective : {A : Type 0} {x y : A} {xs ys : List A} → x ∷ xs ≡ y ∷ ys → xs ≡ ys
tail-injective h = cc

module _ (record_type name : Text) where
  matching-append :
      (xs ys : List DnsRecord)
      → matching record_type name (xs ++ ys)
        ≡ matching record_type name xs ++ matching record_type name ys
  unfolding matching
  matching-append [] ys = refl
  matching-append (x ∷ xs) ys = elim (Bool-cases (is_match record_type name x)) [
    | inl h ↦ rw h (ap (λ zs. x ∷ zs) (matching-append xs ys))
    | inr h ↦ rw h (matching-append xs ys)
  ]

  verdict-ok :
      (xs : List DnsRecord) (o : Option DnsRecord)
      → verdict record_type name xs ≡ ok o
      → xs ≡ of_option o
  unfolding verdict
  verdict-ok [] none h = refl
  verdict-ok [] (some r) h = cc
  verdict-ok (r ∷ []) none h = cc
  verdict-ok (r ∷ []) (some s) h = cc
  verdict-ok (r ∷ s ∷ rs) o h = cc

  -- The front of a list with a verdict has one.
  verdict-front :
      (xs ys : List DnsRecord) (o : Option DnsRecord)
      → verdict record_type name (xs ++ ys) ≡ ok o
      → (p : Option DnsRecord) × (verdict record_type name xs ≡ ok p)
  unfolding verdict
  verdict-front [] ys o h = (none, refl)
  verdict-front (r ∷ []) ys o h = (some r, refl)
  verdict-front (r ∷ s ∷ xs) ys o h = cc

  -- What is found so far stands for the matches so far.
  found_so_far :
      (found found' : Option DnsRecord) (rs more : List DnsRecord)
      → match_records record_type name found rs ≡ ok found'
      → of_option found ++ matching record_type name (rs ++ more)
        ≡ of_option found' ++ matching record_type name more
  found_so_far found found' rs more h =
      let e =
        verdict-ok (of_option found ++ matching record_type name rs) found'
          (sym (match_records-verdict record_type name found rs) ∙ h) in
      ap (λ ys. of_option found ++ ys) (matching-append rs more)
      ∙ sym (append_assoc (of_option found) (matching record_type name rs) _)
      ∙ ap (λ xs. xs ++ matching record_type name more) e

  -- Where the matches of a page and of more come to a result, those of the page do.
  front_found :
      (found o : Option DnsRecord) (rs more : List DnsRecord)
      → verdict record_type name (of_option found ++ matching record_type name (rs ++ more)) ≡ ok o
      → (p : Option DnsRecord) × (match_records record_type name found rs ≡ ok p)
  front_found found o rs more v =
      let (p, q) =
        verdict-front (of_option found ++ matching record_type name rs)
          (matching record_type name more) o
          (ap (verdict record_type name) (
              append_assoc (of_option found) (matching record_type name rs) _
              ∙ ap (λ ys. of_option found ++ ys) (sym (matching-append rs more)))
            ∙ v) in
      (p, match_records-verdict record_type name found rs ∙ q)

module _ (net : Api) (client : Client) (limit : Option ℕ) (zone_id record_type name : Text) where
  open net use {World}

  -- Whether the reply to a page announces another one.
  abbrev goes_on : ℕ → ApiResponse (List DnsRecord) → Bool
  goes_on page r = has_next_page page (length r.result) record_page_size r.result_info

  -- The records of all pages from one on, fetched one after the other while a reply announces
  -- another page, of so many pages at most.
  pub data Fetched : ℕ → ℕ → Session World → List DnsRecord → Session World → Type 0 where
    last_page :
        {left page : ℕ} {s t : Session World} (r : ApiResponse (List DnsRecord))
        → fetch_page net client limit zone_id record_type name page s ≡ (done r, t)
        → goes_on page r ≡ false
        → Fetched (suc left) page s r.result t
    and_then :
        {left page : ℕ} {s t u : Session World} {rest : List DnsRecord}
        (r : ApiResponse (List DnsRecord))
        → fetch_page net client limit zone_id record_type name page s ≡ (done r, t)
        → goes_on page r ≡ true
        → Fetched left (page + 1) t rest u
        → Fetched (suc left) page s (r.result ++ rest) u

  abbrev Pages :
      ℕ → ℕ → Option DnsRecord → Option DnsRecord → Session World → Session World → Type 0
  Pages left page found o s t =
      (all : List DnsRecord) × Fetched left page s all t
      × (verdict record_type name (of_option found ++ matching record_type name all) ≡ ok o)

  -- One page of the search, by what its fetch and its records come to.
  page_step :
      (left page : ℕ) (found : Option DnsRecord) (s t : Session World)
      (r : ApiResponse (List DnsRecord)) (found' : Option DnsRecord)
      → fetch_page net client limit zone_id record_type name page s ≡ (done r, t)
      → match_records record_type name found r.result ≡ ok found'
      → record_pages net client limit (suc left) zone_id record_type name page found s
        ≡ (if goes_on page r
              then record_pages net client limit left zone_id record_type name (page + 1) found'
              else return found')
            t
  unfolding record_pages ◌>>=◌
  page_step left page found s t r found' h k = rw (h, k) refl

  -- The search ends with what it ends with on the rest of the pages, or with what it has.
  Fetched-found :
      (left page : ℕ) (found o : Option DnsRecord) (s t : Session World) (all : List DnsRecord)
      → Fetched left page s all t
      → verdict record_type name (of_option found ++ matching record_type name all) ≡ ok o
      → record_pages net client limit left zone_id record_type name page found s ≡ (done o, t)
  Fetched-found left page found o s t all (last_page r h g) v =
      page_step _ page found s t r o h (match_records-verdict record_type name found r.result ∙ v)
      ∙ if-false _ _ _ t g
  Fetched-found left page found o s t all (and_then {rest = rest} r h g more) v =
      let (p, q) = front_found record_type name found o r.result rest v in
      page_step _ page found s _ r p h q
      ∙ if-true _ _ _ _ g
      ∙ Fetched-found _ (page + 1) p o _ t rest more (
          ap (verdict record_type name)
            (sym (found_so_far record_type name found p r.result rest q))
          ∙ v)

  found-Fetched :
      (left page : ℕ) (found o : Option DnsRecord) (s t : Session World)
      → record_pages net client limit left zone_id record_type name page found s ≡ (done o, t)
      → Pages left page found o s t
  unfolding record_pages
  found-Fetched zero page found o s t h = absurd (failed-not-done _ o s t h)
  found-Fetched (suc left) page found o s t h =
      let (r, u, fetched, h1) = >>=-done _ _ s o t h in
      let (p, v, read, h2) = >>=-done _ _ u o t h1 in
      let (q, same) = lift-done (match_records record_type name found r.result) p u v read in
      let step =
        ap
          (if goes_on page r
            then record_pages net client limit left zone_id record_type name (page + 1) p
            else return p)
          same
        ∙ h2 in
      elim (Bool-cases (goes_on page r)) [
        | inl g ↦
            let (all, more, verdict_of) =
              found-Fetched left (page + 1) p o u t (sym (if-true _ _ _ u g) ∙ step) in
            (
              r.result ++ all,
              and_then r fetched g more,
              ap (verdict record_type name) (found_so_far record_type name found p r.result all q)
                  ∙ verdict_of,
            )
        | inr g ↦
            let (kept, ended) = return-done p o u t (sym (if-false _ _ _ u g) ∙ step) in
            (
              r.result,
              last_page r (fetched ∙ ap (λ x. (done r, x)) ended) g,
              sym (match_records-verdict record_type name found r.result) ∙ q ∙ ap ok kept,
            )
      ]

  -- The search is done with an option exactly if all pages could be fetched, one after the other
  -- from the first on until a reply announced no other, 100 at most, and the matching records among
  -- those of all pages come to that option: nothing where there are none, the record where there is
  -- one; more than one have no such verdict.
  pub find_record-Fetched :
      (o : Option DnsRecord) (s t : Session World)
      → (find_record net client limit zone_id record_type name s ≡ (done o, t)) ↔ (
          (all : List DnsRecord) × Fetched max_pages 1 s all t
          × (verdict record_type name (matching record_type name all) ≡ ok o))
  unfolding find_record
  find_record-Fetched o s t = (
    found-Fetched max_pages 1 none o s t,
    λ (all, fetched, v). Fetched-found max_pages 1 none o s t all fetched v,
  )

-- A record with a name and a type, but for the case of ASCII letters.
abbrev pub Same : Text → Text → DnsRecord → Type 0
Same record_type name r =
    (to_ascii_lowercase r.name ≡ to_ascii_lowercase name)
    × (to_ascii_lowercase r.record_type ≡ to_ascii_lowercase record_type)

-- What is picked from a list of records: nothing, where none is of that name and type, or the only
-- one that is.
pub data Picked (record_type name : Text) (all : List DnsRecord) : Option DnsRecord → Type 0 where
  nothing : All (λ x. Same record_type name x → ⊥) all → Picked record_type name all none
  only_one :
      (before after : List DnsRecord) (r : DnsRecord)
      → all ≡ before ++ (r ∷ after)
      → Same record_type name r
      → All (λ x. Same record_type name x → ⊥) (before ++ after)
      → Picked record_type name all (some r)

module _ (record_type name : Text) where
  is_match-Same : (r : DnsRecord) → (is_match record_type name r ≡ true) ↔ Same record_type name r
  unfolding is_match eq_ignore_ascii_case
  is_match-Same r = (
    λ h. ((text_eq_iff _ _).0 (&&-left _ _ h), (text_eq_iff _ _).0 (&&-right _ _ h)),
    λ (n, t). &&-both _ _ ((text_eq_iff _ _).1 n) ((text_eq_iff _ _).1 t),
  )

  not-Same : (r : DnsRecord) → is_match record_type name r ≡ false → Same record_type name r → ⊥
  not-Same r h e = true-ne-false ((is_match-Same r).1 e) h

  matching_none :
      (xs : List DnsRecord)
      → matching record_type name xs ≡ []
      → All (λ x. Same record_type name x → ⊥) xs
  unfolding matching
  matching_none [] h = tt
  matching_none (x ∷ xs) h = elim (Bool-cases (is_match record_type name x)) [
    | inl m ↦
        absurd (
          cons-ne-nil {x = x} {xs = matching record_type name xs} (sym (rw (matching, m) refl) ∙ h))
    | inr m ↦ (not-Same x m, matching_none xs (sym (rw (matching, m) refl) ∙ h))
  ]

  matching_one :
      (xs : List DnsRecord) (r : DnsRecord)
      → matching record_type name xs ≡ r ∷ []
      → Picked record_type name xs (some r)
  unfolding matching
  matching_one [] r h = cc
  matching_one (x ∷ xs) r h = elim (Bool-cases (is_match record_type name x)) [
    | inl m ↦
        let found : x ∷ matching record_type name xs ≡ r ∷ [] = sym (rw (matching, m) refl) ∙ h in
        rw (← head-injective found)
          (only_one [] xs x refl ((is_match-Same x).0 m) (matching_none xs (tail-injective found)))
    | inr m ↦ elim (matching_one xs r (sym (rw (matching, m) refl) ∙ h)) [
      | only_one before after q split same others ↦
          only_one (x ∷ before) after q (ap (λ ys. x ∷ ys) split) same (not-Same x m, others)
    ]
  ]

  matching-Picked :
      (all : List DnsRecord) (o : Option DnsRecord)
      → matching record_type name all ≡ of_option o
      → Picked record_type name all o
  matching-Picked all none h = nothing (matching_none all h)
  matching-Picked all (some r) h = matching_one all r h

-- Where the search is done, it has fetched all pages, and what it found is the only record on them
-- with the name and the type that were asked for, but for the case of ASCII letters; it found
-- nothing where there is none.
pub find_record-Picked :
    (net : Api) (client : Client) (limit : Option ℕ) (zone_id record_type name : Text)
    (o : Option DnsRecord) (s t : Session net.World)
    → find_record net client limit zone_id record_type name s ≡ (done o, t)
    → (all : List DnsRecord) × Fetched net client limit zone_id record_type name max_pages 1 s all t
      × Picked record_type name all o
find_record-Picked net client limit zone_id record_type name o s t h =
    let (all, fetched, v) =
      (find_record-Fetched net client limit zone_id record_type name o s t).0 h in
    (all, fetched, matching-Picked record_type name all o (verdict-ok record_type name _ o v))
