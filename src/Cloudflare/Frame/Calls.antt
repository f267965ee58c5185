-- ===== src/Cloudflare/Frame/Calls.antt =====
-- What each operation of the Cloudflare client sends, for src/cloudflare.rs.
use cirrusync.Prelude.{
  ℕ, zero, suc, ◌+◌, ◌≡◌, refl, sym, ◌∙◌, Bool, true, false, Option, none, some, [], ◌∷◌, arith,
  if◌then◌else◌, length,
}
use cirrusync.Prelude.Strings.{Text}
use cirrusync.Cloudflare.{CloudflareError, DnsRecord, zone_page_size, record_page_size}
use cirrusync.Cloudflare.Errors.{is_not_found}
use cirrusync.Cloudflare.Client.{
  Request, is_mutation, Api, Client, Session, Reply, expired, failed, done, Call, return, Decode,
}
use cirrusync.Cloudflare.Client.Send.{send, await_exchange, has_next_page}
use cirrusync.Cloudflare.Zones.{
  cache_get, forget_if, invalidate_zone_after_not_found, forget_on_error, checking_zone,
  insert_cache, verify_token, ask_explicit, cached_or, resolve_explicit_zone_id, zone_query,
  zone_pages, resolve_named_zone_id, resolve_zone_id, explicit_key, named_key, Matches,
}
use cirrusync.Cloudflare.Records.{record_query, fetch_page, record_pages, find_record}
use cirrusync.Cloudflare.Frame.{mutations, Logs, Logs-same, Logs-refl, Logs-then, Logs->>=}

module _ (net : Api) where
  open net use {World}

  await_exchange-sent :
      (limit : Option ℕ) (request : Request) (s : Session World)
      → ((await_exchange net limit request s).1.sent
          ≡ record { request = request; flagged = s.mutation_in_flight } ∷ s.sent)
        × ((await_exchange net limit request s).1.mutation_in_flight ≡ s.mutation_in_flight)
  unfolding await_exchange
  await_exchange-sent none request s = (refl, refl)
  await_exchange-sent (some d) request s = ground arith

  module _ (client : Client) (limit : Option ℕ) where
    pub send-sent :
        {T : Type 0} (operation : Text) (decode : Decode T) (request : Request) (s : Session World)
        → ((send net client limit operation decode request s).1.sent
            ≡ record { request = request; flagged = s.mutation_in_flight } ∷ s.sent)
          × ((send net client limit operation decode request s).1.mutation_in_flight
              ≡ s.mutation_in_flight)
    unfolding send
    send-sent operation decode request s = await_exchange-sent limit request s

    send-Logs :
        {T : Type 0} (operation : Text) (decode : Decode T) (request : Request) (s : Session World)
        → is_mutation request ≡ false
        → Logs 0 s (send net client limit operation decode request s).1
    unfolding mutations
    send-Logs operation decode request s h =
        let p = send-sent operation decode request s in
        record {
          new = record { request = request; flagged = s.mutation_in_flight } ∷ [];
          appended = p.0;
          mutating = rw (mutations, h) refl;
          flag = p.1;
          flags = λ e. (e ∙ sym h, tt);
        }

  forget_if-Logs :
      (b : Bool) (zone_id : Text) (s : Session World) → Logs 0 s (forget_if net b zone_id s)
  unfolding forget_if
  forget_if-Logs true zone_id s = Logs-same s _ refl refl
  forget_if-Logs false zone_id s = Logs-refl s

  forget_on_error-Logs :
      {A : Type 0} (zone_id : Text) (r : Reply A CloudflareError) (s : Session World)
      → Logs 0 s (forget_on_error net zone_id (r, s)).1
  unfolding forget_on_error invalidate_zone_after_not_found
  forget_on_error-Logs zone_id expired s = Logs-refl s
  forget_on_error-Logs zone_id (failed e) s = forget_if-Logs (is_not_found e) zone_id s
  forget_on_error-Logs zone_id (done a) s = Logs-refl s

  pub checking_zone-Logs :
      {A : Type 0} (zone_id : Text) (m : Call World A CloudflareError) (s : Session World)
      → Logs 0 (m s).1 (checking_zone net zone_id m s).1
  unfolding checking_zone
  checking_zone-Logs zone_id m s = forget_on_error-Logs zone_id (m s).0 (m s).1

  module _ (client : Client) (limit : Option ℕ) where
    pub cached_or-Logs :
        (o : Option Text) (ask : Call World Text CloudflareError) (s : Session World)
        → Logs 0 s (ask s).1
        → Logs 0 s (cached_or net client limit o ask s).1
    unfolding cached_or
    cached_or-Logs none ask s h = h
    cached_or-Logs (some id) ask s h = Logs-refl s

    ask_explicit-Logs :
        (zone_name zone_id : Text) (s : Session World)
        → Logs 0 s (ask_explicit net client limit zone_name zone_id s).1
    unfolding ask_explicit insert_cache is_mutation
    ask_explicit-Logs zone_name zone_id s =
        Logs->>= s _ _ (send-Logs client limit _ _ _ s refl)
          λ response t. Logs->>= t _ _ (Logs-refl t) λ id u. Logs-same u _ refl refl

    pub resolve_explicit_zone_id-Logs :
        (zone_name zone_id : Text) (s : Session World)
        → Logs 0 s (resolve_explicit_zone_id net client limit zone_name zone_id s).1
    unfolding resolve_explicit_zone_id
    resolve_explicit_zone_id-Logs zone_name zone_id s =
        cached_or-Logs (cache_get (explicit_key zone_id zone_name) s.zone_cache)
          (ask_explicit net client limit zone_name zone_id) s
          (ask_explicit-Logs zone_name zone_id s)

    if-Logs :
        {A : Type 0} (b : Bool) (next last : Call World A CloudflareError) (s : Session World)
        → Logs 0 s (next s).1
        → Logs 0 s (last s).1
        → Logs 0 s ((if b then next else last) s).1
    if-Logs true next last s h k = h
    if-Logs false next last s h k = k

    zone_pages-Logs :
        (left : ℕ) (zone_name : Text) (page : ℕ) (found : Matches) (s : Session World)
        → Logs 0 s (zone_pages net client limit left zone_name page found s).1
    unfolding zone_pages insert_cache zone_query is_mutation
    zone_pages-Logs zero zone_name page found s = Logs-refl s
    zone_pages-Logs (suc left) zone_name page found s =
        Logs->>= s _ _ (send-Logs client limit _ _ _ s refl) λ response t.
          Logs->>= t _ _ (Logs-refl t) λ found' u.
            if-Logs
              (has_next_page page (length response.result) zone_page_size response.result_info)
              (zone_pages net client limit left zone_name (page + 1) found') _ u
              (zone_pages-Logs left zone_name (page + 1) found' u)
              (Logs->>= u _ _ (Logs-refl u) λ id v. Logs-same v _ refl refl)

    pub resolve_named_zone_id-Logs :
        (zone_name : Text) (s : Session World)
        → Logs 0 s (resolve_named_zone_id net client limit zone_name s).1
    unfolding resolve_named_zone_id
    resolve_named_zone_id-Logs zone_name s =
        cached_or-Logs (cache_get (named_key zone_name) s.zone_cache)
          (zone_pages net client limit 100 zone_name 1 (none, none)) s
          (zone_pages-Logs 100 zone_name 1 (none, none) s)

    pub resolve_zone_id-Logs :
        (zone_name : Text) (zone_id : Option Text) (s : Session World)
        → Logs 0 s (resolve_zone_id net client limit zone_name zone_id s).1
    unfolding resolve_zone_id
    resolve_zone_id-Logs zone_name none s = resolve_named_zone_id-Logs zone_name s
    resolve_zone_id-Logs zone_name (some zone_id) s =
        resolve_explicit_zone_id-Logs zone_name zone_id s

    fetch_page-Logs :
        (zone_id record_type name : Text) (page : ℕ) (s : Session World)
        → Logs 0 s (fetch_page net client limit zone_id record_type name page s).1
    unfolding fetch_page record_query is_mutation
    fetch_page-Logs zone_id record_type name page s =
        Logs-then (send-Logs client limit _ _ _ s refl) (checking_zone-Logs zone_id _ s)

    record_pages-Logs :
        (left : ℕ) (zone_id record_type name : Text) (page : ℕ) (found : Option DnsRecord)
        (s : Session World)
        → Logs 0 s (record_pages net client limit left zone_id record_type name page found s).1
    unfolding record_pages
    record_pages-Logs zero zone_id record_type name page found s = Logs-refl s
    record_pages-Logs (suc left) zone_id record_type name page found s =
        Logs->>= s _ _ (fetch_page-Logs zone_id record_type name page s) λ response t.
          Logs->>= t _ _ (Logs-refl t) λ found' u.
            if-Logs
              (has_next_page page (length response.result) record_page_size response.result_info)
              (record_pages net client limit left zone_id record_type name (page + 1) found')
              (return found') u
              (record_pages-Logs left zone_id record_type name (page + 1) found' u) (Logs-refl u)

    pub find_record-Logs :
        (zone_id record_type name : Text) (s : Session World)
        → Logs 0 s (find_record net client limit zone_id record_type name s).1
    unfolding find_record
    find_record-Logs zone_id record_type name s =
        record_pages-Logs 100 zone_id record_type name 1 none s

    pub verify_token-Logs : (s : Session World) → Logs 0 s (verify_token net client limit s).1
    unfolding verify_token is_mutation
    verify_token-Logs s =
        Logs->>= s _ _ (send-Logs client limit _ _ _ s refl) λ response t. Logs-refl t
