-- ===== src/Updater/Plan/Effects.antt =====
-- What planning and carrying out a plan send, for src/updater.rs.
use cirrusync.Prelude.{
  List, ◌++◌, map, ℕ, ◌≡◌, refl, sym, ◌≢◌, Result, ok, err, ap, ◌∙◌, Bool, true, false, Option,
  none, some, ◌∷◌, [],
}
use cirrusync.Prelude.Strings.{Text, text}
use cirrusync.PublicIp.{IpAddr}
use cirrusync.Config.{RecordConfig}
use cirrusync.Cloudflare.{DnsRecord, CloudflareError}
use cirrusync.Cloudflare.Client.{
  Api, Client, Request, patch, post, is_mutation, Sent, Session, Reply, expired, failed, done, Call,
  bind_reply, ◌>>=◌, return, map_reply_err, of_result,
}
use cirrusync.Cloudflare.Client.Send.{await_exchange, answered, send}
use cirrusync.Cloudflare.Zones.{
  forget_if, forget_on_error, invalidate_zone_after_not_found, checking_zone,
}
use cirrusync.Cloudflare.Records.{mutate, update_record, create_record}
use cirrusync.Cloudflare.Frame.{
  mutations, WellFlagged, Logs, Sends, Logs-Sends, Logs-refl, Logs->>=,
}
use cirrusync.Cloudflare.Frame.Calls.{send-sent, resolve_zone_id-Logs, find_record-Logs}
use cirrusync.Updater.Host.{Host}
use cirrusync.Updater.Plan.{
  RecordPlan, update, create, plan_absent, plan_found, plan_record, during_mutation,
  execute_record_plan,
}

-- The mutations that a plan stands for.
unfoldable pub planned_mutations : RecordPlan → ℕ
planned_mutations RecordPlan.unchanged = 0
planned_mutations (update zone_id record_id payload) = 1
planned_mutations (create zone_id payload) = 1

-- The requests that carry a plan out: a PATCH of the record, or a POST to the zone's records.
abbrev pub planned_requests : RecordPlan → List Request
planned_requests RecordPlan.unchanged = []
planned_requests (update zone_id record_id payload) =
    patch (text "zones" ∷ zone_id ∷ text "dns_records" ∷ record_id ∷ []) payload ∷ []
planned_requests (create zone_id payload) =
    post (text "zones" ∷ zone_id ∷ text "dns_records" ∷ []) payload ∷ []

abbrev pub sent_flagged : List Request → List Sent
sent_flagged = map (λ r. record { request = r; flagged = true })

module _ {W : Type 0} where
  bind_reply-return :
      {A B E : Type 0} (r : Reply A E) (s : Session W) (g : A → B)
      → (bind_reply r s (λ a. return (g a))).1 ≡ s
  bind_reply-return expired s g = refl
  bind_reply-return (failed e) s g = refl
  bind_reply-return (done a) s g = refl

  -- A call whose result is replaced.
  Logs-return :
      {A B E : Type 0} {n : ℕ} (s : Session W) (m : Call W A E) (g : A → B)
      → Logs n s (m s).1
      → Logs n s ((m >>= λ a. return (g a)) s).1
  unfolding ◌>>=◌
  Logs-return s m g h = rw (bind_reply-return (m s).0 (m s).1 g) h

  bind_reply-return-settled :
      {A B E : Type 0} (r : Reply A E) (t : Session W) (g : A → B)
      → r ≢ expired
      → (bind_reply r t (λ a. return (g a))).0 ≢ expired
  bind_reply-return-settled expired t g h e = h refl
  bind_reply-return-settled (failed x) t g h e = cc
  bind_reply-return-settled (done x) t g h e = cc

  >>=-return-settled :
      {A B E : Type 0} (s : Session W) (m : Call W A E) (g : A → B)
      → (m s).0 ≢ expired
      → ((m >>= λ a. return (g a)) s).0 ≢ expired
  unfolding ◌>>=◌
  >>=-return-settled s m g h = bind_reply-return-settled (m s).0 (m s).1 g h

map_reply_err-settled :
    {A E F : Type 0} (r : Reply A E) (g : E → F) → r ≢ expired → map_reply_err r g ≢ expired
map_reply_err-settled expired g h e = h refl
map_reply_err-settled (failed x) g h e = cc
map_reply_err-settled (done x) g h e = cc

of_result-settled : {A E : Type 0} (r : Result A E) → of_result r ≢ expired
of_result-settled (ok a) e = cc
of_result-settled (err x) e = cc

module _ (net : Api) (client : Client) (limit : Option ℕ) where
  open net use {World, decode_record}

  if-sent :
      (b : Bool) (zone_id : Text) (s : Session World)
      → ((forget_if net b zone_id s).sent ≡ s.sent)
        × ((forget_if net b zone_id s).mutation_in_flight ≡ s.mutation_in_flight)
  unfolding forget_if
  if-sent true zone_id s = (refl, refl)
  if-sent false zone_id s = (refl, refl)

  forget_on_error-sent :
      {A : Type 0} (zone_id : Text) (r : Reply A CloudflareError) (s : Session World)
      → ((forget_on_error net zone_id (r, s)).1.sent ≡ s.sent)
        × ((forget_on_error net zone_id (r, s)).1.mutation_in_flight ≡ s.mutation_in_flight)
  unfolding forget_on_error invalidate_zone_after_not_found
  forget_on_error-sent zone_id expired s = (refl, refl)
  forget_on_error-sent zone_id (failed e) s = if-sent _ zone_id s
  forget_on_error-sent zone_id (done a) s = (refl, refl)

  -- A change of a record is one request, whatever comes back.
  pub mutate-sent :
      (zone_id operation : Text) (request : Request) (s : Session World)
      → ((mutate net client limit zone_id operation request s).1.sent
          ≡ record { request = request; flagged = s.mutation_in_flight } ∷ s.sent)
        × ((mutate net client limit zone_id operation request s).1.mutation_in_flight
            ≡ s.mutation_in_flight)
  unfolding mutate ◌>>=◌ checking_zone
  mutate-sent zone_id operation request s =
      let sending = send net client limit operation decode_record request s in
      let (e, f) = send-sent net client limit operation decode_record request s in
      let (e', f') = forget_on_error-sent zone_id sending.0 sending.1 in
      let checked = forget_on_error net zone_id sending in
      let back = bind_reply-return checked.0 checked.1 (λ response. response.result) in
      (ap (λ t. t.sent) back ∙ e' ∙ e, ap (λ t. t.mutation_in_flight) back ∙ f' ∙ f)

  forget_on_error-settled :
      {A : Type 0} (zone_id : Text) (r : Reply A CloudflareError) (s : Session World)
      → r ≢ expired
      → (forget_on_error net zone_id (r, s)).0 ≢ expired
  unfolding forget_on_error
  forget_on_error-settled zone_id expired s h e = h refl
  forget_on_error-settled zone_id (failed x) s h e = cc
  forget_on_error-settled zone_id (done x) s h e = cc

module _ (net : Api) (client : Client) where
  open net use {World, decode_record}

  pub mutate-settled :
      (zone_id operation : Text) (request : Request) (s : Session World)
      → (mutate net client none zone_id operation request s).0 ≢ expired
  unfolding mutate checking_zone send await_exchange answered
  mutate-settled zone_id operation request s =
      >>=-return-settled s
        (checking_zone net zone_id (send net client none operation decode_record request))
        (λ response. response.result)
        (forget_on_error-settled net client none zone_id _ _ (of_result-settled _))

module _ (host : Host) (client : Client) where
  open host use {api, ip}

  during_mutation-Logs :
      {A E : Type 0} (m : Call api.World A E) (request : Request) (s : Session api.World)
      → is_mutation request ≡ true
      → s.mutation_in_flight ≡ false
      → ((t : Session api.World)
          → (m t).1.sent ≡ record { request = request; flagged = t.mutation_in_flight } ∷ t.sent)
      → Logs 1 s (during_mutation host client m s).1
  unfolding during_mutation mutations
  during_mutation-Logs m request s h f e = record {
    new = record { request = request; flagged = true } ∷ [];
    appended = e _;
    mutating = rw (mutations, h) refl;
    flag = sym f;
    flags = λ g. (sym h, tt);
  }

  pub execute_record_plan-Logs :
      (plan : RecordPlan) (s : Session api.World)
      → s.mutation_in_flight ≡ false
      → Logs (planned_mutations plan) s (execute_record_plan host client plan s).1
  unfolding execute_record_plan planned_mutations is_mutation update_record create_record
  execute_record_plan-Logs RecordPlan.unchanged s f = Logs-refl s
  execute_record_plan-Logs (update zone_id record_id payload) s f = Logs-return s _ _ (
      during_mutation-Logs (update_record api client none zone_id record_id payload) _ s refl f
        λ t. (mutate-sent api client none zone_id _ _ t).0)
  execute_record_plan-Logs (create zone_id payload) s f = Logs-return s _ _ (
      during_mutation-Logs (create_record api client none zone_id payload) _ s refl f
        λ t. (mutate-sent api client none zone_id _ _ t).0)

  -- No deadline cuts a mutation off.
  pub execute_record_plan-settled :
      (plan : RecordPlan) (s : Session api.World)
      → (execute_record_plan host client plan s).0 ≢ expired
  unfolding execute_record_plan update_record create_record during_mutation
  execute_record_plan-settled RecordPlan.unchanged s = λ e. cc
  execute_record_plan-settled (update zone_id record_id payload) s =
      >>=-return-settled s _ _ (map_reply_err-settled _ _ (mutate-settled api client zone_id _ _ _))
  execute_record_plan-settled (create zone_id payload) s =
      >>=-return-settled s _ _ (map_reply_err-settled _ _ (mutate-settled api client zone_id _ _ _))

  plan_absent-Logs :
      (b : Bool) (limit : Option ℕ) (r : RecordConfig) (address : IpAddr) (zone_id : Text)
      (s : Session api.World)
      → Logs 0 s (plan_absent host client b limit r address zone_id s).1
  unfolding plan_absent
  plan_absent-Logs false limit r address zone_id s = Logs-refl s
  plan_absent-Logs true limit r address zone_id s =
      Logs->>= s _ _ (find_record-Logs api client limit zone_id _ r.name s) λ o t. Logs-refl t

  plan_found-Logs :
      (limit : Option ℕ) (r : RecordConfig) (address : IpAddr) (zone_id : Text)
      (found : Option DnsRecord) (s : Session api.World)
      → Logs 0 s (plan_found host client limit r address zone_id found s).1
  unfolding plan_found
  plan_found-Logs limit r address zone_id (some existing) s = Logs-refl s
  plan_found-Logs limit r address zone_id none s =
      plan_absent-Logs r.create_if_missing limit r address zone_id s

  pub plan_record-Logs :
      (limit : Option ℕ) (r : RecordConfig) (address : IpAddr) (s : Session api.World)
      → Logs 0 s (plan_record host client limit r address s).1
  unfolding plan_record
  plan_record-Logs limit r address s =
      Logs->>= s _ _ (resolve_zone_id-Logs api client limit r.zone r.zone_id s) λ zone_id t.
        Logs->>= t _ _ (find_record-Logs api client limit zone_id _ r.name t)
          λ o u. plan_found-Logs limit r address zone_id o u

  -- Carrying out a plan sends the requests that it stands for, and no others.
  execute_record_plan-sent :
      (plan : RecordPlan) (s : Session api.World)
      → (execute_record_plan host client plan s).1.sent
        ≡ sent_flagged (planned_requests plan) ++ s.sent
  unfolding execute_record_plan update_record create_record during_mutation ◌>>=◌
  execute_record_plan-sent RecordPlan.unchanged s = refl
  execute_record_plan-sent (update zone_id record_id payload) s =
      ap (λ t. t.sent) (bind_reply-return _ _ _) ∙ (mutate-sent api client none zone_id _ _ _).0
  execute_record_plan-sent (create zone_id payload) s =
      ap (λ t. t.sent) (bind_reply-return _ _ _) ∙ (mutate-sent api client none zone_id _ _ _).0

  -- From a session with the flag down and a log that fits it, planning sends no mutation. Carrying
  -- out an update sends one PATCH of the plan's record in its zone, a creation one POST to its
  -- zone's records, each with the plan's payload, and an unchanged record nothing; the flag that
  -- guards a shutdown stands while that request is awaited and at no other time.
  pub plan_and_execute-Sends :
      (limit : Option ℕ) (r : RecordConfig) (address : IpAddr) (plan : RecordPlan)
      (s : Session api.World)
      → s.mutation_in_flight ≡ false
      → WellFlagged s.sent
      → Sends 0 s (plan_record host client limit r address s).1
        × Sends (planned_mutations plan) s (execute_record_plan host client plan s).1
        × ((execute_record_plan host client plan s).1.sent
            ≡ sent_flagged (planned_requests plan) ++ s.sent)
  plan_and_execute-Sends limit r address plan s f w = (
    Logs-Sends f w (plan_record-Logs limit r address s),
    Logs-Sends f w (execute_record_plan-Logs plan s f),
    execute_record_plan-sent plan s,
  )
