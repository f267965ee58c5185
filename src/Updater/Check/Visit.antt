-- ===== src/Updater/Check/Visit.antt =====
-- What the visits of a check send and report, for `check_records` in src/updater.rs.
use cirrusync.Prelude.{
  ℕ, ◌+◌, ◌≤◌, ◌≡◌, refl, sym, ap, ◌∙◌, Bool, true, false, List, [], ◌∷◌, ◌++◌, arith, length,
  length-append, append_assoc, All, All-append, if◌then◌else◌,
}
use cirrusync.Prelude.Dict.{text_equality}
use cirrusync.Cloudflare.Client.{Request, get, patch, patch_probe, post, is_mutation, Sent, Session}
use cirrusync.Cloudflare.Frame.{mutations, mutations-append, mutations-reads, WellFlagged, Logs}
use cirrusync.Updater.{CycleFailure, CheckReport}
use cirrusync.Updater.Check.Proofs.Tracking.{IsTracking}
use cirrusync.Updater.Check.{Progress, add_to_report}

-- What a check may send: reads, an edit probe where probing is allowed, and a creation where
-- creating is. It never replaces a record.
unfoldable pub may_send : Bool → Bool → Request → Bool
may_send allow_create allow_edit_probe (get path query) = true
may_send allow_create allow_edit_probe (patch path payload) = false
may_send allow_create allow_edit_probe (patch_probe path payload) = allow_edit_probe
may_send allow_create allow_edit_probe (post path payload) = allow_create

-- The records that a report accounts for.
abbrev pub settled : CheckReport → ℕ
settled r = r.existing + r.creatable + r.created

abbrev pub failure_count : CheckReport → ℕ
failure_count r = length r.failures

-- From `s` to `t` the requests `new` were sent, each of them permitted.
pub record Asks {W : Type 0} (c p : Bool) (s t : Session W) : Type 0 where
  pub new : List Sent
  pub appended : t.sent ≡ new ++ s.sent
  pub permitted : All (λ x. may_send c p x.request ≡ true) new
  pub flag : t.mutation_in_flight ≡ s.mutation_in_flight
  pub flags : s.mutation_in_flight ≡ false → WellFlagged new

module _ (c p : Bool) where
  read-may_send : (r : Request) → is_mutation r ≡ false → may_send c p r ≡ true
  unfolding may_send is_mutation
  read-may_send (get path query) h = refl
  read-may_send (patch path payload) h = cc
  read-may_send (patch_probe path payload) h = cc
  read-may_send (post path payload) h = cc

  reads-may_send :
      (xs : List Sent)
      → All (λ x. is_mutation x.request ≡ false) xs
      → All (λ x. may_send c p x.request ≡ true) xs
  reads-may_send [] h = tt
  reads-may_send (x ∷ xs) h = (read-may_send x.request h.0, reads-may_send xs h.1)

module _ {W : Type 0} (c p : Bool) where
  pub Asks-reads : {s t : Session W} → Logs 0 s t → Asks c p s t
  Asks-reads l = record {
    new = l.new;
    appended = l.appended;
    permitted = reads-may_send c p l.new (mutations-reads l.new l.mutating);
    flag = l.flag;
    flags = l.flags;
  }

  pub Asks-same :
      (s t : Session W)
      → t.sent ≡ s.sent
      → t.mutation_in_flight ≡ s.mutation_in_flight
      → Asks c p s t
  Asks-same s t e f = record { new = []; appended = e; permitted = tt; flag = f; flags = λ _. tt }

module _ {W : Type 0} {c p : Bool} where
  -- It computes, for the requests of the two parts are spoken of.
  abbrev pub Asks-then : {s t v : Session W} → Asks c p s t → Asks c p t v → Asks c p s v
  Asks-then {s = s} a b = record {
    new = b.new ++ a.new;
    appended =
        b.appended ∙ ap (λ xs. b.new ++ xs) a.appended ∙ sym (append_assoc b.new a.new s.sent);
    permitted = All-append _ b.new a.new b.permitted a.permitted;
    flag = b.flag ∙ a.flag;
    flags = λ h. All-append _ b.new a.new (b.flags (a.flag ∙ h)) (a.flags h);
  }

-- What a visit, or a part of one, does: it adds `n` to the records that are accounted for unless
-- it reports a failure, and every zone that it proves and every record that it creates took a
-- mutation.
pub record Step {W : Type 0} (c p : Bool) (n : ℕ) (x : Progress W) (out : Bool × Progress W)
    : Type 0 where
  pub asks : Asks c p x.session out.1.session
  pub proven : length out.1.proofs.proven_ids ≤ length x.proofs.proven_ids + mutations asks.new
  pub created : out.1.report.created ≤ x.report.created + mutations asks.new
  pub tracked : IsTracking x.proofs → IsTracking out.1.proofs
  pub expected_kept : out.1.proofs.expected ≡ x.proofs.expected
  pub failures_kept : failure_count x.report ≤ failure_count out.1.report
  pub settles :
      failure_count out.1.report ≡ 0
      → (out.0 ≡ false) × (settled out.1.report ≡ settled x.report + n)
  pub records_kept : out.1.report.records ≡ x.report.records
  pub authenticated_kept : out.1.report.authenticated ≡ x.report.authenticated

zero_add : (n : ℕ) → 0 + n ≡ n
zero_add n = omega arith

module _ {W : Type 0} (c p : Bool) where
  pub Step-fail :
      {n : ℕ} (x : Progress W) (b : Bool) (f : CycleFailure) → Step c p n x (b, add_to_report f x)
  Step-fail x b f = record {
    asks = Asks-same c p _ _ refl refl;
    proven = omega arith;
    created = omega arith;
    tracked = λ t. t;
    expected_kept = refl;
    failures_kept = omega (arith, length-append x.report.failures (f ∷ []));
    settles = λ h. absurd (omega (arith, h, length-append x.report.failures (f ∷ [])));
    records_kept = refl;
    authenticated_kept = refl;
  }

  pub Step-then :
      {m n k : ℕ} (x y : Progress W) (b : Bool) (out : Bool × Progress W)
      → m + n ≡ k
      → Step c p m x (b, y)
      → Step c p n y out
      → Step c p k x out
  Step-then x y b out e f l = record {
    asks = Asks-then f.asks l.asks;
    proven = omega (arith, f.proven, l.proven, mutations-append l.asks.new f.asks.new);
    created = omega (arith, f.created, l.created, mutations-append l.asks.new f.asks.new);
    tracked = λ t. l.tracked (f.tracked t);
    expected_kept = l.expected_kept ∙ f.expected_kept;
    failures_kept = omega (arith, f.failures_kept, l.failures_kept);
    settles = λ h.
        let (go, added) = l.settles h in
        (go, omega (arith, added, e, (f.settles (omega (arith, h, l.failures_kept))).1));
    records_kept = l.records_kept ∙ f.records_kept;
    authenticated_kept = l.authenticated_kept ∙ f.authenticated_kept;
  }

  -- A step that accounts for no record, and one that follows it.
  pub Step-after :
      {n : ℕ} (x y : Progress W) (b : Bool) (out : Bool × Progress W)
      → Step c p 0 x (b, y)
      → Step c p n y out
      → Step c p n x out
  Step-after x y b out f l = Step-then x y b out (zero_add _) f l

  pub Step-if :
      {n : ℕ} (x : Progress W) (b : Bool) (hit miss : Bool × Progress W)
      → (b ≡ true → Step c p n x hit)
      → (b ≡ false → Step c p n x miss)
      → Step c p n x (if b then hit else miss)
  Step-if x true hit miss h k = h refl
  Step-if x false hit miss h k = k refl

  pub Step-refl : (x : Progress W) → Step c p 0 x (false, x)
  unfolding mutations
  Step-refl x = record {
    asks = Asks-same c p _ _ refl refl;
    proven = omega arith;
    created = omega arith;
    tracked = λ t. t;
    expected_kept = refl;
    failures_kept = omega arith;
    settles = λ h. (refl, omega arith);
    records_kept = refl;
    authenticated_kept = refl;
  }

  -- Requests that change nothing else.
  pub Step-asks :
      (x : Progress W) (t : Session W)
      → Asks c p x.session t
      → Step c p 0 x (false, record x { session = t })
  Step-asks x t a = record {
    asks = a;
    proven = omega arith;
    created = omega arith;
    tracked = λ t. t;
    expected_kept = refl;
    failures_kept = omega arith;
    settles = λ h. (refl, omega arith);
    records_kept = refl;
    authenticated_kept = refl;
  }
