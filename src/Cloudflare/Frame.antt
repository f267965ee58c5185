-- ===== src/Cloudflare/Frame.antt =====
-- What the operations of the Cloudflare client send, as an account of a session's requests.
pub mod Calls
use cirrusync.Prelude.{
  ℕ, zero, suc, ◌+◌, ◌≡◌, refl, sym, ◌∙◌, true, false, List, [], ◌∷◌, arith, if◌then◌else◌, ap, All,
  All-append, append_assoc, Bool-cases, inl, inr, ◌++◌, Result,
}
use cirrusync.Cloudflare.Client.{
  is_mutation, Sent, Session, Reply, expired, failed, done, Call, bind_reply, ◌>>=◌, lift,
}

unfoldable pub mutations : List Sent → ℕ
mutations [] = 0
mutations (x ∷ xs) = if is_mutation x.request then suc (mutations xs) else mutations xs

-- The `mutation_in_flight` flag stood exactly while a mutation was awaited.
abbrev pub WellFlagged : List Sent → Type 0
WellFlagged = All (λ x. x.flagged ≡ is_mutation x.request)

-- From `s` to `t` the requests `new` were sent, the newest first, exactly `n` of them mutations, and
-- the flag told these from the other requests.
pub record Logs {W : Type 0} (n : ℕ) (s t : Session W) : Type 0 where
  pub new : List Sent
  pub appended : t.sent ≡ new ++ s.sent
  pub mutating : mutations new ≡ n
  pub flag : t.mutation_in_flight ≡ s.mutation_in_flight
  pub flags : s.mutation_in_flight ≡ false → WellFlagged new

-- From a session with the flag down to `t`: `n` mutations were sent, the flag is down again, and
-- it told the mutations from the other requests.
pub record Sends {W : Type 0} (n : ℕ) (s t : Session W) : Type 0 where
  pub counted : mutations t.sent ≡ mutations s.sent + n
  pub flag_down : t.mutation_in_flight ≡ false
  pub well_flagged : WellFlagged t.sent

pub mutations-append : (xs ys : List Sent) → mutations (xs ++ ys) ≡ mutations xs + mutations ys
unfolding mutations
mutations-append [] ys = omega arith
mutations-append (x ∷ xs) ys = ground (arith, mutations-append xs ys)

-- Without a mutation, every request reads.
pub mutations-reads :
    (xs : List Sent) → mutations xs ≡ 0 → All (λ x. is_mutation x.request ≡ false) xs
unfolding mutations
mutations-reads [] h = tt
mutations-reads (x ∷ xs) h = elim (Bool-cases (is_mutation x.request)) [
  | inl m ↦ absurd (ground (arith, m, h))
  | inr m ↦ (m, mutations-reads xs (ground (arith, m, h)))
]

module _ {W : Type 0} where
  pub Logs-Sends :
      {n : ℕ} {s t : Session W}
      → s.mutation_in_flight ≡ false
      → WellFlagged s.sent
      → Logs n s t
      → Sends n s t
  Logs-Sends {s = s} f w l = record {
    counted = ap mutations l.appended ∙ omega (arith, mutations-append l.new s.sent, l.mutating);
    flag_down = l.flag ∙ f;
    well_flagged = rw l.appended (All-append _ l.new s.sent (l.flags f) w);
  }

  pub Logs-same :
      (s t : Session W) → t.sent ≡ s.sent → t.mutation_in_flight ≡ s.mutation_in_flight → Logs 0 s t
  unfolding mutations
  Logs-same s t e f = record { new = []; appended = e; mutating = refl; flag = f; flags = λ _. tt }

  pub Logs-refl : (s : Session W) → Logs 0 s s
  Logs-refl s = Logs-same s s refl refl

  pub Logs-trans : {m n : ℕ} {s t u : Session W} → Logs m s t → Logs n t u → Logs (m + n) s u
  Logs-trans {s = s} a b = record {
    new = b.new ++ a.new;
    appended =
        b.appended ∙ ap (λ xs. b.new ++ xs) a.appended ∙ sym (append_assoc b.new a.new s.sent);
    mutating = omega (arith, mutations-append b.new a.new, a.mutating, b.mutating);
    flag = b.flag ∙ a.flag;
    flags = λ e. All-append _ b.new a.new (b.flags (a.flag ∙ e)) (a.flags e);
  }

  pub Logs-then : {n : ℕ} {s t u : Session W} → Logs 0 s t → Logs n t u → Logs n s u
  Logs-then a b =
      let l = Logs-trans a b in
      record {
        new = l.new;
        appended = l.appended;
        mutating = omega (arith, l.mutating);
        flag = l.flag;
        flags = l.flags;
      }

  -- A chain of calls of which none sends a mutation sends none.
  pub Logs-bind_reply :
      {A B E : Type 0} (s : Session W) (r : Reply A E) (t : Session W) (f : A → Call W B E)
      → Logs 0 s t
      → ((a : A) → Logs 0 t (f a t).1)
      → Logs 0 s (bind_reply r t f).1
  Logs-bind_reply s expired t f h k = h
  Logs-bind_reply s (failed e) t f h k = h
  Logs-bind_reply s (done a) t f h k = Logs-then h (k a)

  pub Logs->>= :
      {A B E : Type 0} (s : Session W) (m : Call W A E) (f : A → Call W B E)
      → Logs 0 s (m s).1
      → ((a : A) (t : Session W) → Logs 0 t (f a t).1)
      → Logs 0 s ((m >>= f) s).1
  unfolding ◌>>=◌
  Logs->>= s m f h k = Logs-bind_reply s (m s).0 (m s).1 f h λ a. k a (m s).1

  pub Logs-lift : {A E : Type 0} (r : Result A E) (s : Session W) → Logs 0 s (lift r s).1
  Logs-lift r s = Logs-refl s
