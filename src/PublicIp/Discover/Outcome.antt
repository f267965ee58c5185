-- ===== src/PublicIp/Discover/Outcome.antt =====
-- What `discover` returns, and which requests it makes.
use native.Mathlib.Nat.{div-lt_iff_lt-mul}
use cirrusync.Prelude.{
  ==_iff, ◌⊎◌, false, min, ◌/◌, ◌^◌, ◌<◌, inl, inr, ℕ, ◌-◌, ◌≡◌, refl, sym, ap, ◌∙◌, ◌≢◌, true,
  ◌||◌, Option, none, some, List, [], ◌∷◌, ◌++◌, arith, ◌==◌, length, append_nil, append_assoc,
  Result, ok, err, Result-cases, Bool-cases,
}
use cirrusync.Prelude.Strings.{Text}
use cirrusync.Http.{ReadError, Exchange, replied, failed, read_chunks}
use cirrusync.PublicIp.{
  ProviderError, timed_out, IpAddr, AddressFamily, matches, non_utf8_response, ProviderFailure,
  PublicIpError, no_providers, all_providers_failed, deadline_exceeded, IpText,
}
use cirrusync.PublicIp.Address.{is_public_address}
use cirrusync.PublicIp.Response.{
  max_response_bytes, parse_provider_response, parse_provider_response-ok_iff,
}
use cirrusync.PublicIp.Discover.{
  Timed, elapsed, completed, Network, PublicIpClient, query_provider, read_body,
  redact_provider_url, failure, attempt, attempt_timeout, attempts, discover,
}

module _ (t : IpText) where
  read_body-public :
      (family : AddressFamily) (r : Result (List ℕ) ReadError) (a : IpAddr)
      → read_body t family r ≡ ok a
      → (matches family a ≡ true) × (is_public_address a ≡ true)
  unfolding read_body
  read_body-public family (err e) a h = cc
  read_body-public family (ok body) a h = decoded (t.from_utf8 body) h
    where
      decoded :
          (o : Option Text)
          → (elim o [
            | none ↦ err non_utf8_response
            | some response ↦ parse_provider_response t response family
          ])
            ≡ ok a
          → (matches family a ≡ true) × (is_public_address a ≡ true)
      decoded none k = cc
      decoded (some response) k =
          let accepted = (parse_provider_response-ok_iff t response family a).0 k in
          (accepted.right_family, accepted.public)

  query_provider-public :
      (family : AddressFamily) (x : Exchange) (a : IpAddr)
      → query_provider t family x ≡ ok a
      → (matches family a ≡ true) × (is_public_address a ≡ true)
  unfolding query_provider
  query_provider-public family (failed e) a h = cc
  query_provider-public family (replied r) a h =
      ground (arith, read_body-public family (read_chunks max_response_bytes [] r.chunks) a)

err-injective : {A E : Type 0} (a b : E) (r : Result A E) → r ≡ err a → r ≡ err b → a ≡ b
err-injective a b r h k = cc

quotient_short : (n m : ℕ) → 0 < m → ((n == 0 || n / m == 0) ≡ true) → n < m
quotient_short n m p h = by_cases (Bool-cases (n == 0))
  where
    by_cases : ((n == 0) ≡ true) ⊎ ((n == 0) ≡ false) → n < m
    by_cases (inl z) = omega (arith, p, (==_iff n 0).0 z)
    by_cases (inr nz) =
        let q : n / m ≡ 0 = (==_iff _ 0).0 (ground (arith, nz, h)) in
        omega (arith, q, (div-lt_iff_lt-mul {x = n} {y = 1} p).0 (omega (arith, q)))

module _ (t : IpText) (net : Network) where
  open net use {World, now, get, origin}

  -- What became of a request that failed: it timed out, or its exchange yields no address.
  pub data FailedBy (family : AddressFamily) : Timed → ProviderError → Type 0 where
    timeout_passed : FailedBy family elapsed timed_out
    refused :
        (x : Exchange) (e : ProviderError)
        → query_provider t family x ≡ err e
        → FailedBy family (completed x) e

  failed_by :
      (family : AddressFamily) (provider : Text) (r : Timed) (f : ProviderFailure)
      → attempt t net family provider r ≡ err f
      → (f.provider ≡ redact_provider_url t net provider) × FailedBy family r f.error
  unfolding attempt
  failed_by family provider elapsed f h = (
    ground arith,
    rw (← ap (λ g. g.error) (err-injective (failure t net provider timed_out) f _ refl h))
        timeout_passed,
  )
  failed_by family provider (completed x) f h = elim (Result-cases (query_provider t family x)) [
    | inl (a, q) ↦ absurd (ground arith)
    | inr (e, q) ↦
        let same : failure t net provider e ≡ f =
          err-injective {A = IpAddr} _ _ _ (ground arith) h in
        (ground arith, rw (← ap (λ g. g.error) same) (refused x e q))
  ]

  attempt-answer :
      (family : AddressFamily) (provider : Text) (r : Timed) (a : IpAddr)
      → attempt t net family provider r ≡ ok a
      → (x : Exchange) × (r ≡ completed x) × (query_provider t family x ≡ ok a)
  unfolding attempt
  attempt-answer family provider elapsed a h = cc
  attempt-answer family provider (completed x) a h = (x, refl, ground arith)

  module _ (timeout : ℕ) (family : AddressFamily) (started : ℕ) where
    -- What is left of the client's time in a world, and the equal share of each provider that is
    -- still to be asked, whose number counts as a `u32`.
    abbrev pub remaining : World → ℕ
    remaining w = timeout - ((now w).0 - started)

    abbrev pub share_of : List Text → World → ℕ
    share_of providers w = remaining w / min (length providers) (2 ^ 32 - 1)

    -- The first of the remaining providers was asked, under its positive share, in the world that
    -- reading the clock left, and the request came to `timed`.
    pub record Asked (provider : Text) (after : List Text) (w : World) (timed : Timed) (v : World)
        : Type 0 where
      pub time_left : 0 < share_of (provider ∷ after) w
      pub request_made : get provider (share_of (provider ∷ after) w) (now w).1 ≡ (timed, v)

    -- From the first world to the last, the providers `tried` were asked one after the other and
    -- failed, with a failure for each under its redacted name, and `rest` is still to be asked.
    pub data Tried (w : World) : List Text → List ProviderFailure → List Text → World → Type 0 where
      none_yet : (rest : List Text) → Tried w [] [] rest w
      and_then :
          {tried rest : List Text} {failures : List ProviderFailure} {u v : World} (provider : Text)
          (timed : Timed) (f : ProviderFailure)
          → Tried w tried failures (provider ∷ rest) u
          → Asked provider rest u timed v
          → FailedBy family timed f.error
          → f.provider ≡ redact_provider_url t net provider
          → Tried w (tried ++ (provider ∷ [])) (failures ++ (f ∷ [])) rest v

    -- How a search of `providers` from a world may end.
    pub data Outcome (w : World) (providers : List Text) (r : Result IpAddr PublicIpError)
        : Type 0 where
      unconfigured : providers ≡ [] → r ≡ err (no_providers family) → Outcome w providers r
      answered :
          (before after : List Text) (failures : List ProviderFailure) (provider : Text)
          (u v : World) (x : Exchange) (a : IpAddr)
          → providers ≡ before ++ (provider ∷ after)
          → Tried w before failures (provider ∷ after) u
          → Asked provider after u (completed x) v
          → query_provider t family x ≡ ok a
          → r ≡ ok a
          → Outcome w providers r
      exhausted :
          (failures : List ProviderFailure) (u : World)
          → providers ≢ []
          → Tried w providers failures [] u
          → r ≡ err (all_providers_failed family failures)
          → Outcome w providers r
      late :
          (before after : List Text) (failures : List ProviderFailure) (provider : Text) (u : World)
          → providers ≡ before ++ (provider ∷ after)
          → Tried w before failures (provider ∷ after) u
          → remaining u < min (length (provider ∷ after)) (2 ^ 32 - 1)
          → r ≡ err (deadline_exceeded family failures)
          → Outcome w providers r

    attempts-Outcome :
        (all rest tried : List Text) (failures : List ProviderFailure) (w u : World)
        → all ≢ []
        → all ≡ tried ++ rest
        → Tried w tried failures rest u
        → Outcome w all (attempts t net timeout family started rest failures u).0
    unfolding attempts attempt_timeout
    attempts-Outcome all [] tried failures w u n e h =
        exhausted failures u n (rw (e, append_nil) h) refl
    attempts-Outcome all (provider ∷ rest) tried failures w u n e h =
        elim (Bool-cases (remaining u == 0 || share_of (provider ∷ rest) u == 0)) [
          | inl stop ↦
              rw (stop, attempts) (late tried rest failures provider u e h (short stop) refl)
          | inr go ↦
              rw (go, attempts)
                (elim (Result-cases (attempt t net family provider reply.0)) [
                  | inl (a, hit) ↦
                      let (x, made, q) = attempt-answer family provider reply.0 a hit in
                      rw hit (
                        answered tried rest failures provider u reply.1 x a e h
                          (record {
                            time_left = in_time go;
                            request_made = ap (λ r. (r, reply.1)) made;
                          })
                          q refl)
                  | inr (f, miss) ↦
                      let (name, why) = failed_by family provider reply.0 f miss in
                      rw miss (
                        attempts-Outcome all rest (tried ++ (provider ∷ [])) (failures ++ (f ∷ []))
                          w reply.1 n (e ∙ sym (append_assoc tried (provider ∷ []) rest))
                          (and_then provider reply.0 f h
                            (record { time_left = in_time go; request_made = refl }) why name))
                ])
        ]
      where
        reply : Timed × World
        reply = get provider (share_of (provider ∷ rest) u) (now u).1

        in_time :
            (remaining u == 0 || share_of (provider ∷ rest) u == 0) ≡ false
            → 0 < share_of (provider ∷ rest) u
        in_time go = ground arith

        short :
            (remaining u == 0 || share_of (provider ∷ rest) u == 0) ≡ true
            → remaining u < min (length (provider ∷ rest)) (2 ^ 32 - 1)
        short stop =
            quotient_short (remaining u) (min (length (provider ∷ rest)) (2 ^ 32 - 1)) (omega arith)
              (ground arith)

  -- `discover` asks the providers in their order, each under an equal share of the time that is
  -- left, and ends with the address in the reply of the first that has one, where those before it
  -- were asked and failed; or with one failure for each provider, where all were asked and failed;
  -- or, where less than a nanosecond for each provider was left at one of them, with the failures of
  -- those before it. Without providers it reports that.
  pub discover-Outcome :
      (client : PublicIpClient) (family : AddressFamily) (providers : List Text) (w : World)
      → Outcome client.timeout family
          (now w).0
          (now w).1
          providers
          (discover t net client family providers w).0
  unfolding discover
  discover-Outcome client family [] w = unconfigured refl refl
  discover-Outcome client family (provider ∷ rest) w =
      attempts-Outcome client.timeout family (now w).0 (provider ∷ rest) (provider ∷ rest) [] []
        (now w).1 (now w).1 (λ e. cc) refl (none_yet (provider ∷ rest))

  Outcome-public :
      (timeout : ℕ) (family : AddressFamily) (started : ℕ) (w : World) (providers : List Text)
      (r : Result IpAddr PublicIpError) (a : IpAddr)
      → Outcome timeout family started w providers r
      → r ≡ ok a
      → (matches family a ≡ true) × (is_public_address a ≡ true)
  Outcome-public timeout family started w providers r a
        (answered before after failures provider u v x b e h made q k) g =
      query_provider-public t family x a (ground arith)
  Outcome-public timeout family started w providers r a (exhausted failures u n h k) g = cc
  Outcome-public timeout family started w providers r a (unconfigured e k) g = cc
  Outcome-public timeout family started w providers r a (late before after failures p u e h l k) g =
      cc

  -- Whatever the providers send, an address that `discover` returns is public and of the family.
  pub discover-public :
      (client : PublicIpClient) (family : AddressFamily) (providers : List Text) (w : World)
      (a : IpAddr)
      → (discover t net client family providers w).0 ≡ ok a
      → (matches family a ≡ true) × (is_public_address a ≡ true)
  discover-public client family providers w a =
      Outcome-public client.timeout family (now w).0 (now w).1 providers _ a
        (discover-Outcome client family providers w)
