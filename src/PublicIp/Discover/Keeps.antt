-- ===== src/PublicIp/Discover/Keeps.antt =====
-- What the requests and the clock of `discover` keep, for src/public_ip.rs.
use native.Mathlib.Nat.{div-le_self}
use cirrusync.Prelude.{
  inl, inr, ℕ, ◌-◌, ◌≤◌, ◌<◌, ◌≡◌, true, false, ◌||◌, List, [], ◌∷◌, ◌++◌, arith, ◌==◌, length, any,
  Result-cases, Bool-cases,
}
use cirrusync.Prelude.Strings.{Text, text_eq, text_eq_refl}
use cirrusync.PublicIp.{AddressFamily, ProviderFailure, IpText}
use cirrusync.PublicIp.Discover.{
  Timed, Network, PublicIpClient, attempt, attempt_timeout, attempts, discover,
}

module _ (t : IpText) (net : Network) where
  open net use {World, now, get, origin}

  -- A request that `discover` may make: to a configured provider, with some time, and with no more
  -- than the client's total.
  pub record Allowed (timeout : ℕ) (providers : List Text) (provider : Text) (share : ℕ)
      : Type 0 where
    pub configured : any (text_eq provider) providers ≡ true
    pub positive : 0 < share
    pub bounded : share ≤ timeout

  module _ {κ} (P : World → Type κ) (timeout : ℕ) (all : List Text)
      (keep_now : (w : World) → P w → P (now w).1)
      (keep_get : (provider : Text) (share : ℕ) (w : World)
        → Allowed timeout all provider share
        → P w
        → P (get provider share w).1)
      (family : AddressFamily) (started : ℕ) where
    attempts-keeps :
        (rest : List Text) (failures : List ProviderFailure) (w : World)
        → ((p : Text) → any (text_eq p) rest ≡ true → any (text_eq p) all ≡ true)
        → P w
        → P (attempts t net timeout family started rest failures w).1
    unfolding attempts
    attempts-keeps [] failures w sub h = h
    attempts-keeps (provider ∷ rest) failures w sub h =
        elim (Bool-cases (timeout - ((now w).0 - started) == 0 || share == 0)) [
          | inl stop ↦ rw (stop, attempts) (keep_now w h)
          | inr go ↦
              rw (go, attempts)
                (elim (Result-cases (attempt t net family provider reply.0)) [
                  | inl (a, hit) ↦ rw hit (kept go)
                  | inr (f, miss) ↦ rw miss (
                      attempts-keeps rest (failures ++ (f ∷ [])) reply.1
                        (λ p m. sub p (ground arith)) (kept go))
                ])
        ]
      where
        share : ℕ
        share = attempt_timeout t net timeout started (now w).0 (length (provider ∷ rest))

        reply : Timed × World
        reply = get provider share (now w).1

        shared : share ≤ timeout - ((now w).0 - started)
        shared = div-le_self _ _

        kept : (timeout - ((now w).0 - started) == 0 || share == 0) ≡ false → P reply.1
        kept go =
            keep_get provider share (now w).1
              (record {
                configured = sub provider (rw text_eq_refl);
                positive = ground arith;
                bounded = omega (arith, shared);
              })
              (keep_now w h)

  -- What the requests that `discover` may make and its readings of the clock keep, `discover` keeps:
  -- each goes to a configured provider and has a positive share of the client's total time.
  pub discover-keeps {κ} :
      (P : World → Type κ) (client : PublicIpClient) (family : AddressFamily)
      (providers : List Text)
      → ((w : World) → P w → P (now w).1)
      → ((provider : Text) (share : ℕ) (w : World)
          → Allowed client.timeout providers provider share
          → P w
          → P (get provider share w).1)
      → (w : World) → P w
      → P (discover t net client family providers w).1
  unfolding discover
  discover-keeps P client family [] keep_now keep_get w h = h
  discover-keeps P client family (provider ∷ rest) keep_now keep_get w h =
      attempts-keeps P client.timeout (provider ∷ rest) keep_now keep_get family (now w).0
        (provider ∷ rest) [] (now w).1 (λ p m. m) (keep_now w h)
