-- ===== src/Cloudflare/Client/Done.antt =====
-- Calls that end in `done`, in the monad of src/cloudflare.rs's requests.
use cirrusync.Prelude.{◌≡◌, refl, ap, Bool, true, false, if◌then◌else◌, Result, ok, err}
use cirrusync.Cloudflare.Client.{
  Session, Reply, expired, failed, done, Call, bind_reply, ◌>>=◌, return, fail, lift,
}

pub if-true :
    {W A E : Type 0} (b : Bool) (x y : Call W A E) (s : Session W)
    → b ≡ true
    → (if b then x else y) s ≡ x s
if-true true x y s h = refl
if-true false x y s h = cc

pub if-false :
    {W A E : Type 0} (b : Bool) (x y : Call W A E) (s : Session W)
    → b ≡ false
    → (if b then x else y) s ≡ y s
if-false true x y s h = cc
if-false false x y s h = refl

pub failed-not-done : {W A E : Type 0} (e : E) (a : A) (s t : Session W) → fail e s ≡ return a t → ⊥
failed-not-done e a s t h = cc

pub lift-done :
    {W A E : Type 0} (r : Result A E) (a : A) (s t : Session W)
    → lift r s ≡ (done a, t)
    → (r ≡ ok a) × (s ≡ t)
lift-done (ok b) a s t h = (cc, cc)
lift-done (err e) a s t h = cc

pub return-done :
    {W A E : Type 0} (a b : A) (s t : Session W)
    → return {E = E} a s ≡ (done b, t)
    → (a ≡ b) × (s ≡ t)
return-done a b s t h = (cc, cc)

bind_reply-done :
    {W A B E : Type 0} (x : Reply A E) (u : Session W) (f : A → Call W B E) (b : B) (t : Session W)
    → bind_reply x u f ≡ (done b, t)
    → (a : A) × (x ≡ done a) × (f a u ≡ (done b, t))
bind_reply-done expired u f b t h = cc
bind_reply-done (failed e) u f b t h = cc
bind_reply-done (done a) u f b t h = (a, refl, h)

-- A chain that is done was done in its first part.
pub >>=-done :
    {W A B E : Type 0} (m : Call W A E) (f : A → Call W B E) (s : Session W) (b : B) (t : Session W)
    → (m >>= f) s ≡ (done b, t)
    → (a : A) × (u : Session W) × (m s ≡ (done a, u)) × (f a u ≡ (done b, t))
unfolding ◌>>=◌
>>=-done m f s b t h =
    let (a, e, k) = bind_reply-done (m s).0 (m s).1 f b t h in
    (a, (m s).1, ap (λ x. (x, (m s).1)) e, k)
