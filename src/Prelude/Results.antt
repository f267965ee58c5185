-- ===== src/Prelude/Results.antt =====
-- Rust's `Result`, with `?` as the bind of a `do` block.
use mathlib.Core.Path.{◌≡◌, refl}
use mathlib.Core.Bool.{Bool, true, false}
use mathlib.Core.Logic.{◌⊎◌, inl, inr}
use mathlib.Core.Option.{Option, none, some}

pub data Result {ℓ κ} (A : Type ℓ) (E : Type κ) : Type (ℓ ⊔ κ) where
  ok : A → Result A E
  err : E → Result A E

-- Sequencing of checks, whose results hold nothing.
infixl 5 ◌>>◌
abbrev pub ◌>>◌ {κ ι} : {B : Type κ} {E : Type ι} → Result (Unit {0}) E → Result B E → Result B E
err e >> next = err e
ok tt >> next = next

infixl 5 ◌>>=◌
abbrev pub ◌>>=◌ {ℓ κ ι} :
    {E : Type ι} {A : Type ℓ} {B : Type κ} → Result A E → (A → Result B E) → Result B E
err e >>= next = err e
ok a >>= next = next a

-- `if !b { return Err(e) }`
abbrev pub ensure {ι} : {E : Type ι} → Bool → E → Result (Unit {0}) E
ensure true e = ok tt
ensure false e = err e

-- `if b { return Err(e) }`
abbrev pub reject {ι} : {E : Type ι} → Bool → E → Result (Unit {0}) E
reject true e = err e
reject false e = ok tt

abbrev pub ok_or {ℓ ι} : {A : Type ℓ} {E : Type ι} → Option A → E → Result A E
ok_or none e = err e
ok_or (some a) e = ok a

abbrev pub map_err {ℓ ι κ} :
    {A : Type ℓ} {E : Type ι} {F : Type κ} → Result A E → (E → F) → Result A F
map_err (ok a) f = ok a
map_err (err e) f = err (f e)

-- A chain that succeeds has succeeded at each of its links.
pub >>-eq-ok {κ ι} :
    {E : Type ι} {B : Type κ} (check : Result (Unit {0}) E) (next : Result B E) {b : B}
    → (check >> next) ≡ ok b
    → (check ≡ ok tt) × (next ≡ ok b)
>>-eq-ok (err e) next h = cc
>>-eq-ok (ok tt) next h = (refl, h)

pub >>=-eq-ok {ℓ κ ι} :
    {E : Type ι} {A : Type ℓ} {B : Type κ} (r : Result A E) (next : A → Result B E) {b : B}
    → (r >>= next) ≡ ok b
    → (a : A) × (r ≡ ok a) × (next a ≡ ok b)
>>=-eq-ok (err e) next h = cc
>>=-eq-ok (ok a) next h = (a, refl, h)

pub ensure-ok {ι} : {E : Type ι} (b : Bool) (e : E) → ensure b e ≡ ok tt → b ≡ true
ensure-ok true e h = refl
ensure-ok false e h = cc

pub reject-ok {ι} : {E : Type ι} (b : Bool) (e : E) → reject b e ≡ ok tt → b ≡ false
reject-ok true e h = cc
reject-ok false e h = refl

pub Result-cases {ℓ ι} :
    {A : Type ℓ} {E : Type ι} (r : Result A E) → ((a : A) × (r ≡ ok a)) ⊎ ((e : E) × (r ≡ err e))
Result-cases (ok a) = inl (a, refl)
Result-cases (err e) = inr (e, refl)
