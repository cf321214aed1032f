-- ===== src/Common/Results.antt =====
-- Rust's `Result`, with the `?` operator as a bind.
use mathlib.Core.Path.{◌≡◌, refl, ap}
use mathlib.Core.Bool.{Bool, true, false}
use mathlib.Core.Logic.{◌⊎◌, inl, inr}

pub data Result {ℓ κ} (E : Type ℓ) (A : Type κ) : Type (ℓ ⊔ κ) where
  ok : A → Result E A
  err : E → Result E A

-- `if !test { return Err(e) }`
abbrev pub ensure {ℓ} : {E : Type ℓ} → Bool → E → Result E (Unit {0})
ensure false failure = err failure
ensure true failure = ok tt

infixl 5 ◌>>=◌ ◌>>◌
abbrev pub ◌>>=◌ {ℓ κ μ} :
    {E : Type ℓ} {A : Type κ} {B : Type μ} → Result E A → (A → Result E B) → Result E B
err failure >>= next = err failure
ok value >>= next = next value

-- A check, and what follows it.
abbrev pub ◌>>◌ {ℓ κ} :
    {E : Type ℓ} {B : Type κ} (check : Result E (Unit {0})) (next : Result E B) → Result E B
check >> next = check >>= λ done. next

-- What a successful sequence has computed on the way.
pub >>=-eq-ok {ℓ κ μ} :
    {E : Type ℓ} {A : Type κ} {B : Type μ} (step : Result E A) (next : A → Result E B) {out : B}
    → (step >>= next) ≡ ok out
    → (value : A) × (step ≡ ok value) × (next value ≡ ok out)
>>=-eq-ok (err failure) next h = cc
>>=-eq-ok (ok value) next h = (value, refl, h)

pub >>-eq-ok {ℓ κ} :
    {E : Type ℓ} {B : Type κ} (m : Result E (Unit {0})) (k : Result E B) {b : B}
    → (m >> k) ≡ ok b
    → (m ≡ ok tt) × (k ≡ ok b)
>>-eq-ok (ok tt) k h = (refl, h)
>>-eq-ok (err e) k h = cc

pub ensure-eq-ok {ℓ} : {E : Type ℓ} (b : Bool) (e : E) → ensure b e ≡ ok tt → b ≡ true
ensure-eq-ok true e h = refl
ensure-eq-ok false e h = cc

-- The result is not this failure.
abbrev pub Avoids {ℓ κ} : {E : Type ℓ} {A : Type κ} → E → Result E A → Type (ℓ ⊔ κ)
Avoids failure r = ¬ (r ≡ err failure)

pub ok-Avoids {ℓ κ} : {E : Type ℓ} {A : Type κ} (failure : E) (a : A) → Avoids failure (ok a)
ok-Avoids failure a = λ q. cc

pub err-Avoids {ℓ κ} :
    {E : Type ℓ} {A : Type κ} (failure e : E) → ¬ (e ≡ failure) → Avoids {A = A} failure (err e)
err-Avoids failure e h = λ q. h cc

-- A sequence avoids a failure that none of its steps reports.
pub >>=-Avoids {ℓ κ μ} :
    {E : Type ℓ} {A : Type κ} {B : Type μ} (failure : E) (step : Result E A) (next : A → Result E B)
    → Avoids failure step
    → ((a : A) → Avoids failure (next a))
    → Avoids failure (step >>= next)
>>=-Avoids failure (ok a) next h k = k a
>>=-Avoids failure (err e) next h k = λ q. h (let same : e ≡ failure = cc in ap err same)

pub >>-Avoids {ℓ κ} :
    {E : Type ℓ} {B : Type κ} (failure : E) (check : Result E (Unit {0})) (next : Result E B)
    → Avoids failure check
    → Avoids failure next
    → Avoids failure (check >> next)
>>-Avoids failure check next h k = >>=-Avoids failure check (λ done. next) h (λ done. k)

pub ensure-Avoids {ℓ} :
    {E : Type ℓ} (failure : E) (b : Bool) (e : E) → ¬ (e ≡ failure) → Avoids failure (ensure b e)
ensure-Avoids failure true e h = λ q. cc
ensure-Avoids failure false e h = λ q. h cc

pub Result-cases {ℓ κ} :
    {E : Type ℓ} {A : Type κ} (r : Result E A) → ((a : A) × (r ≡ ok a)) ⊎ ((e : E) × (r ≡ err e))
Result-cases (ok a) = inl (a, refl)
Result-cases (err e) = inr (e, refl)
