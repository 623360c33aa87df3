-- ===== src/Base/Result.antt =====
-- Code that may raise: the value, or the exception.
use mathlib.Core.Path.{◌≡◌, refl}
use mathlib.Core.Bool.{Bool, true, false}
use query_boy.Base.Tests.{if◌then◌else◌}

pub data Result {ℓ κ} (E : Type ℓ) (A : Type κ) : Type (ℓ ⊔ κ) where
  ok : A → Result E A
  err : E → Result E A

-- `if bad: raise e`.
abbrev pub raise_if {ℓ} : {E : Type ℓ} → Bool → E → Result E (Unit {0})
raise_if false e = ok tt
raise_if true e = err e

infixl 5 ◌>>=◌
abbrev pub ◌>>=◌ {ℓ κ μ} :
    {E : Type ℓ} {A : Type κ} {B : Type μ} → Result E A → (A → Result E B) → Result E B
err raised >>= next = err raised
ok value >>= next = next value

infixl 5 ◌>>◌
abbrev pub ◌>>◌ {ℓ κ} :
    {E : Type ℓ} {B : Type κ} (first : Result E (Unit {0})) (next : Result E B) → Result E B
first >> next = first >>= λ done. next

pub >>=-eq-ok {ℓ κ μ} :
    {E : Type ℓ} {A : Type κ} {B : Type μ} (first : Result E A) (next : A → Result E B) {y : B}
    → (first >>= next) ≡ ok y
    → (x : A) × (first ≡ ok x) × (next x ≡ ok y)
>>=-eq-ok (err raised) next returned = cc
>>=-eq-ok (ok x) next returned = (x, refl, returned)

module _ {ℓ κ} {E : Type ℓ} {A : Type κ} where
  pub ok-injective : {a b : A} → ◌≡◌ {A = Result E A} (ok a) (ok b) → a ≡ b
  ok-injective h = cc

  -- A result without an error passed the test before it.
  pub passed_test :
      (bad : Bool) (e : E) (m : Result E A) {a : A}
      → (if bad then err e else m) ≡ ok a
      → (bad ≡ false) × (m ≡ ok a)
  passed_test true e m h = absurd (cc h)
  passed_test false e m h = (refl, h)

  pub passed_raise :
      (bad : Bool) (e : E) (k : Result E A) {a : A} → (raise_if bad e >> k) ≡ ok a → k ≡ ok a
  passed_raise true e k h = absurd (cc h)
  passed_raise false e k h = h

  pub raise-tested :
      (bad : Bool) (e : E) (k : Result E A) {a : A} → (raise_if bad e >> k) ≡ ok a → bad ≡ false
  raise-tested true e k h = absurd (cc h)
  raise-tested false e k h = refl

pub raise-eq-ok {ℓ} :
    {E : Type ℓ} (bad : Bool) (e : E) {u : Unit {0}} → raise_if bad e ≡ ok u → bad ≡ false
raise-eq-ok true e h = absurd (cc h)
raise-eq-ok false e h = refl
