-- ===== src/Base/Result.antt =====
-- Python exceptions as values.
use mathlib.Core.Path.{◌≡◌, refl, subst}
use mathlib.Core.Bool.{Bool, true, false}
use mathlib.Core.Option.{Option, none, some}
use mathlib.Core.Logic.{◌⊎◌, inl, inr}

pub data Error : Type 0 where
  value_error key_error type_error runtime_error index_error attribute_error : Error
  assertion_error unicode_error incomplete_read_error permission_error cancelled_error struct_error
        server_exception name_error :
      Error

pub data Result {ℓ} (A : Type ℓ) : Type ℓ where
  ok : A → Result A
  err : Error → Result A

infixl 5 ◌>>=◌ ◌>>◌
abbrev pub ◌>>=◌ {ι ℓ} : {B : Type ι} {A : Type ℓ} → Result A → (A → Result B) → Result B
err x >>= k = err x
ok v >>= k = k v

abbrev pub ◌>>◌ {ι} : {B : Type ι} → Result (Unit {0}) → Result B → Result B
err x >> r = err x
ok u >> r = r

-- `raise e` unless the test holds
abbrev pub require : Bool → Error → Result (Unit {0})
require true e = ok tt
require false e = err e

abbrev pub or_raise {ℓ} : {A : Type ℓ} → Option A → Error → Result A
or_raise none e = err e
or_raise (some a) e = ok a

-- What a chain returned, its first step returned something for.
pub >>=-eq-ok {ι ℓ} :
    {B : Type ι} {A : Type ℓ} (r : Result A) (k : A → Result B) {v : B}
    → (r >>= k) ≡ ok v
    → (u : A) × (r ≡ ok u) × (k u ≡ ok v)
>>=-eq-ok (err x) k q = cc
>>=-eq-ok (ok u) k q = (u, refl, q)

pub Result-cases {ℓ} :
    {A : Type ℓ} (r : Result A) → ((v : A) × (r ≡ ok v)) ⊎ ((x : Error) × (r ≡ err x))
Result-cases (err x) = inr (x, refl)
Result-cases (ok v) = inl (v, refl)

pub >>=-ok {ℓ} : {A : Type ℓ} (m : Result A) → (m >>= ok) ≡ m
>>=-ok (ok a) = refl
>>=-ok (err e) = refl

pub ok-injective {ℓ} : {A : Type ℓ} {a b : A} → ok a ≡ ok b → a ≡ b
ok-injective h = cc

pub err-ne-ok {ℓ} : {A : Type ℓ} {e : Error} {a : A} → err e ≡ ok a → ⊥
err-ne-ok h = cc

-- A result that has the property, if it is one.
pub data Ensures {ℓ κ} {A : Type ℓ} (P : A → Type κ) : Result A → Type (ℓ ⊔ κ) where
  returns : {a : A} → P a → Ensures P (ok a)
  raises : {e : Error} → Ensures P (err e)

module _ {ℓ κ ι} {A : Type ℓ} {B : Type κ} {P : B → Type ι} where
  pub Ensures-bind :
      (m : Result A) (f : A → Result B)
      → ((a : A) → m ≡ ok a → Ensures P (f a))
      → Ensures P (m >>= f)
  Ensures-bind (ok a) f k = k a refl
  Ensures-bind (err e) f k = raises

pub Ensures-eq {ℓ κ} :
    {A : Type ℓ} {P : A → Type κ} (r : Result A) {a : A} → Ensures P r → r ≡ ok a → P a
Ensures-eq {P = P} (ok a) (returns p) h = subst P (ok-injective h) p
Ensures-eq (err e) raises h = absurd (err-ne-ok h)
