-- ===== src/Base/Fallible.antt =====
-- Code that may panic: a slice index out of range, `expect` on an error.
use mathlib.Core.Path.{◌≡◌, refl, subst}
use mathlib.Core.Bool.{Bool, true, false}
use mathlib.Core.Option.{Option, none, some}

pub data Run {ℓ} (A : Type ℓ) : Type ℓ where
  ok : A → Run A
  panic : Run A

infixl 5 ◌>>=◌ ◌>>◌
abbrev pub ◌>>=◌ {ℓ κ} : {A : Type ℓ} {B : Type κ} → Run A → (A → Run B) → Run B
ok a >>= f = f a
panic >>= f = panic

abbrev pub ◌>>◌ {ℓ κ} : {A : Type ℓ} {B : Type κ} → Run A → Run B → Run B
m >> k = m >>= λ _. k

abbrev pub expect {ℓ} : {A : Type ℓ} → Option A → Run A
expect none = panic
expect (some a) = ok a

abbrev pub assert : Bool → Run (Unit {0})
assert true = ok tt
assert false = panic

pub ok-injective {ℓ} : {A : Type ℓ} {a b : A} → ok a ≡ ok b → a ≡ b
ok-injective e = cc

pub >>=_congr {ℓ κ} :
    {A : Type ℓ} {B : Type κ} (r : Run A) (f g : A → Run B)
    → ((a : A) → f a ≡ g a)
    → (r >>= f) ≡ (r >>= g)
>>=_congr (ok a) f g h = h a
>>=_congr panic f g h = refl

-- A run that ends is made of runs that end.
pub >>=_ok {ℓ κ} :
    {A : Type ℓ} {B : Type κ} (r : Run A) (f : A → Run B) {b : B}
    → (r >>= f) ≡ ok b
    → (a : A) × (r ≡ ok a) × (f a ≡ ok b)
>>=_ok (ok a) f e = (a, refl, e)
>>=_ok panic f e = absurd (cc)

-- What holds of the result of a run, if it ends.
pub data OnOk {ℓ κ} {A : Type ℓ} (P : A → Type κ) : Run A → Type (ℓ ⊔ κ) where
  on_ok : {a : A} → P a → OnOk P (ok a)
  on_panic : OnOk P panic

pub OnOk-any {ℓ} : {A : Type ℓ} (r : Run A) → OnOk (λ _. Unit {0}) r
OnOk-any (ok a) = on_ok tt
OnOk-any panic = on_panic

module _ {ℓ κ} {A : Type ℓ} {P : A → Type κ} where
  pub OnOk-bind {ℓ' κ'} :
      {B : Type ℓ'} {Q : B → Type κ'} {r : Run A} {f : A → Run B}
      → OnOk P r
      → ((a : A) → P a → OnOk Q (f a))
      → OnOk Q (r >>= f)
  OnOk-bind (on_ok p) k = k _ p
  OnOk-bind on_panic k = on_panic

  pub OnOk-ok : {r : Run A} {a : A} → OnOk P r → r ≡ ok a → P a
  OnOk-ok (on_ok p) e = subst P (ok-injective e) p
  OnOk-ok on_panic e = absurd (cc)
