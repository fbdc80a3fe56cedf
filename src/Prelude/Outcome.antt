-- ===== src/Prelude/Outcome.antt =====
-- `Result<T, E>` of the source, with the chain that `?` makes of it.
use mathlib.Core.Path.{◌≡◌, refl}
use mathlib.Core.Bool.{Bool, true, false, not}
use nixos_test.Prelude.Tests.{if◌then◌else◌}
use mathlib.Core.Option.{Option, none, some}

pub data Result {ℓ κ} (E : Type κ) (A : Type ℓ) : Type (ℓ ⊔ κ) where
  ok : A → Result E A
  err : E → Result E A

module _ {ℓ κ} {E : Type κ} {B : Type ℓ} where
  infixl 5 ◌>>=◌ ◌>>◌
  abbrev pub ◌>>=◌ {μ} : {A : Type μ} → Result E A → (A → Result E B) → Result E B
  err reason >>= next = err reason
  ok value >>= next = next value

  abbrev pub ◌>>◌ : Result E (Unit {0}) → Result E B → Result E B
  check >> next = check >>= λ _. next

-- `if !test { return Err(e) }`
abbrev pub require {κ} : {E : Type κ} → Bool → E → Result E (Unit {0})
require true e = ok tt
require false e = err e

-- `option.ok_or(e)`
abbrev pub ok_or {ℓ κ} : {E : Type κ} {A : Type ℓ} → Option A → E → Result E A
ok_or none e = err e
ok_or (some a) e = ok a

-- Inversion of a successful chain, for proofs in which the parts stay shut.
module _ {ℓ κ μ} {E : Type κ} {A : Type ℓ} {B : Type μ} where
  pub >>=-eq-ok :
      (step : Result E A) (next : A → Result E B) {b : B}
      → (step >>= next) ≡ ok b
      → (a : A) × (step ≡ ok a) × (next a ≡ ok b)
  >>=-eq-ok (err reason) next h = absurd (cc h)
  >>=-eq-ok (ok value) next h = (value, refl, h)

-- Inversion of an early return: the test failed, and the rest succeeded.
module _ {ℓ κ} {E : Type κ} {A : Type ℓ} where
  pub rejected-eq_ok :
      (b : Bool) (e : E) {m : Result E A} {a : A}
      → (if b then err e else m) ≡ ok a
      → (b ≡ false) × (m ≡ ok a)
  rejected-eq_ok true e h = cc
  rejected-eq_ok false e h = (refl, h)

  pub require-eq_ok :
      (b : Bool) (e : E) {m : Result E A} {a : A}
      → (require b e >> m) ≡ ok a
      → (b ≡ true) × (m ≡ ok a)
  require-eq_ok true e h = (refl, h)
  require-eq_ok false e h = cc

pub not-eq_false : (b : Bool) → not b ≡ false → b ≡ true
not-eq_false true h = refl
not-eq_false false h = cc

module _ {ℓ κ} {E : Type κ} {A : Type ℓ} where
  pub ok_or-eq_ok : (o : Option A) (e : E) {a : A} → ok_or o e ≡ ok a → o ≡ some a
  ok_or-eq_ok none e h = cc
  ok_or-eq_ok (some a) e h = cc

  pub ok-ne-err : (a : A) (e : E) → ¬ (◌≡◌ {A = Result E A} (ok a) (err e))
  ok-ne-err a e h = cc

  pub err-injective : (d e : E) → ◌≡◌ {A = Result E A} (err d) (err e) → d ≡ e
  err-injective d e h = cc

  pub ok-injective : (a b : A) → ◌≡◌ {A = Result E A} (ok a) (ok b) → a ≡ b
  ok-injective a b h = cc

module _ {ℓ κ μ} {E : Type κ} {A : Type ℓ} {B : Type μ} where
  -- A chain fails with `e` only if one of its steps does.
  pub >>=-ne-err :
      (m : Result E A) (f : A → Result E B) {e : E}
      → ¬ (m ≡ err e)
      → ((a : A) → ¬ (f a ≡ err e))
      → ¬ ((m >>= f) ≡ err e)
  >>=-ne-err (ok a) f h k p = k a p
  >>=-ne-err (err d) f h k p = h (cc p)

module _ {ℓ κ} {E : Type κ} {A : Type ℓ} where
  pub require-ne-err :
      (b : Bool) (d : E) (m : Result E A) {e : E}
      → ¬ (d ≡ e)
      → ¬ (m ≡ err e)
      → ¬ ((require b d >> m) ≡ err e)
  require-ne-err true d m h k p = k p
  require-ne-err false d m h k p = h (cc p)

  pub ok_or-ne-err : (o : Option A) (d : E) {e : E} → ¬ (d ≡ e) → ¬ (ok_or o d ≡ err e)
  ok_or-ne-err none d h p = h (cc p)
  ok_or-ne-err (some a) d h p = absurd (ok-ne-err a _ p)

pub not-eq_true : (b : Bool) → not b ≡ true → b ≡ false
not-eq_true true h = cc
not-eq_true false h = refl

pub require_last-eq_ok {κ} : {E : Type κ} (b : Bool) (e : E) → require b e ≡ ok tt → b ≡ true
require_last-eq_ok true e h = refl
require_last-eq_ok false e h = cc
