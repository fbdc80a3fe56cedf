-- ===== src/Prelude/Stateful.antt =====
-- Fallible code that changes a state: the state is passed on through failures too.
use mathlib.Core.Path.{◌≡◌, refl}
use mathlib.Core.Bool.{Bool, true, false}
use nixos_test.Prelude.Outcome.{Result, ok, err, require}

abbrev pub Stateful {ℓ κ} : Type ℓ → Type 0 → Type κ → Type (ℓ ⊔ κ)
Stateful S E A = S → Result E A × S

module _ {ℓ κ μ} {S : Type ℓ} {E : Type 0} {A : Type κ} {B : Type μ} where
  abbrev pub continue : Result E A × S → (A → Stateful S E B) → Result E B × S
  continue (err e, s) f = (err e, s)
  continue (ok a, s) f = f a s

  infixl 5 ◌>>=◌
  abbrev pub ◌>>=◌ : Stateful S E A → (A → Stateful S E B) → Stateful S E B
  m >>= f = λ s. continue (m s) f

infixl 5 ◌>>◌
abbrev pub ◌>>◌ {ℓ κ} :
    {S : Type ℓ} {E : Type 0} {B : Type κ}
    → Stateful S E (Unit {0})
    → Stateful S E B
    → Stateful S E B
m >> n = m >>= λ _. n

module _ {ℓ κ} {S : Type ℓ} {E : Type 0} {A : Type κ} where
  -- A step that changes nothing.
  abbrev pub lift : Result E A → Stateful S E A
  lift r = λ s. (r, s)

  abbrev pub pure : A → Stateful S E A
  pure a = λ s. (ok a, s)

-- `result.map_err(f)`
abbrev pub map_err {κ} : {D E : Type 0} {A : Type κ} → (D → E) → Result D A → Result E A
map_err f (ok a) = ok a
map_err f (err d) = err (f d)

pub map_err-eq_ok {κ} :
    {D E : Type 0} {A : Type κ} (f : D → E) (r : Result D A) {a : A} → map_err f r ≡ ok a → r ≡ ok a
map_err-eq_ok f (ok b) h = cc h
map_err-eq_ok f (err d) h = cc

module _ {ℓ κ μ} {S : Type ℓ} {E : Type 0} {A : Type κ} {B : Type μ} where
  -- Inversion of a successful chain.
  pub continue-eq-ok :
      (r : Result E A × S) (f : A → Stateful S E B) {b : B} {s : S}
      → continue r f ≡ (ok b, s)
      → (a : A) × (t : S) × (r ≡ (ok a, t)) × (f a t ≡ (ok b, s))
  continue-eq-ok (err e, t) f h = cc
  continue-eq-ok (ok a, t) f h = (a, t, refl, h)

  -- What one step does to the state and then another, both do.
  pub continue-relates {ν} :
      (R : S → Type ν) (r : Result E A × S) (f : A → Stateful S E B)
      → R (r.1)
      → ((a : A) (t : S) → R t → R ((f a t).1))
      → R ((continue r f).1)
  continue-relates R (err e, t) f h k = h
  continue-relates R (ok a, t) f h k = k a t h

  -- What holds of a failure and of the outcomes of the second step holds of the chain.
  pub continue-cases {ν} :
      (P : Result E B × S → Type ν) (r : Result E A × S) (f : A → Stateful S E B)
      → ((e : E) (t : S) → r ≡ (err e, t) → P (err e, t))
      → ((a : A) (t : S) → r ≡ (ok a, t) → P (f a t))
      → P (continue r f)
  continue-cases P (err e, t) f h k = h e t refl
  continue-cases P (ok a, t) f h k = k a t refl

  -- The same where the first step changes nothing.
  pub lift-cases {ν} :
      (P : Result E B × S → Type ν) (r : Result E A) (s : S) (f : A → Stateful S E B)
      → ((e : E) → r ≡ err e → P (err e, s))
      → ((a : A) → r ≡ ok a → P (f a s))
      → P (continue (r, s) f)
  lift-cases P (err e) s f h k = h e refl
  lift-cases P (ok a) s f h k = k a refl

  -- A chain does not fail with `e` if neither of its steps does.
  pub continue-ne-err :
      (r : Result E A × S) (f : A → Stateful S E B) {e : E}
      → ¬ (r.0 ≡ err e)
      → ((a : A) (t : S) → ¬ ((f a t).0 ≡ err e))
      → ¬ ((continue r f).0 ≡ err e)
  continue-ne-err (err d, t) f h k p = h (cc p)
  continue-ne-err (ok a, t) f h k p = k a t p

pub map_err-ne-err {κ} :
    {D E : Type 0} {A : Type κ} (f : D → E) (r : Result D A) {e : E}
    → ((d : D) → ¬ (f d ≡ e))
    → ¬ (map_err f r ≡ err e)
map_err-ne-err f (ok a) h p = cc
map_err-ne-err f (err d) h p = h d (cc p)

pub require-ne-err {κ} :
    {E : Type κ} (b : Bool) (d : E) {e : E} → ¬ (d ≡ e) → ¬ (require b d ≡ err e)
require-ne-err true d h p = cc
require-ne-err false d h p = h (cc p)

module _ {ℓ κ μ} {S : Type ℓ} {E : Type 0} {A : Type κ} {B : Type μ} where
  pub lift-eq-ok :
      (r : Result E A) (s : S) (f : A → Stateful S E B) {b : B} {t : S}
      → continue (r, s) f ≡ (ok b, t)
      → (a : A) × (r ≡ ok a) × (f a s ≡ (ok b, t))
  lift-eq-ok (err e) s f h = cc h
  lift-eq-ok (ok a) s f h = (a, refl, h)
