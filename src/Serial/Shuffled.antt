-- ===== src/Serial/Shuffled.antt =====
-- packages/bms-monitoring/src/discover.rs: a shuffle loses no port and tries none twice.
use nixos_test.Prelude.{
  ℕ, zero, suc, ◌+◌, ◌%◌, ◌≡◌, refl, some, List, [], ◌∷◌, length, get_elem?, set, inl, inr,
  Option-cases,
}
use Prim.Native.Nat.{bit_or}
use mathlib.Core.Path.{subst}
use mathlib.Core.List.{Perm}
use mathlib.Core.List.Perm
use nixos_test.Serial
use nixos_test.Serial.{Candidate, next}

module _ {ℓ} {A : Type ℓ} where
  -- What is written over comes out for what is written.
  set-perm :
      (xs : List A) (i : ℕ) (v : A) {a : A}
      → get_elem? xs i ≡ some a
      → Perm (v ∷ xs) (a ∷ set xs i v)
  set-perm [] i v h = cc
  set-perm (x ∷ xs) zero v {a = a} h =
      let same : x ≡ a = cc h in subst (λ b. Perm (v ∷ x ∷ xs) (b ∷ v ∷ xs)) same (Perm.swap x v xs)
  set-perm (x ∷ xs) (suc i) v {a = a} h =
      Perm.trans (Perm.swap x v xs)
        (Perm.trans (Perm.cons x (set-perm xs i v h)) (Perm.swap a x (set xs i v)))

  -- The place that is written to, and any other, after a write of what stands at the other.
  get_elem?-set :
      (xs : List A) (i j : ℕ) {a b : A}
      → get_elem? xs i ≡ some a
      → get_elem? xs j ≡ some b
      → get_elem? (set xs i b) j ≡ some b
  get_elem?-set [] i j h k = cc
  get_elem?-set (x ∷ xs) zero zero h k = refl
  get_elem?-set (x ∷ xs) zero (suc j) h k = k
  get_elem?-set (x ∷ xs) (suc i) zero h k = k
  get_elem?-set (x ∷ xs) (suc i) (suc j) h k = get_elem?-set xs i j h k

  swap-perm : (xs : List A) (i j : ℕ) → Perm xs (Serial.swap xs i j)
  unfolding Serial.swap Serial.swap_with
  swap-perm xs i j = elim (Option-cases (get_elem? xs i)) [
    | inl outside ↦ rw outside (Perm.refl xs)
    | inr (a, at) ↦ elim (Option-cases (get_elem? xs j)) [
      | inl outside ↦ rw (at, outside) (Perm.refl xs)
      | inr (b, there) ↦
          rw (at, there)
            (Perm.cons_inv {a = b} (
              Perm.trans (set-perm xs i b at)
                (set-perm (set xs i b) j a (get_elem?-set xs i j at there))))
    ]
  ]

  shuffle_from-perm : (count state : ℕ) (xs : List A) → Perm xs (Serial.shuffle_from count state xs)
  unfolding Serial.shuffle_from
  shuffle_from-perm zero state xs = Perm.refl xs
  shuffle_from-perm (suc zero) state xs = Perm.refl xs
  shuffle_from-perm (suc (suc index)) state xs =
      Perm.trans (swap-perm xs (suc index) (next state % (suc index + 1)))
        (shuffle_from-perm (suc index) (next state) _)

  pub shuffle-perm : (xs : List A) (seed : ℕ) → Perm xs (Serial.shuffle xs seed)
  unfolding Serial.shuffle
  shuffle-perm xs seed = shuffle_from-perm (length xs) (bit_or seed 1) xs
