-- ===== src/Inverter/Serial/Ordered.antt =====
-- packages/inverter-monitoring/src/discover.rs: every port is tried once, the remembered one first.
use nixos_test.Prelude.{
  ◌≡◌, refl, Bool, true, not, some, List, [], ◌∷◌, ◌++◌, Bytes, All, Bool-cases, inl, inr, bytes_eq,
  bytes_eq→eq, ℕ, All-weaken,
}
use mathlib.Core.List.{Perm}
use mathlib.Core.List.Perm
use nixos_test.Prelude.Bits.{filter}
use nixos_test.Prelude.Distinct.{All-filter}
use nixos_test.Serial.{Candidate, shuffle}
use nixos_test.Serial.Shuffled.{shuffle-perm}
use nixos_test.Inverter.Serial.{is_remembered, order}

module _ {ℓ} {A : Type ℓ} (p : A → Bool) where
  -- Those that pass a test, and then those that do not, are all.
  filter-perm : (xs : List A) → Perm xs (filter p xs ++ filter (λ x. not (p x)) xs)
  filter-perm [] = Perm.refl []
  filter-perm (x ∷ xs) = elim (Bool-cases (p x)) [
    | inl kept ↦ rw kept (Perm.cons x (filter-perm xs))
    | inr other ↦ rw other (Perm.trans (Perm.cons x (filter-perm xs)) (between x (filter p xs) _))
  ]
    where
      between : (x : A) (ys zs : List A) → Perm (x ∷ (ys ++ zs)) (ys ++ (x ∷ zs))
      between x [] zs = Perm.refl (x ∷ zs)
      between x (y ∷ ys) zs = Perm.trans (Perm.swap _ _ _) (Perm.cons y (between x ys zs))

append-perm {ℓ} :
    {A : Type ℓ} (xs : List A) {ys zs : List A} → Perm ys zs → Perm (xs ++ ys) (xs ++ zs)
append-perm [] p = p
append-perm (x ∷ xs) p = Perm.cons x (append-perm xs p)

-- Whatever the seed, the order holds every candidate exactly once: first candidates that all have the
-- remembered path, and then, in some order, exactly the candidates that do not have it.
pub order_lem :
    (candidates : List Candidate) (path_id : Bytes) (seed : ℕ)
    → Perm candidates (order candidates (some path_id) seed)
      × ((first : List Candidate) × (later : List Candidate) × (order candidates (some path_id) seed
            ≡ first ++ later)
          × All (λ c. c.path_id ≡ path_id) first
          × Perm (filter (λ c. not (bytes_eq c.path_id path_id)) candidates) later)
unfolding order is_remembered
order_lem candidates path_id seed =
    let others = filter (λ (c : Candidate). not (bytes_eq c.path_id path_id)) candidates in
    let shuffled = shuffle-perm others seed in
    (
      Perm.trans (filter-perm (λ (c : Candidate). bytes_eq c.path_id path_id) candidates) (
          append-perm (filter (λ (c : Candidate). bytes_eq c.path_id path_id) candidates) shuffled),
      (
        filter (λ (c : Candidate). bytes_eq c.path_id path_id) candidates,
        shuffle others seed,
        refl,
        All-weaken (λ (c : Candidate). bytes_eq c.path_id path_id ≡ true) (λ c. c.path_id ≡ path_id)
            (λ c e. bytes_eq→eq c.path_id path_id e)
            (filter (λ (c : Candidate). bytes_eq c.path_id path_id) candidates)
            (All-filter (λ (c : Candidate). bytes_eq c.path_id path_id) candidates),
        shuffled,
      ),
    )
