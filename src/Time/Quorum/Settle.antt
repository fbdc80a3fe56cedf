-- ===== src/Time/Quorum/Settle.antt =====
-- packages/time-correction/src/quorum.rs: the middle of readings that agree.
use nixos_test.Prelude.{
  suc, ◌/◌, ◌≡◌, ◌≢◌, refl, ap, ◌∙◌, some, List, [], ◌∷◌, arith, Bool-cases, inl, inr, length, All,
  All-weaken, All-both, All-get_elem?, get_elem?-some,
}
use nixos_test.Prelude.Int.{
  ℤ, ◌≤ℤ◌, ◌-ℤ◌, ltb_ℤ, ltb_ℤ-false, ltb_ℤ-true, ≤ℤ→ltb_ℤ-false, Within, int_laws,
}
use nixos_test.Prelude.Outcome.{ok, err, ok_or-eq_ok, err-injective, ok-ne-err, rejected-eq_ok}
use nixos_test.Time.Quorum.{insert, sort, middle, newest, oldest, Refusal, panicked, settle}

insert-All {ℓ} : (P : ℤ → Type ℓ) (x : ℤ) (ys : List ℤ) → P x → All P ys → All P (insert x ys)
unfolding insert
insert-All P x [] p h = (p, h)
insert-All P x (y ∷ ys) p (q, h) = elim (Bool-cases (ltb_ℤ y x)) [
  | inl later ↦ rw later (q, insert-All P x ys p h)
  | inr here ↦ rw here (p, (q, h))
]

sort-All {ℓ} : (P : ℤ → Type ℓ) (xs : List ℤ) → All P xs → All P (sort xs)
unfolding sort
sort-All P [] h = h
sort-All P (x ∷ xs) (p, h) = insert-All P x (sort xs) p (sort-All P xs h)

length-insert : (x : ℤ) (ys : List ℤ) → length (insert x ys) ≡ suc (length ys)
unfolding insert
length-insert x [] = refl
length-insert x (y ∷ ys) = elim (Bool-cases (ltb_ℤ y x)) [
  | inl later ↦ rw later (ap suc (length-insert x ys))
  | inr here ↦ rw here refl
]

length-sort : (xs : List ℤ) → length (sort xs) ≡ length xs
unfolding sort
length-sort [] = refl
length-sort (x ∷ xs) = length-insert x (sort xs) ∙ ap suc (length-sort xs)

-- The middle of some readings is one of them.
middle-All {ℓ} : (P : ℤ → Type ℓ) (xs : List ℤ) (m : ℤ) → All P xs → middle xs ≡ some m → P m
unfolding middle
middle-All P xs m h e = All-get_elem? P (sort xs) (length xs / 2) m (sort-All P xs h) e

middle-some : (x : ℤ) (xs : List ℤ) → (m : ℤ) × (middle (x ∷ xs) ≡ some m)
unfolding middle
middle-some x xs =
    get_elem?-some (sort (x ∷ xs)) (length (x ∷ xs) / 2) (omega (arith, length-sort (x ∷ xs)))

module _ {ℓ} (P : ℤ → Type ℓ) where
  newest-All : (m : ℤ) (xs : List ℤ) → P m → All P xs → P (newest m xs)
  unfolding newest
  newest-All m [] p h = p
  newest-All m (x ∷ xs) p (q, h) = elim (Bool-cases (ltb_ℤ m x)) [
    | inl more ↦ rw more (newest-All x xs q h)
    | inr less ↦ rw less (newest-All m xs p h)
  ]

  oldest-All : (m : ℤ) (xs : List ℤ) → P m → All P xs → P (oldest m xs)
  unfolding oldest
  oldest-All m [] p h = p
  oldest-All m (x ∷ xs) p (q, h) = elim (Bool-cases (ltb_ℤ x m)) [
    | inl less ↦ rw less (oldest-All x xs q h)
    | inr more ↦ rw more (oldest-All m xs p h)
  ]

newest-upper : (c m : ℤ) (xs : List ℤ) → newest m xs ≤ℤ c → (m ≤ℤ c) × All (λ x. x ≤ℤ c) xs
unfolding newest
newest-upper c m [] h = (h, tt)
newest-upper c m (x ∷ xs) h = elim (Bool-cases (ltb_ℤ m x)) [
  | inl more ↦
      let (hx, r) = newest-upper c x xs (rw more at h) in
      (omega (arith, hx, ltb_ℤ-true m x more), (hx, r))
  | inr less ↦
      let (hm, r) = newest-upper c m xs (rw less at h) in
      (hm, (omega (arith, hm, ltb_ℤ-false m x less), r))
]

oldest-lower : (c m : ℤ) (xs : List ℤ) → c ≤ℤ oldest m xs → (c ≤ℤ m) × All (λ x. c ≤ℤ x) xs
unfolding oldest
oldest-lower c m [] h = (h, tt)
oldest-lower c m (x ∷ xs) h = elim (Bool-cases (ltb_ℤ x m)) [
  | inl less ↦
      let (hx, r) = oldest-lower c x xs (rw less at h) in
      (omega (arith, hx, ltb_ℤ-true x m less), (hx, r))
  | inr more ↦
      let (hm, r) = oldest-lower c m xs (rw more at h) in
      (hm, (omega (arith, hm, ltb_ℤ-false x m more), r))
]

-- Two readings between the same bounds are no further apart than the bounds.
between :
    (lo hi c t x : ℤ) → hi -ℤ lo ≤ℤ c → (lo ≤ℤ t) × (t ≤ℤ hi) → (lo ≤ℤ x) × (x ≤ℤ hi) → Within c t x
between lo hi c t x h t_in x_in = (omega int_laws, omega int_laws)

module _ (x : ℤ) (xs : List ℤ) where
  abbrev InRange : ℤ → Type 0
  InRange y = (oldest x xs ≤ℤ y) × (y ≤ℤ newest x xs)

  readings-InRange : All InRange (x ∷ xs)
  readings-InRange =
      let (lo, los) = oldest-lower (oldest x xs) x xs (omega arith) in
      let (hi, his) = newest-upper (newest x xs) x xs (omega arith) in
      ((lo, hi), All-both (λ y. oldest x xs ≤ℤ y) (λ y. y ≤ℤ newest x xs) xs los his)

-- A reading that is settled on is within the tolerance of every reading, and has every property
-- that they all have: it is one of them.
pub settle_sound {ℓ} :
    (xs : List ℤ) (c : ℤ) (refuse : ℤ → Refusal) (t : ℤ) (P : ℤ → Type ℓ)
    → settle xs c refuse ≡ ok t
    → All P xs
    → All (Within c t) xs × P t
unfolding settle
settle_sound [] c refuse t P h ps = cc
settle_sound (x ∷ xs) c refuse t P h ps =
    let (close, h') = rejected-eq_ok _ _ h in
    let m = ok_or-eq_ok _ _ h' in
    let t_in = middle-All (InRange x xs) (x ∷ xs) t (readings-InRange x xs) m in
    (
      All-weaken (InRange x xs) (Within c t)
          (λ y y_in. between _ _ c t y (ltb_ℤ-false c (newest x xs -ℤ oldest x xs) close) t_in y_in)
          (x ∷ xs) (readings-InRange x xs),
      middle-All P (x ∷ xs) t ps m,
    )

-- Readings that all lie within the tolerance of one another are settled.
pub settle_complete :
    (x : ℤ) (xs : List ℤ) (c : ℤ) (refuse : ℤ → Refusal)
    → All (λ y. All (Within c y) (x ∷ xs)) (x ∷ xs)
    → (t : ℤ) × (settle (x ∷ xs) c refuse ≡ ok t)
unfolding settle
settle_complete x xs c refuse (h, hs) =
    let (m, e) = middle-some x xs in
    let from_newest = newest-All (λ y. All (Within c y) (x ∷ xs)) x xs h hs in
    let apart = oldest-All (Within c (newest x xs)) x xs from_newest.0 from_newest.1 in
    (m, rw (≤ℤ→ltb_ℤ-false _ _ apart.0, e))

pub settle-ne-panicked :
    (x : ℤ) (xs : List ℤ) (c : ℤ) (refuse : ℤ → Refusal)
    → ((d : ℤ) → refuse d ≢ panicked)
    → settle (x ∷ xs) c refuse ≢ err panicked
unfolding settle
settle-ne-panicked x xs c refuse ne h =
    let (m, e) = middle-some x xs in
    elim (Bool-cases (ltb_ℤ c (newest x xs -ℤ oldest x xs))) [
      | inl far ↦ ne _ (err-injective _ _ (rw far at h))
      | inr close ↦ absurd (ok-ne-err _ _ (rw (close, e) at h))
    ]
