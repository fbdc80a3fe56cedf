-- ===== src/Time/Quorum/Sample.antt =====
-- packages/time-correction/src/quorum.rs: `sample` draws without replacement.
use nixos_test.Prelude.{
  ℕ, zero, suc, ◌%◌, ◌≡◌, refl, ap, List, [], ◌∷◌, ◌++◌, Bytes, arith, length, All,
}
use Prim.Native.Nat.{min}
use mathlib.Core.List.{Perm, Nodup}
use mathlib.Core.List.Nodup
use mathlib.Core.List.Perm
use nixos_test.Time.Quorum.{advance, mix, nth, without, sample_loop, sample}

module _ {ℓ} {A : Type ℓ} where
  nth-perm-without : (x : A) (xs : List A) (i : ℕ) → Perm (x ∷ xs) (nth x xs i ∷ without x xs i)
  unfolding nth without
  nth-perm-without x xs zero = Perm.refl (x ∷ xs)
  nth-perm-without x [] (suc i) = Perm.refl (x ∷ [])
  nth-perm-without x (y ∷ ys) (suc i) =
      Perm.trans (Perm.cons x (nth-perm-without y ys i)) (Perm.swap _ _ _)

  length-without : (x : A) (xs : List A) (i : ℕ) → length (without x xs i) ≡ length xs
  unfolding without
  length-without x xs zero = refl
  length-without x [] (suc i) = refl
  length-without x (y ∷ ys) (suc i) = ap suc (length-without y ys i)

sample_loop-perm :
    (count : ℕ) (pool : List Bytes) (state : ℕ)
    → (left : List Bytes) × Perm pool (sample_loop count pool state ++ left)
unfolding sample_loop
sample_loop-perm zero pool state = (pool, Perm.refl pool)
sample_loop-perm (suc count) [] state = ([], Perm.refl [])
sample_loop-perm (suc count) (name ∷ names) state =
    let index = mix (advance state) % length (name ∷ names) in
    let (left, p) = sample_loop-perm count (without name names index) (advance state) in
    (left, Perm.trans (nth-perm-without name names index) (Perm.cons _ p))

length-sample_loop :
    (count : ℕ) (pool : List Bytes) (state : ℕ)
    → length (sample_loop count pool state) ≡ min count (length pool)
unfolding sample_loop
length-sample_loop zero pool state = omega arith
length-sample_loop (suc count) [] state = omega arith
length-sample_loop (suc count) (name ∷ names) state =
    let index = mix (advance state) % length (name ∷ names) in
    omega (
      arith,
      length-sample_loop count (without name names index) (advance state),
      length-without name names index,
    )

-- For any seed, `sample` draws as many names as were asked for, or all if there are fewer, and the
-- names drawn are, with those that are left, exactly the names given: it draws without replacement.
pub sample_lem :
    (names : List Bytes) (count seed : ℕ)
    → (length (sample names count seed) ≡ min count (length names))
      × ((left : List Bytes) × Perm names (sample names count seed ++ left))
unfolding sample
sample_lem names count seed =
    (length-sample_loop count names seed, sample_loop-perm count names seed)

-- If the names given are distinct, so are the names drawn: no provider is drawn twice.
pub sample-Nodup :
    (names : List Bytes) (count seed : ℕ) → Nodup names → Nodup (sample names count seed)
sample-Nodup names count seed h =
    let (left, p) = (sample_lem names count seed).1 in Nodup.of_append_left left (Perm.nodup p h)

module _ {ℓ κ} {A : Type ℓ} (P : A → Type κ) where
  nth-All : (x : A) (xs : List A) (i : ℕ) → P x → All P xs → P (nth x xs i)
  unfolding nth
  nth-All x xs zero p h = p
  nth-All x [] (suc i) p h = p
  nth-All x (y ∷ ys) (suc i) p (q, h) = nth-All y ys i q h

  without-All : (x : A) (xs : List A) (i : ℕ) → P x → All P xs → All P (without x xs i)
  unfolding without
  without-All x xs zero p h = h
  without-All x [] (suc i) p h = tt
  without-All x (y ∷ ys) (suc i) p (q, h) = (p, without-All y ys i q h)

sample_loop-All {κ} :
    (P : Bytes → Type κ) (count : ℕ) (pool : List Bytes) (state : ℕ)
    → All P pool
    → All P (sample_loop count pool state)
unfolding sample_loop
sample_loop-All P zero pool state h = tt
sample_loop-All P (suc count) [] state h = tt
sample_loop-All P (suc count) (name ∷ names) state (p, h) =
    let index = mix (advance state) % length (name ∷ names) in
    (
      nth-All P name names index p h,
      sample_loop-All P count (without name names index) (advance state)
          (without-All P name names index p h),
    )

-- What holds of every name holds of those drawn.
pub sample-All {κ} :
    (P : Bytes → Type κ) (names : List Bytes) (count seed : ℕ)
    → All P names
    → All P (sample names count seed)
unfolding sample
sample-All P names count seed h = sample_loop-All P count names seed h
