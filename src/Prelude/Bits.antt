-- ===== src/Prelude/Bits.antt =====
-- The bits of a machine word: `word & (1 << k) != 0`, the positions that are set, and the word that
-- they spell.
use Prim.Native.Nat.{
  ℕ, zero, suc, ◌+◌, ◌*◌, ◌/◌, ◌%◌, ◌^◌, ◌≤◌, ◌<◌, min, bit_and, digits, bit_and-bitwise,
}
use mathlib.Core.Path.{◌≡◌, refl, ap}
use mathlib.Core.Logic.{inl, inr}
use mathlib.Core.Bool.{Bool, not}
use mathlib.Core.List.{List, [], ◌∷◌, map}
use native.Mathlib.Omega.{arith}
use native.Mathlib.Nat.{le_refl, pow-suc, div-div-eq-div-mul}
use nixos_test.Prelude.Lists.{length, length-map}
use nixos_test.Prelude.Every.{All, All-map, All-weaken, All-always}
use nixos_test.Prelude.Tests.{◌==◌, if◌then◌else◌, Bool-cases}

module _ {ℓ} {A : Type ℓ} where
  abbrev pub filter : (A → Bool) → List A → List A
  filter p [] = []
  filter p (x ∷ xs) = if p x then x ∷ filter p xs else filter p xs

-- `0..count`
abbrev pub range : ℕ → List ℕ
range zero = []
range (suc count) = 0 ∷ map suc (range count)

pub length-range : (count : ℕ) → length (range count) ≡ count
length-range zero = refl
length-range (suc count) = omega (arith, length-map (range count) suc, length-range count)

unfoldable pub bit_set : ℕ → ℕ → Bool
bit_set word k = not (bit_and word (2 ^ k) == 0)

-- The sum of the weights of some positions.
abbrev pub weight : List ℕ → ℕ
weight [] = 0
weight (k ∷ ks) = 2 ^ k + weight ks

and_digits : ℕ → ℕ → ℕ → ℕ
and_digits = digits (λ b. zero) min

-- More rounds than the first number needs change nothing.
and_digits_rounds : (m n a b : ℕ) → a ≤ m → a ≤ n → and_digits m a b ≡ and_digits n a b
unfolding and_digits
and_digits_rounds m n zero b h k = nothing m n
  where
    nothing : (m n : ℕ) → digits (λ b. zero) min m 0 b ≡ digits (λ b. zero) min n 0 b
    nothing zero zero = refl
    nothing zero (suc n) = refl
    nothing (suc m) zero = refl
    nothing (suc m) (suc n) = refl
and_digits_rounds zero n (suc a) b h k = absurd (omega arith)
and_digits_rounds (suc m) zero (suc a) b h k = absurd (omega arith)
and_digits_rounds (suc m) (suc n) (suc a) b h k =
    ap (λ (t : ℕ). t * 2 + min (suc a % 2) (b % 2))
      (and_digits_rounds m n (suc a / 2) (b / 2) (omega arith) (omega arith))

-- `&` by its lowest digit.
bit_and-halves : (a b : ℕ) → bit_and a b ≡ bit_and (a / 2) (b / 2) * 2 + min (a % 2) (b % 2)
bit_and-halves zero b = simp bit_and-bitwise (omega arith)
bit_and-halves (suc a) b = simp bit_and-bitwise (
    ap (λ (t : ℕ). t * 2 + min (suc a % 2) (b % 2))
      (unfold and_digits in
        and_digits_rounds a (suc a / 2) (suc a / 2) (b / 2) (omega arith) (le_refl _)))

and_digits-none : (n a : ℕ) → and_digits n a 0 ≡ 0
unfolding and_digits
and_digits-none zero a = refl
and_digits-none (suc n) zero = refl
and_digits-none (suc n) (suc a) = omega (arith, and_digits-none n (suc a / 2))

bit_and-none : (a : ℕ) → bit_and a 0 ≡ 0
bit_and-none a = simp bit_and-bitwise (unfold and_digits in and_digits-none a a)

bit_set-zero : (word : ℕ) → bit_set word 0 ≡ not (word % 2 == 0)
unfolding bit_set
bit_set-zero word = ground (arith, bit_and-halves word 1, bit_and-none (word / 2))

-- The positions above the lowest are those of the half.
bit_set-suc : (word k : ℕ) → bit_set word (suc k) ≡ bit_set (word / 2) k
unfolding bit_set
bit_set-suc word k = ground (arith, bit_and-halves word (2 ^ suc k), pow-suc 2 k)

-- Each position is above the ones before it, so none occurs twice.
abbrev pub Ascending : List ℕ → Type 0
Ascending [] = Unit
Ascending (k ∷ ks) = All (λ j. k < j) ks × Ascending ks

All-filtered : (P : ℕ → Type 0) (p : ℕ → Bool) (ks : List ℕ) → All P ks → All P (filter p ks)
All-filtered P p [] h = tt
All-filtered P p (k ∷ ks) (here, h) = elim (Bool-cases (p k)) [
  | inl kept ↦ rw kept (here, All-filtered P p ks h)
  | inr dropped ↦ rw dropped (All-filtered P p ks h)
]

Ascending-filter : (p : ℕ → Bool) (ks : List ℕ) → Ascending ks → Ascending (filter p ks)
Ascending-filter p [] h = tt
Ascending-filter p (k ∷ ks) (above, h) = elim (Bool-cases (p k)) [
  | inl kept ↦ rw kept (All-filtered (λ j. k < j) p ks above, Ascending-filter p ks h)
  | inr dropped ↦ rw dropped (Ascending-filter p ks h)
]

Ascending-map-suc : (ks : List ℕ) → Ascending ks → Ascending (map suc ks)
Ascending-map-suc [] h = tt
Ascending-map-suc (k ∷ ks) (above, h) = (
  All-map (λ j. suc k < j) suc ks
      (All-weaken (λ j. k < j) (λ j. suc k < suc j) (λ j h. omega arith) ks above),
  Ascending-map-suc ks h,
)

Ascending-range : (count : ℕ) → Ascending (range count)
Ascending-range zero = tt
Ascending-range (suc count) = (
  All-map (λ j. 0 < j) suc (range count)
      (All-always (λ k. 0 < suc k) (λ k. omega arith) (range count)),
  Ascending-map-suc (range count) (Ascending-range count),
)

-- The set bits of a word are listed in order, each once.
pub Ascending-set_bits : (count word : ℕ) → Ascending (filter (bit_set word) (range count))
Ascending-set_bits count word =
    Ascending-filter (bit_set word) (range count) (Ascending-range count)

module _ {ℓ κ} {A : Type ℓ} {B : Type κ} where
  pub filter-map :
      (p : B → Bool) (q : A → Bool) (f : A → B)
      → ((a : A) → p (f a) ≡ q a)
      → (xs : List A) → filter p (map f xs) ≡ map f (filter q xs)
  filter-map p q f same [] = refl
  filter-map p q f same (x ∷ xs) = elim (Bool-cases (q x)) [
    | inl set ↦ rw (same x, set, filter-map p q f same xs) refl
    | inr clear ↦ rw (same x, clear, filter-map p q f same xs) refl
  ]

weight-map-suc : (ks : List ℕ) → weight (map suc ks) ≡ 2 * weight ks
weight-map-suc [] = refl
weight-map-suc (k ∷ ks) = omega (arith, weight-map-suc ks, pow-suc 2 k)

halves_mod : (word count : ℕ) → word % 2 ^ suc count ≡ 2 * (word / 2 % 2 ^ count) + word % 2
halves_mod word count = omega (arith, whole)
  where
    double : 2 ^ suc count ≡ 2 * 2 ^ count
    double = omega (arith, pow-suc 2 count)

    whole : 2 ^ suc count * (word / 2 ^ suc count) ≡ 2 * (2 ^ count * (word / 2 / 2 ^ count))
    whole = rw (div-div-eq-div-mul word 2 (2 ^ count), double) (omega arith)

-- The set bits of a word spell the word.
pub weight-filter-bit_set :
    (count word : ℕ) → weight (filter (bit_set word) (range count)) ≡ word % 2 ^ count
weight-filter-bit_set zero word = omega arith
weight-filter-bit_set (suc count) word =
    let e : weight (filter (bit_set word) (map suc (range count))) ≡ 2 * (word / 2 % 2 ^ count) =
      rw
        (
          filter-map (bit_set word) (bit_set (word / 2)) suc (bit_set-suc word) (range count),
          weight-map-suc (filter (bit_set (word / 2)) (range count)),
          weight-filter-bit_set count (word / 2),
        )
        refl in
    elim (Bool-cases (word % 2 == 0)) [
      | inl even ↦ rw (bit_set-zero word, even, e) (ground (arith, even, halves_mod word count))
      | inr odd ↦ rw (bit_set-zero word, odd, e) (ground (arith, odd, halves_mod word count))
    ]
