-- ===== src/Prelude/Words.antt =====
-- Bytes, machine words and the conversions between them.
use Prim.Native.Nat.{ℕ, zero, suc, ◌+◌, ◌*◌, ◌/◌, ◌%◌, ◌^◌, ◌-◌, ◌≤◌, ◌<◌}
use mathlib.Core.Path.{◌≡◌, refl, ap}
use mathlib.Core.Bool.{Bool, true, false, ◌&&◌}
use mathlib.Core.List.{List, [], ◌∷◌, ◌++◌}
use mathlib.Core.Option.{Option, none, some}
use native.Mathlib.Omega.{arith}
use nixos_test.Prelude.Every.{All}
use nixos_test.Prelude.Tests.{ltb, ltb→lt, &&-eq_true, ◌==◌, leb, le→leb, if◌then◌else◌}
use nixos_test.Prelude.Lists.{length, get_or, take, drop, length-take, drop-take, take-take}

abbrev pub Bytes : Type 0
Bytes = List ℕ

abbrev pub IsByte : ℕ → Type 0
IsByte b = b < 256

-- Addition on `u64`, with the wrap-around of a release build.
abbrev pub add_u64 : ℕ → ℕ → ℕ
add_u64 a b = (a + b) % 2 ^ 64

-- `u16::from_be_bytes` and `to_be_bytes`
abbrev pub be_u16 : ℕ → ℕ → ℕ
be_u16 hi lo = hi * 256 + lo

abbrev pub to_be_u16 : ℕ → Bytes
to_be_u16 n = (n / 256 % 256) ∷ n % 256 ∷ []

-- `==` on byte slices
unfoldable pub bytes_eq : Bytes → Bytes → Bool
bytes_eq [] [] = true
bytes_eq [] (y ∷ ys) = false
bytes_eq (x ∷ xs) [] = false
bytes_eq (x ∷ xs) (y ∷ ys) = x == y && bytes_eq xs ys

pub bytes_eq_refl : (xs : Bytes) → bytes_eq xs xs ≡ true
unfolding bytes_eq
bytes_eq_refl [] = refl
bytes_eq_refl (x ∷ xs) = ground (arith, bytes_eq_refl xs)

pub bytes_eq→eq : (xs ys : Bytes) → bytes_eq xs ys ≡ true → xs ≡ ys
unfolding bytes_eq
bytes_eq→eq [] [] h = refl
bytes_eq→eq [] (y ∷ ys) h = cc
bytes_eq→eq (x ∷ xs) [] h = cc
bytes_eq→eq (x ∷ xs) (y ∷ ys) h = ground (arith, bytes_eq→eq xs ys)

-- A slice that ends in three bytes.
pub last_three :
    (n : ℕ) (xs : Bytes)
    → length xs ≡ n + 3
    → xs ≡ take n xs ++ (get_or xs n 0 ∷ get_or xs (suc n) 0 ∷ get_or xs (suc (suc n)) 0 ∷ [])
last_three zero (a ∷ b ∷ c ∷ []) h = refl
last_three zero (a ∷ b ∷ c ∷ d ∷ xs) h = absurd (omega arith)
last_three zero [] h = absurd (omega arith)
last_three zero (a ∷ []) h = absurd (omega arith)
last_three zero (a ∷ b ∷ []) h = absurd (omega arith)
last_three (suc n) [] h = absurd (omega arith)
last_three (suc n) (x ∷ xs) h = ap (◌∷◌ x) (last_three n xs (omega arith))

pub get_or-append : (xs ys : Bytes) (i : ℕ) → get_or (xs ++ ys) (length xs + i) 0 ≡ get_or ys i 0
get_or-append [] ys i = let e : 0 + i ≡ i = omega arith in rw e refl
get_or-append (x ∷ xs) ys i =
    let e : length (x ∷ xs) + i ≡ suc (length xs + i) = omega arith in rw e (get_or-append xs ys i)

-- `bytes.get(from..to)`
unfoldable pub slice : Bytes → ℕ → ℕ → Option Bytes
slice bs from to =
    if leb from to && leb to (length bs) then some (take (to - from) (drop from bs)) else none

pub slice-some :
    (bs : Bytes) (from to : ℕ) {s : Bytes}
    → slice bs from to ≡ some s
    → (from ≤ to) × (to ≤ length bs) × (s ≡ take (to - from) (drop from bs))
unfolding slice
slice-some bs from to h = ground arith

-- `option.unwrap_or(d)`
abbrev pub unwrap_or {ℓ} : {A : Type ℓ} → Option A → A → A
unwrap_or none d = d
unwrap_or (some a) d = a

-- `u32::from_be_bytes`, and its inverse on numbers below 2^32
abbrev pub be_u32 : ℕ → ℕ → ℕ → ℕ → ℕ
be_u32 a b c d = ((a * 256 + b) * 256 + c) * 256 + d

-- `n.div_ceil(4) * 4`
abbrev pub round_up_4 : ℕ → ℕ
round_up_4 n = (n + 3) / 4 * 4

-- Bytes that end before a cut are the same in what is kept.
pub slice-take :
    (bs : Bytes) (n from to : ℕ)
    → to ≤ n
    → n ≤ length bs
    → slice (take n bs) from to ≡ slice bs from to
unfolding slice
slice-take bs n from to h fits = rw (
  le→leb to (length bs) (omega arith),
  le→leb to (length (take n bs)) (omega (arith, length-take n bs)),
  drop-take from n bs,
  take-take (to - from) (n - from) (drop from bs) (omega arith),
)

-- `All IsByte`, as a test.
abbrev pub are_bytes : Bytes → Bool
are_bytes [] = true
are_bytes (b ∷ bs) = ltb b 256 && are_bytes bs

pub are_bytes-All : (bs : Bytes) → are_bytes bs ≡ true → All IsByte bs
are_bytes-All [] h = tt
are_bytes-All (b ∷ bs) h =
    let (small, rest) = &&-eq_true (ltb b 256) _ h in (ltb→lt b 256 small, are_bytes-All bs rest)
