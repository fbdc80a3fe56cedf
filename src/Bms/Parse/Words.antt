-- ===== src/Bms/Parse/Words.antt =====
-- packages/bms-monitoring/src/parse.rs: little-endian words and two's complement.
use nixos_test.Prelude.{
  ℕ, suc, ◌+◌, ◌-◌, ◌/◌, ◌%◌, ◌^◌, ◌<◌, ◌≡◌, [], ◌∷◌, ◌++◌, Bytes, arith, length, get_or,
  get_or-append,
}
use nixos_test.Prelude.Int.{ℤ, pos, negsuc}
use nixos_test.Bms.Parse.{u16_at, u32_at, i32_at, signed}

-- `i32::to_le_bytes`, an independent description.
abbrev le_bytes : ℕ → Bytes
le_bytes word = word % 256 ∷ word / 256 % 256 ∷ word / 65_536 % 256 ∷ word / 16_777_216 % 256 ∷ []

abbrev pub to_le_bytes : ℤ → Bytes
to_le_bytes (pos n) = le_bytes n
to_le_bytes (negsuc n) = le_bytes (2 ^ 32 - suc n)

abbrev pub IsI32 : ℤ → Type 0
IsI32 (pos n) = n < 2 ^ 31
IsI32 (negsuc n) = n < 2 ^ 31

get_or-behind :
    (before after : Bytes) (bytes : Bytes) (k : ℕ)
    → get_or (before ++ (bytes ++ after)) (length before + k) 0 ≡ get_or (bytes ++ after) k 0
get_or-behind before after bytes k = get_or-append before (bytes ++ after) k

u32_at-le_bytes :
    (before after : Bytes) (word : ℕ)
    → word < 2 ^ 32
    → u32_at (before ++ (le_bytes word ++ after)) (length before) ≡ word
unfolding u32_at u16_at
u32_at-le_bytes before after word h =
    let e0 : length before + 0 ≡ length before = omega arith in
    let e3 : length before + 3 ≡ length before + 2 + 1 = omega arith in
    omega (
      arith,
      (rw e0 at (get_or-behind before after (le_bytes word) 0)),
      get_or-behind before after (le_bytes word) 1,
      get_or-behind before after (le_bytes word) 2,
      (rw e3 at (get_or-behind before after (le_bytes word) 3)),
    )

-- The four bytes of a signed 32-bit integer, wherever they stand, are read back as that integer.
pub i32_at-to_le_bytes :
    (before after : Bytes) (z : ℤ)
    → IsI32 z
    → i32_at (before ++ (to_le_bytes z ++ after)) (length before) ≡ z
unfolding i32_at signed
i32_at-to_le_bytes before after (pos n) h =
    rw (u32_at-le_bytes before after n (omega (arith, h))) (ground (arith, h))
i32_at-to_le_bytes before after (negsuc n) h =
    rw (u32_at-le_bytes before after (2 ^ 32 - suc n) (omega arith)) (ground (arith, h))
