-- ===== src/Bms/Parse.antt =====
-- packages/bms-monitoring/src/parse.rs: the numbers of a checked frame in natural units. `f64` is
-- the machine's, so it is a parameter; the words are little-endian.
pub mod Cells
pub mod Realtime
pub mod Alarms
pub mod Settings
pub mod Words
pub mod Readings
mod Tests
use nixos_test.Prelude.{
  ℕ, ◌+◌, ◌*◌, ◌^◌, ◌≤◌, ◌<◌, zero, suc, [], ◌∷◌, All, IsByte, arith, ◌≡◌, Bool, Bytes, ltb,
  if◌then◌else◌, get_or,
}
use nixos_test.Prelude.Int.{ℤ, pos, pos_part, neg_part, sub_ℕ, ltb_ℤ}

-- The integers that 32 bits hold, signed or not.
abbrev pub IsWord : ℤ → Type 0
IsWord z = (pos_part z ≤ 2 ^ 32) × (neg_part z ≤ 2 ^ 32)

-- What the source uses of `f64`. The laws are those of IEEE 754 on 32-bit integers, which a double
-- holds exactly and whose quotients by 1000 it keeps apart and in order.
pub record F64 : Type 1 where
  pub Double : Type 0
  pub of_int : ℤ → Double
  pub divide : Double → Double → Double
  pub add : Double → Double → Double
  pub subtract : Double → Double → Double
  pub negate : Double → Double
  pub less : Double → Double → Bool
  pub less-divide :
      (a b : ℤ)
      → IsWord a
      → IsWord b
      → less (divide (of_int a) (of_int (pos 1000))) (divide (of_int b) (of_int (pos 1000)))
        ≡ ltb_ℤ a b
  pub less-divide-zero :
      (a : ℤ)
      → IsWord a
      → less (divide (of_int a) (of_int (pos 1000))) (of_int (pos 0)) ≡ ltb_ℤ a (pos 0)

-- A checked frame has 300 bytes, so no index of the source is out of range.
unfoldable pub u16_at : Bytes → ℕ → ℕ
u16_at frame offset = get_or frame offset 0 + 256 * get_or frame (offset + 1) 0

pub get_or-byte : (frame : Bytes) (offset : ℕ) → All IsByte frame → get_or frame offset 0 < 256
get_or-byte [] offset h = omega arith
get_or-byte (b ∷ frame) zero h = h.0
get_or-byte (b ∷ frame) (suc offset) h = get_or-byte frame offset h.1

pub u16_at-bound : (frame : Bytes) (offset : ℕ) → All IsByte frame → u16_at frame offset < 2 ^ 16
unfolding u16_at
u16_at-bound frame offset h =
    omega (arith, get_or-byte frame offset h, get_or-byte frame (offset + 1) h)

pub u16_at-word : (frame : Bytes) (offset : ℕ) → All IsByte frame → u16_at frame offset < 2 ^ 32
u16_at-word frame offset h = omega (arith, u16_at-bound frame offset h)

unfoldable pub u32_at : Bytes → ℕ → ℕ
u32_at frame offset = u16_at frame offset + 2 ^ 16 * u16_at frame (offset + 2)

pub u32_at-bound : (frame : Bytes) (offset : ℕ) → All IsByte frame → u32_at frame offset < 2 ^ 32
unfolding u32_at
u32_at-bound frame offset h =
    omega (arith, u16_at-bound frame offset h, u16_at-bound frame (offset + 2) h)

-- Two's complement.
pub signed : ℕ → ℕ → ℤ
signed modulus word = if ltb (2 * word) modulus then pos word else sub_ℕ word modulus

pub i16_at : Bytes → ℕ → ℤ
i16_at frame offset = signed (2 ^ 16) (u16_at frame offset)

pub i32_at : Bytes → ℕ → ℤ
i32_at frame offset = signed (2 ^ 32) (u32_at frame offset)

module _ (f64 : F64) where
  open f64 use {Double, of_int, divide}

  unfoldable pub milli : ℤ → Double
  milli raw = divide (of_int raw) (of_int (pos 1000))

  pub deci : ℤ → Double
  deci raw = divide (of_int raw) (of_int (pos 10))
