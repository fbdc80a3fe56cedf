-- ===== src/Inverter/Parse.antt =====
-- packages/inverter-monitoring/src/parse.rs: the fields of a payload, at fixed offsets with fixed
-- widths. `f64` and the test for UTF-8 are the standard library's, so they are parameters.
pub mod Mode
pub mod Status
pub mod Warnings
pub mod Identity
pub mod Digits
mod Tests
use nixos_test.Prelude.{
  ℕ, zero, suc, ◌+◌, ◌-◌, ◌*◌, ◌^◌, ◌<◌, ◌≡◌, Bool, true, false, ◌&&◌, not, Option, none, some,
  List, [], ◌∷◌, Bytes, All, ltb, leb, ◌==◌, if◌then◌else◌, length, slice, get_elem?,
}
unfoldable pub use nixos_test.Prelude.Text.{is_digit, is_graphic, all, number_from}
use nixos_test.Prelude.Outcome.{Result, ok, err, ◌>>=◌, ◌>>◌, require, ok_or}

-- What the source uses of the standard library: a text of ASCII bytes is UTF-8.
pub record Std : Type 1 where
  pub Double : Type 0
  pub of_int : ℕ → Double
  pub divide : Double → Double → Double
  pub parse_f64 : Bytes → Option Double
  pub is_utf8 : Bytes → Bool
  pub is_utf8_ascii : (bytes : Bytes) → All (λ b. b < 128) bytes → is_utf8 bytes ≡ true

pub data ParseError : Type 0 where
  wrong_length : (size : ℕ) → ParseError
  not_graphic : (code : ℕ) → ParseError
  bad_separator : (offset : ℕ) → ParseError
  field_past_end : (offset : ℕ) → ParseError
  not_ascii : (offset : ℕ) → ParseError
  not_digits : (offset : ℕ) → ParseError
  not_decimal : (offset : ℕ) → ParseError
  unparsable : (offset : ℕ) → ParseError
  not_a_bit : (offset value : ℕ) → ParseError
  bit_past_end : (offset : ℕ) → ParseError
  payload_not_ascii : ParseError
  empty_identity : ParseError
  not_printable : ParseError

unfoldable pub expect_len : Bytes → ℕ → Result ParseError (Unit {0})
expect_len payload want = require (length payload == want) (wrong_length (length payload))

abbrev pub count : (ℕ → Bool) → Bytes → ℕ
count p [] = 0
count p (b ∷ bytes) = if p b then suc (count p bytes) else count p bytes

-- `text.parse::<i64>()` of a text of digits: base ten, and an error if it is empty or too large.
unfoldable pub parse_i64 : Bytes → Option ℕ
parse_i64 [] = none
parse_i64 (b ∷ bytes) = let n = number_from 0 (b ∷ bytes) in if ltb n (2 ^ 63) then some n else none

unfoldable pub bit_of : ℕ → Option ℕ → Result ParseError Bool
bit_of offset none = err (bit_past_end offset)
bit_of offset (some b) =
    if b == b'0' then ok false else if b == b'1' then ok true else err (not_a_bit offset b)

unfoldable pub bit : Bytes → ℕ → Result ParseError Bool
bit payload offset = bit_of offset (get_elem? payload offset)

module _ (std : Std) where
  open std use {Double, parse_f64, is_utf8}

  unfoldable pub field : Bytes → ℕ → ℕ → Result ParseError Bytes
  field payload offset width = do
    text ← ok_or (slice payload offset (offset + width)) (field_past_end offset)
    require (is_utf8 text) (not_ascii offset)
    ok text

  unfoldable pub integer : Bytes → ℕ → ℕ → Result ParseError ℕ
  integer payload offset width = do
    text ← field payload offset width
    require (length text == width && all is_digit text) (not_digits offset)
    ok_or (parse_i64 text) (unparsable offset)

  unfoldable pub decimal : Bytes → ℕ → ℕ → Result ParseError Double
  decimal payload offset width = do
    text ← field payload offset width
    require
        (length text == width
          && (count (λ b. b == b'.') text == 1 && count is_digit text == width - 1))
        (not_decimal offset)
    ok_or (parse_f64 text) (unparsable offset)
