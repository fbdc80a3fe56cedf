-- ===== src/Metrics/Block/Decoded.antt =====
-- packages/system-metrics/src/block.rs: udev's escapes are undone.
use nixos_test.Prelude.{
  ℕ, ◌+◌, ◌*◌, ◌/◌, ◌%◌, ◌<◌, ◌≡◌, ◌⊎◌, refl, ap, ◌∙◌, Bool, true, false, none, some, [], ◌∷◌,
  Bytes, IsByte, All, arith, ltb, ◌==◌, if◌then◌else◌, Bool-cases, inl, inr, ==→eq,
}
use nixos_test.Metrics.Block
use nixos_test.Metrics.Block.{Utf8}

-- A value below sixteen, in lower case.
abbrev pub hex_char : ℕ → ℕ
hex_char n = if ltb n 10 then n + 48 else n + 87

-- What udev writes: a byte as it is, or its escape.
abbrev pub encode : (ℕ → Bool) → Bytes → Bytes
encode keep [] = []
encode keep (b ∷ bytes) =
    if keep b
    then b ∷ encode keep bytes
    else 92 ∷ b'x' ∷ hex_char (b / 16) ∷ hex_char (b % 16) ∷ encode keep bytes

hex_digit-hex_char : (n : ℕ) → n < 16 → Block.hex_digit (hex_char n) ≡ some n
unfolding Block.hex_digit
hex_digit-hex_char n h = ground arith

hex_char-ne-plus : (n : ℕ) → (hex_char n == b'+') ≡ false
hex_char-ne-plus n = ground arith

hex_pair-hex_char :
    (b : ℕ) → b < 256 → Block.hex_pair (hex_char (b / 16)) (hex_char (b % 16)) ≡ some b
unfolding Block.hex_pair Block.hex_value
hex_pair-hex_char b h =
    let whole : b / 16 * 16 + b % 16 ≡ b = omega arith in
    rw
      (
        hex_char-ne-plus (b / 16),
        hex_digit-hex_char (b / 16) (omega arith),
        hex_digit-hex_char (b % 16) (omega arith),
        whole,
      )
      refl

escape_at-other : (b : ℕ) (bytes : Bytes) → (b == 92) ≡ false → Block.escape_at (b ∷ bytes) ≡ none
unfolding Block.escape_at
escape_at-other b [] h = refl
escape_at-other b (c ∷ []) h = refl
escape_at-other b (c ∷ d ∷ []) h = refl
escape_at-other b (c ∷ d ∷ e ∷ bytes) h = rw h refl

decode_from-none :
    (b : ℕ) (bytes : Bytes)
    → Block.escape_at (b ∷ bytes) ≡ none
    → Block.decode_from 0 (b ∷ bytes) ≡ b ∷ Block.decode_from 0 bytes
unfolding Block.decode_from Block.unescaped
decode_from-none b bytes h = rw h refl

decode_from-some :
    (a b c d : ℕ) (bytes : Bytes) {byte : ℕ}
    → Block.escape_at (a ∷ b ∷ c ∷ d ∷ bytes) ≡ some byte
    → Block.decode_from 0 (a ∷ b ∷ c ∷ d ∷ bytes) ≡ byte ∷ Block.decode_from 0 bytes
unfolding Block.decode_from Block.unescaped
decode_from-some a b c d bytes h = rw h refl

kept-ne-backslash : (keep : ℕ → Bool) (b : ℕ) → keep 92 ≡ false → keep b ≡ true → (b == 92) ≡ false
kept-ne-backslash keep b h kept = elim (Bool-cases (b == 92)) [
  | inl same ↦ let e = ==→eq b 92 same in let no : true ≡ false = cc (kept, ap keep e, h) in cc no
  | inr apart ↦ apart
]

encode-escape_at :
    (b : ℕ) (bytes : Bytes)
    → b < 256
    → Block.escape_at (92 ∷ b'x' ∷ hex_char (b / 16) ∷ hex_char (b % 16) ∷ bytes) ≡ some b
unfolding Block.escape_at
encode-escape_at b bytes h = hex_pair-hex_char b h

decode_from-encode :
    (keep : ℕ → Bool) (bytes : Bytes)
    → keep 92 ≡ false
    → All IsByte bytes
    → Block.decode_from 0 (encode keep bytes) ≡ bytes
decode_from-encode keep [] h small = unfold Block.decode_from in refl
decode_from-encode keep (b ∷ bytes) h (byte, small) =
    let later = ap (λ (bs : Bytes). b ∷ bs) (decode_from-encode keep bytes h small) in
    elim (Bool-cases (keep b)) [
      | inl kept ↦ rw kept (
          decode_from-none b (encode keep bytes)
            (escape_at-other b (encode keep bytes) (kept-ne-backslash keep b h kept))
          ∙ later)
      | inr escaped ↦ rw escaped (
          decode_from-some 92 b'x' (hex_char (b / 16)) (hex_char (b % 16)) (encode keep bytes)
            (encode-escape_at b (encode keep bytes) byte)
          ∙ later)
    ]

-- Whichever bytes are escaped, as long as the backslash is, a value of valid UTF-8 that was encoded is
-- decoded; and of any other value the decoding is what `from_utf8_lossy` makes of it.
pub decode_udev_enc-encode :
    (utf8 : Utf8) (keep : ℕ → Bool) (bytes : Bytes)
    → keep 92 ≡ false
    → All IsByte bytes
    → (Block.decode_udev_enc utf8 (encode keep bytes) ≡ utf8.lossy bytes)
      × ((utf8.is_utf8 bytes ≡ false) ⊎ (Block.decode_udev_enc utf8 (encode keep bytes) ≡ bytes))
unfolding Block.decode_udev_enc
decode_udev_enc-encode utf8 keep bytes h small =
    let decoded = decode_from-encode keep bytes h small in
    (
      ap utf8.lossy decoded,
      elim (Bool-cases (utf8.is_utf8 bytes)) [
        | inl valid ↦ inr (ap utf8.lossy decoded ∙ utf8.lossy-valid bytes valid)
        | inr invalid ↦ inl invalid
      ],
    )
