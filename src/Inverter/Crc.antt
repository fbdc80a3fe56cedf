-- ===== src/Inverter/Crc.antt =====
-- packages/inverter-monitoring/src/crc.rs: CRC-16/XMODEM with the substitution of framing bytes.
use nixos_test.Prelude.{
  ℕ, suc, zero, ◌+◌, ◌*◌, ◌/◌, ◌%◌, ◌^◌, ◌<◌, ◌≡◌, Bool, false, ◌||◌, not, Bytes, IsByte, arith,
  ◌==◌, if◌then◌else◌,
}
use Prim.Native.Nat.{bit_and, bit_xor}
use mathlib.Core.List.{foldl}

-- One turn of the inner fold, on `u16`: `acc << 1` loses the top bit.
pub crc_round : ℕ → ℕ
crc_round acc =
    let shifted = acc * 2 % 2 ^ 16 in
    if not (bit_and acc 0x8000 == 0) then bit_xor shifted 0x1021 else shifted

rounds : ℕ → ℕ → ℕ
rounds zero acc = acc
rounds (suc n) acc = rounds n (crc_round acc)

-- `(0..8).fold(crc ^ ((*byte as u16) << 8), …)`
pub crc_byte : ℕ → ℕ → ℕ
unfolding rounds crc_round
crc_byte crc byte = rounds 8 (bit_xor crc (byte * 256 % 2 ^ 16))

unfoldable pub xmodem : Bytes → ℕ
unfolding crc_byte
xmodem bytes = foldl crc_byte 0 bytes

unfoldable pub escape : ℕ → ℕ
escape byte = if byte == 0x28 || (byte == 0x0A || byte == 0x0D) then byte + 1 else byte

-- The two bytes on the wire, high byte first. `as u8` keeps the low eight bits.
unfoldable pub frame_crc : Bytes → ℕ × ℕ
unfolding xmodem escape
frame_crc bytes =
    let crc = xmodem bytes in (escape (crc / 256 % 256), escape (bit_and crc 0xFF % 256))

-- A byte that means something to the framer: `(`, LF and CR.
abbrev pub is_framing : ℕ → Bool
is_framing b = b == 0x28 || (b == 0x0A || b == 0x0D)

escape-not_framing : (b : ℕ) → b < 256 → (is_framing (escape b) ≡ false) × (escape b < 256)
unfolding escape
escape-not_framing b h = ground arith

-- Whatever it is computed over, neither checksum byte is `(`, LF or CR, and both are bytes: the
-- step of the substitution never carries one framing byte into another, and never overflows.
pub frame_crc-not_framing :
    (bytes : Bytes)
    → ((is_framing (frame_crc bytes).0 ≡ false) × (is_framing (frame_crc bytes).1 ≡ false))
      × (IsByte (frame_crc bytes).0 × IsByte (frame_crc bytes).1)
unfolding frame_crc
frame_crc-not_framing bytes =
    let crc = xmodem bytes in
    let hi = escape-not_framing (crc / 256 % 256) (omega arith) in
    let lo = escape-not_framing (bit_and crc 0xFF % 256) (omega arith) in
    ((hi.0, lo.0), (hi.1, lo.1))
