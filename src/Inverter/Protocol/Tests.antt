-- ===== src/Inverter/Protocol/Tests.antt =====
-- packages/inverter-monitoring/src/{crc,protocol}.rs: documented frames, and the theorems at them.
use nixos_test.Prelude.{◌≡◌, refl, false, [], ◌∷◌, Bytes, IsByte, bytes_eq}
use nixos_test.Prelude.Outcome.{ok, err}
use nixos_test.Inverter.Crc.{xmodem, frame_crc, is_framing, frame_crc-not_framing}
use nixos_test.Inverter.Protocol.{
  text, qmn, qpigs2, request, payload, classify, too_short, not_a_response, unterminated,
  parse_response, build_response,
}
use nixos_test.Inverter.Protocol.RoundTrip.{parse_response-build_response, parse_response_sound}

abbrev digits : Bytes
digits = b'1' ∷ b'2' ∷ b'3' ∷ b'4' ∷ b'5' ∷ b'6' ∷ b'7' ∷ b'8' ∷ b'9' ∷ []

-- The check value of CRC-16/XMODEM.
check_vector : xmodem digits ≡ 0x31C3
unfolding xmodem
check_vector = refl

qpigs2_request : request qpigs2 ≡ 0x51 ∷ 0x50 ∷ 0x49 ∷ 0x47 ∷ 0x53 ∷ 0x32 ∷ 0x68 ∷ 0x2D ∷ 0x0D ∷ []
unfolding request frame_crc
qpigs2_request = refl

abbrev battery_frame : Bytes
battery_frame = b'(' ∷ b'B' ∷ 0xE7 ∷ 0xC9 ∷ 0x0D ∷ []

battery_runs : parse_response battery_frame ≡ ok (payload (b'B' ∷ []))
unfolding parse_response frame_crc bytes_eq
battery_runs = refl

refusals :
    (parse_response (b'(' ∷ 0x0D ∷ []) ≡ err (too_short 2))
    × (parse_response (b'X' ∷ b'9' ∷ 0xCE ∷ 0xAE ∷ 0x0D ∷ []) ≡ err (not_a_response b'X'))
    × (parse_response (b'(' ∷ b'9' ∷ 0xCE ∷ 0xAE ∷ []) ≡ err unterminated)
unfolding parse_response
refusals = (refl, refl, refl)

frame_crc-not_framing_example :
    ((is_framing (frame_crc (text qmn)).0 ≡ false) × (is_framing (frame_crc (text qmn)).1 ≡ false))
    × (IsByte (frame_crc (text qmn)).0 × IsByte (frame_crc (text qmn)).1)
frame_crc-not_framing_example = frame_crc-not_framing (text qmn)

parse_response-build_response_example :
    parse_response (build_response (b'B' ∷ [])) ≡ ok (classify (b'B' ∷ []))
parse_response-build_response_example = parse_response-build_response (b'B' ∷ [])

parse_response_sound_example :
    (bytes : Bytes) × (battery_frame ≡ build_response bytes)
    × (payload (b'B' ∷ []) ≡ classify bytes)
parse_response_sound_example = parse_response_sound battery_frame (payload (b'B' ∷ [])) battery_runs
