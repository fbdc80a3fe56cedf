-- ===== src/Inverter/Protocol.antt =====
-- packages/inverter-monitoring/src/protocol.rs: the commands, and the framing of a response.
pub mod RoundTrip
mod Tests
use nixos_test.Prelude.{
  ℕ, ◌+◌, ◌-◌, ◌<◌, ◌≡◌, refl, Bool, true, false, ◌&&◌, not, List, [], ◌∷◌, ◌++◌, Bytes, ltb, ◌==◌,
  if◌then◌else◌, length, take, drop, get_or, bytes_eq,
}
use nixos_test.Prelude.Outcome.{Result, ok, err}
use nixos_test.Inverter.Crc.{frame_crc}

pub data Command : Type 0 where
  qid qvfw qvfw3 qmn qgmn qmod qpigs qpigs2 qpiws : Command

abbrev pub static_commands : List Command
static_commands = qid ∷ qvfw ∷ qvfw3 ∷ qmn ∷ qgmn ∷ []

abbrev pub live_commands : List Command
live_commands = qmod ∷ qpigs ∷ qpigs2 ∷ qpiws ∷ []

abbrev pub cr : ℕ
cr = 0x0D

abbrev pub leading : ℕ
leading = b'('

abbrev pub nak_text : Bytes
nak_text = b'N' ∷ b'A' ∷ b'K' ∷ []

-- The ASCII text of a command, as bytes.
abbrev pub text : Command → Bytes
text qid = b'Q' ∷ b'I' ∷ b'D' ∷ []
text qvfw = b'Q' ∷ b'V' ∷ b'F' ∷ b'W' ∷ []
text qvfw3 = b'Q' ∷ b'V' ∷ b'F' ∷ b'W' ∷ b'3' ∷ []
text qmn = b'Q' ∷ b'M' ∷ b'N' ∷ []
text qgmn = b'Q' ∷ b'G' ∷ b'M' ∷ b'N' ∷ []
text qmod = b'Q' ∷ b'M' ∷ b'O' ∷ b'D' ∷ []
text qpigs = b'Q' ∷ b'P' ∷ b'I' ∷ b'G' ∷ b'S' ∷ []
text qpigs2 = b'Q' ∷ b'P' ∷ b'I' ∷ b'G' ∷ b'S' ∷ b'2' ∷ []
text qpiws = b'Q' ∷ b'P' ∷ b'I' ∷ b'W' ∷ b'S' ∷ []

pub request : Command → Bytes
request c = let crc = frame_crc (text c) in text c ++ (crc.0 ∷ crc.1 ∷ cr ∷ [])

pub data Response : Type 0 where
  payload : Bytes → Response
  nak : Response

pub data FrameError : Type 0 where
  too_short : ℕ → FrameError
  not_a_response : ℕ → FrameError
  unterminated : FrameError
  crc : (computed received : ℕ × ℕ) → FrameError

abbrev pub pair_eq : ℕ × ℕ → ℕ × ℕ → Bool
pair_eq a b = a.0 == b.0 && a.1 == b.1

-- The payload of a frame whose checksum agrees.
pub classify : Bytes → Response
classify bytes = if bytes_eq bytes nak_text then nak else payload bytes

unfoldable pub parse_response : Bytes → Result FrameError Response
unfolding classify
parse_response frame =
    let n = length frame in
    if ltb n 4
    then err (too_short n)
    else if not (get_or frame 0 0 == leading)
    then err (not_a_response (get_or frame 0 0))
    else if not (get_or frame (n - 1) 0 == cr)
    then err unterminated
    else (let covered = take (n - 3) frame in
        let received : ℕ × ℕ = (get_or frame (n - 3) 0, get_or frame (n - 2) 0) in
        let computed = frame_crc covered in
        if not (pair_eq computed received)
        then err (crc computed received)
        else ok (classify (drop 1 covered)))

-- The frame that a unit sends for a payload.
unfoldable pub build_response : Bytes → Bytes
build_response bytes =
    let body = leading ∷ bytes in let crc = frame_crc body in body ++ (crc.0 ∷ crc.1 ∷ cr ∷ [])
