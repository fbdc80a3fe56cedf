-- ===== src/Inverter/Serial.antt =====
-- packages/inverter-monitoring/src/port.rs and src/discover.rs: the frame that is read from the line,
-- the order in which ports are tried, and what an open port is. A port is what its reads give before
-- the deadline; those of `listen` and those of `read_frame` are two lists.
pub mod Framed
pub mod Ordered
mod Tests
use nixos_test.Prelude.{
  ℕ, ◌+◌, Bool, true, false, not, Option, none, some, List, [], ◌∷◌, ◌++◌, Bytes, bytes_eq, ltb,
  ◌==◌, if◌then◌else◌, length,
}
use nixos_test.Prelude.Bits.{filter}
use nixos_test.Prelude.Outcome.{Result, ok, err, ◌>>=◌, ◌>>◌}
use nixos_test.Serial.{PortError, Candidate, shuffle}
use nixos_test.Inverter.Protocol.{cr, Response, payload, nak, FrameError, parse_response}
use nixos_test.Inverter.Parse.{ParseError}
use nixos_test.Inverter.Parse.Identity.{parse_identity}

abbrev pub Reads : Type 0
Reads = List (Result PortError Bytes)

-- The frame with the bytes of a read up to a CR, and whether there was one.
unfoldable pub extend : Bytes → Bytes → Bytes × Bool
extend frame [] = (frame, false)
extend frame (b ∷ chunk) =
    let frame' = frame ++ (b ∷ []) in
    let rest = extend frame' chunk in if b == cr then (frame', true) else rest

abbrev pub longest : ℕ
longest = 512

unfoldable pub after_read :
    Bytes × Bool → Result PortError (Option Bytes) → Result PortError (Option Bytes)
after_read (frame, ended) rest =
    if ended then ok (some frame) else if ltb longest (length frame) then ok (some frame) else rest

-- The `while` of `read_frame`.
unfoldable pub read_from : Bytes → Reads → Result PortError (Option Bytes)
read_from frame [] = ok none
read_from frame (err e ∷ reads) = err e
read_from frame (ok chunk ∷ reads) =
    let extended = extend frame chunk in after_read extended (read_from (extended.0) reads)

unfoldable pub read_frame : Reads → Result PortError (Option Bytes)
read_frame reads = read_from [] reads

-- The bytes that a port sends unasked.
unfoldable pub listen_from : ℕ → Reads → Result PortError ℕ
listen_from seen [] = ok seen
listen_from seen (err e ∷ reads) = err e
listen_from seen (ok chunk ∷ reads) = listen_from (seen + length chunk) reads

unfoldable pub listen : Reads → Result PortError ℕ
listen reads = listen_from 0 reads

unfoldable pub is_remembered : Option Bytes → Candidate → Bool
is_remembered none c = false
is_remembered (some path_id) c = bytes_eq c.path_id path_id

-- The remembered device first, and then the others shuffled.
unfoldable pub order : List Candidate → Option Bytes → ℕ → List Candidate
order candidates remembered seed =
    filter (is_remembered remembered) candidates
    ++ shuffle (filter (λ c. not (is_remembered remembered c)) candidates) seed

pub data Reason : Type 0 where
  no_response : Reason
  not_an_identity : ParseError → Reason
  refused : Reason
  bad_frame : FrameError → Reason

pub data Probe : Type 0 where
  chatty : (count : ℕ) → Probe
  inverter : (serial : Bytes) → Probe
  not_an_inverter : (reason : Reason) → Probe

unfoldable pub identified : Result ParseError Bytes → Probe
identified (ok serial) = inverter serial
identified (err e) = not_an_inverter (not_an_identity e)

unfoldable pub answered : Result FrameError Response → Probe
answered (ok (payload bytes)) = identified (parse_identity bytes)
answered (ok nak) = not_an_inverter refused
answered (err e) = not_an_inverter (bad_frame e)

unfoldable pub responded : Option Bytes → Probe
responded none = not_an_inverter no_response
responded (some frame) = answered (parse_response frame)

-- `written` is the outcome of the request for the identity.
unfoldable pub probe : Reads → Result PortError (Unit {0}) → Reads → Result PortError Probe
probe heard written answers = listen heard >>= λ unsolicited.
    if ltb 0 unsolicited
    then ok (chatty unsolicited)
    else (written >> (read_frame answers >>= λ frame. ok (responded frame)))
