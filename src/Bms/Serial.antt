-- ===== src/Bms/Serial.antt =====
-- packages/bms-monitoring/src/port.rs and src/discover.rs: the loop that waits for a frame, and what an
-- open port is. A port is what its reads give before the deadline.
pub mod Listened
mod Tests
use nixos_test.Prelude.{
  ℕ, zero, suc, ◌+◌, Bool, true, false, Option, none, some, List, [], ◌∷◌, Bytes, ◌==◌,
  if◌then◌else◌, length,
}
use nixos_test.Prelude.Outcome.{Result, ok, err}
use nixos_test.Serial.{PortError}
use nixos_test.Bms.Frame.{Frame, FrameReader, default, feed, next_frame, is_realtime}

abbrev pub Reads : Type 0
Reads = List (Result PortError Bytes)

-- `while let Some(frame) = reader.next_frame()`, with what `next_frame` gave; `again` is the next turn.
unfoldable pub sift :
    (Frame → Bool)
    → Option (FrameReader × Option Frame)
    → (FrameReader → Option (FrameReader × Option Frame))
    → Option (FrameReader × Option Frame)
sift accept none again = none
sift accept (some (r, none)) again = some (r, none)
sift accept (some (r, some frame)) again =
    let rest = again r in if accept frame then some (r, some frame) else rest

unfoldable pub drain_loop : ℕ → (Frame → Bool) → FrameReader → Option (FrameReader × Option Frame)
drain_loop zero accept r = none
drain_loop (suc fuel) accept r = sift accept (next_frame r) (drain_loop fuel accept)

-- Every frame takes its bytes off the buffer, so the length of the buffer is more than enough; `none`
-- means that the fuel ran out.
unfoldable pub drain : (Frame → Bool) → FrameReader → Option (FrameReader × Option Frame)
drain accept r = drain_loop (suc (length r.buffer)) accept r

abbrev pub Found : Type 0
Found = Option (Result PortError (FrameReader × Option Frame))

unfoldable pub after_drain : Option (FrameReader × Option Frame) → (FrameReader → Found) → Found
after_drain none again = none
after_drain (some (r, some frame)) again = some (ok (r, some frame))
after_drain (some (r, none)) again = again r

-- The `while` until the deadline.
unfoldable pub read_loop : (Frame → Bool) → Reads → FrameReader → Found
read_loop accept [] r = some (ok (r, none))
read_loop accept (err e ∷ reads) r = some (err e)
read_loop accept (ok [] ∷ reads) r = read_loop accept reads r
read_loop accept (ok (b ∷ chunk) ∷ reads) r =
    after_drain (drain accept (feed r (b ∷ chunk))) (read_loop accept reads)

unfoldable pub read_until : Reads → FrameReader → (Frame → Bool) → Found
read_until reads r accept = after_drain (drain accept r) (read_loop accept reads)

pub data Probe : Type 0 where
  bms : (frame : Frame) → Probe
  silent : Probe
  not_a_bms : (bytes_read frames_ok frames_discarded : ℕ) → Probe

unfoldable pub probe_of : FrameReader → Option Frame → Probe
probe_of r (some frame) = bms frame
probe_of r none =
    if r.bytes_read == 0 then silent else not_a_bms r.bytes_read r.frames_ok r.frames_discarded

unfoldable pub probed : Found → Option (Result PortError Probe)
probed none = none
probed (some (err e)) = some (err e)
probed (some (ok (r, frame))) = some (ok (probe_of r frame))

unfoldable pub probe : Reads → Option (Result PortError Probe)
probe reads = probed (read_until reads default is_realtime)
