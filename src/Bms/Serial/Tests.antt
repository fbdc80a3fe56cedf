-- ===== src/Bms/Serial/Tests.antt =====
-- packages/bms-monitoring/src/port.rs and src/discover.rs: ports that say nothing of use, and one that
-- sends a frame in pieces.
use nixos_test.Prelude.{◌≡◌, refl, some, [], ◌∷◌, ◌++◌, Bytes, replicate}
use nixos_test.Prelude.Outcome.{ok, err}
use nixos_test.Serial.{disconnected}
use nixos_test.Bms.Frame.{
  Frame, FrameReader, default, is_realtime, feed, next_frame, next_frame_loop, act, step, step_with,
  find_header, position, is_prefix, step_at_header, checksum, skipped, discarded, consumed,
}
use nixos_test.Bms.Serial.{Reads, read_until, after_drain, drain, drain_loop, sift, read_loop}
use nixos_test.Bms.Serial.Listened.{Settled, read_until-Settled}

abbrev noise : Reads
noise = ok [] ∷ ok (1 ∷ 2 ∷ []) ∷ err disconnected ∷ []

lost : read_until noise default is_realtime ≡ some (err disconnected)
unfolding read_until after_drain drain drain_loop sift read_loop feed next_frame next_frame_loop act
    step step_with find_header position is_prefix step_at_header checksum skipped discarded consumed
lost = refl

-- A realtime frame with no payload.
abbrev empty_frame : Bytes
empty_frame = 0x55 ∷ 0xAA ∷ 0xEB ∷ 0x90 ∷ 2 ∷ (replicate 294 0 ++ (124 ∷ []))

abbrev wire_frame : Frame
wire_frame = record { code = 2; bytes = empty_frame }

-- The frame in two pieces, behind a byte of other traffic.
abbrev pieces : Reads
pieces =
    ok (7 ∷ 0x55 ∷ 0xAA ∷ []) ∷ ok [] ∷ ok (0xEB ∷ 0x90 ∷ 2 ∷ (replicate 294 0 ++ (124 ∷ []))) ∷ []

abbrev reader_after : FrameReader
reader_after = record {
  buffer = [];
  frames_ok = 1;
  frames_discarded = 0;
  bytes_skipped = 1;
  bytes_read = 301;
}

found : read_until pieces default is_realtime ≡ some (ok (reader_after, some wire_frame))
unfolding read_until after_drain drain drain_loop sift read_loop feed next_frame next_frame_loop act
    step step_with find_header position is_prefix step_at_header checksum skipped discarded consumed
    default is_realtime
found = refl

read_until-Settled_example : Settled is_realtime (some (ok (reader_after, some wire_frame)))
unfolding read_until after_drain drain drain_loop sift read_loop feed next_frame next_frame_loop act
    step step_with find_header position is_prefix step_at_header checksum skipped discarded consumed
    default is_realtime
read_until-Settled_example = read_until-Settled is_realtime pieces default
