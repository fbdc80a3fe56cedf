-- ===== src/Bms/Frame/Tests.antt =====
-- packages/bms-monitoring/src/frame.rs: runs of the reader, and its theorems at concrete streams.
use nixos_test.Prelude.{◌≡◌, refl, some, [], ◌∷◌, ◌++◌, Bytes, replicate}
use nixos_test.Bms.Frame.{
  Frame, FrameReader, default, feed, next_frame, next_frame_loop, act, step, step_with, find_header,
  position, is_prefix, step_at_header, checksum, skipped, discarded, consumed,
}
use nixos_test.Bms.Frame.Reference.{first_frame, is_frame}
use nixos_test.Bms.Frame.Delivery.{Delivers, next_frame_lem}
use nixos_test.Bms.Frame.Accounting.{
  IsGenuine, next_frame-IsGenuine, Accounted, next_frame-Accounted,
}

-- A realtime frame with no payload, behind one byte of other traffic and a false header.
abbrev empty_frame : Bytes
empty_frame = 0x55 ∷ 0xAA ∷ 0xEB ∷ 0x90 ∷ 2 ∷ (replicate 294 0 ++ (124 ∷ []))

abbrev noise : Bytes
noise = 7 ∷ 0x55 ∷ 0xAA ∷ 0xEB ∷ 0x90 ∷ 9 ∷ []

abbrev tail : Bytes
tail = 1 ∷ 2 ∷ []

abbrev reader : FrameReader
reader = record {
  buffer = noise ++ (empty_frame ++ tail);
  frames_ok = 0;
  frames_discarded = 0;
  bytes_skipped = 0;
  bytes_read = 308;
}

abbrev reader_after : FrameReader
reader_after = record {
  buffer = tail;
  frames_ok = 1;
  frames_discarded = 1;
  bytes_skipped = 6;
  bytes_read = 308;
}

abbrev wire_frame : Frame
wire_frame = record { code = 2; bytes = empty_frame }

reader_runs : next_frame reader ≡ some (reader_after, some wire_frame)
unfolding next_frame next_frame_loop act step step_with find_header position is_prefix
    step_at_header checksum skipped discarded consumed
reader_runs = refl

frame_at_six : first_frame (noise ++ (empty_frame ++ tail)) ≡ some 6
unfolding first_frame is_frame is_prefix checksum
frame_at_six = refl

fed : feed default (noise ++ (empty_frame ++ tail)) ≡ reader
unfolding feed
fed = refl

next_frame_lem_example : Delivers (first_frame reader.buffer) reader (next_frame reader)
next_frame_lem_example = next_frame_lem reader

next_frame-IsGenuine_example :
    IsGenuine wire_frame × ((junk : Bytes) × (reader.buffer ≡ junk ++ (empty_frame ++ tail)))
next_frame-IsGenuine_example = next_frame-IsGenuine reader reader_after wire_frame reader_runs

next_frame-Accounted_example : Accounted reader_after
next_frame-Accounted_example =
    next_frame-Accounted reader reader_after (some wire_frame) reader_runs refl
