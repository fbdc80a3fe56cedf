-- ===== src/Bms/Frame.antt =====
-- packages/bms-monitoring/src/frame.rs: the `55 AA EB 90` framing of the JK BMS. The reader keeps
-- every byte that may still begin a frame, counts what it throws away, and resynchronises one byte
-- past a header whose checksum fails.
pub mod Reference
pub mod Delivery
pub mod Accounting
mod Tests
use nixos_test.Prelude.{
  ℕ, zero, suc, ◌+◌, ◌-◌, ◌%◌, Bool, true, false, ◌&&◌, not, Option, none, some, [], ◌∷◌, ◌++◌,
  Bytes, add_u64, ltb, ◌==◌, if◌then◌else◌, length, take, drop, get_or,
}
use Prim.Native.Nat.{min}
use mathlib.Core.List.{foldl}
use mathlib.Core.Option

abbrev pub header : Bytes
header = 0x55 ∷ 0xAA ∷ 0xEB ∷ 0x90 ∷ []

abbrev pub frame_len : ℕ
frame_len = 300

abbrev pub checksum_offset : ℕ
checksum_offset = 299

abbrev pub realtime : ℕ
realtime = 0x02

abbrev pub settings : ℕ
settings = 0x01

-- `fold(0u8, |sum, byte| sum.wrapping_add(*byte))` over the bytes before the checksum. The source
-- slices `..299`, which panics on a shorter frame; its callers hand it 300 bytes.
unfoldable pub checksum : Bytes → ℕ
checksum frame = foldl (λ sum byte. (sum + byte) % 256) 0 (take checksum_offset frame)

pub record Frame : Type 0 where
  pub code : ℕ
  pub bytes : Bytes

unfoldable pub is_realtime : Frame → Bool
is_realtime f = f.code == realtime

unfoldable pub is_settings : Frame → Bool
is_settings f = f.code == settings

pub data Step : Type 0 where
  found : Frame → ℕ → Step
  skip : ℕ → Step
  bad_checksum : Step
  incomplete : Step

-- The counters are `u64`.
pub record FrameReader : Type 0 where
  pub buffer : Bytes
  pub frames_ok : ℕ
  pub frames_discarded : ℕ
  pub bytes_skipped : ℕ
  pub bytes_read : ℕ

-- `FrameReader::default()`
abbrev pub default : FrameReader
default = record {
  buffer = [];
  frames_ok = 0;
  frames_discarded = 0;
  bytes_skipped = 0;
  bytes_read = 0;
}

unfoldable pub feed : FrameReader → Bytes → FrameReader
feed r chunk = record r {
  bytes_read = add_u64 r.bytes_read (length chunk);
  buffer = r.buffer ++ chunk;
}

-- Whether the list begins with the first one: `window == HEADER`, for the window at its front.
unfoldable pub is_prefix : Bytes → Bytes → Bool
is_prefix [] bs = true
is_prefix (p ∷ ps) [] = false
is_prefix (p ∷ ps) (b ∷ bs) = p == b && is_prefix ps bs

-- `buffer.windows(HEADER.len()).position(|window| window == HEADER)`
unfoldable pub position : Bytes → Option ℕ
position [] = none
position (b ∷ bs) = if is_prefix header (b ∷ bs) then some 0 else Option.map suc (position bs)

unfoldable pub find_header : Bytes → Option ℕ
find_header buffer = if ltb (length buffer) (length header) then none else position buffer

-- What `step` does once a header stands at the front.
unfoldable pub step_at_header : Bytes → Step
step_at_header buffer =
    if ltb (length buffer) frame_len
    then incomplete
    else if not (checksum (take frame_len buffer) == get_or buffer checksum_offset 0)
    then bad_checksum
    else found (record { code = get_or buffer 4 0; bytes = take frame_len buffer }) frame_len

unfoldable pub step_with : Option ℕ → Bytes → Step
step_with none buffer =
    let keep = length header - 1 in
    if ltb keep (length buffer) then skip (length buffer - keep) else incomplete
step_with (some start) buffer = if ltb 0 start then skip start else step_at_header buffer

unfoldable pub step : Bytes → Step
step buffer = step_with (find_header buffer) buffer

-- The reader after each step that goes on, and after a frame.
unfoldable pub skipped : FrameReader → ℕ → FrameReader
skipped r count = record r {
  bytes_skipped = add_u64 r.bytes_skipped count;
  buffer = drop (min count (length r.buffer)) r.buffer;
}

unfoldable pub discarded : FrameReader → FrameReader
discarded r = record r {
  frames_discarded = add_u64 r.frames_discarded 1;
  bytes_skipped = add_u64 r.bytes_skipped 1;
  buffer = drop 1 r.buffer;
}

unfoldable pub consumed : FrameReader → ℕ → FrameReader
consumed r count = record r { frames_ok = add_u64 r.frames_ok 1; buffer = drop count r.buffer }

-- The arms of the `match` in `next_frame`; `again` is the next round of the loop.
unfoldable pub act :
    (FrameReader → Option (FrameReader × Option Frame))
    → FrameReader
    → Step
    → Option (FrameReader × Option Frame)
act again r (found frame count) = some (consumed r count, some frame)
act again r (skip count) = again (skipped r count)
act again r bad_checksum = again (discarded r)
act again r incomplete = some (r, none)

-- The `loop` of `next_frame`, with fuel; the outer `none` means that the fuel ran out.
unfoldable pub next_frame_loop : ℕ → FrameReader → Option (FrameReader × Option Frame)
next_frame_loop zero r = none
next_frame_loop (suc fuel) r = act (next_frame_loop fuel) r (step r.buffer)

-- Every round but the last takes a byte off the buffer, so one round for each byte and one more
-- are enough.
unfoldable pub next_frame : FrameReader → Option (FrameReader × Option Frame)
next_frame r = next_frame_loop (suc (length r.buffer)) r
