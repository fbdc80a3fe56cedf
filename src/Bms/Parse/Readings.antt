-- ===== src/Bms/Parse/Readings.antt =====
-- packages/bms-monitoring/src/parse.rs: what an accepted frame says, against its bytes.
use nixos_test.Prelude.{
  ℕ, ◌+◌, ◌≡◌, refl, sym, not, map, Bytes, arith, leb, ◌==◌, if◌then◌else◌, get_or, All, IsByte,
  ==→eq,
}
use mathlib.Core.Path.{subst}
use nixos_test.Prelude.Int.{pos, ltb_ℤ}
use nixos_test.Prelude.Bits.{filter, range, bit_set, weight, Ascending}
use nixos_test.Prelude.Outcome.{ok, rejected-eq_ok, ok-injective, not-eq_false}
use nixos_test.Bms.Frame.{Frame, realtime}
use nixos_test.Bms.Parse.{
  F64, IsWord, u16_at, u32_at, u32_at-bound, get_or-byte, i32_at, signed, milli,
}
use nixos_test.Bms.Parse.Cells.{present_cells, aggregate}
use nixos_test.Bms.Parse.Cells.Slots.{slot_of, IsPresent, present_cells_complete}
use nixos_test.Bms.Parse.Cells.Bounds.{Aggregated, aggregate-Aggregated, cells-IsMeasured}
use nixos_test.Bms.Parse.Realtime.{
  Realtime, read_realtime, parse_realtime, with_direction, aggregates,
}

-- The highest bit of the last byte is the sign.
i32_at-sign :
    (frame : Bytes) (offset : ℕ)
    → All IsByte frame
    → ltb_ℤ (i32_at frame offset) (pos 0) ≡ leb 128 (get_or frame (offset + 2 + 1) 0)
unfolding i32_at u32_at u16_at signed
i32_at-sign frame offset h = ground (
  arith,
  get_or-byte frame offset h,
  get_or-byte frame (offset + 1) h,
  get_or-byte frame (offset + 2) h,
  get_or-byte frame (offset + 2 + 1) h,
)

i32_at-IsWord : (frame : Bytes) (offset : ℕ) → All IsByte frame → IsWord (i32_at frame offset)
unfolding i32_at signed
i32_at-IsWord frame offset h = ground (arith, u32_at-bound frame offset h)

module _ (f64 : F64) where
  open f64 use {negate, less-divide-zero}

  parse_realtime-ok :
      (frame : Frame) {r : Realtime f64}
      → parse_realtime f64 frame ≡ ok r
      → (frame.code ≡ realtime) × (read_realtime f64 frame.bytes ≡ r)
  unfolding parse_realtime
  parse_realtime-ok frame e =
      let (code, same) = rejected-eq_ok (not (frame.code == realtime)) _ e in
      (==→eq frame.code realtime (not-eq_false _ code), ok-injective _ _ same)

  -- The cells of the frame against its bitmap: their slots ascend and spell it, so each set bit has one
  -- cell, and each cell was read from its slot.
  abbrev pub HasCells : Bytes → Realtime f64 → Type 0
  HasCells frame r =
      (r.cell_status ≡ u32_at frame 70)
      × ((weight (map (slot_of f64) r.cells) ≡ r.cell_status)
          × Ascending (map (slot_of f64) r.cells)
          × All (IsPresent f64 frame r.cell_status) r.cells)

  -- A frame of bytes that is accepted as realtime has code 2, and its cells are those that its
  -- bitmap names: the slots of the cells ascend and spell the bitmap, so no cell is missing and none
  -- is listed twice, and each cell has a set bit, an index from 1 to 32, and the voltage and the resistance that stand at its slot.
  pub parse_realtime-HasCells :
      (frame : Frame) {r : Realtime f64}
      → All IsByte frame.bytes
      → parse_realtime f64 frame ≡ ok r
      → (frame.code ≡ 2) × HasCells frame.bytes r
  unfolding read_realtime
  parse_realtime-HasCells frame h e =
      let (code, same) = parse_realtime-ok frame e in
      (
        code,
        subst (HasCells frame.bytes) same (
          refl,
          present_cells_complete f64 frame.bytes (u32_at frame.bytes 70)
              (u32_at-bound frame.bytes 70 h),
        ),
      )

  -- For an accepted realtime frame of bytes, the power is the frame's magnitude, negated if the
  -- highest bit of the current's last byte is set and as it stands otherwise.
  pub parse_realtime-pack_power :
      (frame : Frame) {r : Realtime f64}
      → All IsByte frame.bytes
      → parse_realtime f64 frame ≡ ok r
      → let magnitude = milli f64 (pos (u32_at frame.bytes 154)) in
        r.pack_power ≡ (if leb 128 (get_or frame.bytes 161 0) then negate magnitude else magnitude)
  unfolding read_realtime with_direction milli
  parse_realtime-pack_power frame h e =
      let (code, same) = parse_realtime-ok frame e in
      let sign = i32_at-sign frame.bytes 158 h in
      rw
        (
          sym same,
          less-divide-zero (i32_at frame.bytes 158) (i32_at-IsWord frame.bytes 158 h),
          sign,
        )
        refl

  -- For an accepted realtime frame of bytes, the aggregates are absent exactly if no cell is present;
  -- otherwise no cell's voltage is below the minimum or above the maximum, and the minimum and the
  -- maximum are each the voltage of a cell with the index that is reported for it.
  pub parse_realtime-Aggregated :
      (frame : Frame) {r : Realtime f64}
      → All IsByte frame.bytes
      → parse_realtime f64 frame ≡ ok r
      → Aggregated f64 (aggregates f64 r) r.cells
  unfolding read_realtime aggregates present_cells
  parse_realtime-Aggregated frame h e =
      let (code, same) = parse_realtime-ok frame e in
      subst (λ (r : Realtime f64). Aggregated f64 (aggregate f64 r.cells) r.cells) same
        (aggregate-Aggregated f64 _ (
          cells-IsMeasured f64 frame.bytes (filter (bit_set (u32_at frame.bytes 70)) (range 32)) h))
