-- ===== src/Bms/Parse/Tests.antt =====
-- packages/bms-monitoring/src/parse.rs: fractions in the place of `f64`, a frame with two cells, and
-- the theorems at it.
use nixos_test.Prelude.{
  ℕ, ◌*◌, ◌≡◌, refl, Bool, [], ◌∷◌, ◌++◌, arith, ◌==◌, if◌then◌else◌, replicate, take, All, IsByte,
  are_bytes-All, some,
}
use nixos_test.Prelude.Int.{ℤ, pos, negsuc, pos_part, ◌+ℤ◌, ◌-ℤ◌, ◌*ℤ◌, ltb_ℤ}
use nixos_test.Prelude.Bits.{bit_set}
use nixos_test.Prelude.Outcome.{err}
use nixos_test.Bms.Frame.{Frame}
use nixos_test.Bms.Parse.{F64, u16_at, u32_at, milli}
use nixos_test.Bms.Parse.Cells.{aggregate, cell_at, present_cells, lowest, highest, total}
use nixos_test.Bms.Parse.Cells.Bounds.{Aggregated}
use nixos_test.Bms.Parse.Realtime.{aggregates, read_realtime, parse_realtime, wrong_code}
use nixos_test.Bms.Parse.Settings.{parse_settings}
use nixos_test.Bms.Parse.Alarms.{
  asserted_alarms, asserted_alarms_complete, system_bits, user_bits, Spells, IsNamed, system, user,
  system_alarm, sys_alarm_flags,
}
use nixos_test.Bms.Parse.Words.{to_le_bytes}
use nixos_test.Bms.Parse.Readings.{
  HasCells, parse_realtime-HasCells, parse_realtime-pack_power, parse_realtime-Aggregated,
}
use nixos_test.Bms.Parse.Settings.Bounds.{parse_settings-take}

-- A numerator and a denominator.
abbrev Fraction : Type 0
Fraction = ℤ × ℕ

abbrev less_fraction : Fraction → Fraction → Bool
less_fraction a b = if a.1 == b.1 then ltb_ℤ a.0 b.0 else ltb_ℤ (a.0 *ℤ pos b.1) (b.0 *ℤ pos a.1)

less_zero : (a : ℤ) → ltb_ℤ (a *ℤ pos 1) (pos 0 *ℤ pos 1000) ≡ ltb_ℤ a (pos 0)
unfolding ◌*ℤ◌
less_zero a = ground arith

abbrev fractions : F64
fractions = record {
  Double = Fraction;
  of_int = λ z. (z, 1);
  divide = λ a b. (a.0, a.1 * pos_part b.0);
  add = λ a b. ((a.0 *ℤ pos b.1) +ℤ (b.0 *ℤ pos a.1), a.1 * b.1);
  subtract = λ a b. ((a.0 *ℤ pos b.1) -ℤ (b.0 *ℤ pos a.1), a.1 * b.1);
  negate = λ a. (pos 0 -ℤ a.0, a.1);
  less = less_fraction;
  less-divide = λ a b h k. refl;
  less-divide-zero = λ a h. less_zero a;
}

-- Cells 1 and 3 at 3.3 V and 3.2 V, a current of -1 A, a power of 6.5 W.
abbrev two_cells : Frame
two_cells = record {
  code = 2;
  bytes =
      (0x55 ∷ 0xAA ∷ 0xEB ∷ 0x90 ∷ 2 ∷ 1 ∷ 0xE4 ∷ 0x0C ∷ 0 ∷ 0 ∷ 0x80 ∷ 0x0C ∷ [])
      ++ (replicate 58 0
          ++ ((5 ∷ 0 ∷ 0 ∷ 0 ∷ [])
              ++ (replicate 80 0
                  ++ ((0x64 ∷ 0x19 ∷ 0 ∷ 0 ∷ [])
                      ++ (to_le_bytes (negsuc 999) ++ replicate 138 0)))));
}

abbrev no_cells_settings : Frame
no_cells_settings = record {
  code = 1;
  bytes = replicate 114 0 ++ ((2 ∷ 0 ∷ 0 ∷ 0 ∷ []) ++ replicate 182 0);
}

abbrev two_cells_bytes : All IsByte two_cells.bytes
two_cells_bytes = are_bytes-All two_cells.bytes refl

wrong_frame : parse_realtime fractions no_cells_settings ≡ err (wrong_code 1)
unfolding parse_realtime
wrong_frame = refl

parse_realtime-HasCells_example :
    (two_cells.code ≡ 2)
    × HasCells fractions two_cells.bytes (read_realtime fractions two_cells.bytes)
unfolding parse_realtime
parse_realtime-HasCells_example = parse_realtime-HasCells fractions two_cells two_cells_bytes refl

parse_realtime-pack_power_example :
    (read_realtime fractions two_cells.bytes).pack_power ≡ (pos 0 -ℤ pos 6500, 1000)
unfolding parse_realtime u32_at u16_at milli
parse_realtime-pack_power_example =
    parse_realtime-pack_power fractions two_cells two_cells_bytes refl

parse_realtime-Aggregated_example :
    let r = read_realtime fractions two_cells.bytes in
    Aggregated fractions (aggregates fractions r) r.cells
unfolding parse_realtime
parse_realtime-Aggregated_example =
    parse_realtime-Aggregated fractions two_cells two_cells_bytes refl

-- The minimum is that of cell 3.
minimum_example :
    aggregate fractions (read_realtime fractions two_cells.bytes).cells
    ≡ some (record {
      average = (pos 6_500_000, 2_000_000);
      minimum = (pos 3200, 1000);
      maximum = (pos 3300, 1000);
      delta = (pos 100_000, 1_000_000);
      min_index = 3;
      max_index = 1;
    })
unfolding read_realtime aggregate present_cells bit_set u32_at u16_at cell_at milli lowest highest
    total ◌+ℤ◌ ◌-ℤ◌ ◌*ℤ◌
minimum_example = refl

-- Settings for 32 cells, whose last resistance is read at 266, with and without a checksum.
abbrev full_settings : Frame
full_settings = record {
  code = 1;
  bytes =
      replicate 114 0
      ++ ((32 ∷ 0 ∷ 0 ∷ 0 ∷ []) ++ (replicate 148 0 ++ (replicate 33 7 ++ (9 ∷ []))));
}

parse_settings-take_example :
    parse_settings fractions (record full_settings { bytes = take 299 full_settings.bytes })
    ≡ parse_settings fractions full_settings
parse_settings-take_example = parse_settings-take fractions full_settings

-- A balancing wire's and a pack's alarm, and bit 3 of the user's word.
asserted_alarms_example :
    asserted_alarms 0x1001 8
    ≡ system 0 "balancing_wire_resistance_high" ∷ system 12 "pack_undervoltage" ∷ user 3 ∷ []
unfolding asserted_alarms bit_set system_alarm sys_alarm_flags
asserted_alarms_example = refl

asserted_alarms_complete_example :
    Spells (system_bits (asserted_alarms 0x1001 8)) 0x1001
    × Spells (user_bits (asserted_alarms 0x1001 8)) 8
    × All IsNamed (asserted_alarms 0x1001 8)
asserted_alarms_complete_example = asserted_alarms_complete 0x1001 8 (omega arith) (omega arith)
