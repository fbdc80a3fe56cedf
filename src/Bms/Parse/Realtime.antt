-- ===== src/Bms/Parse/Realtime.antt =====
-- packages/bms-monitoring/src/parse.rs: the realtime frame.
use nixos_test.Prelude.{
  ℕ, Bool, not, Option, none, some, List, [], ◌∷◌, Bytes, ◌==◌, if◌then◌else◌, get_or,
}
use nixos_test.Prelude.Int.{ℤ, pos, pos_part, neg_part}
use nixos_test.Prelude.Outcome.{Result, ok, err}
use nixos_test.Bms.Frame.{Frame, realtime}
use nixos_test.Bms.Parse.{F64, u16_at, u32_at, i16_at, i32_at, milli, deci}
use nixos_test.Bms.Parse.Cells.{Cell, CellAggregates, aggregate, present_cells}

pub record ProtectionRelease : Type 0 where
  pub discharge_overcurrent : ℕ
  pub discharge_short_circuit : ℕ
  pub charge_overcurrent : ℕ
  pub charge_short_circuit : ℕ
  pub undervoltage : ℕ
  pub overvoltage : ℕ

pub data ParseError : Type 0 where
  wrong_code : (code : ℕ) → ParseError
  too_many_cells : (cell_count : ℕ) → ParseError

unfoldable pub is_zero : ℤ → Bool
is_zero raw = pos_part raw == neg_part raw

unfoldable pub release_at : Bytes → ProtectionRelease
release_at frame = record {
  discharge_overcurrent = u16_at frame 202;
  discharge_short_circuit = u16_at frame 204;
  charge_overcurrent = u16_at frame 206;
  charge_short_circuit = u16_at frame 208;
  undervoltage = u16_at frame 210;
  overvoltage = u16_at frame 212;
}

module _ (f64 : F64) where
  open f64 use {Double, of_int, negate, less}

  pub record Realtime : Type 0 where
    pub cells : List (Cell f64)
    pub cell_status : ℕ
    pub pack_voltage : Double
    pub pack_power : Double
    pub pack_current : Double
    pub mos_temperature : Double
    pub temperatures : List (Option Double)
    pub soc : ℕ
    pub soh : ℕ
    pub remaining_capacity : Double
    pub full_charge_capacity : Double
    pub cycle_count : ℕ
    pub cycle_capacity : Double
    pub balance_current : Double
    pub balancing : Bool
    pub charge_mosfet_on : Bool
    pub discharge_mosfet_on : Bool
    pub heating_on : Bool
    pub sys_alarm : ℕ
    pub user_alarm : ℕ
    pub uptime_seconds : ℕ
    pub protection_release : ProtectionRelease

  -- `Realtime::aggregates`
  unfoldable pub aggregates : Realtime → Option (CellAggregates f64)
  aggregates r = aggregate f64 r.cells

  unfoldable pub optional_temperature : ℤ → Option Double
  optional_temperature raw = if not (is_zero raw) then some (deci f64 raw) else none

  -- The frame's power is a magnitude; its direction is the current's.
  unfoldable pub with_direction : (current magnitude : Double) → Double
  with_direction current magnitude =
      if less current (of_int (pos 0)) then negate magnitude else magnitude

  unfoldable pub read_realtime : Bytes → Realtime
  read_realtime bytes =
      let cell_status = u32_at bytes 70 in
      let pack_current = milli f64 (i32_at bytes 158) in
      let magnitude = milli f64 (pos (u32_at bytes 154)) in
      record {
        cells = present_cells f64 bytes cell_status;
        cell_status = cell_status;
        pack_voltage = milli f64 (i32_at bytes 150);
        pack_power = with_direction pack_current magnitude;
        pack_current = pack_current;
        mos_temperature = deci f64 (i16_at bytes 144);
        temperatures =
            some (deci f64 (i16_at bytes 162))
            ∷ some (deci f64 (i16_at bytes 164))
            ∷ optional_temperature (i16_at bytes 252)
            ∷ optional_temperature (i16_at bytes 254)
            ∷ optional_temperature (i16_at bytes 256)
            ∷ [];
        soc = get_or bytes 173 0;
        soh = get_or bytes 190 0;
        remaining_capacity = milli f64 (pos (u32_at bytes 174));
        full_charge_capacity = milli f64 (pos (u32_at bytes 178));
        cycle_count = u32_at bytes 182;
        cycle_capacity = milli f64 (pos (u32_at bytes 186));
        balance_current = milli f64 (i16_at bytes 170);
        balancing = not (get_or bytes 172 0 == 0);
        charge_mosfet_on = not (get_or bytes 198 0 == 0);
        discharge_mosfet_on = not (get_or bytes 199 0 == 0);
        heating_on = not (get_or bytes 215 0 == 0);
        sys_alarm = u32_at bytes 166;
        user_alarm = u16_at bytes 200;
        uptime_seconds = u32_at bytes 194;
        protection_release = release_at bytes;
      }

  unfoldable pub parse_realtime : Frame → Result ParseError Realtime
  parse_realtime frame =
      if not (frame.code == realtime)
      then err (wrong_code frame.code)
      else ok (read_realtime frame.bytes)
