-- ===== src/Bms/Parse/Settings.antt =====
-- packages/bms-monitoring/src/parse.rs: the settings frame.
pub mod Bounds
use nixos_test.Prelude.{ℕ, ◌+◌, ◌*◌, Bool, not, List, map, Bytes, ltb, ◌==◌, if◌then◌else◌, get_or}
use nixos_test.Prelude.Int.{pos}
use nixos_test.Prelude.Bits.{range}
use nixos_test.Prelude.Outcome.{Result, ok, err}
use nixos_test.Bms.Frame.{Frame, settings}
use nixos_test.Bms.Parse.{F64, u16_at, u32_at, i32_at, milli, deci}
use nixos_test.Bms.Parse.Realtime.{ParseError, wrong_code, too_many_cells}

module _ (f64 : F64) where
  open f64 use {Double, of_int, divide}

  pub record Settings : Type 0 where
    pub cell_count : ℕ
    pub cell_capacity : Double
    pub cell_undervoltage : Double
    pub cell_undervoltage_recovery : Double
    pub cell_overvoltage : Double
    pub cell_overvoltage_recovery : Double
    pub cell_request_charge : Double
    pub cell_request_float : Double
    pub soc_100_percent : Double
    pub soc_0_percent : Double
    pub system_power_off : Double
    pub balance_trigger_delta : Double
    pub balance_start_voltage : Double
    pub balance_current_max : Double
    pub balancing_enabled : Bool
    pub charge_enabled : Bool
    pub discharge_enabled : Bool
    pub charge_overcurrent : Double
    pub charge_overcurrent_delay : ℕ
    pub charge_overcurrent_release : ℕ
    pub discharge_overcurrent : Double
    pub discharge_overcurrent_delay : ℕ
    pub discharge_overcurrent_release : ℕ
    pub short_circuit_delay_micros : ℕ
    pub short_circuit_release_delay : ℕ
    pub charge_over_temp : Double
    pub charge_over_temp_recovery : Double
    pub discharge_over_temp : Double
    pub discharge_over_temp_recovery : Double
    pub charge_under_temp : Double
    pub charge_under_temp_recovery : Double
    pub mos_over_temp : Double
    pub mos_over_temp_recovery : Double
    pub smart_sleep_voltage : Double
    pub smart_sleep_hours : ℕ
    pub precharge_seconds : ℕ
    pub current_range : Double
    pub device_address : ℕ
    pub switch_status : ℕ
    pub cell_resistances : List Double

  unfoldable pub read_settings : Bytes → Settings
  read_settings bytes =
      let cell_count = u32_at bytes 114 in
      record {
        cell_count = cell_count;
        cell_capacity = milli f64 (pos (u32_at bytes 130));
        cell_undervoltage = milli f64 (pos (u32_at bytes 10));
        cell_undervoltage_recovery = milli f64 (pos (u32_at bytes 14));
        cell_overvoltage = milli f64 (pos (u32_at bytes 18));
        cell_overvoltage_recovery = milli f64 (pos (u32_at bytes 22));
        cell_request_charge = milli f64 (pos (u32_at bytes 38));
        cell_request_float = milli f64 (pos (u32_at bytes 42));
        soc_100_percent = milli f64 (pos (u32_at bytes 30));
        soc_0_percent = milli f64 (pos (u32_at bytes 34));
        system_power_off = milli f64 (pos (u32_at bytes 46));
        balance_trigger_delta = milli f64 (pos (u32_at bytes 26));
        balance_start_voltage = milli f64 (pos (u32_at bytes 138));
        balance_current_max = milli f64 (pos (u32_at bytes 78));
        balancing_enabled = not (u32_at bytes 126 == 0);
        charge_enabled = not (u32_at bytes 118 == 0);
        discharge_enabled = not (u32_at bytes 122 == 0);
        charge_overcurrent = milli f64 (pos (u32_at bytes 50));
        charge_overcurrent_delay = u32_at bytes 54;
        charge_overcurrent_release = u32_at bytes 58;
        discharge_overcurrent = milli f64 (pos (u32_at bytes 62));
        discharge_overcurrent_delay = u32_at bytes 66;
        discharge_overcurrent_release = u32_at bytes 70;
        short_circuit_delay_micros = u32_at bytes 134;
        short_circuit_release_delay = u32_at bytes 74;
        charge_over_temp = deci f64 (i32_at bytes 82);
        charge_over_temp_recovery = deci f64 (i32_at bytes 86);
        discharge_over_temp = deci f64 (i32_at bytes 90);
        discharge_over_temp_recovery = deci f64 (i32_at bytes 94);
        charge_under_temp = deci f64 (i32_at bytes 98);
        charge_under_temp_recovery = deci f64 (i32_at bytes 102);
        mos_over_temp = deci f64 (i32_at bytes 106);
        mos_over_temp_recovery = deci f64 (i32_at bytes 110);
        smart_sleep_voltage = milli f64 (pos (u32_at bytes 6));
        smart_sleep_hours = get_or bytes 284 0;
        precharge_seconds = u32_at bytes 274;
        current_range = divide (of_int (pos (u32_at bytes 278))) (of_int (pos 10000));
        device_address = u32_at bytes 270;
        switch_status = u16_at bytes 282;
        cell_resistances =
            map (λ slot. milli f64 (pos (u32_at bytes (142 + 4 * slot)))) (range cell_count);
      }

  unfoldable pub parse_settings : Frame → Result ParseError Settings
  parse_settings frame =
      let cell_count = u32_at frame.bytes 114 in
      if not (frame.code == settings)
      then err (wrong_code frame.code)
      else if ltb 32 cell_count
      then err (too_many_cells cell_count)
      else ok (read_settings frame.bytes)
