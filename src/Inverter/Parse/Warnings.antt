-- ===== src/Inverter/Parse/Warnings.antt =====
-- packages/inverter-monitoring/src/parse.rs: the warning bits.
pub mod RoundTrip
use nixos_test.Prelude.{
  ℕ, zero, suc, ◌+◌, ◌<◌, ◌≡◌, refl, sym, ap, ◌∙◌, Bool, true, false, List, [], ◌∷◌, ◌++◌, Bytes,
  arith, length, get_elem?, get_or, if◌then◌else◌, ◌==◌, ==→eq, All, map,
}
use nixos_test.Prelude.Outcome.{
  Result, ok, err, ◌>>=◌, ◌>>◌, require, >>=-eq-ok, require-eq_ok, ok-injective, rejected-eq_ok,
}
use nixos_test.Inverter.Parse.{Std, ParseError, payload_not_ascii, expect_len, bit, bit_of}
use Prim.Native.String.{String}

unfoldable pub warning_flags : List String
warning_flags =
    "reserved1" ∷ "inverter_fault" ∷ "bus_over" ∷ "bus_under" ∷ "bus_soft_fail" ∷ "line_fail"
    ∷ "opvshort" ∷ "inverter_voltage_too_low" ∷ "inverter_voltage_too_high" ∷ "over_temperature"
    ∷ "fan_locked" ∷ "battery_voltage_high" ∷ "battery_low_alarm" ∷ "reserved_overcharge"
    ∷ "battery_under_shutdown" ∷ "reserved_battery_derating" ∷ "over_load" ∷ "eeprom_fault"
    ∷ "inverter_over_current" ∷ "inverter_soft_fail" ∷ "self_test_fail" ∷ "op_dv_voltage_over"
    ∷ "bat_open" ∷ "current_sensor_fail" ∷ "battery_short" ∷ "power_limit" ∷ "pv_voltage_high_1"
    ∷ "mppt_overload_fault_1" ∷ "mppt_overload_warning_1" ∷ "battery_too_low_to_charge_1"
    ∷ "pv_voltage_high_2" ∷ "mppt_overload_fault_2" ∷ "mppt_overload_warning_2"
    ∷ "battery_too_low_to_charge_2" ∷ "unknown1" ∷ "unknown2" ∷ []

abbrev pub inverter_fault_bit : ℕ
inverter_fault_bit = 1

pub record Qpiws : Type 0 where
  pub raw : Bytes
  pub bits : List Bool

unfoldable pub count_set : List Bool → ℕ
count_set [] = 0
count_set (b ∷ bits) = if b then suc (count_set bits) else count_set bits

-- `Qpiws::asserted_count`
unfoldable pub asserted_count : Qpiws → ℕ
asserted_count w = count_set w.bits

-- `enumerate().filter(..).map(..)`, from an index on.
unfoldable pub asserted_from : ℕ → List Bool → List (ℕ × String)
asserted_from index [] = []
asserted_from index (b ∷ bits) =
    let rest = asserted_from (suc index) bits in
    if b then (index, get_or warning_flags index "") ∷ rest else rest

-- `Qpiws::asserted`
unfoldable pub asserted : Qpiws → List (ℕ × String)
asserted w = asserted_from 0 w.bits

-- The loop that fills the bits: `count` of them, from `index` on.
unfoldable pub read_bits : ℕ → Bytes → ℕ → Result ParseError (List Bool)
read_bits zero payload index = ok []
read_bits (suc count) payload index =
    bit payload index >>= λ b. read_bits count payload (suc index) >>= λ bits. ok (b ∷ bits)

module _ (std : Std) where
  open std use {is_utf8}

  unfoldable pub parse_qpiws : Bytes → Result ParseError Qpiws
  parse_qpiws payload = do
    expect_len payload (length warning_flags)
    bits ← read_bits (length warning_flags) payload 0
    require (is_utf8 payload) payload_not_ascii
    ok (record { raw = payload; bits = bits })

-- The characters of a list of bits, an independent description.
abbrev pub print_bits : List Bool → Bytes
print_bits [] = []
print_bits (true ∷ bits) = b'1' ∷ print_bits bits
print_bits (false ∷ bits) = b'0' ∷ print_bits bits
