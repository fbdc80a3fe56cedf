-- ===== src/Inverter/Parse/Status.antt =====
-- packages/inverter-monitoring/src/parse.rs: the general status and that of the second PV input.
use nixos_test.Prelude.{ℕ, Bool, List, [], ◌∷◌, Bytes, ◌==◌, get_or}
use nixos_test.Prelude.Outcome.{Result, ok, ◌>>=◌, ◌>>◌, require}
use nixos_test.Inverter.Parse.{Std, ParseError, bad_separator, expect_len, bit, integer, decimal}

-- The loop over the separators: each is to be a space. The length is checked before.
unfoldable pub check_separators : List ℕ → Bytes → Result ParseError (Unit {0})
check_separators [] payload = ok tt
check_separators (offset ∷ offsets) payload =
    require (get_or payload offset 0 == b' ') (bad_separator offset)
    >> check_separators offsets payload

abbrev pub qpigs_len : ℕ
qpigs_len = 106

abbrev pub qpigs_separators : List ℕ
qpigs_separators =
    5 ∷ 10 ∷ 16 ∷ 21 ∷ 26 ∷ 31 ∷ 35 ∷ 39 ∷ 45 ∷ 49 ∷ 53 ∷ 58 ∷ 63 ∷ 69 ∷ 75 ∷ 81 ∷ 90 ∷ 93 ∷ 96
    ∷ 102 ∷ []

abbrev pub qpigs2_len : ℕ
qpigs2_len = 17

abbrev pub qpigs2_separators : List ℕ
qpigs2_separators = 4 ∷ 10 ∷ 16 ∷ []

module _ (std : Std) where
  open std use {Double, of_int, divide}

  pub record Qpigs : Type 0 where
    pub grid_voltage : Double
    pub grid_frequency : Double
    pub output_voltage : Double
    pub output_frequency : Double
    pub output_apparent_power : ℕ
    pub output_active_power : ℕ
    pub output_load_percent : ℕ
    pub bus_voltage : ℕ
    pub battery_voltage : Double
    pub battery_charging_current : ℕ
    pub battery_capacity : ℕ
    pub heat_sink_temperature : ℕ
    pub pv1_current : Double
    pub pv1_voltage : Double
    pub battery_voltage_from_scc1 : Double
    pub battery_discharge_current : ℕ
    pub battery_voltage_offset_fans_on : Double
    pub eeprom_version : ℕ
    pub pv1_charging_power : ℕ
    pub add_sbu_priority_version : Bool
    pub configuration_changed : Bool
    pub scc_firmware_updated : Bool
    pub load_on : Bool
    pub battery_voltage_to_steady_while_charging : Bool
    pub charging : Bool
    pub charging_scc : Bool
    pub charging_ac : Bool
    pub float_charge : Bool
    pub switch_on : Bool

  unfoldable pub parse_qpigs : Bytes → Result ParseError Qpigs
  parse_qpigs payload = do
    expect_len payload qpigs_len
    check_separators qpigs_separators payload
    grid_voltage ← decimal std payload 0 5
    grid_frequency ← decimal std payload 6 4
    output_voltage ← decimal std payload 11 5
    output_frequency ← decimal std payload 17 4
    output_apparent_power ← integer std payload 22 4
    output_active_power ← integer std payload 27 4
    output_load_percent ← integer std payload 32 3
    bus_voltage ← integer std payload 36 3
    battery_voltage ← decimal std payload 40 5
    battery_charging_current ← integer std payload 46 3
    battery_capacity ← integer std payload 50 3
    heat_sink_temperature ← integer std payload 54 4
    pv1_current ← decimal std payload 59 4
    pv1_voltage ← decimal std payload 64 5
    battery_voltage_from_scc1 ← decimal std payload 70 5
    battery_discharge_current ← integer std payload 76 5
    add_sbu_priority_version ← bit payload 82
    configuration_changed ← bit payload 83
    scc_firmware_updated ← bit payload 84
    load_on ← bit payload 85
    battery_voltage_to_steady_while_charging ← bit payload 86
    charging ← bit payload 87
    charging_scc ← bit payload 88
    charging_ac ← bit payload 89
    fan_offset ← integer std payload 91 2
    eeprom_version ← integer std payload 94 2
    pv1_charging_power ← integer std payload 97 5
    float_charge ← bit payload 103
    switch_on ← bit payload 104
    ok (record {
      grid_voltage = grid_voltage;
      grid_frequency = grid_frequency;
      output_voltage = output_voltage;
      output_frequency = output_frequency;
      output_apparent_power = output_apparent_power;
      output_active_power = output_active_power;
      output_load_percent = output_load_percent;
      bus_voltage = bus_voltage;
      battery_voltage = battery_voltage;
      battery_charging_current = battery_charging_current;
      battery_capacity = battery_capacity;
      heat_sink_temperature = heat_sink_temperature;
      pv1_current = pv1_current;
      pv1_voltage = pv1_voltage;
      battery_voltage_from_scc1 = battery_voltage_from_scc1;
      battery_discharge_current = battery_discharge_current;
      battery_voltage_offset_fans_on = divide (of_int fan_offset) (of_int 100);
      eeprom_version = eeprom_version;
      pv1_charging_power = pv1_charging_power;
      add_sbu_priority_version = add_sbu_priority_version;
      configuration_changed = configuration_changed;
      scc_firmware_updated = scc_firmware_updated;
      load_on = load_on;
      battery_voltage_to_steady_while_charging = battery_voltage_to_steady_while_charging;
      charging = charging;
      charging_scc = charging_scc;
      charging_ac = charging_ac;
      float_charge = float_charge;
      switch_on = switch_on;
    })

  pub record Qpigs2 : Type 0 where
    pub pv2_current : Double
    pub pv2_voltage : Double
    pub pv2_charging_power : ℕ

  unfoldable pub parse_qpigs2 : Bytes → Result ParseError Qpigs2
  parse_qpigs2 payload = do
    expect_len payload qpigs2_len
    check_separators qpigs2_separators payload
    pv2_current ← decimal std payload 0 4
    pv2_voltage ← decimal std payload 5 5
    pv2_charging_power ← integer std payload 11 5
    ok (record {
      pv2_current = pv2_current;
      pv2_voltage = pv2_voltage;
      pv2_charging_power = pv2_charging_power;
    })
