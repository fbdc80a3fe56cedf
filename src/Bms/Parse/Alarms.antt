-- ===== src/Bms/Parse/Alarms.antt =====
-- packages/bms-monitoring/src/parse.rs: the names of the alarm bits that are set.
use nixos_test.Prelude.{
  ℕ, zero, suc, ◌^◌, ◌<◌, ◌≡◌, refl, ap, some, List, [], ◌∷◌, ◌++◌, map, get_or, get_elem?, length,
  arith, All, All-append, All-map, All-weaken, All-always,
}
use nixos_test.Prelude.Distinct.{filter-All}
use nixos_test.Bms.Parse.Cells.Slots.{range-All}
use nixos_test.Prelude.Bits.{
  filter, range, bit_set, weight, weight-filter-bit_set, Ascending, Ascending-set_bits,
}
use Prim.Native.String.{String}

unfoldable pub sys_alarm_flags : List String
sys_alarm_flags =
    "balancing_wire_resistance_high" ∷ "mos_over_temp" ∷ "cell_count_mismatch"
    ∷ "current_sensor_abnormal" ∷ "cell_overvoltage" ∷ "pack_overvoltage" ∷ "charge_overcurrent"
    ∷ "charge_short_circuit" ∷ "charge_over_temp" ∷ "charge_low_temp" ∷ "internal_comms_abnormal"
    ∷ "cell_undervoltage" ∷ "pack_undervoltage" ∷ "discharge_overcurrent"
    ∷ "discharge_short_circuit" ∷ "discharge_over_temp" ∷ "charge_anomaly" ∷ "discharge_anomaly"
    ∷ "gps_disconnected" ∷ "change_authorization_password" ∷ "discharge_on_failure"
    ∷ "battery_over_temp" ∷ "temp_sensor_anomaly" ∷ "parallel_module_failure" ∷ "reserved_24"
    ∷ "reserved_25" ∷ "reserved_26" ∷ "reserved_27" ∷ "reserved_28" ∷ "reserved_29" ∷ "reserved_30"
    ∷ "reserved_31" ∷ []

-- An asserted bit: `b{bit}` of the system's word with its name, or `u2b{bit}` of the user's word,
-- named `user_alarm2_{bit}`.
pub data Alarm : Type 0 where
  system : (bit : ℕ) → (name : String) → Alarm
  user : (bit : ℕ) → Alarm

unfoldable pub system_alarm : ℕ → Alarm
system_alarm bit = system bit (get_or sys_alarm_flags bit "")

unfoldable pub asserted_alarms : ℕ → ℕ → List Alarm
asserted_alarms sys_alarm user_alarm =
    map system_alarm (filter (bit_set sys_alarm) (range 32))
    ++ map user (filter (bit_set user_alarm) (range 16))

-- The bits of either word that a list of alarms names, in its order.
abbrev pub system_bits : List Alarm → List ℕ
system_bits [] = []
system_bits (system bit name ∷ alarms) = bit ∷ system_bits alarms
system_bits (user bit ∷ alarms) = system_bits alarms

abbrev pub user_bits : List Alarm → List ℕ
user_bits [] = []
user_bits (system bit name ∷ alarms) = user_bits alarms
user_bits (user bit ∷ alarms) = bit ∷ user_bits alarms

-- An alarm of the system's word has its bit's name in the table.
abbrev pub IsNamed : Alarm → Type 0
IsNamed (system bit name) = get_elem? sys_alarm_flags bit ≡ some name
IsNamed (user bit) = Unit

-- The bits are those that are set in the word: in ascending order, so none twice, they spell it.
abbrev pub Spells : List ℕ → ℕ → Type 0
Spells bits word = Ascending bits × (weight bits ≡ word)

system_bits-map : (bits rest : List ℕ) → system_bits (map system_alarm bits ++ map user rest) ≡ bits
unfolding system_alarm
system_bits-map [] rest = none_of rest
  where
    none_of : (rest : List ℕ) → system_bits (map user rest) ≡ []
    none_of [] = refl
    none_of (k ∷ rest) = none_of rest
system_bits-map (k ∷ bits) rest = ap (λ (t : List ℕ). k ∷ t) (system_bits-map bits rest)

user_bits-map : (bits rest : List ℕ) → user_bits (map system_alarm bits ++ map user rest) ≡ rest
unfolding system_alarm
user_bits-map [] [] = refl
user_bits-map [] (k ∷ rest) = ap (λ (t : List ℕ). k ∷ t) (user_bits-map [] rest)
user_bits-map (k ∷ bits) rest = user_bits-map bits rest

get_elem?-get_or :
    {A : Type 0} (xs : List A) (d : A) (k : ℕ)
    → k < length xs
    → get_elem? xs k ≡ some (get_or xs k d)
get_elem?-get_or [] d k h = absurd (omega arith)
get_elem?-get_or (x ∷ xs) d zero h = refl
get_elem?-get_or (x ∷ xs) d (suc k) h = get_elem?-get_or xs d k (omega arith)

flag_count : length sys_alarm_flags ≡ 32
unfolding sys_alarm_flags
flag_count = refl

system_alarm-IsNamed : (k : ℕ) → k < 32 → IsNamed (system_alarm k)
unfolding system_alarm
system_alarm-IsNamed k h = get_elem?-get_or sys_alarm_flags "" k (omega (arith, flag_count))

-- For words of 32 and of 16 bits, the bits of either word that the alarms list are in ascending order
-- and spell the word: no bit that is set is left out, none is listed twice, and none that is clear is
-- listed. Each alarm of the system's word has the name that the table has for its bit.
pub asserted_alarms_complete :
    (sys_alarm user_alarm : ℕ)
    → sys_alarm < 2 ^ 32
    → user_alarm < 2 ^ 16
    → Spells (system_bits (asserted_alarms sys_alarm user_alarm)) sys_alarm
      × Spells (user_bits (asserted_alarms sys_alarm user_alarm)) user_alarm
      × All IsNamed (asserted_alarms sys_alarm user_alarm)
unfolding asserted_alarms
asserted_alarms_complete sys_alarm user_alarm h k =
    let bits = filter (bit_set sys_alarm) (range 32) in
    let rest = filter (bit_set user_alarm) (range 16) in
    (
      rw (system_bits-map bits rest)
          (Ascending-set_bits 32 sys_alarm, rw (weight-filter-bit_set 32 sys_alarm) (omega arith)),
      rw (user_bits-map bits rest) (
        Ascending-set_bits 16 user_alarm,
        rw (weight-filter-bit_set 16 user_alarm) (omega arith),
      ),
      All-append IsNamed (map system_alarm bits) (map user rest)
          (All-map IsNamed system_alarm bits (
            All-weaken (λ b. b < 32) _ system_alarm-IsNamed bits
              (filter-All (λ b. b < 32) (bit_set sys_alarm) (range 32) (range-All 32))))
          (All-map IsNamed user rest (All-always _ (λ b. tt) rest)),
    )
