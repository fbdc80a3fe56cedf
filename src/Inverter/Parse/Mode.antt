-- ===== src/Inverter/Parse/Mode.antt =====
-- packages/inverter-monitoring/src/parse.rs: the operating mode.
use nixos_test.Prelude.{
  ℕ, ◌≡◌, refl, sym, ap, ◌∙◌, not, Option, none, some, [], ◌∷◌, Bytes, ◌==◌, if◌then◌else◌, length,
  arith,
}
use nixos_test.Prelude.Outcome.{Result, ok, err, rejected-eq_ok, ok-injective}
use nixos_test.Inverter.Parse.{ParseError, wrong_length, not_graphic, is_graphic}
use Prim.Native.String.{String}

pub data Mode : Type 0 where
  power_on standby line battery fault shutdown charge bypass eco : Mode

unfoldable pub from_code : ℕ → Option Mode
from_code code =
    if code == b'P'
    then some power_on
    else if code == b'S'
    then some standby
    else if code == b'L'
    then some line
    else if code == b'B'
    then some battery
    else if code == b'F'
    then some fault
    else if code == b'D'
    then some shutdown
    else if code == b'C'
    then some charge
    else if code == b'Y'
    then some bypass
    else if code == b'E'
    then some eco
    else none

pub name : Mode → String
name power_on = "power_on"
name standby = "standby"
name line = "line"
name battery = "battery"
name fault = "fault"
name shutdown = "shutdown"
name charge = "charge"
name bypass = "bypass"
name eco = "eco"

pub record ModeReading : Type 0 where
  pub code : ℕ
  pub mode : Option Mode

unfoldable pub parse_qmod : Bytes → Result ParseError ModeReading
parse_qmod [] = err (wrong_length 0)
parse_qmod (code ∷ []) =
    if not (is_graphic code)
    then err (not_graphic code)
    else ok (record { code = code; mode = from_code code })
parse_qmod (a ∷ b ∷ payload) = err (wrong_length (length (a ∷ b ∷ payload)))

-- The letters that the unit sends, an independent description.
abbrev pub code_of : Mode → ℕ
code_of power_on = b'P'
code_of standby = b'S'
code_of line = b'L'
code_of battery = b'B'
code_of fault = b'F'
code_of shutdown = b'D'
code_of charge = b'C'
code_of bypass = b'Y'
code_of eco = b'E'

from_code-some : (code : ℕ) {m : Mode} → from_code code ≡ some m → code ≡ code_of m
unfolding from_code
from_code-some code h = ground (arith, h)

-- The payload of a mode's letter alone is read as that letter and that mode.
pub parse_qmod-code_of :
    (m : Mode) → parse_qmod (code_of m ∷ []) ≡ ok (record { code = code_of m; mode = some m })
unfolding parse_qmod from_code
parse_qmod-code_of power_on = refl
parse_qmod-code_of standby = refl
parse_qmod-code_of line = refl
parse_qmod-code_of battery = refl
parse_qmod-code_of fault = refl
parse_qmod-code_of shutdown = refl
parse_qmod-code_of charge = refl
parse_qmod-code_of bypass = refl
parse_qmod-code_of eco = refl

-- If a payload is read with a mode, it is the letter of that mode alone, and that letter is the code
-- in the reading.
pub parse_qmod_sound :
    (payload : Bytes) {m : Mode} {r : ModeReading}
    → parse_qmod payload ≡ ok r
    → r.mode ≡ some m
    → (payload ≡ code_of m ∷ []) × (r.code ≡ code_of m)
unfolding parse_qmod
parse_qmod_sound [] e h = cc
parse_qmod_sound (code ∷ []) {m = m} e h =
    let (graphic, e1) = rejected-eq_ok (not (is_graphic code)) _ e in
    let same = ok-injective (record { code = code; mode = from_code code }) _ e1 in
    let letter : code ≡ code_of m =
      from_code-some code (ap (λ (r : ModeReading). r.mode) same ∙ h) in
    (rw letter refl, sym (ap (λ (r : ModeReading). r.code) same) ∙ letter)
parse_qmod_sound (a ∷ b ∷ payload) e h = cc
