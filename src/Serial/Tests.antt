-- ===== src/Serial/Tests.antt =====
-- packages/bms-monitoring/src/port.rs and src/discover.rs: what poll can say, and a shuffle.
use nixos_test.Prelude.{ℕ, ◌≡◌, refl, true, false, some, List, [], ◌∷◌}
use nixos_test.Prelude.Outcome.{ok, err}
use nixos_test.Prelude.Text.{codes}
use nixos_test.Serial
use nixos_test.Serial.{Candidate, Revents}

-- A hang-up outranks the input that may be reported with it.
abbrev hung_up : Revents
hung_up = record { input = true; hang_up = true; error = false; invalid = false }

abbrev input : Revents
input = record { input = true; hang_up = false; error = false; invalid = false }

gone : Serial.read_some (Serial.events hung_up) (Serial.chunk (1 ∷ [])) ≡ err Serial.disconnected
unfolding Serial.read_some Serial.wait Serial.classify Serial.read_ready
gone = refl

ended : Serial.read_some (Serial.events input) (Serial.chunk []) ≡ err Serial.disconnected
unfolding Serial.read_some Serial.wait Serial.classify Serial.read_ready Serial.read_file
ended = refl

spurious : Serial.read_some (Serial.events input) Serial.would_block ≡ ok []
unfolding Serial.read_some Serial.wait Serial.classify Serial.read_ready Serial.read_file
spurious = refl

abbrev four : List ℕ
four = 1 ∷ 2 ∷ 3 ∷ 4 ∷ []

shuffled : Serial.shuffle four 5 ≡ 3 ∷ 4 ∷ 1 ∷ 2 ∷ []
unfolding Serial.shuffle Serial.shuffle_from Serial.swap Serial.swap_with Serial.next
shuffled = refl

described :
    Serial.describe (record { tty = []; path_id = codes "a"; by_id = some (codes "b") })
    ≡ codes "a (b)"
unfolding Serial.describe Serial.describe_with
described = refl
