-- ===== src/Inverter/Serial/Tests.antt =====
-- packages/inverter-monitoring/src/port.rs and src/discover.rs: a response in two pieces, a remembered
-- port, and the theorems at them.
use nixos_test.Prelude.{
  ◌≡◌, refl, sym, not, none, some, List, [], ◌∷◌, ◌++◌, Bytes, All, bytes_eq, arith, append-nil,
}
use mathlib.Core.List.{Perm}
use nixos_test.Prelude.Bits.{filter}
use nixos_test.Prelude.Outcome.{ok, err}
use nixos_test.Prelude.Text.{codes}
use nixos_test.Serial.{Candidate, disconnected}
use nixos_test.Inverter.Protocol.{cr, build_response, classify}
use nixos_test.Inverter.Serial.{
  Reads, read_frame, read_from, extend, after_read, listen, listen_from, order, probe, answered,
}
use nixos_test.Inverter.Serial.Framed.{Brings, read_frame_lem, probe_lem}
use nixos_test.Inverter.Serial.Ordered.{order_lem}

abbrev pieces : Reads
pieces = ok (1 ∷ 2 ∷ []) ∷ ok [] ∷ ok (3 ∷ cr ∷ 9 ∷ []) ∷ err disconnected ∷ []

abbrev clean_pieces : Reads
clean_pieces = ok (1 ∷ 2 ∷ []) ∷ ok [] ∷ ok (3 ∷ cr ∷ 9 ∷ []) ∷ []

-- What comes after the frame is not read.
read_runs : read_frame pieces ≡ ok (some (1 ∷ 2 ∷ 3 ∷ cr ∷ []))
unfolding read_frame read_from extend after_read
read_runs = refl

clean_pieces-Brings : Brings clean_pieces (1 ∷ 2 ∷ 3 ∷ cr ∷ 9 ∷ [])
clean_pieces-Brings =
    (3 ∷ cr ∷ 9 ∷ [], refl, (3 ∷ cr ∷ 9 ∷ [], refl, ([], sym (append-nil _), refl)))

read_frame_lem_example : read_frame clean_pieces ≡ ok (some (1 ∷ 2 ∷ 3 ∷ cr ∷ []))
read_frame_lem_example =
    read_frame_lem (1 ∷ 2 ∷ 3 ∷ []) (9 ∷ []) clean_pieces (refl, (refl, (refl, tt))) (omega arith)
      clean_pieces-Brings

abbrev serial : Bytes
serial = codes "96"

abbrev response : Reads
response = ok (build_response serial) ∷ []

silent_port : listen (ok [] ∷ ok [] ∷ []) ≡ ok 0
unfolding listen listen_from
silent_port = refl

probe_lem_example :
    probe (ok [] ∷ ok [] ∷ []) (ok tt) response ≡ ok (answered (ok (classify serial)))
probe_lem_example =
    probe_lem serial [] (ok [] ∷ ok [] ∷ []) response (refl, (refl, tt)) (omega arith) silent_port
      ([], refl, refl)

abbrev port : Bytes → Candidate
port path_id = record { tty = path_id; path_id = path_id; by_id = none }

abbrev ports : List Candidate
ports = port (codes "a") ∷ port (codes "b") ∷ port (codes "c") ∷ []

order_lem_example :
    Perm ports (order ports (some (codes "b")) 7)
    × ((first : List Candidate) × (later : List Candidate) × (order ports (some (codes "b")) 7
          ≡ first ++ later)
        × All (λ c. c.path_id ≡ codes "b") first
        × Perm (filter (λ c. not (bytes_eq c.path_id (codes "b"))) ports) later)
order_lem_example = order_lem ports (codes "b") 7
