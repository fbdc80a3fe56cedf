-- ===== src/Time/Nts/Tests.antt =====
-- packages/time-correction/src/nts.rs: a request and a response, and the theorems at them.
use nixos_test.Prelude.{◌≡◌, ◌≢◌, refl, Bool, true, false, some, none, List, [], ◌∷◌, Bytes, slice}
use nixos_test.Prelude.Outcome.{err}
use nixos_test.Time.Nts
use nixos_test.Time.Nts.Accepted.{Agrees, parse_response-Agrees}
use nixos_test.Time.Nts.Ends.{parse_response_ends}

abbrev any_text : Bytes → Bool
any_text bytes = true

-- NTPv4, AES-SIV-CMAC-256, an unknown record that may be ignored, a cookie, and the end.
abbrev response : Bytes
response =
    0x80 ∷ 1 ∷ 0 ∷ 2 ∷ 0 ∷ 0 ∷ 0x80 ∷ 4 ∷ 0 ∷ 2 ∷ 0 ∷ 15 ∷ 0x40 ∷ 0 ∷ 0 ∷ 0 ∷ 0 ∷ 5 ∷ 0 ∷ 1 ∷ 7
    ∷ 0x80 ∷ 0 ∷ 0 ∷ 0 ∷ []

abbrev agreement : Nts.Agreement
agreement = record { aead = 15; cookies = (7 ∷ []) ∷ []; server = none; port = none }

parse_response-Agrees_example :
    (Nts.response_complete response ≡ some true)
    × ((rs : List Nts.Header) × Agrees any_text response 15 agreement rs)
unfolding Nts.parse_response Nts.records_from Nts.read_record Nts.u16_at Nts.gather
    Nts.check_protocol Nts.check_aead Nts.has_cookies slice
parse_response-Agrees_example = parse_response-Agrees any_text response 15 refl

-- The same with the unknown record critical.
critical_record :
    Nts.parse_response any_text (0xC0 ∷ 0 ∷ 0 ∷ 0 ∷ response) 15 ≡ err (Nts.unknown_critical 0x4000)
unfolding Nts.parse_response Nts.records_from Nts.read_record Nts.u16_at Nts.gather slice
critical_record = refl

parse_response_ends_example : Nts.parse_response any_text response 15 ≢ err Nts.out_of_fuel
parse_response_ends_example = parse_response_ends any_text response 15

-- The request itself ends with the terminator.
request_complete : Nts.response_complete (Nts.request 15) ≡ some true
unfolding Nts.response_complete Nts.complete_from Nts.request Nts.request_record
request_complete = refl

server_context : Nts.exporter_context 15 false ≡ 0 ∷ 0 ∷ 0 ∷ 15 ∷ 1 ∷ []
unfolding Nts.exporter_context
server_context = refl
