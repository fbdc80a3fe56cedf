-- ===== src/Time/Ntp/Tests.antt =====
-- packages/time-correction/src/ntp.rs: an exchange under a toy cipher, and the theorems at it.
use nixos_test.Prelude.{
  ℕ, ◌+◌, ◌%◌, ◌≡◌, refl, Option, none, some, List, [], ◌∷◌, ◌++◌, Bytes, arith, length, replicate,
  ◌==◌, if◌then◌else◌, All, slice, bytes_eq,
}
use mathlib.Core.List.{foldl}
use nixos_test.Prelude.Int.{pos}
use nixos_test.Prelude.Outcome.{ok}
use nixos_test.Time.Ntp.{
  Siv, ef_unique_identifier, ef_authenticator, extension_field, Field, fields_from,
  extension_fields, find_kind, read_timestamp, transmit_timestamp, check_header, check_identifier,
  check_authenticator, parse_response, authenticator_body,
}
use nixos_test.Time.Ntp.Fields.{IsInside, extension_fields-IsInside}
use nixos_test.Time.Ntp.Covered.{Vouched, parse_response-Vouched}

abbrev sum_bytes : ℕ → Bytes → ℕ
sum_bytes = foldl (λ acc b. (acc + b) % 256)

-- One byte that sums the key and the associated data, in front of the plaintext.
abbrev tag : Bytes → List Bytes → ℕ
tag key headers = foldl sum_bytes (sum_bytes 0 key) headers

abbrev open_sealed : ℕ → Bytes → Option Bytes
open_sealed t [] = none
open_sealed t (b ∷ bs) = if b == t then some bs else none

open_tagged :
    (t : ℕ) (plain sealed : Bytes)
    → some (t ∷ plain) ≡ some sealed
    → open_sealed t sealed ≡ some plain
open_tagged t plain [] h = cc
open_tagged t plain (b ∷ bs) h = ground arith

abbrev toy : Siv
toy = record {
  accepts_key = λ key. length key == 32;
  encrypt = λ key headers plain. some (tag key headers ∷ plain);
  decrypt = λ key headers sealed. open_sealed (tag key headers) sealed;
  decrypt-encrypt = λ key headers plain sealed h. open_tagged (tag key headers) plain sealed h;
}

abbrev key : Bytes
key = replicate 32 9

abbrev uid : Bytes
uid = replicate 32 3

abbrev nonce : Bytes
nonce = replicate 16 11

-- 1785000000 seconds after the Unix epoch, as the server's header carries it.
abbrev covered : Bytes
covered =
    (0x24 ∷ 3 ∷ replicate 38 0)
    ++ (0xEE ∷ 0x0F ∷ 0x6E ∷ 0xC0 ∷ (replicate 4 0 ++ extension_field ef_unique_identifier uid))

abbrev response : Bytes
response =
    covered
    ++ extension_field ef_authenticator
        (authenticator_body nonce (tag key (covered ∷ nonce ∷ []) ∷ []))

response_runs : parse_response toy response key uid ≡ ok (pos 1785000000)
unfolding parse_response check_header check_identifier check_authenticator extension_fields
    fields_from find_kind transmit_timestamp read_timestamp extension_field authenticator_body slice
    bytes_eq
response_runs = refl

abbrev response_fields : List Field
response_fields =
    record { kind = ef_unique_identifier; start = 52; stop = 84 }
    ∷ record { kind = ef_authenticator; start = 88; stop = 112 }
    ∷ []

fields_run : extension_fields response ≡ ok response_fields
unfolding extension_fields fields_from extension_field authenticator_body
fields_run = refl

parse_response-Vouched_example : Vouched toy response key uid (pos 1785000000)
parse_response-Vouched_example =
    parse_response-Vouched toy response key uid (pos 1785000000) response_runs

extension_fields-IsInside_example : All (IsInside response) response_fields
extension_fields-IsInside_example = extension_fields-IsInside response response_fields fields_run
