-- ===== src/Time/Nts.antt =====
-- packages/time-correction/src/nts.rs: the records of NTS key establishment. The test for UTF-8 is
-- the standard library's, so it is a parameter.
pub mod Records
pub mod Accepted
pub mod Ends
mod Tests
use nixos_test.Prelude.{
  ℕ, zero, suc, ◌+◌, ◌*◌, Bool, true, false, not, ◌&&◌, Option, none, some, List, [], ◌∷◌, ◌++◌,
  Bytes, ltb, leb, ◌==◌, if◌then◌else◌, length, get_or, be_u16, to_be_u16, slice,
}
use nixos_test.Prelude.Outcome.{Result, ok, err, ◌>>=◌, ◌>>◌, require, ok_or}
use Prim.Native.Nat.{bit_and, bit_or}

abbrev pub next_protocol_ntpv4 : ℕ
next_protocol_ntpv4 = 0

abbrev pub aead_aes_siv_cmac_256 : ℕ
aead_aes_siv_cmac_256 = 15

abbrev pub record_end_of_message : ℕ
record_end_of_message = 0

abbrev pub record_next_protocol : ℕ
record_next_protocol = 1

abbrev pub record_error : ℕ
record_error = 2

abbrev pub record_warning : ℕ
record_warning = 3

abbrev pub record_aead_algorithm : ℕ
record_aead_algorithm = 4

abbrev pub record_new_cookie : ℕ
record_new_cookie = 5

abbrev pub record_server_negotiation : ℕ
record_server_negotiation = 6

abbrev pub record_port_negotiation : ℕ
record_port_negotiation = 7

abbrev pub critical_bit : ℕ
critical_bit = 0x8000

-- `!CRITICAL` on `u16`
abbrev pub kind_mask : ℕ
kind_mask = 0x7FFF

unfoldable pub exporter_context : ℕ → Bool → Bytes
exporter_context aead client_to_server =
    to_be_u16 next_protocol_ntpv4 ++ (to_be_u16 aead ++ ((if client_to_server then 0 else 1) ∷ []))

-- The body of the loop of `request`, for one record.
unfoldable pub request_record : ℕ → ℕ → Bytes
request_record kind body = to_be_u16 (bit_or kind critical_bit) ++ (to_be_u16 2 ++ to_be_u16 body)

unfoldable pub request : ℕ → Bytes
request aead =
    request_record record_next_protocol next_protocol_ntpv4
    ++ (request_record record_aead_algorithm aead
        ++ (to_be_u16 (bit_or record_end_of_message critical_bit) ++ to_be_u16 0))

-- `out_of_fuel` is none of the source's: the loop over the records was cut off.
pub data NtsError : Type 0 where
  truncated_record : (offset : ℕ) → NtsError
  body_past_end : (kind size : ℕ) → NtsError
  no_protocol_agreed : NtsError
  server_error : (code : Option ℕ) → NtsError
  server_warning : NtsError
  no_aead_agreed : NtsError
  server_not_utf8 : NtsError
  bad_port : NtsError
  unknown_critical : (kind : ℕ) → NtsError
  not_ended : NtsError
  other_protocol : (chosen : ℕ) → NtsError
  no_protocol : NtsError
  other_aead : (chosen : ℕ) → NtsError
  no_aead : NtsError
  no_cookies : NtsError
  out_of_fuel : NtsError

pub record Agreement : Type 0 where
  pub aead : ℕ
  pub cookies : List Bytes
  pub server : Option Bytes
  pub port : Option ℕ

unfoldable pub u16_at : Bytes → ℕ → Result NtsError ℕ
u16_at bytes offset =
    if leb (offset + 2) (length bytes)
    then ok (be_u16 (get_or bytes offset 0) (get_or bytes (offset + 1) 0))
    else err (truncated_record offset)

-- The `while` of `response_complete`; `none` means that the fuel ran out.
unfoldable pub complete_from : ℕ → Bytes → ℕ → Option Bool
complete_from zero message offset = none
complete_from (suc fuel) message offset =
    let header = be_u16 (get_or message offset 0) (get_or message (offset + 1) 0) in
    let size = be_u16 (get_or message (offset + 2) 0) (get_or message (offset + 3) 0) in
    let rest = complete_from fuel message (offset + (4 + size)) in
    if not (leb (offset + 4) (length message))
    then some false
    else if bit_and header kind_mask == record_end_of_message
    then some true
    else rest

-- Every record takes four bytes at least, so the length of the message is more than enough rounds.
unfoldable pub response_complete : Bytes → Option Bool
response_complete message = complete_from (length message + 1) message 0

-- The loop's variables.
pub record Gathered : Type 0 where
  pub next_protocol : Option ℕ
  pub aead : Option ℕ
  pub cookies : List Bytes
  pub server : Option Bytes
  pub port : Option ℕ

abbrev pub nothing_gathered : Gathered
nothing_gathered = record {
  next_protocol = none;
  aead = none;
  cookies = [];
  server = none;
  port = none;
}

-- A record as it is read: what it is, and where the next one begins.
pub record Header : Type 0 where
  pub critical : Bool
  pub kind : ℕ
  pub body : Bytes
  pub next : ℕ

unfoldable pub read_record : Bytes → ℕ → Result NtsError Header
read_record message offset = do
  header ← u16_at message offset
  size ← u16_at message (offset + 2)
  let kind = bit_and header kind_mask
  body ← ok_or (slice message (offset + 4) (offset + 4 + size)) (body_past_end kind size)
  ok (record {
    critical = not (bit_and header critical_bit == 0);
    kind = kind;
    body = body;
    next = offset + (4 + size);
  })

-- `u16::from_be_bytes([body[0], body[1]])`
abbrev pub body_u16 : Bytes → ℕ
body_u16 body = be_u16 (get_or body 0 0) (get_or body 1 0)

unfoldable pub check_protocol : Option ℕ → Result NtsError (Unit {0})
check_protocol none = err no_protocol
check_protocol (some chosen) = require (chosen == next_protocol_ntpv4) (other_protocol chosen)

unfoldable pub check_aead : Option ℕ → ℕ → Result NtsError (Unit {0})
check_aead none requested = err no_aead
check_aead (some chosen) requested = require (chosen == requested) (other_aead chosen)

unfoldable pub has_cookies : List Bytes → Bool
has_cookies [] = false
has_cookies (c ∷ cookies) = true

module _ (is_utf8 : Bytes → Bool) where
  -- The `match record`, but for the end of the message.
  unfoldable pub gather : Header → Gathered → Result NtsError Gathered
  gather r g =
      let two = length r.body == 2 in
      let value = body_u16 r.body in
      if r.kind == record_next_protocol
      then (if not two
          then err no_protocol_agreed
          else ok (record g { next_protocol = some value }))
      else if r.kind == record_error
      then err (server_error (if two then some value else none))
      else if r.kind == record_warning
      then err server_warning
      else if r.kind == record_aead_algorithm
      then (if not two then err no_aead_agreed else ok (record g { aead = some value }))
      else if r.kind == record_new_cookie
      then ok (record g { cookies = g.cookies ++ (r.body ∷ []) })
      else if r.kind == record_server_negotiation
      then (if not (is_utf8 r.body)
          then err server_not_utf8
          else ok (record g { server = some r.body }))
      else if r.kind == record_port_negotiation
      then (if not two then err bad_port else ok (record g { port = some value }))
      else if r.critical
      then err (unknown_critical r.kind)
      else ok g

  -- The `while` of `parse_response`; the Boolean is `ended`.
  unfoldable pub records_from : ℕ → Bytes → ℕ → Gathered → Result NtsError (Gathered × Bool)
  records_from zero message offset g = err out_of_fuel
  records_from (suc fuel) message offset g =
      if not (ltb offset (length message))
      then ok (g, false)
      else (read_record message offset >>= λ r.
          if r.kind == record_end_of_message
          then ok (g, true)
          else (gather r g >>= λ g'. records_from fuel message r.next g'))

  unfoldable pub parse_response : Bytes → ℕ → Result NtsError Agreement
  parse_response message requested_aead = do
    read ← records_from (length message + 1) message 0 nothing_gathered
    require (read.1) not_ended
    check_protocol (read.0).next_protocol
    check_aead (read.0).aead requested_aead
    require (has_cookies (read.0).cookies) no_cookies
    ok (record {
      aead = requested_aead;
      cookies = (read.0).cookies;
      server = (read.0).server;
      port = (read.0).port;
    })
