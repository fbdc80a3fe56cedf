-- ===== src/Time/Dns.antt =====
-- packages/time-correction/src/dns.rs: the DNS wire format, as far as asking a resolver for one
-- name's addresses needs it.
pub mod Skip
pub mod Answers
pub mod Query
mod Tests
use nixos_test.Prelude.{
  ℕ, zero, suc, ◌+◌, ◌*◌, ◌-◌, ◌/◌, ◌%◌, Bool, true, false, not, ◌&&◌, ◌||◌, Option, none, some,
  List, [], ◌∷◌, ◌++◌, Bytes, ltb, leb, ◌==◌, if◌then◌else◌, length, get_elem?, get_or, slice,
  unwrap_or, be_u16, to_be_u16,
}
use nixos_test.Prelude.Outcome.{Result, ok, err, ◌>>=◌, ◌>>◌, require, ok_or}
use Prim.Native.Nat.{bit_and}

abbrev pub type_a : ℕ
type_a = 1

abbrev pub type_aaaa : ℕ
type_aaaa = 28

abbrev pub class_in : ℕ
class_in = 1

abbrev pub max_jumps : ℕ
max_jumps = 64

-- One constructor for each message, with what it names. `out_of_fuel` is none of the source's: the
-- loop of `skip_name` was cut off.
pub data DnsError : Type 0 where
  label_too_long : Bytes → DnsError
  truncated_message : (offset : ℕ) → DnsError
  truncated_name : (offset : ℕ) → DnsError
  label_past_end : (offset : ℕ) → DnsError
  pointer_limit : DnsError
  pointer_past_end : (pointer : ℕ) → DnsError
  reserved_label : (kind offset : ℕ) → DnsError
  short_header : (size : ℕ) → DnsError
  wrong_id : DnsError
  not_a_response : DnsError
  response_truncated : DnsError
  resolver_rcode : ℕ → DnsError
  question_past_end : DnsError
  record_past_end : (offset : ℕ) → DnsError
  bad_a_size : ℕ → DnsError
  bad_aaaa_size : ℕ → DnsError
  no_addresses : DnsError
  out_of_fuel : DnsError

-- `name.split('.')`: the pieces between the dots, empty ones included.
unfoldable pub split : Bytes → Bytes → List Bytes
split piece [] = piece ∷ []
split piece (b ∷ bs) = if b == b'.' then piece ∷ split [] bs else split (piece ++ (b ∷ [])) bs

-- The `for label` loop, over the pieces that are not empty.
unfoldable pub encode_labels : List Bytes → Result DnsError Bytes
encode_labels [] = ok []
encode_labels ([] ∷ labels) = encode_labels labels
encode_labels ((b ∷ bs) ∷ labels) =
    if ltb 63 (length (b ∷ bs))
    then err (label_too_long (b ∷ bs))
    else (encode_labels labels >>= λ rest. ok (length (b ∷ bs) ∷ ((b ∷ bs) ++ rest)))

-- `id` and `qtype` are `u16`.
unfoldable pub encode_query : ℕ → Bytes → ℕ → Result DnsError Bytes
encode_query id name qtype = encode_labels (split [] name) >>= λ labels. ok (
    to_be_u16 id
    ++ (to_be_u16 0x0100
        ++ (to_be_u16 1
            ++ (0
                ∷ 0
                ∷ 0
                ∷ 0
                ∷ 0
                ∷ 0
                ∷ (labels ++ (0 ∷ (to_be_u16 qtype ++ to_be_u16 class_in)))))))

unfoldable pub u16_at : Bytes → ℕ → Result DnsError ℕ
u16_at message offset =
    if leb (offset + 2) (length message)
    then ok (be_u16 (get_or message offset 0) (get_or message (offset + 1) 0))
    else err (truncated_message offset)

-- What one turn of the loop of `skip_name` does: return, or go on with the loop's variables.
pub data Turn : Type 0 where
  return : Result DnsError ℕ → Turn
  go : (offset jumps : ℕ) → (after_pointer : Option ℕ) → Turn

unfoldable pub follow_label : Bytes → ℕ → ℕ → Option ℕ → ℕ → Turn
follow_label message offset jumps after_pointer size =
    if size == 0
    then return (ok (unwrap_or after_pointer (offset + 1)))
    else (let next = offset + (1 + size) in
        if ltb (length message) next
        then return (err (label_past_end next))
        else go next jumps after_pointer)

unfoldable pub follow_pointer : Bytes → ℕ → ℕ → Option ℕ → Result DnsError ℕ → Turn
follow_pointer message offset jumps after_pointer (err e) = return (err e)
follow_pointer message offset jumps after_pointer (ok word) =
    let pointer = bit_and word 0x3FFF in
    if ltb max_jumps (jumps + 1)
    then return (err pointer_limit)
    else if leb (length message) pointer
    then return (err (pointer_past_end pointer))
    else go pointer (jumps + 1) (some (unwrap_or after_pointer (offset + 2)))

unfoldable pub turn_at : Bytes → ℕ → ℕ → Option ℕ → Option ℕ → Turn
turn_at message offset jumps after_pointer none = return (err (truncated_name offset))
turn_at message offset jumps after_pointer (some size) =
    let kind = bit_and size 0xC0 in
    if kind == 0
    then follow_label message offset jumps after_pointer size
    else if kind == 0xC0
    then follow_pointer message offset jumps after_pointer (u16_at message offset)
    else return (err (reserved_label kind offset))

unfoldable pub turn : Bytes → ℕ → ℕ → Option ℕ → Turn
turn message offset jumps after_pointer =
    turn_at message offset jumps after_pointer (get_elem? message offset)

unfoldable pub continue : (ℕ → ℕ → Option ℕ → Result DnsError ℕ) → Turn → Result DnsError ℕ
continue again (return r) = r
continue again (go offset jumps after_pointer) = again offset jumps after_pointer

unfoldable pub skip_loop : ℕ → Bytes → ℕ → ℕ → Option ℕ → Result DnsError ℕ
skip_loop zero message offset jumps after_pointer = err out_of_fuel
skip_loop (suc fuel) message offset jumps after_pointer =
    continue (skip_loop fuel message) (turn message offset jumps after_pointer)

-- A walk reads at most every byte once between two jumps, and makes at most 64 jumps.
abbrev pub walk_fuel : ℕ → ℕ
walk_fuel size = (max_jumps + 1) * (size + 1) + size + 2

unfoldable pub skip_name : Bytes → ℕ → Result DnsError ℕ
skip_name message start = skip_loop (walk_fuel (length message)) message start 0 none

pub data IpAddr : Type 0 where
  v4 : (a b c d : ℕ) → IpAddr
  v6 : (octets : Bytes) → IpAddr

-- The `for _ in 0..questions` loop.
unfoldable pub skip_questions : ℕ → Bytes → ℕ → Result DnsError ℕ
skip_questions zero message offset = ok offset
skip_questions (suc questions) message offset = skip_name message offset >>= λ past.
    let next = past + 4 in
    if ltb (length message) next
    then err question_past_end
    else skip_questions questions message next

-- What one record contributes: the `match rtype` behind the class check.
unfoldable pub address_of : ℕ → ℕ → ℕ → Bytes → Result DnsError (Option IpAddr)
address_of qtype rtype rclass rdata =
    let size = length rdata in
    if not (rclass == class_in)
    then ok none
    else if rtype == type_a && (qtype == type_a && size == 4)
    then ok (some (v4 (get_or rdata 0 0) (get_or rdata 1 0) (get_or rdata 2 0) (get_or rdata 3 0)))
    else if rtype == type_aaaa && (qtype == type_aaaa && size == 16)
    then ok (some (v6 rdata))
    else if rtype == type_a && qtype == type_a
    then err (bad_a_size size)
    else if rtype == type_aaaa && qtype == type_aaaa
    then err (bad_aaaa_size size)
    else ok none

unfoldable pub with_address : Option IpAddr → List IpAddr → List IpAddr
with_address none found = found
with_address (some address) found = found ++ (address ∷ [])

-- The `for _ in 0..answers` loop.
unfoldable pub read_answers : ℕ → Bytes → ℕ → ℕ → List IpAddr → Result DnsError (List IpAddr)
read_answers zero message qtype offset found = ok found
read_answers (suc answers) message qtype offset found = do
  past ← skip_name message offset
  rtype ← u16_at message past
  rclass ← u16_at message (past + 2)
  rdlength ← u16_at message (past + 8)
  rdata ← ok_or (slice message (past + 10) (past + 10 + rdlength)) (record_past_end (past + 10))
  address ← address_of qtype rtype rclass rdata
  read_answers answers message qtype (past + 10 + rdlength) (with_address address found)

unfoldable pub nonempty : List IpAddr → Result DnsError (List IpAddr)
nonempty [] = err no_addresses
nonempty (a ∷ found) = ok (a ∷ found)

unfoldable pub parse_response : Bytes → ℕ → ℕ → Result DnsError (List IpAddr)
parse_response message id qtype = do
  require (leb 12 (length message)) (short_header (length message))
  own_id ← u16_at message 0
  require (own_id == id) wrong_id
  flags ← u16_at message 2
  require (not (bit_and flags 0x8000 == 0)) not_a_response
  require (bit_and flags 0x0200 == 0) response_truncated
  require (bit_and flags 0x000F == 0) (resolver_rcode (bit_and flags 0x000F))
  questions ← u16_at message 4
  answers ← u16_at message 6
  offset ← skip_questions questions message 12
  found ← read_answers answers message qtype offset []
  nonempty found
