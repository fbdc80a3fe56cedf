-- ===== src/Time/Ntp.antt =====
-- packages/time-correction/src/ntp.rs: one NTPv4 exchange with the NTS extension fields. The AEAD is
-- the `aes_siv` crate's, so it is a parameter.
pub mod Fields
pub mod Covered
pub mod Timed
mod Tests
use nixos_test.Prelude.{
  ℕ, zero, suc, ◌+◌, ◌*◌, ◌-◌, ◌/◌, ◌%◌, ◌≡◌, Bool, true, false, not, ◌&&◌, ◌||◌, Option, none,
  some, List, [], ◌∷◌, ◌++◌, Bytes, ltb, leb, ◌==◌, if◌then◌else◌, length, take, get_or, replicate,
  slice, be_u16, be_u32, to_be_u16, round_up_4, bytes_eq,
}
use nixos_test.Prelude.Int.{ℤ, pos, sub_ℕ}
use nixos_test.Prelude.Outcome.{Result, ok, err, ◌>>=◌, ◌>>◌, require, ok_or}
use Prim.Native.Nat.{bit_and}

-- What the source uses of `Aes128Siv`: whether a key is accepted, and encryption and decryption
-- under a key and a vector of associated data. The law is that of an authenticated cipher: what was
-- encrypted is decrypted under the same key and data.
pub record Siv : Type 0 where
  pub accepts_key : Bytes → Bool
  pub encrypt : Bytes → List Bytes → Bytes → Option Bytes
  pub decrypt : Bytes → List Bytes → Bytes → Option Bytes
  pub decrypt-encrypt :
      (key : Bytes) (headers : List Bytes) (plain sealed : Bytes)
      → encrypt key headers plain ≡ some sealed
      → decrypt key headers sealed ≡ some plain

abbrev pub ntp_to_unix : ℕ
ntp_to_unix = 2_208_988_800

abbrev pub ef_unique_identifier : ℕ
ef_unique_identifier = 0x0104

abbrev pub ef_cookie : ℕ
ef_cookie = 0x0204

abbrev pub ef_authenticator : ℕ
ef_authenticator = 0x0404

abbrev pub header_length : ℕ
header_length = 48

abbrev pub nonce_length : ℕ
nonce_length = 16

-- `out_of_fuel` is none of the source's: the loop over the fields was cut off.
pub data NtpError : Type 0 where
  invalid_length : (offset size : ℕ) → NtpError
  field_past_end : (offset : ℕ) → NtpError
  bad_c2s_key : (size : ℕ) → NtpError
  cannot_authenticate : NtpError
  short_response : (size : ℕ) → NtpError
  wrong_mode : (mode : ℕ) → NtpError
  unsynchronised : NtpError
  kiss_of_death : NtpError
  not_authenticated : NtpError
  no_unique_identifier : NtpError
  identifier_not_covered : NtpError
  identifier_mismatch : NtpError
  short_authenticator : NtpError
  nonce_past_end : NtpError
  ciphertext_past_end : NtpError
  bad_s2c_key : (size : ℕ) → NtpError
  authentication_failed : NtpError
  no_transmit_timestamp : NtpError
  zero_timestamp : NtpError
  out_of_fuel : NtpError

unfoldable pub extension_field : ℕ → Bytes → Bytes
extension_field kind body =
    let padded = round_up_4 (length body) in
    to_be_u16 kind ++ (to_be_u16 (4 + padded) ++ (body ++ replicate (padded - length body) 0))

-- An extension field: its type, and where its body begins and ends in the packet.
pub record Field : Type 0 where
  pub kind : ℕ
  pub start : ℕ
  pub stop : ℕ

-- The `while` of `extension_fields`, from `offset` on.
unfoldable pub fields_from : ℕ → Bytes → ℕ → Result NtpError (List Field)
fields_from zero packet offset = err out_of_fuel
fields_from (suc fuel) packet offset =
    let size = be_u16 (get_or packet (offset + 2) 0) (get_or packet (offset + 3) 0) in
    let rest = fields_from fuel packet (offset + size) in
    if not (leb (offset + 4) (length packet))
    then ok []
    else if ltb size 4 || not (size % 4 == 0)
    then err (invalid_length offset size)
    else if ltb (length packet) (offset + size)
    then err (field_past_end offset)
    else (rest >>= λ fields. ok (
        (record {
          kind = be_u16 (get_or packet offset 0) (get_or packet (offset + 1) 0);
          start = offset + 4;
          stop = offset + size;
        })
        ∷ fields))

-- Every field takes four bytes at least, so the length of the packet is more than enough rounds.
unfoldable pub extension_fields : Bytes → Result NtpError (List Field)
extension_fields packet = fields_from (length packet + 1) packet header_length

unfoldable pub find_kind : ℕ → List Field → Option Field
find_kind kind [] = none
find_kind kind (f ∷ fields) = if f.kind == kind then some f else find_kind kind fields

-- The transmit timestamp of the fixed header, with the era that its top bit tells.
unfoldable pub read_timestamp : ℕ → Result NtpError ℤ
read_timestamp era0 =
    if era0 == 0
    then err zero_timestamp
    else if leb 2_147_483_648 era0
    then ok (sub_ℕ era0 ntp_to_unix)
    else ok (sub_ℕ (era0 + 4_294_967_296) ntp_to_unix)

unfoldable pub transmit_timestamp : Bytes → Result NtpError ℤ
transmit_timestamp packet =
    if leb 44 (length packet)
    then read_timestamp
        (be_u32 (get_or packet 40 0) (get_or packet 41 0) (get_or packet 42 0) (get_or packet 43 0))
    else err no_transmit_timestamp

-- The checks of the fixed header in `parse_response`.
unfoldable pub check_header : Bytes → Result NtpError (Unit {0})
check_header packet = do
  require (leb header_length (length packet)) (short_response (length packet))
  require (bit_and (get_or packet 0 0) 0x07 == 4) (wrong_mode (bit_and (get_or packet 0 0) 0x07))
  require (not (get_or packet 0 0 / 64 == 3)) unsynchronised
  require (not (get_or packet 1 0 == 0)) kiss_of_death

-- The identifier's checks; `auth_start` is where the authenticator's body begins.
unfoldable pub check_identifier : Bytes → Field → ℕ → Bytes → Result NtpError (Unit {0})
check_identifier packet unique auth_start expected = do
  require (leb unique.stop auth_start) identifier_not_covered
  own ← ok_or (slice packet unique.start unique.stop) identifier_mismatch
  require (bytes_eq own expected) identifier_mismatch

pub record Request : Type 0 where
  pub packet : Bytes
  pub unique_id : Bytes

-- The packet up to the authenticator: LI 0, version 4, mode 3, and the two fields.
unfoldable pub request_prefix : Bytes → Bytes → Bytes
request_prefix cookie unique_id =
    (0x23 ∷ replicate (header_length - 1) 0)
    ++ (extension_field ef_unique_identifier unique_id ++ extension_field ef_cookie cookie)

unfoldable pub authenticator_body : Bytes → Bytes → Bytes
authenticator_body nonce ciphertext =
    to_be_u16 nonce_length ++ (to_be_u16 (length ciphertext) ++ (nonce ++ ciphertext))

module _ (siv : Siv) where
  open siv use {accepts_key, encrypt, decrypt}

  -- The authenticator's body: two lengths, the padded nonce and the ciphertext. `associated` is what
  -- stands before the authenticator's own header.
  unfoldable pub check_authenticator : Bytes → Bytes → Bytes → Result NtpError (Unit {0})
  check_authenticator associated body s2c = do
    require (leb 4 (length body)) short_authenticator
    let nonce_size = be_u16 (get_or body 0 0) (get_or body 1 0)
    let cipher_size = be_u16 (get_or body 2 0) (get_or body 3 0)
    let nonce_padded = round_up_4 nonce_size
    nonce ← ok_or (slice body 4 (4 + nonce_size)) nonce_past_end
    ciphertext ←
        ok_or (slice body (4 + nonce_padded) (4 + nonce_padded + cipher_size)) ciphertext_past_end
    require (accepts_key s2c) (bad_s2c_key (length s2c))
    plain ← ok_or (decrypt s2c (associated ∷ nonce ∷ []) ciphertext) authentication_failed
    ok tt

  unfoldable pub parse_response : Bytes → Bytes → Bytes → Result NtpError ℤ
  parse_response packet s2c expected = do
    check_header packet
    fields ← extension_fields packet
    auth ← ok_or (find_kind ef_authenticator fields) not_authenticated
    unique ← ok_or (find_kind ef_unique_identifier fields) no_unique_identifier
    check_identifier packet unique auth.start expected
    body ← ok_or (slice packet auth.start auth.stop) short_authenticator
    check_authenticator (take (auth.start - 4) packet) body s2c
    transmit_timestamp packet

  unfoldable pub build_request : Bytes → Bytes → Bytes → Bytes → Result NtpError Request
  build_request cookie c2s unique_id nonce = do
    let prefix = request_prefix cookie unique_id
    require (accepts_key c2s) (bad_c2s_key (length c2s))
    ciphertext ← ok_or (encrypt c2s (prefix ∷ nonce ∷ []) []) cannot_authenticate
    ok (record {
      packet = prefix ++ extension_field ef_authenticator (authenticator_body nonce ciphertext);
      unique_id = unique_id;
    })
