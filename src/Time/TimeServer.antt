-- ===== src/Time/TimeServer.antt =====
-- packages/time-correction/src/timeserver.rs: key establishment in a TLS session, and the exchange
-- that the keys authenticate.
pub mod Keyed
pub mod Asked
use nixos_test.Prelude.{
  ℕ, zero, suc, ◌+◌, ◌*◌, Bool, true, false, not, Option, none, some, List, [], ◌∷◌, ◌++◌, Bytes,
  bytes_eq, ltb, if◌then◌else◌, length, take, unwrap_or,
}
use nixos_test.Prelude.Int.{ℤ}
use nixos_test.Prelude.Outcome.{Result, ok, err, require, ok_or}
use nixos_test.Prelude.Stateful.{Stateful, ◌>>=◌, ◌>>◌, lift, pure, map_err}
use nixos_test.Prelude.Text.{codes, is_nil}
use nixos_test.Time.Dns.{IpAddr}
use nixos_test.Time.Ntp
use nixos_test.Time.Nts
use nixos_test.Time.Network.{
  Received, bytes, unexpected_eof, failed, Network, State, outside, recorded,
}

abbrev pub nts_ke_port : ℕ
nts_ke_port = 4460

abbrev pub default_ntp_port : ℕ
default_ntp_port = 123

abbrev pub max_ke_response : ℕ
max_ke_response = 64 * 1024

abbrev pub alpn_protocol : Bytes
alpn_protocol = codes "ntske/1"

abbrev pub exporter_label : Bytes
exporter_label = codes "EXPORTER-network-time-security"

pub record Keys : Type 0 where
  pub c2s : Bytes
  pub s2c : Bytes

pub record Established : Type 0 where
  pub agreement : Nts.Agreement
  pub keys : Keys

-- `out_of_fuel` is none of the source's: the loop that reads the response was cut off.
pub data KeyError : Type 0 where
  bad_server_name : (host : Bytes) → KeyError
  cannot_connect : (address : IpAddr) → KeyError
  cannot_send : (address : IpAddr) → KeyError
  other_alpn : (negotiated : Option Bytes) → KeyError
  too_long : KeyError
  cannot_read : (address : IpAddr) → KeyError
  closed_early : (address : IpAddr) → KeyError
  nts : Nts.NtsError → KeyError
  cannot_export : (host : Bytes) → KeyError
  no_certificates : (address : IpAddr) → KeyError
  out_of_fuel : KeyError

pub data TimeError : Type 0 where
  no_cookie : TimeError
  ntp : Ntp.NtpError → TimeError
  no_response : (address : IpAddr) (port : ℕ) → TimeError

unfoldable pub is_complete : Option Bool → Bool
is_complete none = false
is_complete (some complete) = complete

unfoldable pub is_protocol : Option Bytes → Bool
is_protocol none = false
is_protocol (some negotiated) = bytes_eq negotiated alpn_protocol

unfoldable pub first_cookie : List Bytes → Option Bytes
first_cookie [] = none
first_cookie (cookie ∷ cookies) = some cookie

-- The name to resolve, if any, the address to ask, and the port.
unfoldable pub target_at : Bytes → Option IpAddr → IpAddr → Option Bytes × IpAddr
target_at server none fallback = (some server, fallback)
target_at server (some address) fallback = (none, address)

unfoldable pub ntp_target :
    (Bytes → Option IpAddr) → Established → IpAddr → Option Bytes × IpAddr × ℕ
ntp_target parse_address established fallback =
    let port = unwrap_or established.agreement.port default_ntp_port in
    elim established.agreement.server [
      | none ↦ (none, fallback, port)
      | some server ↦
          let target = target_at server (parse_address server) fallback in
          (target.0, target.1, port)
    ]

unfoldable pub ke_leg : Bytes → Bytes
ke_leg host = codes "NTS-KE " ++ host

module _ (net : Network) where
  open net use {siv, is_utf8, server_name, World, Session}

  -- One turn of the `while`, for what `read` gave; `again` is the next turn.
  unfoldable pub received :
      IpAddr
      → Received
      → Bytes
      → (Bytes → Stateful (State net) KeyError Bytes)
      → Stateful (State net) KeyError Bytes
  received address (bytes []) response again = pure response
  received address (bytes (b ∷ chunk)) response again =
      let response' = response ++ (b ∷ chunk) in
      if ltb max_ke_response (length response') then lift (err too_long) else again response'
  received address unexpected_eof response again = pure response
  received address failed response again = lift (err (cannot_read address))

  -- The `while` that reads the response.
  unfoldable pub read_from : ℕ → Session → IpAddr → Bytes → Stateful (State net) KeyError Bytes
  read_from zero session address response s = (err out_of_fuel, s)
  read_from (suc fuel) session address response s =
      if is_complete (Nts.response_complete response)
      then (ok response, s)
      else (let got = net.read session (s.0) in
          received address (got.0) response (λ response'. read_from fuel session address response')
            (got.1, s.1))

  -- Every turn but the last adds a byte at least, and the response is cut at its maximum, so two
  -- turns more than that are enough.
  unfoldable pub read_response : Session → IpAddr → Stateful (State net) KeyError Bytes
  read_response session address = read_from (max_ke_response + 2) session address []

  -- What the session tells of itself.
  unfoldable pub ask_session {κ} :
      {A : Type κ} → (World → Option A) → KeyError → Stateful (State net) KeyError A
  ask_session about e s = (ok_or (about (s.0)) e, s)

  unfoldable pub check_alpn : Session → Stateful (State net) KeyError (Unit {0})
  check_alpn session s =
      let negotiated = net.alpn session (s.0) in
      (require (is_protocol negotiated) (other_alpn negotiated), s)

  -- One turn of the loop over the two keys.
  unfoldable pub export_key : Session → Bytes → ℕ → Bool → Stateful (State net) KeyError Bytes
  export_key session host aead client_to_server =
      ask_session
        (λ w. net.export_key session w exporter_label (Nts.exporter_context aead client_to_server))
        (cannot_export host)

  unfoldable pub establish : Bytes → IpAddr → ℕ → Stateful (State net) KeyError Established
  establish host address timeout = do
    server ← lift (ok_or (server_name host) (bad_server_name host))
    session ← outside net (net.connect server address nts_ke_port timeout) (cannot_connect address)
    outside net (net.send session (Nts.request Nts.aead_aes_siv_cmac_256)) (cannot_send address)
    check_alpn session
    response ← read_response session address
    lift (require (is_complete (Nts.response_complete response)) (closed_early address))
    agreement ← lift (map_err nts (Nts.parse_response is_utf8 response Nts.aead_aes_siv_cmac_256))
    c2s ← export_key session host agreement.aead true
    s2c ← export_key session host agreement.aead false
    chain ← ask_session (λ w. net.peer_certificates session w) (no_certificates address)
    recorded net (ke_leg host) chain server
    pure (record { agreement = agreement; keys = record { c2s = c2s; s2c = s2c } })

  -- The buffer for the answer has 1024 bytes; a longer datagram is cut.
  unfoldable pub ask_time :
      Established → IpAddr → ℕ → Bytes → Bytes → ℕ → Stateful (State net) TimeError ℤ
  ask_time established address port unique_id nonce timeout = do
    cookie ← lift (ok_or (first_cookie established.agreement.cookies) no_cookie)
    request ← lift (map_err ntp (Ntp.build_request siv cookie established.keys.c2s unique_id nonce))
    datagram ←
        outside net (net.exchange address port request.packet timeout) (no_response address port)
    lift (
        map_err ntp
          (Ntp.parse_response siv (take 1024 datagram) established.keys.s2c request.unique_id))
