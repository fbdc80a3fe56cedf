-- ===== src/Time/Doh.antt =====
-- packages/time-correction/src/doh.rs: one DoH query to a resolver that is dialled by address.
pub mod Recorded
use nixos_test.Prelude.{ℕ, Bool, ◌&&◌, Option, List, ◌++◌, Bytes, ltb, leb}
use nixos_test.Prelude.Outcome.{Result, require, ok_or}
use nixos_test.Prelude.Stateful.{Stateful, ◌>>=◌, ◌>>◌, lift, pure, map_err}
use nixos_test.Prelude.Text.{codes}
use nixos_test.Time.Dns
use nixos_test.Time.Network.{Network, State, outside, recorded}

pub data DohError : Type 0 where
  bad_server_name : (host : Bytes) → DohError
  no_client : DohError
  dns : Dns.DnsError → DohError
  request_failed : (address : Dns.IpAddr) → DohError
  bad_status : (status : ℕ) → DohError
  unreadable : DohError
  no_handshake : (address : Dns.IpAddr) → DohError

-- `status.is_success()`
abbrev pub is_success : ℕ → Bool
is_success status = leb 200 status && ltb status 300

unfoldable pub doh_leg : Bytes → Bytes
doh_leg host = codes "DoH " ++ host

module _ (net : Network) where
  open net use {server_name, builds_client, post}

  unfoldable pub resolve :
      Bytes → Dns.IpAddr → Bytes → ℕ → ℕ → ℕ → Stateful (State net) DohError (List Dns.IpAddr)
  resolve host address name qtype query_id timeout = do
    server ← lift (ok_or (server_name host) (bad_server_name host))
    lift (require builds_client no_client)
    query ← lift (map_err dns (Dns.encode_query query_id name qtype))
    reply ← outside net (post host address query timeout) (request_failed address)
    lift (require (is_success reply.status) (bad_status reply.status))
    body ← lift (ok_or reply.body unreadable)
    addresses ← lift (map_err dns (Dns.parse_response body query_id qtype))
    chain ← lift (ok_or reply.chain (no_handshake address))
    recorded net (doh_leg host) chain server
    pure addresses
