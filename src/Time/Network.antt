-- ===== src/Time/Network.antt =====
-- What packages/time-correction uses of the world outside of it: TLS sessions, HTTP, datagrams,
-- random numbers, certificates and the cipher. The world is a state that every use changes.
use nixos_test.Prelude.{ℕ, ◌≡◌, refl, Bool, Option, none, some, List, Bytes, All, IsByte}
use nixos_test.Prelude.Outcome.{Result, ok, err, ok_or}
use nixos_test.Prelude.Stateful.{Stateful, continue}
use nixos_test.Time.Deferred
use nixos_test.Time.Dns.{IpAddr}
use nixos_test.Time.Ntp.{Siv}

-- What one `read` gives: bytes, none of them at the end of the stream; `UnexpectedEof`; or another
-- error.
pub data Received : Type 0 where
  bytes : (chunk : Bytes) → Received
  unexpected_eof : Received
  failed : Received

-- An HTTP response, with the chain that the handshake verifier has captured.
pub record Reply (Certificate : Type 0) : Type 0 where
  pub status : ℕ
  pub body : Option Bytes
  pub chain : Option (List Certificate)

-- `random` reads from /dev/urandom; `post` sends the body to the resolver's /dns-query over HTTPS at
-- the pinned address; `connect` builds the TLS session and opens the socket; `read` reads up to 4096
-- bytes; `exchange` sends one datagram and awaits one. What a socket receives are bytes.
pub record Network : Type 1 where
  pub pki : Deferred.Pki
  pub siv : Siv
  pub is_utf8 : Bytes → Bool
  pub parse_address : Bytes → Option IpAddr
  pub server_name : Bytes → Option pki.ServerName
  pub World : Type 0
  pub random : ℕ → World → Option Bytes × World
  pub builds_client : Bool
  pub post : Bytes → IpAddr → Bytes → ℕ → World → Option (Reply pki.Certificate) × World
  pub Session : Type 0
  pub connect : pki.ServerName → IpAddr → ℕ → ℕ → World → Option Session × World
  pub send : Session → Bytes → World → Option (Unit {0}) × World
  pub alpn : Session → World → Option Bytes
  pub read : Session → World → Received × World
  pub export_key : Session → World → Bytes → Bytes → Option Bytes
  pub peer_certificates : Session → World → Option (List pki.Certificate)
  pub exchange : IpAddr → ℕ → Bytes → ℕ → World → Option Bytes × World
  pub exchange_bytes :
      (address : IpAddr) (port : ℕ) (packet : Bytes) (timeout : ℕ) (w : World) {datagram : Bytes}
      → (exchange address port packet timeout w).0 ≡ some datagram
      → All IsByte datagram

-- The world, and the chains recorded so far: the `deferred` that the legs share.
abbrev pub State : Network → Type 0
State net = net.World × List (Deferred.Pending net.pki)

-- A use of the world that may fail.
abbrev pub outside {κ} :
    {E : Type 0} {A : Type κ} (net : Network)
    → (net.World → Option A × net.World)
    → E
    → Stateful (State net) E A
outside net use_of e (w, pending) = let used = use_of w in (ok_or (used.0) e, (used.1, pending))

-- `deferred.record(leg, chain, server_name)`
abbrev pub recorded :
    {E : Type 0} (net : Network)
    → Bytes
    → List net.pki.Certificate
    → net.pki.ServerName
    → Stateful (State net) E (Unit {0})
recorded net leg chain server (w, pending) =
    (ok tt, (w, Deferred.record_chain net.pki pending leg chain server))

-- A chain whose first step uses the world: what holds of its failure and of what follows its success
-- holds of it. The chains recorded are those from before.
pub outside-cases {κ μ ν} :
    {E : Type 0} {A : Type κ} {B : Type μ} (net : Network) (P : Result E B × State net → Type ν)
    (use_of : net.World → Option A × net.World) (e : E) (s : State net)
    (f : A → Stateful (State net) E B)
    → ((w : net.World) → P (err e, (w, s.1)))
    → ((a : A) (w : net.World) → use_of (s.0) ≡ (some a, w) → P (f a (w, s.1)))
    → P (continue (outside net use_of e s) f)
outside-cases {A = A} net P use_of e (w, pending) f h k = used (use_of w) (λ a v same. k a v same)
  where
    used :
        (u : Option A × net.World)
        → ((a : A) (v : net.World) → u ≡ (some a, v) → P (f a (v, pending)))
        → P (continue (ok_or (u.0) e, (u.1, pending)) f)
    used (none, v) k = h v
    used (some a, v) k = k a v refl

-- Inversion of a chain whose first step used the world and that succeeded.
pub outside-eq-ok {κ μ} :
    {E : Type 0} {A : Type κ} {B : Type μ} (net : Network)
    (use_of : net.World → Option A × net.World) (e : E) (s : State net)
    (f : A → Stateful (State net) E B) {b : B} {t : State net}
    → continue (outside net use_of e s) f ≡ (ok b, t)
    → (a : A) × (w : net.World) × (use_of (s.0) ≡ (some a, w)) × (f a (w, s.1) ≡ (ok b, t))
outside-eq-ok {A = A} {B = B} net use_of e (w, pending) f {b = b} {t = t} h = used (use_of w) h
  where
    used :
        (u : Option A × net.World)
        → continue (ok_or (u.0) e, (u.1, pending)) f ≡ (ok b, t)
        → (a : A) × (v : net.World) × (u ≡ (some a, v)) × (f a (v, pending) ≡ (ok b, t))
    used (none, v) k = cc k
    used (some a, v) k = (a, v, refl, k)
