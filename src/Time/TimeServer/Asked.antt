-- ===== src/Time/TimeServer/Asked.antt =====
-- packages/time-correction/src/timeserver.rs: a time that `ask_time` returns was vouched for by a
-- packet that the exported key authenticates.
use nixos_test.Prelude.{ℕ, ◌≡◌, sym, ap, Option, Bytes, IsByte, All, take}
use mathlib.Core.Path.{subst}
use nixos_test.Prelude.Int.{ℤ}
use nixos_test.Prelude.Outcome.{Result, ok, ok_or}
use nixos_test.Prelude.Stateful.{map_err, map_err-eq_ok, lift-eq-ok}
use nixos_test.Time.Deferred.Accepted.{IsI64}
use nixos_test.Time.Dns.{IpAddr}
use nixos_test.Time.Ntp
use nixos_test.Time.Ntp.Timed.{take-All, build_request-unique_id, transmit_timestamp-IsI64}
use nixos_test.Time.Ntp.Covered.{Vouched, parse_response-Vouched}
use nixos_test.Time.TimeServer
use nixos_test.Time.TimeServer.{Established, TimeError}
use nixos_test.Time.Network.{Network, State, outside-eq-ok}

module _ (net : Network) where
  -- What a time rests on: a packet of bytes that the cipher opens under the server's key.
  pub record Told (s2c unique_id : Bytes) (t : ℤ) : Type 0 where
    pub packet : Bytes
    pub are_bytes : All IsByte packet
    pub vouched : Vouched net.siv packet s2c unique_id t

  pub Told-IsI64 : {s2c unique_id : Bytes} {t : ℤ} → Told s2c unique_id t → IsI64 t
  Told-IsI64 told =
      let v = told.vouched in
      transmit_timestamp-IsI64 _ (take-All IsByte v.size told.packet told.are_bytes) v.timed

  -- A time that the exchange returns stands in a packet that answers the request's identifier and that
  -- is authentic under the key of the session; the exchange records no chain.
  pub ask_time-Told :
      (e : Established) (address : IpAddr) (port : ℕ) (unique_id nonce : Bytes) (timeout : ℕ)
      (s : State net) {t : ℤ} {s' : State net}
      → TimeServer.ask_time net e address port unique_id nonce timeout s ≡ (ok t, s')
      → (s'.1 ≡ s.1) × Told (e.keys).s2c unique_id t
  unfolding TimeServer.ask_time
  ask_time-Told e address port unique_id nonce timeout s {t = t} {s' = s'} h =
      let (cookie, _, h1) =
        lift-eq-ok (ok_or (TimeServer.first_cookie (e.agreement).cookies) _) s _ h in
      let (request, built, h2) =
        lift-eq-ok
          (map_err TimeServer.ntp (Ntp.build_request net.siv cookie (e.keys).c2s unique_id nonce)) s
          _ h1 in
      let (datagram, w, sent, h3) =
        outside-eq-ok net (net.exchange address port request.packet timeout)
          (TimeServer.no_response address port) s _ h2 in
      let parsed : Ntp.parse_response net.siv (take 1024 datagram) (e.keys).s2c request.unique_id
          ≡ ok t =
        map_err-eq_ok TimeServer.ntp _ (ap (λ (p : Result TimeError ℤ × State net). p.0) h3) in
      let own : request.unique_id ≡ unique_id =
        build_request-unique_id net.siv cookie (e.keys).c2s unique_id nonce
          (map_err-eq_ok TimeServer.ntp _ built) in
      (
        sym (ap (λ (p : Result TimeError ℤ × State net). (p.1).1) h3),
        subst (λ u. Told (e.keys).s2c u t) own
            (record {
              packet = take 1024 datagram;
              are_bytes = take-All IsByte 1024 datagram (
                  net.exchange_bytes address port request.packet timeout (s.0)
                    (ap (λ (p : Option Bytes × net.World). p.0) sent));
              vouched = parse_response-Vouched net.siv (take 1024 datagram) _ _ t parsed;
            }),
      )
