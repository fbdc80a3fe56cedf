-- ===== src/Time/TimeServer/Keyed.antt =====
-- packages/time-correction/src/timeserver.rs: what key establishment promises, and that it ends.
use nixos_test.Prelude.{
  ℕ, zero, suc, ◌+◌, ◌≤◌, ◌<◌, ◌≡◌, ◌≢◌, refl, sym, ap, ◌∙◌, Bool, true, false, Option, none, some,
  List, [], ◌∷◌, ◌++◌, Bytes, arith, Bool-cases, inl, inr, ltb, length, length-append, ltb-false→le,
  bytes_eq→eq,
}
use nixos_test.Prelude.Outcome.{
  Result, ok, err, require, ok_or, ok_or-eq_ok, ok_or-ne-err, ok-ne-err, require_last-eq_ok,
}
use nixos_test.Prelude.Stateful.{
  Stateful, map_err, map_err-eq_ok, continue, lift-cases, continue-cases, continue-ne-err,
  map_err-ne-err, require-ne-err,
}
use nixos_test.Time.Deferred
use nixos_test.Time.Dns.{IpAddr}
use nixos_test.Time.Nts
use nixos_test.Time.TimeServer
use nixos_test.Time.TimeServer.{Established, KeyError, out_of_fuel, max_ke_response}
use nixos_test.Time.Network.{Received, bytes, unexpected_eof, failed, Network, State, outside-cases}

module _ (net : Network) where
  received-keeps :
      (address : IpAddr) (got : Received) (response : Bytes)
      (again : Bytes → Stateful (State net) KeyError Bytes) (t : State net)
      → ((r : Bytes) → ((again r t).1).1 ≡ t.1)
      → ((TimeServer.received net address got response again t).1).1 ≡ t.1
  unfolding TimeServer.received
  received-keeps address (bytes []) response again t h = refl
  received-keeps address (bytes (b ∷ chunk)) response again t h =
      elim (Bool-cases (ltb max_ke_response (length (response ++ (b ∷ chunk))))) [
        | inl long ↦ rw long refl
        | inr short ↦ rw short (h (response ++ (b ∷ chunk)))
      ]
  received-keeps address unexpected_eof response again t h = refl
  received-keeps address failed response again t h = refl

  -- Reading records nothing.
  read_from-keeps :
      (fuel : ℕ) (session : net.Session) (address : IpAddr) (response : Bytes) (s : State net)
      → ((TimeServer.read_from net fuel session address response s).1).1 ≡ s.1
  unfolding TimeServer.read_from
  read_from-keeps zero session address response s = refl
  read_from-keeps (suc fuel) session address response s =
      elim (Bool-cases (TimeServer.is_complete (Nts.response_complete response))) [
        | inl done ↦ rw done refl
        | inr more ↦
            let got = net.read session (s.0) in
            rw more (
              received-keeps address (got.0) response _ (got.1, s.1)
                (λ r. read_from-keeps fuel session address r (got.1, s.1)))
      ]

  received-ne-out_of_fuel :
      (address : IpAddr) (got : Received) (response : Bytes)
      (again : Bytes → Stateful (State net) KeyError Bytes) (t : State net)
      → ((r : Bytes)
          → length response < length r
          → length r ≤ max_ke_response
          → ((again r t).0 ≢ err out_of_fuel))
      → (TimeServer.received net address got response again t).0 ≢ err out_of_fuel
  unfolding TimeServer.received
  received-ne-out_of_fuel address (bytes []) response again t h = λ e. cc
  received-ne-out_of_fuel address (bytes (b ∷ chunk)) response again t h =
      elim (Bool-cases (ltb max_ke_response (length (response ++ (b ∷ chunk))))) [
        | inl long ↦ rw long (λ e. cc)
        | inr short ↦
            let more = length-append response (b ∷ chunk) in
            rw short (h (response ++ (b ∷ chunk)) (omega (arith, more)) (ltb-false→le _ _ short))
      ]
  received-ne-out_of_fuel address unexpected_eof response again t h = λ e. cc
  received-ne-out_of_fuel address failed response again t h = λ e. cc

  read_from-ne-out_of_fuel :
      (fuel : ℕ) (session : net.Session) (address : IpAddr) (response : Bytes) (s : State net)
      → length response ≤ max_ke_response
      → max_ke_response + 1 < length response + fuel
      → (TimeServer.read_from net fuel session address response s).0 ≢ err out_of_fuel
  unfolding TimeServer.read_from
  read_from-ne-out_of_fuel zero session address response s h k = absurd (omega (arith, h, k))
  read_from-ne-out_of_fuel (suc fuel) session address response s h k =
      elim (Bool-cases (TimeServer.is_complete (Nts.response_complete response))) [
        | inl done ↦ rw done (λ e. cc)
        | inr more ↦
            let got = net.read session (s.0) in
            rw more (
              received-ne-out_of_fuel address (got.0) response _ (got.1, s.1)
                (λ r longer fits.
                  read_from-ne-out_of_fuel fuel session address r (got.1, s.1) fits
                    (omega (arith, longer, k))))
      ]

  abbrev s2c_of : Established → Bytes
  s2c_of e = (e.keys).s2c

  -- A session with a host that agreed to NTS-KE: the keys are exported from it, its certificates are
  -- the chain, and what was agreed on is what it sent.
  pub record Bound (host : Bytes) (e : Established) : Type 0 where
    pub server : net.pki.ServerName
    pub session : net.Session
    pub world : net.World
    pub chain : List net.pki.Certificate
    pub response : Bytes
    pub named : net.server_name host ≡ some server
    pub negotiated : (w : net.World) × (net.alpn session w ≡ some TimeServer.alpn_protocol)
    pub complete : Nts.response_complete response ≡ some true
    pub agreed : Nts.parse_response net.is_utf8 response Nts.aead_aes_siv_cmac_256 ≡ ok e.agreement
    pub to_server :
        net.export_key session world TimeServer.exporter_label
          (Nts.exporter_context (e.agreement).aead true)
        ≡ some (e.keys).c2s
    pub to_client :
        net.export_key session world TimeServer.exporter_label
          (Nts.exporter_context (e.agreement).aead false)
        ≡ some (e.keys).s2c
    pub presented : net.peer_certificates session world ≡ some chain

  -- Key establishment that failed has recorded nothing. If it succeeded, it has appended one chain,
  -- that of the session which the keys are bound to.
  abbrev pub BindsKeys : Bytes → State net → Result KeyError Established × State net → Type 0
  BindsKeys host s (err e, t) = t.1 ≡ s.1
  BindsKeys host s (ok e, t) =
      (b : Bound host e) × (t.1
        ≡ Deferred.record_chain net.pki (s.1) (TimeServer.ke_leg host) b.chain b.server)

  is_protocol-eq :
      (o : Option Bytes) → TimeServer.is_protocol o ≡ true → o ≡ some TimeServer.alpn_protocol
  unfolding TimeServer.is_protocol
  is_protocol-eq none h = cc
  is_protocol-eq (some negotiated) h = ap some (bytes_eq→eq negotiated _ h)

  is_complete-eq : (o : Option Bool) → TimeServer.is_complete o ≡ true → o ≡ some true
  unfolding TimeServer.is_complete
  is_complete-eq none h = cc
  is_complete-eq (some b) h = ap some h

  -- Whatever the network does, key establishment either fails and records nothing, or the keys are
  -- exported from a session that negotiated NTS-KE, with the labels of the two directions, the
  -- agreement is parsed from a complete response, and exactly one chain is appended: the one that this
  -- session presented, under the name of the host that was asked for.
  pub establish-BindsKeys :
      (host : Bytes) (address : IpAddr) (timeout : ℕ) (s : State net)
      → BindsKeys host s (TimeServer.establish net host address timeout s)
  unfolding TimeServer.establish TimeServer.check_alpn TimeServer.export_key TimeServer.ask_session
      TimeServer.read_response
  establish-BindsKeys host address timeout s =
      let P = BindsKeys host s in
      let p = s.1 in
      lift-cases P (ok_or (net.server_name host) _) s _ (λ e _. refl)
        λ server named.
          outside-cases net P (net.connect server address TimeServer.nts_ke_port timeout) _ s _
            (λ w. refl)
            λ session w _.
              outside-cases net P (net.send session (Nts.request Nts.aead_aes_siv_cmac_256)) _
                (w, p) _ (λ v. refl)
                λ _ v _.
                  lift-cases P (require (TimeServer.is_protocol (net.alpn session v)) _) (v, p) _
                    (λ e _. refl)
                    λ _ spoken.
                      continue-cases P
                        (TimeServer.read_from net (max_ke_response + 2) session address [] (v, p)) _
                        (λ e t read.
                          sym (ap (λ (r : Result KeyError Bytes × State net). (r.1).1) read)
                          ∙ read_from-keeps (max_ke_response + 2) session address [] (v, p))
                        λ response t read.
                          let kept : t.1 ≡ p =
                            sym (ap (λ (r : Result KeyError Bytes × State net). (r.1).1) read)
                            ∙ read_from-keeps (max_ke_response + 2) session address [] (v, p) in
                          lift-cases P
                            (require (TimeServer.is_complete (Nts.response_complete response)) _) t
                            _ (λ e _. kept)
                            λ _ whole.
                              lift-cases P
                                (map_err TimeServer.nts (
                                  Nts.parse_response net.is_utf8 response
                                    Nts.aead_aes_siv_cmac_256))
                                t _ (λ e _. kept)
                                λ agreement agreed.
                                  lift-cases P (key t session agreement true) t _ (λ e _. kept)
                                    λ c2s to_server.
                                      lift-cases P (key t session agreement false) t _ (λ e _. kept)
                                        λ s2c to_client.
                                          lift-cases P
                                            (ok_or (net.peer_certificates session (t.0))
                                              (TimeServer.no_certificates address))
                                            t _ (λ e _. kept)
                                            λ chain presented. (
                                              record {
                                                server = server;
                                                session = session;
                                                world = t.0;
                                                chain = chain;
                                                response = response;
                                                named = ok_or-eq_ok _ _ named;
                                                negotiated = (
                                                  v,
                                                  is_protocol-eq _ (require_last-eq_ok _ _ spoken),
                                                );
                                                complete =
                                                    is_complete-eq _ (require_last-eq_ok _ _ whole);
                                                agreed = map_err-eq_ok TimeServer.nts _ agreed;
                                                to_server = ok_or-eq_ok _ _ to_server;
                                                to_client = ok_or-eq_ok _ _ to_client;
                                                presented = ok_or-eq_ok _ _ presented;
                                              },
                                              ap
                                                  (λ (q : List (Deferred.Pending net.pki)).
                                                    Deferred.record_chain net.pki q
                                                      (TimeServer.ke_leg host) chain server)
                                                  kept,
                                            )
    where
      key : State net → net.Session → Nts.Agreement → Bool → Result KeyError Bytes
      key t session agreement to_server =
          ok_or
            (net.export_key session (t.0) TimeServer.exporter_label
              (Nts.exporter_context agreement.aead to_server))
            (TimeServer.cannot_export host)

  is_cut : KeyError → Bool
  is_cut out_of_fuel = true
  is_cut _ = false

  apart : (d : KeyError) → is_cut d ≡ false → d ≢ out_of_fuel
  unfolding is_cut
  apart d h e = let no : true ≡ false = rw e at h in cc no

  given :
      {A : Type 0} (o : Option A) (d : KeyError) → is_cut d ≡ false → ok_or o d ≢ err out_of_fuel
  given o d h = ok_or-ne-err o d (apart d h)

  tested : (b : Bool) (d : KeyError) → is_cut d ≡ false → require b d ≢ err out_of_fuel
  tested b d h = require-ne-err b d (apart d h)

  parsed : (r : Result Nts.NtsError Nts.Agreement) → map_err TimeServer.nts r ≢ err out_of_fuel
  unfolding is_cut
  parsed r = map_err-ne-err TimeServer.nts r (λ d. apart (TimeServer.nts d) refl)

  abbrev Ended : Result KeyError Established × State net → Type 0
  Ended r = r.0 ≢ err out_of_fuel

  lift-Ended :
      {A : Type 0} (r : Result KeyError A) (s : State net)
      (f : A → Stateful (State net) KeyError Established)
      → r ≢ err out_of_fuel
      → ((a : A) → Ended (f a s))
      → Ended (continue (r, s) f)
  lift-Ended (ok a) s f h k = k a
  lift-Ended (err d) s f h k = λ e. h (cc e)

  -- Key establishment ends: whatever the peer sends and in whatever pieces, the loop that reads the
  -- response stops before its bound.
  pub establish-ne-out_of_fuel :
      (host : Bytes) (address : IpAddr) (timeout : ℕ) (s : State net)
      → (TimeServer.establish net host address timeout s).0 ≢ err out_of_fuel
  unfolding TimeServer.establish TimeServer.check_alpn TimeServer.export_key TimeServer.ask_session
      TimeServer.read_response is_cut
  establish-ne-out_of_fuel host address timeout s =
      let p = s.1 in
      lift-Ended (ok_or (net.server_name host) _) s _
        (given _ (TimeServer.bad_server_name host) refl)
        λ server.
          outside-cases net Ended (net.connect server address TimeServer.nts_ke_port timeout) _ s _
            (λ w. apart_err (TimeServer.cannot_connect address) refl)
            λ session w _.
              outside-cases net Ended (net.send session (Nts.request Nts.aead_aes_siv_cmac_256)) _
                (w, p) _ (λ v. apart_err (TimeServer.cannot_send address) refl)
                λ _ v _.
                  lift-Ended (require (TimeServer.is_protocol (net.alpn session v)) _) (v, p) _
                    (tested _ (TimeServer.other_alpn (net.alpn session v)) refl)
                    λ _.
                      continue-ne-err
                        (TimeServer.read_from net (max_ke_response + 2) session address [] (v, p)) _
                        (read_from-ne-out_of_fuel (max_ke_response + 2) session address [] (v, p)
                          (omega arith) (omega arith))
                        λ response t.
                          lift-Ended
                            (require (TimeServer.is_complete (Nts.response_complete response)) _) t
                            _ (tested _ (TimeServer.closed_early address) refl)
                            λ _.
                              lift-Ended
                                (map_err TimeServer.nts (
                                  Nts.parse_response net.is_utf8 response
                                    Nts.aead_aes_siv_cmac_256))
                                t _ (parsed _)
                                λ agreement.
                                  lift-Ended (key agreement t session true) t _
                                    (exported agreement t session true)
                                    λ _.
                                      lift-Ended (key agreement t session false) t _
                                        (exported agreement t session false)
                                        λ _.
                                          lift-Ended (ok_or (net.peer_certificates session (t.0)) _)
                                            t _ (given _ (TimeServer.no_certificates address) refl)
                                            (λ _. ok-ne-err _ _)
    where
      apart_err :
          (d : KeyError)
          → is_cut d ≡ false
          → ◌≢◌ {A = Result KeyError Established} (err d) (err out_of_fuel)
      apart_err d h e = apart d h (cc e)

      key : Nts.Agreement → State net → net.Session → Bool → Result KeyError Bytes
      key agreement t session to_server =
          ok_or
            (net.export_key session (t.0) TimeServer.exporter_label
              (Nts.exporter_context agreement.aead to_server))
            (TimeServer.cannot_export host)

      exported :
          (agreement : Nts.Agreement) (t : State net) (session : net.Session) (to_server : Bool)
          → key agreement t session to_server ≢ err out_of_fuel
      exported agreement t session to_server = given _ (TimeServer.cannot_export host) refl
