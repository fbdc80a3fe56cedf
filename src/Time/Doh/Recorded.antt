-- ===== src/Time/Doh/Recorded.antt =====
-- packages/time-correction/src/doh.rs: what a query leaves in the list of recorded chains.
use nixos_test.Prelude.{ℕ, ◌≡◌, refl, some, List, Bytes}
use nixos_test.Prelude.Outcome.{Result, ok, err, require, ok_or, ok_or-eq_ok}
use nixos_test.Prelude.Stateful.{map_err, lift-cases}
use nixos_test.Time.Deferred
use nixos_test.Time.Dns
use nixos_test.Time.Doh
use nixos_test.Time.Network.{Network, State, outside-cases}

module _ (net : Network) where
  open net use {server_name, builds_client, post}

  -- A leg to a host has recorded nothing if it failed. If it succeeded, it has appended one chain, for
  -- the host's name.
  abbrev pub Recorded {κ} :
      {E : Type 0} {A : Type κ} → Bytes → Bytes → State net → Result E A × State net → Type 0
  Recorded leg host s (err e, t) = t.1 ≡ s.1
  Recorded leg host s (ok a, t) =
      (server : net.pki.ServerName) × (chain : List net.pki.Certificate) × (server_name host
        ≡ some server)
      × (t.1 ≡ Deferred.record_chain net.pki (s.1) leg chain server)

  -- A query that fails leaves the recorded chains as they were, whichever of its steps failed; one that
  -- succeeds appends exactly one chain, under the name of the host that was dialled.
  pub resolve-Recorded :
      (host : Bytes) (address : Dns.IpAddr) (name : Bytes) (qtype query_id timeout : ℕ)
      (s : State net)
      → Recorded
          (Doh.doh_leg host)
          host
          s
          (Doh.resolve net host address name qtype query_id timeout s)
  unfolding Doh.resolve
  resolve-Recorded host address name qtype query_id timeout s =
      let P = Recorded (Doh.doh_leg host) host s in
      lift-cases P (ok_or (server_name host) _) s _ (λ e _. refl)
        λ server named.
          lift-cases P (require builds_client Doh.no_client) s _ (λ e _. refl)
            λ _ _.
              lift-cases P (map_err Doh.dns (Dns.encode_query query_id name qtype)) s _
                (λ e _. refl)
                λ query _.
                  outside-cases net P (post host address query timeout) _ s _ (λ w. refl)
                    λ reply w _.
                      lift-cases P (require (Doh.is_success reply.status) _) (w, s.1) _
                        (λ e _. refl)
                        λ _ _.
                          lift-cases P (ok_or reply.body Doh.unreadable) (w, s.1) _ (λ e _. refl)
                            λ body _.
                              lift-cases P
                                (map_err Doh.dns (Dns.parse_response body query_id qtype)) (w, s.1)
                                _ (λ e _. refl)
                                λ addresses _.
                                  lift-cases P (ok_or reply.chain _) (w, s.1) _ (λ e _. refl)
                                    λ chain _. (server, chain, ok_or-eq_ok _ _ named, refl)
