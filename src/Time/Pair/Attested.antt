-- ===== src/Time/Pair/Attested.antt =====
-- packages/time-correction/src/main.rs: what a time that a pair returns rests on.
use nixos_test.Prelude.{
  ℕ, ◌+◌, ◌%◌, ◌^◌, ◌≡◌, sym, ap, ◌∙◌, true, Option, none, some, List, [], Bytes, get_or, be_u16,
}
use mathlib.Core.Path.{subst}
use nixos_test.Prelude.Int.{ℤ, ◌≤ℤ◌, ltb_ℤ, ltb_ℤ-false}
use nixos_test.Prelude.Outcome.{Result, ok, ok-injective, rejected-eq_ok}
use nixos_test.Prelude.Stateful.{
  continue, ◌>>=◌, map_err, map_err-eq_ok, lift-eq-ok, continue-eq-ok,
}
use nixos_test.Time.Deferred
use nixos_test.Time.Deferred.Accepted.{IsVerified, HoldsIfKnown, accept_sound}
use nixos_test.Time.Dns.{IpAddr}
use nixos_test.Time.Doh
use nixos_test.Time.Network.{Network, State, outside, outside-eq-ok}
use nixos_test.Time.Options.{Resolver, TimeServer}
use nixos_test.Time.Pair
use nixos_test.Time.Pair.Steps.{
  Extends, Extends-refl, Includes, Includes-Extends, Includes-All, pending_of, HasChain, Keyed,
  resolve-HasChain, establish_first-Keyed,
}
use nixos_test.Time.TimeServer
use nixos_test.Time.TimeServer.{Established}
use nixos_test.Time.TimeServer.Keyed.{Bound}
use nixos_test.Time.TimeServer.Asked.{Told, Told-IsI64, ask_time-Told}

module _ (net : Network) where
  open net use {pki, server_name}

  -- A host presented a chain that the verifier accepts, for the host's name and at the time `t`.
  abbrev pub Authentic : Bytes → ℤ → Type 0
  Authentic host t =
      (server : pki.ServerName) × (chain : List pki.Certificate) × (server_name host ≡ some server)
      × (pki.verify_at chain server t ≡ true)

  -- The time is no earlier than the floor and inside of the window, if one is known. It stands in a
  -- packet that is authentic under a key which was exported from a session with the server; the chain
  -- that this session presented verifies at the time, and so does one of the resolver.
  pub record Attested (resolver : Resolver) (server : TimeServer) (floor t : ℤ)
      (window : Option Deferred.Window) : Type 0 where
    pub recent : floor ≤ℤ t
    pub inside : HoldsIfKnown t window
    pub established : Established
    pub bound : Bound net server.hostname established
    pub chain_verified : pki.verify_at bound.chain bound.server t ≡ true
    pub unique_id : Bytes
    pub told : Told net (established.keys).s2c unique_id t
    pub resolver_verified : Authentic resolver.hostname t

  above_floor : (t floor : ℤ) → Pair.refuse_below_floor t floor ≡ ok tt → floor ≤ℤ t
  unfolding Pair.refuse_below_floor
  above_floor t floor h = ltb_ℤ-false t floor (rejected-eq_ok (ltb_ℤ t floor) _ h).0

  redirected-Extends :
      (target : Option Bytes) (address key_address : IpAddr) (resolver : Resolver) (id timeout : ℕ)
      (s : State net) {a : IpAddr} {t : State net}
      → Pair.redirected net target address key_address resolver id timeout s ≡ (ok a, t)
      → Extends (s.1) (t.1)
  unfolding Pair.redirected
  redirected-Extends none address key_address resolver id timeout s {t = t} h =
      subst (Extends (s.1)) (ap (λ (r : Result Pair.PairError IpAddr × State net). (r.1).1) h)
        (Extends-refl (s.1))
  redirected-Extends (some name) address key_address resolver id timeout s {t = t} h =
      let (candidates, u, found, h1) =
        continue-eq-ok (Pair.resolve net resolver name ((id + 2) % 2 ^ 16) timeout s) _ h in
      subst (Extends (s.1)) (ap (λ (r : Result Pair.PairError IpAddr × State net). (r.1).1) h1)
        (resolve-HasChain net resolver name ((id + 2) % 2 ^ 16) timeout s found).0

  asked-Told :
      (session : Established) (address : IpAddr) (port : ℕ) (unique_id nonce : Bytes) (timeout : ℕ)
      (s : State net) {t : ℤ} {s' : State net}
      → Pair.asked net session address port unique_id nonce timeout s ≡ (ok t, s')
      → (s'.1 ≡ s.1) × Told net (session.keys).s2c unique_id t
  unfolding Pair.asked
  asked-Told session address port unique_id nonce timeout s {t = t} {s' = s'} h =
      let r = TimeServer.ask_time net session address port unique_id nonce timeout s in
      let answer : r.0 ≡ ok t =
        map_err-eq_ok Pair.exchange (r.0)
          (ap (λ (x : Result Pair.PairError ℤ × State net). x.0) h) in
      let (same, told) =
        ask_time-Told net session address port unique_id nonce timeout s
          (ap (λ (x : Result TimeServer.TimeError ℤ). (x, r.1)) answer) in
      (sym (ap (λ (x : Result Pair.PairError ℤ × State net). (x.1).1) h) ∙ same, told)

  abbrev Reading : Type 0
  Reading = ℤ × Option Deferred.Window

  -- The chains of the two legs are among those recorded.
  abbrev Gathered : Resolver → TimeServer → Established → List (Deferred.Pending pki) → Type 0
  Gathered resolver server session p =
      ((b : Bound net server.hostname session) × Includes p
          (pending_of net (TimeServer.ke_leg server.hostname) b.chain b.server))
      × HasChain net (Doh.doh_leg resolver.hostname) resolver.hostname p

  Gathered-Extends :
      (resolver : Resolver) (server : TimeServer) (session : Established)
      (p : List (Deferred.Pending pki)) {q : List (Deferred.Pending pki)}
      → Gathered resolver server session p
      → Extends p q
      → Gathered resolver server session q
  Gathered-Extends resolver server session p ((b, inside), (dialled, chain, named, at)) e =
      ((b, Includes-Extends p _ inside e), (dialled, chain, named, Includes-Extends p _ at e))

  accepted-Attested :
      (resolver : Resolver) (server : TimeServer) (floor : ℤ) (session : Established)
      (unique_id : Bytes) (p : List (Deferred.Pending pki)) (seconds : ℤ) (v : Deferred.Verified)
      → Pair.refuse_below_floor seconds floor ≡ ok tt
      → Deferred.accept pki p seconds ≡ ok v
      → Told net (session.keys).s2c unique_id seconds
      → Gathered resolver server session p
      → Attested resolver server floor v.seconds v.window
  accepted-Attested resolver server floor session unique_id p seconds v recent accepted told
        ((b, inside), (dialled, chain, named, at)) =
      let (same, (_, (all, window))) = accept_sound pki p seconds (Told-IsI64 net told) accepted in
      subst (λ u. Attested resolver server floor u v.window) (sym same)
        (record {
          recent = above_floor seconds floor recent;
          inside = window;
          established = session;
          bound = b;
          chain_verified = Includes-All (IsVerified pki seconds) p _ all inside;
          unique_id = unique_id;
          told = told;
          resolver_verified =
              (dialled, chain, named, Includes-All (IsVerified pki seconds) p _ all at);
        })

  verified_at-Attested :
      (resolver : Resolver) (server : TimeServer) (floor : ℤ) (session : Established)
      (unique_id : Bytes) (seconds : ℤ) (s : State net) (reading : Reading) {s' : State net}
      → Pair.verified_at net floor seconds s ≡ (ok reading, s')
      → Told net (session.keys).s2c unique_id seconds
      → Gathered resolver server session (s.1)
      → Attested resolver server floor (reading.0) (reading.1)
  unfolding Pair.verified_at Pair.accepted
  verified_at-Attested resolver server floor session unique_id seconds s reading h told gathered =
      let (_, recent, h1) = lift-eq-ok (Pair.refuse_below_floor seconds floor) s _ h in
      let (v, accepted, h2) =
        lift-eq-ok (map_err Pair.rejected (Deferred.accept pki (s.1) seconds)) s _ h1 in
      let result : (v.seconds, v.window) ≡ reading =
        ok-injective _ _ (ap (λ (x : Result Pair.PairError Reading × State net). x.0) h2) in
      subst (λ (r : Reading). Attested resolver server floor (r.0) (r.1)) result
        (accepted-Attested resolver server floor session unique_id (s.1) seconds v recent
          (map_err-eq_ok Pair.rejected (Deferred.accept pki (s.1) seconds) accepted) told gathered)

  exchanged-Attested :
      (resolver : Resolver) (server : TimeServer) (floor : ℤ) (timeout query_id : ℕ)
      (keyed : IpAddr × Established) (s : State net) (reading : Reading) {s' : State net}
      → Pair.exchanged net resolver floor timeout query_id keyed s ≡ (ok reading, s')
      → Gathered resolver server (keyed.1) (s.1)
      → Attested resolver server floor (reading.0) (reading.1)
  unfolding Pair.exchanged
  exchanged-Attested resolver server floor timeout query_id keyed s reading h gathered =
      let target = TimeServer.ntp_target net.parse_address (keyed.1) (keyed.0) in
      let (address, t, moved, h1) =
        continue-eq-ok
          (Pair.redirected net (target.0) (target.1) (keyed.0) resolver query_id timeout s) _ h in
      told_after address (target.2) t h1 (
        Gathered-Extends resolver server (keyed.1) (s.1) gathered
          (redirected-Extends (target.0) (target.1) (keyed.0) resolver query_id timeout s moved))
    where
      asked_after :
          (address : IpAddr) (port : ℕ) (unique_id nonce : Bytes) (t : State net) {s' : State net}
          → continue
              (Pair.asked net (keyed.1) address port unique_id nonce timeout t)
              (λ seconds. Pair.verified_at net floor seconds)
            ≡ (ok reading, s')
          → Gathered resolver server (keyed.1) (t.1)
          → Attested resolver server floor (reading.0) (reading.1)
      asked_after address port unique_id nonce t h g =
          let (seconds, u, answered, h1) =
            continue-eq-ok (Pair.asked net (keyed.1) address port unique_id nonce timeout t) _ h in
          let (kept, told) = asked-Told (keyed.1) address port unique_id nonce timeout t answered in
          verified_at-Attested resolver server floor (keyed.1) unique_id seconds u reading h1 told
            (subst (Gathered resolver server (keyed.1)) (sym kept) g)

      told_after :
          (address : IpAddr) (port : ℕ) (t : State net) {s' : State net}
          → continue (outside net (net.random 32) Pair.no_random t) (λ unique_id.
            outside net (net.random 16) Pair.no_random >>= λ nonce.
            Pair.asked net (keyed.1) address port unique_id nonce timeout >>= λ seconds.
            Pair.verified_at net floor seconds)
            ≡ (ok reading, s')
          → Gathered resolver server (keyed.1) (t.1)
          → Attested resolver server floor (reading.0) (reading.1)
      told_after address port t h g =
          let (unique_id, v, _, h1) = outside-eq-ok net (net.random 32) Pair.no_random t _ h in
          let (nonce, w, _, h2) = outside-eq-ok net (net.random 16) Pair.no_random (v, t.1) _ h1 in
          asked_after address port unique_id nonce (w, t.1) h2 g

  pub run_pair-Attested :
      (resolver : Resolver) (server : TimeServer) (floor : ℤ) (timeout : ℕ) (w : net.World)
      (reading : Reading)
      → Pair.run_pair net resolver server floor timeout w ≡ ok reading
      → Attested resolver server floor (reading.0) (reading.1)
  unfolding Pair.run_pair Pair.ask_pair
  run_pair-Attested resolver server floor timeout w reading h =
      let end = (Pair.ask_pair net resolver server floor timeout (w, [])).1 in
      let (id_bytes, v, _, h1) =
        outside-eq-ok net (net.random 2) Pair.no_random (w, []) _
          (ap (λ (x : Result Pair.PairError Reading). (x, end)) h) in
      resolved_after (be_u16 (get_or id_bytes 0 0) (get_or id_bytes 1 0)) (v, []) h1
    where
      established_after :
          (query_id : ℕ) (addresses : List IpAddr) (s : State net) {s' : State net}
          → continue
              (Pair.establish_first net addresses server.hostname timeout
                (Pair.resolved_to_nothing server.hostname)
                s)
              (λ keyed. Pair.exchanged net resolver floor timeout query_id keyed)
            ≡ (ok reading, s')
          → HasChain net (Doh.doh_leg resolver.hostname) resolver.hostname (s.1)
          → Attested resolver server floor (reading.0) (reading.1)
      established_after query_id addresses s h (dialled, chain, named, at) =
          let last = Pair.resolved_to_nothing server.hostname in
          let (keyed, t, done, h1) =
            continue-eq-ok (Pair.establish_first net addresses server.hostname timeout last s) _
              h in
          let (more, keys) =
            subst (Keyed net server.hostname (s.1)) done
              (establish_first-Keyed net addresses server.hostname timeout last s) in
          exchanged-Attested resolver server floor timeout query_id keyed t reading h1
            (keys, (dialled, chain, named, Includes-Extends (s.1) _ at more))

      resolved_after :
          (query_id : ℕ) (s : State net) {s' : State net}
          → continue (Pair.resolve net resolver server.hostname query_id timeout s) (λ addresses.
            Pair.establish_first net addresses server.hostname timeout
              (Pair.resolved_to_nothing server.hostname)
            >>= λ keyed. Pair.exchanged net resolver floor timeout query_id keyed)
            ≡ (ok reading, s')
          → Attested resolver server floor (reading.0) (reading.1)
      resolved_after query_id s h =
          let (addresses, t, found, h1) =
            continue-eq-ok (Pair.resolve net resolver server.hostname query_id timeout s) _ h in
          established_after query_id addresses t h1
            (resolve-HasChain net resolver server.hostname query_id timeout s found).1
