-- ===== src/Time/Pair/Steps.antt =====
-- packages/time-correction/src/main.rs: the steps of a pair only ever append to the recorded chains,
-- and an answer leaves its chain among them.
use nixos_test.Prelude.{
  ℕ, ◌+◌, ◌%◌, ◌^◌, ◌≡◌, refl, sym, ap, ◌∙◌, false, some, List, [], ◌∷◌, ◌++◌, append-nil,
  append_assoc, ◌⊎◌, Bytes, All, inl, inr,
}
use mathlib.Core.Path.{subst}
use nixos_test.Prelude.Outcome.{Result, ok, err, rejected-eq_ok}
use nixos_test.Prelude.Text.{is_nil}
use nixos_test.Time.Deferred
use nixos_test.Time.Dns.{IpAddr, type_a, type_aaaa}
use nixos_test.Time.Doh
use nixos_test.Time.Doh.Recorded.{Recorded, resolve-Recorded}
use nixos_test.Time.TimeServer
use nixos_test.Time.TimeServer.{Established}
use nixos_test.Time.TimeServer.Keyed.{Bound, BindsKeys, establish-BindsKeys}
use nixos_test.Time.Options.{Resolver}
use nixos_test.Time.Network.{Network, State}
use nixos_test.Time.Pair

-- `q` continues `p`; `x` stands somewhere in `p`.
abbrev pub Extends {ℓ} : {A : Type ℓ} → List A → List A → Type ℓ
Extends {A = A} p q = (more : List A) × (q ≡ p ++ more)

abbrev pub Includes {ℓ} : {A : Type ℓ} → List A → A → Type ℓ
Includes {A = A} p x = (front : List A) × (back : List A) × (p ≡ front ++ (x ∷ back))

module _ {ℓ} {A : Type ℓ} where
  pub Extends-refl : (p : List A) → Extends p p
  Extends-refl p = ([], sym (append-nil p))

  pub Extends-trans : (p q : List A) {r : List A} → Extends p q → Extends q r → Extends p r
  Extends-trans p q (m, e) (n, f) = (m ++ n, f ∙ ap (λ (l : List A). l ++ n) e ∙ append_assoc p m n)

  pub Includes-Extends :
      (p : List A) {q : List A} (x : A) → Includes p x → Extends p q → Includes q x
  Includes-Extends p x (front, back, e) (m, f) =
      (front, back ++ m, f ∙ ap (λ (l : List A). l ++ m) e ∙ append_assoc front (x ∷ back) m)

  pub Includes-All {κ} : (P : A → Type κ) (p : List A) (x : A) → All P p → Includes p x → P x
  Includes-All P p x h (front, back, e) = at front (subst (All P) e h)
    where
      at : (front : List A) → All P (front ++ (x ∷ back)) → P x
      at [] (k, rest) = k
      at (y ∷ ys) (k, rest) = at ys rest

module _ (net : Network) where
  abbrev Pendings : Type 0
  Pendings = List (Deferred.Pending net.pki)

  abbrev pub pending_of :
      Bytes → List net.pki.Certificate → net.pki.ServerName → Deferred.Pending net.pki
  pending_of leg chain server = record { leg = leg; chain = chain; server_name = server }

  -- A chain was recorded for the host, under its name.
  abbrev pub HasChain : Bytes → Bytes → Pendings → Type 0
  HasChain leg host p =
      (server : net.pki.ServerName) × (chain : List net.pki.Certificate) × (net.server_name host
        ≡ some server)
      × Includes p (pending_of leg chain server)

  HasChain-Extends :
      (leg host : Bytes) (p : Pendings) {q : Pendings}
      → HasChain leg host p
      → Extends p q
      → HasChain leg host q
  HasChain-Extends leg host p (server, chain, named, inside) e =
      (server, chain, named, Includes-Extends p _ inside e)

  -- What the queries of a loop leave: more chains, and one for the host if they found something.
  abbrev Queried : Bytes → Pendings → Pair.Attempts × State net → Type 0
  Queried host p (a, t) =
      Extends p (t.1) × (is_nil (a.0) ≡ false → HasChain (Doh.doh_leg host) host (t.1))

  attempted-Queried :
      (host : Bytes) (s : State net) (r : Result Doh.DohError (List IpAddr) × State net)
      (again : State net → Pair.Attempts × State net)
      → Recorded net (Doh.doh_leg host) host s r
      → ((t : State net) → Queried host (t.1) (again t))
      → Queried host (s.1) (Pair.attempted net r again)
  unfolding Pair.attempted Deferred.record_chain
  attempted-Queried host s (ok addresses, t) again (server, chain, named, e) h = (
    (pending_of (Doh.doh_leg host) chain server ∷ [], e),
    λ _. (server, chain, named, (s.1, [], e)),
  )
  attempted-Queried host s (err e, t) again same h =
      let (more, has) = h t in (subst (λ p. Extends p (((again t).1).1)) same more, has)

  attempt-Queried :
      (addresses : List IpAddr) (host name : Bytes) (qtype id timeout : ℕ) (s : State net)
      → Queried host (s.1) (Pair.attempt net addresses host name qtype id timeout s)
  unfolding Pair.attempt
  attempt-Queried [] host name qtype id timeout s = (Extends-refl (s.1), λ e. cc)
  attempt-Queried (address ∷ addresses) host name qtype id timeout s =
      attempted-Queried host s (Doh.resolve net host address name qtype id timeout s) _
        (resolve-Recorded net host address name qtype id timeout s)
        (λ t. attempt-Queried addresses host name qtype id timeout t)

  one_nonempty :
      (xs ys : List IpAddr) → is_nil (xs ++ ys) ≡ false → (is_nil xs ≡ false) ⊎ (is_nil ys ≡ false)
  one_nonempty [] ys h = inr h
  one_nonempty (x ∷ xs) ys h = inl refl

  resolve-Extends :
      (resolver : Resolver) (name : Bytes) (id timeout : ℕ) (s : State net)
      → Extends (s.1) (((Pair.resolve net resolver name id timeout s).1).1)
  unfolding Pair.resolve
  resolve-Extends resolver name id timeout s =
      let a = attempt-Queried resolver.addresses resolver.hostname name type_a id timeout s in
      let aaaa =
        attempt-Queried resolver.addresses resolver.hostname name type_aaaa ((id + 1) % 2 ^ 16)
          timeout _ in
      Extends-trans (s.1) _ (a.0) (aaaa.0)

  -- Addresses came over a session of the resolver, whose chain is recorded.
  pub resolve-HasChain :
      (resolver : Resolver) (name : Bytes) (id timeout : ℕ) (s : State net) {found : List IpAddr}
      {t : State net}
      → Pair.resolve net resolver name id timeout s ≡ (ok found, t)
      → Extends (s.1) (t.1) × HasChain (Doh.doh_leg resolver.hostname) resolver.hostname (t.1)
  unfolding Pair.resolve Pair.resolved
  resolve-HasChain resolver name id timeout s {found = found} {t = t} h =
      let first = Pair.attempt net resolver.addresses resolver.hostname name type_a id timeout s in
      let second =
        Pair.attempt net resolver.addresses resolver.hostname name type_aaaa ((id + 1) % 2 ^ 16)
          timeout (first.1) in
      let a = attempt-Queried resolver.addresses resolver.hostname name type_a id timeout s in
      let aaaa =
        attempt-Queried resolver.addresses resolver.hostname name type_aaaa ((id + 1) % 2 ^ 16)
          timeout (first.1) in
      let (some_found, _) =
        rejected-eq_ok (is_nil ((first.0).0 ++ (second.0).0)) _
          (ap (λ (r : Result Pair.PairError (List IpAddr) × State net). r.0) h) in
      let last : (second.1).1 ≡ t.1 =
        ap (λ (r : Result Pair.PairError (List IpAddr) × State net). (r.1).1) h in
      let has : HasChain (Doh.doh_leg resolver.hostname) resolver.hostname ((second.1).1) =
        elim (one_nonempty ((first.0).0) ((second.0).0) some_found) [
          | inl by_a ↦
              HasChain-Extends (Doh.doh_leg resolver.hostname) resolver.hostname ((first.1).1)
                ((a.1) by_a) (aaaa.0)
          | inr by_aaaa ↦ (aaaa.1) by_aaaa
        ] in
      (
        subst (Extends (s.1)) last (Extends-trans (s.1) _ (a.0) (aaaa.0)),
        subst (HasChain (Doh.doh_leg resolver.hostname) resolver.hostname) last has,
      )

  -- What the loop over the server's addresses leaves, if it succeeded.
  abbrev pub Keyed :
      Bytes → Pendings → Result Pair.PairError (IpAddr × Established) × State net → Type 0
  Keyed host p (err e, t) = Unit
  Keyed host p (ok session, t) =
      Extends p (t.1)
      × ((b : Bound net host (session.1)) × Includes (t.1)
            (pending_of (TimeServer.ke_leg host) b.chain b.server))

  established-Keyed :
      (host : Bytes) (address : IpAddr) (s : State net)
      (r : Result TimeServer.KeyError Established × State net)
      (again : Pair.PairError
        → State net
        → Result Pair.PairError (IpAddr × Established) × State net)
      → BindsKeys net host s r
      → ((e : Pair.PairError) (t : State net) → Keyed host (t.1) (again e t))
      → Keyed host (s.1) (Pair.established net address r again)
  unfolding Pair.established Deferred.record_chain
  established-Keyed host address s (ok session, t) again (b, e) h =
      ((pending_of (TimeServer.ke_leg host) b.chain b.server ∷ [], e), (b, (s.1, [], e)))
  established-Keyed host address s (err e, t) again same h =
      subst (λ p. Keyed host p (again (Pair.key_establishment e) t)) same
        (h (Pair.key_establishment e) t)

  pub establish_first-Keyed :
      (addresses : List IpAddr) (host : Bytes) (timeout : ℕ) (last : Pair.PairError) (s : State net)
      → Keyed host (s.1) (Pair.establish_first net addresses host timeout last s)
  unfolding Pair.establish_first
  establish_first-Keyed [] host timeout last s = tt
  establish_first-Keyed (address ∷ addresses) host timeout last s =
      established-Keyed host address s (TimeServer.establish net host address timeout s) _
        (establish-BindsKeys net host address timeout s)
        (λ e t. establish_first-Keyed addresses host timeout e t)
