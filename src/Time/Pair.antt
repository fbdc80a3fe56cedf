-- ===== src/Time/Pair.antt =====
-- packages/time-correction/src/main.rs: one (resolver, server) pair, from a hostname to a verified
-- time and the window in which the certificates behind it are valid.
pub mod Attested
pub mod Steps
use nixos_test.Prelude.{
  ℕ, ◌+◌, ◌%◌, ◌^◌, Bool, true, false, Option, none, some, List, [], ◌∷◌, ◌++◌, Bytes,
  if◌then◌else◌, get_or, be_u16,
}
use nixos_test.Prelude.Int.{ℤ, ltb_ℤ}
use nixos_test.Prelude.Outcome.{Result, ok, err, ok_or}
use nixos_test.Prelude.Stateful.{Stateful, ◌>>=◌, ◌>>◌, lift, pure, map_err}
use nixos_test.Prelude.Text.{is_nil}
use nixos_test.Time.Deferred
use nixos_test.Time.Dns.{IpAddr, v4, v6, type_a, type_aaaa}
use nixos_test.Time.Doh
use nixos_test.Time.Network.{Network, State, outside}
use nixos_test.Time.Options.{Resolver, TimeServer}
use nixos_test.Time.TimeServer
use nixos_test.Time.TimeServer.{Established}

pub data PairError : Type 0 where
  no_random : PairError
  unresolved : (resolver name : Bytes) (failures : List Doh.DohError) → PairError
  resolved_to_nothing : (host : Bytes) → PairError
  key_establishment : TimeServer.KeyError → PairError
  redirect_to_nothing : (name : Bytes) → PairError
  exchange : TimeServer.TimeError → PairError
  below_floor : (seconds floor : ℤ) → PairError
  rejected : Deferred.Rejection → PairError

abbrev pub is_ipv4 : IpAddr → Bool
is_ipv4 (v4 a b c d) = true
is_ipv4 (v6 octets) = false

abbrev pub same_family : IpAddr → IpAddr → Bool
same_family a b = if is_ipv4 a then is_ipv4 b else (if is_ipv4 b then false else true)

-- `candidates.iter().find(|a| a.is_ipv4() == key.is_ipv4())`
unfoldable pub of_family : IpAddr → List IpAddr → Option IpAddr
of_family key [] = none
of_family key (a ∷ candidates) = if same_family a key then some a else of_family key candidates

-- `.or_else(|| candidates.first())`
unfoldable pub or_first : Option IpAddr → List IpAddr → Option IpAddr
or_first (some a) candidates = some a
or_first none [] = none
or_first none (a ∷ candidates) = some a

unfoldable pub refuse_below_floor : ℤ → ℤ → Result PairError (Unit {0})
refuse_below_floor seconds floor =
    if ltb_ℤ seconds floor then err (below_floor seconds floor) else ok tt

-- The addresses that were found, and the failures on the way.
abbrev pub Attempts : Type 0
Attempts = List IpAddr × List Doh.DohError

module _ (net : Network) where
  -- What one query gave: its addresses end the loop, its failure is kept and the loop goes on.
  unfoldable pub attempted :
      Result Doh.DohError (List IpAddr) × State net
      → (State net → Attempts × State net)
      → Attempts × State net
  attempted (ok addresses, s) again = ((addresses, []), s)
  attempted (err e, s) again = let rest = again s in (((rest.0).0, e ∷ (rest.0).1), rest.1)

  -- The loop over the resolver's addresses, for one type of address.
  unfoldable pub attempt :
      List IpAddr → Bytes → Bytes → ℕ → ℕ → ℕ → State net → Attempts × State net
  attempt [] host name qtype id timeout s = (([], []), s)
  attempt (address ∷ addresses) host name qtype id timeout s =
      attempted (Doh.resolve net host address name qtype id timeout s)
        (λ t. attempt addresses host name qtype id timeout t)

  unfoldable pub resolved : Resolver → Bytes → Attempts → Attempts → Result PairError (List IpAddr)
  resolved resolver name a aaaa =
      let found = a.0 ++ aaaa.0 in
      if is_nil found then err (unresolved resolver.name name (a.1 ++ aaaa.1)) else ok found

  -- The closure `resolve`: both types of address, and whichever address of the resolver answers first.
  unfoldable pub resolve : Resolver → Bytes → ℕ → ℕ → Stateful (State net) PairError (List IpAddr)
  resolve resolver name id timeout s =
      let a = attempt resolver.addresses resolver.hostname name type_a id timeout s in
      let aaaa =
        attempt resolver.addresses resolver.hostname name type_aaaa ((id + 1) % 2 ^ 16) timeout
          (a.1) in
      (resolved resolver name (a.0) (aaaa.0), aaaa.1)

  unfoldable pub established :
      IpAddr
      → Result TimeServer.KeyError Established × State net
      → (PairError → Stateful (State net) PairError (IpAddr × Established))
      → Result PairError (IpAddr × Established) × State net
  established address (ok session, s) again = (ok (address, session), s)
  established address (err e, s) again = again (key_establishment e) s

  -- The loop over the server's addresses, with the last failure.
  unfoldable pub establish_first :
      List IpAddr → Bytes → ℕ → PairError → Stateful (State net) PairError (IpAddr × Established)
  establish_first [] host timeout last s = (err last, s)
  establish_first (address ∷ addresses) host timeout last s =
      established address (TimeServer.establish net host address timeout s)
        (λ e t. establish_first addresses host timeout e t)

  -- Where the exchange goes, once a redirect by name has been resolved.
  unfoldable pub redirected :
      Option Bytes → IpAddr → IpAddr → Resolver → ℕ → ℕ → Stateful (State net) PairError IpAddr
  redirected none address key_address resolver id timeout = pure address
  redirected (some name) address key_address resolver id timeout = do
    candidates ← resolve resolver name ((id + 2) % 2 ^ 16) timeout
    lift (ok_or (or_first (of_family key_address candidates) candidates) (redirect_to_nothing name))

  -- A step of the exchange, with its own errors.
  unfoldable pub asked :
      Established → IpAddr → ℕ → Bytes → Bytes → ℕ → Stateful (State net) PairError ℤ
  asked session address port unique_id nonce timeout s =
      let r = TimeServer.ask_time net session address port unique_id nonce timeout s in
      (map_err exchange (r.0), r.1)

  unfoldable pub accepted : ℤ → Stateful (State net) PairError Deferred.Verified
  accepted seconds s = (map_err rejected (Deferred.accept net.pki (s.1) seconds), s)

  -- The floor, and then pass 2 on every chain gathered on the way.
  unfoldable pub verified_at : ℤ → ℤ → Stateful (State net) PairError (ℤ × Option Deferred.Window)
  verified_at floor seconds = do
    lift (refuse_below_floor seconds floor)
    verified ← accepted seconds
    pure (verified.seconds, verified.window)

  -- The exchange with the server, from the keys on.
  unfoldable pub exchanged :
      Resolver
      → ℤ
      → ℕ
      → ℕ
      → IpAddr × Established
      → Stateful (State net) PairError (ℤ × Option Deferred.Window)
  exchanged resolver floor timeout query_id keyed = do
    let target = TimeServer.ntp_target net.parse_address (keyed.1) (keyed.0)
    address ← redirected (target.0) (target.1) (keyed.0) resolver query_id timeout
    unique_id ← outside net (net.random 32) no_random
    nonce ← outside net (net.random 16) no_random
    seconds ← asked (keyed.1) address (target.2) unique_id nonce timeout
    verified_at floor seconds

  unfoldable pub ask_pair :
      Resolver → TimeServer → ℤ → ℕ → Stateful (State net) PairError (ℤ × Option Deferred.Window)
  ask_pair resolver server floor timeout = do
    id_bytes ← outside net (net.random 2) no_random
    let query_id = be_u16 (get_or id_bytes 0 0) (get_or id_bytes 1 0)
    addresses ← resolve resolver server.hostname query_id timeout
    keyed ← establish_first addresses server.hostname timeout (resolved_to_nothing server.hostname)
    exchanged resolver floor timeout query_id keyed

  -- `Deferred::new()`: nothing is recorded when a pair begins.
  unfoldable pub run_pair :
      Resolver → TimeServer → ℤ → ℕ → net.World → Result PairError (ℤ × Option Deferred.Window)
  run_pair resolver server floor timeout w = (ask_pair resolver server floor timeout (w, [])).0
