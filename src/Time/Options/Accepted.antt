-- ===== src/Time/Options/Accepted.antt =====
-- packages/time-correction/src/main.rs: what a configuration that `parse_args` accepts satisfies.
use nixos_test.Prelude.{
  ℕ, ◌≤◌, ◌<◌, ◌≡◌, true, false, not, Option, none, some, List, [], ◌∷◌, Bytes, arith, ◌==◌, leb→le,
  length, All,
}
use mathlib.Core.Path.{subst}
use nixos_test.Prelude.Outcome.{
  ok, >>=-eq-ok, require-eq_ok, require_last-eq_ok, not-eq_true, ok-injective,
}
use nixos_test.Prelude.Text.{is_nil}
use nixos_test.Time.Dns.{IpAddr}
use nixos_test.Time.Options

-- The names of `--only`: there is one at least, each is the name of a server, their servers have as
-- many operators as there are names, and there are as many resolvers.
abbrev pub IsServed : Options.Options → Option (List Bytes) → Type 0
IsServed options none = Unit
IsServed options (some only) =
    (is_nil only ≡ false)
    × All (λ name. Options.is_configured name options.servers ≡ true) only
    × (length only ≤ length (Options.distinct_operators (Options.named only options.servers)))
    × (length only ≤ length options.resolvers)

pub record IsValid (options : Options.Options) : Type 0 where
  pub has_resolver : is_nil options.resolvers ≡ false
  pub has_server : is_nil options.servers ≡ false
  pub asks : 0 < options.sample
  pub enough_operators : options.sample ≤ length (Options.distinct_operators options.servers)
  pub enough_resolvers : options.sample ≤ length options.resolvers
  pub served : IsServed options options.only

all_configured-All :
    (names : List Bytes) (servers : List Options.TimeServer)
    → Options.all_configured names servers ≡ ok tt
    → All (λ name. Options.is_configured name servers ≡ true) names
unfolding Options.all_configured
all_configured-All [] servers h = tt
all_configured-All (name ∷ names) servers h =
    let (found, h1) = require-eq_ok _ _ h in (found, all_configured-All names servers h1)

check_only-IsServed :
    (only : Option (List Bytes)) (options : Options.Options)
    → Options.check_only only options ≡ ok tt
    → IsServed options only
unfolding Options.check_only
check_only-IsServed none options h = tt
check_only-IsServed (some only) options h =
    let (some_name, h1) = require-eq_ok _ _ h in
    let (_, configured, h2) = >>=-eq-ok (Options.all_configured only options.servers) _ h1 in
    let (operators, h3) = require-eq_ok _ _ h2 in
    let resolvers = require_last-eq_ok _ _ h3 in
    (
      not-eq_true _ some_name,
      all_configured-All only options.servers configured,
      leb→le _ _ operators,
      leb→le _ _ resolvers,
    )

pub check_options-IsValid :
    (options : Options.Options) → Options.check_options options ≡ ok tt → IsValid options
unfolding Options.check_options
check_options-IsValid options h =
    let (some_resolver, h1) = require-eq_ok _ _ h in
    let (some_server, h2) = require-eq_ok _ _ h1 in
    let (some_asked, h3) = require-eq_ok _ _ h2 in
    let (operators, h4) = require-eq_ok _ _ h3 in
    let (resolvers, h5) = require-eq_ok _ _ h4 in
    record {
      has_resolver = not-eq_true _ some_resolver;
      has_server = not-eq_true _ some_server;
      asks = positive options.sample some_asked;
      enough_operators = leb→le _ _ operators;
      enough_resolvers = leb→le _ _ resolvers;
      served = check_only-IsServed options.only options h5;
    }
  where
    positive : (n : ℕ) → not (n == 0) ≡ true → 0 < n
    positive n h = ground (arith, h)

run-injective : {a b : Options.Options} → Options.run a ≡ Options.run b → a ≡ b
run-injective h = cc h

checked-IsValid :
    (parse_address : Bytes → Option IpAddr) (read : Option Options.Options)
    {options : Options.Options}
    → Options.checked parse_address read ≡ ok (Options.run options)
    → IsValid options
unfolding Options.checked
checked-IsValid parse_address none h = cc
checked-IsValid parse_address (some read) h =
    let (_, valid, h1) = >>=-eq-ok (Options.check_options read) _ h in
    subst IsValid (run-injective (ok-injective _ _ h1)) (check_options-IsValid read valid)

module _ (parse_address : Bytes → Option IpAddr) where
  -- Options that `parse_args` returns for a run are valid: there is a resolver and a server; the
  -- sample is positive and exceeds neither the distinct operators nor the resolvers; and if `--only`
  -- is given, it names at least one server, each name is configured, the servers named have at least
  -- as many operators as there are names, and there are at least as many resolvers.
  pub parse_args-IsValid :
      (args : List Bytes) {options : Options.Options}
      → Options.parse_args parse_address args ≡ ok (Options.run options)
      → IsValid options
  unfolding Options.parse_args
  parse_args-IsValid args {options = options} h =
      let (read, _, h1) =
        >>=-eq-ok (Options.read_arguments parse_address none args Options.default_options) _ h in
      checked-IsValid parse_address read h1
