-- ===== src/Time/Choose/Tests.antt =====
-- packages/time-correction/src/main.rs: a configuration of two operators, and what happens if two
-- servers go by one name.
use nixos_test.Prelude.{
  ◌≡◌, ◌≢◌, refl, true, false, some, List, [], ◌∷◌, map, Bytes, bytes_eq, bytes_eq_refl, length,
  All,
}
use nixos_test.Prelude.Outcome.{ok}
use nixos_test.Prelude.Text
use nixos_test.Prelude.Text.{codes}
use nixos_test.Prelude.Distinct.{Distinct}
use nixos_test.Time.Dns.{v4}
use nixos_test.Time.Options
use nixos_test.Time.Options.Accepted.{check_options-IsValid}
use nixos_test.Time.Options.Operators.{operator_of}
use nixos_test.Time.Choose
use nixos_test.Time.Choose.{Pairing, server_name, resolver_name}
use nixos_test.Time.Choose.Independent.{wanted, server_of, resolver_of, Configured, choose-Distinct}

abbrev resolver : Bytes → Options.Resolver
resolver name = record { name = name; hostname = name; addresses = v4 9 9 9 9 ∷ [] }

abbrev server : Bytes → Bytes → Options.TimeServer
server name operator = record { name = name; hostname = name; operator = operator }

abbrev options : Options.Options
options = record Options.default_options {
  resolvers = resolver (codes "quad9") ∷ resolver (codes "cloudflare") ∷ [];
  servers =
      server (codes "ptb1") (codes "ptb")
      ∷ server (codes "ptb2") (codes "ptb")
      ∷ server (codes "netnod") (codes "netnod")
      ∷ [];
}

checks : Options.check_options options ≡ ok tt
unfolding Options.check_options Options.check_only Options.distinct_operators Options.operators_from
    Text.member bytes_eq
checks = refl

apart : (a b : Bytes) → bytes_eq a b ≡ false → a ≢ b
apart a b h e = let same : bytes_eq a b ≡ true = rw e (bytes_eq_refl b) in cc (same, h)

names_Distinct : Distinct (map server_name options.servers)
unfolding bytes_eq
names_Distinct = (
  (apart _ (codes "ptb1") refl, (apart _ (codes "ptb1") refl, tt)),
  ((apart _ (codes "ptb2") refl, tt), (tt, tt)),
)

resolvers_Distinct : Distinct (map resolver_name options.resolvers)
unfolding bytes_eq
resolvers_Distinct = ((apart _ (codes "quad9") refl, tt), (tt, tt))

choose-Distinct_example :
    (pairs : List Pairing) × (Choose.choose options 42 ≡ ok pairs)
    × (length pairs ≡ wanted options.only options)
    × Distinct (map operator_of (map server_of pairs))
    × Distinct (map resolver_of pairs)
    × All (Configured options.resolvers options.servers) pairs
choose-Distinct_example =
    choose-Distinct options 42 (check_options-IsValid options checks) names_Distinct
      resolvers_Distinct

-- Two servers named "a", of different operators, hide that one operator has two of the servers named.
abbrev doubled : Options.Options
doubled = record options {
  resolvers =
      resolver (codes "quad9") ∷ resolver (codes "cloudflare") ∷ resolver (codes "google") ∷ [];
  servers =
      server (codes "a") (codes "ptb")
      ∷ server (codes "a") (codes "netnod")
      ∷ server (codes "b") (codes "ptb")
      ∷ [];
  only = some (codes "a" ∷ codes "b" ∷ []);
}

doubled_checks : Options.check_options doubled ≡ ok tt
unfolding Options.check_options Options.check_only Options.all_configured Options.is_configured
    Options.named Options.distinct_operators Options.operators_from Text.member bytes_eq
doubled_checks = refl

doubled_operators :
    map operator_of (Choose.chosen doubled.only doubled 0)
    ≡ codes "ptb" ∷ codes "netnod" ∷ codes "ptb" ∷ []
unfolding Choose.chosen Options.named Text.member bytes_eq
doubled_operators = refl
