-- ===== src/Time/Choose.antt =====
-- packages/time-correction/src/main.rs: which (resolver, server) pairs are asked.
pub mod Independent
mod Tests
use nixos_test.Prelude.{
  ℕ, zero, suc, ◌+◌, Option, none, some, List, [], ◌∷◌, map, Bytes, bytes_eq, ltb, if◌then◌else◌,
  length, add_u64,
}
use nixos_test.Prelude.Bits.{filter}
use nixos_test.Prelude.Outcome.{Result, ok, err, ◌>>=◌}
use nixos_test.Time.Quorum
use nixos_test.Time.Options

-- `panicked` is no message: it stands for the `expect` of a resolver that was sampled by its name.
pub data ChooseError : Type 0 where
  not_enough_resolvers : ChooseError
  panicked : ChooseError

abbrev pub Pairing : Type 0
Pairing = Options.Resolver × Options.TimeServer

abbrev pub server_name : Options.TimeServer → Bytes
server_name s = s.name

abbrev pub resolver_name : Options.Resolver → Bytes
resolver_name r = r.name

-- `iter().find(|x| x.name == name)`
unfoldable pub find {ℓ} : {A : Type ℓ} → (A → Bytes) → Bytes → List A → Option A
find key name [] = none
find key name (x ∷ xs) = if bytes_eq (key x) name then some x else find key name xs

unfoldable pub theirs : Bytes → List Options.TimeServer → List Options.TimeServer
theirs operator servers = filter (λ s. bytes_eq s.operator operator) servers

unfoldable pub first_named : List Bytes → List Options.TimeServer → Option Options.TimeServer
first_named [] servers = none
first_named (name ∷ names) servers = find server_name name servers

-- The closure of `filter_map`, for one operator at its position in the sample.
unfoldable pub pick : List Options.TimeServer → ℕ → ℕ → Bytes → Option Options.TimeServer
pick servers seed index operator =
    let own = theirs operator servers in
    first_named (Quorum.sample (map server_name own) 1 (add_u64 seed (index + 2))) own

unfoldable pub with_pick {ℓ} : {A : Type ℓ} → Option A → List A → List A
with_pick none picks = picks
with_pick (some x) picks = x ∷ picks

unfoldable pub picks : List Options.TimeServer → ℕ → ℕ → List Bytes → List Options.TimeServer
picks servers seed index [] = []
picks servers seed index (operator ∷ operators) =
    with_pick (pick servers seed index operator) (picks servers seed (suc index) operators)

unfoldable pub chosen : Option (List Bytes) → Options.Options → ℕ → List Options.TimeServer
chosen (some only) options seed = Options.named only options.servers
chosen none options seed =
    let operators = Options.distinct_operators options.servers in
    picks options.servers seed 0 (Quorum.sample operators options.sample seed)

unfoldable pub found : Option Options.Resolver → Result ChooseError Options.Resolver
found none = err panicked
found (some resolver) = ok resolver

-- `chosen.into_iter().zip(resolvers)`, with the resolvers looked up by name.
unfoldable pub pair_up :
    List Options.TimeServer → List Bytes → List Options.Resolver → Result ChooseError (List Pairing)
pair_up [] names resolvers = ok []
pair_up (s ∷ servers) [] resolvers = ok []
pair_up (s ∷ servers) (name ∷ names) resolvers = do
  resolver ← found (find resolver_name name resolvers)
  pairs ← pair_up servers names resolvers
  ok ((resolver, s) ∷ pairs)

unfoldable pub choose : Options.Options → ℕ → Result ChooseError (List Pairing)
choose options seed =
    let servers = chosen options.only options seed in
    let names =
      Quorum.sample (map resolver_name options.resolvers) (length servers) (add_u64 seed 1) in
    if ltb (length names) (length servers)
    then err not_enough_resolvers
    else pair_up servers names options.resolvers
