-- ===== src/Time/Choose/Independent.antt =====
-- packages/time-correction/src/main.rs: a valid configuration always yields pairs, and no two of them
-- share an operator or a resolver.
use nixos_test.Prelude.{
  ℕ, suc, ◌+◌, ◌≤◌, ◌<◌, ◌≡◌, refl, sym, ap, ◌∙◌, true, false, Option, none, some, List, [], ◌∷◌,
  map, Bytes, arith, length, length-map, get_elem?, All, All-weaken, All-placed, All-both,
  Bool-cases, inl, inr, bytes_eq, bytes_eq_refl, bytes_eq→eq, le→ltb-false, add_u64,
}
use mathlib.Core.Path.{subst}
use nixos_test.Prelude.Outcome.{ok}
use nixos_test.Prelude.Text.{is_nil}
use nixos_test.Prelude.Distinct.{Distinct, Distinct-Nodup, Nodup-Distinct, filter-All, All-filter}
use nixos_test.Time.Quorum
use nixos_test.Time.Quorum.Sample.{sample_lem, sample-Nodup, sample-All}
use nixos_test.Time.Options
use nixos_test.Time.Options.Operators.{
  operator_of, distinct_operators-All, distinct_operators-Distinct, named_lem,
}
use nixos_test.Time.Options.Accepted.{IsValid, IsServed}
use nixos_test.Time.Choose.{
  Pairing, server_name, resolver_name, find, theirs, first_named, pick, with_pick, picks, chosen,
  found, pair_up, choose,
}

abbrev pub Listed {ℓ} : {A : Type ℓ} → List A → A → Type ℓ
Listed xs x = (i : ℕ) × (get_elem? xs i ≡ some x)

module _ {ℓ} {A : Type ℓ} (key : A → Bytes) where
  find-keyed {κ} :
      (P : A → Type κ) (name : Bytes) (xs : List A) {x : A}
      → All P xs
      → find key name xs ≡ some x
      → P x × (key x ≡ name)
  unfolding find
  find-keyed P name [] h e = cc
  find-keyed P name (y ∷ ys) {x = x} (p, h) e = elim (Bool-cases (bytes_eq (key y) name)) [
    | inl here ↦
        let same : some y ≡ some x = rw here at e in
        let eq : y ≡ x = cc same in
        subst (λ z. P z × (key z ≡ name)) eq (p, bytes_eq→eq (key y) name here)
    | inr later ↦ find-keyed P name ys h (rw later at e)
  ]

  abbrev Findable : List A → Bytes → Type ℓ
  Findable xs name = (x : A) × (find key name xs ≡ some x)

  find-Findable : (xs : List A) → All (Findable xs) (map key xs)
  unfolding find
  find-Findable [] = tt
  find-Findable (x ∷ xs) = (
    (x, rw (bytes_eq_refl (key x)) refl),
    All-weaken (Findable xs) (Findable (x ∷ xs)) (λ name f. behind name f) (map key xs)
        (find-Findable xs),
  )
    where
      behind : (name : Bytes) → Findable xs name → Findable (x ∷ xs) name
      behind name (y, e) = elim (Bool-cases (bytes_eq (key x) name)) [
        | inl here ↦ (x, rw here refl)
        | inr later ↦ (y, rw later e)
      ]

-- The servers of an operator are its own, and have what all servers have.
theirs-All {κ} :
    (P : Options.TimeServer → Type κ) (operator : Bytes) (servers : List Options.TimeServer)
    → All P servers
    → All (λ s. P s × (s.operator ≡ operator)) (theirs operator servers)
unfolding theirs
theirs-All P operator servers h =
    All-both P (λ s. s.operator ≡ operator) (theirs operator servers)
      (filter-All P (λ s. bytes_eq s.operator operator) servers h)
      (All-weaken (λ s. bytes_eq s.operator operator ≡ true) (λ s. s.operator ≡ operator)
        (λ s e. bytes_eq→eq s.operator operator e) (theirs operator servers)
        (All-filter (λ s. bytes_eq s.operator operator) servers))

first_named-some :
    (names : List Bytes) (own : List Options.TimeServer)
    → 0 < length names
    → All (Findable server_name own) names
    → (s : Options.TimeServer) × ((name : Bytes) × (find server_name name own ≡ some s))
      × (first_named names own ≡ some s)
unfolding first_named
first_named-some [] own h f = absurd (omega arith)
first_named-some (name ∷ names) own h ((s, e), f) = (s, (name, e), e)

length-nonempty {ℓ} : {A : Type ℓ} (xs : List A) → is_nil xs ≡ false → 0 < length xs
length-nonempty [] h = cc
length-nonempty (x ∷ xs) h = omega arith

module _ (servers : List Options.TimeServer) where
  abbrev HasServer : Bytes → Type 0
  HasServer operator = is_nil (theirs operator servers) ≡ false

  -- One server is drawn for an operator that has one: its own.
  pick-some :
      (seed index : ℕ) (operator : Bytes)
      → HasServer operator
      → (s : Options.TimeServer) × (pick servers seed index operator ≡ some s)
        × Listed servers s
        × (s.operator ≡ operator)
  unfolding pick
  pick-some seed index operator h =
      let own = theirs operator servers in
      let seed' = add_u64 seed (index + 2) in
      let count = (sample_lem (map server_name own) 1 seed').0 in
      let some_own = length-nonempty own h in
      let (s, (name, at), e) =
        first_named-some (Quorum.sample (map server_name own) 1 seed') own
          (omega (arith, count, some_own, length-map own server_name))
          (sample-All (Findable server_name own) (map server_name own) 1 seed'
            (find-Findable server_name own)) in
      let ((listed, owned), _) =
        find-keyed server_name (λ s. Listed servers s × (s.operator ≡ operator)) name own
          (theirs-All (Listed servers) operator servers (All-placed servers)) at in
      (s, e, listed, owned)

  -- The servers drawn are one for each operator, in order, and all are configured.
  picks_lem :
      (seed index : ℕ) (operators : List Bytes)
      → All HasServer operators
      → (map operator_of (picks servers seed index operators) ≡ operators)
        × All (Listed servers) (picks servers seed index operators)
  unfolding picks with_pick
  picks_lem seed index [] h = (refl, tt)
  picks_lem seed index (operator ∷ operators) (own, h) =
      let (s, e, listed, owned) = pick-some seed index operator own in
      let (same, all) = picks_lem seed (suc index) operators h in
      rw e (cc (owned, same), (listed, all))

  theirs-nonempty :
      (ss : List Options.TimeServer) (operator : Bytes)
      → All (λ s. is_nil (theirs s.operator ss) ≡ false) ss
  unfolding theirs
  theirs-nonempty [] operator = tt
  theirs-nonempty (s ∷ ss) operator = (
    rw (bytes_eq_refl s.operator) refl,
    All-weaken (λ t. is_nil (theirs t.operator ss) ≡ false)
        (λ t. is_nil (theirs t.operator (s ∷ ss)) ≡ false) (λ t k. kept t k) ss
        (theirs-nonempty ss operator),
  )
    where
      kept :
          (t : Options.TimeServer)
          → is_nil (theirs t.operator ss) ≡ false
          → is_nil (theirs t.operator (s ∷ ss)) ≡ false
      kept t k = elim (Bool-cases (bytes_eq s.operator t.operator)) [
        | inl own ↦ rw own refl
        | inr other ↦ rw other k
      ]

abbrev pub server_of : Pairing → Options.TimeServer
server_of p = p.1

abbrev pub resolver_of : Pairing → Bytes
resolver_of p = resolver_name (p.0)

-- How many pairs a configuration asks for.
abbrev pub wanted : Option (List Bytes) → Options.Options → ℕ
wanted none options = options.sample
wanted (some only) options = length only

module _ (resolvers : List Options.Resolver) where
  abbrev pub Configured : List Options.TimeServer → Pairing → Type 0
  Configured servers p = Listed resolvers (p.0) × Listed servers (p.1)

  pair_up_lem :
      (all chosen : List Options.TimeServer) (names : List Bytes)
      → All (Listed all) chosen
      → length chosen ≡ length names
      → All (Findable resolver_name resolvers) names
      → (pairs : List Pairing) × (pair_up chosen names resolvers ≡ ok pairs)
        × (map server_of pairs ≡ chosen)
        × (map resolver_of pairs ≡ names)
        × All (Configured all) pairs
  unfolding pair_up found
  pair_up_lem all [] [] l h f = ([], refl, refl, refl, tt)
  pair_up_lem all [] (name ∷ names) l h f = absurd (omega arith)
  pair_up_lem all (s ∷ chosen) [] l h f = absurd (omega arith)
  pair_up_lem all (s ∷ chosen) (name ∷ names) (here, l) h ((r, at), f) =
      let (pairs, e, servers_of, names_of, configured) =
        pair_up_lem all chosen names l (omega arith) f in
      let (listed, named) =
        find-keyed resolver_name (Listed resolvers) name resolvers (All-placed resolvers) at in
      (
        (r, s) ∷ pairs,
        rw (at, e) refl,
        ap (◌∷◌ s) servers_of,
        cc (named, names_of),
        ((listed, here), configured),
      )

-- What is chosen is as many as is asked for, of different operators, and configured.
chosen_lem :
    (only : Option (List Bytes)) (options : Options.Options) (seed : ℕ)
    → IsValid options
    → Distinct (map server_name options.servers)
    → only ≡ options.only
    → (length (chosen only options seed) ≡ wanted only options)
      × Distinct (map operator_of (chosen only options seed))
      × All (Listed options.servers) (chosen only options seed)
unfolding chosen
chosen_lem none options seed valid d own =
    let operators = Options.distinct_operators options.servers in
    let drawn = Quorum.sample operators options.sample seed in
    let (same, listed) = picks_lem options.servers seed 0 drawn (
      sample-All (HasServer options.servers) operators options.sample seed (
        distinct_operators-All (HasServer options.servers) options.servers
          (theirs-nonempty options.servers options.servers []))) in
    let count = (sample_lem operators options.sample seed).0 in
    (
      omega (
        arith,
        length-map (picks options.servers seed 0 drawn) operator_of,
        ap length same,
        count,
        valid.enough_operators,
      ),
      subst Distinct (sym same) (
          Nodup-Distinct drawn (
            sample-Nodup operators options.sample seed
              (Distinct-Nodup operators (distinct_operators-Distinct options.servers)))),
      listed,
    )
chosen_lem (some only) options seed valid d own =
    let (asked, configured, operators, resolvers) =
      subst (IsServed options) (sym own) valid.served in
    let (apart, count) = named_lem only options.servers d operators in
    (
      count,
      apart,
      unfold Options.named in
          filter-All (Listed options.servers) _ options.servers (All-placed options.servers),
    )

enough :
    (only : Option (List Bytes)) (options : Options.Options)
    → IsValid options
    → only ≡ options.only
    → wanted only options ≤ length options.resolvers
enough none options valid own = valid.enough_resolvers
enough (some only) options valid own =
    let (asked, configured, operators, resolvers) =
      subst (IsServed options) (sym own) valid.served in
    resolvers

-- For a valid configuration in which no two resolvers and no two servers have the same name, and for
-- any seed, pairs are chosen: as many as the sample, or as the names of `--only` if it is given. Each
-- is a configured resolver with a configured server, the servers are of different operators, and the
-- resolvers are different.
pub choose-Distinct :
    (options : Options.Options) (seed : ℕ)
    → IsValid options
    → Distinct (map server_name options.servers)
    → Distinct (map resolver_name options.resolvers)
    → (pairs : List Pairing) × (choose options seed ≡ ok pairs)
      × (length pairs ≡ wanted options.only options)
      × Distinct (map operator_of (map server_of pairs))
      × Distinct (map resolver_of pairs)
      × All (Configured options.resolvers options.servers) pairs
unfolding choose
choose-Distinct options seed valid servers resolvers =
    let picked = chosen options.only options seed in
    let names = map resolver_name options.resolvers in
    let drawn = Quorum.sample names (length picked) (add_u64 seed 1) in
    let (count, apart, listed) = chosen_lem options.only options seed valid servers refl in
    let fit = enough options.only options valid refl in
    let size : length picked ≡ length drawn = omega (
      arith,
      (sample_lem names (length picked) (add_u64 seed 1)).0,
      count,
      fit,
      length-map options.resolvers resolver_name,
    ) in
    let (pairs, e, servers_of, names_of, configured) =
      pair_up_lem options.resolvers options.servers picked drawn listed size (
        sample-All (Findable resolver_name options.resolvers) names (length picked) (add_u64 seed 1)
          (find-Findable resolver_name options.resolvers)) in
    (
      pairs,
      rw (le→ltb-false (length drawn) (length picked) (omega (arith, size))) e,
      sym (length-map pairs server_of) ∙ ap length servers_of ∙ count,
      subst (λ ss. Distinct (map operator_of ss)) (sym servers_of) apart,
      subst Distinct (sym names_of) (
          Nodup-Distinct drawn
            (sample-Nodup names (length picked) (add_u64 seed 1) (Distinct-Nodup names resolvers))),
      configured,
    )
