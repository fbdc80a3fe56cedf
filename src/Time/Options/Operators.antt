-- ===== src/Time/Options/Operators.antt =====
-- packages/time-correction/src/main.rs: the distinct operators of some servers.
use nixos_test.Prelude.{
  ◌+◌, ◌≤◌, ◌≡◌, true, List, [], ◌∷◌, ◌++◌, map, append-nil, append_assoc, Bytes, arith, length,
  length-append, length-map, All, All-append, Bool-cases, inl, inr,
}
use mathlib.Core.Path.{subst}
use nixos_test.Prelude.Text.{member}
use nixos_test.Prelude.Distinct.{Distinct, Distinct-pushed, Distinct-filter, length-Distinct}
use nixos_test.Time.Options

abbrev pub operator_of : Options.TimeServer → Bytes
operator_of s = s.operator

abbrev pub server_name_of : Options.TimeServer → Bytes
server_name_of s = s.name

operators_from-All {ℓ} :
    (P : Bytes → Type ℓ) (seen : List Bytes) (servers : List Options.TimeServer)
    → All P seen
    → All (λ s. P (operator_of s)) servers
    → All P (Options.operators_from seen servers)
unfolding Options.operators_from
operators_from-All P seen [] h k = h
operators_from-All P seen (s ∷ servers) h (p, k) = elim (Bool-cases (member s.operator seen)) [
  | inl old ↦ rw old (operators_from-All P seen servers h k)
  | inr new ↦ rw new (
      operators_from-All P (seen ++ (s.operator ∷ [])) servers
        (All-append P seen (s.operator ∷ []) h (p, tt)) k)
]

-- What holds of the operator of every server holds of each of the distinct operators.
pub distinct_operators-All {ℓ} :
    (P : Bytes → Type ℓ) (servers : List Options.TimeServer)
    → All (λ s. P (operator_of s)) servers
    → All P (Options.distinct_operators servers)
unfolding Options.distinct_operators
distinct_operators-All P servers h = operators_from-All P [] servers tt h

operators_from-Distinct :
    (seen : List Bytes) (servers : List Options.TimeServer)
    → Distinct seen
    → Distinct (Options.operators_from seen servers)
unfolding Options.operators_from
operators_from-Distinct seen [] d = d
operators_from-Distinct seen (s ∷ servers) d = elim (Bool-cases (member s.operator seen)) [
  | inl old ↦ rw old (operators_from-Distinct seen servers d)
  | inr new ↦ rw new (
      operators_from-Distinct (seen ++ (s.operator ∷ [])) servers
        (Distinct-pushed s.operator seen new d))
]

pub distinct_operators-Distinct :
    (servers : List Options.TimeServer) → Distinct (Options.distinct_operators servers)
unfolding Options.distinct_operators
distinct_operators-Distinct servers = operators_from-Distinct [] servers tt

length-operators_from :
    (seen : List Bytes) (servers : List Options.TimeServer)
    → length (Options.operators_from seen servers) ≤ length seen + length servers
unfolding Options.operators_from
length-operators_from seen [] = omega arith
length-operators_from seen (s ∷ servers) = elim (Bool-cases (member s.operator seen)) [
  | inl old ↦ rw old (omega (arith, length-operators_from seen servers))
  | inr new ↦ rw new (
      omega (
        arith,
        length-operators_from (seen ++ (s.operator ∷ [])) servers,
        length-append seen (s.operator ∷ []),
      ))
]

-- If nothing was dropped, nothing was repeated.
operators_from-whole :
    (seen : List Bytes) (servers : List Options.TimeServer)
    → length seen + length servers ≤ length (Options.operators_from seen servers)
    → Distinct seen
    → Distinct (seen ++ map operator_of servers)
unfolding Options.operators_from
operators_from-whole seen [] h d = rw (append-nil seen) d
operators_from-whole seen (s ∷ servers) h d = elim (Bool-cases (member s.operator seen)) [
  | inl old ↦
      let k : length seen + length (s ∷ servers) ≤ length (Options.operators_from seen servers) =
        rw old at h in
      absurd (omega (arith, k, length-operators_from seen servers))
  | inr new ↦
      let k : length seen + length (s ∷ servers)
          ≤ length (Options.operators_from (seen ++ (s.operator ∷ [])) servers) =
        rw new at h in
      subst Distinct (append_assoc seen (s.operator ∷ []) (map operator_of servers)) (
        operators_from-whole (seen ++ (s.operator ∷ [])) servers
          (omega (arith, k, length-append seen (s.operator ∷ [])))
          (Distinct-pushed s.operator seen new d))
]

-- Servers with different names among those asked for: if they have as many operators as names were
-- asked for, no two share an operator, and there is one for each name.
pub named_lem :
    (only : List Bytes) (servers : List Options.TimeServer)
    → Distinct (map server_name_of servers)
    → length only ≤ length (Options.distinct_operators (Options.named only servers))
    → Distinct (map operator_of (Options.named only servers))
      × (length (Options.named only servers) ≡ length only)
unfolding Options.named Options.distinct_operators
named_lem only servers d h =
    let chosen = Options.named only servers in
    let few : length (map server_name_of chosen) ≤ length only =
      length-Distinct (map server_name_of chosen) only
        (Distinct-filter server_name_of (λ s. member s.name only) servers d) (asked servers) in
    let fit : length chosen ≤ length only = omega (arith, few, length-map chosen server_name_of) in
    (
      operators_from-whole [] chosen (omega (arith, fit, h)) tt,
      omega (arith, fit, h, length-operators_from [] chosen),
    )
  where
    asked :
        (servers : List Options.TimeServer)
        → All (λ x. member x only ≡ true) (map server_name_of (Options.named only servers))
    asked [] = tt
    asked (s ∷ servers) = elim (Bool-cases (member s.name only)) [
      | inl kept ↦ rw kept (kept, asked servers)
      | inr dropped ↦ rw dropped (asked servers)
    ]
