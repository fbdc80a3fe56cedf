-- ===== src/Time/Quorum/Decide.antt =====
-- packages/time-correction/src/quorum.rs: what `decide` believes, and what it refuses.
use nixos_test.Prelude.{
  ℕ, zero, suc, ◌≡◌, refl, false, some, List, [], ◌∷◌, map, Bytes, Bool-cases, inl, inr, length,
  get_elem?, All, All-weaken, All-map, All-placed, bytes_eq, bytes_eq_refl, true,
}
use mathlib.Core.Path.{subst}
use nixos_test.Prelude.Int.{ℤ, Within}
use nixos_test.Prelude.Outcome.{ok, err, ok-injective, >>=-eq-ok, rejected-eq_ok}
use nixos_test.Time.Quorum.{
  Answer, seconds_of, silent, contradicts_itself, operators_disagree, vote, own, is_empty, answered,
  silent_names, votes, decide,
}
use nixos_test.Time.Quorum.Settle.{settle_sound}

pub own-All {ℓ} :
    (P : Answer → Type ℓ) (p : Bytes) (answers : List Answer)
    → All P answers
    → All P (own p answers)
unfolding own
own-All P p [] h = tt
own-All P p (a ∷ answers) (x, h) = elim (Bool-cases (bytes_eq a.operator p)) [
  | inl mine ↦ rw mine (x, own-All P p answers h)
  | inr other ↦ rw other (own-All P p answers h)
]

-- The time `t` is the reading of one of the answers.
abbrev pub Drawn : List Answer → ℤ → Type 0
Drawn answers t = (a : Answer) × ((i : ℕ) × (get_elem? answers i ≡ some a)) × (a.seconds ≡ t)

pub Drawn-answers : (answers : List Answer) → All (λ a. Drawn answers a.seconds) answers
Drawn-answers answers =
    All-weaken (λ a. (i : ℕ) × (get_elem? answers i ≡ some a)) (λ a. Drawn answers a.seconds)
      (λ a place. (a, place, refl)) answers (All-placed answers)

-- Operator `p` has a vote that is within `c` of `t`, and of each of its own answers.
abbrev pub Backs : List Answer → ℤ → ℤ → Bytes → Type 0
Backs answers c t p =
    (v : ℤ) × (vote p (own p answers) c ≡ ok v)
    × Within c t v
    × All (Within c v) (map seconds_of (own p answers))

pub vote_sound :
    (p : Bytes) (answers : List Answer) (c v : ℤ)
    → vote p (own p answers) c ≡ ok v
    → All (Within c v) (map seconds_of (own p answers)) × Drawn answers v
unfolding vote
vote_sound p answers c v h =
    settle_sound (map seconds_of (own p answers)) c (contradicts_itself p) v (Drawn answers) h (
      All-map (Drawn answers) seconds_of (own p answers)
        (own-All (λ a. Drawn answers a.seconds) p answers (Drawn-answers answers)))

own-each {ℓ} :
    (P : ℤ → Type ℓ) (p : Bytes) (answers : List Answer)
    → All P (map seconds_of (own p answers))
    → All (λ a. a.operator ≡ p → P a.seconds) answers
unfolding own
own-each P p [] h = tt
own-each P p (a ∷ answers) h = elim (Bool-cases (bytes_eq a.operator p)) [
  | inl mine ↦ let (q, k) = mine_too mine h in ((λ _. q), own-each P p answers k)
  | inr other ↦ (
    (λ e. let yes' : bytes_eq a.operator p ≡ true = rw e (bytes_eq_refl p) in cc (yes', other)),
    own-each P p answers (rw other at h),
  )
]
  where
    mine_too :
        bytes_eq a.operator p ≡ true
        → All P (map seconds_of (own p (a ∷ answers)))
        → P a.seconds × All P (map seconds_of (own p answers))
    mine_too mine h = rw mine at h

-- The answer is within the tolerance of a vote that is within the tolerance of `t`.
abbrev pub Near : ℤ → ℤ → Answer → Type 0
Near c t a = (v : ℤ) × Within c t v × Within c v a.seconds

pub Backs-Near :
    (answers : List Answer) (c t : ℤ) (p : Bytes)
    → Backs answers c t p
    → All (λ a. a.operator ≡ p → Near c t a) answers
Backs-Near answers c t p (v, voted, near, all) =
    All-weaken (λ a. a.operator ≡ p → Within c v a.seconds) (λ a. a.operator ≡ p → Near c t a)
      (λ a h e. (v, near, h e)) answers (own-each (Within c v) p answers all)

-- The votes are the operators' own, in order.
abbrev pub Votes : List Answer → ℤ → List Bytes → List ℤ → Type 0
Votes answers c [] [] = Unit
Votes answers c [] (v ∷ vs) = ⊥
Votes answers c (p ∷ sampled) [] = ⊥
Votes answers c (p ∷ sampled) (v ∷ vs) =
    (vote p (own p answers) c ≡ ok v) × Votes answers c sampled vs

pub votes-Votes :
    (sampled : List Bytes) (answers : List Answer) (c : ℤ) (vs : List ℤ)
    → votes sampled answers c ≡ ok vs
    → Votes answers c sampled vs
unfolding votes
votes-Votes [] answers c [] h = tt
votes-Votes [] answers c (v ∷ vs) h = cc
votes-Votes (p ∷ sampled) answers c vs h =
    let (v, voted, h1) = >>=-eq-ok (vote p (own p answers) c) _ h in
    let (ws, rest, h2) = >>=-eq-ok (votes sampled answers c) _ h1 in
    subst (Votes answers c (p ∷ sampled)) (ok-injective (v ∷ ws) vs h2)
      (voted, votes-Votes sampled answers c ws rest)

pub Votes-Drawn :
    (sampled : List Bytes) (answers : List Answer) (c : ℤ) (vs : List ℤ)
    → Votes answers c sampled vs
    → All (Drawn answers) vs
Votes-Drawn [] answers c [] h = tt
Votes-Drawn [] answers c (v ∷ vs) h = absurd h
Votes-Drawn (p ∷ sampled) answers c [] h = absurd h
Votes-Drawn (p ∷ sampled) answers c (v ∷ vs) (voted, h) =
    ((vote_sound p answers c v voted).1, Votes-Drawn sampled answers c vs h)

Votes-Backs :
    (sampled : List Bytes) (answers : List Answer) (c : ℤ) (vs : List ℤ) (t : ℤ)
    → Votes answers c sampled vs
    → All (Within c t) vs
    → All (Backs answers c t) sampled
Votes-Backs [] answers c [] t h w = tt
Votes-Backs [] answers c (v ∷ vs) t h w = absurd h
Votes-Backs (p ∷ sampled) answers c [] t h w = absurd h
Votes-Backs (p ∷ sampled) answers c (v ∷ vs) t (voted, h) (near, w) =
    ((v, voted, near, (vote_sound p answers c v voted).0), Votes-Backs sampled answers c vs t h w)

-- A time that `decide` returns is the reading of one of the answers; something was sampled, and
-- every sampled operator voted for a reading that is within the tolerance of the time and of each
-- of its own answers.
pub decide_sound :
    (sampled : List Bytes) (answers : List Answer) (c t : ℤ)
    → decide sampled answers c ≡ ok t
    → (is_empty sampled ≡ false) × Drawn answers t × All (Backs answers c t) sampled
unfolding decide
decide_sound sampled answers c t h =
    let (some_sampled, h1) = rejected-eq_ok _ _ h in
    let (all_spoke, h2) = rejected-eq_ok _ _ h1 in
    let (vs, voted, settled) = >>=-eq-ok (votes sampled answers c) _ h2 in
    let own_votes = votes-Votes sampled answers c vs voted in
    let (near, drawn) =
      settle_sound vs c operators_disagree t (Drawn answers) settled
        (Votes-Drawn sampled answers c vs own_votes) in
    (some_sampled, drawn, Votes-Backs sampled answers c vs t own_votes near)

silent_names-nonempty :
    (sampled : List Bytes) (answers : List Answer) (i : ℕ) (p : Bytes)
    → get_elem? sampled i ≡ some p
    → answered p answers ≡ false
    → (is_empty sampled ≡ false) × (is_empty (silent_names sampled answers) ≡ false)
unfolding silent_names is_empty
silent_names-nonempty [] answers i p at quiet = cc
silent_names-nonempty (q ∷ sampled) answers zero p at quiet =
    let same : q ≡ p = cc at in (refl, rw (same, quiet) refl)
silent_names-nonempty (q ∷ sampled) answers (suc i) p at quiet =
    elim (Bool-cases (answered q answers)) [
      | inl spoke ↦ (refl, rw spoke (silent_names-nonempty sampled answers i p at quiet).1)
      | inr silent_too ↦ (refl, rw silent_too refl)
    ]

-- A sampled operator with no answer blocks the decision, whatever the others answered; the refusal
-- carries the silent names that were collected from the sample and the size of the sample.
pub decide_silent :
    (sampled : List Bytes) (answers : List Answer) (c : ℤ) (i : ℕ) (p : Bytes)
    → get_elem? sampled i ≡ some p
    → answered p answers ≡ false
    → decide sampled answers c ≡ err (silent (silent_names sampled answers) (length sampled))
unfolding decide
decide_silent sampled answers c i p at quiet =
    let (some_sampled, some_silent) = silent_names-nonempty sampled answers i p at quiet in
    rw (some_sampled, some_silent)
