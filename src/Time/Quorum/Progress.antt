-- ===== src/Time/Quorum/Progress.antt =====
-- packages/time-correction/src/quorum.rs: `decide` answers when the operators agree, and its
-- `expect`s cannot fail.
use mathlib.Core.Path.{subst}
use nixos_test.Prelude.{
  ◌≡◌, ◌≢◌, refl, ap, true, false, List, [], ◌∷◌, map, Bytes, Bool-cases, inl, inr, All, All-weaken,
  All-map, All-get_elem?, bytes_eq,
}
use nixos_test.Prelude.Int.{ℤ, Within}
use nixos_test.Prelude.Outcome.{Result, ok, err, ◌>>=◌, err-injective}
use nixos_test.Time.Quorum.{
  Answer, seconds_of, Refusal, contradicts_itself, operators_disagree, panicked, settle, vote, own,
  is_empty, answered, silent_names, votes, decide,
}
use nixos_test.Time.Quorum.Settle.{settle_complete, settle-ne-panicked}
use nixos_test.Time.Quorum.Decide.{Drawn, own-All, Drawn-answers, Votes, votes-Votes, Votes-Drawn}

-- The readings of an operator that answered: there is a first one.
own-answered :
    (p : Bytes) (answers : List Answer)
    → answered p answers ≡ true
    → (a : Answer) × (rest : List Answer) × (own p answers ≡ a ∷ rest)
unfolding own answered
own-answered p [] h = cc
own-answered p (a ∷ answers) h = elim (Bool-cases (bytes_eq a.operator p)) [
  | inl mine ↦ (a, own p answers, rw mine refl)
  | inr other ↦
      let (b, rest, e) = own-answered p answers (rw other at h) in (b, rest, rw (other, e) refl)
]

silent_names-empty :
    (sampled : List Bytes) (answers : List Answer)
    → is_empty (silent_names sampled answers) ≡ true
    → All (λ p. answered p answers ≡ true) sampled
unfolding silent_names is_empty
silent_names-empty [] answers h = tt
silent_names-empty (p ∷ sampled) answers h = elim (Bool-cases (answered p answers)) [
  | inl spoke ↦ (spoke, silent_names-empty sampled answers (rw spoke at h))
  | inr quiet ↦ cc (rw quiet at h)
]

silent_names-eq-nil :
    (sampled : List Bytes) (answers : List Answer)
    → All (λ p. answered p answers ≡ true) sampled
    → is_empty (silent_names sampled answers) ≡ true
unfolding silent_names is_empty
silent_names-eq-nil [] answers h = refl
silent_names-eq-nil (p ∷ sampled) answers (spoke, h) =
    rw spoke (silent_names-eq-nil sampled answers h)

vote-ne-panicked :
    (p : Bytes) (answers : List Answer) (c : ℤ)
    → answered p answers ≡ true
    → vote p (own p answers) c ≢ err panicked
unfolding vote
vote-ne-panicked p answers c spoke =
    let (a, rest, e) = own-answered p answers spoke in
    rw e (settle-ne-panicked a.seconds (map seconds_of rest) c (contradicts_itself p) (λ d x. cc))

votes-ne-panicked :
    (sampled : List Bytes) (answers : List Answer) (c : ℤ)
    → All (λ p. answered p answers ≡ true) sampled
    → votes sampled answers c ≢ err panicked
unfolding votes
votes-ne-panicked [] answers c h = λ e. cc
votes-ne-panicked (p ∷ sampled) answers c (spoke, h) =
    step (vote p (own p answers) c) (votes sampled answers c) (vote-ne-panicked p answers c spoke)
      (votes-ne-panicked sampled answers c h)
  where
    step :
        (v : Result Refusal ℤ) (vs : Result Refusal (List ℤ))
        → v ≢ err panicked
        → vs ≢ err panicked
        → (v >>= λ x. vs >>= λ xs. ok (x ∷ xs)) ≢ err panicked
    step (ok x) (ok xs) a b e = cc
    step (ok x) (err r) a b e = b (ap err (err-injective r panicked e))
    step (err r) vs a b e = a (ap err (err-injective r panicked e))

agree-ne-panicked :
    (sampled : List Bytes) (answers : List Answer) (c : ℤ) (v : Result Refusal (List ℤ))
    → is_empty sampled ≡ false
    → v ≢ err panicked
    → ((vs : List ℤ) → v ≡ ok vs → Votes answers c sampled vs)
    → (v >>= λ vs. settle vs c operators_disagree) ≢ err panicked
unfolding is_empty
agree-ne-panicked [] answers c v some_sampled ne own_votes e = cc
agree-ne-panicked (p ∷ sampled) answers c (err r) some_sampled ne own_votes e =
    ne (ap err (err-injective r panicked e))
agree-ne-panicked (p ∷ sampled) answers c (ok []) some_sampled ne own_votes e =
    absurd (own_votes [] refl)
agree-ne-panicked (p ∷ sampled) answers c (ok (x ∷ xs)) some_sampled ne own_votes e =
    settle-ne-panicked x xs c operators_disagree (λ d h. cc) e

-- On any input, `decide` returns a time or a refusal with a reason: the two `expect`s and the index
-- in `middle` are never reached with nothing to look at.
pub decide-ne-panicked :
    (sampled : List Bytes) (answers : List Answer) (c : ℤ) → decide sampled answers c ≢ err panicked
unfolding decide
decide-ne-panicked sampled answers c = elim (Bool-cases (is_empty sampled)) [
  | inl nothing ↦ rw nothing (λ e. cc)
  | inr some_sampled ↦ elim (Bool-cases (is_empty (silent_names sampled answers))) [
    | inr quiet ↦ rw (some_sampled, quiet) (λ e. cc)
    | inl spoke ↦
        rw (some_sampled, spoke)
          (agree-ne-panicked sampled answers c (votes sampled answers c) some_sampled
            (votes-ne-panicked sampled answers c (silent_names-empty sampled answers spoke))
            (votes-Votes sampled answers c))
  ]
]

-- What holds of every answer's reading holds of a reading that is one of them.
Drawn-has :
    (R : ℤ → Type 0) (answers : List Answer) (v : ℤ)
    → All (λ a. R a.seconds) answers
    → Drawn answers v
    → R v
Drawn-has R answers v h (a, (i, at), same) =
    subst R same (All-get_elem? (λ b. R b.seconds) answers i a h at)

-- All answers lie within `c` of one another.
abbrev pub Agreeing : List Answer → ℤ → Type 0
Agreeing answers c = All (λ a. All (λ b. Within c a.seconds b.seconds) answers) answers

Drawn-Within :
    (answers : List Answer) (c : ℤ) (vs : List ℤ)
    → Agreeing answers c
    → All (Drawn answers) vs
    → All (λ v. All (Within c v) vs) vs
Drawn-Within answers c vs agree drawn =
    All-weaken (Drawn answers) (λ v. All (Within c v) vs)
      (λ v d.
        All-weaken (Drawn answers) (Within c v)
          (λ w e.
            Drawn-has (Within c v) answers w
              (Drawn-has (λ s. All (λ b. Within c s b.seconds) answers) answers v agree d) e)
          vs drawn)
      vs drawn

vote_complete :
    (p : Bytes) (answers : List Answer) (c : ℤ)
    → answered p answers ≡ true
    → Agreeing answers c
    → (v : ℤ) × (vote p (own p answers) c ≡ ok v)
unfolding vote
vote_complete p answers c spoke agree =
    let (a, rest, e) = own-answered p answers spoke in
    let drawn =
      All-map (Drawn answers) seconds_of (own p answers)
        (own-All (λ b. Drawn answers b.seconds) p answers (Drawn-answers answers)) in
    let near = Drawn-Within answers c (map seconds_of (own p answers)) agree drawn in
    rw e (settle_complete a.seconds (map seconds_of rest) c (contradicts_itself p) (rw e at near))

votes_complete :
    (sampled : List Bytes) (answers : List Answer) (c : ℤ)
    → All (λ p. answered p answers ≡ true) sampled
    → Agreeing answers c
    → (vs : List ℤ) × (votes sampled answers c ≡ ok vs)
unfolding votes
votes_complete [] answers c h agree = ([], refl)
votes_complete (p ∷ sampled) answers c (spoke, h) agree =
    let (v, voted) = vote_complete p answers c spoke agree in
    let (vs, rest) = votes_complete sampled answers c h agree in (v ∷ vs, rw (voted, rest) refl)

settled :
    (sampled : List Bytes) (answers : List Answer) (c : ℤ) (vs : List ℤ)
    → is_empty sampled ≡ false
    → Votes answers c sampled vs
    → Agreeing answers c
    → (t : ℤ) × (settle vs c operators_disagree ≡ ok t)
unfolding is_empty
settled [] answers c vs some_sampled h agree = cc
settled (p ∷ sampled) answers c [] some_sampled h agree = absurd h
settled (p ∷ sampled) answers c (v ∷ vs) some_sampled h agree =
    settle_complete v vs c operators_disagree
      (Drawn-Within answers c (v ∷ vs) agree (Votes-Drawn (p ∷ sampled) answers c (v ∷ vs) h))

-- If something was sampled, every sampled operator answered, and all answers lie within the
-- tolerance of one another, then `decide` returns a time.
pub decide_complete :
    (sampled : List Bytes) (answers : List Answer) (c : ℤ)
    → is_empty sampled ≡ false
    → All (λ p. answered p answers ≡ true) sampled
    → Agreeing answers c
    → (t : ℤ) × (decide sampled answers c ≡ ok t)
unfolding decide
decide_complete sampled answers c some_sampled spoke agree =
    let (vs, voted) = votes_complete sampled answers c spoke agree in
    let (t, done) =
      settled sampled answers c vs some_sampled (votes-Votes sampled answers c vs voted) agree in
    (t, rw (some_sampled, silent_names-eq-nil sampled answers spoke, voted) done)
