-- ===== src/Time/Run/Sound.antt =====
-- packages/time-correction/src/main.rs: when a run sets the clock, and to what.
use nixos_test.Prelude.{
  ℕ, zero, suc, ◌≡◌, ◌⊎◌, refl, sym, ap, ◌∙◌, Bool, true, false, not, ◌||◌, Option, none, some,
  List, [], ◌∷◌, map, All, All-weaken, All-both, All-get_elem?, Bool-cases, inl, inr, if◌then◌else◌,
}
use mathlib.Core.Path.{subst}
use nixos_test.Prelude.Int.{ℤ, ltb_ℤ}
use nixos_test.Prelude.Outcome.{Result, ok, err, >>=-eq-ok, require-eq_ok}
use nixos_test.Prelude.Stateful
use nixos_test.Prelude.Stateful.{map_err, map_err-eq_ok}
use nixos_test.Prelude.Text.{is_nil}
use nixos_test.Time.Deferred
use nixos_test.Time.Quorum
use nixos_test.Time.Quorum.{Answer}
use nixos_test.Time.Quorum.Decide.{Backs, Near, Backs-Near, decide_sound}
use nixos_test.Time.Options
use nixos_test.Time.Choose
use nixos_test.Time.Choose.{Pairing}
use nixos_test.Time.Choose.Independent.{Listed}
use nixos_test.Time.Network.{Network}
use nixos_test.Time.Pair
use nixos_test.Time.Pair.Attested.{Attested, run_pair-Attested}
use nixos_test.Time.Run
use nixos_test.Time.Run.{
  Machine, Collected, Report, RunError, Calls, cannot_set, clock_set, would_set, left_alone,
  would_leave, operator_of,
}

All-unmap {ℓ κ μ} :
    {A : Type ℓ} {B : Type κ} (P : B → Type μ) (f : A → B) (xs : List A)
    → All P (map f xs)
    → All (λ x. P (f x)) xs
All-unmap P f [] h = tt
All-unmap P f (x ∷ xs) (p, h) = (p, All-unmap P f xs h)

-- What a run reports of a request to the kernel.
abbrev pub answer : (ℤ → Bool) → ℤ → Result RunError Report
answer sets t = if sets t then ok (clock_set t) else err (cannot_set t)

answer-set : (sets : ℤ → Bool) (t : ℤ) → sets t ≡ true → answer sets t ≡ ok (clock_set t)
answer-set sets t h = rw h refl

answer-refused : (sets : ℤ → Bool) (t : ℤ) → sets t ≡ false → answer sets t ≡ err (cannot_set t)
answer-refused sets t h = rw h refl

module _ (net : Network) (options : Options.Options) where
  -- A pair's answer at the time `t` is attested.
  abbrev pub Vouches : Pairing → ℤ → Type 0
  Vouches p t = (window : Option Deferred.Window) × Attested net (p.0) (p.1) options.floor t window

  abbrev Answers : List Answer → Pairing → Type 0
  Answers answers p =
      (a : Answer) × Listed answers a × (a.operator ≡ operator_of p) × Vouches p a.seconds

  abbrev IsFrom : List Pairing → Answer → Type 0
  IsFrom pairs a = (p : Pairing) × Listed pairs p × Vouches p a.seconds

  -- Without a failure, every pair has answered and every answer is a pair's.
  abbrev Complete : List Pairing → Collected → Type 0
  Complete pairs c =
      is_nil c.failures ≡ true → All (Answers c.answers) pairs × All (IsFrom pairs) c.answers

  with_outcome-Complete :
      (p : Pairing) (pairs : List Pairing)
      (outcome : Result Pair.PairError (ℤ × Option Deferred.Window)) (c : Collected)
      → ((reading : ℤ × Option Deferred.Window)
          → outcome ≡ ok reading
          → Attested net (p.0) (p.1) options.floor (reading.0) (reading.1))
      → Complete pairs c
      → Complete (p ∷ pairs) (Run.with_outcome p outcome c)
  unfolding Run.with_outcome
  with_outcome-Complete p pairs (err e) c h k = λ clean. cc
  with_outcome-Complete p pairs (ok reading) c h k = λ clean.
      let (answered, from) = k clean in
      (
        (
          (_, (zero, refl), refl, (reading.1, h reading refl)),
          All-weaken (Answers c.answers) _
              (λ q (a, (i, at), same, rest). (a, (suc i, at), same, rest)) pairs answered,
        ),
        (
          (p, (zero, refl), (reading.1, h reading refl)),
          All-weaken (IsFrom pairs) (IsFrom (p ∷ pairs))
              (λ a (q, (i, at), rest). (q, (suc i, at), rest)) c.answers from,
        ),
      )

  joined-Complete :
      (p : Pairing) (pairs : List Pairing) (world : Option net.World) (c : Collected)
      → Complete pairs c
      → Complete (p ∷ pairs) (Run.joined net options p world c)
  unfolding Run.joined
  joined-Complete p pairs none c k = λ clean. cc
  joined-Complete p pairs (some w) c k =
      with_outcome-Complete p pairs (Pair.run_pair net (p.0) (p.1) options.floor options.timeout w)
        c (λ reading h. run_pair-Attested net (p.0) (p.1) options.floor options.timeout w reading h)
        k

  collect_from-Complete :
      (thread : ℕ → Option net.World) (i : ℕ) (pairs : List Pairing)
      → Complete pairs (Run.collect_from net thread options i pairs)
  unfolding Run.collect_from
  collect_from-Complete thread i [] = λ clean. (tt, tt)
  collect_from-Complete thread i (p ∷ pairs) =
      joined-Complete p pairs (thread i) (Run.collect_from net thread options (suc i) pairs)
        (collect_from-Complete thread (suc i) pairs)

  collect_answers-Complete :
      (machine : Machine net) (pairs : List Pairing)
      → Complete pairs (Run.collect_answers net machine options pairs)
  unfolding Run.collect_answers
  collect_answers-Complete machine pairs = loaded machine.trust_store
    where
      loaded :
          (b : Bool)
          → Complete pairs (
              if b
              then Run.collect_from net machine.thread options 0 pairs
              else record { answers = []; windows = []; failures = Run.no_trust_store ∷ [] })
      loaded true = collect_from-Complete machine.thread 0 pairs
      loaded false = λ clean. cc

  -- The clock may be set: by force, or because it is known to be outside of the window in which all
  -- certificates are valid, or no such window is known.
  abbrev pub MaySet : Run.Instant → Option Deferred.Window → Type 0
  MaySet clock window =
      (options.force ≡ true)
      ⊎ ((now : ℤ) × (Run.epoch_seconds clock ≡ ok now) × (Run.needs_setting now window ≡ true))

  needs_setting_of :
      (now : ℤ) (window : Option Deferred.Window)
      → (if not (Run.needs_setting now window) then Run.inside_of now window else ok none) ≡ ok none
      → Run.needs_setting now window ≡ true
  unfolding Run.needs_setting Run.inside_of
  needs_setting_of now none e = refl
  needs_setting_of now (some w) e = elim (Bool-cases (ltb_ℤ now (w.0) || ltb_ℤ (w.1) now)) [
    | inl needed ↦ needed
    | inr inside ↦ let no : Run.inside_of now (some w) ≡ ok none = rw inside at e in cc no
  ]

  reason-MaySet :
      (force : Bool) (clock : Run.Instant) (window : Option Deferred.Window)
      → Run.reason_to_stand_down force clock window ≡ ok none
      → (force ≡ true)
        ⊎ ((now : ℤ) × (Run.epoch_seconds clock ≡ ok now) × (Run.needs_setting now window ≡ true))
  unfolding Run.reason_to_stand_down
  reason-MaySet true clock window h = inl refl
  reason-MaySet false clock window h =
      let (now, read, h1) = >>=-eq-ok (Run.epoch_seconds clock) _ h in
      inr (now, read, needs_setting_of now window h1)

  conclude-asked :
      (dry_run : Bool) (reason : Option (ℤ × Deferred.Window)) (seconds : ℤ) (sets : ℤ → Bool)
      {t : ℤ} {later : Calls} {result : Result RunError Report}
      → Run.conclude dry_run reason seconds sets [] ≡ (result, t ∷ later)
      → (dry_run ≡ false)
        × (reason ≡ none)
        × (seconds ≡ t)
        × (later ≡ [])
        × (result ≡ answer sets t)
  unfolding Run.conclude Run.set_clock
  conclude-asked true none seconds sets h = cc
  conclude-asked true (some r) seconds sets h = cc
  conclude-asked false none seconds sets {t = t} {result = result} h =
      elim (Bool-cases (sets seconds)) [
        | inl lets ↦
            let e : (ok (clock_set seconds), seconds ∷ []) ≡ (result, t ∷ _) = rw lets at h in
            let said : ok (clock_set seconds) ≡ result = cc e in
            let same : seconds ≡ t = cc e in
            (
              refl,
              refl,
              same,
              cc e,
              sym (answer-set sets seconds lets ∙ said) ∙ ap (answer sets) same,
            )
        | inr refuses ↦
            let e : (err (cannot_set seconds), seconds ∷ []) ≡ (result, t ∷ _) = rw refuses at h in
            let said : err (cannot_set seconds) ≡ result = cc e in
            let same : seconds ≡ t = cc e in
            (
              refl,
              refl,
              same,
              cc e,
              sym (answer-refused sets seconds refuses ∙ said) ∙ ap (answer sets) same,
            )
      ]
  conclude-asked false (some r) seconds sets h = cc

  -- What stands behind a time that the clock was set to.
  pub record Settled (machine : Machine net) (t : ℤ) : Type 0 where
    pub pairs : List Pairing
    pub chosen : Choose.choose options (Run.seed machine.seed_bytes) ≡ ok pairs
    pub some_pair : is_nil pairs ≡ false
    pub drawn : (p : Pairing) × Listed pairs p × Vouches p t
    pub agreed :
        All
          (λ p.
            (a : Answer) × (a.operator ≡ operator_of p)
            × Vouches p a.seconds
            × Near options.tolerance t a)
          pairs
    pub may_set :
        MaySet machine.clock
          (Run.common_window (Run.collect_answers net machine options pairs).windows)

  -- The pair's answer is one of the answers, and those of its operator are near the time set.
  agreed_of :
      (answers : List Answer) (t : ℤ) (p : Pairing)
      → Answers answers p
      → Backs answers options.tolerance t (operator_of p)
      → (a : Answer) × (a.operator ≡ operator_of p)
        × Vouches p a.seconds
        × Near options.tolerance t a
  agreed_of answers t p (a, (i, at), same, vouched) backs = (
    a,
    same,
    vouched,
    All-get_elem? _ answers i a (Backs-Near answers options.tolerance t (operator_of p) backs) at
        same,
  )

  decide-Settled :
      (machine : Machine net) (pairs : List Pairing) (t : ℤ)
      → Choose.choose options (Run.seed machine.seed_bytes) ≡ ok pairs
      → (c : Collected) → c ≡ Run.collect_answers net machine options pairs
      → Complete pairs c
      → is_nil c.failures ≡ true
      → Quorum.decide (map operator_of pairs) c.answers options.tolerance ≡ ok t
      → MaySet machine.clock (Run.common_window c.windows)
      → Settled machine t
  unfolding Quorum.is_empty
  decide-Settled machine pairs t chosen c own complete clean dec may =
      let (answered, from) = complete clean in
      let (some_sampled, (a, (i, at), read), backs) =
        decide_sound (map operator_of pairs) c.answers options.tolerance t dec in
      record {
        pairs = pairs;
        chosen = chosen;
        some_pair = some_of pairs some_sampled;
        drawn =
            subst (λ u. (p : Pairing) × Listed pairs p × Vouches p u) read
              (All-get_elem? (IsFrom pairs) c.answers i a from at);
        agreed =
            All-weaken
              (λ p. Answers c.answers p × Backs c.answers options.tolerance t (operator_of p)) _
              (λ p (here, backed). agreed_of c.answers t p here backed) pairs
              (All-both (Answers c.answers) _ pairs answered
                (All-unmap (Backs c.answers options.tolerance t) operator_of pairs backs));
        may_set =
            subst (λ (k : Collected). MaySet machine.clock (Run.common_window k.windows)) own may;
      }
    where
      some_of :
          (ps : List Pairing) → Quorum.is_empty (map operator_of ps) ≡ false → is_nil ps ≡ false
      some_of [] h = cc h
      some_of (p ∷ ps) h = refl

  verdict-Settled :
      (machine : Machine net) (seconds : ℤ)
      → Run.verdict net machine options ≡ ok (seconds, none)
      → Settled machine seconds
  unfolding Run.verdict Run.decided
  verdict-Settled machine seconds h =
      let (pairs, picked, h1) =
        >>=-eq-ok (map_err Run.not_chosen (Choose.choose options (Run.seed machine.seed_bytes))) _
          h in
      let chosen = map_err-eq_ok Run.not_chosen _ picked in
      let c = Run.collect_answers net machine options pairs in
      let (clean, h2) = require-eq_ok (is_nil c.failures) _ h1 in
      let (t, dec, h3) =
        >>=-eq-ok
          (map_err Run.refused (Quorum.decide (map operator_of pairs) c.answers options.tolerance))
          _ h2 in
      let (reason, stood, h4) =
        >>=-eq-ok
          (Run.reason_to_stand_down options.force machine.clock (Run.common_window c.windows)) _
          h3 in
      let same : t ≡ seconds = cc h4 in
      let no_reason : reason ≡ none = cc h4 in
      let may =
        reason-MaySet options.force machine.clock (Run.common_window c.windows)
          (stood ∙ ap ok no_reason) in
      subst (Settled machine) same (
        decide-Settled machine pairs t chosen c refl (collect_answers-Complete machine pairs) clean
          (map_err-eq_ok Run.refused _ dec) may)

  -- If a run asks the kernel to set the clock to a time, it is no dry run, it asks just once, and it
  -- reports what the kernel has answered. Pairs were chosen, at least one. The time is the attested
  -- answer of one of them, so it is no earlier than the floor; every pair has answered with an attested
  -- time that is within the tolerance of a vote within the tolerance of the time set; and the clock was
  -- outside of the window in which all the certificates are valid, or no such window was known, or the
  -- run was forced.
  pub run-Settled :
      (machine : Machine net) (sets : ℤ → Bool) {t : ℤ} {later : Calls}
      {result : Result RunError Report}
      → Run.run net machine options sets [] ≡ (result, t ∷ later)
      → (options.dry_run ≡ false) × (later ≡ []) × (result ≡ answer sets t) × Settled machine t
  unfolding Run.run
  run-Settled machine sets {t = t} h = judged (Run.verdict net machine options) refl h
    where
      judged :
          {later : Calls} {result : Result RunError Report}
          (v : Result RunError (ℤ × Option (ℤ × Deferred.Window)))
          → Run.verdict net machine options ≡ v
          → Stateful.continue (v, []) (λ v. Run.conclude options.dry_run (v.1) (v.0) sets)
            ≡ (result, t ∷ later)
          → (options.dry_run ≡ false) × (later ≡ []) × (result ≡ answer sets t) × Settled machine t
      judged (err e) own h = cc
      judged (ok (seconds, reason)) own h =
          let (wet, no_reason, same, once, said) =
            conclude-asked options.dry_run reason seconds sets h in
          (
            wet,
            once,
            said,
            subst (Settled machine) same (
                verdict-Settled machine seconds
                  (own ∙ ap (λ (r : Option (ℤ × Deferred.Window)). ok (seconds, r)) no_reason)),
          )
