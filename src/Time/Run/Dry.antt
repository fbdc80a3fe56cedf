-- ===== src/Time/Run/Dry.antt =====
-- packages/time-correction/src/main.rs: a dry run, and the run that it stands for.
use nixos_test.Prelude.{
  ℕ, suc, ◌≡◌, refl, ap, ◌∙◌, Bool, true, false, Option, none, some, List, [], ◌∷◌, Bytes,
  Bool-cases, inl, inr,
}
use mathlib.Core.Path.{fun_ext}
use nixos_test.Prelude.Int.{ℤ}
use nixos_test.Prelude.Outcome.{Result, ok, err}
use nixos_test.Prelude.Stateful
use nixos_test.Prelude.Stateful.{map_err}
use nixos_test.Time.Deferred
use nixos_test.Time.Options
use nixos_test.Time.Choose
use nixos_test.Time.Choose.{Pairing}
use nixos_test.Time.Network.{Network}
use nixos_test.Time.Run
use nixos_test.Time.Run.{
  Machine, Report, RunError, Calls, cannot_set, clock_set, would_set, left_alone, would_leave,
}
use nixos_test.Time.Run.Sound.{answer}

-- The same options, for a dry run or not.
abbrev pub dried : Bool → Options.Options → Options.Options
dried b options = record options { dry_run = b }

-- What the run does in earnest, of which a dry run gives this report.
abbrev pub acted : (ℤ → Bool) → Calls → Result RunError Report → Result RunError Report × Calls
acted sets calls (err e) = (err e, calls)
acted sets calls (ok (would_set t)) = (answer sets t, t ∷ calls)
acted sets calls (ok (would_leave now window)) = (ok (left_alone now window), calls)
acted sets calls (ok other) = (ok other, calls)

chosen-dried :
    (b : Bool) (options : Options.Options) (only : Option (List Bytes)) (seed : ℕ)
    → Choose.chosen only (dried b options) seed ≡ Choose.chosen only options seed
unfolding Choose.chosen
chosen-dried b options none seed = refl
chosen-dried b options (some names) seed = refl

choose-dried :
    (b : Bool) (options : Options.Options) (seed : ℕ)
    → Choose.choose (dried b options) seed ≡ Choose.choose options seed
unfolding Choose.choose
choose-dried b options seed = rw (chosen-dried b options options.only seed) refl

module _ (net : Network) where
  joined-dried :
      (b : Bool) (options : Options.Options) (p : Pairing) (w : Option net.World)
      (c : Run.Collected)
      → Run.joined net (dried b options) p w c ≡ Run.joined net options p w c
  unfolding Run.joined
  joined-dried b options p none c = refl
  joined-dried b options p (some w) c = refl

  collect_from-dried :
      (b : Bool) (options : Options.Options) (thread : ℕ → Option net.World) (i : ℕ)
      (pairs : List Pairing)
      → Run.collect_from net thread (dried b options) i pairs
        ≡ Run.collect_from net thread options i pairs
  unfolding Run.collect_from
  collect_from-dried b options thread i [] = refl
  collect_from-dried b options thread i (p ∷ pairs) =
      joined-dried b options p (thread i)
        (Run.collect_from net thread (dried b options) (suc i) pairs)
      ∙ ap (Run.joined net options p (thread i)) (collect_from-dried b options thread (suc i) pairs)

  decided-dried :
      (b : Bool) (options : Options.Options) (machine : Machine net) (pairs : List Pairing)
      → Run.decided net machine
          (dried b options)
          pairs
          (Run.collect_answers net machine (dried b options) pairs)
        ≡ Run.decided net machine options pairs (Run.collect_answers net machine options pairs)
  unfolding Run.collect_answers Run.decided
  decided-dried b options machine pairs =
      rw (collect_from-dried b options machine.thread 0 pairs) refl

  verdict-dried :
      (b : Bool) (options : Options.Options) (machine : Machine net)
      → Run.verdict net machine (dried b options) ≡ Run.verdict net machine options
  unfolding Run.verdict
  verdict-dried b options machine =
      rw
        (
          choose-dried b options (Run.seed machine.seed_bytes),
          fun_ext (λ (pairs : List Pairing). decided-dried b options machine pairs),
        )
        refl

  conclude-dried :
      (reason : Option (ℤ × Deferred.Window)) (seconds : ℤ) (sets : ℤ → Bool) (calls : Calls)
      → (Run.conclude false reason seconds sets calls
          ≡ acted sets calls (Run.conclude true reason seconds sets calls).0)
        × ((Run.conclude true reason seconds sets calls).1 ≡ calls)
  unfolding Run.conclude Run.set_clock
  conclude-dried (some r) seconds sets calls = (refl, refl)
  conclude-dried none seconds sets calls = elim (Bool-cases (sets seconds)) [
    | inl lets ↦ (rw lets refl, refl)
    | inr refuses ↦ (rw refuses refl, refl)
  ]

  -- A dry run asks nothing of the kernel, and tells what the same run in earnest does, whatever the
  -- kernel lets it do: where it says that it would set the clock to a time, that run asks the kernel for
  -- it, just once, and reports the kernel's answer; where it says that it would leave the clock alone,
  -- or fails, that run asks nothing, and says or fails the same.
  pub run-dry :
      (options : Options.Options) (machine : Machine net) (sets : ℤ → Bool) (calls : Calls)
      → let dry = Run.run net machine (dried true options) sets calls in
        (dry.1 ≡ calls)
        × (Run.run net machine (dried false options) sets calls ≡ acted sets calls dry.0)
  unfolding Run.run
  run-dry options machine sets calls =
      rw (verdict-dried true options machine, verdict-dried false options machine)
        (judged (Run.verdict net machine options))
    where
      judged :
          (v : Result RunError (ℤ × Option (ℤ × Deferred.Window)))
          → let dry = Stateful.continue (v, calls) (λ v. Run.conclude true (v.1) (v.0) sets) in
            (dry.1 ≡ calls)
            × (Stateful.continue (v, calls) (λ v. Run.conclude false (v.1) (v.0) sets)
                ≡ acted sets calls dry.0)
      judged (err e) = (refl, refl)
      judged (ok (seconds, reason)) =
          let (does, asks) = conclude-dried reason seconds sets calls in (asks, does)
