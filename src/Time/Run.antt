-- ===== src/Time/Run.antt =====
-- packages/time-correction/src/main.rs: one run of the service. The pairs are asked in threads of
-- their own that share nothing which changes, so each has a world of its own; a thread without one
-- has panicked.
pub mod Sound
pub mod Dry
mod Tests
use nixos_test.Prelude.{
  ℕ, zero, suc, ◌+◌, ◌-◌, ◌*◌, ◌^◌, Bool, true, false, not, ◌||◌, Option, none, some, List, [], ◌∷◌,
  ◌++◌, map, Bytes, ltb, if◌then◌else◌, length,
}
use nixos_test.Prelude.Int.{ℤ, pos, sub_ℕ, ltb_ℤ}
use nixos_test.Prelude.Outcome.{Result, ok, err, ◌>>=◌, ◌>>◌, require}
use nixos_test.Prelude.Stateful
use nixos_test.Prelude.Stateful.{Stateful, lift, pure, map_err}
use nixos_test.Prelude.Text.{codes, is_nil}
use nixos_test.Time.Deferred
use nixos_test.Time.Quorum
use nixos_test.Time.Quorum.{Answer}
use nixos_test.Time.Options
use nixos_test.Time.Options.{UsageError}
use nixos_test.Time.Choose
use nixos_test.Time.Choose.{Pairing}
use nixos_test.Time.Network.{Network}
use nixos_test.Time.Pair
use nixos_test.Time.Pair.{PairError}

-- An instant by its distance from the epoch, in whole seconds.
pub data Instant : Type 0 where
  since : (seconds : ℕ) → Instant
  before : (seconds : ℕ) → Instant

-- Why one pair gave no answer.
pub data Failure : Type 0 where
  no_trust_store : Failure
  thread_panicked : Failure
  failed : (server resolver : Bytes) (reason : PairError) → Failure

pub data RunError : Type 0 where
  not_chosen : Choose.ChooseError → RunError
  pairs_failed : (pairs : ℕ) (failures : List Failure) → RunError
  refused : Quorum.Refusal → RunError
  clock_too_far : RunError
  cannot_set : (seconds : ℤ) → RunError
  panicked : RunError

-- What a run that succeeded has printed.
pub data Report : Type 0 where
  clock_set : (seconds : ℤ) → Report
  would_set : (seconds : ℤ) → Report
  left_alone : (now : ℤ) (window : Deferred.Window) → Report
  would_leave : (now : ℤ) (window : Deferred.Window) → Report

unfoldable pub needs_setting : ℤ → Option Deferred.Window → Bool
needs_setting now none = true
needs_setting now (some w) = ltb_ℤ now (w.0) || ltb_ℤ (w.1) now

unfoldable pub epoch_seconds : Instant → Result RunError ℤ
epoch_seconds (since seconds) = if ltb seconds (2 ^ 63) then ok (pos seconds) else err clock_too_far
epoch_seconds (before seconds) =
    if ltb seconds (2 ^ 63) then ok (sub_ℕ 0 seconds) else err clock_too_far

-- `u64::from_ne_bytes` on a little-endian host.
unfoldable pub le_value : Bytes → ℕ
le_value [] = 0
le_value (b ∷ bytes) = b + 256 * le_value bytes

unfoldable pub seed : Option Bytes → ℕ
seed none = 0
seed (some bytes) = le_value bytes

unfoldable pub common_window : List (Option Deferred.Window) → Option Deferred.Window
common_window windows =
    if is_nil windows || Deferred.any_unknown windows
    then none
    else Deferred.intersect (Deferred.known windows)

-- The message for a clock that is inside of the window; `expect` finds one.
unfoldable pub inside_of :
    ℤ → Option Deferred.Window → Result RunError (Option (ℤ × Deferred.Window))
inside_of now none = err panicked
inside_of now (some w) = ok (some (now, w))

unfoldable pub reason_to_stand_down :
    Bool → Instant → Option Deferred.Window → Result RunError (Option (ℤ × Deferred.Window))
reason_to_stand_down force clock window =
    if force
    then ok none
    else (epoch_seconds clock >>= λ now.
        if not (needs_setting now window) then inside_of now window else ok none)

pub record Collected : Type 0 where
  pub answers : List Answer
  pub windows : List (Option Deferred.Window)
  pub failures : List Failure

unfoldable pub with_outcome :
    Pairing → Result PairError (ℤ × Option Deferred.Window) → Collected → Collected
with_outcome pair (ok reading) collected = record {
  answers =
      (record {
        operator = (pair.1).operator;
        endpoint = (pair.1).hostname ++ (codes " via " ++ (pair.0).name);
        seconds = reading.0;
      })
      ∷ collected.answers;
  windows = reading.1 ∷ collected.windows;
  failures = collected.failures;
}
with_outcome pair (err e) collected = record collected {
  failures = failed ((pair.1).name) ((pair.0).name) e ∷ collected.failures;
}

-- The times that the kernel was asked to set the clock to, the last one first.
abbrev pub Calls : Type 0
Calls = List ℤ

-- `sets` is whether the kernel lets the clock be set to a time.
unfoldable pub set_clock : (ℤ → Bool) → ℤ → Stateful Calls RunError (Unit {0})
set_clock sets seconds calls = (require (sets seconds) (cannot_set seconds), seconds ∷ calls)

-- What is left of the decision: the clock is set, or it is reported.
unfoldable pub conclude :
    Bool → Option (ℤ × Deferred.Window) → ℤ → (ℤ → Bool) → Stateful Calls RunError Report
conclude true none seconds sets = pure (would_set seconds)
conclude true (some r) seconds sets = pure (would_leave (r.0) (r.1))
conclude false none seconds sets = Stateful.◌>>◌ (set_clock sets seconds) (pure (clock_set seconds))
conclude false (some r) seconds sets = pure (left_alone (r.0) (r.1))

abbrev pub operator_of : Pairing → Bytes
operator_of p = (p.1).operator

module _ (net : Network) where
  -- What a run finds on the machine: whether the trust store loads, the random bytes of the seed, the
  -- threads' worlds, and the clock once the exchange is over.
  pub record Machine : Type 0 where
    pub trust_store : Bool
    pub seed_bytes : Option Bytes
    pub thread : ℕ → Option net.World
    pub clock : Instant

  unfoldable pub joined : Options.Options → Pairing → Option net.World → Collected → Collected
  joined options pair none collected = record collected {
    failures = thread_panicked ∷ collected.failures;
  }
  joined options pair (some w) collected =
      with_outcome pair (Pair.run_pair net (pair.0) (pair.1) options.floor options.timeout w)
        collected

  -- The loop that joins the threads, from the thread `i` on.
  unfoldable pub collect_from :
      (ℕ → Option net.World) → Options.Options → ℕ → List Pairing → Collected
  collect_from thread options i [] = record { answers = []; windows = []; failures = [] }
  collect_from thread options i (pair ∷ pairs) =
      joined options pair (thread i) (collect_from thread options (suc i) pairs)

  unfoldable pub collect_answers : Machine → Options.Options → List Pairing → Collected
  collect_answers machine options pairs =
      if machine.trust_store
      then collect_from machine.thread options 0 pairs
      else record { answers = []; windows = []; failures = no_trust_store ∷ [] }

  -- The run from the answers up to the decision: the time, and why the clock is left alone, if it is.
  unfoldable pub decided :
      Machine
      → Options.Options
      → List Pairing
      → Collected
      → Result RunError (ℤ × Option (ℤ × Deferred.Window))
  decided machine options pairs collected = do
    require (is_nil collected.failures) (pairs_failed (length pairs) collected.failures)
    seconds ←
        map_err refused (Quorum.decide (map operator_of pairs) collected.answers options.tolerance)
    reason ← reason_to_stand_down options.force machine.clock (common_window collected.windows)
    ok (seconds, reason)

  unfoldable pub verdict :
      Machine → Options.Options → Result RunError (ℤ × Option (ℤ × Deferred.Window))
  verdict machine options = do
    pairs ← map_err not_chosen (Choose.choose options (seed machine.seed_bytes))
    decided machine options pairs (collect_answers machine options pairs)

  unfoldable pub run : Machine → Options.Options → (ℤ → Bool) → Stateful Calls RunError Report
  run machine options sets =
      Stateful.◌>>=◌ (lift (verdict machine options))
        (λ v. conclude options.dry_run (v.1) (v.0) sets)
