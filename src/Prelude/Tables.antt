-- ===== src/Prelude/Tables.antt =====
-- Facts about small ranges of numbers, checked by evaluation.
use Prim.Native.Nat.{ℕ, zero, suc, ◌<◌}
use mathlib.Core.Path.{◌≡◌}
use mathlib.Core.Bool.{Bool, true, ◌&&◌}
use native.Mathlib.Omega.{arith}
use nixos_test.Prelude.Tests.{&&-eq_true}

-- The test holds of `count` numbers, from zero on.
unfoldable pub holds_upto : (ℕ → Bool) → ℕ → Bool
holds_upto test zero = true
holds_upto test (suc count) = test zero && holds_upto (λ k. test (suc k)) count

pub holds_upto_lookup :
    (test : ℕ → Bool) (count : ℕ)
    → holds_upto test count ≡ true
    → (k : ℕ) → k < count
    → test k ≡ true
unfolding holds_upto
holds_upto_lookup test zero h k small = absurd (omega arith)
holds_upto_lookup test (suc count) h zero small = (&&-eq_true (test zero) _ h).0
holds_upto_lookup test (suc count) h (suc k) small =
    holds_upto_lookup (λ j. test (suc j)) count (&&-eq_true (test zero) _ h).1 k (omega arith)
