-- ===== src/Time/Quorum/Tests.antt =====
-- packages/time-correction/src/quorum.rs: decisions, and the theorems at concrete answers.
use nixos_test.Prelude.{ℕ, ◌≡◌, refl, false, List, [], ◌∷◌, Bytes, arith, length, All, bytes_eq}
use mathlib.Core.Logic.Or
use mathlib.Core.HLevel.{⊥_prop}
use mathlib.Core.List.{Nodup, Nodup-cons, Nodup-nil, mem-cons, not-mem-nil}
use nixos_test.Prelude.Int.{ℤ, pos, ◌-ℤ◌}
use nixos_test.Prelude.Outcome.{ok, err}
use nixos_test.Time.Quorum.{
  Answer, silent, contradicts_itself, insert, sort, middle, newest, oldest, settle, vote, own,
  is_empty, answered, silent_names, votes, decide,
}
use nixos_test.Time.Quorum.Decide.{Drawn, Backs, decide_sound, decide_silent}
use nixos_test.Time.Quorum.Progress.{decide_complete}

abbrev ptb : Bytes
ptb = b'p' ∷ []

abbrev netnod : Bytes
netnod = b'n' ∷ []

abbrev answer : Bytes → ℕ → Answer
answer name t = record { operator = name; endpoint = []; seconds = pos t }

abbrev sampled : List Bytes
sampled = ptb ∷ netnod ∷ []

abbrev agreeing : List Answer
agreeing = answer ptb 1000 ∷ answer netnod 1003 ∷ answer ptb 1001 ∷ []

two_agree : decide sampled agreeing (pos 60) ≡ ok (pos 1003)
unfolding decide votes vote settle own newest oldest middle sort insert silent_names answered
    is_empty bytes_eq ◌-ℤ◌
two_agree = refl

one_contradicts :
    decide sampled (answer ptb 0 ∷ answer netnod 1003 ∷ answer ptb 1001 ∷ []) (pos 60)
    ≡ err (contradicts_itself ptb (pos 1001))
unfolding decide votes vote settle own newest oldest middle sort insert silent_names answered
    is_empty bytes_eq ◌-ℤ◌
one_contradicts = refl

decide_sound_example :
    (is_empty sampled ≡ false)
    × Drawn agreeing (pos 1003)
    × All (Backs agreeing (pos 60) (pos 1003)) sampled
decide_sound_example = decide_sound sampled agreeing (pos 60) (pos 1003) two_agree

decide_silent_example :
    decide sampled (answer ptb 1000 ∷ []) (pos 60)
    ≡ err (silent (silent_names sampled (answer ptb 1000 ∷ [])) (length sampled))
unfolding answered bytes_eq
decide_silent_example = decide_silent sampled (answer ptb 1000 ∷ []) (pos 60) 1 netnod refl refl

decide_complete_example : (t : ℤ) × (decide sampled agreeing (pos 60) ≡ ok t)
unfolding is_empty answered bytes_eq ◌-ℤ◌
decide_complete_example =
    decide_complete sampled agreeing (pos 60) refl (refl, (refl, tt)) (omega arith)

sampled-Nodup : Nodup sampled
sampled-Nodup = Nodup-cons.1 (
  (λ m. Or.elim ⊥_prop (mem-cons.0 m) (λ e. ground arith) not-mem-nil),
  Nodup-cons.1 (not-mem-nil, Nodup-nil),
)
