-- ===== src/Time/Quorum.antt =====
-- packages/time-correction/src/quorum.rs: which providers are asked, and whether their answers may
-- be believed. A `String` is its bytes. Seconds are integers: an `i64` holds every difference of two
-- timestamps that the NTP header can carry.
pub mod Settle
pub mod Decide
pub mod Progress
pub mod Sample
mod Tests
use nixos_test.Prelude.{
  ℕ, zero, suc, ◌+◌, ◌*◌, ◌/◌, ◌%◌, ◌^◌, Bool, true, false, not, ◌||◌, Option, none, some, List, [],
  ◌∷◌, ◌++◌, map, Bytes, bytes_eq, if◌then◌else◌, length, get_elem?, add_u64,
}
use nixos_test.Prelude.Int.{ℤ, pos, ◌-ℤ◌, ltb_ℤ}
use nixos_test.Prelude.Outcome.{Result, ok, err, ◌>>=◌, ok_or}
use Prim.Native.Nat.{bit_xor}

pub record Answer : Type 0 where
  pub operator : Bytes
  pub endpoint : Bytes
  pub seconds : ℤ

-- One step of SplitMix64 on `u64`: the new state.
unfoldable pub advance : ℕ → ℕ
advance state = add_u64 state 0x9E3779B97F4A7C15

-- The number that a state yields.
unfoldable pub mix : ℕ → ℕ
mix state =
    let z1 = bit_xor state (state / 2 ^ 30) * 0xBF58476D1CE4E5B9 % 2 ^ 64 in
    let z2 = bit_xor z1 (z1 / 2 ^ 27) * 0x94D049BB133111EB % 2 ^ 64 in bit_xor z2 (z2 / 2 ^ 31)

-- `pool.remove(i)`, by the element and by what is left. The source's index is in range.
module _ {ℓ} {A : Type ℓ} where
  unfoldable pub nth : A → List A → ℕ → A
  nth x xs zero = x
  nth x [] (suc i) = x
  nth x (y ∷ ys) (suc i) = nth y ys i

  unfoldable pub without : A → List A → ℕ → List A
  without x xs zero = xs
  without x [] (suc i) = []
  without x (y ∷ ys) (suc i) = x ∷ without y ys i

-- The `while` of `sample`: `count` is what is still to be picked.
unfoldable pub sample_loop : ℕ → List Bytes → ℕ → List Bytes
sample_loop zero pool state = []
sample_loop (suc count) [] state = []
sample_loop (suc count) (name ∷ names) state =
    let state' = advance state in
    let index = mix state' % length (name ∷ names) in
    nth name names index ∷ sample_loop count (without name names index) state'

unfoldable pub sample : List Bytes → ℕ → ℕ → List Bytes
sample names count seed = sample_loop count names seed

-- `sort_unstable`: integers that are equal cannot be told apart, so any sort gives this list.
unfoldable pub insert : ℤ → List ℤ → List ℤ
insert x [] = x ∷ []
insert x (y ∷ ys) = if ltb_ℤ y x then y ∷ insert x ys else x ∷ (y ∷ ys)

unfoldable pub sort : List ℤ → List ℤ
sort [] = []
sort (x ∷ xs) = insert x (sort xs)

-- `none` is the panic of an index out of range.
unfoldable pub middle : List ℤ → Option ℤ
middle values = get_elem? (sort values) (length values / 2)

-- `max` and `min` of a list whose first element is given.
unfoldable pub newest : ℤ → List ℤ → ℤ
newest m [] = m
newest m (x ∷ xs) = newest (if ltb_ℤ m x then x else m) xs

unfoldable pub oldest : ℤ → List ℤ → ℤ
oldest m [] = m
oldest m (x ∷ xs) = oldest (if ltb_ℤ x m then x else m) xs

-- The reasons for which no time is believed, with what the messages name. `panicked` is no message:
-- it stands for the two `expect("non-empty")` and the index in `middle`.
pub data Refusal : Type 0 where
  nothing_sampled : Refusal
  silent : (names : List Bytes) → (sampled : ℕ) → Refusal
  contradicts_itself : (provider : Bytes) → (spread : ℤ) → Refusal
  operators_disagree : (spread : ℤ) → Refusal
  panicked : Refusal

-- The reading that a list of readings agrees on, or the refusal that its spread calls for.
unfoldable pub settle : List ℤ → ℤ → (ℤ → Refusal) → Result Refusal ℤ
settle [] tolerance refuse = err panicked
settle (x ∷ xs) tolerance refuse =
    let spread = newest x xs -ℤ oldest x xs in
    if ltb_ℤ tolerance spread then err (refuse spread) else ok_or (middle (x ∷ xs)) panicked

abbrev pub seconds_of : Answer → ℤ
seconds_of a = a.seconds

-- `answers` are one operator's own.
unfoldable pub vote : Bytes → List Answer → ℤ → Result Refusal ℤ
vote provider answers tolerance =
    settle (map seconds_of answers) tolerance (contradicts_itself provider)

-- `answers.iter().filter(|a| &a.operator == provider)`
unfoldable pub own : Bytes → List Answer → List Answer
own provider [] = []
own provider (a ∷ answers) =
    if bytes_eq a.operator provider then a ∷ own provider answers else own provider answers

unfoldable pub is_empty {ℓ} : {A : Type ℓ} → List A → Bool
is_empty [] = true
is_empty (x ∷ xs) = false

unfoldable pub answered : Bytes → List Answer → Bool
answered provider [] = false
answered provider (a ∷ answers) = bytes_eq a.operator provider || answered provider answers

unfoldable pub silent_names : List Bytes → List Answer → List Bytes
silent_names [] answers = []
silent_names (p ∷ sampled) answers =
    if answered p answers then silent_names sampled answers else p ∷ silent_names sampled answers

-- The loop that pushes the votes; the first operator that contradicts itself ends it.
unfoldable pub votes : List Bytes → List Answer → ℤ → Result Refusal (List ℤ)
votes [] answers tolerance = ok []
votes (p ∷ sampled) answers tolerance =
    vote p (own p answers) tolerance >>= λ v. votes sampled answers tolerance >>= λ vs. ok (v ∷ vs)

unfoldable pub decide : List Bytes → List Answer → ℤ → Result Refusal ℤ
decide sampled answers tolerance =
    let quiet = silent_names sampled answers in
    if is_empty sampled
    then err nothing_sampled
    else if not (is_empty quiet)
    then err (silent quiet (length sampled))
    else (votes sampled answers tolerance >>= λ vs. settle vs tolerance operators_disagree)
