-- ===== src/Inverter/Parse/Identity.antt =====
-- packages/inverter-monitoring/src/parse.rs: an identity payload.
use nixos_test.Prelude.{
  ℕ, suc, ◌≡◌, refl, ap, ◌∙◌, Bool, true, false, ◌||◌, not, [], ◌∷◌, ◌++◌, Bytes, if◌then◌else◌,
  ◌==◌, ==→eq, Bool-cases, inl, inr, replicate,
}
use nixos_test.Prelude.Outcome.{Result, ok, err, rejected-eq_ok, ok-injective}
use nixos_test.Inverter.Parse.{ParseError, empty_identity, not_printable, is_graphic, all}
use mathlib.Core.Path.{subst}

-- `trim`: of a printable text, the spaces at both ends.
unfoldable pub trim_start : Bytes → Bytes
trim_start [] = []
trim_start (b ∷ bytes) = if b == b' ' then trim_start bytes else b ∷ bytes

unfoldable pub keep_end : ℕ → Bytes → Bytes
keep_end b [] = if b == b' ' then [] else b ∷ []
keep_end b (c ∷ bytes) = b ∷ c ∷ bytes

unfoldable pub trim_end : Bytes → Bytes
trim_end [] = []
trim_end (b ∷ bytes) = keep_end b (trim_end bytes)

unfoldable pub is_empty : Bytes → Bool
is_empty [] = true
is_empty (b ∷ bytes) = false

unfoldable pub parse_identity : Bytes → Result ParseError Bytes
parse_identity payload =
    if is_empty payload
    then err empty_identity
    else if not (all (λ b. is_graphic b || b == b' ') payload)
    then err not_printable
    else ok (trim_end (trim_start payload))

abbrev starts_with_space : Bytes → Bool
starts_with_space [] = false
starts_with_space (b ∷ bytes) = b == b' '

abbrev ends_with_space : Bytes → Bool
ends_with_space [] = false
ends_with_space (b ∷ []) = b == b' '
ends_with_space (b ∷ c ∷ bytes) = ends_with_space (c ∷ bytes)

-- A text that neither begins nor ends with a space.
abbrev pub IsTrimmed : Bytes → Type 0
IsTrimmed text = (starts_with_space text ≡ false) × (ends_with_space text ≡ false)

trim_start-starts : (bytes : Bytes) → starts_with_space (trim_start bytes) ≡ false
unfolding trim_start
trim_start-starts [] = refl
trim_start-starts (b ∷ bytes) = elim (Bool-cases (b == b' ')) [
  | inl space ↦ rw space (trim_start-starts bytes)
  | inr other ↦ rw other other
]

keep_end-ends :
    (b : ℕ) (kept : Bytes)
    → ends_with_space kept ≡ false
    → ends_with_space (keep_end b kept) ≡ false
unfolding keep_end
keep_end-ends b (c ∷ kept) h = h
keep_end-ends b [] h = elim (Bool-cases (b == b' ')) [
  | inl space ↦ rw space refl
  | inr other ↦ rw other other
]

trim_end-ends : (bytes : Bytes) → ends_with_space (trim_end bytes) ≡ false
unfolding trim_end
trim_end-ends [] = refl
trim_end-ends (b ∷ bytes) = keep_end-ends b (trim_end bytes) (trim_end-ends bytes)

keep_end-starts :
    (b : ℕ) (kept : Bytes) → (b == b' ') ≡ false → starts_with_space (keep_end b kept) ≡ false
unfolding keep_end
keep_end-starts b (c ∷ kept) h = h
keep_end-starts b [] h = rw h h

trim_end-starts :
    (bytes : Bytes) → starts_with_space bytes ≡ false → starts_with_space (trim_end bytes) ≡ false
unfolding trim_end
trim_end-starts [] h = refl
trim_end-starts (b ∷ bytes) h = keep_end-starts b (trim_end bytes) h

trim_start-spaces : (bytes : Bytes) → (m : ℕ) × (bytes ≡ replicate m b' ' ++ trim_start bytes)
unfolding trim_start
trim_start-spaces [] = (0, refl)
trim_start-spaces (b ∷ bytes) = elim (Bool-cases (b == b' ')) [
  | inl space ↦
      let (m, e) = trim_start-spaces bytes in
      (suc m, rw (space, ==→eq b b' ' space) (ap (λ (t : Bytes). b' ' ∷ t) e))
  | inr other ↦ (0, rw other refl)
]

-- Spaces after the end stay after it.
keep_end-behind :
    (b m : ℕ) (kept : Bytes)
    → (n : ℕ) × (b ∷ (kept ++ replicate m b' ') ≡ keep_end b kept ++ replicate n b' ')
unfolding keep_end
keep_end-behind b m (c ∷ kept) = (m, refl)
keep_end-behind b m [] = elim (Bool-cases (b == b' ')) [
  | inl space ↦ (suc m, rw (space, ==→eq b b' ' space) refl)
  | inr other ↦ (m, rw other refl)
]

trim_end-spaces : (bytes : Bytes) → (n : ℕ) × (bytes ≡ trim_end bytes ++ replicate n b' ')
unfolding trim_end
trim_end-spaces [] = (0, refl)
trim_end-spaces (b ∷ bytes) =
    let (m, e) = trim_end-spaces bytes in
    let (n, f) = keep_end-behind b m (trim_end bytes) in (n, ap (λ (t : Bytes). b ∷ t) e ∙ f)

-- The identity that is read from a payload neither begins nor ends with a space, and is the payload
-- without some spaces before and after it.
pub parse_identity-IsTrimmed :
    (payload : Bytes) {text : Bytes}
    → parse_identity payload ≡ ok text
    → IsTrimmed text
      × ((m : ℕ) × ((n : ℕ) × (payload ≡ replicate m b' ' ++ (text ++ replicate n b' '))))
unfolding parse_identity
parse_identity-IsTrimmed payload h =
    let (some_bytes, h1) = rejected-eq_ok (is_empty payload) _ h in
    let (printable, h2) =
      rejected-eq_ok (not (all (λ b. is_graphic b || b == b' ') payload)) _ h1 in
    let (m, e) = trim_start-spaces payload in
    let (n, f) = trim_end-spaces (trim_start payload) in
    subst
      (λ (text : Bytes).
        IsTrimmed text
        × ((m : ℕ) × ((n : ℕ) × (payload ≡ replicate m b' ' ++ (text ++ replicate n b' ')))))
      (ok-injective _ _ h2)
      (
        (
          trim_end-starts (trim_start payload) (trim_start-starts payload),
          trim_end-ends (trim_start payload),
        ),
        (m, (n, e ∙ ap (λ (t : Bytes). replicate m b' ' ++ t) f)),
      )
