-- ===== src/Metrics/Block/Matched.antt =====
-- packages/system-metrics/src/block.rs: which report is matched with a disk, and when none is.
use nixos_test.Prelude.{
  ℕ, zero, suc, ◌+◌, ◌≡◌, ◌≢◌, ◌⊎◌, refl, sym, ap, ◌∙◌, Bool, true, false, not, ◌&&◌, Option, none,
  some, List, [], ◌∷◌, map, Bytes, arith, ==→eq, eq→==, take, get_elem?, All, inl, inr, Bool-cases,
  &&-eq_true, bytes_eq_refl, bytes_eq→eq,
}
use mathlib.Core.Path.{subst}
use nixos_test.Prelude.Outcome.{not-eq_true}
use nixos_test.Metrics.Block
use nixos_test.Metrics.Block.{Named}
use nixos_test.Metrics.Block.Nodes.{
  Addresses, smart_name_matches-Addresses, Addresses-smart_name_matches,
}

module _ {ℓ} {A : Type ℓ} where
  -- A position that is found is one of the list, and what stands there passes the test.
  position_from-some :
      (p : ℕ → A → Bool) (start : ℕ) (xs : List A) {i : ℕ}
      → Block.position_from p start xs ≡ some i
      → (k : ℕ) × (x : A) × (i ≡ start + k) × (get_elem? xs k ≡ some x) × (p i x ≡ true)
  unfolding Block.position_from
  position_from-some p start [] h = cc
  position_from-some p start (x ∷ xs) {i = i} h = elim (Bool-cases (p start x)) [
    | inl passes ↦
        let here : some start ≡ some i = rw passes at h in
        let same : start ≡ i = cc here in
        (zero, x, omega (arith, same), refl, subst (λ j. p j x ≡ true) same passes)
    | inr fails ↦
        let (k, y, e, at, passed) = position_from-some p (suc start) xs (rw fails at h) in
        (suc k, y, omega (arith, e), at, passed)
  ]

  -- Where nothing is found, nothing passes the test.
  position_from-none :
      (p : ℕ → A → Bool) (start : ℕ) (xs : List A) (k i : ℕ) {x : A}
      → Block.position_from p start xs ≡ none
      → get_elem? xs k ≡ some x
      → i ≡ start + k
      → p i x ≡ false
  unfolding Block.position_from
  position_from-none p start [] k i h at e = cc
  position_from-none p start (y ∷ xs) zero i {x} h at e = elim (Bool-cases (p start y)) [
    | inl passes ↦ let no : some start ≡ none = rw passes at h in cc no
    | inr fails ↦
        let here : start ≡ i = omega (arith, e) in
        let same : y ≡ x = cc at in
        subst (λ j. p j x ≡ false) here (subst (λ z. p start z ≡ false) same fails)
  ]
  position_from-none p start (y ∷ xs) (suc k) i h at e = elim (Bool-cases (p start y)) [
    | inl passes ↦ let no : some start ≡ none = rw passes at h in cc no
    | inr fails ↦ position_from-none p (suc start) xs k i (rw fails at h) at (omega (arith, e))
  ]

  get_elem?-map {κ} :
      {B : Type κ} (f : A → B) (xs : List A) (i : ℕ) {x : A}
      → get_elem? xs i ≡ some x
      → get_elem? (map f xs) i ≡ some (f x)
  get_elem?-map f [] i h = cc
  get_elem?-map f (x ∷ xs) zero h = ap some (cc h)
  get_elem?-map f (x ∷ xs) (suc i) h = get_elem?-map f xs i h

-- The report at an index is the first that has the disk's serial number.
abbrev pub Claims : List Named → Named → ℕ → Type 0
Claims smart disk i =
    (serial : Bytes) × (report : Named) × (disk.1 ≡ some serial)
    × (get_elem? smart i ≡ some report)
    × (report.1 ≡ some serial)
    × All (λ r. r.1 ≢ some serial) (take i smart)

-- The report at an index has a name that addresses the disk, and no disk claims it by a serial number.
abbrev pub IsFree : List Named → List Named → Named → ℕ → Type 0
IsFree disks smart disk i =
    (report : Named) × (get_elem? smart i ≡ some report)
    × Addresses (report.0) (disk.0)
    × All (λ other. ¬ Claims smart other i) disks

abbrev pub Describes : List Named → List Named → Named → Option ℕ → Type 0
Describes disks smart disk none =
    ((i : ℕ) → ¬ Claims smart disk i) × ((i : ℕ) → ¬ IsFree disks smart disk i)
Describes disks smart disk (some i) =
    Claims smart disk i ⊎ (((j : ℕ) → ¬ Claims smart disk j) × IsFree disks smart disk i)

has_serial-eq :
    (serial : Bytes) (o : Option Bytes) → Block.has_serial serial o ≡ true → o ≡ some serial
unfolding Block.has_serial
has_serial-eq serial none h = cc
has_serial-eq serial (some s) h = ap some (bytes_eq→eq s serial h)

has_serial-own : (serial : Bytes) → Block.has_serial serial (some serial) ≡ true
unfolding Block.has_serial
has_serial-own serial = bytes_eq_refl serial

has_serial-other :
    (serial : Bytes) (o : Option Bytes) → Block.has_serial serial o ≡ false → o ≢ some serial
has_serial-other serial o h = λ e.
    let own : Block.has_serial serial o ≡ true =
      ap (Block.has_serial serial) e ∙ has_serial-own serial in
    let no : true ≡ false = sym own ∙ h in cc no

abbrev first_serial : Bytes → ℕ → List Named → Option ℕ
first_serial serial start smart =
    Block.position_from (λ i (r : Named). Block.has_serial serial (r.1)) start smart

first_serial-some :
    (serial : Bytes) (start : ℕ) (smart : List Named) {i : ℕ}
    → first_serial serial start smart ≡ some i
    → (k : ℕ) × (report : Named) × (i ≡ start + k)
      × (get_elem? smart k ≡ some report)
      × (report.1 ≡ some serial)
      × All (λ (r : Named). r.1 ≢ some serial) (take k smart)
unfolding Block.position_from
first_serial-some serial start [] h = cc
first_serial-some serial start (r ∷ smart) {i = i} h =
    elim (Bool-cases (Block.has_serial serial (r.1))) [
      | inl own ↦
          let here : some start ≡ some i = rw own at h in
          let same : start ≡ i = cc here in
          (zero, r, omega (arith, same), refl, has_serial-eq serial (r.1) own, tt)
      | inr other ↦
          let (k, report, e, at, same, before) =
            first_serial-some serial (suc start) smart (rw other at h) in
          (suc k, report, omega (arith, e), at, same, (has_serial-other serial (r.1) other, before))
    ]

first_serial-at :
    (serial : Bytes) (start : ℕ) (smart : List Named) (k : ℕ) {report : Named}
    → get_elem? smart k ≡ some report
    → report.1 ≡ some serial
    → All (λ (r : Named). r.1 ≢ some serial) (take k smart)
    → first_serial serial start smart ≡ some (start + k)
unfolding Block.position_from
first_serial-at serial start [] k at own before = cc
first_serial-at serial start (r ∷ smart) zero {report} at own before =
    let same : r ≡ report = cc at in
    let serial_of : r.1 ≡ some serial = ap (λ (n : Named). n.1) same ∙ own in
    let passes : Block.has_serial serial (r.1) ≡ true =
      ap (Block.has_serial serial) serial_of ∙ has_serial-own serial in
    rw passes (ap some (omega arith))
first_serial-at serial start (r ∷ smart) (suc k) at own (here, before) =
    elim (Bool-cases (Block.has_serial serial (r.1))) [
      | inl passes ↦ absurd (here (has_serial-eq serial (r.1) passes))
      | inr fails ↦
          rw fails
            (first_serial-at serial (suc start) smart k at own before ∙ ap some (omega arith))
    ]

claim_of-Claims :
    (smart : List Named) (disk : Named) {i : ℕ}
    → Block.claim_of smart (disk.1) ≡ some i
    → Claims smart disk i
unfolding Block.claim_of
claim_of-Claims smart (name, none) h = cc
claim_of-Claims smart (name, some serial) {i = i} h =
    let (k, report, e, at, same, before) = first_serial-some serial 0 smart h in
    let same_place : k ≡ i = omega (arith, e) in
    subst (Claims smart (name, some serial)) same_place (serial, report, refl, at, same, before)

Claims-claim_of :
    (smart : List Named) (disk : Named) {i : ℕ}
    → Claims smart disk i
    → Block.claim_of smart (disk.1) ≡ some i
unfolding Block.claim_of
Claims-claim_of smart disk {i} (serial, report, has, at, same, before) =
    let place : 0 + i ≡ i = omega arith in
    rw has (first_serial-at serial 0 smart i at same before ∙ ap some place)

is_index-some : (i : ℕ) (o : Option ℕ) → Block.is_index i o ≡ true → o ≡ some i
unfolding Block.is_index
is_index-some i none h = cc
is_index-some i (some j) h = ap some (==→eq j i h)

is_index-own : (i : ℕ) (o : Option ℕ) → Block.is_index i o ≡ false → o ≢ some i
unfolding Block.is_index
is_index-own i none h = λ e. cc
is_index-own i (some j) h =
    λ e. let same : j ≡ i = cc e in let no : true ≡ false = sym (eq→== j i same) ∙ h in cc no

-- A report is claimed exactly if one of the disks claims it.
is_claimed-false :
    (smart : List Named) (i : ℕ) (disks : List Named)
    → Block.is_claimed i (Block.by_serial disks smart) ≡ false
    → All (λ other. ¬ Claims smart other i) disks
unfolding Block.is_claimed Block.by_serial
is_claimed-false smart i [] h = tt
is_claimed-false smart i (d ∷ disks) h =
    elim (Bool-cases (Block.is_index i (Block.claim_of smart (d.1)))) [
      | inl own ↦ let no : true ≡ false = rw own at h in cc no
      | inr other ↦ (
        (λ claims.
            is_index-own i (Block.claim_of smart (d.1)) other (Claims-claim_of smart d claims)),
        is_claimed-false smart i disks (rw other at h),
      )
    ]

is_claimed-true :
    (smart : List Named) (i : ℕ) (disks : List Named)
    → Block.is_claimed i (Block.by_serial disks smart) ≡ true
    → ¬ All (λ other. ¬ Claims smart other i) disks
unfolding Block.is_claimed Block.by_serial
is_claimed-true smart i [] h all = cc
is_claimed-true smart i (d ∷ disks) h (unclaimed, all) =
    elim (Bool-cases (Block.is_index i (Block.claim_of smart (d.1)))) [
      | inl own ↦ unclaimed (claim_of-Claims smart d (is_index-some i _ own))
      | inr other ↦ is_claimed-true smart i disks (rw other at h) all
    ]

module _ (disks smart : List Named) (disk : Named) where
  abbrev is_free : ℕ → Named → Bool
  is_free i r =
      not (Block.is_claimed i (Block.by_serial disks smart))
      && Block.smart_name_matches (r.0) (disk.0)

  IsFree-is_free :
      (i : ℕ) (report : Named)
      → Addresses (report.0) (disk.0)
      → All (λ other. ¬ Claims smart other i) disks
      → is_free i report ≡ true
  IsFree-is_free i report named all =
      elim (Bool-cases (Block.is_claimed i (Block.by_serial disks smart))) [
        | inl claimed ↦ absurd (is_claimed-true smart i disks claimed all)
        | inr free ↦ rw free (Addresses-smart_name_matches (report.0) (disk.0) named)
      ]

  by_name-Describes :
      (o : Option ℕ)
      → Block.claim_of smart (disk.1) ≡ none
      → Block.position_from is_free 0 smart ≡ o
      → Describes disks smart disk o
  by_name-Describes none unclaimed h = (
    (λ i claims.
        let no : none ≡ some i = sym unclaimed ∙ Claims-claim_of smart disk claims in cc no),
    (λ i (report, at, named, all).
        let no : true ≡ false =
          sym (IsFree-is_free i report named all)
          ∙ position_from-none is_free 0 smart i i h at (omega arith) in
        cc no),
  )
  by_name-Describes (some i) unclaimed h =
      let (k, report, same, at, passed) = position_from-some is_free 0 smart h in
      let (free, named) = &&-eq_true _ _ passed in
      inr (
        (λ j claims.
            let no : none ≡ some j = sym unclaimed ∙ Claims-claim_of smart disk claims in cc no),
        (
          report,
          subst (λ j. get_elem? smart j ≡ some report) (omega (arith, same)) at,
          smart_name_matches-Addresses (report.0) (disk.0) named,
          is_claimed-false smart i disks (not-eq_true _ free),
        ),
      )

  or_by_name-Describes :
      (claim : Option ℕ)
      → Block.claim_of smart (disk.1) ≡ claim
      → Describes disks smart disk
          (Block.or_by_name claim (Block.by_serial disks smart) smart (disk.0))
  unfolding Block.or_by_name
  or_by_name-Describes (some i) e = inl (claim_of-Claims smart disk e)
  or_by_name-Describes none e = by_name-Describes _ e refl

-- Every disk has an answer at its own place. A report that it names is the first that has the disk's
-- serial number; or no report has it, and the report's name is that of the disk's node or of the NVMe
-- controller of the disk's namespace, and no disk claims the report by a serial number. Where there is
-- no answer, no report has the disk's serial number, and every report whose name addresses the disk is
-- claimed by a serial number.
pub match_smart-Describes :
    (disks smart : List Named) (d : ℕ) (disk : Named)
    → get_elem? disks d ≡ some disk
    → (answer : Option ℕ) × (get_elem? (Block.match_smart disks smart) d ≡ some answer)
      × Describes disks smart disk answer
unfolding Block.match_smart
match_smart-Describes disks smart d disk at = (
  Block.or_by_name (Block.claim_of smart (disk.1)) (Block.by_serial disks smart) smart (disk.0),
  get_elem?-map _ disks d at,
  or_by_name-Describes disks smart disk (Block.claim_of smart (disk.1)) refl,
)
