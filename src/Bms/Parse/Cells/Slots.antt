-- ===== src/Bms/Parse/Cells/Slots.antt =====
-- packages/bms-monitoring/src/parse.rs: which slots of the frame become cells.
use nixos_test.Prelude.{
  ℕ, zero, suc, ◌+◌, ◌-◌, ◌^◌, ◌≤◌, ◌<◌, ◌≡◌, refl, sym, Bool, true, List, [], ◌∷◌, map, Bytes,
  arith, All, All-map, All-weaken, Bool-cases, inl, inr,
}
use mathlib.Core.Path.{subst}
use nixos_test.Prelude.Bits.{
  filter, range, bit_set, weight, weight-filter-bit_set, Ascending, Ascending-set_bits,
}
use nixos_test.Bms.Parse.{F64}
use nixos_test.Bms.Parse.Cells.{Cell, cell_at, present_cells}

All-filter {ℓ κ} :
    {A : Type ℓ} (P : A → Type κ) (p : A → Bool) (xs : List A)
    → All P xs
    → All (λ x. P x × (p x ≡ true)) (filter p xs)
All-filter P p [] h = tt
All-filter P p (x ∷ xs) (k, h) = elim (Bool-cases (p x)) [
  | inl set ↦ rw set ((k, set), All-filter P p xs h)
  | inr clear ↦ rw clear (All-filter P p xs h)
]

pub range-All : (count : ℕ) → All (λ k. k < count) (range count)
range-All zero = tt
range-All (suc count) = (
  omega arith,
  All-map (λ k. k < suc count) suc (range count)
      (All-weaken (λ k. k < count) (λ k. suc k < suc count) (λ k h. omega arith) (range count)
        (range-All count)),
)

module _ (f64 : F64) where
  abbrev pub slot_of : Cell f64 → ℕ
  slot_of c = c.index - 1

  -- A cell read from a slot whose bit is set.
  abbrev pub IsPresent : Bytes → ℕ → Cell f64 → Type 0
  IsPresent frame status c =
      (1 ≤ c.index)
      × ((c.index ≤ 32)
          × ((bit_set status (slot_of c) ≡ true) × (c ≡ cell_at f64 frame (slot_of c))))

  slots_of-map :
      (frame : Bytes) (slots : List ℕ) → map slot_of (map (cell_at f64 frame) slots) ≡ slots
  unfolding cell_at
  slots_of-map frame [] = refl
  slots_of-map frame (k ∷ slots) =
      let e : k + 1 - 1 ≡ k = omega arith in rw (e, slots_of-map frame slots) refl

  present_cells-IsPresent :
      (frame : Bytes) (status : ℕ) → All (IsPresent frame status) (present_cells f64 frame status)
  unfolding present_cells cell_at
  present_cells-IsPresent frame status =
      All-map (IsPresent frame status) (cell_at f64 frame) (filter (bit_set status) (range 32)) (
        All-weaken _ _ here (filter (bit_set status) (range 32))
          (All-filter (λ k. k < 32) (bit_set status) (range 32) (range-All 32)))
    where
      here :
          (k : ℕ)
          → (k < 32) × (bit_set status k ≡ true)
          → IsPresent frame status (cell_at f64 frame k)
      here k (small, set) =
          let e : k + 1 - 1 ≡ k = omega arith in (omega arith, (omega arith, (rw e set, rw e refl)))

  -- The slots of the cells spell the bitmap in ascending order, so every set bit has its cell, and one
  -- only.
  pub present_cells_complete :
      (frame : Bytes) (status : ℕ)
      → status < 2 ^ 32
      → (weight (map slot_of (present_cells f64 frame status)) ≡ status)
        × Ascending (map slot_of (present_cells f64 frame status))
        × All (IsPresent frame status) (present_cells f64 frame status)
  unfolding present_cells
  present_cells_complete frame status h =
      let same = slots_of-map frame (filter (bit_set status) (range 32)) in
      (
        rw (same, weight-filter-bit_set 32 status) (omega arith),
        subst Ascending (sym same) (Ascending-set_bits 32 status),
        present_cells-IsPresent frame status,
      )
