-- ===== src/Bms/Parse/Cells/Bounds.antt =====
-- packages/bms-monitoring/src/parse.rs: the aggregates bound the cells that they are made of.
use nixos_test.Prelude.{
  ℕ, ◌+◌, ◌*◌, ◌^◌, ◌<◌, ◌≡◌, refl, true, false, List, [], ◌∷◌, map, Bytes, arith, All, All-both,
  IsByte, Bool-cases, inl, inr, some, none, Option, ltb, ltb-false→le, le→ltb-false, ◌⊎◌,
}
use mathlib.Core.Path.{subst}
use nixos_test.Prelude.Int.{pos}
use nixos_test.Bms.Parse.{F64, u16_at, u16_at-word, milli}
use nixos_test.Bms.Parse.Cells.{Cell, CellAggregates, cell_at, lowest, highest, aggregate}

module _ (f64 : F64) where
  open f64 use {Double, less, less-divide}

  -- A voltage that a frame can report.
  abbrev pub IsReading : Double → Type 0
  IsReading v = (n : ℕ) × ((n < 2 ^ 32) × (v ≡ milli f64 (pos n)))

  abbrev pub IsMeasured : Cell f64 → Type 0
  IsMeasured c = IsReading c.voltage

  -- `a ≤ b`, by the test that the source makes.
  abbrev pub NotAbove : Double → Double → Type 0
  NotAbove a b = less b a ≡ false

  -- `c` is one of the cells.
  abbrev pub IsAmong : Cell f64 → List (Cell f64) → Type 0
  IsAmong c [] = ⊥
  IsAmong c (d ∷ cells) = (c ≡ d) ⊎ IsAmong c cells

  less-readings :
      (a b : ℕ) → a < 2 ^ 32 → b < 2 ^ 32 → less (milli f64 (pos a)) (milli f64 (pos b)) ≡ ltb a b
  unfolding milli
  less-readings a b h k = ground (arith, less-divide (pos a) (pos b))

  NotAbove-refl : (a : Double) → IsReading a → NotAbove a a
  NotAbove-refl a (n, (small, e)) =
      rw (e, less-readings n n small small) (le→ltb-false n n (omega arith))

  NotAbove-trans :
      (a b c : Double)
      → IsReading a
      → IsReading b
      → IsReading c
      → NotAbove a b
      → NotAbove b c
      → NotAbove a c
  NotAbove-trans a b c (l, (hl, el)) (m, (hm, em)) (n, (hn, en)) p q =
      let ab = ltb-false→le m l (rw (em, el, less-readings m l hm hl) at p) in
      let bc = ltb-false→le n m (rw (en, em, less-readings n m hn hm) at q) in
      rw (en, el, less-readings n l hn hl) (le→ltb-false n l (omega arith))

  less→NotAbove : (a b : Double) → IsReading a → IsReading b → less a b ≡ true → NotAbove a b
  less→NotAbove a b (l, (hl, el)) (m, (hm, em)) p =
      let ab : ltb l m ≡ true = rw (el, em, less-readings l m hl hm) at p in
      rw (em, el, less-readings m l hm hl) (ground (arith, ab))

  abbrev IsLowest : Cell f64 → Cell f64 → List (Cell f64) → Type 0
  IsLowest r m cells =
      IsMeasured r
      × (NotAbove r.voltage m.voltage
          × (All (λ d. NotAbove r.voltage d.voltage) cells × ((r ≡ m) ⊎ IsAmong r cells)))

  lowest-IsLowest :
      (m : Cell f64) (cells : List (Cell f64))
      → IsMeasured m
      → All IsMeasured cells
      → IsLowest (lowest f64 m cells) m cells
  unfolding lowest
  lowest-IsLowest m [] k h = (k, (NotAbove-refl m.voltage k, (tt, inl refl)))
  lowest-IsLowest m (c ∷ cells) k (j, h) = elim (Bool-cases (less c.voltage m.voltage)) [
    | inl better ↦
        let (measured, (here, (all, place))) = lowest-IsLowest c cells j h in
        subst (λ (r : Cell f64). IsLowest r m (c ∷ cells))
          (let e : lowest f64 c cells ≡ lowest f64 m (c ∷ cells) = rw better refl in e)
          (
            measured,
            (
              NotAbove-trans _ c.voltage m.voltage measured j k here
                  (less→NotAbove c.voltage m.voltage j k better),
              ((here, all), elim place [ inl e ↦ inr (inl e) | inr among ↦ inr (inr among) ]),
            ),
          )
    | inr worse ↦
        let (measured, (here, (all, place))) = lowest-IsLowest m cells k h in
        subst (λ (r : Cell f64). IsLowest r m (c ∷ cells))
          (let e : lowest f64 m cells ≡ lowest f64 m (c ∷ cells) = rw worse refl in e)
          (
            measured,
            (
              here,
              (
                (NotAbove-trans _ m.voltage c.voltage measured k j here worse, all),
                elim place [ inl e ↦ inl e | inr among ↦ inr (inr among) ],
              ),
            ),
          )
  ]

  abbrev IsHighest : Cell f64 → Cell f64 → List (Cell f64) → Type 0
  IsHighest r m cells =
      IsMeasured r
      × (NotAbove m.voltage r.voltage
          × (All (λ d. NotAbove d.voltage r.voltage) cells × ((r ≡ m) ⊎ IsAmong r cells)))

  highest-IsHighest :
      (m : Cell f64) (cells : List (Cell f64))
      → IsMeasured m
      → All IsMeasured cells
      → IsHighest (highest f64 m cells) m cells
  unfolding highest
  highest-IsHighest m [] k h = (k, (NotAbove-refl m.voltage k, (tt, inl refl)))
  highest-IsHighest m (c ∷ cells) k (j, h) = elim (Bool-cases (less m.voltage c.voltage)) [
    | inl better ↦
        let (measured, (here, (all, place))) = highest-IsHighest c cells j h in
        subst (λ (r : Cell f64). IsHighest r m (c ∷ cells))
          (let e : highest f64 c cells ≡ highest f64 m (c ∷ cells) = rw better refl in e)
          (
            measured,
            (
              NotAbove-trans m.voltage c.voltage _ k j measured
                  (less→NotAbove m.voltage c.voltage k j better) here,
              ((here, all), elim place [ inl e ↦ inr (inl e) | inr among ↦ inr (inr among) ]),
            ),
          )
    | inr worse ↦
        let (measured, (here, (all, place))) = highest-IsHighest m cells k h in
        subst (λ (r : Cell f64). IsHighest r m (c ∷ cells))
          (let e : highest f64 m cells ≡ highest f64 m (c ∷ cells) = rw worse refl in e)
          (
            measured,
            (
              here,
              (
                (NotAbove-trans c.voltage m.voltage _ j k measured worse here, all),
                elim place [ inl e ↦ inl e | inr among ↦ inr (inr among) ],
              ),
            ),
          )
  ]

  -- The cell that an aggregate names by its index and its voltage.
  abbrev pub Names : List (Cell f64) → ℕ → Double → Type 0
  Names cells index voltage =
      (c : Cell f64) × (IsAmong c cells × ((c.index ≡ index) × (c.voltage ≡ voltage)))

  abbrev pub IsAggregate : CellAggregates f64 → List (Cell f64) → Type 0
  IsAggregate a cells =
      All (λ c. NotAbove a.minimum c.voltage × NotAbove c.voltage a.maximum) cells
      × (Names cells a.min_index a.minimum × Names cells a.max_index a.maximum)

  -- What `aggregate` is to return.
  abbrev pub Aggregated : Option (CellAggregates f64) → List (Cell f64) → Type 0
  Aggregated result cells =
      ((result ≡ none) × (cells ≡ []))
      ⊎ ((a : CellAggregates f64) × ((result ≡ some a) × IsAggregate a cells))

  pub aggregate-Aggregated :
      (cells : List (Cell f64)) → All IsMeasured cells → Aggregated (aggregate f64 cells) cells
  unfolding aggregate
  aggregate-Aggregated [] h = inl (refl, refl)
  aggregate-Aggregated (first ∷ cells) h =
      let low = lowest f64 first (first ∷ cells) in
      let high = highest f64 first (first ∷ cells) in
      let (_, (_, (below, low_place))) = lowest-IsLowest first (first ∷ cells) h.0 h in
      let (_, (_, (above, high_place))) = highest-IsHighest first (first ∷ cells) h.0 h in
      inr (
        _,
        (
          refl,
          (
            All-both (λ (c : Cell f64). NotAbove low.voltage c.voltage)
                (λ (c : Cell f64). NotAbove c.voltage high.voltage) (first ∷ cells) below above,
            (
              (low, (place low low_place, (refl, refl))),
              (high, (place high high_place, (refl, refl))),
            ),
          ),
        ),
      )
    where
      place : (c : Cell f64) → (c ≡ first) ⊎ IsAmong c (first ∷ cells) → IsAmong c (first ∷ cells)
      place c (inl e) = inl e
      place c (inr among) = among

  -- The cells of a frame are such.
  pub cells-IsMeasured :
      (frame : Bytes) (slots : List ℕ)
      → All IsByte frame
      → All IsMeasured (map (cell_at f64 frame) slots)
  unfolding cell_at
  cells-IsMeasured frame [] h = tt
  cells-IsMeasured frame (k ∷ slots) h = (
    (u16_at frame (6 + 2 * k), (u16_at-word frame (6 + 2 * k) h, refl)),
    cells-IsMeasured frame slots h,
  )
