-- ===== src/Bms/Parse/Cells.antt =====
-- packages/bms-monitoring/src/parse.rs: the cells that the status bitmap names, and their
-- aggregates.
pub mod Slots
pub mod Bounds
use nixos_test.Prelude.{
  ℕ, suc, ◌+◌, ◌*◌, Bool, Option, none, some, List, [], ◌∷◌, map, Bytes, if◌then◌else◌, length,
}
use nixos_test.Prelude.Int.{pos}
use nixos_test.Prelude.Bits.{filter, range, bit_set}
use nixos_test.Bms.Parse.{F64, u16_at, milli}

module _ (f64 : F64) where
  open f64 use {Double, of_int, divide, add, subtract, less}

  -- `index` counts from one.
  pub record Cell : Type 0 where
    pub index : ℕ
    pub voltage : Double
    pub resistance : Double

  pub record CellAggregates : Type 0 where
    pub average : Double
    pub minimum : Double
    pub maximum : Double
    pub delta : Double
    pub min_index : ℕ
    pub max_index : ℕ

  -- What the loop of `aggregate` carries.
  unfoldable pub lowest : Cell → List Cell → Cell
  lowest m [] = m
  lowest m (c ∷ cells) = lowest (if less c.voltage m.voltage then c else m) cells

  unfoldable pub highest : Cell → List Cell → Cell
  highest m [] = m
  highest m (c ∷ cells) = highest (if less m.voltage c.voltage then c else m) cells

  unfoldable pub total : Double → List Cell → Double
  total sum [] = sum
  total sum (c ∷ cells) = total (add sum c.voltage) cells

  unfoldable pub aggregate : List Cell → Option CellAggregates
  aggregate [] = none
  aggregate (first ∷ cells) =
      let minimum = lowest first (first ∷ cells) in
      let maximum = highest first (first ∷ cells) in
      some (record {
        average =
            divide (total (of_int (pos 0)) (first ∷ cells)) (of_int (pos (length (first ∷ cells))));
        minimum = minimum.voltage;
        maximum = maximum.voltage;
        delta = subtract maximum.voltage minimum.voltage;
        min_index = minimum.index;
        max_index = maximum.index;
      })

  unfoldable pub cell_at : Bytes → ℕ → Cell
  cell_at frame slot = record {
    index = slot + 1;
    voltage = milli f64 (pos (u16_at frame (6 + 2 * slot)));
    resistance = milli f64 (pos (u16_at frame (80 + 2 * slot)));
  }

  unfoldable pub present_cells : Bytes → ℕ → List Cell
  present_cells frame cell_status = map (cell_at frame) (filter (bit_set cell_status) (range 32))
