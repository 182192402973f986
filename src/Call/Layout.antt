-- ===== src/Call/Layout.antt =====
-- apps/web/src/components/call-layout.ts
use risk_p2p.Prelude.{ℕ, ◌+◌, ◌*◌, ◌≤◌, ◌<◌, max, arith, if◌then◌else◌, leb, ◌==◌}
use risk_p2p.Attachments.Checks.{ceil_div}
use risk_p2p.Attachments.WellFormed.{ceil_div_bounds}

pub record CallGridDimensions : Type 0 where
  pub columns : ℕ
  pub rows : ℕ

pub record ResponsiveCallGrid : Type 0 where
  pub portrait : CallGridDimensions
  pub compact_landscape : CallGridDimensions

portrait_columns : ℕ → ℕ
portrait_columns count = if leb count 4 then 1 else 2

compact_landscape_columns : ℕ → ℕ
compact_landscape_columns count =
    if leb count 3 then count else if count == 4 then 2 else if leb count 6 then 3 else 4

-- The number of tiles is a whole number; `ceil_div` is `Math.ceil` of the quotient.
pub responsive_call_grid : ℕ → ResponsiveCallGrid
unfolding portrait_columns compact_landscape_columns
responsive_call_grid tile_count =
    let count = max 1 tile_count in
    record {
      portrait = record {
        columns = portrait_columns count;
        rows = ceil_div count (portrait_columns count);
      };
      compact_landscape = record {
        columns = compact_landscape_columns count;
        rows = ceil_div count (compact_landscape_columns count);
      };
    }

-- The grid holds the tiles, and would not with one row less.
pub record Holds (grid : CallGridDimensions) (tiles : ℕ) : Type 0 where
  pub enough : tiles ≤ grid.rows * grid.columns
  pub tight : grid.rows * grid.columns < tiles + grid.columns
  pub some_column : 0 < grid.columns

-- Both grids hold every tile with no empty row, and in at most two and at most four columns.
pub responsive_call_grid_lem :
    (tiles : ℕ)
    → 0 < tiles
    → let grid = responsive_call_grid tiles in
      Holds grid.portrait tiles
      × Holds grid.compact_landscape tiles
      × (grid.portrait.columns ≤ 2)
      × (grid.compact_landscape.columns ≤ 4)
unfolding responsive_call_grid
responsive_call_grid_lem tiles h =
    let p = ceil_div_bounds (max 1 tiles) (portrait_columns (max 1 tiles)) (ground arith) in
    let c =
      ceil_div_bounds (max 1 tiles) (compact_landscape_columns (max 1 tiles)) (ground arith) in
    (
      record {
        enough = omega (arith, p.0);
        tight = omega (arith, p.1);
        some_column = ground arith;
      },
      record {
        enough = omega (arith, c.0);
        tight = omega (arith, c.1);
        some_column = ground arith;
      },
      ground arith,
      ground arith,
    )
