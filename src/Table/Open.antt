-- ===== src/Table/Open.antt =====
-- processors/table/table_processer.py: `open_and_clean`. `xlrd` and `openpyxl` are parameters: each
-- gives the sheets of a file as rows of values, the text that `str` makes of each, or none where
-- the file cannot be loaded.
use orders_agent.Base.{ℕ, ◌+◌, Option, none, some, List, [], ◌∷◌}
use orders_agent.Base.Text.{Text}
use orders_agent.Table.Cell.{TextLib, new_cell}
use orders_agent.Table.Index.{Table, new_table, add_cell}

abbrev pub Values : Type 0
Values = List (List (Option Text))

-- One row: the cells that are there are added, and the empty ones are left out.
unfoldable pub add_values : TextLib → ℕ → ℕ → List (Option Text) → Table → Option Table
unfolding new_cell add_cell
add_values lib row col [] t = some t
add_values lib row col (v ∷ vs) t = elim (new_cell lib row col v) [
  | none ↦ add_values lib row (col + 1) vs t
  | some c ↦ elim (add_cell c t) [ none ↦ none | some t' ↦ add_values lib row (col + 1) vs t' ]
]

unfoldable pub add_rows : TextLib → ℕ → Values → Table → Option Table
unfolding add_values
add_rows lib row [] t = some t
add_rows lib row (vs ∷ rest) t = elim (add_values lib row 0 vs t) [
  | none ↦ none
  | some t' ↦ add_rows lib (row + 1) rest t'
]

unfoldable pub read_sheets : TextLib → List Values → Option (List Table)
unfolding add_rows
read_sheets lib [] = some []
read_sheets lib (s ∷ ss) = elim (add_rows lib 0 s new_table) [
  | none ↦ none
  | some t ↦ elim (read_sheets lib ss) [ none ↦ none | some ts ↦ some (t ∷ ts) ]
]

pub data Format : Type 0 where
  xls xlsx other : Format

pub record Loaders : Type 0 where
  -- `Path(filename).suffix`; none where `Path` raises.
  pub suffix : Option Text → Option Format
  pub load_xls : Text → Option (List Values)
  pub load_xlsx : Text → Option (List Values)

-- A file that cannot be loaded leaves `tables` as `None`: the error is returned, not raised.
abbrev opened : TextLib → Option (List Values) → Option (Option (List Table))
opened lib none = some none
opened lib (some sheets) = elim (read_sheets lib sheets) [ none ↦ none | some ts ↦ some (some ts) ]

-- `TableWorker(data, Path(filename))` and `open_and_clean`: the tables, or none for an exception.
unfoldable pub open_and_clean :
    TextLib → Loaders → Text → Option Text → Option (Option (List Table))
unfolding read_sheets
open_and_clean lib loaders data_ filename = elim (loaders.suffix filename) [
  | none ↦ none
  | some f ↦ elim f [
    | xls ↦ opened lib (loaders.load_xls data_)
    | xlsx ↦ opened lib (loaders.load_xlsx data_)
    | other ↦ none
  ]
]
