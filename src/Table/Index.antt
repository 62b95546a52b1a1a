-- ===== src/Table/Index.antt =====
-- processors/table/table_processer.py: `Table`, with its indexes by row, column and type.
use orders_agent.Base.{
  ℕ, ◌≡◌, Bool, true, ◌&&◌, ◌↔◌, Option, none, some, List, [], ◌∷◌, ◌++◌, ◌==◌, Eq, nat_eq, arith,
  is_some, if◌then◌else◌,
}
use orders_agent.Base.Lists.{length, elem}
use orders_agent.Base.Dict.{Dict, lookup, insert, erase, contains}
use orders_agent.Table.Cell.{CellType, type_eq, Cell}

abbrev pub Position : Type 0
Position = ℕ × ℕ

abbrev pub position_beq : Position → Position → Bool
position_beq (r, c) (s, d) = r == s && c == d

pub position_beq_iff : (p q : Position) → (position_beq p q ≡ true) ↔ (p ≡ q)
position_beq_iff (r, c) (s, d) = ground arith

instance abbrev pub position_eq : Eq Position
position_eq = record { beq = position_beq; beq_iff = position_beq_iff }

pub record Table : Type 0 where
  pub cells : Dict Position Cell
  pub row_index : Dict ℕ (Dict ℕ Cell)
  pub col_index : Dict ℕ (Dict ℕ Cell)
  pub cell_index : Dict CellType (List Position)
  pub rows : List ℕ
  pub cols : List ℕ

abbrev pub new_table : Table
new_table = record {
  cells = [];
  row_index = [];
  col_index = [];
  cell_index = [];
  rows = [];
  cols = [];
}

abbrev pub position : Cell → Position
position c = (c.row, c.col)

abbrev pub size : Table → ℕ
size t = length t.cells

abbrev pub is_empty : Table → Bool
is_empty t = size t == 0

abbrev pub get : Table → ℕ → ℕ → Option Cell
get t row col = lookup (row, col) t.cells

-- An entry of a `defaultdict(dict)`.
abbrev pub line_of : ℕ → Dict ℕ (Dict ℕ Cell) → Dict ℕ Cell
line_of n index = elim (lookup n index) [ none ↦ [] | some d ↦ d ]

abbrev get_line : ℕ → List ℕ → Dict ℕ (Dict ℕ Cell) → Option (Dict ℕ Cell)
get_line n known index = if elem n known then some (line_of n index) else none

unfoldable pub get_row : Table → ℕ → Option (Dict ℕ Cell)
get_row t n = get_line n t.rows t.row_index

unfoldable pub get_col : Table → ℕ → Option (Dict ℕ Cell)
get_col t n = get_line n t.cols t.col_index

abbrev pub positions_of : CellType → Table → List Position
positions_of k t = elim (lookup k t.cell_index) [ none ↦ [] | some ps ↦ ps ]

unfoldable pub type_count : Table → CellType → ℕ
type_count t k = length (positions_of k t)

-- A set, in the order in which its elements come.
abbrev add_once : ℕ → List ℕ → List ℕ
add_once n ns = if elem n ns then ns else ns ++ n ∷ []

-- `_remove_from_indexes`: the loop over the positions stops at the position before it could delete
-- it, so the index by type stays as it is. `none` is the `KeyError` of a type that has no entry.
unfoldable pub remove_from_indexes : Cell → Table → Option Table
remove_from_indexes c t =
    if is_some (lookup c.type t.cell_index)
    then some (record t {
      row_index = insert c.row (erase c.col (line_of c.row t.row_index)) t.row_index;
      col_index = insert c.col (erase c.row (line_of c.col t.col_index)) t.col_index;
    })
    else none

-- The part of `add_cell` behind the test.
abbrev pub enter : Cell → Table → Table
enter c t = record {
  cells = insert (position c) c t.cells;
  row_index = insert c.row (insert c.col c (line_of c.row t.row_index)) t.row_index;
  col_index = insert c.col (insert c.row c (line_of c.col t.col_index)) t.col_index;
  cell_index = insert c.type (positions_of c.type t ++ position c ∷ []) t.cell_index;
  rows = add_once c.row t.rows;
  cols = add_once c.col t.cols;
}

abbrev enter_if : Cell → Option Table → Option Table
enter_if c none = none
enter_if c (some t) = some (enter c t)

unfoldable pub add_cell : Cell → Table → Option Table
unfolding remove_from_indexes
add_cell c t =
    if contains (position c) t.cells then enter_if c (remove_from_indexes c t) else some (enter c t)

abbrev then_add : Option Cell → Option Table → Option Table
then_add (some c) (some t) = add_cell c t
then_add _ _ = none

-- `from_list`, from the table `t` on.
unfoldable pub add_cells : List Cell → Table → Option Table
unfolding add_cell
add_cells [] t = some t
add_cells (c ∷ cs) t = elim (add_cell c t) [ none ↦ none | some t' ↦ add_cells cs t' ]

-- `add_cell(None)` raises.
unfoldable pub add_found : List Position → Table → Table → Option Table
unfolding add_cell
add_found [] from t = some t
add_found ((r, c) ∷ ps) from t = elim (then_add (get from r c) (some t)) [
  | none ↦ none
  | some t' ↦ add_found ps from t'
]

unfoldable pub get_by_type : CellType → Table → Option Table
unfolding add_found
get_by_type k t = add_found (positions_of k t) t new_table

abbrev pub values : Dict Position Cell → List Cell
values [] = []
values ((p, c) ∷ d) = c ∷ values d

unfoldable pub merge : Table → Table → Option Table
unfolding add_cells
merge t other = add_cells (values other.cells) t
