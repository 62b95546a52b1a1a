-- ===== src/Table/Sheet.antt =====
-- processors/table/table_processer.py: the header variants, `TableParseResults` and
-- `TableWorker.simple_parser`. A dict whose keys are the types of a variant, in its order, is the
-- list of its pairs.
pub mod Columns
use orders_agent.Base.{
  ℕ, suc, ◌≡◌, Bool, true, false, ◌&&◌, ◌||◌, Option, none, some, List, [], ◌∷◌, ◌++◌, ◌==◌, leb,
  nat_eq, is_some, if◌then◌else◌, map,
}
use orders_agent.Base.Lists.{length}
use orders_agent.Base.Text.{Text}
use orders_agent.Base.Dict.{Dict}
use orders_agent.Table.Cell.{
  CellType, text, number, length_h, width_h, height_h, amount_h, mat_h, barcode_h, marking_h,
  size_h, type_beq, Cell,
}
use orders_agent.Table.Index.{Position, Table, new_table, is_empty, get, get_by_type, merge}

abbrev pub Variant : Type 0
Variant = List CellType

abbrev with_options : Variant → List Variant → List Variant
with_options head rest =
    head
    ∷ (head ++ barcode_h ∷ marking_h ∷ [])
    ∷ (head ++ barcode_h ∷ [])
    ∷ (head ++ marking_h ∷ [])
    ∷ (head ++ marking_h ∷ barcode_h ∷ [])
    ∷ rest

-- `new_header_variants`
abbrev unsorted_variants : List Variant
unsorted_variants = with_options (mat_h ∷ width_h ∷ height_h ∷ amount_h ∷ []) (
    with_options (mat_h ∷ width_h ∷ length_h ∷ amount_h ∷ [])
      (with_options (mat_h ∷ length_h ∷ height_h ∷ amount_h ∷ []) []))

abbrev longer_first : Variant → List Variant → List Variant
longer_first v [] = v ∷ []
longer_first v (w ∷ ws) =
    let later = longer_first v ws in if leb (length w) (length v) then v ∷ w ∷ ws else w ∷ later

abbrev sort_by_length : List Variant → List Variant
sort_by_length [] = []
sort_by_length (v ∷ vs) = longer_first v (sort_by_length vs)

-- `sorted(new_header_variants, key=len, reverse=True)`, which is stable.
abbrev pub header_variants : List Variant
header_variants = sort_by_length unsorted_variants

-- The keys of `columnrules1`, in its order.
abbrev pub rule_types : List CellType
rule_types = mat_h ∷ width_h ∷ height_h ∷ length_h ∷ amount_h ∷ barcode_h ∷ marking_h ∷ []

-- `match.type in columnrules1[header]`
unfoldable pub allowed : CellType → CellType → Bool
allowed mat_h t = type_beq t text
allowed width_h t = type_beq t number
allowed height_h t = type_beq t number
allowed length_h t = type_beq t number
allowed amount_h t = type_beq t number
allowed barcode_h t = type_beq t text || type_beq t number
allowed marking_h t = type_beq t text || type_beq t number
allowed _ t = false

pub record TableParseResults : Type 0 where
  pub material : Option (List Text)
  pub width : Option (List Text)
  pub length : Option (List Text)
  pub height : Option (List Text)
  pub amount : Option (List Text)
  pub barcode : Option (List Text)
  pub marking : Option (List Text)
  pub size : ℕ

abbrev pub no_results : TableParseResults
no_results = record {
  material = none;
  width = none;
  length = none;
  height = none;
  amount = none;
  barcode = none;
  marking = none;
  size = 0;
}

-- The property `empty`.
abbrev pub no_rows : TableParseResults → Bool
no_rows r = elim r.material [ none ↦ true | some _ ↦ r.size == 0 ]

-- The loop that merges the cells of each header type; an exception is none.
unfoldable pub merge_types : List CellType → Table → Table → Option Table
merge_types [] t headers = some headers
merge_types (k ∷ ks) t headers = elim (get_by_type k t) [
  | none ↦ none
  | some found ↦ elim (merge headers found) [ none ↦ none | some h ↦ merge_types ks t h ]
]

abbrev pub types_beq : List CellType → List CellType → Bool
types_beq [] [] = true
types_beq (a ∷ s) (b ∷ t) = type_beq a b && types_beq s t
types_beq _ _ = false

abbrev row_types : Dict ℕ Cell → List CellType
row_types [] = []
row_types ((col, c) ∷ d) = c.type ∷ row_types d

abbrev pub row_cols : Dict ℕ Cell → List ℕ
row_cols [] = []
row_cols ((col, c) ∷ d) = col ∷ row_cols d

-- Every row of headers has the types of the variant.
unfoldable pub all_rows_match : Variant → Dict ℕ (Dict ℕ Cell) → Bool
all_rows_match v [] = true
all_rows_match v ((idx, row) ∷ rows) = types_beq (row_types row) v && all_rows_match v rows

unfoldable pub match_variant : List Variant → Dict ℕ (Dict ℕ Cell) → Option Variant
match_variant [] rows = none
match_variant (v ∷ vs) rows = if all_rows_match v rows then some v else match_variant vs rows

abbrev pub Columns : Type 0
Columns = List (CellType × List Cell)

abbrev pub new_columns : Variant → Columns
new_columns [] = []
new_columns (h ∷ hs) = (h, []) ∷ new_columns hs

-- `values_row`, where every cell is there and has a type that its column allows.
unfoldable pub correct_row : Table → ℕ → List ℕ → Variant → Option (List Cell)
unfolding allowed
correct_row t idx (c ∷ cols) (h ∷ hs) = elim (get t idx c) [
  | none ↦ none
  | some cell ↦
      if allowed h cell.type
      then (elim (correct_row t idx cols hs) [ none ↦ none | some cells ↦ some (cell ∷ cells) ])
      else none
]
correct_row t idx [] (h ∷ hs) = none
correct_row t idx cols [] = some []

-- `results[header].append(match)` for each header.
unfoldable pub append_row : List Cell → Columns → Columns
append_row (c ∷ cs) ((h, cells) ∷ rest) = (h, cells ++ c ∷ []) ∷ append_row cs rest
append_row _ columns = columns

abbrev pub append_some : Option (List Cell) → Columns → Columns
append_some none columns = columns
append_some (some cells) columns = append_row cells columns

-- The loop over the rows below the header.
unfoldable pub collect_rows :
    Table → ℕ → List ℕ → Variant → Dict ℕ (Dict ℕ Cell) → Columns → Columns
unfolding correct_row append_row
collect_rows t header cols v [] columns = columns
collect_rows t header cols v ((idx, row) ∷ rows) columns =
    collect_rows t header cols v rows
      (if leb idx header then columns else append_some (correct_row t idx cols v) columns)

abbrev pub texts : List Cell → List Text
texts [] = []
texts (c ∷ cs) = c.value ∷ texts cs

-- The `match key`.
unfoldable pub set_column : CellType → List Text → TableParseResults → TableParseResults
set_column mat_h vs r = record r { material = some vs }
set_column width_h vs r = record r { width = some vs }
set_column length_h vs r = record r { length = some vs }
set_column height_h vs r = record r { height = some vs }
set_column amount_h vs r = record r { amount = some vs }
set_column barcode_h vs r = record r { barcode = some vs }
set_column marking_h vs r = record r { marking = some vs }
set_column _ vs r = r

unfoldable pub set_columns : Columns → TableParseResults → TableParseResults
unfolding set_column
set_columns [] r = r
set_columns ((h, cells) ∷ rest) r = set_columns rest (set_column h (texts cells) r)

abbrev pub with_size : TableParseResults → Option (List Text) → TableParseResults
with_size r none = no_results
with_size r (some ms) = record r { size = length ms }

unfoldable pub finish_results : Columns → TableParseResults
unfolding set_columns
finish_results columns = let r = set_columns columns no_results in with_size r r.material

-- The rows below the first row of headers, in the columns of that row; with no such row the
-- index 0 is out of range.
abbrev pub below_header : Table → Dict ℕ (Dict ℕ Cell) → Option Variant → Option TableParseResults
below_header t rows none = some no_results
below_header t [] (some v) = none
below_header t ((header, row) ∷ rows) (some v) =
    some (finish_results (collect_rows t header (row_cols row) v t.row_index (new_columns v)))

-- `_parse_sheet`; none is an exception.
unfoldable pub parse_sheet : Table → Option TableParseResults
unfolding merge_types all_rows_match match_variant collect_rows finish_results
parse_sheet t = if is_empty t then some no_results else elim (merge_types rule_types t new_table) [
  | none ↦ none
  | some headers ↦
      if is_empty headers
      then some no_results
      else below_header t headers.row_index (match_variant header_variants headers.row_index)
]

-- `simple_parser`, for tables that are there; with none it raises.
unfoldable pub parse_sheets : List Table → Option (List TableParseResults)
unfolding parse_sheet
parse_sheets [] = some []
parse_sheets (t ∷ ts) = elim (parse_sheet t) [
  | none ↦ none
  | some r ↦ elim (parse_sheets ts) [ none ↦ none | some rs ↦ some (r ∷ rs) ]
]

unfoldable pub simple_parser : Option (List Table) → Option (List TableParseResults)
unfolding parse_sheets
simple_parser none = none
simple_parser (some []) = none
simple_parser (some (t ∷ ts)) = parse_sheets (t ∷ ts)
