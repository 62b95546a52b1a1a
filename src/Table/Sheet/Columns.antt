-- ===== src/Table/Sheet/Columns.antt =====
-- The columns that `_parse_sheet` returns have one length, the `size` of the result.
use mathlib.Core.Path.{subst}
use orders_agent.Base.{
  some_inj, ℕ, suc, ◌+◌, ◌≡◌, refl, sym, ap, ◌∙◌, Option, none, some, List, [], ◌∷◌, ◌++◌, arith,
  leb, Bool-cases, inl, inr, if◌then◌else◌,
}
use orders_agent.Base.Lists.{length, length-append}
use orders_agent.Base.Text.{Text}
use orders_agent.Base.Dict.{Dict}
use orders_agent.Table.Cell.{CellType, Cell}
use orders_agent.Table.Index.{Table, new_table, is_empty}
use orders_agent.Table.Sheet.{
  Variant, Columns, new_columns, TableParseResults, no_results, correct_row, append_row,
  append_some, collect_rows, texts, set_column, set_columns, with_size, finish_results,
  below_header, merge_types, rule_types, match_variant, header_variants, row_cols, parse_sheet,
}

-- Columns of the variant's types, each with `n` cells.
Shape : Variant → ℕ → Columns → Type 0
Shape [] n [] = Unit {0}
Shape (h ∷ hs) n ((k, cells) ∷ rest) = (length cells ≡ n) × Shape hs n rest
Shape _ n _ = ⊥

Shape-new : (v : Variant) → Shape v 0 (new_columns v)
unfolding Shape
Shape-new [] = tt
Shape-new (h ∷ hs) = (refl, Shape-new hs)

length-snoc :
    (cells : List Cell) (c : Cell) (n : ℕ) → length cells ≡ n → length (cells ++ c ∷ []) ≡ n + 1
length-snoc cells c n h = omega (arith, length-append {0} cells (c ∷ []))

correct_row-length :
    (t : Table) (idx : ℕ) (cols : List ℕ) (v : Variant) (cells : List Cell)
    → correct_row t idx cols v ≡ some cells
    → length cells ≡ length v
unfolding correct_row
correct_row-length t idx [] [] cells h = ground arith
correct_row-length t idx (c ∷ cols) [] cells h = ground arith
correct_row-length t idx [] (k ∷ v) cells h = cc
correct_row-length t idx (c ∷ cols) (k ∷ v) [] h = ground arith
correct_row-length t idx (c ∷ cols) (k ∷ v) (d ∷ cells) h =
    ground (arith, correct_row-length t idx cols v cells)

Shape-append_row :
    (v : Variant) (n : ℕ) (cells : List Cell) (columns : Columns)
    → length cells ≡ length v
    → Shape v n columns
    → Shape v (n + 1) (append_row cells columns)
unfolding Shape append_row
Shape-append_row [] n [] [] e h = tt
Shape-append_row [] n (c ∷ cells) [] e h = absurd (omega arith)
Shape-append_row [] n cells (x ∷ columns) e h = absurd h
Shape-append_row (k ∷ v) n cells [] e h = absurd h
Shape-append_row (k ∷ v) n [] ((j, old) ∷ columns) e h = absurd (omega arith)
Shape-append_row (k ∷ v) n (c ∷ cells) ((j, old) ∷ columns) e h =
    (length-snoc old c n h.0, Shape-append_row v n cells columns (omega arith) h.1)

module _ (t : Table) (header : ℕ) (cols : List ℕ) (v : Variant) where
  next_row :
      (idx n : ℕ) (columns : Columns) (o : Option (List Cell))
      → correct_row t idx cols v ≡ o
      → Shape v n columns
      → (m : ℕ) × Shape v m (append_some o columns)
  next_row idx n columns none e h = (n, h)
  next_row idx n columns (some cells) e h =
      (n + 1, Shape-append_row v n cells columns (correct_row-length t idx cols v cells e) h)

  one_row :
      (idx n : ℕ) (columns : Columns)
      → Shape v n columns
      → (m : ℕ) × Shape v m
          (if leb idx header then columns else append_some (correct_row t idx cols v) columns)
  one_row idx n columns h = elim (Bool-cases (leb idx header)) [
    | inl above ↦ (n, rw above h)
    | inr below ↦
        let (m, s) = next_row idx n columns (correct_row t idx cols v) refl h in (m, rw below s)
  ]

  Shape-collect_rows :
      (rows : Dict ℕ (Dict ℕ Cell)) (n : ℕ) (columns : Columns)
      → Shape v n columns
      → (m : ℕ) × Shape v m (collect_rows t header cols v rows columns)
  unfolding collect_rows
  Shape-collect_rows [] n columns h = (n, h)
  Shape-collect_rows ((idx, row) ∷ rows) n columns h =
      let (m, s) = one_row idx n columns h in
      Shape-collect_rows rows m
        (if leb idx header then columns else append_some (correct_row t idx cols v) columns) s

-- A column is not there, or it has `n` entries.
abbrev pub HasLength : ℕ → Option (List Text) → Type 0
HasLength n none = Unit {0}
HasLength n (some vs) = length vs ≡ n

pub record HasColumns (n : ℕ) (r : TableParseResults) : Type 0 where
  pub material : HasLength n r.material
  pub width : HasLength n r.width
  pub length_ : HasLength n r.length
  pub height : HasLength n r.height
  pub amount : HasLength n r.amount
  pub barcode : HasLength n r.barcode
  pub marking : HasLength n r.marking

-- All columns have the length that `size` says.
abbrev pub IsRectangular : TableParseResults → Type 0
IsRectangular r = HasColumns r.size r

length-texts : (cells : List Cell) → length (texts cells) ≡ length cells
length-texts [] = refl
length-texts (c ∷ cells) = ap suc (length-texts cells)

HasColumns-set_column :
    (n : ℕ) (k : CellType) (vs : List Text) (r : TableParseResults)
    → length vs ≡ n
    → HasColumns n r
    → HasColumns n (set_column k vs r)
unfolding set_column
HasColumns-set_column n k vs r e h = ground arith

HasColumns-set_columns :
    (v : Variant) (n : ℕ) (columns : Columns) (r : TableParseResults)
    → Shape v n columns
    → HasColumns n r
    → HasColumns n (set_columns columns r)
unfolding Shape set_columns
HasColumns-set_columns [] n [] r s h = h
HasColumns-set_columns [] n (x ∷ columns) r s h = absurd s
HasColumns-set_columns (k ∷ v) n [] r s h = absurd s
HasColumns-set_columns (k ∷ v) n ((j, cells) ∷ columns) r s h =
    HasColumns-set_columns v n columns (set_column j (texts cells) r) s.1
      (HasColumns-set_column n j (texts cells) r (length-texts cells ∙ s.0) h)

HasColumns-none : (n : ℕ) → HasColumns n no_results
HasColumns-none n = record {
  material = tt;
  width = tt;
  length_ = tt;
  height = tt;
  amount = tt;
  barcode = tt;
  marking = tt;
}

with_size-IsRectangular :
    (n : ℕ) (r : TableParseResults) (o : Option (List Text))
    → r.material ≡ o
    → HasColumns n r
    → IsRectangular (with_size r o)
with_size-IsRectangular n r none e h = HasColumns-none 0
with_size-IsRectangular n r (some ms) e h =
    let same : length ms ≡ n = rw e at h.material in
    subst (λ k. HasColumns k (with_size r (some ms))) (sym same)
      (record {
        material = h.material;
        width = h.width;
        length_ = h.length_;
        height = h.height;
        amount = h.amount;
        barcode = h.barcode;
        marking = h.marking;
      })

finish_results-IsRectangular :
    (v : Variant) (n : ℕ) (columns : Columns)
    → Shape v n columns
    → IsRectangular (finish_results columns)
unfolding finish_results
finish_results-IsRectangular v n columns s =
    let r = set_columns columns no_results in
    with_size-IsRectangular n r r.material refl
      (HasColumns-set_columns v n columns no_results s (HasColumns-none n))

below_header-IsRectangular :
    (t : Table) (rows : Dict ℕ (Dict ℕ Cell)) (o : Option Variant) (r : TableParseResults)
    → below_header t rows o ≡ some r
    → IsRectangular r
below_header-IsRectangular t rows none r e = subst IsRectangular (some_inj e) (HasColumns-none 0)
below_header-IsRectangular t [] (some v) r e = cc
below_header-IsRectangular t ((header, row) ∷ rows) (some v) r e =
    let (m, s) =
      Shape-collect_rows t header (row_cols row) v t.row_index 0 (new_columns v) (Shape-new v) in
    subst IsRectangular (some_inj e) (finish_results-IsRectangular v m _ s)

headers-IsRectangular :
    (t : Table) (o : Option Table) (r : TableParseResults)
    → (elim o [
      | none ↦ none
      | some headers ↦
          if is_empty headers
          then some no_results
          else below_header t headers.row_index (match_variant header_variants headers.row_index)
    ])
      ≡ some r
    → IsRectangular r
headers-IsRectangular t none r e = cc
headers-IsRectangular t (some headers) r e = elim (Bool-cases (is_empty headers)) [
  | inl nothing ↦ subst IsRectangular (some_inj (rw nothing at e)) (HasColumns-none 0)
  | inr some_ ↦ below_header-IsRectangular t headers.row_index _ r (rw some_ at e)
]

-- Whatever the cells of a sheet are, the columns of its result have one length, and `size` is that
-- length.
pub parse_sheet-IsRectangular :
    (t : Table) (r : TableParseResults) → parse_sheet t ≡ some r → IsRectangular r
unfolding parse_sheet
parse_sheet-IsRectangular t r e = elim (Bool-cases (is_empty t)) [
  | inl nothing ↦ subst IsRectangular (some_inj (rw nothing at e)) (HasColumns-none 0)
  | inr some_ ↦ headers-IsRectangular t (merge_types rule_types t new_table) r (rw some_ at e)
]
