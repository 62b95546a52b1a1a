-- ===== src/Table/Workbook.antt =====
-- processors/table/table_processer.py: `make_request_xlsx` and `make_callculation_xlsx`. A sheet is
-- the list of the cells that are written to it; its merged ranges and row heights are left out.
-- An outer none is an exception, an inner one is the `None` of a workbook with nothing in it.
pub mod Ready
pub mod Total
pub mod Calculation
use orders_agent.Base.{
  ℕ, zero, suc, ◌+◌, Bool, true, false, Option, none, some, List, [], ◌∷◌, ◌++◌, ◌==◌, ◌||◌,
  if◌then◌else◌, is_some,
}
use orders_agent.Base.Lists.{get_elem?}
use orders_agent.Base.Text.{Text, codes, text_eq}
use orders_agent.Base.Dict.{Dict, lookup}
use orders_agent.Materials.Block.{ℤ}
use orders_agent.Materials.Parser.{ParseResults}
use orders_agent.Table.Config.{headers_calculation}
use orders_agent.Table.Sheet.{TableParseResults, no_rows}

pub data CellValue : Type 0 where
  text : Option Text → CellValue
  int : ℤ → CellValue
  index : ℕ → CellValue

-- `ws.cell(row=..., column=..., value=...)`
pub record Write : Type 0 where
  pub row : ℕ
  pub column : ℕ
  pub value : CellValue

abbrev pub write : ℕ → ℕ → CellValue → Write
write r c v = record { row = r; column = c; value = v }

-- "Sheet {i}", or "Sheet1".
pub data Title : Type 0 where
  numbered : ℕ → Title
  sheet1 : Title

pub record Sheet : Type 0 where
  pub title : Title
  pub writes : List Write

abbrev text_at : ℕ → ℕ → Text → Write
text_at r c s = write r c (text (some s))

abbrev header_row : ℕ → List Text → List Write
header_row c [] = []
header_row c (s ∷ ss) = text_at 2 c s ∷ header_row (c + 1) ss

request_headers : List Write
request_headers =
    text_at 1 11 (codes "Характеристики")
    ∷ text_at 1 14 (codes "Доп. информация")
    ∷ header_row 1 (
        codes "Номенклатура 1С"
        ∷ codes "П1"
        ∷ codes "Р1"
        ∷ codes "П2"
        ∷ codes "Р2"
        ∷ codes "П3"
        ∷ codes "Р3"
        ∷ codes "П4"
        ∷ codes "Герметик"
        ∷ codes "Тип изделия"
        ∷ codes "X"
        ∷ codes "Y"
        ∷ codes "Кол-во"
        ∷ codes "Маркировка"
        ∷ codes "ПЗ"
        ∷ codes "ШК"
        ∷ codes "Номер фигуры"
        ∷ codes "Уточнения"
        ∷ [])

-- The cells of `HEADERS_CALCULATION.items()`, one further right and down.
abbrev shifted : List (ℕ × ℕ × Text) → List Write
shifted [] = []
shifted ((r, c, s) ∷ rest) = text_at (r + 1) (c + 1) s ∷ shifted rest

calculation_headers : List Write
calculation_headers = shifted headers_calculation

-- `X` and `Y`: the two sides that the sheet has.
unfoldable pub sides :
    Option (List Text)
    → Option (List Text)
    → Option (List Text)
    → Option (List Text) × Option (List Text)
sides none length height = (length, height)
sides (some w) none height = (some w, height)
sides (some w) (some l) none = (some w, some l)
sides (some w) (some l) (some h) = (none, none)

-- `s.replace(",", ".")`
unfoldable pub comma_to_dot : Text → Text
comma_to_dot [] = []
comma_to_dot (c ∷ s) = (if c == 44 then 46 else c) ∷ comma_to_dot s

-- A column that may be missing, with "" in its place; none is an index out of range.
abbrev pub optional_at : Option (List Text) → ℕ → Option Text
optional_at none i = some []
optional_at (some vs) i = get_elem? vs i

abbrev pub Match : Type 0
Match = Option Text × Option Text × Bool

abbrev pub target_writes : ℕ → ℕ → List Match → List Write
target_writes r c [] = []
target_writes r c ((target, article, black_list) ∷ ms) =
    write r c (text target) ∷ target_writes r (c + 1) ms

abbrev pub article_writes : ℕ → ℕ → List Match → List Write
article_writes r c [] = []
article_writes r c ((target, article, black_list) ∷ ms) =
    write r c (text article) ∷ article_writes r (c + 1) ms

infixl 5 ◌>>=◌
abbrev pub ◌>>=◌ {ℓ κ} : {A : Type ℓ} {B : Type κ} → Option A → (A → Option B) → Option B
none >>= f = none
some a >>= f = f a

-- `ws.cell` raises `IllegalCharacterError` for a text that openpyxl does not take.
unfoldable pub is_legal : (Text → Bool) → CellValue → Bool
is_legal legal (text none) = true
is_legal legal (text (some s)) = legal s
is_legal legal (int n) = true
is_legal legal (index n) = true

-- Cells that are written one after the other; none where one of them raises.
unfoldable pub written : (Text → Bool) → List Write → Option (List Write)
unfolding is_legal
written legal [] = some []
written legal (w ∷ ws) = elim (written legal ws) [
  | none ↦ none
  | some rest ↦ if is_legal legal w.value then some (w ∷ rest) else none
]

-- `int_float` is `int(float(x))`, with none where it raises; `legal` tells whether openpyxl takes a
-- text for a cell. The headers hold no character that it refuses.
module _ (int_float : Text → Option ℤ) (legal : Text → Bool)
    (elements : Dict Text ParseResults) where
  -- One object of the request sheet, in the row `r`.
  unfoldable pub request_row :
      ℕ
      → ℕ
      → List Text
      → List Text
      → List Text
      → List Text
      → TableParseResults
      → Option (List Write)
  unfolding comma_to_dot written
  request_row r i materials xs ys amounts sheet = do
    material ← get_elem? materials i
    x ← get_elem? xs i
    y ← get_elem? ys i
    amount ← get_elem? amounts i
    barcode ← optional_at sheet.barcode i
    marking ← optional_at sheet.marking i
    element ← lookup material elements
    x_int ← int_float (comma_to_dot x)
    y_int ← int_float (comma_to_dot y)
    amount_int ← int_float (comma_to_dot amount)
    written legal (
        target_writes r 2 element.matches
        ++ (text_at r 1 material
            ∷ write r 11 (int x_int)
            ∷ write r 12 (int y_int)
            ∷ write r 13 (int amount_int)
            ∷ text_at r 14 marking
            ∷ text_at r 16 barcode
            ∷ write r 18 (text element.postfix)
            ∷ []))

  -- One object of the calculation sheet, in the row `r`.
  unfoldable pub calculation_row :
      ℕ → ℕ → List Text → List Text → List Text → List Text → Option (List Write)
  unfolding comma_to_dot written
  calculation_row r i materials xs ys amounts = do
    material ← get_elem? materials i
    x ← get_elem? xs i
    y ← get_elem? ys i
    amount ← get_elem? amounts i
    element ← lookup material elements
    x_int ← int_float (comma_to_dot x)
    y_int ← int_float (comma_to_dot y)
    amount_int ← int_float (comma_to_dot amount)
    written legal (
        article_writes r 3 element.matches
        ++ (write r 1 (index (i + 1))
            ∷ write r 2 (int amount_int)
            ∷ write r 10 (int x_int)
            ∷ write r 11 (int y_int)
            ∷ text_at r 17 (codes "YES")
            ∷ []))

-- `for obj_i in range(size)`: `left` objects from `i` on; the rows go up with `i`.
unfoldable pub rows_from : (ℕ → ℕ → Option (List Write)) → ℕ → ℕ → ℕ → Option (List Write)
rows_from row_at zero i r = some []
rows_from row_at (suc left) i r = elim (row_at r i) [
  | none ↦ none
  | some ws ↦ elim (rows_from row_at left (i + 1) (r + 1)) [
    | none ↦ none
    | some rest ↦ some (ws ++ rest)
  ]
]

-- The columns that a sheet needs: materials, X, Y and amounts.
pub record Needed : Type 0 where
  pub materials : List Text
  pub xs : List Text
  pub ys : List Text
  pub amounts : List Text

abbrev pub needed_of :
    Option (List Text)
    → Option (List Text) × Option (List Text)
    → Option (List Text)
    → Option Needed
needed_of (some ms) (some xs, some ys) (some amounts) =
    some (record { materials = ms; xs = xs; ys = ys; amounts = amounts })
needed_of _ _ _ = none

-- The two `continue`s: none is a sheet that is skipped.
unfoldable pub needed : TableParseResults → Option Needed
unfolding sides
needed s =
    if no_rows s then none else needed_of s.material (sides s.width s.length s.height) s.amount

module _ (int_float : Text → Option ℤ) (legal : Text → Bool)
    (elements : Dict Text ParseResults) where
  -- The cells of one sheet behind its headers.
  unfoldable pub request_cells : TableParseResults → Option Needed → Option (List Write)
  unfolding rows_from request_row
  request_cells s none = some []
  request_cells s (some n) =
      rows_from (λ r i. request_row int_float legal elements r i n.materials n.xs n.ys n.amounts s)
        s.size 0 3

  unfoldable pub request_sheets : ℕ → List TableParseResults → Option (List Sheet)
  unfolding request_cells needed request_headers
  request_sheets i [] = some []
  request_sheets i (s ∷ ss) = elim (request_cells s (needed s)) [
    | none ↦ none
    | some ws ↦ elim (request_sheets (i + 1) ss) [
      | none ↦ none
      | some rest ↦ some (record { title = numbered i; writes = request_headers ++ ws } ∷ rest)
    ]
  ]

  -- The objects of all sheets, one below the other. Every sheet
  -- writes the headers again.
  unfoldable pub calculation_cells : ℕ → List TableParseResults → Option (List Write)
  unfolding rows_from calculation_row needed calculation_headers
  calculation_cells r [] = some []
  calculation_cells r (s ∷ ss) = elim (needed s) [
    | none ↦ elim (calculation_cells r ss) [
      | none ↦ none
      | some rest ↦ some (calculation_headers ++ rest)
    ]
    | some n ↦
        elim (rows_from
          (λ r i. calculation_row int_float legal elements r i n.materials n.xs n.ys n.amounts)
          s.size 0 r) [
            | none ↦ none
            | some ws ↦ elim (calculation_cells (r + s.size) ss) [
              | none ↦ none
              | some rest ↦ some (calculation_headers ++ ws ++ rest)
            ]
          ]
  ]

-- `all_empty`
unfoldable pub all_empty : List TableParseResults → Bool
unfolding needed
all_empty [] = true
all_empty (s ∷ ss) = elim (needed s) [ none ↦ all_empty ss | some _ ↦ false ]

abbrev pub unless_empty {ℓ} : {A : Type ℓ} → Bool → Option A → Option (Option A)
unless_empty empty none = none
unless_empty empty (some a) = some (if empty then none else some a)

module _ (int_float : Text → Option ℤ) (legal : Text → Bool) where
  unfoldable pub make_request_xlsx :
      List TableParseResults → Dict Text ParseResults → Option (Option (List Sheet))
  unfolding request_sheets all_empty
  make_request_xlsx ss elements =
      unless_empty (all_empty ss) (request_sheets int_float legal elements 0 ss)

  unfoldable pub make_callculation_xlsx :
      List TableParseResults → Dict Text ParseResults → Option (Option Sheet)
  unfolding calculation_cells all_empty
  make_callculation_xlsx ss elements = unless_empty (all_empty ss) (
      calculation_cells int_float legal elements 3 ss >>= λ ws.
      some (record { title = sheet1; writes = ws }))
