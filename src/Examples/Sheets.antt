-- ===== src/Examples/Sheets.antt =====
-- A sheet of one object, its header in the first row.
use Prim.Native.Nat.{◌^◌}
use orders_agent.Base.{
  Bool, ℕ, ◌+◌, ◌-◌, nat_eq, ◌*◌, ◌≡◌, refl, true, ◌&&◌, ◌||◌, ◌==◌, Option, none, some, [], ◌∷◌,
  leb, if◌then◌else◌, is_some,
}
use orders_agent.Base.Text.{Text, codes, text_beq, strip}
use orders_agent.Base.Dict.{Dict, lookup, insert}
use orders_agent.Materials.Block.{ℤ, pos, add_block}
use orders_agent.Materials.Tree.{ok}
use orders_agent.Materials.Parser.{ParseResults, delimeters, parse}
use orders_agent.Table.Cell.{TextLib}
use orders_agent.Table.Index.{Table, get_by_type, merge}
use orders_agent.Table.Open.{Values, read_sheets}
use orders_agent.Table.Sheet.{TableParseResults, parse_sheet}
use orders_agent.Table.Sheet.Columns.{IsRectangular, parse_sheet-IsRectangular}
use orders_agent.Table.Workbook.{is_legal, comma_to_dot, make_request_xlsx, make_callculation_xlsx}
use orders_agent.Table.Workbook.Ready.{IsReady}
use orders_agent.Table.Workbook.Total.{make_request_xlsx-some}
use orders_agent.Table.Workbook.Calculation.{make_callculation_xlsx-some}

-- Texts that are equal match by 100, others by 0.
abbrev pub exact : TextLib
exact = record {
  is_digit = λ c. leb 48 c && leb c 57;
  lower = λ s. s;
  ratio = λ s t. if text_beq s t then 100 * 2 ^ 1074 else 0;
}

abbrev pub order_values : Values
order_values =
    (some (codes "наименование")
      ∷ some (codes "ширина")
      ∷ some (codes "высота")
      ∷ some (codes "количество")
      ∷ [])
    ∷ (some (codes "4-16-4") ∷ some (codes "100") ∷ some (codes "200,5") ∷ some (codes "3") ∷ [])
    ∷ []

unfoldable pub order_table : (t : Table) × (read_sheets exact (order_values ∷ []) ≡ some (t ∷ []))
unfolding read_sheets strip lookup insert text_beq
order_table = (_, refl)

unfoldable pub order_results : (r : TableParseResults) × (parse_sheet order_table.0 ≡ some r)
unfolding order_table parse_sheet lookup insert text_beq get_by_type merge
order_results = (_, refl)

parse_sheet-IsRectangular_example : IsRectangular order_results.0
parse_sheet-IsRectangular_example =
    parse_sheet-IsRectangular order_table.0 order_results.0 order_results.1

sheet_values : (order_results.0.width ≡ some (codes "100" ∷ [])) × (order_results.0.size ≡ 1)
unfolding order_results
sheet_values = (refl, refl)

abbrev int_part : ℕ → Text → ℕ
int_part n [] = n
int_part n (c ∷ s) = if leb 48 c && leb c 57 then int_part (10 * n + (c - 48)) s else n

-- The digits up to the point.
abbrev pub truncate : Text → Option ℤ
truncate [] = none
truncate (c ∷ s) = if leb 48 c && leb c 57 then some (pos (int_part 0 (c ∷ s))) else none

element : (r : ParseResults) × (parse (codes "4-16-4") delimeters ≡ ok r)
unfolding parse lookup insert add_block
element = (_, refl)

elements : Dict Text ParseResults
elements = (codes "4-16-4", element.0) ∷ []

-- openpyxl refuses control characters, apart from tabs and line ends.
abbrev pub printable : Text → Bool
printable [] = true
printable (c ∷ s) = (leb 32 c || c == 9 || c == 10 || c == 13) && printable s

order_results-IsReady : IsReady truncate printable elements order_results.0
unfolding order_results elements lookup text_beq comma_to_dot element is_legal
order_results-IsReady = record {
  rectangular = parse_sheet-IsRectangular order_table.0 order_results.0 order_results.1;
  material = ((element.0, refl, refl, tt, refl), tt);
  width = (refl, tt);
  length_ = tt;
  height = (refl, tt);
  amount = (refl, tt);
  marking = tt;
  barcode = tt;
}

make_request_xlsx-some_example :
    is_some (make_request_xlsx truncate printable (order_results.0 ∷ []) elements) ≡ true
make_request_xlsx-some_example =
    make_request_xlsx-some truncate printable elements (order_results.0 ∷ []) refl
      (order_results-IsReady, tt)

make_callculation_xlsx-some_example :
    is_some (make_callculation_xlsx truncate printable (order_results.0 ∷ []) elements) ≡ true
make_callculation_xlsx-some_example =
    make_callculation_xlsx-some truncate printable elements (order_results.0 ∷ []) refl
      (order_results-IsReady, tt)
