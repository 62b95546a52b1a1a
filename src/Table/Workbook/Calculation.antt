-- ===== src/Table/Workbook/Calculation.antt =====
-- processors/table/table_processer.py: when `make_callculation_xlsx` raises nothing.
use orders_agent.Base.{
  ℕ, ◌+◌, ◌<◌, ◌≡◌, refl, Bool, true, Option, some, List, [], ◌∷◌, arith, inl, inr, is_some,
  Option-cases,
}
use orders_agent.Base.Lists.{All, get_elem?}
use orders_agent.Base.Text.{Text, codes, text_eq}
use orders_agent.Base.Dict.{Dict, lookup}
use orders_agent.Materials.Block.{ℤ}
use orders_agent.Materials.Parser.{ParseResults}
use orders_agent.Table.Sheet.{TableParseResults}
use orders_agent.Table.Workbook.{
  is_legal, Needed, needed, comma_to_dot, calculation_row, rows_from, calculation_cells, all_empty,
  make_callculation_xlsx,
}
use orders_agent.Table.Workbook.Total.{
  written-some, articles-legal, rows_from-some, unless_empty-some,
}
use orders_agent.Table.Workbook.Ready.{
  entry_at, bind-some, bind-is_some, Converts, IsParsed, IsReady, AreReady, needed-AreReady,
}

module _ (int_float : Text → Option ℤ) (legal : Text → Bool)
    (elements : Dict Text ParseResults) where
  calculation_row-some :
      (s : TableParseResults) (n : Needed) (r i : ℕ)
      → legal (codes "YES") ≡ true
      → AreReady int_float legal elements s.size n
      → i < s.size
      → is_some (calculation_row int_float legal elements r i n.materials n.xs n.ys n.amounts)
        ≡ true
  unfolding calculation_row is_legal
  calculation_row-some s n r i plain ready lt =
      let Number : Text → Type 0 = Converts int_float legal elements in
      let (m, at_m, (e, at_e, m_ok, matches_ok, postfix_ok)) =
        entry_at (IsParsed int_float legal elements) n.materials i (omega arith) ready.materials in
      let (x, at_x, x_ok) = entry_at Number n.xs i (omega arith) ready.xs in
      let (y, at_y, y_ok) = entry_at Number n.ys i (omega arith) ready.ys in
      let (a, at_a, a_ok) = entry_at Number n.amounts i (omega arith) ready.amounts in
      bind-some (get_elem? n.materials i) _ m at_m (
        bind-some (get_elem? n.xs i) _ x at_x (
          bind-some (get_elem? n.ys i) _ y at_y (
            bind-some (get_elem? n.amounts i) _ a at_a (
              bind-some (lookup m elements) _ e at_e (
                bind-is_some (int_float (comma_to_dot x)) _ x_ok (λ xi.
                  bind-is_some (int_float (comma_to_dot y)) _ y_ok (λ yi.
                    bind-is_some (int_float (comma_to_dot a)) _ a_ok (λ ai.
                      written-some int_float legal elements _ (
                        articles-legal int_float legal elements r 3 e.matches _ matches_ok
                          (refl, (refl, (refl, (refl, (plain, tt))))))))))))))

  -- The rows of a sheet, whatever stands above it.
  sheet_rows-some :
      (s : TableParseResults) (n : Needed) (r : ℕ)
      → legal (codes "YES") ≡ true
      → IsReady int_float legal elements s
      → needed s ≡ some n
      → is_some (
          rows_from
            (λ r i. calculation_row int_float legal elements r i n.materials n.xs n.ys n.amounts)
            s.size
            0
            r)
        ≡ true
  sheet_rows-some s n r plain h e =
      rows_from-some int_float legal elements
        (λ r i. calculation_row int_float legal elements r i n.materials n.xs n.ys n.amounts) s.size
        0 r s.size
        (λ r i lt.
          calculation_row-some s n r i plain (needed-AreReady int_float legal elements s n h e) lt)
        (omega arith)

  calculation_cells-some :
      (r : ℕ) (ss : List TableParseResults)
      → legal (codes "YES") ≡ true
      → All (IsReady int_float legal elements) ss
      → is_some (calculation_cells int_float legal elements r ss) ≡ true
  unfolding calculation_cells
  calculation_cells-some r [] plain h = refl
  calculation_cells-some r (s ∷ ss) plain h = elim (Option-cases (needed s)) [
    | inl skipped ↦
        rw (calculation_cells, skipped) (ground (arith, calculation_cells-some r ss plain h.1))
    | inr (n, e) ↦
        rw (calculation_cells, e)
          (ground (
            arith,
            sheet_rows-some s n r plain h.0 e,
            calculation_cells-some (r + s.size) ss plain h.1,
          ))
  ]

-- The calculation workbook is made without an exception from the sheets that the request workbook
-- takes: columns of one length, materials that have all been parsed, and sizes and amounts that
-- are numbers, with a comma or a point, where openpyxl takes the texts that come from the sheets
-- and the matches, and the text YES.
pub make_callculation_xlsx-some :
    (int_float : Text → Option ℤ) (legal : Text → Bool) (elements : Dict Text ParseResults)
    (ss : List TableParseResults)
    → legal (codes "YES") ≡ true
    → All (IsReady int_float legal elements) ss
    → is_some (make_callculation_xlsx int_float legal ss elements) ≡ true
unfolding make_callculation_xlsx
make_callculation_xlsx-some int_float legal elements ss plain h =
    unless_empty-some int_float legal elements (all_empty ss) _ (
      bind-is_some (calculation_cells int_float legal elements 3 ss) _
        (calculation_cells-some int_float legal elements 3 ss plain h) (λ ws. refl))
