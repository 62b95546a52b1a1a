-- ===== src/Table/Workbook/Total.antt =====
-- processors/table/table_processer.py: when `make_request_xlsx` raises nothing.
use orders_agent.Base.{
  ℕ, zero, suc, ◌+◌, ◌≤◌, ◌<◌, ◌≡◌, refl, Bool, true, Option, none, some, List, [], ◌∷◌, ◌++◌,
  arith, is_some,
}
use orders_agent.Base.Lists.{All, get_elem?}
use orders_agent.Base.Text.{Text, text_eq}
use orders_agent.Base.Dict.{Dict, lookup}
use orders_agent.Materials.Block.{ℤ}
use orders_agent.Materials.Parser.{ParseResults}
use orders_agent.Table.Sheet.{TableParseResults}
use orders_agent.Table.Sheet.Columns.{HasLength}
use orders_agent.Table.Workbook.{
  Match, Write, is_legal, written, target_writes, article_writes, Needed, needed, comma_to_dot,
  optional_at, request_row, rows_from, request_cells, request_sheets, all_empty, unless_empty,
  make_request_xlsx,
}
use orders_agent.Table.Workbook.Ready.{
  entry_at, bind-some, bind-is_some, OnColumn, Converts, IsLegal, LegalMatch, IsParsed, LegalText,
  IsReady, AreReady, needed-AreReady,
}

module _ (int_float : Text → Option ℤ) (legal : Text → Bool)
    (elements : Dict Text ParseResults) where
  optional_at-some :
      (o : Option (List Text)) (size i : ℕ)
      → legal [] ≡ true
      → i < size
      → HasLength size o
      → OnColumn (LegalText int_float legal elements) o
      → (x : Text) × (optional_at o i ≡ some x) × LegalText int_float legal elements x
  optional_at-some none size i empty h l all = ([], refl, empty)
  optional_at-some (some vs) size i empty h l all =
      entry_at (LegalText int_float legal elements) vs i (omega arith) all

  abbrev pub LegalWrite : Write → Type 0
  LegalWrite w = IsLegal int_float legal elements w.value

  pub written-some : (ws : List Write) → All LegalWrite ws → is_some (written legal ws) ≡ true
  unfolding written
  written-some [] h = refl
  written-some (w ∷ ws) h = ground (arith, h.0, written-some ws h.1)

  targets-legal :
      (r c : ℕ) (ms : List Match) (ws : List Write)
      → All (LegalMatch int_float legal elements) ms
      → All LegalWrite ws
      → All LegalWrite (target_writes r c ms ++ ws)
  targets-legal r c [] ws h k = k
  targets-legal r c ((target, article, bl) ∷ ms) ws h k =
      (h.0.0, targets-legal r (c + 1) ms ws h.1 k)

  pub articles-legal :
      (r c : ℕ) (ms : List Match) (ws : List Write)
      → All (LegalMatch int_float legal elements) ms
      → All LegalWrite ws
      → All LegalWrite (article_writes r c ms ++ ws)
  articles-legal r c [] ws h k = k
  articles-legal r c ((target, article, bl) ∷ ms) ws h k =
      (h.0.1, articles-legal r (c + 1) ms ws h.1 k)

  request_row-some :
      (s : TableParseResults) (n : Needed) (r i : ℕ)
      → legal [] ≡ true
      → IsReady int_float legal elements s
      → AreReady int_float legal elements s.size n
      → i < s.size
      → is_some (request_row int_float legal elements r i n.materials n.xs n.ys n.amounts s) ≡ true
  unfolding request_row is_legal
  request_row-some s n r i empty h ready lt =
      let (m, at_m, (e, at_e, m_ok, matches_ok, postfix_ok)) =
        entry_at (IsParsed int_float legal elements) n.materials i (omega arith) ready.materials in
      let (x, at_x, x_ok) =
        entry_at (Converts int_float legal elements) n.xs i (omega arith) ready.xs in
      let (y, at_y, y_ok) =
        entry_at (Converts int_float legal elements) n.ys i (omega arith) ready.ys in
      let (a, at_a, a_ok) =
        entry_at (Converts int_float legal elements) n.amounts i (omega arith) ready.amounts in
      let (b, at_b, b_ok) =
        optional_at-some s.barcode s.size i empty lt h.rectangular.barcode h.barcode in
      let (k, at_k, k_ok) =
        optional_at-some s.marking s.size i empty lt h.rectangular.marking h.marking in
      bind-some (get_elem? n.materials i) _ m at_m (
        bind-some (get_elem? n.xs i) _ x at_x (
          bind-some (get_elem? n.ys i) _ y at_y (
            bind-some (get_elem? n.amounts i) _ a at_a (
              bind-some (optional_at s.barcode i) _ b at_b (
                bind-some (optional_at s.marking i) _ k at_k (
                  bind-some (lookup m elements) _ e at_e (
                    bind-is_some (int_float (comma_to_dot x)) _ x_ok (λ xi.
                      bind-is_some (int_float (comma_to_dot y)) _ y_ok (λ yi.
                        bind-is_some (int_float (comma_to_dot a)) _ a_ok (λ ai. written-some _ (
                          targets-legal r 2 e.matches _ matches_ok (
                            m_ok,
                            (refl, (refl, (refl, (k_ok, (b_ok, (postfix_ok, tt)))))),
                          ))))))))))))

  pub rows_from-some :
      (row_at : ℕ → ℕ → Option (List Write)) (left i r size : ℕ)
      → ((r' j : ℕ) → j < size → is_some (row_at r' j) ≡ true)
      → i + left ≤ size
      → is_some (rows_from row_at left i r) ≡ true
  unfolding rows_from
  rows_from-some row_at zero i r size h le = refl
  rows_from-some row_at (suc left) i r size h le =
      ground (
        arith,
        h r i (omega arith),
        rows_from-some row_at left (i + 1) (r + 1) size h (omega arith),
      )

  request_cells-some :
      (s : TableParseResults) (o : Option Needed)
      → legal [] ≡ true
      → IsReady int_float legal elements s
      → needed s ≡ o
      → is_some (request_cells int_float legal elements s o) ≡ true
  unfolding request_cells
  request_cells-some s none empty h e = refl
  request_cells-some s (some n) empty h e =
      rows_from-some
        (λ r i. request_row int_float legal elements r i n.materials n.xs n.ys n.amounts s) s.size 0
        3 s.size
        (λ r i lt.
          request_row-some s n r i empty h (needed-AreReady int_float legal elements s n h e) lt)
        (omega arith)

  request_sheets-some :
      (i : ℕ) (ss : List TableParseResults)
      → legal [] ≡ true
      → All (IsReady int_float legal elements) ss
      → is_some (request_sheets int_float legal elements i ss) ≡ true
  unfolding request_sheets
  request_sheets-some i [] empty h = refl
  request_sheets-some i (s ∷ ss) empty h = ground (
    arith,
    request_cells-some s (needed s) empty h.0 refl,
    request_sheets-some (i + 1) ss empty h.1,
  )

  pub unless_empty-some :
      {A : Type 0} (b : Bool) (o : Option A) → is_some o ≡ true → is_some (unless_empty b o) ≡ true
  unless_empty-some b none h = cc
  unless_empty-some b (some a) h = refl

-- The request workbook is made without an exception from sheets whose columns have one length,
-- whose materials have all been parsed, and whose sizes and amounts are numbers, with a comma or
-- a point, where openpyxl takes the texts that come from the sheets and the matches (materials,
-- targets, articles, postfixes, markings and barcodes) and the empty text.
pub make_request_xlsx-some :
    (int_float : Text → Option ℤ) (legal : Text → Bool) (elements : Dict Text ParseResults)
    (ss : List TableParseResults)
    → legal [] ≡ true
    → All (IsReady int_float legal elements) ss
    → is_some (make_request_xlsx int_float legal ss elements) ≡ true
unfolding make_request_xlsx
make_request_xlsx-some int_float legal elements ss empty h =
    unless_empty-some int_float legal elements (all_empty ss)
      (request_sheets int_float legal elements 0 ss)
      (request_sheets-some int_float legal elements 0 ss empty h)
