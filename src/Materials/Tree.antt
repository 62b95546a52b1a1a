-- ===== src/Materials/Tree.antt =====
-- processors/materials/parser.py: `_symbols_tree`.
pub mod Balance
pub mod Accepted
pub mod Blocks
pub mod Levels
pub mod Sound
use orders_agent.Base.{
  ℕ, zero, suc, ◌+◌, ◌-◌, Bool, true, false, Option, none, some, List, [], ◌∷◌, ◌==◌, ◌||◌,
  if◌then◌else◌, nat_eq, is_some,
}
use orders_agent.Base.Lists.{length, slice, elem}
use orders_agent.Base.Text.{Text, strip}
use orders_agent.Materials.Block.{
  ℤ, pos, negsuc, content_start, BracketType, round, figure, square, empty, same_type,
  check_bracket, Block, new_block, add_delim, BlockLevels, no_levels, add_block,
}

-- The exceptions of the parser.
pub data ParseError : Type 0 where
  wrong_brackets : ℕ → ℕ → ParseError
  index_out_of_range : ParseError
  empty_material : ParseError
  undefined_delimeter : ParseError

-- What a call gives: an exception, or the value that it returns.
pub data Result {ℓ} (V : Type ℓ) : Type ℓ where
  err : ParseError → Result V
  ok : V → Result V

module _ {ℓ κ} {V : Type ℓ} {W : Type κ} where
  infixl 5 ◌>>=◌
  abbrev pub ◌>>=◌ : Result V → (V → Result W) → Result W
  err raised >>= next = err raised
  ok value >>= next = next value

-- `symbol in "([{"`, with the type that `Block(symbol, ...)` finds.
unfoldable pub opens : ℕ → Option BracketType
opens c =
    if c == 40
    then some round
    else if c == 91
    then some square
    else if c == 123
    then some figure
    else none

-- `symbol in "}])"`, with the type that `_check_breket` finds.
unfoldable pub closes : ℕ → Option BracketType
closes c =
    if c == 125
    then some figure
    else if c == 93
    then some square
    else if c == 41
    then some round
    else none

-- The variables of the loop. The last element of `stack` comes first here.
pub record Scan : Type 0 where
  pub idx : ℕ
  pub stack : List Block
  pub general : Block
  pub levels : BlockLevels

-- `block.set_end(i)` and `block.set_string(...)`
abbrev pub close_block : Text → ℕ → Block → Block
close_block line i b = record b {
  end_ = some i;
  string = some (slice (content_start b.start) i line);
}

abbrev pub on_open : BracketType → ℕ → Scan → Scan
on_open t i s = record s { idx = s.idx + 1; stack = new_block t (s.idx + 1) (pos i) none ∷ s.stack }

abbrev pub on_close : Text → BracketType → ℕ → ℕ → Scan → List Block → Result Scan
on_close line t i c s [] = err index_out_of_range
on_close line t i c s (b ∷ rest) =
    if same_type t b.btype
    then ok (record s {
      idx = s.idx - 1;
      stack = rest;
      levels = add_block (close_block line i b) s.levels;
    })
    else err (wrong_brackets i c)

abbrev pub on_delim : ℕ → ℕ → Scan → List Block → Scan
on_delim c i s [] = record s { general = add_delim c i s.general }
on_delim c i s (b ∷ rest) = record s { stack = add_delim c i b ∷ rest }

-- The body of the loop over `enumerate(line)`.
unfoldable pub on_symbol : List ℕ → Text → ℕ → ℕ → Scan → Result Scan
on_symbol delims line i c s = elim (opens c) [
  | some t ↦ ok (on_open t i s)
  | none ↦ elim (closes c) [
    | some t ↦ on_close line t i c s s.stack
    | none ↦ if elem c delims then ok (on_delim c i s s.stack) else ok s
  ]
]

unfoldable pub scan_from : List ℕ → Text → ℕ → Text → Scan → Result Scan
scan_from delims line i [] s = ok s
scan_from delims line i (c ∷ rest) s =
    on_symbol delims line i c s >>= scan_from delims line (i + 1) rest

-- `Block("$", 0, -1, len(line))` with its string set.
abbrev pub general_block : Text → Block
general_block line = record (new_block empty 0 (negsuc 0) (some (length line))) {
  string = some line;
}

abbrev pub start_scan : Text → Scan
start_scan line = record { idx = 0; stack = []; general = general_block line; levels = no_levels }

-- The index and the symbol that `i` and `symbol` hold after the loop.
abbrev last_symbol : Text → ℕ
last_symbol [] = 0
last_symbol (c ∷ []) = c
last_symbol (c ∷ d ∷ s) = last_symbol (d ∷ s)

abbrev finish : Text → Scan → List Block → Result BlockLevels
finish line s (b ∷ rest) = err (wrong_brackets (length line - 1) (last_symbol line))
finish line s [] = ok (add_block s.general s.levels)

unfoldable pub symbols_tree : Text → List ℕ → Result BlockLevels
unfolding on_symbol scan_from opens closes add_delim
symbols_tree text delims =
    let line = strip text in
    scan_from delims line 0 line (start_scan line) >>= λ s. finish line s s.stack
