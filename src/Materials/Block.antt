-- ===== src/Materials/Block.antt =====
-- processors/materials/parser.py: `DelimetersList`, `Block` and `BlockLevels`.
-- A character is its code point; `_start` is -1 for the block of the whole line.
pub mod Split
pub mod Counts
use orders_agent.Base.{
  ℕ, zero, suc, ◌+◌, ◌-◌, Bool, true, false, Option, none, some, List, [], ◌∷◌, ◌++◌, ltb, ◌==◌,
  if◌then◌else◌, nat_eq,
}
use orders_agent.Base.Lists.{length, slice, drop, elem}
use orders_agent.Base.Text.{Text}
use orders_agent.Base.Dict.{Dict, lookup, insert}

-- `negsuc n` is -(n + 1).
pub data ℤ : Type 0 where
  pos : ℕ → ℤ
  negsuc : ℕ → ℤ

-- `start + 1`, for the starts that occur: -1 and up.
abbrev pub content_start : ℤ → ℕ
content_start (pos n) = suc n
content_start (negsuc n) = 0

pub record DelimetersList : Type 0 where
  pub count : ℕ
  pub index : List ℕ

abbrev pub no_delimeters : DelimetersList
no_delimeters = record { count = 0; index = [] }

-- `DelimetersList.add`
abbrev pub add_index : ℕ → DelimetersList → DelimetersList
add_index idx l = record { count = l.count + 1; index = l.index ++ idx ∷ [] }

pub data BracketType : Type 0 where
  round figure square empty : BracketType

abbrev pub same_type : BracketType → BracketType → Bool
same_type round round = true
same_type figure figure = true
same_type square square = true
same_type empty empty = true
same_type _ _ = false

-- The brackets and `$`, as code points: ( ) [ ] { } $
abbrev pub check_bracket : ℕ → Option BracketType
check_bracket c =
    if c == 40
    then some round
    else if c == 41
    then some round
    else if c == 123
    then some figure
    else if c == 125
    then some figure
    else if c == 91
    then some square
    else if c == 93
    then some square
    else if c == 36
    then some empty
    else none

pub record Block : Type 0 where
  pub btype : BracketType
  pub level : ℕ
  pub start : ℤ
  pub end_ : Option ℕ
  pub delims : Dict ℕ DelimetersList
  pub max_delimeter : Option ℕ
  pub max_count : ℕ
  pub string : Option Text

-- `Block(brek, level, start_i, end_i)`, for a bracket whose type is known.
abbrev pub new_block : BracketType → ℕ → ℤ → Option ℕ → Block
new_block t level start end_ = record {
  btype = t;
  level = level;
  start = start;
  end_ = end_;
  delims = [];
  max_delimeter = none;
  max_count = 0;
  string = none;
}

-- The list that `self._delims[delimeter]` holds after the `if` that creates it.
abbrev pub delims_of : ℕ → Block → DelimetersList
delims_of d b = elim (lookup d b.delims) [ none ↦ no_delimeters | some l ↦ l ]

unfoldable pub add_delim : ℕ → ℕ → Block → Block
add_delim d idx b =
    let added = add_index idx (delims_of d b) in
    let b' = record b { delims = insert d added b.delims } in
    if ltb b.max_count added.count
    then record b' { max_count = added.count; max_delimeter = some d }
    else b'

-- The loop of `split_by_delim`; `from` is `last_idx + 1`.
unfoldable pub split_loop : ℕ → Text → ℕ → List ℕ → List Text
split_loop offset s from [] = drop from s ∷ []
split_loop offset s from (idx ∷ rest) =
    slice from (idx - offset) s ∷ split_loop offset s (idx - offset + 1) rest

-- `none` is the `ValueError` of an unknown delimeter, or of a block whose string is not set.
unfoldable pub split_by_delim : ℕ → Block → Option (List Text)
unfolding split_loop
split_by_delim d b = elim (lookup d b.delims) [
  | none ↦ none
  | some l ↦ elim b.string [
    | none ↦ none
    | some s ↦ some (split_loop (content_start b.start) s 0 l.index)
  ]
]

pub record BlockLevels : Type 0 where
  pub levels : Dict ℕ (List Block)
  pub depth : ℕ

abbrev pub no_levels : BlockLevels
no_levels = record { levels = []; depth = 0 }

abbrev pub get_level : ℕ → BlockLevels → Option (List Block)
get_level n l = lookup n l.levels

abbrev pub blocks_of : Option (List Block) → List Block
blocks_of none = []
blocks_of (some bs) = bs

unfoldable pub add_block : Block → BlockLevels → BlockLevels
add_block b l = record {
  levels = insert b.level (blocks_of (get_level b.level l) ++ b ∷ []) l.levels;
  depth = if ltb l.depth b.level then b.level else l.depth;
}
