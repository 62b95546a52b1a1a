-- ===== src/Materials/Parser.antt =====
-- processors/materials/parser.py: `ParseResults` and `ParserV2`.
pub mod Total
pub mod Cleaned
use orders_agent.Base.{
  ℕ, zero, suc, ◌+◌, ◌-◌, Bool, true, false, Option, none, some, List, [], ◌∷◌, ◌++◌, map, ◌==◌,
  ◌&&◌, ◌||◌, if◌then◌else◌, nat_eq, is_some, ltb, leb,
}
use orders_agent.Base.Lists.{length, slice, take, drop, elem}
use orders_agent.Base.Text.{Text, strip, codes}
use orders_agent.Materials.Block.{ℤ, pos, negsuc, Block, BlockLevels, get_level, split_by_delim}
use orders_agent.Materials.Tree.{
  ParseError, empty_material, undefined_delimeter, index_out_of_range, Result, ok, err, ◌>>=◌,
  symbols_tree,
}

-- `matches` is filled by the processor: target, article and black list of each part.
pub record ParseResults : Type 0 where
  pub material : Option Text
  pub prefix : Option Text
  pub postfix : Option Text
  pub parts : List Text
  pub matches : List (Option Text × Option Text × Bool)
  pub parts_count : ℕ

-- `ParseResults(material=..., parts=..., parts_count=...)`
abbrev pub results_of : Option Text → List Text → ℕ → ParseResults
results_of m ps n = record {
  material = m;
  prefix = none;
  postfix = none;
  parts = ps;
  matches = [];
  parts_count = n;
}

-- DELIMETERS: - – — + x х *
abbrev pub delimeters : List ℕ
delimeters = codes "-–—+xх*"

abbrev pub raise_none {ℓ} : {A : Type ℓ} → ParseError → Option A → Result A
raise_none e none = err e
raise_none e (some a) = ok a

-- `levels.get_level(0)[0]`; a missing or an empty level raises.
unfoldable pub general_of : BlockLevels → Result Block
general_of l = elim (get_level 0 l) [
  | none ↦ err empty_material
  | some bs ↦ elim bs [ [] ↦ err empty_material | b ∷ _ ↦ ok b ]
]

-- A list holding `general.string`; that string is set when the block is made.
abbrev pub text_of : Option Text → Text
text_of none = []
text_of (some s) = s

-- `parts[0]` and `parts[1]`
abbrev pub split_single : Block → List Text → Result ParseResults
split_single g (p ∷ q ∷ _) = ok (record (results_of g.string (p ∷ []) 1) { postfix = some q })
split_single g ps = err index_out_of_range

-- The tests on `cnt` and on `general.max_delimeter`, which is the second argument.
abbrev pub no_brackets_by : Block → Option ℕ → Result ParseResults
no_brackets_by g none = ok (results_of g.string (text_of g.string ∷ []) 1)
no_brackets_by g (some d) =
    if ltb g.max_count 1
    then ok (results_of g.string (text_of g.string ∷ []) 1)
    else raise_none undefined_delimeter (split_by_delim d g) >>= λ parts.
        if g.max_count == 1
        then split_single g parts
        else ok (results_of g.string parts (length parts))

unfoldable pub no_brackets_rule : BlockLevels → Result ParseResults
no_brackets_rule levels = general_of levels >>= λ g. no_brackets_by g g.max_delimeter

-- Blocks that hold a delimeter more often than the general block, and more than once.
unfoldable pub find_candidates : List Block → Block → List Block
find_candidates [] g = []
find_candidates (b ∷ bs) g =
    let rest = find_candidates bs g in
    if ltb g.max_count b.max_count && ltb 1 b.max_count then b ∷ rest else rest

-- The loop of `_clean_last_p`: the index of the first `)`, unless `(` or `[` comes before it.
unfoldable pub find_close : ℕ → Text → Option ℕ
find_close i [] = none
find_close i (c ∷ s) =
    let rest = find_close (i + 1) s in
    if c == 40 || c == 91 then none else if c == 41 then some i else rest

-- The postfix and the part.
unfoldable pub clean_last_p : Text → Text × Text
unfolding find_close strip
clean_last_p s = elim (find_close 0 s) [
  | none ↦ ([], s)
  | some i ↦ (strip (drop (i + 1) s), strip (take i s))
]

abbrev start_index : ℤ → ℕ
start_index (pos n) = n
start_index (negsuc n) = 0

abbrev end_index : Option ℕ → ℕ
end_index none = 0
end_index (some n) = n

-- The branch `candidates_count == 1`; the last argument is `candidate.max_delimeter`.
abbrev pub candidate_by : Block → Block → Option ℕ → Result ParseResults
candidate_by g b none = err undefined_delimeter
candidate_by g b (some d) = raise_none undefined_delimeter (split_by_delim d b) >>= λ parts.
    ok (record (results_of g.string parts (length parts)) {
      prefix = some (take (start_index b.start) (text_of g.string));
      postfix = some (drop (end_index b.end_ + 1) (text_of g.string));
    })

abbrev pub choose_candidate : Text → Block → List Block → Result ParseResults
choose_candidate line g (b ∷ []) = candidate_by g b b.max_delimeter
choose_candidate line g _ = ok (results_of (some line) (line ∷ []) 1)

-- The branch `cnt > 1`; the last argument is `general.max_delimeter`.
abbrev pub general_by : Block → Option ℕ → Result ParseResults
general_by g none = err undefined_delimeter
general_by g (some d) = raise_none undefined_delimeter (split_by_delim d g) >>= λ parts.
    ok (results_of g.string parts (length parts))

unfoldable pub parse_levels : Text → BlockLevels → Option (List Block) → Result ParseResults
unfolding no_brackets_rule find_candidates
parse_levels line levels (some (b ∷ bs)) = general_of levels >>= λ g.
    if ltb 1 g.max_count
    then general_by g g.max_delimeter
    else choose_candidate line g (find_candidates (b ∷ bs) g)
parse_levels line levels _ = no_brackets_rule levels

unfoldable pub parse_ : Text → List ℕ → Result ParseResults
unfolding parse_levels symbols_tree general_of split_by_delim
parse_ line delims =
    symbols_tree line delims >>= λ levels. parse_levels line levels (get_level 1 levels)

abbrev strip_some : Option Text → Option Text
strip_some none = none
strip_some (some []) = some []
strip_some (some (c ∷ s)) = some (strip (c ∷ s))

unfoldable pub strip_all : ParseResults → ParseResults
strip_all r = record r {
  prefix = strip_some r.prefix;
  postfix = strip_some r.postfix;
  parts = map strip r.parts;
}

-- `parts[-1] = p`, or `del parts[-1]` where `p` is empty.
unfoldable pub set_last : Text → List Text → List Text
set_last [] (q ∷ []) = []
set_last (c ∷ p) (q ∷ []) = (c ∷ p) ∷ []
set_last p (q ∷ r ∷ qs) = q ∷ set_last p (r ∷ qs)
set_last p [] = []

abbrev pub last_of : List Text → Text
last_of [] = []
last_of (p ∷ []) = p
last_of (p ∷ q ∷ ps) = last_of (q ∷ ps)

abbrev keep_postfix : Text → Option Text → Option Text
keep_postfix [] old = old
keep_postfix (c ∷ s) old = some (c ∷ s)

unfoldable pub clean_last : ParseResults → ParseResults
unfolding clean_last_p set_last
clean_last r =
    if ltb 0 r.parts_count
    then (let (postfix, p) = clean_last_p (last_of r.parts) in
        record r {
          postfix = keep_postfix (strip postfix) r.postfix;
          parts = set_last (strip p) r.parts;
        })
    else r

unfoldable pub parse : Text → List ℕ → Result ParseResults
unfolding parse_ clean_last strip_all
parse line delims = parse_ line delims >>= λ r. ok (strip_all (clean_last r))
