-- ===== src/Materials/Parser/Total.antt =====
-- `ParserV2.parse` raises only where `_symbols_tree` does.
use mathlib.Core.Bool.{false≢true}
use orders_agent.Base.{
  ℕ, ◌+◌, ◌≤◌, ◌≡◌, ◌↔◌, refl, ap, true, Option, none, some, List, [], ◌∷◌, arith, nat_eq, ◌&&◌,
  Bool-cases, inl, inr, ltb,
}
use orders_agent.Base.Lists.{length, All}
use orders_agent.Base.Text.{Text, strip}
use orders_agent.Materials.Block.{Block, BlockLevels, get_level, split_by_delim}
use orders_agent.Materials.Tree.{Result, ok, err, ◌>>=◌, symbols_tree}
use orders_agent.Materials.Tree.Balance.{Balanced}
use orders_agent.Materials.Tree.Accepted.{is_ok, symbols_tree-ok_iff}
use orders_agent.Materials.Tree.Blocks.{IsSplit, IsSplit-Splits}
use orders_agent.Materials.Tree.Sound.{IsTree, symbols_tree-IsTree}
use orders_agent.Materials.Parser.{
  ParseResults, general_of, split_single, no_brackets_rule, no_brackets_by, candidate_by,
  general_by, find_candidates, choose_candidate, parse_levels, parse_, parse, strip_all, clean_last,
}

-- The call returns, with at least one part, and `parts_count` counts the parts.
abbrev pub Returns : Result ParseResults → Type 0
Returns (ok r) = (r.parts_count ≡ length r.parts) × (1 ≤ length r.parts)
Returns (err e) = ⊥

-- The delimeter with the highest count splits the block.
splits_by_max :
    (b : Block) (d : ℕ)
    → IsSplit b
    → b.max_delimeter ≡ some d
    → (parts : List Text) × (split_by_delim d b ≡ some parts)
      × (length parts ≡ b.max_count + 1)
      × (1 ≤ b.max_count)
splits_by_max b d h e =
    let (l, known, count, seen) = rw e at h.max.attained in
    let (s, parts, at, split, joined, size) = IsSplit-Splits b d l h known in
    (parts, split, omega arith, omega arith)

no_max : (b : Block) → IsSplit b → b.max_delimeter ≡ none → b.max_count ≡ 0
no_max b h e = rw e at h.max.attained

split_single-Returns :
    (g : Block) (parts : List Text) → 2 ≤ length parts → Returns (split_single g parts)
split_single-Returns g [] h = absurd (omega arith)
split_single-Returns g (p ∷ []) h = absurd (omega arith)
split_single-Returns g (p ∷ q ∷ ps) h = omega arith

no_brackets-Returns :
    (g : Block) (m : Option ℕ) → IsSplit g → g.max_delimeter ≡ m → Returns (no_brackets_by g m)
no_brackets-Returns g none s e = omega arith
no_brackets-Returns g (some d) s e =
    let (parts, split, size, seen) = splits_by_max g d s e in
    rw split (ground (arith, split_single-Returns g parts))

general-Returns :
    (g : Block) (m : Option ℕ)
    → IsSplit g
    → g.max_delimeter ≡ m
    → 1 ≤ g.max_count
    → Returns (general_by g m)
general-Returns g none s e h = absurd (omega (arith, no_max g s e))
general-Returns g (some d) s e h =
    let (parts, split, size, seen) = splits_by_max g d s e in rw split (omega arith)

candidate-Returns :
    (g b : Block) (m : Option ℕ)
    → IsSplit b
    → b.max_delimeter ≡ m
    → 1 ≤ b.max_count
    → Returns (candidate_by g b m)
candidate-Returns g b none s e h = absurd (omega (arith, no_max b s e))
candidate-Returns g b (some d) s e h =
    let (parts, split, size, seen) = splits_by_max b d s e in rw split (omega arith)

-- What `_find_candidates` keeps are blocks of the list, with more than one delimeter.
abbrev Candidate : Block → Type 0
Candidate b = IsSplit b × (1 ≤ b.max_count)

candidates-split :
    (g : Block) (bs : List Block) → All IsSplit bs → All Candidate (find_candidates bs g)
unfolding find_candidates
candidates-split g [] h = tt
candidates-split g (b ∷ bs) h =
    elim (Bool-cases (ltb g.max_count b.max_count && ltb 1 b.max_count)) [
      | inl kept ↦ rw kept ((h.0, ground arith), candidates-split g bs h.1)
      | inr dropped ↦ rw dropped (candidates-split g bs h.1)
    ]

choose-Returns :
    (line : Text) (g : Block) (bs : List Block)
    → All Candidate bs
    → Returns (choose_candidate line g bs)
choose-Returns line g [] h = omega arith
choose-Returns line g (b ∷ []) h = candidate-Returns g b b.max_delimeter h.0.0 refl h.0.1
choose-Returns line g (b ∷ c ∷ bs) h = omega arith

module _ (text line : Text) (levels : BlockLevels) (t : IsTree text levels) where
  general_of-eq : general_of levels ≡ ok t.general
  general_of-eq = unfold general_of in rw (general_of, t.general_level)

  no_brackets_rule-Returns : Returns (no_brackets_rule levels)
  no_brackets_rule-Returns =
      unfold no_brackets_rule in
      rw general_of-eq (no_brackets-Returns t.general t.general.max_delimeter t.general_split refl)

  parse_levels-Returns :
      (bs : Option (List Block)) → get_level 1 levels ≡ bs → Returns (parse_levels line levels bs)
  unfolding parse_levels
  parse_levels-Returns none e = no_brackets_rule-Returns
  parse_levels-Returns (some []) e = no_brackets_rule-Returns
  parse_levels-Returns (some (b ∷ bs)) e =
      rw general_of-eq (elim (Bool-cases (ltb 1 t.general.max_count)) [
        | inl many ↦
            rw many (
              general-Returns t.general t.general.max_delimeter t.general_split refl (ground arith))
        | inr few ↦ rw few (
            choose-Returns line t.general (find_candidates (b ∷ bs) t.general)
              (candidates-split t.general (b ∷ bs) (t.blocks 1 (b ∷ bs) e)))
      ])

pub parse_-Returns :
    (line : Text) (delims : List ℕ) → Balanced (strip line) → Returns (parse_ line delims)
unfolding parse_
parse_-Returns line delims h = scanned (symbols_tree line delims) refl
  where
    scanned :
        (m : Result BlockLevels)
        → symbols_tree line delims ≡ m
        → Returns (m >>= λ levels. parse_levels line levels (get_level 1 levels))
    scanned (ok levels) e =
        parse_levels-Returns line line levels (symbols_tree-IsTree line delims levels e)
          (get_level 1 levels) refl
    scanned (err x) e = false≢true (rw e at ((symbols_tree-ok_iff line delims).1 h))

-- `parse` returns a result exactly for a name whose brackets, once it is stripped, are balanced:
-- apart from the brackets nothing makes it raise.
pub parse-ok_iff :
    (line : Text) (delims : List ℕ) → (is_ok (parse line delims) ≡ true) ↔ Balanced (strip line)
unfolding parse
parse-ok_iff line delims = (
  λ h. (symbols_tree-ok_iff line delims).0 (scanned (symbols_tree line delims) refl h),
  λ b. cleaned (parse_ line delims) (parse_-Returns line delims b),
)
  where
    cleaned :
        (m : Result ParseResults)
        → Returns m
        → is_ok (m >>= λ r. ok (strip_all (clean_last r))) ≡ true
    cleaned (ok r) h = refl
    cleaned (err x) h = absurd h

    scanned :
        (m : Result BlockLevels)
        → symbols_tree line delims ≡ m
        → is_ok (
            (m >>= λ levels. parse_levels line levels (get_level 1 levels)) >>= λ r.
            ok (strip_all (clean_last r)))
          ≡ true
        → is_ok (symbols_tree line delims) ≡ true
    scanned (ok levels) e h = ap is_ok e
    scanned (err x) e h = absurd (false≢true h)
