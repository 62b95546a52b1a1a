-- ===== src/Materials/Tree/Levels.antt =====
-- `_symbols_tree`: every block of the result splits into parts that give its string back, and
-- level 0 holds the block of the whole line alone.
use mathlib.Core.Path.{subst}
use orders_agent.Base.{
  ℕ, suc, ◌+◌, ◌-◌, ◌≤◌, ◌≡◌, ◌≢◌, sym, ◌∙◌, none, some, List, [], ◌∷◌, ◌++◌, arith, ==_iff, nat_eq,
  ◌==◌, Bool-cases, Option-cases, inl, inr, if◌then◌else◌,
}
use orders_agent.Base.Lists.{get_elem?, All, All-append}
use orders_agent.Base.Text.{Text}
use orders_agent.Base.Dict.{lookup, lookup-insert}
use orders_agent.Materials.Block.{
  pos, negsuc, BracketType, Block, BlockLevels, new_block, get_level, add_block, blocks_of,
  same_type,
}
use orders_agent.Materials.Block.Counts.{HasMax-new, some_inj}
use orders_agent.Materials.Tree.{
  Result, ok, err, wrong_brackets, Scan, close_block, on_open, on_close, on_delim,
}
use orders_agent.Materials.Tree.Blocks.{
  IsOpen, IsSplit, IsOpen-later, add_delim-IsOpen, close_block-IsSplit, start-add_delim,
  string-add_delim, level-add_delim,
}

-- Every block that the levels hold has the property.
abbrev pub AllBlocks : (Block → Type 0) → BlockLevels → Type 0
AllBlocks P l = (n : ℕ) (bs : List Block) → get_level n l ≡ some bs → All P bs

AllBlocks-of :
    (P : Block → Type 0) (n : ℕ) (l : BlockLevels)
    → AllBlocks P l
    → All P (blocks_of (get_level n l))
AllBlocks-of P n l h = elim (Option-cases (get_level n l)) [
  | inl none_yet ↦ rw none_yet tt
  | inr (bs, e) ↦ rw e (h n bs e)
]

pub get_level-add_block :
    (n : ℕ) (b : Block) (l : BlockLevels)
    → get_level n (add_block b l)
      ≡ (if b.level == n then some (blocks_of (get_level b.level l) ++ b ∷ []) else get_level n l)
unfolding add_block
get_level-add_block n b l = lookup-insert b.level n _ l.levels

pub get_level-add_block_ne :
    (n : ℕ) (b : Block) (l : BlockLevels)
    → b.level ≢ n
    → get_level n (add_block b l) ≡ get_level n l
get_level-add_block_ne n b l h = rw get_level-add_block (ground (arith, ==_iff b.level n))

pub AllBlocks-add_block :
    (P : Block → Type 0) (b : Block) (l : BlockLevels)
    → P b
    → AllBlocks P l
    → AllBlocks P (add_block b l)
AllBlocks-add_block P b l p h n bs e = elim (Bool-cases (b.level == n)) [
  | inl same ↦
      subst (All P) (some_inj (sym (rw same at (get_level-add_block n b l)) ∙ e)) (
        All-append P (blocks_of (get_level b.level l)) (b ∷ []) (AllBlocks-of P b.level l h)
          (p, tt))
  | inr other ↦ h n bs (sym (rw other at (get_level-add_block n b l)) ∙ e)
]

pub record IsScan (line : Text) (i : ℕ) (s : Scan) : Type 0 where
  pub open_blocks : All (IsOpen line i) s.stack
  pub nested : All (λ b. 1 ≤ b.level) s.stack
  pub whole : IsOpen line i s.general
  pub whole_text : s.general.string ≡ some line
  pub whole_level : s.general.level ≡ 0
  pub whole_start : s.general.start ≡ negsuc 0
  pub closed : AllBlocks IsSplit s.levels
  pub bottom : get_level 0 s.levels ≡ none

module _ (line : Text) (i : ℕ) where
  All-later : (bs : List Block) → All (IsOpen line i) bs → All (IsOpen line (suc i)) bs
  All-later [] h = tt
  All-later (b ∷ bs) h = (IsOpen-later line i b h.0, All-later bs h.1)

  IsOpen-new : (t : BracketType) (n : ℕ) → IsOpen line (suc i) (new_block t n (pos i) none)
  IsOpen-new t n = record {
    max = HasMax-new t n (pos i) none;
    started = omega arith;
    placed = λ d l e. unfold lookup in cc;
  }

  pub IsScan-skip : (s : Scan) → IsScan line i s → IsScan line (suc i) s
  IsScan-skip s h = record {
    open_blocks = All-later s.stack h.open_blocks;
    nested = h.nested;
    whole = IsOpen-later line i s.general h.whole;
    whole_text = h.whole_text;
    whole_level = h.whole_level;
    whole_start = h.whole_start;
    closed = h.closed;
    bottom = h.bottom;
  }

  pub IsScan-open :
      (t : BracketType) (s : Scan) → IsScan line i s → IsScan line (suc i) (on_open t i s)
  IsScan-open t s h = record {
    open_blocks = (IsOpen-new t (s.idx + 1), All-later s.stack h.open_blocks);
    nested = (omega arith, h.nested);
    whole = IsOpen-later line i s.general h.whole;
    whole_text = h.whole_text;
    whole_level = h.whole_level;
    whole_start = h.whole_start;
    closed = h.closed;
    bottom = h.bottom;
  }

  pub IsScan-delim :
      (d : ℕ) (s : Scan) (st : List Block)
      → s.stack ≡ st
      → IsScan line i s
      → get_elem? line i ≡ some d
      → IsScan line (suc i) (on_delim d i s st)
  IsScan-delim d s [] e h at = record {
    open_blocks = All-later s.stack h.open_blocks;
    nested = h.nested;
    whole = add_delim-IsOpen line i d s.general h.whole at;
    whole_text = string-add_delim d i s.general ∙ h.whole_text;
    whole_level = level-add_delim d i s.general ∙ h.whole_level;
    whole_start = start-add_delim d i s.general ∙ h.whole_start;
    closed = h.closed;
    bottom = h.bottom;
  }
  IsScan-delim d s (b ∷ st) e h at =
      let opened = rw e at h.open_blocks in
      let levels = rw e at h.nested in
      record {
        open_blocks = (add_delim-IsOpen line i d b opened.0 at, All-later st opened.1);
        nested = (rw level-add_delim levels.0, levels.1);
        whole = IsOpen-later line i s.general h.whole;
        whole_text = h.whole_text;
        whole_level = h.whole_level;
        whole_start = h.whole_start;
        closed = h.closed;
        bottom = h.bottom;
      }

  pub ok_inj : {x y : Scan} → ok x ≡ ok y → x ≡ y
  ok_inj h = cc

  pub IsScan-close :
      (t : BracketType) (c : ℕ) (s : Scan) (st : List Block) (s' : Scan)
      → s.stack ≡ st
      → IsScan line i s
      → on_close line t i c s st ≡ ok s'
      → IsScan line (suc i) s'
  IsScan-close t c s [] s' e h r = cc
  IsScan-close t c s (b ∷ st) s' e h r = elim (Bool-cases (same_type t b.btype)) [
    | inl same ↦
        subst (IsScan line (suc i)) (ok_inj (rw same at r)) (popped (rw e at h.open_blocks))
    | inr differ ↦ absurd (not_ok (rw differ at r))
  ]
    where
      not_ok : {x : Scan} → ◌≡◌ {A = Result Scan} (err (wrong_brackets i c)) (ok x) → ⊥
      not_ok e = cc

      popped :
          All (IsOpen line i) (b ∷ st)
          → IsScan line (suc i) (record s {
            idx = s.idx - 1;
            stack = st;
            levels = add_block (close_block line i b) s.levels;
          })
      popped opened = record {
        open_blocks = All-later st opened.1;
        nested = (nested_blocks).1;
        whole = IsOpen-later line i s.general h.whole;
        whole_text = h.whole_text;
        whole_level = h.whole_level;
        whole_start = h.whole_start;
        closed =
            AllBlocks-add_block IsSplit (close_block line i b) s.levels
              (close_block-IsSplit line i b opened.0) h.closed;
        bottom = bottom_kept;
      }
        where
          nested_blocks : All (λ x. 1 ≤ x.level) (b ∷ st)
          nested_blocks = rw e at h.nested

          bottom_kept : get_level 0 (add_block (close_block line i b) s.levels) ≡ none
          bottom_kept =
              get_level-add_block_ne 0 (close_block line i b) s.levels
                (omega (arith, nested_blocks.0))
              ∙ h.bottom
