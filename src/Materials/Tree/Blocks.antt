-- ===== src/Materials/Tree/Blocks.antt =====
-- The blocks of `_symbols_tree`: an open block knows where its delimeters stand in the line, and a
-- closed one splits into parts that give its string back.
use mathlib.Core.Path.{subst}
use orders_agent.Base.{
  ℕ, suc, ◌+◌, ◌≤◌, ◌<◌, ◌≡◌, refl, sym, ◌∙◌, Option, none, some, List, [], ◌∷◌, arith, ==_iff,
  nat_eq, ◌==◌, Bool-cases, Option-cases, inl, inr,
}
use orders_agent.Base.Lists.{length, get_elem?, All, All-append, slice}
use orders_agent.Base.Text.{Text}
use orders_agent.Base.Dict.{lookup}
use orders_agent.Materials.Block.{
  content_start, DelimetersList, add_index, Block, delims_of, add_delim, split_loop, split_by_delim,
}
use orders_agent.Materials.Block.Split.{
  Cuts, Cuts-append, Cuts-slice, shift, join, join-split_loop, length-split_loop,
}
use orders_agent.Materials.Block.Counts.{
  Attained, HasMax, HasMax-add_delim, lookup-add_delim, some_inj,
}
use orders_agent.Materials.Tree.{close_block}

-- The positions of one delimeter, while the scan is at `i`.
abbrev Placed : Text → ℕ → Block → ℕ → List ℕ → Type 0
Placed line i b d ps = Cuts d line (content_start b.start) ps × All (λ p. p < i) ps

pub record IsOpen (line : Text) (i : ℕ) (b : Block) : Type 0 where
  pub max : HasMax b
  pub started : content_start b.start ≤ i
  pub placed : (d : ℕ) (l : DelimetersList) → lookup d b.delims ≡ some l → Placed line i b d l.index

pub record IsSplit (b : Block) : Type 0 where
  pub max : HasMax b
  pub string : (s : Text) × (b.string ≡ some s)
  pub cuts :
      (d : ℕ) (l : DelimetersList) (s : Text)
      → lookup d b.delims ≡ some l
      → b.string ≡ some s
      → Cuts d s 0 (shift (content_start b.start) l.index)

All-lt_suc : (i : ℕ) (ps : List ℕ) → All (λ p. p < i) ps → All (λ p. p < suc i) ps
All-lt_suc i [] h = tt
All-lt_suc i (p ∷ ps) h = (omega arith, All-lt_suc i ps h.1)

pub start-add_delim : (d i : ℕ) (b : Block) → (add_delim d i b).start ≡ b.start
unfolding add_delim
start-add_delim d i b = ground arith

pub string-add_delim : (d i : ℕ) (b : Block) → (add_delim d i b).string ≡ b.string
unfolding add_delim
string-add_delim d i b = ground arith

pub level-add_delim : (d i : ℕ) (b : Block) → (add_delim d i b).level ≡ b.level
unfolding add_delim
level-add_delim d i b = ground arith

module _ (line : Text) (i : ℕ) where
  pub IsOpen-later : (b : Block) → IsOpen line i b → IsOpen line (suc i) b
  IsOpen-later b h = record {
    max = h.max;
    started = omega (arith, h.started);
    placed = λ d l e. ((h.placed d l e).0, All-lt_suc i l.index (h.placed d l e).1);
  }

  Placed-before : (d : ℕ) (b : Block) → IsOpen line i b → Placed line i b d (delims_of d b).index
  Placed-before d b h = elim (Option-cases (lookup d b.delims)) [
    | inl new ↦ rw (delims_of, new) (tt, tt)
    | inr (l, old) ↦ rw (delims_of, old) (h.placed d l old)
  ]

  Placed-after :
      (d : ℕ) (b : Block) (k : ℕ) (l : DelimetersList)
      → IsOpen line i b
      → get_elem? line i ≡ some d
      → lookup k (add_delim d i b).delims ≡ some l
      → Placed line (suc i) b k l.index
  Placed-after d b k l h at e = elim (Bool-cases (d == k)) [
    | inl same ↦
        added (some_inj (sym (rw same at (lookup-add_delim d i b k)) ∙ e)) ((==_iff d k).0 same)
    | inr other ↦ (IsOpen-later b h).placed k l (sym (rw other at (lookup-add_delim d i b k)) ∙ e)
  ]
    where
      added : add_index i (delims_of d b) ≡ l → d ≡ k → Placed line (suc i) b k l.index
      added same de =
          let (cuts, below) = Placed-before d b h in
          rw (← same, ← de)
            (
              Cuts-append d line (content_start b.start) (delims_of d b).index i cuts below
                  h.started at,
              All-append (λ p. p < suc i) (delims_of d b).index (i ∷ [])
                  (All-lt_suc i (delims_of d b).index below) (omega arith),
            )

  pub add_delim-IsOpen :
      (d : ℕ) (b : Block)
      → IsOpen line i b
      → get_elem? line i ≡ some d
      → IsOpen line (suc i) (add_delim d i b)
  add_delim-IsOpen d b h at = record {
    max = HasMax-add_delim d i b h.max;
    started = rw start-add_delim (omega (arith, h.started));
    placed = λ k l e. rw start-add_delim (Placed-after d b k l h at e);
  }

  Attained-close : (o : Option ℕ) (b : Block) → Attained o b → Attained o (close_block line i b)
  Attained-close none b h = h
  Attained-close (some d) b h = h

  pub close_block-IsSplit : (b : Block) → IsOpen line i b → IsSplit (close_block line i b)
  close_block-IsSplit b h = record {
    max = record {
      counted = h.max.counted;
      attained = Attained-close b.max_delimeter b h.max.attained;
    };
    string = (slice (content_start b.start) i line, refl);
    cuts = λ d l s e t. rw (← some_inj t) (content_cuts d l e);
  }
    where
      content_cuts :
          (d : ℕ) (l : DelimetersList)
          → lookup d b.delims ≡ some l
          → Cuts d (slice (content_start b.start) i line) 0 (shift (content_start b.start) l.index)
      content_cuts d l e =
          let offset = content_start b.start in
          subst (λ (n : ℕ). Cuts d (slice offset i line) n (shift offset l.index)) (omega arith)
            (Cuts-slice d line offset i offset l.index (omega arith) (h.placed d l e).0
              (h.placed d l e).1)

-- The parts that a block splits into by one of its delimeters.
abbrev pub Splits : Block → ℕ → DelimetersList → Type 0
Splits b d l =
    (s : Text) × (parts : List Text) × (b.string ≡ some s)
    × (split_by_delim d b ≡ some parts)
    × (join d parts ≡ s)
    × (length parts ≡ l.count + 1)

split_by_delim-eq :
    (d : ℕ) (b : Block) (l : DelimetersList) (s : Text)
    → lookup d b.delims ≡ some l
    → b.string ≡ some s
    → split_by_delim d b ≡ some (split_loop (content_start b.start) s 0 l.index)
unfolding split_by_delim
split_by_delim-eq d b l s e t = rw (split_by_delim, e, t)

pub IsSplit-Splits :
    (b : Block) (d : ℕ) (l : DelimetersList) → IsSplit b → lookup d b.delims ≡ some l → Splits b d l
IsSplit-Splits b d l h e =
    let (s, t) = h.string in
    let offset = content_start b.start in
    (
      s,
      split_loop offset s 0 l.index,
      t,
      split_by_delim-eq d b l s e t,
      join-split_loop d offset s 0 l.index (h.cuts d l s e t),
      omega (arith, length-split_loop offset s 0 l.index, (h.max.counted d l e).0),
    )
