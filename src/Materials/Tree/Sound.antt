-- ===== src/Materials/Tree/Sound.antt =====
-- `_symbols_tree` as a whole: what the levels hold when it returns.
use mathlib.Core.Path.{subst}
use native.Mathlib.Nat.{sub-zero}
use native.Mathlib.Numerals.{add-one}
use orders_agent.Base.{
  ℕ, zero, suc, ◌+◌, ◌≡◌, refl, sym, ap, ◌∙◌, some, List, [], ◌∷◌, arith, nat_eq, Bool-cases,
  Option-cases, inl, inr, if◌then◌else◌,
}
use orders_agent.Base.Lists.{length, get_elem?, All, drop, elem}
use orders_agent.Base.Text.{Text, strip}
use orders_agent.Base.Dict.{lookup}
use orders_agent.Materials.Block.{
  content_start, negsuc, empty, DelimetersList, Block, BlockLevels, get_level, add_block,
}
use orders_agent.Materials.Block.Split.{shift, get_elem?-drop}
use orders_agent.Materials.Block.Counts.{HasMax-new, some_inj}
use orders_agent.Materials.Tree.{
  Result, ok, err, ◌>>=◌, opens, closes, Scan, on_delim, on_symbol, scan_from, start_scan, finish,
  symbols_tree,
}
use orders_agent.Materials.Tree.Accepted.{on_symbol-open, on_symbol-close, on_symbol-other}
use orders_agent.Materials.Tree.Blocks.{IsSplit, Splits, IsSplit-Splits}
use orders_agent.Materials.Tree.Levels.{
  AllBlocks, AllBlocks-add_block, IsScan, IsScan-skip, IsScan-open, IsScan-delim, IsScan-close,
  ok_inj, get_level-add_block,
}

-- A chain that gives a value has two links that do, the later one first.
module _ {V W : Type 0} (next : V → Result W) {w : W} where
  >>=-eq-ok : (r : Result V) → r >>= next ≡ ok w → (v : V) × (next v ≡ ok w) × (r ≡ ok v)
  >>=-eq-ok (err raised) h = cc
  >>=-eq-ok (ok v) h = (v, h, refl)

module _ (delims : List ℕ) (line : Text) where
  on_symbol-IsScan :
      (i c : ℕ) (s s' : Scan)
      → get_elem? line i ≡ some c
      → IsScan line i s
      → on_symbol delims line i c s ≡ ok s'
      → IsScan line (suc i) s'
  on_symbol-IsScan i c s s' at h r = elim (Option-cases (opens c)) [
    | inr (t, o) ↦
        subst (IsScan line (suc i)) (ok_inj line i (sym (on_symbol-open delims line i c t s o) ∙ r))
          (IsScan-open line i t s h)
    | inl o ↦ elim (Option-cases (closes c)) [
      | inr (t, k) ↦
          IsScan-close line i t c s s.stack s' refl h
            (sym (on_symbol-close delims line i c t s o k) ∙ r)
      | inl k ↦ other (sym (on_symbol-other delims line i c s o k) ∙ r)
    ]
  ]
    where
      other :
          (if elem c delims then ok (on_delim c i s s.stack) else ok s) ≡ ok s'
          → IsScan line (suc i) s'
      other e = elim (Bool-cases (elem c delims)) [
        | inl known ↦
            subst (IsScan line (suc i)) (ok_inj line i (rw known at e))
              (IsScan-delim line i c s s.stack refl h at)
        | inr plain ↦
            subst (IsScan line (suc i)) (ok_inj line i (rw plain at e)) (IsScan-skip line i s h)
      ]

  scan_from-IsScan :
      (i : ℕ) (rest : Text) (s s' : Scan)
      → drop i line ≡ rest
      → IsScan line i s
      → scan_from delims line i rest s ≡ ok s'
      → (j : ℕ) × IsScan line j s'
  unfolding scan_from
  scan_from-IsScan i [] s s' e h r = (i, subst (IsScan line i) (ok_inj line i r) h)
  scan_from-IsScan i (c ∷ rest) s s' e h r =
      let (at, later) = get_elem?-drop i line c rest e in
      let (s1, next, first) =
        >>=-eq-ok (scan_from delims line (i + 1) rest) (on_symbol delims line i c s) r in
      scan_from-IsScan (suc i) rest s1 s' later (on_symbol-IsScan i c s s1 at h first)
        (rw add-one at next)

IsScan-start : (line : Text) → IsScan line 0 (start_scan line)
IsScan-start line = record {
  open_blocks = tt;
  nested = tt;
  whole = record {
    max = record {
      counted = (HasMax-new empty 0 (negsuc 0) (some (length line))).counted;
      attained = refl;
    };
    started = omega arith;
    placed = λ d l e. unfold lookup in cc;
  };
  whole_text = refl;
  whole_level = refl;
  whole_start = refl;
  closed = λ n bs e. unfold lookup in cc;
  bottom = unfold lookup in refl;
}

shift_zero : (ps : List ℕ) → shift 0 ps ≡ ps
shift_zero [] = refl
shift_zero (p ∷ ps) = cc (shift_zero ps, sub-zero p)

-- The block of the whole line, when the scan is over.
general-IsSplit : (line : Text) (j : ℕ) (s : Scan) → IsScan line j s → IsSplit s.general
general-IsSplit line j s h = record {
  max = h.whole.max;
  string = (line, h.whole_text);
  cuts = λ d l t e st.
      let here = ap content_start h.whole_start in
      rw (here, shift_zero, ← some_inj (sym h.whole_text ∙ st))
        (rw here at (h.whole.placed d l e).0);
}

-- What the levels hold: blocks that split, and one block of level 0, of the stripped text.
pub record IsTree (text : Text) (levels : BlockLevels) : Type 0 where
  pub blocks : AllBlocks IsSplit levels
  pub general : Block
  pub general_level : get_level 0 levels ≡ some (general ∷ [])
  pub general_string : general.string ≡ some (strip text)
  pub general_split : IsSplit general

finish-IsTree :
    (text : Text) (j : ℕ) (s : Scan) (st : List Block) (levels : BlockLevels)
    → IsScan (strip text) j s
    → finish (strip text) s st ≡ ok levels
    → IsTree text levels
finish-IsTree text j s (b ∷ st) levels h r = cc
finish-IsTree text j s [] levels h r = subst (IsTree text) (same r) (record {
  blocks = AllBlocks-add_block IsSplit s.general s.levels split h.closed;
  general = s.general;
  general_level = rw (get_level-add_block, h.whole_level, h.bottom) refl;
  general_string = h.whole_text;
  general_split = split;
})
  where
    split : IsSplit s.general
    split = general-IsSplit (strip text) j s h

    same : ok (add_block s.general s.levels) ≡ ok levels → add_block s.general s.levels ≡ levels
    same e = cc

pub symbols_tree-IsTree :
    (text : Text) (delims : List ℕ) (levels : BlockLevels)
    → symbols_tree text delims ≡ ok levels
    → IsTree text levels
unfolding symbols_tree
symbols_tree-IsTree text delims levels h =
    let line = strip text in
    let (s, finished, scanned) =
      >>=-eq-ok (λ s. finish line s s.stack) (scan_from delims line 0 line (start_scan line)) h in
    let (j, scan) =
      scan_from-IsScan delims line 0 line (start_scan line) s refl (IsScan-start line) scanned in
    finish-IsTree text j s s.stack levels scan finished

All-get :
    (P : Block → Type 0) (bs : List Block) (k : ℕ) {b : Block}
    → All P bs
    → get_elem? bs k ≡ some b
    → P b
All-get P [] k h e = cc
All-get P (x ∷ bs) zero h e = subst P (some_inj e) h.0
All-get P (x ∷ bs) (suc k) h e = All-get P bs k h.1 e

-- Every block that `_symbols_tree` returns, of any level, split by any delimeter that it has met,
-- gives parts that joined by the delimeter are the string of the block; there is one part more
-- than the delimeter was counted.
pub symbols_tree-Splits :
    (text : Text) (delims : List ℕ) (levels : BlockLevels) (n k d : ℕ) (bs : List Block) (b : Block)
    (l : DelimetersList)
    → symbols_tree text delims ≡ ok levels
    → get_level n levels ≡ some bs
    → get_elem? bs k ≡ some b
    → lookup d b.delims ≡ some l
    → Splits b d l
symbols_tree-Splits text delims levels n k d bs b l h e at known =
    IsSplit-Splits b d l
      (All-get IsSplit bs k ((symbols_tree-IsTree text delims levels h).blocks n bs e) at) known
