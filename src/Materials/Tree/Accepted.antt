-- ===== src/Materials/Tree/Accepted.antt =====
-- `_symbols_tree` and the grammar of balanced lines: the loop accepts what the grammar derives.
use mathlib.Core.List.{append-nil}
use orders_agent.Base.{
  ℕ, ◌+◌, ◌≡◌, refl, sym, ap, ◌∙◌, ◌↔◌, Bool, true, false, none, some, List, [], ◌∷◌, arith,
  Option-cases, Bool-cases, inl, inr, if◌then◌else◌, nat_eq,
}
use orders_agent.Base.Lists.{elem}
use orders_agent.Base.Text.{Text, strip}
use orders_agent.Materials.Block.{BracketType, same_type, Block, add_delim}
use orders_agent.Materials.Tree.{
  Result, ok, err, ◌>>=◌, opens, closes, Scan, on_symbol, scan_from, on_open, on_close, on_delim,
  start_scan, finish, symbols_tree, BlockLevels,
}
use orders_agent.Materials.Tree.Balance.{
  Balanced, accepts, accepts-append, accepts-Closes, Closes, is_nil, pop, opened, closed, skipped,
}

abbrev pub is_ok : {A : Type 0} → Result A → Bool
is_ok (ok _) = true
is_ok (err _) = false

abbrev open_types : List Block → List BracketType
open_types [] = []
open_types (b ∷ bs) = b.btype ∷ open_types bs

abbrev run : List ℕ → Text → ℕ → Text → Scan → Result BlockLevels
run delims line i s sc = scan_from delims line i s sc >>= λ z. finish line z z.stack

finish_accepts :
    (line : Text) (sc : Scan) (st : List Block) → is_ok (finish line sc st) ≡ is_nil (open_types st)
finish_accepts line sc [] = refl
finish_accepts line sc (b ∷ st) = refl

btype-add_delim : (d i : ℕ) (b : Block) → (add_delim d i b).btype ≡ b.btype
unfolding add_delim
btype-add_delim d i b = ground arith

pub >>=_assoc :
    {A B C : Type 0} (m : Result A) (f : A → Result B) (g : B → Result C)
    → (m >>= f >>= g) ≡ (m >>= λ a. f a >>= g)
>>=_assoc (ok a) f g = refl
>>=_assoc (err e) f g = refl

pub on_symbol-open :
    (delims : List ℕ) (line : Text) (i c : ℕ) (t : BracketType) (sc : Scan)
    → opens c ≡ some t
    → on_symbol delims line i c sc ≡ ok (on_open t i sc)
on_symbol-open delims line i c t sc h = unfold on_symbol in rw (on_symbol, h)

pub on_symbol-close :
    (delims : List ℕ) (line : Text) (i c : ℕ) (t : BracketType) (sc : Scan)
    → opens c ≡ none
    → closes c ≡ some t
    → on_symbol delims line i c sc ≡ on_close line t i c sc sc.stack
on_symbol-close delims line i c t sc h k = unfold on_symbol in rw (on_symbol, h, k)

pub on_symbol-other :
    (delims : List ℕ) (line : Text) (i c : ℕ) (sc : Scan)
    → opens c ≡ none
    → closes c ≡ none
    → on_symbol delims line i c sc
      ≡ (if elem c delims then ok (on_delim c i sc sc.stack) else ok sc)
on_symbol-other delims line i c sc h k = unfold on_symbol in rw (on_symbol, h, k)

module _ (delims : List ℕ) (line : Text) (i : ℕ) (s : Text)
    (ih : (z : Scan) → is_ok (run delims line i s z) ≡ accepts s (open_types z.stack)) where
  close_accepted :
      (j c : ℕ) (t : BracketType) (sc : Scan) (st : List Block)
      → is_ok (on_close line t j c sc st >>= run delims line i s)
        ≡ pop t (open_types st) (accepts s)
  close_accepted j c t sc [] = refl
  close_accepted j c t sc (b ∷ st) = elim (Bool-cases (same_type t b.btype)) [
    | inl same ↦ rw same (ih _)
    | inr differ ↦ rw differ
  ]

  delim_accepted :
      (j c : ℕ) (sc : Scan) (st : List Block)
      → sc.stack ≡ st
      → is_ok (run delims line i s (on_delim c j sc st)) ≡ accepts s (open_types st)
  delim_accepted j c sc [] e = ih _ ∙ ap (λ (x : List Block). accepts s (open_types x)) e
  delim_accepted j c sc (b ∷ st) e = ih _ ∙ rw btype-add_delim

  other_accepted :
      (j c : ℕ) (sc : Scan)
      → is_ok
          ((if elem c delims then ok (on_delim c j sc sc.stack) else ok sc) >>= run delims line i s)
        ≡ accepts s (open_types sc.stack)
  other_accepted j c sc = elim (Bool-cases (elem c delims)) [
    | inl known ↦ rw known (delim_accepted j c sc sc.stack refl)
    | inr plain ↦ rw plain (ih sc)
  ]

run_next :
    (delims : List ℕ) (line : Text) (i c : ℕ) (s : Text) (sc : Scan)
    → run delims line i (c ∷ s) sc ≡ (on_symbol delims line i c sc >>= run delims line (i + 1) s)
unfolding scan_from
run_next delims line i c s sc = >>=_assoc (on_symbol delims line i c sc) _ _

run_accepted :
    (delims : List ℕ) (line : Text) (i : ℕ) (s : Text) (sc : Scan)
    → is_ok (run delims line i s sc) ≡ accepts s (open_types sc.stack)
run_accepted delims line i [] sc = unfold scan_from accepts in finish_accepts line sc sc.stack
run_accepted delims line i (c ∷ s) sc = elim (Option-cases (opens c)) [
  | inr (t, o) ↦
      rw (run_next, on_symbol-open delims line i c t sc o, opened c t s (open_types sc.stack) o)
        (run_accepted delims line (i + 1) s (on_open t i sc))
  | inl o ↦ elim (Option-cases (closes c)) [
    | inr (t, k) ↦
        rw
          (run_next, on_symbol-close delims line i c t sc o k, closed c t s (open_types sc.stack) k)
          (close_accepted delims line (i + 1) s (run_accepted delims line (i + 1) s) i c t sc
            sc.stack)
    | inl k ↦
        rw (run_next, on_symbol-other delims line i c sc o k, skipped c s (open_types sc.stack) o k)
          (other_accepted delims line (i + 1) s (run_accepted delims line (i + 1) s) i c sc)
  ]
]

-- A material name is scanned without an exception exactly when the brackets of the stripped name
-- are balanced.
pub symbols_tree-ok_iff :
    (text : Text) (delims : List ℕ)
    → (is_ok (symbols_tree text delims) ≡ true) ↔ Balanced (strip text)
unfolding symbols_tree accepts
symbols_tree-ok_iff text delims =
    (λ h. unfold Closes in accepts-Closes line [] (sym run_start ∙ h), λ b. run_start ∙ accepted b)
  where
    line : Text
    line = strip text

    run_start : is_ok (run delims line 0 line (start_scan line)) ≡ accepts line []
    run_start = run_accepted delims line 0 line (start_scan line)

    accepted : Balanced line → accepts line [] ≡ true
    accepted b = rw (← append-nil line) (accepts-append line [] [] b)
