-- ===== src/Materials/Tree/Balance.antt =====
-- Which lines `_symbols_tree` accepts: those whose brackets are balanced.
use mathlib.Core.Bool.{false≢true}
use mathlib.Core.List.{append_assoc}
use orders_agent.Base.{
  ℕ, ◌≡◌, refl, sym, ap, ◌∙◌, ◌↔◌, Bool, true, false, ◌&&◌, none, some, List, [], ◌∷◌, ◌++◌, arith,
  Option-cases, Bool-cases, inl, inr,
}
use orders_agent.Base.Text.{Text}
use orders_agent.Materials.Block.{BracketType, same_type}
use orders_agent.Materials.Tree.{opens, closes}

-- Texts whose brackets are balanced, by a grammar.
pub data Balanced : Text → Type 0 where
  empty : Balanced []
  plain : (c : ℕ) (s : Text) → opens c ≡ none → closes c ≡ none → Balanced s → Balanced (c ∷ s)
  nest :
      {x : Text} (o c : ℕ) (t : BracketType) (s r : Text)
      → opens o ≡ some t
      → closes c ≡ some t
      → Balanced s
      → Balanced r
      → x ≡ o ∷ (s ++ c ∷ r)
      → Balanced x

pub same_type_iff : (t u : BracketType) → (same_type t u ≡ true) ↔ (t ≡ u)
same_type_iff t u = ground arith

abbrev pub pop : BracketType → List BracketType → (List BracketType → Bool) → Bool
pop t [] k = false
pop t (u ∷ st) k = same_type t u && k st

abbrev pub is_nil : List BracketType → Bool
is_nil [] = true
is_nil (_ ∷ _) = false

-- The brackets of a text close those in the list, the last one opened first.
unfoldable pub accepts : Text → List BracketType → Bool
accepts [] st = is_nil st
accepts (c ∷ s) st = elim (opens c) [
  | some t ↦ accepts s (t ∷ st)
  | none ↦ elim (closes c) [ some t ↦ pop t st (accepts s) | none ↦ accepts s st ]
]

same_type_refl : (t : BracketType) → same_type t t ≡ true
same_type_refl t = (same_type_iff t t).1 refl

-- No character is both.
pub opens-closes : (c : ℕ) (t : BracketType) → closes c ≡ some t → opens c ≡ none
unfolding opens closes
opens-closes c t h = ground arith

accepts-close :
    (c : ℕ) (t : BracketType) (s : Text) (st : List BracketType)
    → closes c ≡ some t
    → accepts (c ∷ s) (t ∷ st) ≡ accepts s st
unfolding accepts
accepts-close c t s st h = rw (accepts, opens-closes c t h, h, same_type_refl t)

pub opened :
    (c : ℕ) (t : BracketType) (s : Text) (st : List BracketType)
    → opens c ≡ some t
    → accepts (c ∷ s) st ≡ accepts s (t ∷ st)
unfolding accepts
opened c t s st h = rw (accepts, h)

pub closed :
    (c : ℕ) (t : BracketType) (s : Text) (st : List BracketType)
    → closes c ≡ some t
    → accepts (c ∷ s) st ≡ pop t st (accepts s)
unfolding accepts
closed c t s st h = rw (accepts, opens-closes c t h, h)

pub skipped :
    (c : ℕ) (s : Text) (st : List BracketType)
    → opens c ≡ none
    → closes c ≡ none
    → accepts (c ∷ s) st ≡ accepts s st
unfolding accepts
skipped c s st o k = rw (accepts, o, k)

pub accepts-append :
    (s r : Text) (st : List BracketType) → Balanced s → accepts (s ++ r) st ≡ accepts r st
accepts-append s r st empty = refl
accepts-append s r st (plain c s' o k b) = skipped c (s' ++ r) st o k ∙ accepts-append s' r st b
accepts-append s r st (nest o c t a b po pc ba bb e) =
    rw (e, append_assoc)
      (opened o t (a ++ c ∷ (b ++ r)) st po
        ∙ accepts-append a (c ∷ (b ++ r)) (t ∷ st) ba
        ∙ accepts-close c t (b ++ r) st pc
        ∙ accepts-append b r st bb)

-- What a text that closes `st` looks like.
unfoldable pub Closes : List BracketType → Text → Type 0
Closes [] s = Balanced s
Closes (t ∷ st) s =
    (a : Text) × (c : ℕ) × (b : Text) × (s ≡ a ++ c ∷ b)
    × (closes c ≡ some t)
    × Balanced a
    × Closes st b

Closes-plain :
    (c : ℕ) (s : Text) (st : List BracketType)
    → opens c ≡ none
    → closes c ≡ none
    → Closes st s
    → Closes st (c ∷ s)
unfolding Closes
Closes-plain c s [] o k h = plain c s o k h
Closes-plain c s (t ∷ st) o k (a, d, b, e, pd, ba, h) =
    (c ∷ a, d, b, ap (λ (x : Text). c ∷ x) e, pd, plain c a o k ba, h)

Closes-nest :
    (o c : ℕ) (t : BracketType) (a b : Text) (st : List BracketType)
    → opens o ≡ some t
    → closes c ≡ some t
    → Balanced a
    → Closes st b
    → Closes st (o ∷ (a ++ c ∷ b))
unfolding Closes
Closes-nest o c t a b [] po pc ba h = nest o c t a b po pc ba h refl
Closes-nest o c t a b (u ∷ st) po pc ba (a', d, b', e, pd, ba', h) = (
  o ∷ (a ++ c ∷ a'),
  d,
  b',
  rw e (ap (λ (x : Text). o ∷ x) (sym (append_assoc a (c ∷ a') (d ∷ b')))),
  pd,
  nest o c t a a' po pc ba ba' refl,
  h,
)

Closes-close :
    (c : ℕ) (s : Text) (t : BracketType) (st : List BracketType)
    → closes c ≡ some t
    → pop t st (accepts s) ≡ true
    → ((rest : List BracketType) → accepts s rest ≡ true → Closes rest s)
    → Closes st (c ∷ s)
unfolding Closes
Closes-close c s t [] k h ih = absurd (false≢true h)
Closes-close c s t (u ∷ st) k h ih = elim (Bool-cases (same_type t u)) [
  | inl same ↦
      ([], c, s, refl, k ∙ ap some ((same_type_iff t u).0 same), empty, ih st (rw same at h))
  | inr differ ↦ absurd (false≢true (rw differ at h))
]

nested :
    (o : ℕ) (t : BracketType) (s : Text) (st : List BracketType)
    → opens o ≡ some t
    → Closes (t ∷ st) s
    → Closes st (o ∷ s)
nested o t s st po h = nested_at (unfold Closes in h)
  where
    nested_at :
        (a : Text) × (c : ℕ) × (b : Text) × (s ≡ a ++ c ∷ b)
          × (closes c ≡ some t)
          × Balanced a
          × Closes st b
        → Closes st (o ∷ s)
    nested_at (a, c, b, e, pc, ba, h') = rw e (Closes-nest o c t a b st po pc ba h')

pub accepts-Closes : (s : Text) (st : List BracketType) → accepts s st ≡ true → Closes st s
accepts-Closes [] [] h = unfold Closes in empty
accepts-Closes [] (t ∷ st) h = absurd (false≢true (unfold accepts in h))
accepts-Closes (c ∷ s) st h = elim (Option-cases (opens c)) [
  | inr (t, po) ↦ nested c t s st po (accepts-Closes s (t ∷ st) (sym (opened c t s st po) ∙ h))
  | inl o ↦ elim (Option-cases (closes c)) [
    | inr (t, pc) ↦
        Closes-close c s t st pc (sym (closed c t s st pc) ∙ h) (λ rest. accepts-Closes s rest)
    | inl k ↦ Closes-plain c s st o k (accepts-Closes s st (sym (skipped c s st o k) ∙ h))
  ]
]
