-- ===== src/Materials/Block/Counts.antt =====
-- `Block.add_delim`: what holds of the counts and of the positions that a block keeps.
use mathlib.Core.Bool.{false≢true}
use orders_agent.Base.{
  ℕ, ◌+◌, ◌≤◌, ◌≡◌, ◌≢◌, refl, sym, ◌∙◌, true, false, Option, none, some, [], ◌∷◌, arith, ==_iff,
  nat_eq, ◌==◌, Bool-cases, Option-cases, inl, inr, ltb, if◌then◌else◌,
}
use orders_agent.Base.Lists.{length, length-append}
use orders_agent.Base.Dict.{lookup, insert, lookup-insert, lookup-insert_self, lookup-insert_ne}
use orders_agent.Materials.Block.{
  ℤ, DelimetersList, add_index, BracketType, Block, new_block, delims_of, add_delim,
}

-- The delimeter with the highest count, and that count; none and 0 before any is seen.
abbrev pub Attained : Option ℕ → Block → Type 0
Attained none b = b.max_count ≡ 0
Attained (some d) b =
    (l : DelimetersList) × (lookup d b.delims ≡ some l) × (l.count ≡ b.max_count) × (1 ≤ l.count)

pub record HasMax (b : Block) : Type 0 where
  pub counted :
      (d : ℕ) (l : DelimetersList)
      → lookup d b.delims ≡ some l
      → (l.count ≡ length l.index) × (l.count ≤ b.max_count)
  pub attained : Attained b.max_delimeter b

pub HasMax-new : (t : BracketType) (n : ℕ) (i : ℤ) (e : Option ℕ) → HasMax (new_block t n i e)
HasMax-new t n i e = record { counted = λ d l h. unfold lookup in cc; attained = refl }

delims_of-counted :
    (d : ℕ) (b : Block)
    → HasMax b
    → let l = delims_of d b in (l.count ≡ length l.index) × (l.count ≤ b.max_count)
delims_of-counted d b h = elim (Option-cases (lookup d b.delims)) [
  | inl new ↦ rw (delims_of, new) (refl, omega arith)
  | inr (l, old) ↦ rw (delims_of, old) (h.counted d l old)
]

delims-add_delim :
    (d i : ℕ) (b : Block)
    → (add_delim d i b).delims ≡ insert d (add_index i (delims_of d b)) b.delims
unfolding add_delim
delims-add_delim d i b = ground arith

pub lookup-add_delim :
    (d i : ℕ) (b : Block) (k : ℕ)
    → lookup k (add_delim d i b).delims
      ≡ (if d == k then some (add_index i (delims_of d b)) else lookup k b.delims)
lookup-add_delim d i b k = rw delims-add_delim (lookup-insert d k _ b.delims)

max_count-add_delim :
    (d i : ℕ) (b : Block)
    → let l = delims_of d b in
      (b.max_count ≤ (add_delim d i b).max_count) × (l.count + 1 ≤ (add_delim d i b).max_count)
unfolding add_delim
max_count-add_delim d i b = ground arith

pub some_inj {ℓ} : {A : Type ℓ} {k l : A} → some k ≡ some l → k ≡ l
some_inj h = cc

counted_step :
    (d i : ℕ) (b : Block) (k : ℕ) (l : DelimetersList)
    → HasMax b
    → lookup k (add_delim d i b).delims ≡ some l
    → (l.count ≡ length l.index) × (l.count ≤ (add_delim d i b).max_count)
counted_step d i b k l h e = elim (Bool-cases (d == k)) [
  | inl same ↦ added (some_inj (sym (rw same at (lookup-add_delim d i b k)) ∙ e))
  | inr other ↦ kept (h.counted k l (sym (rw other at (lookup-add_delim d i b k)) ∙ e))
]
  where
    added :
        add_index i (delims_of d b) ≡ l
        → (l.count ≡ length l.index) × (l.count ≤ (add_delim d i b).max_count)
    added same = rw (← same) (
        omega (
          arith,
          delims_of-counted d b h,
          length-append {0} (delims_of d b).index (i ∷ []),
          max_count-add_delim d i b,
        ))

    kept :
        (l.count ≡ length l.index) × (l.count ≤ b.max_count)
        → (l.count ≡ length l.index) × (l.count ≤ (add_delim d i b).max_count)
    kept old = omega (arith, max_count-add_delim d i b)

-- The block with the position entered, before the maximum is looked at.
abbrev entered : ℕ → ℕ → Block → Block
entered d i b = record b { delims = insert d (add_index i (delims_of d b)) b.delims }

add_delim-more :
    (d i : ℕ) (b : Block)
    → ltb b.max_count ((delims_of d b).count + 1) ≡ true
    → add_delim d i b
      ≡ record (entered d i b) { max_count = (delims_of d b).count + 1; max_delimeter = some d }
unfolding add_delim
add_delim-more d i b h = ground arith

add_delim-less :
    (d i : ℕ) (b : Block)
    → ltb b.max_count ((delims_of d b).count + 1) ≡ false
    → add_delim d i b ≡ entered d i b
unfolding add_delim
add_delim-less d i b h = ground arith

Attained-more :
    (d i : ℕ) (b : Block) (o : Option ℕ)
    → Attained
        (some d)
        (record (entered d i b) { max_count = (delims_of d b).count + 1; max_delimeter = o })
Attained-more d i b o =
    (add_index i (delims_of d b), lookup-insert_self d _ b.delims, refl, omega arith)

pub delims_of-some :
    (d : ℕ) (l : DelimetersList) (b : Block) → lookup d b.delims ≡ some l → delims_of d b ≡ l
delims_of-some d l b h = rw (delims_of, h)

not_less : (n m : ℕ) → n ≡ m → ltb m (n + 1) ≡ false → ⊥
not_less n m e h = ground arith

Attained-less :
    (d i : ℕ) (b : Block) (o : Option ℕ)
    → Attained o b
    → ltb b.max_count ((delims_of d b).count + 1) ≡ false
    → Attained o (entered d i b)
Attained-less d i b none a h = absurd (ground arith)
Attained-less d i b (some m) (l, at, eq, some_seen) h = elim (Bool-cases (d == m)) [
  | inl same ↦ absurd (clash ((==_iff d m).0 same))
  | inr other ↦ (l, lookup-insert_ne d m _ b.delims (differ other) ∙ at, eq, some_seen)
]
  where
    clash : d ≡ m → ⊥
    clash e =
        let known = delims_of-some d l b (rw e at) in
        let kept = rw known at h in absurd (not_less l.count b.max_count eq kept)

    differ : (d == m) ≡ false → d ≢ m
    differ e same = false≢true (sym e ∙ (==_iff d m).1 same)

pub HasMax-add_delim : (d i : ℕ) (b : Block) → HasMax b → HasMax (add_delim d i b)
HasMax-add_delim d i b h = record {
  counted = λ k l e. counted_step d i b k l h e;
  attained = elim (Bool-cases (ltb b.max_count ((delims_of d b).count + 1))) [
    | inl more ↦ rw (add_delim-more d i b more) (Attained-more d i b (some d))
    | inr less ↦
        rw (add_delim-less d i b less) (Attained-less d i b b.max_delimeter h.attained less)
  ];
}
