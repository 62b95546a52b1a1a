-- ===== src/Processing/Features/Suffix.antt =====
-- processors/classify/features.py: the regular expression of `extract_files_features`.
use orders_agent.Base.{
  ℕ, ◌≡◌, ◌≢◌, refl, ap, ◌∙◌, ◌⊎◌, Bool, true, false, ◌==◌, ◌&&◌, Option, none, some, some_inj,
  none-some, [], ◌∷◌, ◌++◌, arith, Bool-cases, Option-cases, inl, inr, if◌then◌else◌,
}
use mathlib.Core.Path.{subst}
use orders_agent.Base.Lists.{All}
use orders_agent.Base.Text.{Text, text_beq, text_beq_iff}
use orders_agent.Processing.Features.{is_lower, suffix_end, not_empty_suffix, suffix_from}

-- Nothing, or a line feed, which `$` passes over.
abbrev pub AtEnd : Text → Type 0
AtEnd tail = (tail ≡ []) ⊎ (tail ≡ 10 ∷ [])

abbrev pub IsLower : ℕ → Type 0
IsLower c = is_lower c ≡ true

abbrev pub InLine : ℕ → Type 0
InLine c = c ≢ 10

suffix_end-AtEnd : (tail : Text) → AtEnd tail → suffix_end tail ≡ some []
unfolding suffix_end text_beq
suffix_end-AtEnd tail (inl e) = ap suffix_end e
suffix_end-AtEnd tail (inr e) = ap suffix_end e

suffix_end-lower : (t tail : Text) → All IsLower t → AtEnd tail → suffix_end (t ++ tail) ≡ some t
unfolding suffix_end
suffix_end-lower [] tail low end_ = suffix_end-AtEnd tail end_
suffix_end-lower (c ∷ t) tail low end_ =
    rw (suffix_end, low.0) (rw (suffix_end-lower t tail low.1 end_) refl)

-- What the suffix is.
pub record Ends (s t : Text) : Type 0 where
  pub tail : Text
  pub split : s ≡ t ++ tail
  pub lower : All IsLower t
  pub at_end : AtEnd tail

pub suffix_end-Ends : (s t : Text) → suffix_end s ≡ some t → Ends s t
unfolding suffix_end
suffix_end-Ends [] t e =
    subst (Ends []) (some_inj e) (record { tail = []; split = refl; lower = tt; at_end = inl refl })
suffix_end-Ends (c ∷ s) t e = elim (Bool-cases (is_lower c)) [
  | inl low ↦ elim (Option-cases (suffix_end s)) [
    | inl gone ↦ absurd (none-some (rw (suffix_end, low, gone) at e))
    | inr (u, there) ↦
        let rest = suffix_end-Ends s u there in
        subst (Ends (c ∷ s)) (some_inj (rw (suffix_end, low, there) at e)) (record {
          tail = rest.tail;
          split = ap (λ x. c ∷ x) rest.split;
          lower = (low, rest.lower);
          at_end = rest.at_end;
        })
  ]
  | inr other ↦ elim (Bool-cases (text_beq (c ∷ s) (10 ∷ []))) [
    | inl feed ↦ subst (Ends (c ∷ s)) (some_inj (rw (suffix_end, other, feed) at e)) (record {
      tail = c ∷ s;
      split = refl;
      lower = tt;
      at_end = inr ((text_beq_iff (c ∷ s) (10 ∷ [])).0 feed);
    })
    | inr no_ ↦ absurd (none-some (rw (suffix_end, other, no_) at e))
  ]
]

-- Behind the point there is no other.
suffix_from-none :
    (b : Bool) (t tail : Text) → All IsLower t → AtEnd tail → suffix_from b (t ++ tail) ≡ none
unfolding suffix_from
suffix_from-none b [] tail low (inl e) = ap (suffix_from b) e
suffix_from-none true [] tail low (inr e) = ap (suffix_from true) e
suffix_from-none false [] tail low (inr e) = ap (suffix_from false) e
suffix_from-none b (c ∷ t) tail low end_ =
    ground (arith, suffix_from-none true t tail low.1 end_, low.0)

point :
    (c : ℕ) (t tail : Text)
    → All IsLower (c ∷ t)
    → AtEnd tail
    → suffix_from true (46 ∷ ((c ∷ t) ++ tail)) ≡ some (c ∷ t)
unfolding suffix_from
point c t tail low end_ =
    rw
      (
        suffix_from,
        suffix_from-none true (c ∷ t) tail low end_,
        suffix_end-lower (c ∷ t) tail low end_,
      )
      refl

suffix_from-started :
    (stem : Text) (c : ℕ) (t tail : Text)
    → All InLine stem
    → All IsLower (c ∷ t)
    → AtEnd tail
    → suffix_from true (stem ++ 46 ∷ ((c ∷ t) ++ tail)) ≡ some (c ∷ t)
unfolding suffix_from
suffix_from-started [] c t tail line low end_ = point c t tail low end_
suffix_from-started (x ∷ stem) c t tail line low end_ =
    ground (arith, suffix_from-started stem c t tail line.1 low end_, line.0)

pub suffix_from-fresh :
    (stem : Text) (c : ℕ) (t tail : Text)
    → stem ≢ []
    → All InLine stem
    → All IsLower (c ∷ t)
    → AtEnd tail
    → suffix_from false (stem ++ 46 ∷ ((c ∷ t) ++ tail)) ≡ some (c ∷ t)
unfolding suffix_from
suffix_from-fresh [] c t tail full line low end_ = absurd (full refl)
suffix_from-fresh (x ∷ stem) c t tail full line low end_ =
    ground (arith, suffix_from-started stem c t tail line.1 low end_, line.0)

-- What `suffix_from` has found; `b` tells whether characters stand before.
pub record Found (b : Bool) (s t : Text) : Type 0 where
  pub stem : Text
  pub rest : Text
  pub split : s ≡ stem ++ 46 ∷ rest
  pub line : All InLine stem
  pub started : b ≡ false → stem ≢ []
  pub suffix : suffix_end rest ≡ some t

after_char : (b : Bool) (c : ℕ) (s t : Text) → c ≢ 10 → Found true s t → Found b (c ∷ s) t
after_char b c s t h f = record {
  stem = c ∷ f.stem;
  rest = f.rest;
  split = ap (λ x. c ∷ x) f.split;
  line = (h, f.line);
  started = λ e n. cc;
  suffix = f.suffix;
}

not_empty_inj : (o : Option Text) (t : Text) → not_empty_suffix o ≡ some t → o ≡ some t
not_empty_inj none t e = e
not_empty_inj (some []) t e = cc
not_empty_inj (some (c ∷ u)) t e = e

at_point :
    (b : Bool) (c : ℕ) (s t : Text)
    → (if b && c == 46 then not_empty_suffix (suffix_end s) else none) ≡ some t
    → Found b (c ∷ s) t
at_point false c s t e = absurd (none-some e)
at_point true c s t e = elim (Bool-cases (c == 46)) [
  | inl dot ↦ record {
    stem = [];
    rest = s;
    split = ap (λ x. x ∷ s) (ground (arith, dot));
    line = tt;
    started = λ h. cc;
    suffix = not_empty_inj (suffix_end s) t (rw dot at e);
  }
  | inr other ↦ absurd (none-some (rw other at e))
]

pub suffix_from-Found : (b : Bool) (s t : Text) → suffix_from b s ≡ some t → Found b s t
unfolding suffix_from
suffix_from-Found b [] t e = absurd (none-some e)
suffix_from-Found b (c ∷ s) t e = elim (Bool-cases (c == 10)) [
  | inl feed ↦ at_point b c s t (rw (suffix_from, feed) at e)
  | inr char ↦ elim (Option-cases (suffix_from true s)) [
    | inl gone ↦ at_point b c s t (rw (suffix_from, char, gone) at e)
    | inr (u, there) ↦
        after_char b c s t (λ h. ground (arith, h, char))
          (suffix_from-Found true s t (there ∙ rw (suffix_from, char, there) at e))
  ]
]
