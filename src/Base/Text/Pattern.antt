-- ===== src/Base/Text/Pattern.antt =====
-- Regular expressions as lists of items, each a class of characters with how often it comes, and
-- `re.search`: whether some place of the text matches.
use orders_agent.Base.Lists.{length, All}
use Prim.Native.Nat.{ℕ, zero, suc}
use mathlib.Core.Path.{◌≡◌, refl, sym, ap, ◌∙◌}
use mathlib.Core.Logic.{◌↔◌, ◌⊎◌, inl, inr}
use mathlib.Core.Bool.{Bool, true, false, ◌&&◌, ◌||◌}
use mathlib.Core.List.{List, [], ◌∷◌, ◌++◌, append_assoc}
use native.Mathlib.Omega.{arith}
use orders_agent.Base.Text.{Text}

abbrev pub Class : Type 0
Class = ℕ → Bool

pub data Item : Type 0 where
  one opt many : Class → Item

-- `p*`, and then `k`.
unfoldable pub many_at : Class → (Text → Bool) → Text → Bool
many_at p k [] = k []
many_at p k (c ∷ s) = (p c && many_at p k s) || k (c ∷ s)

-- `p?`, and then `k`.
abbrev pub opt_at : Class → (Text → Bool) → Text → Bool
opt_at p k [] = k []
opt_at p k (c ∷ s) = (p c && k s) || k (c ∷ s)

abbrev pub one_at : Class → (Text → Bool) → Text → Bool
one_at p k [] = false
one_at p k (c ∷ s) = p c && k s

-- Whether the text matches from its start on.
unfoldable pub match_at : List Item → Text → Bool
unfolding many_at
match_at [] s = true
match_at (one p ∷ is) s = one_at p (match_at is) s
match_at (opt p ∷ is) s = opt_at p (match_at is) s
match_at (many p ∷ is) s = many_at p (match_at is) s

-- `re.search`
unfoldable pub search_text : List Item → Text → Bool
unfolding match_at
search_text is [] = match_at is []
search_text is (c ∷ s) = match_at is (c ∷ s) || search_text is s

-- `p{n}`
abbrev pub times : ℕ → Class → List Item → List Item
times zero p is = is
times (suc n) p is = one p ∷ times n p is

-- A run of `n` characters of the class stands in the text.
abbrev pub HasRun : ℕ → Class → Text → Type 0
HasRun n p s =
    (before : Text) × (run : Text) × (after : Text) × (s ≡ before ++ (run ++ after))
    × (length run ≡ n)
    × All (λ c. p c ≡ true) run

&&-split : (a b : Bool) → (a && b) ≡ true → (a ≡ true) × (b ≡ true)
&&-split true true h = (refl, refl)
&&-split true false h = cc
&&-split false b h = cc

||-split : (a b : Bool) → (a || b) ≡ true → (a ≡ true) ⊎ (b ≡ true)
||-split true b h = inl refl
||-split false b h = inr h

||-right : (a b : Bool) → b ≡ true → (a || b) ≡ true
||-right true b h = refl
||-right false b h = h

||-left : (a b : Bool) → a ≡ true → (a || b) ≡ true
||-left true b h = refl
||-left false b h = cc

-- A run at the start.
RunAt : ℕ → Class → Text → Type 0
RunAt n p s =
    (run : Text) × (after : Text) × (s ≡ run ++ after)
    × (length run ≡ n)
    × All (λ c. p c ≡ true) run

module _ (p : Class) where
  -- `p{n,}` matches at the start just where `n` characters of the class stand there.
  times-RunAt : (n : ℕ) (s : Text) → match_at (times n p (many p ∷ [])) s ≡ true → RunAt n p s
  unfolding match_at RunAt
  times-RunAt zero s h = ([], s, refl, refl, tt)
  times-RunAt (suc n) [] h = cc
  times-RunAt (suc n) (c ∷ s) h =
      let (here, there) = &&-split (p c) (match_at (times n p (many p ∷ [])) s) h in
      let (run, after, e, l, all) = times-RunAt n s there in
      (c ∷ run, after, ap (λ t. c ∷ t) e, ap suc l, (here, all))

  many-true : (s : Text) → match_at (many p ∷ []) s ≡ true
  unfolding match_at many_at
  many-true [] = refl
  many-true (c ∷ s) = ||-right (p c && many_at p (match_at []) s) true refl

  RunAt-times :
      (n : ℕ) (run after : Text)
      → length run ≡ n
      → All (λ c. p c ≡ true) run
      → match_at (times n p (many p ∷ [])) (run ++ after) ≡ true
  unfolding match_at
  RunAt-times zero run after l all = many-true (run ++ after)
  RunAt-times (suc n) [] after l all = absurd (omega (arith, l))
  RunAt-times (suc n) (c ∷ run) after l all =
      rw (all.0) (RunAt-times n run after (omega (arith, l)) all.1)

-- A part of the text that is left after some characters.
abbrev pub Later : (Text → Bool) → Text → Type 0
Later k s = (before : Text) × (rest : Text) × (s ≡ before ++ rest) × (k rest ≡ true)

Later-cons : (k : Text → Bool) (c : ℕ) (s : Text) → Later k s → Later k (c ∷ s)
Later-cons k c s (before, rest, e, h) = (c ∷ before, rest, ap (λ t. c ∷ t) e, h)

many_at-Later : (p : Class) (k : Text → Bool) (s : Text) → many_at p k s ≡ true → Later k s
unfolding many_at
many_at-Later p k [] h = ([], [], refl, h)
many_at-Later p k (c ∷ s) h = elim (||-split (p c && many_at p k s) (k (c ∷ s)) h) [
  | inl more ↦ Later-cons k c s (many_at-Later p k s ((&&-split (p c) (many_at p k s) more).1))
  | inr stop ↦ ([], c ∷ s, refl, stop)
]

opt_at-Later : (p : Class) (k : Text → Bool) (s : Text) → opt_at p k s ≡ true → Later k s
opt_at-Later p k [] h = ([], [], refl, h)
opt_at-Later p k (c ∷ s) h = elim (||-split (p c && k s) (k (c ∷ s)) h) [
  | inl more ↦ (c ∷ [], s, refl, (&&-split (p c) (k s) more).1)
  | inr stop ↦ ([], c ∷ s, refl, stop)
]

search_text-Later : (is : List Item) (s : Text) → search_text is s ≡ true → Later (match_at is) s
unfolding search_text
search_text-Later is [] h = ([], [], refl, h)
search_text-Later is (c ∷ s) h = elim (||-split (match_at is (c ∷ s)) (search_text is s) h) [
  | inl here ↦ ([], c ∷ s, refl, here)
  | inr more ↦ Later-cons (match_at is) c s (search_text-Later is s more)
]

match-search : (is : List Item) (s : Text) → match_at is s ≡ true → search_text is s ≡ true
unfolding search_text
match-search is [] h = h
match-search is (c ∷ s) h = ||-left (match_at is (c ∷ s)) (search_text is s) h

search_after :
    (is : List Item) (before rest : Text)
    → match_at is rest ≡ true
    → search_text is (before ++ rest) ≡ true
unfolding search_text
search_after is [] rest h = match-search is rest h
search_after is (c ∷ before) rest h =
    ||-right (match_at is (c ∷ before ++ rest)) (search_text is (before ++ rest))
      (search_after is before rest h)

-- What may stand before costs nothing: it may be empty.
opt_skip : (p : Class) (k : Text → Bool) (s : Text) → k s ≡ true → opt_at p k s ≡ true
opt_skip p k [] h = h
opt_skip p k (c ∷ s) h = ||-right (p c && k s) (k (c ∷ s)) h

many_skip : (p : Class) (k : Text → Bool) (s : Text) → k s ≡ true → many_at p k s ≡ true
unfolding many_at
many_skip p k [] h = h
many_skip p k (c ∷ s) h = ||-right (p c && many_at p k s) (k (c ∷ s)) h

-- Searching for `q?r*p{n,}` finds a run of `n` characters of `p`, and finds every such run.
pub search_text-HasRun :
    (n : ℕ) (p q r : Class) (s : Text)
    → (search_text (opt q ∷ many r ∷ times n p (many p ∷ [])) s ≡ true) ↔ HasRun n p s
unfolding RunAt
search_text-HasRun n p q r s = (into, onto)
  where
    digits : List Item
    digits = times n p (many p ∷ [])

    joined : (a b c d : Text) → s ≡ a ++ b → b ≡ c ++ d → s ≡ (a ++ c) ++ d
    joined a b c d e e' = e ∙ ap (λ t. a ++ t) e' ∙ sym (append_assoc a c d)

    into : search_text (opt q ∷ many r ∷ digits) s ≡ true → HasRun n p s
    into h =
        let (b1, s1, e1, h1) = search_text-Later (opt q ∷ many r ∷ digits) s h in
        let (b2, s2, e2, h2) =
          opt_at-Later q (match_at (many r ∷ digits)) s1 (unfold match_at in h1) in
        let (b3, s3, e3, h3) = many_at-Later r (match_at digits) s2 (unfold match_at in h2) in
        let (run, after, e, l, all) = times-RunAt p n s3 h3 in
        (
          (b1 ++ b2) ++ b3,
          run,
          after,
          joined (b1 ++ b2) s2 b3 s3 (joined b1 s1 b2 s2 e1 e2) e3
              ∙ ap (λ t. ((b1 ++ b2) ++ b3) ++ t) e,
          l,
          all,
        )

    onto : HasRun n p s → search_text (opt q ∷ many r ∷ digits) s ≡ true
    onto (before, run, after, e, l, all) = rw e (
        search_after (opt q ∷ many r ∷ digits) before (run ++ after) (
          unfold match_at in
          opt_skip q (match_at (many r ∷ digits)) (run ++ after)
            (many_skip r (match_at digits) (run ++ after) (RunAt-times p n run after l all))))
