-- ===== src/Materials/Block/Split.antt =====
-- `Block.split_by_delim`: the parts, joined by the delimeter, are the string of the block.
use mathlib.Core.Path.{subst}
use native.Mathlib.Nat.{zero-add}
use native.Mathlib.Numerals.{add-one}
use orders_agent.Base.{
  ℕ, zero, suc, ◌+◌, ◌-◌, ◌≤◌, ◌<◌, ◌≡◌, refl, ap, ◌∙◌, some, List, [], ◌∷◌, ◌++◌, arith,
}
use orders_agent.Base.Lists.{length, get_elem?, take, drop, slice, All}
use orders_agent.Base.Text.{Text}
use orders_agent.Materials.Block.{split_loop}

-- `d.join(parts)` for a delimeter of one character.
abbrev pub join : ℕ → List Text → Text
join d [] = []
join d (p ∷ []) = p
join d (p ∷ q ∷ r) = p ++ d ∷ join d (q ∷ r)

-- Ascending positions from `from` on at which `s` has the character `d`.
abbrev pub Cuts : ℕ → Text → ℕ → List ℕ → Type 0
Cuts d s from [] = Unit {0}
Cuts d s from (p ∷ ps) = (from ≤ p) × (get_elem? s p ≡ some d) × Cuts d s (suc p) ps

pub get_elem?-drop :
    (i : ℕ) (s : Text) (c : ℕ) (rest : Text)
    → drop i s ≡ c ∷ rest
    → (get_elem? s i ≡ some c) × (drop (suc i) s ≡ rest)
get_elem?-drop zero [] c rest h = cc
get_elem?-drop zero (x ∷ s) c rest h = ground arith
get_elem?-drop (suc i) [] c rest h = cc
get_elem?-drop (suc i) (x ∷ s) c rest h = get_elem?-drop i s c rest h

take-drop_at : (s : Text) (n d : ℕ) → get_elem? s n ≡ some d → take n s ++ d ∷ drop (suc n) s ≡ s
take-drop_at [] n d e = cc
take-drop_at (x ∷ s) zero d e = ground arith
take-drop_at (x ∷ s) (suc n) d e = ap (λ (t : Text). x ∷ t) (take-drop_at s n d e)

suc-add : (m n : ℕ) → suc m + n ≡ suc (m + n)
suc-add m n = omega arith

get_elem?-drop_add : (m n : ℕ) (s : Text) → get_elem? (drop m s) n ≡ get_elem? s (m + n)
get_elem?-drop_add zero n s = rw zero-add
get_elem?-drop_add (suc m) n [] = refl
get_elem?-drop_add (suc m) n (x ∷ s) = rw suc-add (get_elem?-drop_add m n s)

drop-drop : (m n : ℕ) (s : Text) → drop n (drop m s) ≡ drop (m + n) s
drop-drop zero n s = rw zero-add
drop-drop (suc m) zero [] = rw suc-add
drop-drop (suc m) (suc n) [] = rw suc-add
drop-drop (suc m) n (x ∷ s) = rw suc-add (drop-drop m n s)

get_elem?-take : (n k : ℕ) (s : Text) → n < k → get_elem? (take k s) n ≡ get_elem? s n
get_elem?-take n zero s h = absurd (omega arith)
get_elem?-take n (suc k) [] h = refl
get_elem?-take zero (suc k) (x ∷ s) h = refl
get_elem?-take (suc n) (suc k) (x ∷ s) h = get_elem?-take n k s (omega arith)

add_sub : (m n : ℕ) → m ≤ n → m + (n - m) ≡ n
add_sub m n h = omega arith

drop-split :
    (s : Text) (from idx d : ℕ)
    → from ≤ idx
    → get_elem? s idx ≡ some d
    → slice from idx s ++ d ∷ drop (suc idx) s ≡ drop from s
drop-split s from idx d h e = rw (← rest) (take-drop_at (drop from s) (idx - from) d found)
  where
    found : get_elem? (drop from s) (idx - from) ≡ some d
    found = get_elem?-drop_add from (idx - from) s ∙ ap (get_elem? s) (add_sub from idx h) ∙ e

    rest : drop (suc (idx - from)) (drop from s) ≡ drop (suc idx) s
    rest =
        drop-drop from (suc (idx - from)) s ∙ ap (λ (n : ℕ). drop n s) {y = suc idx} (omega arith)

get_elem?-slice :
    (s : Text) (from to p : ℕ)
    → p < to
    → from ≤ p
    → get_elem? (slice from to s) (p - from) ≡ get_elem? s p
get_elem?-slice s from to p h k =
    get_elem?-take (p - from) (to - from) (drop from s) (omega arith)
    ∙ get_elem?-drop_add from (p - from) s
    ∙ ap (get_elem? s) (add_sub from p k)

-- Positions in the line become positions in the content of the block.
abbrev pub shift : ℕ → List ℕ → List ℕ
shift offset [] = []
shift offset (p ∷ ps) = (p - offset) ∷ shift offset ps

pub Cuts-slice :
    (d : ℕ) (line : Text) (offset to from : ℕ) (ps : List ℕ)
    → offset ≤ from
    → Cuts d line from ps
    → All (λ p. p < to) ps
    → Cuts d (slice offset to line) (from - offset) (shift offset ps)
Cuts-slice d line offset to from [] h c below = tt
Cuts-slice d line offset to from (p ∷ ps) h (le, at, c) (b, below) = (
  omega arith,
  get_elem?-slice line offset to p b (omega arith) ∙ at,
  subst (λ (n : ℕ). Cuts d (slice offset to line) n (shift offset ps)) (omega arith)
      (Cuts-slice d line offset to (suc p) ps (omega arith) c below),
)

join-cons :
    (d : ℕ) (p : Text) (offset : ℕ) (s : Text) (from : ℕ) (ps : List ℕ)
    → join d (p ∷ split_loop offset s from ps) ≡ p ++ d ∷ join d (split_loop offset s from ps)
unfolding split_loop
join-cons d p offset s from [] = refl
join-cons d p offset s from (q ∷ ps) = refl

pub join-split_loop :
    (d offset : ℕ) (s : Text) (from : ℕ) (ps : List ℕ)
    → Cuts d s from (shift offset ps)
    → join d (split_loop offset s from ps) ≡ drop from s
join-split_loop d offset s from [] c = unfold split_loop in refl
join-split_loop d offset s from (p ∷ ps) (le, at, c) =
    split_next
    ∙ join-cons d (slice from (p - offset) s) offset s (p - offset + 1) ps
    ∙ ap (λ (t : Text). slice from (p - offset) s ++ d ∷ t)
        (rw add-one (join-split_loop d offset s (suc (p - offset)) ps c))
    ∙ drop-split s from (p - offset) d le at
  where
    split_next :
        join d (split_loop offset s from (p ∷ ps))
        ≡ join d (slice from (p - offset) s ∷ split_loop offset s (p - offset + 1) ps)
    split_next = unfold split_loop in refl

pub length-split_loop :
    (offset : ℕ) (s : Text) (from : ℕ) (ps : List ℕ)
    → length (split_loop offset s from ps) ≡ length ps + 1
unfolding split_loop
length-split_loop offset s from [] = refl
length-split_loop offset s from (p ∷ ps) =
    omega (arith, length-split_loop offset s (p - offset + 1) ps)

-- A position after all others is added at the end.
pub Cuts-append :
    (d : ℕ) (line : Text) (from : ℕ) (ps : List ℕ) (i : ℕ)
    → Cuts d line from ps
    → All (λ p. p < i) ps
    → from ≤ i
    → get_elem? line i ≡ some d
    → Cuts d line from (ps ++ i ∷ [])
Cuts-append d line from [] i c below h e = (h, e, tt)
Cuts-append d line from (p ∷ ps) i (le, at, c) (b, below) h e =
    (le, at, Cuts-append d line (suc p) ps i c below b e)
