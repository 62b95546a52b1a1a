-- ===== src/Materials/Parser/Cleaned.antt =====
-- What `_clean_last_p` and the stripping at the end of `ParserV2.parse` make of the parts.
use orders_agent.Base.{
  ℕ, ◌+◌, ◌≤◌, ◌≡◌, ◌≢◌, refl, ap, ◌∙◌, true, List, [], ◌∷◌, ◌++◌, map, ◌⊎◌, arith, Bool-cases, inl,
  inr, ltb,
}
use orders_agent.Base.Lists.{length, All}
use orders_agent.Base.Text.{Text, strip, IsStripped}
use orders_agent.Base.Text.Strip.{strip-IsStripped}
use orders_agent.Materials.Tree.{Result, ok, err, ◌>>=◌}
use orders_agent.Materials.Tree.Balance.{Balanced}
use orders_agent.Materials.Parser.{
  ParseResults, parse_, parse, strip_all, clean_last, clean_last_p, last_of, set_last,
}
use orders_agent.Materials.Parser.Total.{Returns, parse_-Returns}

All-strip : (ps : List Text) → All IsStripped (map strip ps)
All-strip [] = tt
All-strip (p ∷ ps) = (strip-IsStripped p, All-strip ps)

-- The parts after the cleaning, by those that the rules found: white space is stripped, and the last
-- part is cut at its `)`, and deleted where nothing is left of it. `parts_count` still counts it.
pub record IsCleaned (raw r : ParseResults) : Type 0 where
  pub front : List Text
  pub last : Text
  pub found : raw.parts ≡ front ++ last ∷ []
  pub count : r.parts_count ≡ length front + 1
  pub parts :
      ((strip (clean_last_p last).1 ≢ [])
        × (r.parts ≡ map strip front ++ strip (strip (clean_last_p last).1) ∷ []))
      ⊎ ((strip (clean_last_p last).1 ≡ []) × (r.parts ≡ map strip front))

last_of-append : (front : List Text) (last : Text) → last_of (front ++ last ∷ []) ≡ last
last_of-append [] last = refl
last_of-append (p ∷ []) last = refl
last_of-append (p ∷ q ∷ front) last = last_of-append (q ∷ front) last

set_last-nil : (front : List Text) (last : Text) → set_last [] (front ++ last ∷ []) ≡ front
unfolding set_last
set_last-nil [] last = refl
set_last-nil (p ∷ []) last = refl
set_last-nil (p ∷ q ∷ front) last = ap (λ ps. p ∷ ps) (set_last-nil (q ∷ front) last)

set_last-cons :
    (c : ℕ) (s : Text) (front : List Text) (last : Text)
    → set_last (c ∷ s) (front ++ last ∷ []) ≡ front ++ (c ∷ s) ∷ []
unfolding set_last
set_last-cons c s [] last = refl
set_last-cons c s (p ∷ []) last = refl
set_last-cons c s (p ∷ q ∷ front) last = ap (λ ps. p ∷ ps) (set_last-cons c s (q ∷ front) last)

-- A list with an entry has a last one.
last_split :
    (ps : List Text)
    → 1 ≤ length ps
    → (front : List Text) × (last : Text) × (ps ≡ front ++ last ∷ [])
last_split [] h = absurd (omega (arith, h))
last_split (p ∷ []) h = ([], p, refl)
last_split (p ∷ q ∷ ps) h =
    let (front, last, e) = last_split (q ∷ ps) (omega arith) in
    (p ∷ front, last, ap (λ xs. p ∷ xs) e)

length-snoc : (front : List Text) (last : Text) → length (front ++ last ∷ []) ≡ length front + 1
length-snoc [] last = refl
length-snoc (p ∷ front) last = omega (arith, length-snoc front last)

map-snoc :
    (front : List Text) (last : Text)
    → map strip (front ++ last ∷ []) ≡ map strip front ++ strip last ∷ []
map-snoc [] last = refl
map-snoc (p ∷ front) last = ap (λ xs. strip p ∷ xs) (map-snoc front last)

-- The parts that are stripped after `parts[-1] = p` or `del parts[-1]`.
set_last-cleaned :
    (p : Text) (front : List Text) (last : Text)
    → ((p ≢ []) × (map strip (set_last p (front ++ last ∷ [])) ≡ map strip front ++ strip p ∷ []))
      ⊎ ((p ≡ []) × (map strip (set_last p (front ++ last ∷ [])) ≡ map strip front))
set_last-cleaned [] front last = inr (refl, ap (map strip) (set_last-nil front last))
set_last-cleaned (c ∷ s) front last =
    inl (λ e. cc, ap (map strip) (set_last-cons c s front last) ∙ map-snoc front (c ∷ s))

cleaned_parts :
    (r : ParseResults)
    → ltb 0 r.parts_count ≡ true
    → (strip_all (clean_last r)).parts
      ≡ map strip (set_last (strip (clean_last_p (last_of r.parts)).1) r.parts)
unfolding strip_all clean_last
cleaned_parts r h = rw h refl

cleaned_count : (r : ParseResults) → (strip_all (clean_last r)).parts_count ≡ r.parts_count
unfolding strip_all clean_last
cleaned_count r = elim (Bool-cases (ltb 0 r.parts_count)) [ inl h ↦ rw h refl | inr h ↦ rw h refl ]

clean_last-IsCleaned :
    (r : ParseResults)
    → (r.parts_count ≡ length r.parts) × (1 ≤ length r.parts)
    → IsCleaned r (strip_all (clean_last r))
clean_last-IsCleaned r h =
    let (front, last, e) = last_split r.parts h.1 in
    let same = ap last_of e ∙ last_of-append front last in
    let some_part : ltb 0 r.parts_count ≡ true = ground (arith, h.0, h.1) in
    let parts =
      cleaned_parts r some_part
      ∙ ap (λ ps. map strip (set_last (strip (clean_last_p (last_of r.parts)).1) ps)) e
      ∙ ap (λ x. map strip (set_last (strip (clean_last_p x).1) (front ++ last ∷ []))) same in
    record {
      front = front;
      last = last;
      found = e;
      count = cleaned_count r ∙ h.0 ∙ ap length e ∙ length-snoc front last;
      parts = elim (set_last-cleaned (strip (clean_last_p last).1) front last) [
        | inl (full, ps) ↦ inl (full, parts ∙ ps)
        | inr (empty, ps) ↦ inr (empty, parts ∙ ps)
      ];
    }

strip_all-IsStripped : (r : ParseResults) → All IsStripped (strip_all r).parts
unfolding strip_all
strip_all-IsStripped r = All-strip r.parts

-- A name with balanced brackets gives parts without white space at either end: those that the rules
-- for brackets and delimeters found, stripped, the last one after `_clean_last_p`.
-- They are as many as `parts_count` says, but for a last part of which nothing is left, which is
-- deleted and still counted.
pub parse_parts :
    (line : Text) (delims : List ℕ)
    → Balanced (strip line)
    → (raw r : ParseResults) × (parse_ line delims ≡ ok raw)
      × (parse line delims ≡ ok r)
      × All IsStripped r.parts
      × IsCleaned raw r
unfolding parse
parse_parts line delims h = cleaned (parse_ line delims) refl (parse_-Returns line delims h)
  where
    cleaned :
        (m : Result ParseResults)
        → parse_ line delims ≡ m
        → Returns m
        → (raw r : ParseResults) × (parse_ line delims ≡ ok raw)
          × (parse line delims ≡ ok r)
          × All IsStripped r.parts
          × IsCleaned raw r
    cleaned (ok r) e t = (
      r,
      strip_all (clean_last r),
      e,
      ap (λ (m : Result ParseResults). m >>= λ x. ok (strip_all (clean_last x))) e,
      strip_all-IsStripped (clean_last r),
      clean_last-IsCleaned r t,
    )
    cleaned (err x) e t = absurd t
