-- ===== src/Database/Rows/Order.antt =====
-- `WHERE`, `ORDER BY` on a number, and `LIMIT` together: the oldest rows that meet the condition.
use orders_agent.Base.{
  ℕ, zero, suc, ◌≤◌, ◌≡◌, refl, ap, Bool, true, List, [], ◌∷◌, arith, leb, ◌⊎◌, inl, inr,
  Bool-cases,
}
use orders_agent.Base.Lists.{length, take, All}
use orders_agent.Database.Rows.{where_rows, insert_by, order_by}

-- The row is in the list.
abbrev pub In : {A : Type 0} → A → List A → Type 0
In a [] = ⊥
In a (x ∷ xs) = (a ≡ x) ⊎ In a xs

module _ {A : Type 0} where
  pub In-where_rows :
      (p : A → Bool) (a : A) (xs : List A) → p a ≡ true → In a xs → In a (where_rows p xs)
  In-where_rows p a [] h i = absurd i
  In-where_rows p a (x ∷ xs) h (inl e) = unfold where_rows in rw (where_rows, ← e, h) (inl refl)
  In-where_rows p a (x ∷ xs) h (inr i) = add (In-where_rows p a xs h i)
    where
      add : In a (where_rows p xs) → In a (where_rows p (x ∷ xs))
      add r = elim (Bool-cases (p x)) [
        | inl kept ↦ unfold where_rows in rw (where_rows, kept) (inr r)
        | inr dropped ↦ unfold where_rows in rw (where_rows, dropped) r
      ]

  pub where_rows-In :
      (p : A → Bool) (a : A) (xs : List A) → In a (where_rows p xs) → (p a ≡ true) × In a xs
  unfolding where_rows
  where_rows-In p a [] i = absurd i
  where_rows-In p a (x ∷ xs) i = elim (Bool-cases (p x)) [
    | inl kept ↦ first kept (rw (where_rows, kept) at i) (where_rows-In p a xs)
    | inr dropped ↦ let (h, j) = where_rows-In p a xs (rw (where_rows, dropped) at i) in (h, inr j)
  ]
    where
      first :
          p x ≡ true
          → (a ≡ x) ⊎ In a (where_rows p xs)
          → (In a (where_rows p xs) → (p a ≡ true) × In a xs)
          → (p a ≡ true) × ((a ≡ x) ⊎ In a xs)
      first kept (inl e) ih = (rw e kept, inl e)
      first kept (inr r) ih = let (h, j) = ih r in (h, inr j)

-- Rows in ascending order of a number.
abbrev pub IsSorted : {A : Type 0} → (A → ℕ) → List A → Type 0
IsSorted key [] = Unit
IsSorted key (x ∷ xs) = All (λ y. key x ≤ key y) xs × IsSorted key xs

module _ {A : Type 0} (key : A → ℕ) where
  abbrev pub by_key : A → A → Bool
  by_key a b = leb (key a) (key b)

  All-insert_by :
      (n : ℕ) (x : A) (xs : List A)
      → n ≤ key x
      → All (λ y. n ≤ key y) xs
      → All (λ y. n ≤ key y) (insert_by by_key x xs)
  unfolding insert_by
  All-insert_by n x [] h all = (h, tt)
  All-insert_by n x (y ∷ ys) h all = elim (Bool-cases (by_key x y)) [
    | inl first ↦ rw first (h, all)
    | inr later ↦ rw later (all.0, All-insert_by n x ys h all.1)
  ]

  All-le : (m n : ℕ) (xs : List A) → m ≤ n → All (λ y. n ≤ key y) xs → All (λ y. m ≤ key y) xs
  All-le m n [] h all = tt
  All-le m n (x ∷ xs) h all = (omega arith, All-le m n xs h all.1)

  insert_by-IsSorted :
      (x : A) (xs : List A) → IsSorted key xs → IsSorted key (insert_by by_key x xs)
  unfolding insert_by
  insert_by-IsSorted x [] h = (tt, tt)
  insert_by-IsSorted x (y ∷ ys) h = elim (Bool-cases (by_key x y)) [
    | inl first ↦ rw first ((ground arith, All-le (key x) (key y) ys (ground arith) h.0), h)
    | inr later ↦
        rw later (All-insert_by (key y) x ys (ground arith) h.0, insert_by-IsSorted x ys h.1)
  ]

  pub order_by-IsSorted : (xs : List A) → IsSorted key (order_by by_key xs)
  order_by-IsSorted [] = unfold order_by in tt
  order_by-IsSorted (x ∷ xs) = sorted (order_by-IsSorted xs)
    where
      sorted : IsSorted key (order_by by_key xs) → IsSorted key (order_by by_key (x ∷ xs))
      sorted h = unfold order_by in insert_by-IsSorted x (order_by by_key xs) h

  In-insert_by : (a x : A) (xs : List A) → (a ≡ x) ⊎ In a xs → In a (insert_by by_key x xs)
  unfolding insert_by
  In-insert_by a x [] i = i
  In-insert_by a x (y ∷ ys) i = elim (Bool-cases (by_key x y)) [
    | inl first ↦ rw first i
    | inr later ↦ rw later (moved i (In-insert_by a x ys))
  ]
    where
      moved :
          (a ≡ x) ⊎ ((a ≡ y) ⊎ In a ys)
          → ((a ≡ x) ⊎ In a ys → In a (insert_by by_key x ys))
          → (a ≡ y) ⊎ In a (insert_by by_key x ys)
      moved (inl e) ih = inr (ih (inl e))
      moved (inr (inl e)) ih = inl e
      moved (inr (inr j)) ih = inr (ih (inr j))

  insert_by-In : (a x : A) (xs : List A) → In a (insert_by by_key x xs) → (a ≡ x) ⊎ In a xs
  unfolding insert_by
  insert_by-In a x [] i = i
  insert_by-In a x (y ∷ ys) i = elim (Bool-cases (by_key x y)) [
    | inl first ↦ rw first at i
    | inr later ↦ moved (rw later at i) (insert_by-In a x ys)
  ]
    where
      moved :
          (a ≡ y) ⊎ In a (insert_by by_key x ys)
          → (In a (insert_by by_key x ys) → (a ≡ x) ⊎ In a ys)
          → (a ≡ x) ⊎ ((a ≡ y) ⊎ In a ys)
      moved (inl e) ih = inr (inl e)
      moved (inr j) ih = elim (ih j) [ inl e ↦ inl e | inr k ↦ inr (inr k) ]

  pub In-order_by : (a : A) (xs : List A) → In a xs → In a (order_by by_key xs)
  unfolding order_by
  In-order_by a [] i = absurd i
  In-order_by a (x ∷ xs) (inl e) = In-insert_by a x (order_by by_key xs) (inl e)
  In-order_by a (x ∷ xs) (inr i) = In-insert_by a x (order_by by_key xs) (inr (In-order_by a xs i))

  pub order_by-In : (a : A) (xs : List A) → In a (order_by by_key xs) → In a xs
  unfolding order_by
  order_by-In a [] i = absurd i
  order_by-In a (x ∷ xs) i = elim (insert_by-In a x (order_by by_key xs) i) [
    | inl e ↦ inl e
    | inr j ↦ inr (order_by-In a xs j)
  ]

  pub take-In : (n : ℕ) (a : A) (xs : List A) → In a (take n xs) → In a xs
  take-In zero a xs i = absurd i
  take-In (suc n) a [] i = absurd i
  take-In (suc n) a (x ∷ xs) (inl e) = inl e
  take-In (suc n) a (x ∷ xs) (inr i) = inr (take-In n a xs i)

  All-take : (n m : ℕ) (xs : List A) → All (λ y. m ≤ key y) xs → All (λ y. m ≤ key y) (take n xs)
  All-take zero m xs h = tt
  All-take (suc n) m [] h = tt
  All-take (suc n) m (x ∷ xs) h = (h.0, All-take n m xs h.1)

  pub take-IsSorted : (n : ℕ) (xs : List A) → IsSorted key xs → IsSorted key (take n xs)
  take-IsSorted zero xs h = tt
  take-IsSorted (suc n) [] h = tt
  take-IsSorted (suc n) (x ∷ xs) h = (All-take n (key x) xs h.0, take-IsSorted n xs h.1)

  In-All : (m : ℕ) (a : A) (xs : List A) → All (λ y. m ≤ key y) xs → In a xs → m ≤ key a
  In-All m a (x ∷ xs) h (inl e) = rw e h.0
  In-All m a (x ∷ xs) h (inr i) = In-All m a xs h.1 i
  In-All m a [] h i = absurd i

  -- What the limit leaves out comes after all that it keeps.
  pub In-take :
      (n : ℕ) (a : A) (xs : List A)
      → IsSorted key xs
      → In a xs
      → In a (take n xs) ⊎ ((length (take n xs) ≡ n) × All (λ y. key y ≤ key a) (take n xs))
  In-take zero a xs h i = inr (refl, tt)
  In-take (suc n) a [] h i = absurd i
  In-take (suc n) a (x ∷ xs) h (inl e) = inl (inl e)
  In-take (suc n) a (x ∷ xs) h (inr i) = elim (In-take n a xs h.1 i) [
    | inl j ↦ inl (inr j)
    | inr (full, before) ↦ inr (ap suc full, (In-All (key x) a xs h.0 i, before))
  ]
