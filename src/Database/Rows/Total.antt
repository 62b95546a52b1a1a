-- ===== src/Database/Rows/Total.antt =====
-- `ORDER BY` on several columns: any total, transitive test. The rows come in order, none comes or
-- goes, and the first is before all.
use mathlib.Core.Path.{subst}
use orders_agent.Base.{
  ℕ, zero, suc, ◌≡◌, refl, sym, ap, Bool, true, false, Option, none, some, List, [], ◌∷◌, ◌⊎◌, inl,
  inr, Bool-cases,
}
use orders_agent.Base.Lists.{All, take, length}
use orders_agent.Database.Rows.{insert_by, order_by}
use orders_agent.Database.Rows.Order.{In}

abbrev pub IsOrdered : {A : Type 0} → (A → A → Bool) → List A → Type 0
IsOrdered before [] = Unit
IsOrdered before (x ∷ xs) = All (λ y. before x y ≡ true) xs × IsOrdered before xs

-- What a comparison of columns is.
pub record IsTotal {A : Type 0} (before : A → A → Bool) : Type 0 where
  pub flip : (a b : A) → before a b ≡ false → before b a ≡ true
  pub trans : (a b c : A) → before a b ≡ true → before b c ≡ true → before a c ≡ true

module _ {A : Type 0} where
  pub All-take : (P : A → Type 0) (n : ℕ) (xs : List A) → All P xs → All P (take n xs)
  All-take P zero xs h = tt
  All-take P (suc n) [] h = tt
  All-take P (suc n) (x ∷ xs) h = (h.0, All-take P n xs h.1)

  pub All-In : (P : A → Type 0) (a : A) (xs : List A) → All P xs → In a xs → P a
  All-In P a [] h i = absurd i
  All-In P a (x ∷ xs) h (inl e) = subst P (sym e) h.0
  All-In P a (x ∷ xs) h (inr i) = All-In P a xs h.1 i

  pub All-of : (P : A → Type 0) (xs : List A) → ((a : A) → In a xs → P a) → All P xs
  All-of P [] h = tt
  All-of P (x ∷ xs) h = (h x (inl refl), All-of P xs (λ a i. h a (inr i)))

  pub take-In_any : (n : ℕ) (a : A) (xs : List A) → In a (take n xs) → In a xs
  take-In_any zero a xs i = absurd i
  take-In_any (suc n) a [] i = absurd i
  take-In_any (suc n) a (x ∷ xs) (inl e) = inl e
  take-In_any (suc n) a (x ∷ xs) (inr i) = inr (take-In_any n a xs i)

module _ {A : Type 0} (before : A → A → Bool) where
  pub All-insert_by :
      (P : A → Type 0) (x : A) (xs : List A) → P x → All P xs → All P (insert_by before x xs)
  unfolding insert_by
  All-insert_by P x [] p h = (p, tt)
  All-insert_by P x (y ∷ ys) p h = elim (Bool-cases (before x y)) [
    | inl first ↦ rw first (p, h)
    | inr later ↦ rw later (h.0, All-insert_by P x ys p h.1)
  ]

  pub All-order_by : (P : A → Type 0) (xs : List A) → All P xs → All P (order_by before xs)
  unfolding order_by
  All-order_by P [] h = tt
  All-order_by P (x ∷ xs) h = All-insert_by P x (order_by before xs) h.0 (All-order_by P xs h.1)

  -- A row is not lost.
  All-inserted :
      (P : A → Type 0) (x : A) (xs : List A) → All P (insert_by before x xs) → P x × All P xs
  unfolding insert_by
  All-inserted P x [] h = h
  All-inserted P x (y ∷ ys) h = elim (Bool-cases (before x y)) [
    | inl first ↦ rw first at h
    | inr later ↦
        let g : All P (y ∷ insert_by before x ys) = rw later at h in
        let r = All-inserted P x ys g.1 in (r.0, (g.0, r.1))
  ]

  pub All-ordered : (P : A → Type 0) (xs : List A) → All P (order_by before xs) → All P xs
  unfolding order_by
  All-ordered P [] h = tt
  All-ordered P (x ∷ xs) h =
      let r = All-inserted P x (order_by before xs) h in (r.0, All-ordered P xs r.1)

  pub order_by-In_any : (a : A) (xs : List A) → In a (order_by before xs) → In a xs
  order_by-In_any a xs i =
      All-In (λ y. In y xs) a (order_by before xs)
        (All-order_by (λ y. In y xs) xs (All-of _ xs (λ y j. j))) i

  pub In-order_by_any : (a : A) (xs : List A) → In a xs → In a (order_by before xs)
  In-order_by_any a xs i =
      All-In (λ y. In y (order_by before xs)) a xs
        (All-ordered (λ y. In y (order_by before xs)) xs (All-of _ (order_by before xs) (λ y j. j)))
        i

  module _ (total : IsTotal before) where
    All-after :
        (x y : A) (xs : List A)
        → before x y ≡ true
        → All (λ z. before y z ≡ true) xs
        → All (λ z. before x z ≡ true) xs
    All-after x y [] h all = tt
    All-after x y (z ∷ zs) h all = (total.trans x y z h all.0, All-after x y zs h all.1)

    insert_by-IsOrdered :
        (x : A) (xs : List A) → IsOrdered before xs → IsOrdered before (insert_by before x xs)
    unfolding insert_by
    insert_by-IsOrdered x [] h = (tt, tt)
    insert_by-IsOrdered x (y ∷ ys) h = elim (Bool-cases (before x y)) [
      | inl first ↦ rw first ((first, All-after x y ys first h.0), h)
      | inr later ↦ rw later (
        All-insert_by (λ z. before y z ≡ true) x ys (total.flip x y later) h.0,
        insert_by-IsOrdered x ys h.1,
      )
    ]

    pub order_by-IsOrdered : (xs : List A) → IsOrdered before (order_by before xs)
    unfolding order_by
    order_by-IsOrdered [] = tt
    order_by-IsOrdered (x ∷ xs) = insert_by-IsOrdered x (order_by before xs) (order_by-IsOrdered xs)

    pub take-IsOrdered : (n : ℕ) (xs : List A) → IsOrdered before xs → IsOrdered before (take n xs)
    take-IsOrdered zero xs h = tt
    take-IsOrdered (suc n) [] h = tt
    take-IsOrdered (suc n) (x ∷ xs) h =
        (All-take (λ y. before x y ≡ true) n xs h.0, take-IsOrdered n xs h.1)

    -- What the limit leaves out comes after all that it keeps.
    pub In-take_any :
        (n : ℕ) (a : A) (xs : List A)
        → IsOrdered before xs
        → In a xs
        → In a (take n xs) ⊎ ((length (take n xs) ≡ n) × All (λ y. before y a ≡ true) (take n xs))
    In-take_any zero a xs h i = inr (refl, tt)
    In-take_any (suc n) a [] h i = absurd i
    In-take_any (suc n) a (x ∷ xs) h (inl e) = inl (inl e)
    In-take_any (suc n) a (x ∷ xs) h (inr i) = elim (In-take_any n a xs h.1 i) [
      | inl j ↦ inl (inr j)
      | inr (full, all) ↦ inr (ap suc full, (All-In (λ y. before x y ≡ true) a xs h.0 i, all))
    ]

-- `LIMIT 1`
unfoldable pub first_row {ℓ} : {A : Type ℓ} → List A → Option A
first_row [] = none
first_row (x ∷ xs) = some x

-- The first row of a list in order.
abbrev pub IsFirst : {A : Type 0} → (A → A → Bool) → List A → Option A → Type 0
IsFirst before xs none = (a : _) → ¬ (In a xs)
IsFirst before xs (some a) = In a xs × ((b : _) → In b xs → (b ≡ a) ⊎ (before a b ≡ true))

pub first_row-order_by :
    {A : Type 0} (before : A → A → Bool) (xs : List A)
    → IsTotal before
    → IsFirst before xs (first_row (order_by before xs))
first_row-order_by before xs total =
    by_list (order_by before xs) (order_by-IsOrdered before total xs)
      (λ a i. order_by-In_any before a xs i) (λ a i. In-order_by_any before a xs i)
  where
    by_list :
        (ys : List _)
        → IsOrdered before ys
        → ((a : _) → In a ys → In a xs)
        → ((a : _) → In a xs → In a ys)
        → IsFirst before xs (first_row ys)
    by_list [] ordered into onto = unfold first_row in λ a i. onto a i
    by_list (y ∷ ys) ordered into onto =
        unfold first_row in
        (
          into y (inl refl),
          λ b i. elim (onto b i) [
            | inl e ↦ inl e
            | inr j ↦ inr (All-In (λ z. before y z ≡ true) b ys ordered.0 j)
          ],
        )
