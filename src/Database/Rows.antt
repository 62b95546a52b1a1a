-- ===== src/Database/Rows.antt =====
-- A table as the list of its rows: the row of a primary key, an update of the rows that a
-- condition names, and `ORDER BY`.
pub mod Order
pub mod Total
use orders_agent.Base.{
  ℕ, ◌+◌, ◌≤◌, ◌≡◌, refl, sym, ap, ◌∙◌, Bool, true, false, Option, none, some, List, [], ◌∷◌, arith,
  leb, inl, inr, Bool-cases, if◌then◌else◌, map,
}
use orders_agent.Base.Lists.{length, take, All}

module _ {ℓ} {A : Type ℓ} where
  -- The first row that meets the condition.
  unfoldable pub find_row : (A → Bool) → List A → Option A
  find_row p [] = none
  find_row p (x ∷ xs) = if p x then some x else find_row p xs

  unfoldable pub update_rows : (A → Bool) → (A → A) → List A → List A
  update_rows p f [] = []
  update_rows p f (x ∷ xs) = (if p x then f x else x) ∷ update_rows p f xs

  -- `WHERE`
  unfoldable pub where_rows : (A → Bool) → List A → List A
  where_rows p [] = []
  where_rows p (x ∷ xs) = let rest = where_rows p xs in if p x then x ∷ rest else rest

  unfoldable pub insert_by : (A → A → Bool) → A → List A → List A
  insert_by before x [] = x ∷ []
  insert_by before x (y ∷ ys) =
      let later = insert_by before x ys in if before x y then x ∷ y ∷ ys else y ∷ later

  -- `ORDER BY`: a stable sort; SQL leaves the order of ties open.
  unfoldable pub order_by : (A → A → Bool) → List A → List A
  unfolding insert_by
  order_by before [] = []
  order_by before (x ∷ xs) = insert_by before x (order_by before xs)

  -- An update does not move a row out of the condition `q`.
  pub find_row-update_rows :
      (p q : A → Bool) (f : A → A) (xs : List A)
      → ((x : A) → q (f x) ≡ q x)
      → ((x : A) → p x ≡ q x)
      → find_row q (update_rows p f xs)
        ≡ (elim (find_row q xs) [ none ↦ none | some x ↦ some (f x) ])
  unfolding find_row update_rows
  find_row-update_rows p q f [] keeps same = refl
  find_row-update_rows p q f (x ∷ xs) keeps same =
      ground (arith, keeps x, same x, find_row-update_rows p q f xs keeps same)

  pub find_row-update_rows_ne :
      (p q : A → Bool) (f : A → A) (xs : List A)
      → ((x : A) → q (f x) ≡ q x)
      → ((x : A) → q x ≡ true → p x ≡ false)
      → find_row q (update_rows p f xs) ≡ find_row q xs
  unfolding find_row update_rows
  find_row-update_rows_ne p q f [] keeps apart = refl
  find_row-update_rows_ne p q f (x ∷ xs) keeps apart =
      ground (arith, keeps x, apart x, find_row-update_rows_ne p q f xs keeps apart)

  pub find_row-true : (p : A → Bool) (xs : List A) {x : A} → find_row p xs ≡ some x → p x ≡ true
  unfolding find_row
  find_row-true p [] h = cc
  find_row-true p (y ∷ xs) {x} h = ground (arith, find_row-true p xs {x = x})
