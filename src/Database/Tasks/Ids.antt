-- ===== src/Database/Tasks/Ids.antt =====
-- The ids of tasks, a primary key: a list of tasks with different ids keeps them under what a
-- query does, and each of its tasks is the one that `get_by_id` finds.
use orders_agent.Base.{
  ℕ, zero, suc, ◌≡◌, ◌≢◌, sym, ap, Bool, some, List, [], ◌∷◌, arith, ◌==◌, Bool-cases, inl, inr,
  map,
}
use orders_agent.Base.Lists.{All, take}
use orders_agent.Database.Models.{Task, Database}
use orders_agent.Database.Rows.{find_row, where_rows, insert_by, order_by}
use orders_agent.Database.Rows.Order.{In}
use orders_agent.Database.Rows.Total.{All-In, All-take, All-insert_by, All-order_by}
use orders_agent.Database.Tasks.{has_id, get_task, is_pending, older, fetch_pending}

abbrev pub Apart : ℕ → Task → Type 0
Apart n t = t.id ≢ n

-- The tasks have different ids.
abbrev pub Distinct : List Task → Type 0
Distinct [] = Unit {0}
Distinct (t ∷ ts) = All (Apart t.id) ts × Distinct ts

abbrev pub Current : Database → Task → Type 0
Current db t = get_task t.id db ≡ some t

abbrev pub ids : List Task → List ℕ
ids ts = map (λ t. t.id) ts

module _ (P : Task → Type 0) where
  All-where_rows : (p : Task → Bool) (ts : List Task) → All P ts → All P (where_rows p ts)
  unfolding where_rows
  All-where_rows p [] h = tt
  All-where_rows p (t ∷ ts) h = elim (Bool-cases (p t)) [
    | inl kept ↦ rw kept (h.0, All-where_rows p ts h.1)
    | inr dropped ↦ rw dropped (All-where_rows p ts h.1)
  ]

where_rows-Distinct : (p : Task → Bool) (ts : List Task) → Distinct ts → Distinct (where_rows p ts)
unfolding where_rows
where_rows-Distinct p [] d = tt
where_rows-Distinct p (t ∷ ts) d = elim (Bool-cases (p t)) [
  | inl kept ↦ rw kept (All-where_rows (Apart t.id) p ts d.0, where_rows-Distinct p ts d.1)
  | inr dropped ↦ rw dropped (where_rows-Distinct p ts d.1)
]

insert_by-Distinct :
    (before : Task → Task → Bool) (t : Task) (ts : List Task)
    → All (Apart t.id) ts
    → Distinct ts
    → Distinct (insert_by before t ts)
unfolding insert_by
insert_by-Distinct before t [] a d = (tt, tt)
insert_by-Distinct before t (u ∷ us) a d = elim (Bool-cases (before t u)) [
  | inl first ↦ rw first (a, d)
  | inr later ↦ rw later (
    All-insert_by before (Apart u.id) t us (λ e. a.0 (sym e)) d.0,
    insert_by-Distinct before t us a.1 d.1,
  )
]

order_by-Distinct :
    (before : Task → Task → Bool) (ts : List Task) → Distinct ts → Distinct (order_by before ts)
unfolding order_by
order_by-Distinct before [] d = tt
order_by-Distinct before (t ∷ ts) d =
    insert_by-Distinct before t (order_by before ts) (All-order_by before (Apart t.id) ts d.0)
      (order_by-Distinct before ts d.1)

take-Distinct : (n : ℕ) (ts : List Task) → Distinct ts → Distinct (take n ts)
take-Distinct zero ts d = tt
take-Distinct (suc n) [] d = tt
take-Distinct (suc n) (t ∷ ts) d = (All-take (Apart t.id) n ts d.0, take-Distinct n ts d.1)

pub fetch_pending-Distinct :
    (limit : ℕ) (db : Database) → Distinct db.tasks → Distinct (fetch_pending limit db)
unfolding fetch_pending
fetch_pending-Distinct limit db d =
    let waiting = where_rows (λ t. is_pending t.status) db.tasks in
    take-Distinct limit (order_by older waiting)
      (order_by-Distinct older waiting (where_rows-Distinct (λ t. is_pending t.status) db.tasks d))

found_In : (t : Task) (ts : List Task) → Distinct ts → In t ts → find_row (has_id t.id) ts ≡ some t
unfolding find_row
found_In t [] d i = absurd i
found_In t (u ∷ us) d (inl e) = ground (arith, e)
found_In t (u ∷ us) d (inr i) =
    let apart = All-In (Apart u.id) t us d.0 i in
    elim (Bool-cases (u.id == t.id)) [
      | inl same ↦ absurd (apart (ground (arith, same)))
      | inr differs ↦ rw differs (found_In t us d.1 i)
    ]

In-found : (n : ℕ) (t : Task) (ts : List Task) → find_row (has_id n) ts ≡ some t → In t ts
unfolding find_row
In-found n t [] h = cc
In-found n t (u ∷ us) h = elim (Bool-cases (u.id == n)) [
  | inl same ↦ inl (ground (arith, same, h))
  | inr differs ↦ inr (In-found n t us (rw differs at h))
]

-- A row of the table is what its id finds.
pub In-Current : (db : Database) (t : Task) → Distinct db.tasks → In t db.tasks → Current db t
In-Current db t d i = found_In t db.tasks d i

pub Current-In : (db : Database) (n : ℕ) (t : Task) → get_task n db ≡ some t → In t db.tasks
Current-In db n t h = In-found n t db.tasks h

-- The same on the ids alone.
abbrev pub Different : List ℕ → Type 0
Different [] = Unit {0}
Different (n ∷ ns) = All (λ k. k ≢ n) ns × Different ns

module _ (n : ℕ) where
  Apart-ids : (ts : List Task) → All (Apart n) ts → All (λ k. k ≢ n) (ids ts)
  Apart-ids [] h = tt
  Apart-ids (t ∷ ts) h = (h.0, Apart-ids ts h.1)

  ids-Apart : (ts : List Task) → All (λ k. k ≢ n) (ids ts) → All (Apart n) ts
  ids-Apart [] h = tt
  ids-Apart (t ∷ ts) h = (h.0, ids-Apart ts h.1)

pub ids-Different : (ts : List Task) → Distinct ts → Different (ids ts)
ids-Different [] d = tt
ids-Different (t ∷ ts) d = (Apart-ids t.id ts d.0, ids-Different ts d.1)

pub Different-Distinct : (ts : List Task) → Different (ids ts) → Distinct ts
Different-Distinct [] d = tt
Different-Distinct (t ∷ ts) d = (ids-Apart t.id ts d.0, Different-Distinct ts d.1)

pub In-ids : (t : Task) (ts : List Task) → In t ts → In t.id (ids ts)
In-ids t [] i = absurd i
In-ids t (u ∷ us) (inl e) = inl (ap (λ x. x.id) e)
In-ids t (u ∷ us) (inr i) = inr (In-ids t us i)
