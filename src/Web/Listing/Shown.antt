-- ===== src/Web/Listing/Shown.antt =====
-- The task that an email is listed with.
use orders_agent.Base.{
  ℕ, ◌≤◌, ◌≡◌, refl, true, Option, none, some, List, arith, ◌⊎◌, inl, inr, ==_iff, ◌==◌,
}
use orders_agent.Database.Models.{Task, Database}
use orders_agent.Database.Rows.{where_rows}
use orders_agent.Database.Rows.Order.{In, In-where_rows, where_rows-In}
use orders_agent.Database.Rows.Total.{IsTotal, IsFirst, first_row-order_by}
use orders_agent.Web.Listing.Query.{status_order, shown_before, shown_task}

shown_before-IsTotal : IsTotal shown_before
unfolding shown_before
shown_before-IsTotal = record {
  flip = λ a b h. ground (arith, h);
  trans = λ a b c h k. ground (arith, h, k);
}

-- A task that comes no later.
abbrev NoLater : Task → Task → Type 0
NoLater t u =
    (status_order t.status ≤ status_order u.status)
    × (status_order t.status ≡ status_order u.status → u.created_at ≤ t.created_at)

no_later : (t u : Task) → (u ≡ t) ⊎ (shown_before t u ≡ true) → NoLater t u
unfolding shown_before
no_later t u (inl e) = rw e (omega arith, λ x. omega arith)
no_later t u (inr b) = (ground (arith, b), λ x. ground (arith, b, x))

-- The task that an email is listed with is a task of the email, and no other task of it comes
-- before in the order of the statuses, nor, with a status of the same place, is younger. An email
-- is listed without a task only where it has none.
pub shown_task_best :
    (n : ℕ) (db : Database) (u : Task)
    → In u db.tasks
    → u.email_id ≡ n
    → (t : Task) × (shown_task n db ≡ some t)
      × In t db.tasks
      × (t.email_id ≡ n)
      × (status_order t.status ≤ status_order u.status)
      × (status_order t.status ≡ status_order u.status → u.created_at ≤ t.created_at)
shown_task_best n db u i same =
    by_first (shown_task n db) refl
      (unfold shown_task in first_row-order_by shown_before mine shown_before-IsTotal)
  where
    mine : List Task
    mine = where_rows (λ t. t.email_id == n) db.tasks

    there : In u mine
    there = In-where_rows (λ t. t.email_id == n) u db.tasks ((==_iff u.email_id n).1 same) i

    by_first :
        (o : Option Task)
        → shown_task n db ≡ o
        → IsFirst shown_before mine o
        → (t : Task) × (shown_task n db ≡ some t)
          × In t db.tasks
          × (t.email_id ≡ n)
          × (status_order t.status ≤ status_order u.status)
          × (status_order t.status ≡ status_order u.status → u.created_at ≤ t.created_at)
    by_first none e h = absurd (h u there)
    by_first (some t) e h =
        let (is_mine, j) = where_rows-In (λ x. x.email_id == n) t db.tasks h.0 in
        let before = no_later t u (h.1 u there) in
        (t, e, j, (==_iff t.email_id n).0 is_mine, before.0, before.1)
