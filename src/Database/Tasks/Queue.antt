-- ===== src/Database/Tasks/Queue.antt =====
-- `fetch_pending`: what the processor takes from the queue.
use orders_agent.Base.{ℕ, ◌≤◌, ◌≡◌, ◌⊎◌, true, List}
use orders_agent.Base.Lists.{length, length-take-le, All}
use orders_agent.Database.Models.{Task, Database}
use orders_agent.Database.Rows.{where_rows, order_by}
use orders_agent.Database.Rows.Order.{
  In, In-where_rows, where_rows-In, IsSorted, order_by-IsSorted, In-order_by, order_by-In, take-In,
  take-IsSorted, In-take,
}
use orders_agent.Database.Tasks.{is_pending, older, fetch_pending}

abbrev key : Task → ℕ
key t = t.created_at

abbrev waiting : Database → List Task
waiting db = where_rows (λ t. is_pending t.status) db.tasks

-- The batch holds at most `limit` tasks, the oldest first; all are tasks of the table with a
-- pending status.
pub fetch_pending_sound :
    (limit : ℕ) (db : Database)
    → (length (fetch_pending limit db) ≤ limit)
      × IsSorted (λ t. t.created_at) (fetch_pending limit db)
      × ((t : Task) → In t (fetch_pending limit db) → (is_pending t.status ≡ true) × In t db.tasks)
unfolding fetch_pending
fetch_pending_sound limit db =
    let sorted = order_by older (waiting db) in
    (
      length-take-le limit sorted,
      take-IsSorted key limit sorted (order_by-IsSorted key (waiting db)),
      λ t i.
          where_rows-In (λ x. is_pending x.status) t db.tasks
            (order_by-In key t (waiting db) (take-In key limit t sorted i)),
    )

-- A pending task of the table is in the batch, unless the batch is full of tasks that are no
-- younger.
pub fetch_pending_complete :
    (limit : ℕ) (db : Database) (t : Task)
    → is_pending t.status ≡ true
    → In t db.tasks
    → In t (fetch_pending limit db)
      ⊎ ((length (fetch_pending limit db) ≡ limit)
          × All (λ x. x.created_at ≤ t.created_at) (fetch_pending limit db))
unfolding fetch_pending
fetch_pending_complete limit db t h i =
    In-take key limit t (order_by older (waiting db)) (order_by-IsSorted key (waiting db))
      (In-order_by key t (waiting db) (In-where_rows (λ x. is_pending x.status) t db.tasks h i))
