-- ===== src/Web/Listing/Query.antt =====
-- frontend/mail-client/app/services/queue.py: the query of the listing.
use orders_agent.Base.{
  ℕ, Bool, true, false, ◌&&◌, ◌||◌, Option, none, some, List, [], ◌∷◌, ◌==◌, ltb, leb, map,
  if◌then◌else◌,
}
use orders_agent.Base.Lists.{take}
use orders_agent.Base.Text.{Text, strip, split_at, not_empty}
use orders_agent.Materials.Block.{ℤ, pos, negsuc}
use orders_agent.Database.Models.{
  TaskStatus, new, downloaded, files_saved, ml_processing, ml_classified, question, ml_review,
  materials_review, manual_review_done, completed, error, Task, Email, Database,
}
use orders_agent.Database.Rows.{where_rows, order_by}
use orders_agent.Database.Rows.Total.{first_row}
use orders_agent.Web.{User, can_see, task_status}
use orders_agent.Web.Archive.{bool_beq}

-- `_task_status_order_sql`
unfoldable pub status_order : TaskStatus → ℕ
status_order completed = 0
status_order manual_review_done = 1
status_order ml_classified = 2
status_order materials_review = 3
status_order ml_review = 4
status_order files_saved = 5
status_order downloaded = 6
status_order new = 7
status_order error = 8
status_order _ = 100

-- The `ORDER BY` of the lateral join: the status, then the youngest.
unfoldable pub shown_before : Task → Task → Bool
unfolding status_order
shown_before a b =
    ltb (status_order a.status) (status_order b.status)
    || (status_order a.status == status_order b.status && leb b.created_at a.created_at)

-- The lateral join, `LIMIT 1`.
unfoldable pub shown_task : ℕ → Database → Option Task
unfolding shown_before first_row
shown_task n db = first_row (order_by shown_before (where_rows (λ t. t.email_id == n) db.tasks))

pub record QueueRow : Type 0 where
  pub email : Email
  pub task : Option Task

abbrev pub row_of : Database → Email → QueueRow
row_of db e = record { email = e; task = shown_task e.id db }

-- `COALESCE(t.created_at, e.created_at)`
abbrev pub row_date : Email → Option Task → ℕ
row_date e none = e.created_at
row_date e (some t) = t.created_at

abbrev pub date_of : QueueRow → ℕ
date_of r = row_date r.email r.task

-- The `ORDER BY` of the query: the youngest first, then the greater id.
unfoldable pub listed_before : QueueRow → QueueRow → Bool
listed_before a b =
    ltb (date_of b) (date_of a) || (date_of a == date_of b && leb b.email.id a.email.id)

-- The parts of `status` between commas.
unfoldable pub status_names : Text → List Text
unfolding split_at strip
status_names s = not_empty (map strip (split_at 44 s))

abbrev and_status : Option TaskStatus → Option (List TaskStatus) → Option (List TaskStatus)
and_status (some s) (some ss) = some (s ∷ ss)
and_status _ _ = none

-- The cast to `task_status[]`; none is an error of the database.
unfoldable pub cast_all : List Text → Option (List TaskStatus)
unfolding task_status
cast_all [] = some []
cast_all (n ∷ ns) = and_status (task_status n) (cast_all ns)

-- The labels of the type, by their places in it.
abbrev pub place : TaskStatus → ℕ
place new = 0
place downloaded = 1
place files_saved = 2
place ml_processing = 3
place ml_classified = 4
place question = 5
place ml_review = 6
place materials_review = 7
place manual_review_done = 8
place completed = 9
place error = 10

abbrev status_beq : TaskStatus → TaskStatus → Bool
status_beq a b = place a == place b

abbrev pub status_elem : TaskStatus → List TaskStatus → Bool
status_elem s [] = false
status_elem s (x ∷ xs) = status_beq s x || status_elem s xs

-- `t.status = ANY(...)`, which NULL does not meet; no condition where no status is asked for.
unfoldable pub status_asked : List TaskStatus → Option Task → Bool
status_asked [] t = true
status_asked (s ∷ ss) none = false
status_asked (s ∷ ss) (some t) = status_elem t.status (s ∷ ss)

abbrev pub archived_asked : Option Bool → Email → Bool
archived_asked none e = true
archived_asked (some b) e = bool_beq b e.archived

-- The `WHERE`.
unfoldable pub is_listed : User → List TaskStatus → Option Bool → QueueRow → Bool
unfolding can_see status_asked
is_listed user statuses archived r =
    can_see user r.email && status_asked statuses r.task && archived_asked archived r.email

-- The limit that the query gets.
unfoldable pub query_limit : Option ℤ → ℕ
query_limit none = 100
query_limit (some (negsuc n)) = 100
query_limit (some (pos n)) = if n == 0 then 100 else if ltb 200 n then 200 else n

unfoldable pub queue_rows :
    User → List TaskStatus → Option ℤ → Option Bool → Database → List QueueRow
unfolding is_listed listed_before shown_task query_limit
queue_rows user statuses limit archived db = take (query_limit limit) (
    order_by listed_before
      (where_rows (is_listed user statuses archived) (map (row_of db) db.emails)))
