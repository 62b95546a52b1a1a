-- ===== src/Examples/Queue.antt =====
-- The list of emails, for a user of one mailbox.
use orders_agent.Base.{◌≤◌, ◌≡◌, refl, ◌⊎◌, inl, inr, some_inj, false, none, some, Option, [], ◌∷◌}
use orders_agent.Base.Lists.{length, All}
use orders_agent.Base.Text.{Text, codes, text_beq, strip, split_at}
use orders_agent.Materials.Block.{pos}
use orders_agent.Database.Models.{completed, ml_review, Task, Database}
use orders_agent.Database.Rows.{where_rows, order_by}
use orders_agent.Database.Rows.Order.{In}
use orders_agent.Database.Rows.Total.{first_row}
use orders_agent.Base.Dict.{lookup}
use orders_agent.Web.{User, can_see, task_status}
use orders_agent.Web.Listing.Query.{
  status_order, shown_task, row_of, is_listed, query_limit, queue_rows, status_asked, status_names,
  cast_all,
}
use orders_agent.Web.Listing.Items.{queue_item}
use orders_agent.Web.Listing.{clamped, list_queue_for_user, get_queue}
use orders_agent.Web.Listing.Shown.{shown_task_best}
use orders_agent.Web.Listing.Rows.{AllYounger, IsFull, Younger, queue_rows_complete}
use orders_agent.Web.Listing.Sound.{Listed, get_queue_sound}
use orders_agent.Web.Listing.Values.{Value, py_str, py_dict, end}
use orders_agent.Examples.Rows.{task}
use orders_agent.Examples.Routes.{letter, inbox, clerk}

-- A task in review, and a newer one that is completed.
abbrev two_tasks : Database
two_tasks = record inbox {
  tasks = task 1 ml_review 10 ∷ record (task 2 completed 5) { email_id = 1 } ∷ [];
}

shown_task_best_example :
    (t : Task) × (shown_task 1 two_tasks ≡ some t)
    × In t two_tasks.tasks
    × (t.email_id ≡ 1)
    × (status_order t.status ≤ status_order ml_review)
    × (status_order t.status ≡ status_order ml_review → 10 ≤ t.created_at)
shown_task_best_example = shown_task_best 1 two_tasks (task 1 ml_review 10) (inl refl) refl

queue_rows_complete_example :
    let rows = queue_rows clerk (ml_review ∷ []) none (some false) inbox in
    AllYounger rows
    × (In (row_of inbox letter) rows
        ⊎ (IsFull none (length rows) × All (λ r. Younger r (row_of inbox letter)) rows))
unfolding is_listed can_see status_asked text_beq shown_task first_row order_by where_rows
queue_rows_complete_example =
    queue_rows_complete clerk (ml_review ∷ []) (some false) inbox none letter (inl refl)
      (record { seen = inr refl; archive = λ b e. some_inj e; status = inr (_, refl, inl refl) })

-- `json.loads` that reads every text as an empty dict, and asyncpg that gives texts.
abbrev loads : Text → Option Value
loads s = some (py_dict end)

abbrev jsonb : Value → Value
jsonb v = py_str (codes "{}")

get_queue_sound_example :
    let items = queue_item loads jsonb inbox (row_of inbox letter) ∷ [] in
    (◌≡◌ {A = Option User} (some clerk) (some clerk))
    × Listed loads jsonb (codes "new, ml_review") (some (pos 5)) none inbox clerk 1 items
unfolding get_queue list_queue_for_user cast_all status_names clamped queue_rows is_listed can_see
    status_asked text_beq shown_task first_row order_by where_rows split_at strip task_status
    query_limit lookup
get_queue_sound_example =
    get_queue_sound loads jsonb (some clerk) (codes "new, ml_review") (some (pos 5)) none inbox
      clerk 1 (queue_item loads jsonb inbox (row_of inbox letter) ∷ []) refl
