-- ===== src/Web/Listing.antt =====
-- frontend/mail-client/app/services/queue.py: the list of emails that a user gets, each with one of
-- its tasks; and the route `get_queue` of routers/queue.py. `jsonb` is what asyncpg gives for a
-- value of a `jsonb` column, and `loads` is `json.loads`.
pub mod Values
pub mod Query
pub mod Items
pub mod Shown
pub mod Rows
pub mod Sound
use orders_agent.Base.{
  ℕ, Bool, true, false, ◌&&◌, ◌||◌, Option, none, some, List, [], ◌∷◌, ◌==◌, ltb, leb, map,
  if◌then◌else◌,
}
use orders_agent.Base.Lists.{length, take}
use orders_agent.Base.Text.{Text, codes, strip, split_at, not_empty}
use orders_agent.Materials.Block.{ℤ, pos, negsuc}
use orders_agent.Database.Models.{
  TaskStatus, new, downloaded, files_saved, ml_processing, ml_classified, question, ml_review,
  materials_review, manual_review_done, completed, error, Task, Email, Document, Database,
}
use orders_agent.Database.Models
use orders_agent.Database.Rows.{where_rows, order_by}
use orders_agent.Database.Rows.Total.{first_row}
use orders_agent.Web.{User, can_see, task_status}
use orders_agent.Web.Archive.{bool_beq}
use Values.{
  Value, py_none, py_num, py_bool, py_str, py_list, py_dict, ValueList, nil, item, Fields, end,
  field, normalize_documents, task_output, output_field, text_value, object_value,
}
use Query.{status_names, cast_all, queue_rows}
use Items.{QueueItem, queue_item}

pub data QueueReply : Type 0 where
  queue : User → ℕ → List QueueItem → QueueReply
  queue_error : ℕ → QueueReply

-- The limit of the request, between 1 and 200.
unfoldable pub clamped : Option ℤ → Option ℤ
clamped none = none
clamped (some (negsuc n)) = some (pos 1)
clamped (some (pos n)) = some (pos (if ltb n 1 then 1 else if ltb 200 n then 200 else n))

module _ (loads : Text → Option Value) (jsonb : Value → Value) where
  abbrev queue_items :
      User → Option ℤ → Option Bool → Database → Option (List TaskStatus) → Option (List QueueItem)
  queue_items user limit archived db none = none
  queue_items user limit archived db (some statuses) =
      some (map (queue_item loads jsonb db) (queue_rows user statuses limit archived db))

  -- None is an error of the database.
  unfoldable pub list_queue_for_user :
      User → Text → Option ℤ → Option Bool → Database → Option (List QueueItem)
  unfolding cast_all status_names queue_rows queue_item
  list_queue_for_user user status limit archived db =
      queue_items user limit archived db (cast_all (status_names status))

  abbrev queue_reply : User → Option (List QueueItem) → QueueReply
  queue_reply user none = queue_error 500
  queue_reply user (some items) = queue user (length items) items

  unfoldable pub get_queue : Option User → Text → Option ℤ → Option Bool → Database → QueueReply
  unfolding list_queue_for_user clamped
  get_queue none status limit archived db = queue_error 401
  get_queue (some user) status limit archived db =
      queue_reply user (list_queue_for_user user status (clamped limit) archived db)
