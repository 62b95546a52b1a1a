-- ===== src/Web/Archive.antt =====
-- frontend/mail-client/app/routers/queue.py: the routes that archive an email and mark it as read.
use orders_agent.Base.{ℕ, Bool, true, false, Option, none, some, [], ◌∷◌, ◌==◌, if◌then◌else◌}
use orders_agent.Base.Text.{text_eq}
use orders_agent.Database.Models.{TaskStatus, question, completed, error, Task, Email, Database}
use orders_agent.Database.Rows.{where_rows, order_by}
use orders_agent.Database.Tasks.{newer}
use orders_agent.Database.Emails.{get_email}
use orders_agent.Web.{User, reply, http_error, Answered, can_see, change_email}

-- The task that an email's archiving looks at: the one that was made last.
unfoldable pub last_task : ℕ → Database → Option Task
last_task email_id db = elim (order_by newer (where_rows (λ t. t.email_id == email_id) db.tasks)) [
  | [] ↦ none
  | t ∷ ts ↦ some t
]

unfoldable pub can_archive : TaskStatus → Bool
can_archive question = true
can_archive error = true
can_archive completed = true
can_archive _ = false

abbrev pub archive_by : ℕ → Email → Option Task → Database → Answered
archive_by email_id e none db = (db, http_error 400)
archive_by email_id e (some t) db =
    if can_archive t.status
    then (if e.archived
        then (db, reply)
        else (change_email email_id (λ x. record x { archived = true }) db, reply))
    else (db, http_error 400)

abbrev pub archive_found : ℕ → Option Email → Database → Answered
archive_found email_id none db = (db, http_error 404)
archive_found email_id (some e) db = archive_by email_id e (last_task email_id db) db

unfoldable pub archive_email : Option User → ℕ → Database → Answered
unfolding last_task can_archive
archive_email none email_id db = (db, http_error 401)
archive_email (some user) email_id db = archive_found email_id (get_email email_id db) db

abbrev pub unarchive_found : ℕ → Option Email → Database → Answered
unarchive_found email_id none db = (db, http_error 404)
unarchive_found email_id (some e) db =
    if e.archived
    then (change_email email_id (λ x. record x { archived = false }) db, reply)
    else (db, reply)

unfoldable pub unarchive_email : Option User → ℕ → Database → Answered
unarchive_email none email_id db = (db, http_error 401)
unarchive_email (some user) email_id db = unarchive_found email_id (get_email email_id db) db

abbrev pub bool_beq : Bool → Bool → Bool
bool_beq true b = b
bool_beq false true = false
bool_beq false false = true

abbrev pub seen : User → Option Email → Option Email
seen user none = none
seen user (some e) = if can_see user e then some e else none

abbrev pub store_read : Bool → ℕ → Option Email → Database → Answered
store_read is_read email_id none db = (db, http_error 404)
store_read is_read email_id (some e) db =
    if bool_beq e.is_read is_read
    then (db, reply)
    else (change_email email_id (λ x. record x { is_read = is_read }) db, reply)

unfoldable pub update_email_read_status : Option User → Bool → ℕ → Database → Answered
unfolding can_see
update_email_read_status none is_read email_id db = (db, http_error 401)
update_email_read_status (some user) is_read email_id db =
    store_read is_read email_id (seen user (get_email email_id db)) db
