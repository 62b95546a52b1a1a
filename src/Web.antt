-- ===== src/Web.antt =====
-- frontend/mail-client/app/routers: the sessions (auth.py) and the routes of queue.py that change the
-- database, here `update_queue_decision`. A route gets the user of the session, if any, and the time;
-- it returns the database and the reply. A class is a natural number: the route refuses a negative
-- one as it refuses one above 2. PostgreSQL rolls a transaction back when a route raises.
pub mod Archive
pub mod Answers
pub mod Safe
pub mod Accepted
pub mod Listing
pub mod Files
pub mod Users
pub mod Replies
use orders_agent.Base.{
  ℕ, Bool, true, false, ◌&&◌, ◌||◌, Option, none, some, List, [], ◌∷◌, ◌==◌, leb, if◌then◌else◌,
  is_some,
}
use orders_agent.Base.Text.{Text, codes, text_beq, text_eq, strip}
use orders_agent.Base.Dict.{Dict, lookup, insert, erase, contains}
use orders_agent.Database.Models.{
  TaskStatus, new, downloaded, files_saved, ml_processing, ml_classified, question, ml_review,
  materials_review, manual_review_done, completed, error, Answer, Json, num, bool, str, JsonObject,
  Task, Email, Database,
}
use orders_agent.Database.Rows.{where_rows, order_by, update_rows}
use orders_agent.Database.Tasks.{get_task, change_task, newer}
use orders_agent.Database.Emails.{get_email, email_is}

pub record User : Type 0 where
  pub id : ℕ
  pub email : Text
  pub is_admin : Bool

-- `get_current_user`: an empty session id counts as none.
unfoldable pub get_current_user : Option Text → Dict Text User → Option User
get_current_user none sessions = none
get_current_user (some []) sessions = none
get_current_user (some (c ∷ s)) sessions = lookup (c ∷ s) sessions

unfoldable pub logout : Option Text → Dict Text User → Dict Text User
logout none sessions = sessions
logout (some []) sessions = sessions
logout (some (c ∷ s)) sessions =
    if contains (c ∷ s) sessions then erase (c ∷ s) sessions else sessions

-- The status of the reply; 200 is the one of a route that returns.
pub data Reply : Type 0 where
  reply : Reply
  http_error : ℕ → Reply

abbrev pub Answered : Type 0
Answered = Database × Reply

-- The admin sees all mailboxes, a user the own one.
unfoldable pub can_see : User → Email → Bool
can_see user e = user.is_admin || text_beq e.mailbox user.email

-- `SELECT ... JOIN emails`, with the condition on the mailbox for users.
abbrev pub joined : User → Task → Option Email → Option (Task × Email)
joined user t none = none
joined user t (some e) = if can_see user e then some (t, e) else none

abbrev pub with_email : User → Database → Option Task → Option (Task × Email)
with_email user db none = none
with_email user db (some t) = joined user t (get_email t.email_id db)

unfoldable pub task_row : User → ℕ → Database → Option (Task × Email)
unfolding can_see
task_row user task_id db = with_email user db (get_task task_id db)

pub record DecisionUpdate : Type 0 where
  pub predicted_class : Option ℕ
  pub model_decision : Option Text
  pub status : Option Text

-- The cast `$2::task_status`; none is an error of the database.
unfoldable pub task_status : Text → Option TaskStatus
task_status s = lookup s (
    (codes "new", new)
    ∷ (codes "downloaded", downloaded)
    ∷ (codes "files_saved", files_saved)
    ∷ (codes "ml_processing", ml_processing)
    ∷ (codes "ml_classified", ml_classified)
    ∷ (codes "question", question)
    ∷ (codes "ml_review", ml_review)
    ∷ (codes "materials_review", materials_review)
    ∷ (codes "manual_review_done", manual_review_done)
    ∷ (codes "completed", completed)
    ∷ (codes "error", error)
    ∷ [])

-- `predicted_class`, where the payload has none.
unfoldable pub class_of : Text → Option ℕ
class_of d =
    if text_beq d (codes "request")
    then some 2
    else if text_beq d (codes "question")
    then some 1
    else if text_beq d (codes "calculation")
    then some 0
    else none

abbrev pub or_class : Option ℕ → Text → Option ℕ
or_class (some c) d = some c
or_class none d = class_of d

unfoldable pub next_status : Option Text → Text → Option TaskStatus
unfolding task_status
next_status (some s) d = task_status s
next_status none d = some (if text_beq d (codes "question") then question else ml_classified)

-- `model_decision in {"request", "calculation", "question"}`
unfoldable pub is_decision : Text → Bool
is_decision d =
    text_beq d (codes "request")
    || text_beq d (codes "calculation")
    || text_beq d (codes "question")

abbrev or_empty : Option JsonObject → JsonObject
or_empty none = []
or_empty (some o) = o

-- `COALESCE(output_data, '{}') || output_patch`
abbrev patched : ℕ → ℕ → Text → Option JsonObject → JsonObject
patched c user d o = insert (codes "model_decision") (str d) (
    insert (codes "manual_review") (bool true) (
      insert (codes "manual_updated_by") (num user)
        (insert (codes "predicted_class") (num c) (or_empty o))))

abbrev pub decided : ℕ → ℕ → ℕ → Text → TaskStatus → Task → Task
decided now user c d s t = record t {
  output_data = some (patched c user d t.output_data);
  status = s;
  assigned_to = some user;
  completed_at = some now;
}

abbrev pub change_email : ℕ → (Email → Email) → Database → Database
change_email n f db = record db { emails = update_rows (email_is n) f db.emails }

abbrev pub with_class : ℕ → Text → Email → Email
with_class c d e = record e { predicted_class = some c; model_decision = some d }

-- The two updates.
unfoldable pub store_class : ℕ → User → Task → ℕ → Text → Option TaskStatus → Database → Answered
store_class now user t c d none db = (db, http_error 500)
store_class now user t c d (some s) db = (
  change_email t.email_id (with_class c d) (change_task t.id (decided now user.id c d s) db),
  reply,
)

abbrev pub check_class : ℕ → User → Task → Option ℕ → Text → Option TaskStatus → Database → Answered
check_class now user t none d s db = (db, http_error 400)
check_class now user t (some c) d s db =
    if leb c 2 then store_class now user t c d s db else (db, http_error 400)

abbrev pub check_decision : ℕ → User → DecisionUpdate → Option Text → Task → Database → Answered
check_decision now user payload none t db = (db, http_error 400)
check_decision now user payload (some d) t db =
    if is_decision d
    then check_class now user t (or_class payload.predicted_class d) d
        (next_status payload.status d) db
    else (db, http_error 400)

abbrev pub apply_decision : ℕ → User → DecisionUpdate → Option (Task × Email) → Database → Answered
apply_decision now user payload none db = (db, http_error 404)
apply_decision now user payload (some (t, e)) db =
    check_decision now user payload payload.model_decision t db

abbrev pub nothing : Option ℕ → Option Text → Bool
nothing none none = true
nothing _ _ = false

unfoldable pub update_queue_decision : ℕ → Option User → DecisionUpdate → ℕ → Database → Answered
unfolding task_row store_class is_decision class_of next_status
update_queue_decision now none payload task_id db = (db, http_error 401)
update_queue_decision now (some user) payload task_id db =
    if nothing payload.predicted_class payload.model_decision
    then (db, http_error 400)
    else apply_decision now user payload (task_row user task_id db) db
