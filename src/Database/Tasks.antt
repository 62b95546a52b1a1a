-- ===== src/Database/Tasks.antt =====
-- processors/database/repositories.py: `TaskRepository`. `now` is the time that a call reads.
pub mod Queue
pub mod Updates
pub mod Ids
use Prim.Native.Nat.{◌^◌}
use orders_agent.Base.{
  ℕ, ◌+◌, ◌*◌, Bool, true, false, Option, none, some, List, [], ◌∷◌, ◌++◌, ◌==◌, ltb, leb,
  if◌then◌else◌, is_some,
}
use orders_agent.Base.Lists.{length, take}
use orders_agent.Base.Text.{Text, codes}
use orders_agent.Base.Dict.{Dict}
use orders_agent.Database.Models.{
  TaskStatus, new, downloaded, files_saved, ml_classified, ml_review, materials_review,
  manual_review_done, completed, error, Prob, Answer, Json, JsonObject, Task, Database,
}
use orders_agent.Database.Rows.{find_row, update_rows, where_rows, order_by}

abbrev pub has_id : ℕ → Task → Bool
has_id n t = t.id == n

-- `session.get(Task, task_id)`
abbrev pub get_task : ℕ → Database → Option Task
get_task n db = find_row (has_id n) db.tasks

abbrev pub set_tasks : List Task → Database → Database
set_tasks ts db = record db { tasks = ts }

-- The change of one row, where it is there.
abbrev pub change_task : ℕ → (Task → Task) → Database → Database
change_task n f db = set_tasks (update_rows (has_id n) f db.tasks) db

-- `create`: the id and the time are the database's.
unfoldable pub create_task : ℕ → ℕ → ℕ → Option ℕ → TaskStatus → Database → Task × Database
create_task id now email_id document_id status db =
    let task : Task = record {
      id = id;
      email_id = email_id;
      document_id = document_id;
      status = status;
      output_data = some [];
      manual_decision = none;
      assigned_to = none;
      error_message = none;
      retry_count = some 0;
      created_at = now;
      updated_at = now;
      completed_at = none;
    } in
    (task, set_tasks (db.tasks ++ task ∷ []) db)

unfoldable pub is_pending : TaskStatus → Bool
is_pending new = true
is_pending ml_classified = true
is_pending downloaded = true
is_pending files_saved = true
is_pending manual_review_done = true
is_pending _ = false

unfoldable pub is_manual : TaskStatus → Bool
is_manual ml_review = true
is_manual materials_review = true
is_manual _ = false

abbrev pub older : Task → Task → Bool
older a b = leb a.created_at b.created_at

abbrev pub newer : Task → Task → Bool
newer a b = leb b.created_at a.created_at

unfoldable pub fetch_pending : ℕ → Database → List Task
fetch_pending limit db =
    take limit (order_by older (where_rows (λ t. is_pending t.status) db.tasks))

unfoldable pub fetch_manual : ℕ → Database → List Task
fetch_manual limit db = take limit (order_by older (where_rows (λ t. is_manual t.status) db.tasks))

abbrev assigned_is : ℕ → Option ℕ → Bool
assigned_is user none = false
assigned_is user (some u) = u == user

unfoldable pub fetch_by_user : ℕ → ℕ → Database → List Task
fetch_by_user user limit db =
    take limit (order_by newer (where_rows (λ t. assigned_is user t.assigned_to) db.tasks))

unfoldable pub has_manual : Database → Bool
unfolding is_manual
has_manual db = is_some (find_row (λ t. is_manual t.status) db.tasks)

-- The keyword arguments that the callers of `update_status` pass.
pub data Field : Type 0 where
  output_data : JsonObject → Field
  manual_decision : Dict Text Answer → Field
  assigned_to : ℕ → Field
  completed_at : ℕ → Field

unfoldable pub set_attr : Field → Task → Task
set_attr (output_data v) t = record t { output_data = some v }
set_attr (manual_decision v) t = record t { manual_decision = some v }
set_attr (assigned_to v) t = record t { assigned_to = some v }
set_attr (completed_at v) t = record t { completed_at = some v }

unfoldable pub set_attrs : List Field → Task → Task
unfolding set_attr
set_attrs [] t = t
set_attrs (f ∷ fs) t = set_attrs fs (set_attr f t)

unfoldable pub with_status : ℕ → TaskStatus → List Field → Task → Task
with_status now status fields t = record (set_attrs fields (record t { status = status })) {
  updated_at = now;
}

unfoldable pub update_status : ℕ → ℕ → TaskStatus → List Field → Database → Database
unfolding with_status
update_status now n status fields db = change_task n (with_status now status fields) db

-- 0.7 as a double, in the units of `Prob`.
confidence_limit : Prob
confidence_limit = 6305039478318694 * 2 ^ 1021

unfoldable pub set_ml_result : ℕ → ℕ → JsonObject → Prob → Database → Database
unfolding confidence_limit
set_ml_result now n output confidence db =
    if ltb confidence confidence_limit
    then update_status now n ml_review (output_data output ∷ []) db
    else update_status now n ml_classified (output_data output ∷ []) db

-- `parsed` and `ambiguous` are the JSON values that the two keys get.
unfoldable pub set_excel_result : ℕ → ℕ → Json → Option Json → Database → Database
set_excel_result now n parsed (some ambiguous) db =
    update_status now n materials_review
      (output_data ((codes "parsed", parsed) ∷ (codes "ambiguous", ambiguous) ∷ []) ∷ []) db
set_excel_result now n parsed none db =
    update_status now n completed
      (output_data ((codes "parsed", parsed) ∷ []) ∷ completed_at now ∷ []) db

unfoldable pub submit_manual_decision : ℕ → ℕ → Dict Text Answer → ℕ → Database → Database
submit_manual_decision now n decision user db =
    update_status now n manual_review_done (manual_decision decision ∷ assigned_to user ∷ []) db

abbrev pub or_zero : Option ℕ → ℕ
or_zero none = 0
or_zero (some n) = n

unfoldable pub with_error : ℕ → Text → Task → Task
with_error now message t = record t {
  status = error;
  error_message = some (take 1000 message);
  retry_count = some (or_zero t.retry_count + 1);
  updated_at = now;
}

unfoldable pub mark_error : ℕ → ℕ → Text → Database → Database
unfolding with_error
mark_error now n message db = change_task n (with_error now message) db

-- What `assign` reads: a task that is there and not assigned. The row is not locked.
unfoldable pub assign_read : ℕ → Database → Bool
assign_read n db = elim (get_task n db) [
  | none ↦ false
  | some t ↦ if is_some t.assigned_to then false else true
]

-- What it does then: the session writes the row when it ends, whatever has happened to it since.
unfoldable pub assign_write : ℕ → ℕ → ℕ → Bool → Database → Database × Bool
assign_write now n user false db = (db, false)
assign_write now n user true db =
    (change_task n (λ x. record x { assigned_to = some user; updated_at = now }) db, true)

-- A call with no other session between the two.
unfoldable pub assign : ℕ → ℕ → ℕ → Database → Database × Bool
unfolding assign_read assign_write
assign now n user db = assign_write now n user (assign_read n db) db

-- Two calls that both read before either writes.
unfoldable pub assign_both : ℕ → ℕ → ℕ → ℕ → ℕ → Database → Database × Bool × Bool
unfolding assign_read assign_write
assign_both now n user later other db =
    let first = assign_read n db in
    let second = assign_read n db in
    let (db', done) = assign_write now n user first db in
    let (db'', done') = assign_write later n other second db' in (db'', done, done')

unfoldable pub release : ℕ → ℕ → Database → Database
release now n db = change_task n (λ x. record x { assigned_to = none; updated_at = now }) db
