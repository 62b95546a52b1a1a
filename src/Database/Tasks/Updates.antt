-- ===== src/Database/Tasks/Updates.antt =====
-- What the updates of `TaskRepository` do to the row of a task, and to all other rows.
use orders_agent.Base.{
  ℕ, ◌≡◌, ◌≢◌, refl, ap, ◌∙◌, true, false, Option, none, some, List, [], ◌∷◌, arith, Bool, is_some,
  if◌then◌else◌,
}
use orders_agent.Base.Text.{Text}
use orders_agent.Database.Models.{TaskStatus, Task, Database}
use orders_agent.Database.Rows.{find_row, update_rows}
use orders_agent.Database.Tasks.{
  has_id, get_task, change_task, Field, set_attr, set_attrs, with_status, update_status, with_error,
  mark_error, assign_read, assign_write, assign, assign_both,
}

abbrev pub mapped : (Task → Task) → Option Task → Option Task
mapped f none = none
mapped f (some t) = some (f t)

module _ (n : ℕ) (f : Task → Task) (keeps : (t : Task) → (f t).id ≡ t.id) where
  rows_self :
      (ts : List Task)
      → find_row (has_id n) (update_rows (has_id n) f ts) ≡ mapped f (find_row (has_id n) ts)
  unfolding find_row update_rows
  rows_self [] = refl
  rows_self (t ∷ ts) = ground (arith, keeps t, rows_self ts)

  rows_ne :
      (k : ℕ) (ts : List Task)
      → n ≢ k
      → find_row (has_id k) (update_rows (has_id n) f ts) ≡ find_row (has_id k) ts
  unfolding find_row update_rows
  rows_ne k [] h = refl
  rows_ne k (t ∷ ts) h = ground (arith, keeps t, rows_ne k ts h)

  pub get_task-change_task :
      (db : Database) → get_task n (change_task n f db) ≡ mapped f (get_task n db)
  get_task-change_task db = rows_self db.tasks

  pub get_task-change_task_ne :
      (k : ℕ) (db : Database) → n ≢ k → get_task k (change_task n f db) ≡ get_task k db
  get_task-change_task_ne k db h = rows_ne k db.tasks h

pub id-set_attrs : (fs : List Field) (t : Task) → (set_attrs fs t).id ≡ t.id
unfolding set_attrs
id-set_attrs [] t = refl
id-set_attrs (f ∷ fs) t = id-set_attrs fs (set_attr f t) ∙ ground arith

pub id-with_status :
    (now : ℕ) (s : TaskStatus) (fs : List Field) (t : Task) → (with_status now s fs t).id ≡ t.id
unfolding with_status
id-with_status now s fs t = id-set_attrs fs (record t { status = s })

pub status-set_attrs : (fs : List Field) (t : Task) → (set_attrs fs t).status ≡ t.status
unfolding set_attrs
status-set_attrs [] t = refl
status-set_attrs (f ∷ fs) t = status-set_attrs fs (set_attr f t) ∙ ground arith

pub status-with_status :
    (now : ℕ) (s : TaskStatus) (fs : List Field) (t : Task) → (with_status now s fs t).status ≡ s
unfolding with_status
status-with_status now s fs t = status-set_attrs fs (record t { status = s })

pub get_task-update_status :
    (now n : ℕ) (s : TaskStatus) (fs : List Field) (db : Database)
    → get_task n (update_status now n s fs db) ≡ mapped (with_status now s fs) (get_task n db)
unfolding update_status
get_task-update_status now n s fs db =
    get_task-change_task n (with_status now s fs) (id-with_status now s fs) db

pub get_task-update_status_ne :
    (now n k : ℕ) (s : TaskStatus) (fs : List Field) (db : Database)
    → n ≢ k
    → get_task k (update_status now n s fs db) ≡ get_task k db
unfolding update_status
get_task-update_status_ne now n k s fs db h =
    get_task-change_task_ne n (with_status now s fs) (id-with_status now s fs) k db h

pub get_task-mark_error :
    (now n : ℕ) (m : Text) (db : Database)
    → get_task n (mark_error now n m db) ≡ mapped (with_error now m) (get_task n db)
unfolding mark_error
get_task-mark_error now n m db = get_task-change_task n (with_error now m) (λ t. refl) db

pub get_task-mark_error_ne :
    (now n k : ℕ) (m : Text) (db : Database)
    → n ≢ k
    → get_task k (mark_error now n m db) ≡ get_task k db
unfolding mark_error
get_task-mark_error_ne now n k m db h =
    get_task-change_task_ne n (with_error now m) (λ t. refl) k db h

abbrev taken_by : ℕ → ℕ → Task → Task
taken_by now user x = record x { assigned_to = some user; updated_at = now }

abbrev unassigned : Option Task → Bool
unassigned none = false
unassigned (some t) = if is_some t.assigned_to then false else true

assign_read-get_task :
    (n : ℕ) (t : Task) (db : Database)
    → get_task n db ≡ some t
    → assign_read n db ≡ unassigned (some t)
unfolding assign_read
assign_read-get_task n t db h = rw (assign_read, h) refl

-- Two users take a free task. Where one call of `assign` follows the other, the first returns True
-- and assigns the task, and the second returns False and changes nothing. Where both read before
-- either writes, both return True, and the task is the second user's.
pub assign_twice :
    (now n user later other : ℕ) (t : Task) (db : Database)
    → get_task n db ≡ some t
    → t.assigned_to ≡ none
    → let (db', done) = assign now n user db in
      let (both, first, second) = assign_both now n user later other db in
      (done ≡ true)
      × (get_task n db' ≡ some (record t { assigned_to = some user; updated_at = now }))
      × (assign later n other db' ≡ (db', false))
      × (first ≡ true)
      × (second ≡ true)
      × (get_task n both ≡ some (record t { assigned_to = some other; updated_at = later }))
unfolding assign assign_both
assign_twice now n user later other t db h free =
    let free_ : assign_read n db ≡ true = assign_read-get_task n t db h ∙ rw free refl in
    rw free_ (
      unfold assign_write in
      (
        refl,
        taken,
        rw (assign_read-get_task n (taken_by now user t) db' taken) refl,
        refl,
        refl,
        get_task-change_task n (taken_by later other) (λ x. refl) db'
            ∙ ap (mapped (taken_by later other)) taken,
      ))
  where
    db' : Database
    db' = change_task n (taken_by now user) db

    taken : get_task n (change_task n (taken_by now user) db) ≡ some (taken_by now user t)
    taken =
        get_task-change_task n (taken_by now user) (λ x. refl) db
        ∙ ap (mapped (taken_by now user)) h
