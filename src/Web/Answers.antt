-- ===== src/Web/Answers.antt =====
-- frontend/mail-client/app/routers/queue.py: `update_materials_manual_decision`.
use orders_agent.Base.{ℕ, Bool, true, false, Option, none, some, [], ◌∷◌, if◌then◌else◌}
use orders_agent.Base.Text.{Text, text_eq, strip}
use orders_agent.Base.Dict.{Dict, insert}
use orders_agent.Database.Models.{
  TaskStatus, materials_review, manual_review_done, Answer, Task, Email, Database,
}
use orders_agent.Database.Tasks.{change_task}
use orders_agent.Web.{User, reply, http_error, Answered, task_row}

-- `(text or "").strip() or None`
abbrev stripped : Text → Option Text
stripped [] = none
stripped (c ∷ s) = some (c ∷ s)

abbrev clean : Option Text → Option Text
clean none = none
clean (some s) = stripped (strip s)

-- `normalized_manual_decision`; a blank key is none.
unfoldable pub normalize : Dict Text Answer → Dict Text Answer → Option (Dict Text Answer)
normalize [] done = some done
normalize ((material, a) ∷ rest) done = elim (strip material) [
  | [] ↦ none
  | c ∷ s ↦ normalize rest (
      insert material
        (record { target = clean a.target; article = clean a.article; black_list = a.black_list })
        done)
]

unfoldable pub in_review : TaskStatus → Bool
in_review materials_review = true
in_review _ = false

abbrev pub reviewed : ℕ → ℕ → Dict Text Answer → Task → Task
reviewed now user d t = record t {
  manual_decision = some d;
  status = manual_review_done;
  assigned_to = some user;
  completed_at = some now;
}

abbrev pub store_answers : ℕ → User → Task → Option (Dict Text Answer) → Database → Answered
store_answers now user t none db = (db, http_error 400)
store_answers now user t (some d) db = (change_task t.id (reviewed now user.id d) db, reply)

abbrev pub apply_answers : ℕ → User → Dict Text Answer → Option (Task × Email) → Database → Answered
apply_answers now user answers none db = (db, http_error 404)
apply_answers now user answers (some (t, e)) db =
    if in_review t.status
    then store_answers now user t (normalize answers []) db
    else (db, http_error 400)

unfoldable pub update_materials_manual_decision :
    ℕ → Option User → Dict Text Answer → ℕ → Database → Answered
unfolding task_row normalize in_review
update_materials_manual_decision now none answers task_id db = (db, http_error 401)
update_materials_manual_decision now (some user) [] task_id db = (db, http_error 400)
update_materials_manual_decision now (some user) (a ∷ rest) task_id db =
    apply_answers now user (a ∷ rest) (task_row user task_id db) db
