-- ===== src/Web/Accepted.antt =====
-- When the route for the answers of a user succeeds, and when an email is archived.
use orders_agent.Base.{
  ℕ, arith, ◌≡◌, refl, ap, ◌∙◌, Bool, true, false, Option, none, some, [], ◌∷◌, if◌then◌else◌,
}
use orders_agent.Base.Dict.{Dict}
use orders_agent.Base.Text.{Text}
use orders_agent.Database.Models.{
  TaskStatus, materials_review, manual_review_done, Answer, Task, Email, Database,
}
use orders_agent.Database.Tasks.{get_task, change_task}
use orders_agent.Database.Tasks.Updates.{mapped, get_task-change_task}
use orders_agent.Web.{User, reply, http_error, Answered, with_email, task_row}
use orders_agent.Web.Answers.{
  normalize, in_review, reviewed, store_answers, apply_answers, update_materials_manual_decision,
}
use orders_agent.Web.Safe.{with_email-Sees, get_task-id}

no_reply : (code : ℕ) → http_error code ≡ reply → ⊥
no_reply code h = cc

-- A task of the user's mailbox that was in the review of its materials, and is done with it.
abbrev pub IsAccepted : ℕ → Database → Database → Type 0
IsAccepted n db db' =
    (t : Task) × (t' : Task) × (get_task n db ≡ some t)
    × (t.status ≡ materials_review)
    × (get_task n db' ≡ some t')
    × (t'.status ≡ manual_review_done)

in_review-true : (s : TaskStatus) → in_review s ≡ true → s ≡ materials_review
unfolding in_review
in_review-true s h = ground arith

module _ (now n : ℕ) (user : User) (db : Database) where
  store_answers-IsAccepted :
      (t : Task) (o : Option (Dict Text Answer))
      → get_task n db ≡ some t
      → t.id ≡ n
      → t.status ≡ materials_review
      → (store_answers now user t o db).1 ≡ reply
      → IsAccepted n db (store_answers now user t o db).0
  store_answers-IsAccepted t none at id s h = absurd (no_reply 400 h)
  store_answers-IsAccepted t (some d) at id s h =
      (t, reviewed now user.id d t, at, s, changed, refl)
    where
      changed :
          get_task n (change_task t.id (reviewed now user.id d) db)
          ≡ some (reviewed now user.id d t)
      changed =
          ap (λ i. get_task n (change_task i (reviewed now user.id d) db)) id
          ∙ get_task-change_task n (reviewed now user.id d) (λ x. refl) db
          ∙ ap (mapped (reviewed now user.id d)) at

  apply_answers-IsAccepted :
      (answers : Dict Text Answer) (o : Option (Task × Email))
      → with_email user db (get_task n db) ≡ o
      → (apply_answers now user answers o db).1 ≡ reply
      → IsAccepted n db (apply_answers now user answers o db).0
  apply_answers-IsAccepted answers none e h = absurd (no_reply 404 h)
  apply_answers-IsAccepted answers (some (t, z)) e h = by_status (in_review t.status) refl h
    where
      at : get_task n db ≡ some t
      at = (with_email-Sees user n db (t, z) (get_task n db) refl e).0

      stored : Answered
      stored = store_answers now user t (normalize answers []) db

      by_status :
          (b : Bool)
          → in_review t.status ≡ b
          → (if b then stored else (db, http_error 400)).1 ≡ reply
          → IsAccepted n db (if b then stored else (db, http_error 400)).0
      by_status true r h' =
          store_answers-IsAccepted t (normalize answers []) at (get_task-id n t db at)
            (in_review-true t.status r) h'
      by_status false r h' = absurd (no_reply 400 h')

-- The answers of a user are taken only for a task in the review of its materials, and the task is
-- then done with the manual review, so that the processor takes it up again.
pub manual_decision-IsAccepted :
    (now n : ℕ) (user : User) (answers : Dict Text Answer) (db : Database)
    → (update_materials_manual_decision now (some user) answers n db).1 ≡ reply
    → IsAccepted n db (update_materials_manual_decision now (some user) answers n db).0
unfolding update_materials_manual_decision task_row
manual_decision-IsAccepted now n user [] db h = absurd (no_reply 400 h)
manual_decision-IsAccepted now n user (a ∷ rest) db h =
    apply_answers-IsAccepted now n user db (a ∷ rest) (with_email user db (get_task n db)) refl h
