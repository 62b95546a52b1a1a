-- ===== src/Processing/Handlers/Moves.antt =====
-- How a handler may change the tasks: which steps of the workflow there are.
use orders_agent.Base.{
  ℕ, ◌≡◌, ◌≢◌, refl, ap, ◌∙◌, Bool, true, false, Option, none, some, List, [], ◌∷◌, arith, is_some,
  if◌then◌else◌,
}
use orders_agent.Base.Text.{Text}
use orders_agent.Base.Dict.{Dict}
use orders_agent.Database.Models.{
  TaskStatus, new, ml_classified, question, ml_review, materials_review, manual_review_done,
  completed, error, Answer, Task, Email, Database,
}
use orders_agent.Database.Rows.{update_rows}
use orders_agent.Database.Emails.{get_email}
use orders_agent.Database.Tasks.{
  has_id, get_task, Field, output_data, manual_decision, assigned_to, completed_at, set_attr,
  set_attrs, with_status, update_status, with_error, mark_error,
}
use orders_agent.Database.Tasks.Ids.{ids}
use orders_agent.Database.Tasks.Updates.{
  mapped, get_task-update_status, get_task-update_status_ne, get_task-mark_error,
  get_task-mark_error_ne, id-with_status, status-with_status,
}
use orders_agent.Processing.Handlers.{Outcome}

abbrev pub Others : ℕ → Database → Database → Type 0
Others n db db' = (k : ℕ) → n ≢ k → get_task k db' ≡ get_task k db

abbrev has_decision : Option Email → Bool
has_decision none = true
has_decision (some e) = is_some e.model_decision

-- An email that is missing, or that the classifier has decided on.
unfoldable pub settled : ℕ → Database → Bool
settled m db = has_decision (get_email m db)

abbrev pub Kept : Database → Database → Type 0
Kept db db' = (m : ℕ) → settled m db ≡ true → settled m db' ≡ true

-- The task is there, with a status that `Q` admits.
abbrev pub Ends : ℕ → (TaskStatus → Type 0) → Database → Type 0
Ends n Q db = (t : Task) × (get_task n db ≡ some t) × Q t.status

-- The task `n` of the email `m` is there.
abbrev pub Present : ℕ → ℕ → Database → Type 0
Present n m db = (t : Task) × (get_task n db ≡ some t) × (t.email_id ≡ m)

-- It is there, with a status that `Q` admits, given whether its email is decided on.
abbrev pub Leaves : ℕ → ℕ → (TaskStatus → Bool → Type 0) → Database → Type 0
Leaves n m Q db =
    (t : Task) × (get_task n db ≡ some t) × (t.email_id ≡ m) × Q t.status (settled m db)

-- What the user has answered to a task.
abbrev answers_of : Option Task → Option (Option (Dict Text Answer))
answers_of none = none
answers_of (some t) = some t.manual_decision

abbrev pub SameAnswers : ℕ → Database → Database → Type 0
SameAnswers n db db' = answers_of (get_task n db') ≡ answers_of (get_task n db)

-- The task ends in `Q` with the answers that it had; no other task changes, none comes or goes, and
-- decisions stay.
unfoldable pub Moves : ℕ → ℕ → (TaskStatus → Bool → Type 0) → Database → Database → Type 0
Moves n m Q db db' =
    Others n db db'
    × (ids db'.tasks ≡ ids db.tasks)
    × Kept db db'
    × SameAnswers n db db'
    × (Present n m db → Leaves n m Q db')

-- A handler that raises has not changed the database.
unfoldable pub Good : ℕ → ℕ → (TaskStatus → Bool → Type 0) → Database → Outcome → Type 0
Good n m Q db (w, true) = w.db ≡ db
Good n m Q db (w, false) = Moves n m Q db w.db

ids-update_rows :
    (n : ℕ) (f : Task → Task) (ts : List Task)
    → ((t : Task) → (f t).id ≡ t.id)
    → ids (update_rows (has_id n) f ts) ≡ ids ts
unfolding update_rows
ids-update_rows n f [] keeps = refl
ids-update_rows n f (t ∷ ts) keeps = ground (arith, keeps t, ids-update_rows n f ts keeps)

email_id-set_attrs : (fs : List Field) (t : Task) → (set_attrs fs t).email_id ≡ t.email_id
unfolding set_attrs
email_id-set_attrs [] t = refl
email_id-set_attrs (f ∷ fs) t = email_id-set_attrs fs (set_attr f t) ∙ ground arith

-- A keyword argument other than `manual_decision`.
abbrev pub NoAnswers : List Field → Type 0
NoAnswers [] = Unit {0}
NoAnswers (manual_decision v ∷ fs) = ⊥
NoAnswers (f ∷ fs) = NoAnswers fs

answers-set_attrs :
    (fs : List Field) (t : Task)
    → NoAnswers fs
    → (set_attrs fs t).manual_decision ≡ t.manual_decision
unfolding set_attrs
answers-set_attrs [] t no_ = refl
answers-set_attrs (output_data v ∷ fs) t no_ =
    answers-set_attrs fs (set_attr (output_data v) t) no_ ∙ ground arith
answers-set_attrs (manual_decision v ∷ fs) t no_ = absurd no_
answers-set_attrs (assigned_to v ∷ fs) t no_ =
    answers-set_attrs fs (set_attr (assigned_to v) t) no_ ∙ ground arith
answers-set_attrs (completed_at v ∷ fs) t no_ =
    answers-set_attrs fs (set_attr (completed_at v) t) no_ ∙ ground arith

answers_of-mapped :
    (f : Task → Task) (o : Option Task)
    → ((t : Task) → (f t).manual_decision ≡ t.manual_decision)
    → answers_of (mapped f o) ≡ answers_of o
answers_of-mapped f none keeps = refl
answers_of-mapped f (some t) keeps = ap some (keeps t)

email_id-with_status :
    (now : ℕ) (s : TaskStatus) (fs : List Field) (t : Task)
    → (with_status now s fs t).email_id ≡ t.email_id
unfolding with_status
email_id-with_status now s fs t = email_id-set_attrs fs (record t { status = s })

module _ (n m : ℕ) (Q : TaskStatus → Bool → Type 0) where
  pub update_status-Moves :
      (now : ℕ) (s : TaskStatus) (fs : List Field) (db : Database)
      → NoAnswers fs
      → Q s (settled m db)
      → Moves n m Q db (update_status now n s fs db)
  unfolding Moves update_status settled
  update_status-Moves now s fs db no_ q = (
    λ k h. get_task-update_status_ne now n k s fs db h,
    ids-update_rows n (with_status now s fs) db.tasks (id-with_status now s fs),
    λ k h. h,
    ap answers_of (get_task-update_status now n s fs db)
        ∙ answers_of-mapped (with_status now s fs) (get_task n db)
            (λ t. answers-set_attrs fs (record t { status = s }) no_),
    λ (t, e, same). (
      with_status now s fs t,
      get_task-update_status now n s fs db ∙ ap (mapped (with_status now s fs)) e,
      email_id-with_status now s fs t ∙ same,
      rw (status-with_status now s fs t) q,
    ),
  )

  pub mark_error-Moves :
      (now : ℕ) (msg : Text) (db : Database)
      → Q error (settled m db)
      → Moves n m Q db (mark_error now n msg db)
  unfolding Moves with_error mark_error settled
  mark_error-Moves now msg db q = (
    λ k h. get_task-mark_error_ne now n k msg db h,
    ids-update_rows n (with_error now msg) db.tasks (λ t. refl),
    λ k h. h,
    ap answers_of (get_task-mark_error now n msg db)
        ∙ answers_of-mapped (with_error now msg) (get_task n db) (λ t. refl),
    λ (t, e, same). (
      with_error now msg t,
      get_task-mark_error now n msg db ∙ ap (mapped (with_error now msg)) e,
      same,
      q,
    ),
  )

  -- Two steps, where only the second counts; the first keeps the task.
  pub Moves-then :
      (db db' db'' : Database) → Moves n m Q db db' → Moves n m Q db' db'' → Moves n m Q db db''
  unfolding Moves
  Moves-then db db' db'' f g = (
    λ k h. g.0 k h ∙ f.0 k h,
    g.1 ∙ f.1,
    λ k h. g.2 k (f.2 k h),
    g.3 ∙ f.3,
    λ p. let (t, e, same, q) = f.4 p in g.4 (t, e, same),
  )

  -- Two calls, `update_status` and `mark_error`.
  pub status_error-Moves :
      (now : ℕ) (msg : Text) (db : Database)
      → Q error (settled m db)
      → Moves n m Q db (mark_error now n msg (update_status now n error [] db))
  status_error-Moves now msg db q =
      Moves-then db (update_status now n error [] db) _ (update_status-Moves now error [] db tt q) (
        mark_error-Moves now msg (update_status now n error [] db)
          (unfold update_status settled in q))

pub if-any : {A : Type 0} (P : A → Type 0) (b : Bool) {x y : A} → P x → P y → P (if b then x else y)
if-any P true p q = p
if-any P false p q = q

-- Whether `HANDLERS` has the status.
unfoldable pub has_handler : TaskStatus → Bool
has_handler new = true
has_handler ml_classified = true
has_handler manual_review_done = true
has_handler _ = false

-- The status where the handlers can leave a task, by the status that it had.
pub data Next : TaskStatus → TaskStatus → Type 0 where
  reviewed : Next new ml_review
  classified : Next new ml_classified
  new_failed : Next new error
  unclassified : Next ml_classified new
  asked : Next ml_classified question
  parts_unknown : Next ml_classified materials_review
  done : Next ml_classified completed
  excel_failed : Next ml_classified error
  answered : Next manual_review_done ml_classified
  not_stored : Next manual_review_done manual_review_done
  not_classified : Next manual_review_done new
  matching_failed : Next manual_review_done error
  no_handler : {s : TaskStatus} → has_handler s ≡ false → Next s s
