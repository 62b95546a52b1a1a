-- ===== src/Web/Safe.antt =====
-- What the routes may change, and for whom.
use mathlib.Core.Path.{subst}
use mathlib.Core.Bool.{false≢true}
use orders_agent.Base.{
  none-some, some_inj, ℕ, ◌≡◌, ◌≢◌, refl, sym, ap, ◌∙◌, Bool, true, false, Option, none, some, [],
  ◌∷◌, arith, ◌==◌, ==_iff, if◌then◌else◌, leb,
}
use orders_agent.Base.Text.{Text}
use orders_agent.Base.Dict.{Dict}
use orders_agent.Database.Models.{TaskStatus, Answer, Task, Email, Database}
use orders_agent.Database.Rows.{find_row-update_rows_ne, find_row-true}
use orders_agent.Database.Tasks.{has_id, get_task, change_task}
use orders_agent.Database.Tasks.Updates.{get_task-change_task_ne}
use orders_agent.Database.Emails.{get_email, email_is}
use orders_agent.Web.{
  User, Reply, http_error, Answered, can_see, joined, with_email, task_row, DecisionUpdate,
  next_status, or_class, is_decision, decided, change_email, with_class, store_class, check_class,
  check_decision, apply_decision, nothing, update_queue_decision,
}
use orders_agent.Web.Answers.{
  apply_answers, normalize, in_review, reviewed, store_answers, update_materials_manual_decision,
}

pub get_task-id : (n : ℕ) (t : Task) (db : Database) → get_task n db ≡ some t → t.id ≡ n
get_task-id n t db h = (==_iff t.id n).0 (find_row-true (has_id n) db.tasks h)

-- Rows of the task `k` and of the email `m` are as before.
abbrev pub Untouched : ℕ → ℕ → Database → Database → Type 0
Untouched k m db db' = (get_task k db' ≡ get_task k db) × (get_email m db' ≡ get_email m db)

get_email-change_email_ne :
    (n m : ℕ) (f : Email → Email) (db : Database)
    → ((e : Email) → (f e).id ≡ e.id)
    → n ≢ m
    → get_email m (change_email n f db) ≡ get_email m db
get_email-change_email_ne n m f db keeps h =
    find_row-update_rows_ne (email_is n) (email_is m) f db.emails (λ e. ap (λ i. i == m) (keeps e))
      (λ e at. ground (arith, at, h))

pub if-any :
    (P : Answered → Type 0) (b : Bool) {x y : Answered} → P x → P y → P (if b then x else y)
if-any P true p q = p
if-any P false p q = q

abbrev pub Sees : User → ℕ → Database → Task × Email → Type 0
Sees user n db (t, e) =
    (get_task n db ≡ some t) × (get_email t.email_id db ≡ some e) × (can_see user e ≡ true)

module _ (user : User) (n : ℕ) (db : Database) (p : Task × Email) where
  joined-Sees :
      (t : Task) (o : Option Email)
      → get_task n db ≡ some t
      → get_email t.email_id db ≡ o
      → joined user t o ≡ some p
      → Sees user n db p
  joined-Sees t none at there h = absurd (none-some h)
  joined-Sees t (some e) at there h = by_sight (can_see user e) refl h
    where
      by_sight :
          (b : Bool)
          → can_see user e ≡ b
          → ◌≡◌ {A = Option (Task × Email)} (if b then some (t, e) else none) (some p)
          → Sees user n db p
      by_sight true sees h' = subst (Sees user n db) (some_inj h') (at, there, sees)
      by_sight false hidden h' = absurd (none-some h')

  pub with_email-Sees :
      (o : Option Task) → get_task n db ≡ o → with_email user db o ≡ some p → Sees user n db p
  with_email-Sees none at h = absurd (none-some h)
  with_email-Sees (some t) at h = joined-Sees t (get_email t.email_id db) at refl h

-- A row of a mailbox that the user does not see.
module _ (user : User) (db : Database) (k : ℕ) (x : Task) (y : Email)
    (at_x : get_task k db ≡ some x) (at_y : get_email x.email_id db ≡ some y)
    (hidden : can_see user y ≡ false) where
  other_email : (n : ℕ) (t : Task) (e : Email) → Sees user n db (t, e) → t.email_id ≢ x.email_id
  other_email n t e s same = false≢true (
      sym hidden
      ∙ ap (can_see user) (some_inj (sym at_y ∙ ap (λ i. get_email i db) (sym same) ∙ s.1))
      ∙ s.2)

  other_task : (n : ℕ) (t : Task) (e : Email) → Sees user n db (t, e) → t.id ≢ k
  other_task n t e s same = other_email n t e s (
      ap (λ (z : Task). z.email_id)
        (some_inj (sym s.0 ∙ ap (λ i. get_task i db) (sym (get_task-id n t db s.0) ∙ same) ∙ at_x)))

  Kept : Answered → Type 0
  Kept (db', r) = Untouched k x.email_id db db'

  store_class-Kept :
      (now c : ℕ) (d : Text) (o : Option TaskStatus) (t : Task)
      → t.id ≢ k
      → t.email_id ≢ x.email_id
      → Kept (store_class now user t c d o db)
  unfolding store_class Kept
  store_class-Kept now c d none t h h' = (refl, refl)
  store_class-Kept now c d (some s) t h h' = (
    get_task-change_task_ne t.id (decided now user.id c d s) (λ z. refl) k db h,
    get_email-change_email_ne t.email_id x.email_id (with_class c d)
        (change_task t.id (decided now user.id c d s) db) (λ z. refl) h',
  )

  unchanged : (r : Reply) → Kept (db, r)
  unfolding Kept
  unchanged r = (refl, refl)

  check_class-Kept :
      (now : ℕ) (o : Option ℕ) (d : Text) (st : Option TaskStatus) (t : Task)
      → t.id ≢ k
      → t.email_id ≢ x.email_id
      → Kept (check_class now user t o d st db)
  check_class-Kept now none d st t h h' = unchanged (http_error 400)
  check_class-Kept now (some c) d st t h h' =
      if-any Kept (leb c 2) (store_class-Kept now c d st t h h') (unchanged (http_error 400))

  check_decision-Kept :
      (now : ℕ) (payload : DecisionUpdate) (o : Option Text) (t : Task)
      → t.id ≢ k
      → t.email_id ≢ x.email_id
      → Kept (check_decision now user payload o t db)
  check_decision-Kept now payload none t h h' = unchanged (http_error 400)
  check_decision-Kept now payload (some d) t h h' =
      if-any Kept (is_decision d)
        (check_class-Kept now (or_class payload.predicted_class d) d (next_status payload.status d)
          t h h')
        (unchanged (http_error 400))

  apply_decision-Kept :
      (now : ℕ) (payload : DecisionUpdate) (n : ℕ) (o : Option (Task × Email))
      → with_email user db (get_task n db) ≡ o
      → Kept (apply_decision now user payload o db)
  apply_decision-Kept now payload n none e = unchanged (http_error 404)
  apply_decision-Kept now payload n (some (t, z)) e =
      let s = with_email-Sees user n db (t, z) (get_task n db) refl e in
      check_decision-Kept now payload payload.model_decision t (other_task n t z s)
        (other_email n t z s)

  store_answers-Kept :
      (now : ℕ) (t : Task) (o : Option (Dict Text Answer))
      → t.id ≢ k
      → Kept (store_answers now user t o db)
  unfolding Kept
  store_answers-Kept now t none h = (refl, refl)
  store_answers-Kept now t (some d) h =
      (get_task-change_task_ne t.id (reviewed now user.id d) (λ z. refl) k db h, refl)

  apply_answers-Kept :
      (now : ℕ) (answers : Dict Text Answer) (n : ℕ) (o : Option (Task × Email))
      → with_email user db (get_task n db) ≡ o
      → Kept (apply_answers now user answers o db)
  apply_answers-Kept now answers n none e = unchanged (http_error 404)
  apply_answers-Kept now answers n (some (t, z)) e =
      let s = with_email-Sees user n db (t, z) (get_task n db) refl e in
      if-any Kept (in_review t.status)
        (store_answers-Kept now t (normalize answers []) (other_task n t z s))
        (unchanged (http_error 400))

  update_queue_decision-Kept :
      (now task_id : ℕ) (payload : DecisionUpdate)
      → Kept (update_queue_decision now (some user) payload task_id db)
  unfolding update_queue_decision task_row
  update_queue_decision-Kept now task_id payload =
      if-any Kept (nothing payload.predicted_class payload.model_decision)
        (unchanged (http_error 400))
        (apply_decision-Kept now payload task_id (with_email user db (get_task task_id db)) refl)

  manual_decision-Kept :
      (now task_id : ℕ) (answers : Dict Text Answer)
      → Kept (update_materials_manual_decision now (some user) answers task_id db)
  unfolding update_materials_manual_decision task_row
  manual_decision-Kept now task_id [] = unchanged (http_error 400)
  manual_decision-Kept now task_id (a ∷ rest) =
      apply_answers-Kept now (a ∷ rest) task_id (with_email user db (get_task task_id db)) refl

-- A user can change neither a task nor its email in a mailbox that the user does not see: whatever
-- is sent to the two routes that take decisions, both rows stay as they are.
pub decisions_hidden :
    (now task_id : ℕ) (user : User) (payload : DecisionUpdate) (answers : Dict Text Answer)
    (db : Database) (k : ℕ) (x : Task) (y : Email)
    → get_task k db ≡ some x
    → get_email x.email_id db ≡ some y
    → can_see user y ≡ false
    → Untouched k x.email_id db (update_queue_decision now (some user) payload task_id db).0
      × Untouched k x.email_id db
          (update_materials_manual_decision now (some user) answers task_id db).0
unfolding Kept
decisions_hidden now task_id user payload answers db k x y at_x at_y hidden = (
  update_queue_decision-Kept user db k x y at_x at_y hidden now task_id payload,
  manual_decision-Kept user db k x y at_x at_y hidden now task_id answers,
)
