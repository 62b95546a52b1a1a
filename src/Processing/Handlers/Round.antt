-- ===== src/Processing/Handlers/Round.antt =====
-- What a round of the main loop does to the tasks of its batch.
use orders_agent.Base.{ℕ, ◌≡◌, ◌≢◌, refl, sym, ap, ◌∙◌, false, some, List, [], ◌∷◌}
use orders_agent.Base.Lists.{All}
use orders_agent.Database.Models.{
  TaskStatus, new, downloaded, files_saved, ml_processing, ml_classified, question, ml_review,
  materials_review, manual_review_done, completed, error, Task, Database,
}
use orders_agent.Database.Tasks.{get_task, fetch_pending}
use orders_agent.Database.Tasks.Ids.{Apart, Distinct, Current}
use orders_agent.Processing.{Services, World}
use orders_agent.Processing.Handlers.{
  handler, process_single_task, process_tasks, round, batch_size,
}
use orders_agent.Processing.Handlers.Moves.{Others, Ends, has_handler, Next}
use orders_agent.Processing.Handlers.Single.{process_single_task-Next}

pub Current-kept :
    (n : ℕ) (db db' : Database) (ts : List Task)
    → Others n db db'
    → All (Apart n) ts
    → All (Current db) ts
    → All (Current db') ts
Current-kept n db db' [] o a c = tt
Current-kept n db db' (t ∷ ts) o a c =
    (o t.id (λ e. a.0 (sym e)) ∙ c.0, Current-kept n db db' ts o a.1 c.1)

process_tasks-Others :
    (svc : Services) (now k : ℕ) (ts : List Task) (w : World)
    → All (Apart k) ts
    → Distinct ts
    → All (Current w.db) ts
    → get_task k (process_tasks svc now ts w).db ≡ get_task k w.db
unfolding process_tasks
process_tasks-Others svc now k [] w a d c = refl
process_tasks-Others svc now k (t ∷ ts) w a d c =
    let w' = process_single_task svc now t w in
    let (others, ends) = process_single_task-Next svc now t w c.0 in
    process_tasks-Others svc now k ts w' a.1 d.1 (Current-kept t.id w.db w'.db ts others d.0 c.1)
    ∙ others k a.0

-- After a round every task of the batch is there and has made a step of the workflow from the
-- status that it had before the round; the batch holds tasks with different ids, as they are in
-- the database.
pub process_tasks-Next :
    (svc : Services) (now : ℕ) (ts : List Task) (w : World)
    → Distinct ts
    → All (Current w.db) ts
    → All (λ t. Ends t.id (Next t.status) (process_tasks svc now ts w).db) ts
unfolding process_tasks
process_tasks-Next svc now [] w d c = tt
process_tasks-Next svc now (t ∷ ts) w d c =
    let w' = process_single_task svc now t w in
    let (others, ends) = process_single_task-Next svc now t w c.0 in
    let current = Current-kept t.id w.db w'.db ts others d.0 c.1 in
    (
      (ends.0, process_tasks-Others svc now t.id ts w' d.0 d.1 current ∙ ends.1, ends.2),
      process_tasks-Next svc now ts w' d.1 current,
    )

module _ (svc : Services) (now : ℕ) (w : World) where
  idle_one :
      (t : Task) (s : TaskStatus)
      → t.status ≡ s
      → has_handler s ≡ false
      → process_single_task svc now t w ≡ w
  unfolding process_single_task has_handler handler
  idle_one t new e h = cc
  idle_one t ml_classified e h = cc
  idle_one t manual_review_done e h = cc
  idle_one t downloaded e h = rw e refl
  idle_one t files_saved e h = rw e refl
  idle_one t ml_processing e h = rw e refl
  idle_one t question e h = rw e refl
  idle_one t ml_review e h = rw e refl
  idle_one t materials_review e h = rw e refl
  idle_one t completed e h = rw e refl
  idle_one t error e h = rw e refl

  idle :
      (ts : List Task) → All (λ t. has_handler t.status ≡ false) ts → process_tasks svc now ts w ≡ w
  unfolding process_tasks
  idle [] h = refl
  idle (t ∷ ts) h = rw (idle_one t t.status refl h.0) (idle ts h.1)

-- The inner loop of `main_loop` makes no progress and does not end while all that it fetches are
-- tasks without a handler, `downloaded` or `files_saved`: a round leaves the world as it is, and
-- fetches the same tasks again.
pub round-no_handler :
    (svc : Services) (now : ℕ) (w : World)
    → fetch_pending batch_size w.db ≢ []
    → All (λ t. has_handler t.status ≡ false) (fetch_pending batch_size w.db)
    → round svc now w ≡ some w
round-no_handler svc now w some_ all = by_batch (fetch_pending batch_size w.db) refl some_ all
  where
    by_batch :
        (ts : List Task)
        → fetch_pending batch_size w.db ≡ ts
        → ts ≢ []
        → All (λ t. has_handler t.status ≡ false) ts
        → round svc now w ≡ some w
    by_batch [] e n h = absurd (n refl)
    by_batch (t ∷ ts) e n h = unfold round in rw (round, e) (ap some (idle svc now w (t ∷ ts) h))
