-- ===== src/Processing/Handlers/Single.antt =====
-- What `process_single_task` does to the tasks.
use mathlib.Core.Path.{subst}
use orders_agent.Base.{ℕ, ◌≡◌, refl, Bool, true, false, some}
use orders_agent.Database.Models.{
  TaskStatus, new, downloaded, files_saved, ml_processing, ml_classified, question, ml_review,
  materials_review, manual_review_done, completed, error, Task, Database,
}
use orders_agent.Database.Tasks.{get_task, mark_error}
use orders_agent.Processing.{Services, World}
use orders_agent.Processing.Handlers.{
  Outcome, process_new, process_classified_excel, process_manual_matching, handler, internal_error,
  after, run_handler, process_single_task,
}
use orders_agent.Processing.Handlers.Moves.{
  Others, Ends, settled, Moves, Good, mark_error-Moves, has_handler, Next,
}
use orders_agent.Processing.Handlers.Steps.{
  To, Does, new_failed, excel_failed, matching_failed, no_handler, Goes-Next,
}
use orders_agent.Processing.Handlers.New.{process_new-Good}
use orders_agent.Processing.Handlers.Classified.{process_classified_excel-Good}
use orders_agent.Processing.Handlers.Manual.{process_manual_matching-Good}

module _ (svc : Services) (now : ℕ) (t : Task) where
  abbrev before : World → Bool
  before w = settled t.email_id w.db

  after-Moves :
      (s : TaskStatus) (b : Bool) (db : Database) (o : Outcome)
      → Does svc t s b db o
      → ((b' : Bool) → To svc t s b error b')
      → Moves t.id t.email_id (To svc t s b) db (after now t o).db
  unfolding Good after
  after-Moves s b db (w, true) g failed =
      subst (λ x. Moves t.id t.email_id (To svc t s b) x (mark_error now t.id internal_error w.db))
        g (mark_error-Moves t.id t.email_id (To svc t s b) now internal_error w.db (failed _))
  after-Moves s b db (w, false) g failed = g

  kept-Moves :
      (s : TaskStatus) (db : Database)
      → get_task t.id db ≡ some t
      → t.status ≡ s
      → has_handler s ≡ false
      → Moves t.id t.email_id (To svc t s (settled t.email_id db)) db db
  unfolding Moves
  kept-Moves s db current e none_ =
      (λ k h. refl, refl, λ k h. h, refl, λ p. (t, current, refl, rw e (no_handler none_)))

  by_status :
      (s : TaskStatus) (w : World)
      → get_task t.id w.db ≡ some t
      → t.status ≡ s
      → Moves t.id t.email_id (To svc t s (before w)) w.db (run_handler now t (handler svc s) w).db
  unfolding handler has_handler
  by_status new w current e =
      after-Moves new (before w) w.db (process_new svc now t w)
        (process_new-Good svc now t (before w) w) (λ c. new_failed)
  by_status ml_classified w current e =
      after-Moves ml_classified (before w) w.db (process_classified_excel svc now t w)
        (process_classified_excel-Good svc now t w) (λ c. excel_failed)
  by_status manual_review_done w current e =
      after-Moves manual_review_done (before w) w.db (process_manual_matching svc now t w)
        (process_manual_matching-Good svc now t w current e) (λ c. matching_failed)
  by_status downloaded w current e = kept-Moves downloaded w.db current e refl
  by_status files_saved w current e = kept-Moves files_saved w.db current e refl
  by_status ml_processing w current e = kept-Moves ml_processing w.db current e refl
  by_status question w current e = kept-Moves question w.db current e refl
  by_status ml_review w current e = kept-Moves ml_review w.db current e refl
  by_status materials_review w current e = kept-Moves materials_review w.db current e refl
  by_status completed w current e = kept-Moves completed w.db current e refl
  by_status error w current e = kept-Moves error w.db current e refl

-- The same, told finer: with the ids of the tasks and the decisions on their emails.
pub process_single_task-Moves :
    (svc : Services) (now : ℕ) (t : Task) (w : World)
    → get_task t.id w.db ≡ some t
    → Moves t.id t.email_id
        (To svc t t.status (settled t.email_id w.db))
        w.db
        (process_single_task svc now t w).db
unfolding process_single_task
process_single_task-Moves svc now t w current = by_status svc now t t.status w current refl

-- Processing a task that is in the database leaves it there, with a status that is a step of the
-- workflow from the one that it had, whatever the services do and whether the handler raises or
-- not; no other task changes. A task whose status has no handler keeps it.
pub process_single_task-Next :
    (svc : Services) (now : ℕ) (t : Task) (w : World)
    → get_task t.id w.db ≡ some t
    → Others t.id w.db (process_single_task svc now t w).db
      × Ends t.id (Next t.status) (process_single_task svc now t w).db
process_single_task-Next svc now t w current =
    unfold Moves in
    let m = process_single_task-Moves svc now t w current in
    let (t', there, same, goes) = m.4 (t, current, refl) in (m.0, (t', there, Goes-Next goes))
