-- ===== src/Processing/Handlers/Classified.antt =====
-- What `process_classified_excel` does to the tasks.
use orders_agent.Base.{
  ℕ, ◌≡◌, refl, Bool, true, false, Option, none, some, List, [], ◌∷◌, Option-cases, inl, inr,
}
use orders_agent.Base.Text.{Text, codes, text_beq}
use orders_agent.Base.Dict.{Dict}
use orders_agent.Database.Models.{
  TaskStatus, new, ml_classified, question, materials_review, completed, error, Answer, Task, Email,
  Document, Database,
}
use orders_agent.Database.Tasks.{update_status, mark_error, output_data}
use orders_agent.Database.Emails.{get_email, get_by_email_id}
use orders_agent.Processing.{Services, World}
use orders_agent.Processing.Handlers.{process_decision, process_classified_excel, unsupported_class}
use orders_agent.Processing.Handlers.Excel.{
  Progress, all_failed, no_attachments, Save, Step, questions_json, finish, finished, has_names,
  no_progress, process_documents, process_attachments, save_request, save_calculation,
  process_request_excel, process_calculation_excel,
}
use orders_agent.Processing.Handlers.Decided.{unsettled}
use orders_agent.Processing.Handlers.Moves.{
  settled, Moves, Good, update_status-Moves, mark_error-Moves, Moves-then, status_error-Moves,
  if-any,
}
use orders_agent.Processing.Handlers.Steps.{
  To, Does, unclassified, asked, parts_unknown, done, excel_failed,
}

module _ (svc : Services) (now : ℕ) (t : Task) where
  module _ (b : Bool) where
    abbrev C : TaskStatus → Bool → Type 0
    C = To svc t ml_classified b

    finish-Moves :
        (p : Progress) (qs : Dict Text Answer) (db : Database)
        → p.questions ≡ qs
        → Moves t.id t.email_id C db (finish now t p db)
    unfolding finish
    finish-Moves p (q ∷ qs) db e =
        rw (finish, e)
          (update_status-Moves t.id t.email_id C now materials_review
            (output_data (questions_json (q ∷ qs)) ∷ []) db tt parts_unknown)
    finish-Moves p [] db e =
        rw (finish, e)
          (if-any (Moves t.id t.email_id C db) p.saved
            (update_status-Moves t.id t.email_id C now completed [] db tt done)
            (status_error-Moves t.id t.email_id C now (all_failed p) db excel_failed))

    finished-Good : (w : World) (s : Step) → Does svc t ml_classified b w.db (finished now t w s)
    unfolding Good
    finished-Good w (p, true) = refl
    finished-Good w (p, false) = finish-Moves p p.questions w.db refl

    process_attachments-Good :
        (save : Save) (ds : List Document) (w : World)
        → Does svc t ml_classified b w.db (process_attachments svc save now t ds w)
    unfolding process_attachments
    process_attachments-Good save [] w =
        unfold Good in status_error-Moves t.id t.email_id C now no_attachments w.db excel_failed
    process_attachments-Good save (d ∷ ds) w =
        if-any (Does svc t ml_classified b w.db) (has_names (d ∷ ds))
          (finished-Good w (process_documents svc save t w.db (d ∷ ds) (no_progress w.results)))
          (unfold Good in refl)

    process_decision-Good :
        (c : Text) (w : World) → Does svc t ml_classified b w.db (process_decision svc now t c w)
    unfolding process_decision process_request_excel process_calculation_excel
    process_decision-Good c w =
        let G = Does svc t ml_classified b w.db in
        let documents = get_by_email_id t.email_id w.db in
        if-any G (text_beq c (codes "request"))
          (process_attachments-Good (save_request svc) documents w)
          (if-any G (text_beq c (codes "calculation"))
            (process_attachments-Good (save_calculation svc) documents w)
            (if-any G (text_beq c (codes "question"))
              (unfold Good in update_status-Moves t.id t.email_id C now question [] w.db tt asked)
              (unfold Good in
                let db' : Database = mark_error now t.id unsupported_class w.db in
                Moves-then t.id t.email_id C w.db db' (update_status now t.id error [] db')
                  (mark_error-Moves t.id t.email_id C now unsupported_class w.db excel_failed)
                  (update_status-Moves t.id t.email_id C now error [] db' tt excel_failed))))

  unclassified_of : {b b' : Bool} → b ≡ false → To svc t ml_classified b new b'
  unclassified_of h = rw h unclassified

  abbrev before : World → Bool
  before w = settled t.email_id w.db

  pub process_classified_excel-Good :
      (w : World) → Does svc t ml_classified (before w) w.db (process_classified_excel svc now t w)
  unfolding process_classified_excel
  process_classified_excel-Good w = elim (Option-cases (get_email t.email_id w.db)) [
    | inl e ↦ rw (process_classified_excel, e) (unfold Good in refl)
    | inr (x, e) ↦ rw (process_classified_excel, e) (by_decision x e x.model_decision refl)
  ]
    where
      by_decision :
          (x : Email)
          → get_email t.email_id w.db ≡ some x
          → (o : Option Text) → x.model_decision ≡ o
          → Does svc t ml_classified (before w) w.db (elim o [
            | none ↦ (record w { db = update_status now t.id new [] w.db }, false)
            | some c ↦ process_decision svc now t c w
          ])
      by_decision x there none e =
          unfold Good in
          update_status-Moves t.id t.email_id (To svc t ml_classified (before w)) now new [] w.db tt
            (unclassified_of (unsettled t.email_id w.db x there e))
      by_decision x there (some c) e = process_decision-Good (before w) c w
