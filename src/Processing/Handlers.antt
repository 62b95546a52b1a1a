-- ===== src/Processing/Handlers.antt =====
-- processors/main.py: the handlers of a task, and their table. A handler gets the task as it was
-- fetched, and the time; it returns the world and whether it raised.
pub mod Excel
pub mod Returns
pub mod Unanswered
pub mod Moves
pub mod Steps
pub mod Decided
pub mod New
pub mod Classified
pub mod Manual
pub mod Single
pub mod Round
pub mod Weight
pub mod Serviceable
pub mod Drain
use Prim.Native.Nat.{◌^◌}
use orders_agent.Base.{
  ℕ, Bool, true, false, Option, none, some, List, [], ◌∷◌, ◌++◌, ◌==◌, if◌then◌else◌, is_some, map,
}
use orders_agent.Base.Text.{Text, codes, text_beq, strip, not_empty}
use orders_agent.Base.Dict.{Dict}
use orders_agent.Database.Models.{
  TaskStatus, new, ml_classified, ml_review, question, manual_review_done, error, Answer, Task,
  Email, Document, Mapping, Database,
}
use orders_agent.Database.Tasks.{fetch_pending, update_status, mark_error}
use orders_agent.Database.Mappings.{batch_add}
use orders_agent.Database.Emails.{get_email, get_by_email_id}
use orders_agent.Database.Emails
use orders_agent.Processing.{Services, World}
use orders_agent.Processing.Threshold.{Decision, threshold_default, decide_by_thresholds}
use orders_agent.Processing.Features.{extract_text_features, extract_files_features}
use Excel.{process_request_excel, process_calculation_excel}

abbrev pub Outcome : Type 0
Outcome = World × Bool

abbrev pub returned : Database → World → Outcome
returned db w = (record w { db = db }, false)

abbrev pub raised : World → Outcome
raised w = (w, true)

abbrev pub email_not_found : Text
email_not_found = codes "Email not found"

abbrev pub unsupported_class : Text
unsupported_class = codes "Неподдерживаемый класс письма."

abbrev pub no_answers : Text
no_answers = codes "Не обнаружено ввода от пользователя."

-- The names that are there and not empty.
abbrev pub file_names : List Document → List Text
file_names [] = []
file_names (d ∷ ds) = elim d.filename [
  | none ↦ file_names ds
  | some n ↦ elim n [ [] ↦ file_names ds | c ∷ s ↦ (c ∷ s) ∷ file_names ds ]
]

-- `separator.join(texts)`
abbrev pub join_texts : Text → List Text → Text
join_texts separator [] = []
join_texts separator (t ∷ []) = t
join_texts separator (t ∷ u ∷ ts) = t ++ separator ++ join_texts separator (u ∷ ts)

abbrev or_empty : Option Text → Text
or_empty none = []
or_empty (some t) = t

-- The text that is classified: the subject, the body and the file names.
unfoldable pub email_text : Email → List Text → Text
unfolding strip
email_text e names = strip (
    join_texts (10 ∷ 10 ∷ []) (
      not_empty (
        or_empty e.email_subject ∷ or_empty e.raw_email ∷ strip (join_texts (10 ∷ []) names) ∷ [])))

abbrev pub status_of : Option ℕ → TaskStatus
status_of none = ml_review
status_of (some i) = ml_classified

-- The end of `process_new`: an empty list of decisions has no entry 0.
unfoldable pub store_decision : ℕ → Task → Email → List Decision → World → Outcome
unfolding update_status Emails.set_ml_result
store_decision now t e [] w = raised w
store_decision now t e (d ∷ ds) w =
    returned
      (update_status now t.id (status_of d.predicted) []
        (Emails.set_ml_result e.id d.prob d.predicted d.decision w.db))
      w

unfoldable pub process_new : Services → ℕ → Task → World → Outcome
unfolding store_decision decide_by_thresholds email_text mark_error get_by_email_id
    extract_text_features extract_files_features
process_new svc now t w = elim (get_email t.email_id w.db) [
  | none ↦ returned (mark_error now t.id email_not_found w.db) w
  | some e ↦
      let names = file_names (get_by_email_id t.email_id w.db) in
      let features = extract_text_features svc.text_lib (email_text e names) in
      elim (svc.predict features (extract_files_features names)) [
        | none ↦ raised w
        | some (labels, indexes, proba) ↦
            store_decision now t e (decide_by_thresholds labels indexes proba threshold_default) w
      ]
]

-- The classes that `match email.model_decision` tells apart.
abbrev pub class_case {ℓ} : {A : Type ℓ} → Text → A → A → A → A → A
class_case c request calculation question_ other =
    if text_beq c (codes "request")
    then request
    else if text_beq c (codes "calculation")
    then calculation
    else if text_beq c (codes "question")
    then question_
    else other

unfoldable pub process_decision : Services → ℕ → Task → Text → World → Outcome
unfolding process_request_excel process_calculation_excel update_status mark_error
process_decision svc now t c w =
    class_case c (process_request_excel svc now t w) (process_calculation_excel svc now t w)
      (returned (update_status now t.id question [] w.db) w)
      (returned (update_status now t.id error [] (mark_error now t.id unsupported_class w.db)) w)

-- An email that is not there has no `model_decision`, and raises.
unfoldable pub process_classified_excel : Services → ℕ → Task → World → Outcome
unfolding process_decision update_status
process_classified_excel svc now t w = elim (get_email t.email_id w.db) [
  | none ↦ raised w
  | some e ↦ elim e.model_decision [
    | none ↦ returned (update_status now t.id new [] w.db) w
    | some c ↦ process_decision svc now t c w
  ]
]

abbrev pub answer_row : Text × Answer → Mapping
answer_row (part, a) = record {
  source = part;
  target = a.target;
  article = a.article;
  black_list = a.black_list;
}

-- An exception of `batch_add` is logged, and the task keeps its status.
abbrev pub add_answers : ℕ → Task → Option (List Mapping) → World → Outcome
add_answers now t none w = returned w.db w
add_answers now t (some ms) w =
    returned (update_status now t.id ml_classified [] (record w.db { mappings = ms })) w

unfoldable pub process_manual_matching : Services → ℕ → Task → World → Outcome
unfolding batch_add update_status mark_error
process_manual_matching svc now t w = elim t.manual_decision [
  | none ↦ returned (mark_error now t.id no_answers (update_status now t.id error [] w.db)) w
  | some answers ↦ elim (get_email t.email_id w.db) [
    | none ↦ raised w
    | some e ↦ elim e.model_decision [
      | none ↦ returned (update_status now t.id new [] w.db) w
      | some c ↦ add_answers now t (batch_add svc.accepts (map answer_row answers) w.db.mappings) w
    ]
  ]
]

-- `HANDLERS.get(task.status)`
unfoldable pub handler : Services → TaskStatus → Option (ℕ → Task → World → Outcome)
unfolding process_new process_classified_excel process_manual_matching
handler svc new = some (process_new svc)
handler svc ml_classified = some (process_classified_excel svc)
handler svc manual_review_done = some (process_manual_matching svc)
handler svc _ = none

abbrev pub internal_error : Text
internal_error = codes "Внутренняя ошибка сервера. Пожалуйста, сообщите разработчикам."

unfoldable pub after : ℕ → Task → Outcome → World
unfolding mark_error
after now t (w, true) = record w { db = mark_error now t.id internal_error w.db }
after now t (w, false) = w

abbrev pub run_handler : ℕ → Task → Option (ℕ → Task → World → Outcome) → World → World
run_handler now t none w = w
run_handler now t (some h) w = after now t (h now t w)

unfoldable pub process_single_task : Services → ℕ → Task → World → World
unfolding handler after
process_single_task svc now t w = run_handler now t (handler svc t.status) w

-- The loop over the fetched tasks.
unfoldable pub process_tasks : Services → ℕ → List Task → World → World
unfolding process_single_task
process_tasks svc now [] w = w
process_tasks svc now (t ∷ ts) w = process_tasks svc now ts (process_single_task svc now t w)

-- `BATCH_SIZE`
abbrev pub batch_size : ℕ
batch_size = 10

-- One round of the inner loop; none where nothing is pending, and the loop ends.
unfoldable pub round : Services → ℕ → World → Option World
unfolding fetch_pending process_tasks
round svc now w = elim (fetch_pending batch_size w.db) [
  | [] ↦ none
  | t ∷ ts ↦ some (process_tasks svc now (t ∷ ts) w)
]
