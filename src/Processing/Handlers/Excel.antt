-- ===== src/Processing/Handlers/Excel.antt =====
-- processors/main.py: `process_request_excel` and `process_calculation_excel`.
use orders_agent.Base.{
  ℕ, ◌≡◌, ◌↔◌, arith, Eq, Bool, true, false, ◌&&◌, Option, none, some, List, [], ◌∷◌, ◌++◌,
  if◌then◌else◌, is_some,
}
use orders_agent.Base.Text.{Text, codes, text_beq, text_beq_iff}
use orders_agent.Base.Dict.{Dict, insert}
use orders_agent.Database.Models.{
  completed, materials_review, error, Answer, answer, JsonObject, Task, Document, Database,
}
use orders_agent.Database.Tasks.{update_status, mark_error, output_data}
use orders_agent.Database.Emails.{get_by_email_id}
use orders_agent.Table.Sheet.{TableParseResults}
use orders_agent.Table.Workbook.{Sheet, make_request_xlsx, make_callculation_xlsx}
use orders_agent.Processing.{Stored, requests, articles, Services, World}
use orders_agent.Processing.Documents.{
  file_error, tables, read_document, unique_materials, Known, parse_materials, search_materials,
  append_matches, update_dict,
}

abbrev pub name_beq : Option Text → Option Text → Bool
name_beq none none = true
name_beq (some a) (some b) = text_beq a b
name_beq _ _ = false

pub name_beq_iff : (a b : Option Text) → (name_beq a b ≡ true) ↔ (a ≡ b)
name_beq_iff none none = ground arith
name_beq_iff none (some b) = ground arith
name_beq_iff (some a) none = ground arith
name_beq_iff (some a) (some b) = ground (arith, text_beq_iff a b)

instance abbrev pub name_eq : Eq (Option Text)
name_eq = record { beq = name_beq; beq_iff = name_beq_iff }

-- What the loop over the attachments keeps.
pub record Progress : Type 0 where
  pub known : Known
  pub questions : Dict Text Answer
  pub saved : Bool
  pub file_errors : Dict (Option Text) Text
  pub results : Dict (Option Text) Stored

abbrev pub no_progress : Dict (Option Text) Stored → Progress
no_progress results = record {
  known = record { materials = []; parts = [] };
  questions = [];
  saved = false;
  file_errors = [];
  results = results;
}

-- The progress and whether the step raised.
abbrev pub Step : Type 0
Step = Progress × Bool

-- `continue` with a text in `file_errors`.
abbrev pub failed : Option Text → Text → Progress → Step
failed filename message p =
    (record p { file_errors = insert filename message p.file_errors }, false)

abbrev pub internal : Text
internal = codes "Внутренняя ошибка при сохранении файла. Пожалуйста, сообщите разработчикам."

-- `put_bytes_object`: whether the object is stored.
abbrev pub put_bytes_object : Services → Option Text → Stored → Progress → Progress × Bool
put_bytes_object svc filename data_ p =
    if svc.can_put filename
    then (record p { results = insert filename data_ p.results }, true)
    else (p, false)

-- An exception of `wb.save` leaves the handler.
unfoldable pub save_request : Services → Option Text → List TableParseResults → Progress → Step
unfolding make_request_xlsx
save_request svc filename res p =
    elim (make_request_xlsx svc.int_float svc.legal res p.known.materials) [
      | none ↦ failed filename internal p
      | some wb ↦ elim wb [
        | none ↦ failed filename (codes "Пустой выходной файл.") p
        | some sheets ↦
            let (q, stored) = put_bytes_object svc filename (requests sheets) p in
            if svc.can_save (requests sheets)
            then (if stored then (record q { saved = true }, false) else (q, false))
            else (p, true)
      ]
    ]

abbrev pub put_both : Services → Option Text → Stored → Stored → Progress → Step
put_both svc filename data_ data2 p =
    let (q, stored) = put_bytes_object svc filename data_ p in
    let (r, stored2) = put_bytes_object svc (svc.articles_name filename) data2 q in
    if stored
    then (if stored2 then (record r { saved = true }, false) else (r, false))
    else (q, false)

abbrev pub save_both : Services → Option Text → Option (List Sheet) → Option Sheet → Progress → Step
save_both svc filename (some sheets) (some sheet) p =
    if svc.can_save (requests sheets) && svc.can_save (articles sheet)
    then put_both svc filename (requests sheets) (articles sheet) p
    else (p, true)
save_both svc filename _ _ p = failed filename (codes "Пустой выходной файл(ы).") p

unfoldable pub save_calculation : Services → Option Text → List TableParseResults → Progress → Step
unfolding make_request_xlsx make_callculation_xlsx
save_calculation svc filename res p =
    elim (make_request_xlsx svc.int_float svc.legal res p.known.materials) [
      | none ↦ failed filename internal p
      | some wb ↦ elim (make_callculation_xlsx svc.int_float svc.legal res p.known.materials) [
        | none ↦ failed filename internal p
        | some wb2 ↦ save_both svc filename wb wb2 p
      ]
    ]

abbrev pub Save : Type 0
Save = Option Text → List TableParseResults → Progress → Step

-- The matches of the parts, and the saving, where there is no question.
unfoldable pub match_and_save :
    Save
    → Option Text
    → List TableParseResults
    → Progress
    → Dict Text (Option Text × Option Text × Bool) × Dict Text Answer
    → Step
unfolding append_matches update_dict
match_and_save save filename res p (matches, q ∷ qs) =
    (record p { questions = update_dict (q ∷ qs) p.questions }, false)
match_and_save save filename res p (matches, []) = elim (append_matches matches p.known.materials) [
  | none ↦ (p, true)
  | some materials ↦
      save filename res (record p { known = record p.known { materials = materials } })
]

-- The body of `for doc in documents`.
unfoldable pub process_document : Services → Save → Task → Database → Document → Progress → Step
unfolding read_document unique_materials parse_materials search_materials match_and_save
process_document svc save t db doc p = elim (read_document svc doc.minio_object_key) [
  | file_error message ↦ failed doc.minio_object_key message p
  | tables res ↦ elim (parse_materials (unique_materials res []) p.known) [
    | none ↦ (p, true)
    | some known ↦
        match_and_save save doc.minio_object_key res (record p { known = known })
          (search_materials t.manual_decision known.parts db.mappings)
  ]
]

unfoldable pub process_documents :
    Services → Save → Task → Database → List Document → Progress → Step
unfolding process_document
process_documents svc save t db [] p = (p, false)
process_documents svc save t db (doc ∷ docs) p =
    let (q, stop) = process_document svc save t db doc p in
    let rest = process_documents svc save t db docs q in if stop then (q, true) else rest

-- `str` of a name.
abbrev pub name_text : Option Text → Text
name_text none = codes "None"
name_text (some n) = n

abbrev pub error_lines : Dict (Option Text) Text → Text
error_lines [] = []
error_lines ((fn, e) ∷ []) = codes "- " ++ name_text fn ++ codes ": " ++ e
error_lines ((fn, e) ∷ next ∷ rest) =
    codes "- " ++ name_text fn ++ codes ": " ++ e ++ (10 ∷ []) ++ error_lines (next ∷ rest)

abbrev pub all_failed : Progress → Text
all_failed p =
    codes "Парсинг всех доступных фалов завершился с ошибкой."
    ++ (10 ∷ [])
    ++ error_lines p.file_errors

abbrev pub no_attachments : Text
no_attachments = codes "Нет вложений для анализа"

unfoldable pub questions_json : Dict Text Answer → JsonObject
questions_json [] = []
questions_json ((part, a) ∷ rest) = (part, answer a) ∷ questions_json rest

-- The end of both handlers: questions first, then what has been saved.
unfoldable pub finish : ℕ → Task → Progress → Database → Database
unfolding update_status mark_error questions_json
finish now t p db = elim p.questions [
  | q ∷ qs ↦ update_status now t.id materials_review (output_data (questions_json (q ∷ qs)) ∷ []) db
  | [] ↦
      if p.saved
      then update_status now t.id completed [] db
      else mark_error now t.id (all_failed p) (update_status now t.id error [] db)
]

-- `', '.join(docnames)` raises for a name that is `None`.
unfoldable pub has_names : List Document → Bool
has_names [] = true
has_names (d ∷ ds) = if is_some d.filename then has_names ds else false

abbrev pub finished : ℕ → Task → World → Step → World × Bool
finished now t w (p, true) = (record w { results = p.results }, true)
finished now t w (p, false) = (record { db = finish now t p w.db; results = p.results }, false)

unfoldable pub process_attachments :
    Services → Save → ℕ → Task → List Document → World → World × Bool
unfolding process_documents finish has_names update_status mark_error
process_attachments svc save now t [] w = (
  record w { db = mark_error now t.id no_attachments (update_status now t.id error [] w.db) },
  false,
)
process_attachments svc save now t (d ∷ ds) w =
    if has_names (d ∷ ds)
    then finished now t w (process_documents svc save t w.db (d ∷ ds) (no_progress w.results))
    else (w, true)

unfoldable pub process_request_excel : Services → ℕ → Task → World → World × Bool
unfolding process_attachments save_request get_by_email_id
process_request_excel svc now t w =
    process_attachments svc (save_request svc) now t (get_by_email_id t.email_id w.db) w

unfoldable pub process_calculation_excel : Services → ℕ → Task → World → World × Bool
unfolding process_attachments save_calculation get_by_email_id
process_calculation_excel svc now t w =
    process_attachments svc (save_calculation svc) now t (get_by_email_id t.email_id w.db) w
