-- ===== src/Web/Listing/Items.antt =====
-- frontend/mail-client/app/services/queue.py: the shaping of a row of the query for the client. Times
-- stand for their ISO texts; the keys that are always the same (`priority`, `max_attempts`,
-- `task_type`, `input_data` and `task_started_at`) are left out.
use orders_agent.Base.{
  ℕ, Bool, false, Option, none, some, List, [], ◌∷◌, ◌==◌, ltb, leb, if◌then◌else◌,
}
use orders_agent.Base.Text.{Text, codes}
use orders_agent.Database.Models.{
  TaskStatus, new, downloaded, files_saved, ml_processing, ml_classified, question, ml_review,
  materials_review, manual_review_done, completed, error, Task, Email, Document, Database,
}
use orders_agent.Database.Models
use orders_agent.Database.Rows.{where_rows, order_by}
use orders_agent.Web.Listing.Values.{
  Value, py_none, py_num, py_bool, py_list, py_dict, ValueList, nil, item, Fields, end, field,
  normalize_documents, task_output, output_field, text_value, object_value,
}
use orders_agent.Web.Listing.Query.{QueueRow}

-- `jsonb_agg(DISTINCT ...)`: sorted, with `id` the first key to be compared.
abbrev has_data : Option ℕ → Bool
has_data none = false
has_data (some n) = ltb 0 n

unfoldable pub document_fields : Document → Fields
document_fields d = field (codes "id") (py_num d.id) (
    field (codes "document_name") (text_value d.filename) (
      field (codes "object_bucket") py_none (
        field (codes "object_key") (text_value d.minio_object_key) (
          field (codes "has_document_data") (py_bool (has_data d.size_bytes)) (
            field (codes "result_document_name") py_none (
              field (codes "has_result_document_data") (py_bool false)
                (field (codes "created_at") (py_num d.created_at) end)))))))

abbrev document_values : List Document → ValueList
document_values [] = nil
document_values (d ∷ ds) = item (py_dict (document_fields d)) (document_values ds)

abbrev pub email_documents : ℕ → Database → List Document
email_documents n db =
    order_by (λ a b. leb a.id b.id) (where_rows (λ d. d.email_id == n) db.documents)

pub record QueueItem : Type 0 where
  pub emailid : ℕ
  pub mailbox : Text
  pub emailuid : ℕ
  pub emailfrom : Option Text
  pub emailsubject : Option Text
  pub rawemail : Option Text
  pub emaildate : Option ℕ
  pub createdat : ℕ
  pub archived : Bool
  pub is_read : Bool
  pub prob1 : Value
  pub predictedclass : Value
  pub modeldecision : Option Text
  pub documents : List Fields
  pub id : ℕ
  pub documentid : Option ℕ
  pub status : Option TaskStatus
  pub outputdata : Value
  pub assignedto : Option ℕ
  pub errormessage : Option Text
  pub attempts : ℕ
  pub taskcreatedat : Option ℕ
  pub taskcompletedat : Option ℕ

abbrev or_zero : Option ℕ → ℕ
or_zero none = 0
or_zero (some n) = n

module _ (loads : Text → Option Value) (jsonb : Value → Value) where
  abbrev output_column : Option Models.JsonObject → Value
  output_column none = py_none
  output_column (some o) = jsonb (object_value (some o))

  abbrev row_output : Option Task → Value
  row_output none = task_output loads py_none
  row_output (some t) = task_output loads (output_column t.output_data)

  -- The keys of an email without a task.
  abbrev email_item : Database → Email → Value → QueueItem
  email_item db e output = record {
    emailid = e.id;
    mailbox = e.mailbox;
    emailuid = e.email_uid;
    emailfrom = e.email_from;
    emailsubject = e.email_subject;
    rawemail = e.raw_email;
    emaildate = e.email_date;
    createdat = e.created_at;
    archived = e.archived;
    is_read = e.is_read;
    prob1 = output_field (codes "prob_1") output;
    predictedclass = output_field (codes "predicted_class") output;
    modeldecision = e.model_decision;
    documents =
        normalize_documents loads (jsonb (py_list (document_values (email_documents e.id db))));
    id = e.id;
    documentid = none;
    status = none;
    outputdata = py_dict end;
    assignedto = none;
    errormessage = none;
    attempts = 0;
    taskcreatedat = none;
    taskcompletedat = none;
  }

  -- `item.update(...)`; an id of 0 counts as none.
  abbrev task_item : Option Task → QueueItem → Value → QueueItem
  task_item none i output = i
  task_item (some t) i output = if t.id == 0 then i else record i {
    id = t.id;
    documentid = t.document_id;
    status = some t.status;
    outputdata = output;
    assignedto = t.assigned_to;
    errormessage = t.error_message;
    attempts = or_zero t.retry_count;
    taskcreatedat = some t.created_at;
    taskcompletedat = t.completed_at;
  }

  unfoldable pub queue_item : Database → QueueRow → QueueItem
  unfolding document_fields normalize_documents task_output output_field
  queue_item db r =
      let output = row_output r.task in task_item r.task (email_item db r.email output) output
