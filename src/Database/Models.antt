-- ===== src/Database/Models.antt =====
-- processors/database/models.py: the rows. Ids, times and counts are natural numbers; a
-- probability, a double, counts units of 2^-1074, of which every finite double is a multiple.
use orders_agent.Base.{ℕ, Bool, Option, List}
use orders_agent.Base.Text.{Text}
use orders_agent.Base.Dict.{Dict}

pub data TaskStatus : Type 0 where
  new downloaded files_saved ml_processing ml_classified question : TaskStatus
  ml_review materials_review manual_review_done completed error : TaskStatus

pub TaskStatus-discrete : Discrete TaskStatus
TaskStatus-discrete = hlevel

abbrev pub Prob : Type 0
Prob = ℕ

-- One value of `manual_decision`, and of the questions that `output_data` holds.
pub record Answer : Type 0 where
  pub target : Option Text
  pub article : Option Text
  pub black_list : Bool

-- The JSON values that the program stores in `output_data`.
pub data Json : Type 0 where
  null : Json
  num : ℕ → Json
  bool : Bool → Json
  str : Text → Json
  answer : Answer → Json

abbrev pub JsonObject : Type 0
JsonObject = Dict Text Json

pub record Task : Type 0 where
  pub id : ℕ
  pub email_id : ℕ
  pub document_id : Option ℕ
  pub status : TaskStatus
  pub output_data : Option JsonObject
  pub manual_decision : Option (Dict Text Answer)
  pub assigned_to : Option ℕ
  pub error_message : Option Text
  pub retry_count : Option ℕ
  pub created_at : ℕ
  pub updated_at : ℕ
  pub completed_at : Option ℕ

-- The schema (storage/init/01-schema.sql) lets `message_id`, `in_reply_to`, `references_header` and
-- `reply_to` be NULL.
pub record Email : Type 0 where
  pub id : ℕ
  pub mailbox : Text
  pub email_uid : ℕ
  pub message_id : Option Text
  pub in_reply_to : Option Text
  pub references_header : Option Text
  pub email_from : Option Text
  pub reply_to : Option Text
  pub email_subject : Option Text
  pub raw_email : Option Text
  pub email_date : Option ℕ
  pub prob_1 : Option Prob
  pub predicted_class : Option ℕ
  pub model_decision : Option Text
  pub archived : Bool
  pub is_read : Bool
  pub created_at : ℕ

pub record Document : Type 0 where
  pub id : ℕ
  pub email_id : ℕ
  pub filename : Option Text
  pub minio_object_key : Option Text
  pub content_type : Option Text
  pub size_bytes : Option ℕ
  pub created_at : ℕ

pub record Mapping : Type 0 where
  pub source : Text
  pub target : Option Text
  pub article : Option Text
  pub black_list : Bool

pub record Database : Type 0 where
  pub emails : List Email
  pub documents : List Document
  pub tasks : List Task
  pub mappings : List Mapping
