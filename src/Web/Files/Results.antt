-- ===== src/Web/Files/Results.antt =====
-- frontend/mail-client/app/routers/queue.py: `get_result_documents`.
use orders_agent.Base.{ℕ, Option, none, some, List, [], ◌∷◌}
use orders_agent.Base.Text.{Text}
use orders_agent.Database.Models.{Document, Database}
use orders_agent.Web.{User, task_row}
use orders_agent.Web.Listing.Items.{email_documents}
use orders_agent.Web.Files.{
  results, found, absent, unknown, Storage, display_name, object_key, ResultFile, articles_key,
  main_file, articles_file, files_of, and_files, FileReply, documents, file_error, for_task,
}

-- The candidates that are there, for a list of them; none is the error 500.
unfoldable pub stat_all : Storage → List ResultFile → Option (List ResultFile)
stat_all s [] = some []
stat_all s (c ∷ cs) = elim (s.stat_object results c.key) [
  | found ↦ files_of (stat_all s cs) (c ∷ [])
  | absent ↦ stat_all s cs
  | unknown ↦ none
]

abbrev pub both : Storage → ℕ → Text → Text → Option Text → Option (List ResultFile)
both s id key name none = none
both s id key name (some k) = some (main_file id key name ∷ articles_file s id k name ∷ [])

-- The files of a document; none where `pathlib` raises.
unfoldable pub candidates : Storage → Document → Text → Option (List ResultFile)
unfolding articles_key display_name
candidates s d key = both s d.id key (display_name d.id d.filename) (articles_key s key)

abbrev pub stat_some : Storage → Option (List ResultFile) → Option (List ResultFile)
stat_some s none = none
stat_some s (some cs) = stat_all s cs

abbrev pub listed_key : Storage → Document → Option Text → Option (List ResultFile)
listed_key s d none = some []
listed_key s d (some key) = stat_some s (candidates s d key)

-- The loop of `get_result_documents`.
unfoldable pub list_results : Storage → List Document → Option (List ResultFile)
unfolding candidates stat_all
list_results s [] = some []
list_results s (d ∷ ds) =
    and_files (listed_key s d (object_key d.minio_object_key)) (list_results s ds)

abbrev pub documents_reply : Option (List ResultFile) → FileReply
documents_reply none = file_error 500
documents_reply (some cs) = documents cs

unfoldable pub get_result_documents : Storage → Option User → ℕ → Database → FileReply
unfolding task_row list_results
get_result_documents s none task_id db = file_error 401
get_result_documents s (some user) task_id db =
    for_task (λ t. documents_reply (list_results s (email_documents t.email_id db)))
      (task_row user task_id db)
