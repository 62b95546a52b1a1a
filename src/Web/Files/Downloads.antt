-- ===== src/Web/Files/Downloads.antt =====
-- frontend/mail-client/app/routers/queue.py: the routes that send a file, or an archive of files.
use orders_agent.Base.{ℕ, Option, none, some, List, [], ◌∷◌, ◌++◌, if◌then◌else◌}
use orders_agent.Base.Text.{Text, codes, text_beq}
use orders_agent.Database.Models.{Email, Document, Database}
use orders_agent.Database.Emails.{get_email, get_document}
use orders_agent.Web.{User, can_see, task_row}
use orders_agent.Web.Archive.{seen}
use orders_agent.Web.Listing.Items.{email_documents}
use orders_agent.Web.Files.{
  Bucket, source_attachments, results, Stat, found, absent, unknown, Load, loaded, no_object,
  failed, Storage, decimal, display_name, object_key, ResultFile, with_articles, articles_key,
  main_file, articles_file, and_files, FileReply, stream, archive, file_error, for_task,
}

-- The articles of a document, where they are there.
abbrev pub articles_found : Storage → ResultFile → Stat → Option (List ResultFile)
articles_found s c found = some (c ∷ [])
articles_found s c absent = some []
articles_found s c unknown = none

abbrev pub zip_articles : Storage → ℕ → Text → Text → Option Text → Option (List ResultFile)
zip_articles s id key name none = none
zip_articles s id key name (some k) =
    let c = articles_file s id k name in
    and_files (some (main_file id key name ∷ [])) (articles_found s c (s.stat_object results k))

unfoldable pub zip_files : Storage → Document → Option Text → Option (List ResultFile)
unfolding articles_key display_name
zip_files s d none = some []
zip_files s d (some key) =
    zip_articles s d.id key (display_name d.id d.filename) (articles_key s key)

-- `files_to_zip` of `download_all_result_documents`.
unfoldable pub results_to_zip : Storage → List Document → Option (List ResultFile)
unfolding zip_files
results_to_zip s [] = some []
results_to_zip s (d ∷ ds) =
    and_files (zip_files s d (object_key d.minio_object_key)) (results_to_zip s ds)

abbrev pub add_entry : Text × Text → Option (List (Text × Text)) → Option (List (Text × Text))
add_entry e none = none
add_entry e (some es) = some (e ∷ es)

-- The entries of the archive; an object that is not there is left out.
unfoldable pub zip_entries : Storage → Bucket → List ResultFile → Option (List (Text × Text))
zip_entries s b [] = some []
zip_entries s b (c ∷ cs) = elim (s.load_object b c.key) [
  | loaded bytes ↦ add_entry (c.filename, bytes) (zip_entries s b cs)
  | no_object ↦ zip_entries s b cs
  | failed ↦ none
]

abbrev pub archive_reply : Text → Option (List (Text × Text)) → FileReply
archive_reply name none = file_error 500
archive_reply name (some es) = archive name es

abbrev pub zip_reply : Storage → Bucket → Text → Option (List ResultFile) → FileReply
zip_reply s b name none = file_error 500
zip_reply s b name (some []) = file_error 404
zip_reply s b name (some (c ∷ cs)) = archive_reply name (zip_entries s b (c ∷ cs))

unfoldable pub download_all_result_documents : Storage → Option User → ℕ → Database → FileReply
unfolding task_row results_to_zip zip_entries decimal
download_all_result_documents s none task_id db = file_error 401
download_all_result_documents s (some user) task_id db =
    for_task
      (λ t.
        zip_reply s results (codes "task-" ++ decimal task_id ++ codes "-results.zip")
          (results_to_zip s (email_documents t.email_id db)))
      (task_row user task_id db)

abbrev pub source_file : Document → Option Text → List ResultFile → List ResultFile
source_file d none rest = rest
source_file d (some key) rest = main_file d.id key (display_name d.id d.filename) ∷ rest

unfoldable pub sources_to_zip : List Document → List ResultFile
unfolding display_name
sources_to_zip [] = []
sources_to_zip (d ∷ ds) = source_file d (object_key d.minio_object_key) (sources_to_zip ds)

abbrev pub for_email : (Email → FileReply) → Option Email → FileReply
for_email f none = file_error 404
for_email f (some e) = f e

unfoldable pub download_all_source_documents : Storage → Option User → ℕ → Database → FileReply
unfolding can_see sources_to_zip zip_entries decimal
download_all_source_documents s none email_id db = file_error 401
download_all_source_documents s (some user) email_id db =
    for_email
      (λ e.
        zip_reply s source_attachments
          (codes "email-" ++ decimal email_id ++ codes "-attachments.zip")
          (some (sources_to_zip (email_documents email_id db))))
      (seen user (get_email email_id db))

-- The document with its email, where the user sees the mailbox.
abbrev pub document_seen : User → Document → Option Email → Option Document
document_seen user d none = none
document_seen user d (some e) = if can_see user e then some d else none

abbrev pub document_in : User → Database → Option Document → Option Document
document_in user db none = none
document_in user db (some d) = document_seen user d (get_email d.email_id db)

unfoldable pub document_row : User → ℕ → Database → Option Document
unfolding can_see get_document
document_row user document_id db = document_in user db (get_document document_id db)

-- The key and the name by the `variant` of the request; none is a `variant` that there is not.
abbrev pub articles_of : Storage → Text → Option Text → Option (Option (Text × Text))
articles_of s name none = some none
articles_of s name (some k) = some (some (k, with_articles s name))

unfoldable pub variant_file : Storage → Text → Text → Text → Option (Option (Text × Text))
unfolding articles_key
variant_file s variant key name =
    if text_beq variant (codes "main")
    then some (some (key, name))
    else if text_beq variant (codes "articles")
    then articles_of s name (articles_key s key)
    else none

abbrev pub stream_reply : Text → Load → FileReply
stream_reply name (loaded bytes) = stream name bytes
stream_reply name no_object = file_error 404
stream_reply name failed = file_error 500

abbrev pub variant_reply : Storage → Bucket → Option (Option (Text × Text)) → FileReply
variant_reply s b none = file_error 400
variant_reply s b (some none) = file_error 500
variant_reply s b (some (some (k, name))) = stream_reply name (s.load_object b k)

abbrev pub key_reply : Storage → Bucket → Text → Document → Option Text → FileReply
key_reply s b variant d none = file_error 404
key_reply s b variant d (some key) =
    variant_reply s b (variant_file s variant key (display_name d.id d.filename))

abbrev pub for_document : (Document → FileReply) → Option Document → FileReply
for_document f none = file_error 404
for_document f (some d) = f d

-- `_download_document_by_id`
unfoldable pub download_document_by_id :
    Storage → Bucket → Text → Option User → ℕ → Database → FileReply
unfolding document_row variant_file display_name
download_document_by_id s b variant none document_id db = file_error 401
download_document_by_id s b variant (some user) document_id db =
    for_document (λ d. key_reply s b variant d (object_key d.minio_object_key))
      (document_row user document_id db)

unfoldable pub download_source_document : Storage → Option User → ℕ → Database → FileReply
unfolding download_document_by_id
download_source_document s session document_id db =
    download_document_by_id s source_attachments (codes "main") session document_id db

unfoldable pub download_result_document : Storage → Option User → ℕ → Text → Database → FileReply
unfolding download_document_by_id
download_result_document s session document_id variant db =
    download_document_by_id s results variant session document_id db
