-- ===== src/Examples/Files.antt =====
-- The files of one email, in a store that has all of them.
use orders_agent.Base.{◌≡◌, refl, true, none, some, Option, List, [], ◌∷◌, ◌++◌}
use orders_agent.Base.Lists.{All}
use orders_agent.Base.Text.{codes, text_beq}
use orders_agent.Database.Models.{Task, Email, Document, Database}
use orders_agent.Database.Rows.{find_row, where_rows, order_by}
use orders_agent.Database.Emails.{get_email, get_document}
use orders_agent.Web.{User, can_see, task_row}
use orders_agent.Web.Safe.{Sees}
use orders_agent.Web.Files.{
  source_attachments, results, found, loaded, Storage, decimal, main, articles, ResultFile,
  with_articles, articles_key, display_name,
}
use orders_agent.Web.Files.Results.{list_results, candidates, stat_all, get_result_documents}
use orders_agent.Web.Files.Downloads.{
  download_all_result_documents, download_all_source_documents, download_document_by_id, zip_files,
  zip_entries, results_to_zip, sources_to_zip, document_row, variant_file,
}
use orders_agent.Web.Files.Archives.{IsConsistent, Agrees, download_all-get_result_documents}
use orders_agent.Web.Files.Served.{SeesDocument, BytesOf, download_document_by_id_served}
use orders_agent.Web.Files.Entries.{EntryOf}
use orders_agent.Web.Files.Sent.{
  download_all_result_documents_served, download_all_source_documents_served,
}
use orders_agent.Examples.Routes.{inbox, clerk}

abbrev store : Storage
store = record {
  stat_object = λ b k. found;
  load_object = λ b k. loaded k;
  stem = λ x. x;
  suffix = λ x. [];
  with_name = λ x y. some y;
}

abbrev order : Document
order = record {
  id = 4;
  email_id = 1;
  filename = some (codes "o.xls");
  minio_object_key = some (codes "1/o.xls");
  content_type = none;
  size_bytes = some 9;
  created_at = 1;
}

abbrev mail : Database
mail = record inbox { documents = order ∷ [] }

store-IsConsistent : IsConsistent store
store-IsConsistent = record { there = λ k h. (k, refl); gone = λ k h. cc }

abbrev both_files : List ResultFile
both_files =
    record { document = 4; variant = main; key = codes "1/o.xls"; filename = codes "o.xls" }
    ∷ record {
      document = 4;
      variant = articles;
      key = codes "1/o.xls_(articles)";
      filename = codes "o.xls_(articles)";
    }
    ∷ []

download_all-get_result_documents_example :
    Agrees both_files (download_all_result_documents store (some clerk) 1 mail)
unfolding get_result_documents task_row can_see find_row text_beq list_results candidates stat_all
    with_articles articles_key display_name where_rows order_by
download_all-get_result_documents_example =
    download_all-get_result_documents store (some clerk) 1 mail both_files store-IsConsistent refl

download_document_by_id_served_example :
    (user : User) × (d : Document) × (◌≡◌ {A = Option User} (some clerk) (some user))
    × SeesDocument user 4 mail d
    × BytesOf store results d (codes "1/o.xls_(articles)")
unfolding download_document_by_id document_row can_see find_row get_document text_beq variant_file
    with_articles articles_key display_name
download_document_by_id_served_example =
    download_document_by_id_served store results (codes "articles") (some clerk) 4 mail
      (codes "o.xls_(articles)") (codes "1/o.xls_(articles)") refl

download_all_result_documents_served_example :
    (user : User) × (t : Task) × (e : Email) × (◌≡◌ {A = Option User} (some clerk) (some user))
    × Sees user 1 mail (t, e)
    × All (EntryOf store results mail t.email_id) (
        (codes "o.xls", codes "1/o.xls")
        ∷ (codes "o.xls_(articles)", codes "1/o.xls_(articles)")
        ∷ [])
unfolding download_all_result_documents task_row can_see find_row text_beq results_to_zip zip_files
    zip_entries with_articles articles_key display_name where_rows order_by
download_all_result_documents_served_example =
    download_all_result_documents_served store (some clerk) 1 mail
      (codes "task-" ++ decimal 1 ++ codes "-results.zip")
      ((codes "o.xls", codes "1/o.xls")
        ∷ (codes "o.xls_(articles)", codes "1/o.xls_(articles)")
        ∷ [])
      refl

download_all_source_documents_served_example :
    (user : User) × (e : Email) × (◌≡◌ {A = Option User} (some clerk) (some user))
    × (get_email 1 mail ≡ some e)
    × (can_see user e ≡ true)
    × All (EntryOf store source_attachments mail 1) ((codes "o.xls", codes "1/o.xls") ∷ [])
unfolding download_all_source_documents can_see find_row text_beq sources_to_zip zip_entries
    display_name where_rows order_by
download_all_source_documents_served_example =
    download_all_source_documents_served store (some clerk) 1 mail
      (codes "email-" ++ decimal 1 ++ codes "-attachments.zip")
      ((codes "o.xls", codes "1/o.xls") ∷ []) refl
