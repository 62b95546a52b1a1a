-- ===== src/Web/Files/Sent.antt =====
-- What the archives hold, and for whom.
use mathlib.Core.Path.{subst}
use orders_agent.Base.{
  ℕ, ◌≡◌, ◌≢◌, refl, Bool, true, false, Option, none, some, List, [], ◌∷◌, ◌++◌, if◌then◌else◌,
}
use orders_agent.Base.Lists.{All}
use orders_agent.Base.Text.{Text, codes}
use orders_agent.Database.Models.{Task, Email, Database}
use orders_agent.Database.Emails.{get_email}
use orders_agent.Database.Tasks.{get_task}
use orders_agent.Web.{User, can_see, task_row}
use orders_agent.Web.Safe.{Sees, with_email-Sees}
use orders_agent.Web.Listing.Items.{email_documents}
use orders_agent.Web.Files.{
  Bucket, results, Storage, decimal, ResultFile, FileReply, archive, file_error, for_task,
}
use orders_agent.Web.Files.Downloads.{
  results_to_zip, zip_entries, archive_reply, zip_reply, download_all_result_documents,
}
use orders_agent.Web.Archive.{seen}
use orders_agent.Web.Files.{source_attachments}
use orders_agent.Web.Files.Downloads.{sources_to_zip, for_email, download_all_source_documents}
use orders_agent.Web.Files.Entries.{
  EntryOf, FileOf, documents_Mine, results_to_zip-FileOf, sources_to_zip-FileOf,
  zip_entries-EntryOf,
}

module _ (s : Storage) (b : Bucket) (db : Database) (m : ℕ) (name : Text)
    (es : List (Text × Text)) where
  not_archive : (n : ℕ) → file_error n ≢ archive name es
  not_archive n h = cc

  archive_EntryOf :
      (cs : List ResultFile) (name' : Text)
      → All (FileOf s db m) cs
      → zip_reply s b name' (some cs) ≡ archive name es
      → All (EntryOf s b db m) es
  archive_EntryOf [] name' f h = absurd (not_archive 404 h)
  archive_EntryOf (c ∷ cs) name' f h = by_entries (zip_entries s b (c ∷ cs)) refl h
    where
      by_entries :
          (o : Option (List (Text × Text)))
          → zip_entries s b (c ∷ cs) ≡ o
          → archive_reply name' o ≡ archive name es
          → All (EntryOf s b db m) es
      by_entries none e h = absurd (not_archive 500 h)
      by_entries (some xs) e h =
          let same : xs ≡ es = cc in
          subst (All (EntryOf s b db m)) same (zip_entries-EntryOf s db m b (c ∷ cs) xs f e)

  zip_EntryOf :
      (o : Option (List ResultFile)) (name' : Text)
      → ((cs : List ResultFile) → o ≡ some cs → All (FileOf s db m) cs)
      → zip_reply s b name' o ≡ archive name es
      → All (EntryOf s b db m) es
  zip_EntryOf none name' f h = absurd (not_archive 500 h)
  zip_EntryOf (some cs) name' f h = archive_EntryOf cs name' (f cs refl) h

-- An archive of results is sent only to a user with a session who sees the mailbox of the task's
-- email, and each of its entries is what MinIO has under the key of a document of this email, or
-- of its articles.
pub download_all_result_documents_served :
    (s : Storage) (session : Option User) (n : ℕ) (db : Database) (name : Text)
    (es : List (Text × Text))
    → download_all_result_documents s session n db ≡ archive name es
    → (user : User) × (t : Task) × (e : Email) × (session ≡ some user)
      × Sees user n db (t, e)
      × All (EntryOf s results db t.email_id) es
unfolding download_all_result_documents task_row
download_all_result_documents_served s none n db name es h =
    absurd (not_archive s results db n name es 401 h)
download_all_result_documents_served s (some user) n db name es h =
    by_task (task_row user n db) refl h
  where
    zipped : Task → FileReply
    zipped t =
        zip_reply s results (codes "task-" ++ decimal n ++ codes "-results.zip")
          (results_to_zip s (email_documents t.email_id db))

    by_task :
        (o : Option (Task × Email))
        → task_row user n db ≡ o
        → for_task zipped o ≡ archive name es
        → (u : User) × (t : Task) × (e : Email) × (some user ≡ some u)
          × Sees u n db (t, e)
          × All (EntryOf s results db t.email_id) es
    by_task none at h = absurd (not_archive s results db n name es 404 h)
    by_task (some (t, e)) at h = (
      user,
      t,
      e,
      refl,
      with_email-Sees user n db (t, e) (get_task n db) refl at,
      zip_EntryOf s results db t.email_id name es (results_to_zip s (email_documents t.email_id db))
          _
          (λ cs c.
            results_to_zip-FileOf s db t.email_id (email_documents t.email_id db) cs
              (documents_Mine s db t.email_id) c)
          h,
    )

-- An archive of attachments is sent only to a user with a session who sees the mailbox of the
-- email, and each of its entries is what MinIO has under the key of a document of this email.
pub download_all_source_documents_served :
    (s : Storage) (session : Option User) (n : ℕ) (db : Database) (name : Text)
    (es : List (Text × Text))
    → download_all_source_documents s session n db ≡ archive name es
    → (user : User) × (e : Email) × (session ≡ some user)
      × (get_email n db ≡ some e)
      × (can_see user e ≡ true)
      × All (EntryOf s source_attachments db n) es
unfolding download_all_source_documents
download_all_source_documents_served s none n db name es h =
    absurd (not_archive s source_attachments db n name es 401 h)
download_all_source_documents_served s (some user) n db name es h = by_email (get_email n db) refl h
  where
    zipped : Email → FileReply
    zipped e =
        zip_reply s source_attachments (codes "email-" ++ decimal n ++ codes "-attachments.zip")
          (some (sources_to_zip (email_documents n db)))

    Result : Type 0
    Result =
        (u : User) × (e : Email) × (some user ≡ some u)
        × (get_email n db ≡ some e)
        × (can_see u e ≡ true)
        × All (EntryOf s source_attachments db n) es

    by_sight :
        (e : Email) (c : Bool)
        → get_email n db ≡ some e
        → can_see user e ≡ c
        → for_email zipped (if c then some e else none) ≡ archive name es
        → Result
    by_sight e true at sees h = (
      user,
      e,
      refl,
      at,
      sees,
      archive_EntryOf s source_attachments db n name es (sources_to_zip (email_documents n db)) _
          (sources_to_zip-FileOf s db n (email_documents n db) (documents_Mine s db n)) h,
    )
    by_sight e false at hidden h = absurd (not_archive s source_attachments db n name es 404 h)

    by_email :
        (o : Option Email)
        → get_email n db ≡ o
        → for_email zipped (seen user o) ≡ archive name es
        → Result
    by_email none at h = absurd (not_archive s source_attachments db n name es 404 h)
    by_email (some e) at h = by_sight e (can_see user e) at refl h
