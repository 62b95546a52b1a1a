-- ===== src/Web/Files/Archives.antt =====
-- The archive of results holds what the list of results shows.
use mathlib.Core.Path.{subst}
use orders_agent.Base.{
  ℕ, ◌≡◌, ◌≢◌, refl, sym, ap, ◌∙◌, Option, none, some, List, [], ◌∷◌, ◌++◌, map, some_inj,
  none-some, inl, inr, ◌⊎◌,
}
use orders_agent.Base.Text.{Text, codes}
use orders_agent.Database.Models.{Task, Email, Document, Database}
use orders_agent.Web.{User, task_row}
use orders_agent.Web.Listing.Items.{email_documents}
use orders_agent.Web.Files.{
  results, Stat, found, absent, unknown, loaded, no_object, Storage, decimal, display_name,
  object_key, ResultFile, articles_key, main_file, articles_file, and_files, FileReply, documents,
  archive, file_error, for_task,
}
use orders_agent.Web.Files.Results.{
  stat_all, both, candidates, stat_some, listed_key, list_results, documents_reply,
  get_result_documents,
}
use orders_agent.Web.Files.Downloads.{
  zip_articles, zip_files, results_to_zip, zip_entries, archive_reply, zip_reply,
  download_all_result_documents,
}

abbrev pub names : List (Text × Text) → List Text
names es = map (λ e. e.0) es

abbrev pub filenames : List ResultFile → List Text
filenames cs = map (λ c. c.filename) cs

-- A reply has the files of the list: 404 where there is none, or an archive with their names.
abbrev pub Agrees : List ResultFile → FileReply → Type 0
Agrees cs r =
    ((r ≡ file_error 404) × (filenames cs ≡ []))
    ⊎ ((name : Text) × (es : List (Text × Text)) × (r ≡ archive name es)
        × (names es ≡ filenames cs))

-- What `stat_object` says of an object is what `get_object` then does.
pub record IsConsistent (s : Storage) : Type 0 where
  pub there :
      (k : Text)
      → s.stat_object results k ≡ found
      → (bytes : Text) × (s.load_object results k ≡ loaded bytes)
  pub gone : (k : Text) → s.stat_object results k ≡ absent → s.load_object results k ≡ no_object

module _ (s : Storage) (is : IsConsistent s) where
  -- The files `fs` make an archive with the names of `cs`.
  abbrev Zips : List ResultFile → List ResultFile → Type 0
  Zips fs cs =
      (es : List (Text × Text)) × (zip_entries s results fs ≡ some es) × (names es ≡ filenames cs)

  Zips-nil : Zips [] []
  Zips-nil = ([], unfold zip_entries in refl, refl)

  -- One file, by what `stat_object` says.
  Zips-cons :
      (c : ResultFile) (fs cs : List ResultFile)
      → Zips fs cs
      → ((s.stat_object results c.key ≡ found) → Zips (c ∷ fs) (c ∷ cs))
        × ((s.stat_object results c.key ≡ absent) → Zips (c ∷ fs) cs)
  Zips-cons c fs cs (es, e, same) = (
    λ h.
        let (bytes, h') = is.there c.key h in
        (
          (c.filename, bytes) ∷ es,
          unfold zip_entries in rw (zip_entries, h', e) refl,
          ap (λ ns. c.filename ∷ ns) same,
        ),
    λ h. (es, unfold zip_entries in rw (zip_entries, is.gone c.key h, e) refl, same),
  )

  -- The files of one document, before those of the rest.
  abbrev Also :
      List ResultFile → List ResultFile → Option (List ResultFile) → List ResultFile → Type 0
  Also fs cs o cs1 = (fs1 : List ResultFile) × (o ≡ some fs1) × Zips (fs1 ++ fs) (cs1 ++ cs)

  -- The list that was computed is the one that is there.
  Also-same :
      (fs cs cs1 found_ : List ResultFile) (o o' : Option (List ResultFile))
      → o ≡ some found_
      → o ≡ some cs1
      → Also fs cs o' found_
      → Also fs cs o' cs1
  Also-same fs cs cs1 found_ o o' e h also = subst (Also fs cs o') (some_inj (sym e ∙ h)) also

  module _ (id : ℕ) (key name k : Text) (fs cs : List ResultFile) (z : Zips fs cs) where
    abbrev m : ResultFile
    m = main_file id key name

    abbrev a : ResultFile
    a = articles_file s id k name

    by_stats :
        (x y : Stat) (cs1 : List ResultFile)
        → s.stat_object results key ≡ x
        → s.stat_object results k ≡ y
        → stat_all s (m ∷ a ∷ []) ≡ some cs1
        → Also fs cs (zip_articles s id key name (some k)) cs1
    by_stats found found cs1 e e' h =
        Also-same fs cs cs1 (m ∷ a ∷ []) (stat_all s (m ∷ a ∷ []))
          (zip_articles s id key name (some k)) (unfold stat_all in rw (stat_all, e, e') refl) h
          (m ∷ a ∷ [], rw e' refl, (Zips-cons m (a ∷ fs) (a ∷ cs) ((Zips-cons a fs cs z).0 e')).0 e)
    by_stats found absent cs1 e e' h =
        Also-same fs cs cs1 (m ∷ []) (stat_all s (m ∷ a ∷ [])) (zip_articles s id key name (some k))
          (unfold stat_all in rw (stat_all, e, e') refl) h
          (m ∷ [], rw e' refl, (Zips-cons m fs cs z).0 e)
    by_stats absent found cs1 e e' h =
        Also-same fs cs cs1 (a ∷ []) (stat_all s (m ∷ a ∷ [])) (zip_articles s id key name (some k))
          (unfold stat_all in rw (stat_all, e, e') refl) h
          (m ∷ a ∷ [], rw e' refl, (Zips-cons m (a ∷ fs) (a ∷ cs) ((Zips-cons a fs cs z).0 e')).1 e)
    by_stats absent absent cs1 e e' h =
        Also-same fs cs cs1 [] (stat_all s (m ∷ a ∷ [])) (zip_articles s id key name (some k))
          (unfold stat_all in rw (stat_all, e, e') refl) h
          (m ∷ [], rw e' refl, (Zips-cons m fs cs z).1 e)
    by_stats unknown y cs1 e e' h =
        let raises : stat_all s (m ∷ a ∷ []) ≡ none = unfold stat_all in rw (stat_all, e) refl in
        absurd (none-some (sym raises ∙ h))
    by_stats found unknown cs1 e e' h =
        let raises : stat_all s (m ∷ a ∷ []) ≡ none =
          unfold stat_all in rw (stat_all, e, e') refl in
        absurd (none-some (sym raises ∙ h))
    by_stats absent unknown cs1 e e' h =
        let raises : stat_all s (m ∷ a ∷ []) ≡ none =
          unfold stat_all in rw (stat_all, e, e') refl in
        absurd (none-some (sym raises ∙ h))

  -- All files of a document, by its key.
  key_Zips :
      (d : Document) (o : Option Text) (fs cs cs1 : List ResultFile)
      → Zips fs cs
      → listed_key s d o ≡ some cs1
      → Also fs cs (zip_files s d o) cs1
  unfolding zip_files candidates
  key_Zips d none fs cs cs1 z h = Also-same fs cs cs1 [] (some []) _ refl h ([], refl, z)
  key_Zips d (some key) fs cs cs1 z h = by_key (articles_key s key) refl h
    where
      name : Text
      name = display_name d.id d.filename

      by_key :
          (o : Option Text)
          → articles_key s key ≡ o
          → stat_some s (both s d.id key name o) ≡ some cs1
          → Also fs cs (zip_articles s d.id key name o) cs1
      by_key none e h = absurd (none-some h)
      by_key (some k) e h =
          by_stats d.id key name k fs cs z (s.stat_object results key) (s.stat_object results k) cs1
            refl refl h

  -- All files of all documents.
  results_Zips :
      (ds : List Document) (cs : List ResultFile)
      → list_results s ds ≡ some cs
      → (fs : List ResultFile) × (results_to_zip s ds ≡ some fs) × Zips fs cs
  unfolding list_results results_to_zip
  results_Zips [] cs h =
      ([], refl, subst (Zips []) (some_inj h) ([], (unfold zip_entries in refl), refl))
  results_Zips (d ∷ ds) cs h =
      by_lists (listed_key s d o) (list_results s ds) refl refl h (λ cs2 e. results_Zips ds cs2 e)
    where
      o : Option Text
      o = object_key d.minio_object_key

      by_lists :
          (first rest : Option (List ResultFile))
          → listed_key s d o ≡ first
          → list_results s ds ≡ rest
          → and_files first rest ≡ some cs
          → ((cs2 : List ResultFile)
              → list_results s ds ≡ some cs2
              → (fs : List ResultFile) × (results_to_zip s ds ≡ some fs) × Zips fs cs2)
          → (fs : List ResultFile) × (and_files (zip_files s d o) (results_to_zip s ds) ≡ some fs)
            × Zips fs cs
      by_lists none rest e e' h ih = absurd (none-some h)
      by_lists (some cs1) none e e' h ih = absurd (none-some h)
      by_lists (some cs1) (some cs2) e e' h ih =
          let (fs, there, z) = ih cs2 e' in
          let (fs1, there1, z1) = key_Zips d o fs cs2 cs1 z e in
          (fs1 ++ fs, rw (there1, there) refl, subst (Zips (fs1 ++ fs)) (some_inj h) z1)

  zip_Agrees :
      (name : Text) (fs cs : List ResultFile)
      → Zips fs cs
      → Agrees cs (zip_reply s results name (some fs))
  zip_Agrees name [] cs (es, e, same) =
      let empty : zip_entries s results [] ≡ some [] = unfold zip_entries in refl in
      inl (refl, sym same ∙ ap names (some_inj (sym e ∙ empty)))
  zip_Agrees name (c ∷ fs) cs (es, e, same) = inr (name, es, ap (archive_reply name) e, same)

documents_inj : (cs cs' : List ResultFile) → documents cs ≡ documents cs' → cs ≡ cs'
documents_inj cs cs' h = cc

not_documents : (n : ℕ) (cs : List ResultFile) → file_error n ≢ documents cs
not_documents n cs h = cc

-- Where MinIO finds an object on reading just when it finds it on asking, the archive of a task's
-- results has the names of the files that `get_result_documents` lists, in the same order; the
-- reply is 404 only where the list is empty.
pub download_all-get_result_documents :
    (s : Storage) (session : Option User) (task_id : ℕ) (db : Database) (cs : List ResultFile)
    → IsConsistent s
    → get_result_documents s session task_id db ≡ documents cs
    → Agrees cs (download_all_result_documents s session task_id db)
unfolding get_result_documents download_all_result_documents
download_all-get_result_documents s none task_id db cs is h = absurd (not_documents 401 cs h)
download_all-get_result_documents s (some user) task_id db cs is h =
    by_task (task_row user task_id db) h
  where
    name : Text
    name = codes "task-" ++ decimal task_id ++ codes "-results.zip"

    by_list :
        (ds : List Document) (o : Option (List ResultFile))
        → list_results s ds ≡ o
        → documents_reply o ≡ documents cs
        → Agrees cs (zip_reply s results name (results_to_zip s ds))
    by_list ds none e h = absurd (not_documents 500 cs h)
    by_list ds (some xs) e h =
        let (fs, there, z) = results_Zips s is ds xs e in
        rw there (zip_Agrees s is name fs cs (subst (Zips s is fs) (documents_inj xs cs h) z))

    by_task :
        (o : Option (Task × Email))
        → for_task (λ t. documents_reply (list_results s (email_documents t.email_id db))) o
          ≡ documents cs
        → Agrees cs (
            for_task
              (λ t. zip_reply s results name (results_to_zip s (email_documents t.email_id db)))
              o)
    by_task none h = absurd (not_documents 404 cs h)
    by_task (some (t, e)) h =
        by_list (email_documents t.email_id db) (list_results s (email_documents t.email_id db))
          refl h
