-- ===== src/Web/Files/Entries.antt =====
-- The files that the archives are made of.
use mathlib.Core.Path.{subst}
use orders_agent.Base.{
  ℕ, ◌≡◌, refl, Option, none, some, List, [], ◌∷◌, some_inj, none-some, inl, inr, ==_iff, leb, ◌==◌,
}
use orders_agent.Base.Lists.{All, All-append}
use orders_agent.Base.Text.{Text}
use orders_agent.Database.Models.{Document, Database}
use orders_agent.Database.Rows.{where_rows}
use orders_agent.Database.Rows.Order.{In, where_rows-In}
use orders_agent.Database.Rows.Total.{All-of, order_by-In_any}
use orders_agent.Web.Listing.Items.{email_documents}
use orders_agent.Web.Files.{
  Bucket, results, Stat, found, absent, unknown, Load, loaded, no_object, failed, Storage,
  display_name, object_key, ResultFile, articles_key, main_file, articles_file, and_files,
}
use orders_agent.Web.Files.Downloads.{
  articles_found, zip_articles, zip_files, results_to_zip, add_entry, zip_entries,
}
use orders_agent.Web.Files.Downloads.{source_file, sources_to_zip}
use orders_agent.Web.Files.Served.{KeyOf, BytesOf}

-- A file of a document of the email.
abbrev pub OfEmail : Storage → Database → ℕ → (Document → Type 0) → Type 0
OfEmail s db m P = (d : Document) × In d db.documents × (d.email_id ≡ m) × P d

abbrev pub EntryOf : Storage → Bucket → Database → ℕ → Text × Text → Type 0
EntryOf s b db m e = OfEmail s db m (λ d. BytesOf s b d e.1)

module _ (s : Storage) (db : Database) (m : ℕ) where
  abbrev pub FileOf : ResultFile → Type 0
  FileOf c = OfEmail s db m (λ d. KeyOf s d c.key)

  abbrev pub Mine : Document → Type 0
  Mine d = In d db.documents × (d.email_id ≡ m)

  pub documents_Mine : All Mine (email_documents m db)
  documents_Mine = All-of Mine (email_documents m db) (λ d i.
      let (h, j) =
        where_rows-In (λ x. x.email_id == m) d db.documents
          (order_by-In_any (λ x y. leb x.id y.id) d (where_rows (λ x. x.email_id == m) db.documents)
            i) in
      (j, (==_iff d.email_id m).0 h))

  zip_files-FileOf :
      (d : Document) (o : Option Text) (cs : List ResultFile)
      → Mine d
      → object_key d.minio_object_key ≡ o
      → zip_files s d o ≡ some cs
      → All FileOf cs
  unfolding zip_files
  zip_files-FileOf d none cs mine at h = subst (All FileOf) (some_inj h) tt
  zip_files-FileOf d (some key) cs mine at h = by_key (articles_key s key) refl h
    where
      shown : Text
      shown = display_name d.id d.filename

      first : FileOf (main_file d.id key shown)
      first = (d, mine.0, mine.1, (key, at, inl refl))

      by_stat :
          (k : Text) (x : Stat)
          → articles_key s key ≡ some k
          → and_files
              (some (main_file d.id key shown ∷ []))
              (articles_found s (articles_file s d.id k shown) x)
            ≡ some cs
          → All FileOf cs
      by_stat k found e h =
          subst (All FileOf) (some_inj h) (first, ((d, mine.0, mine.1, (key, at, inr e)), tt))
      by_stat k absent e h = subst (All FileOf) (some_inj h) (first, tt)
      by_stat k unknown e h = absurd (none-some h)

      by_key :
          (o : Option Text)
          → articles_key s key ≡ o
          → zip_articles s d.id key shown o ≡ some cs
          → All FileOf cs
      by_key none e h = absurd (none-some h)
      by_key (some k) e h = by_stat k (s.stat_object results k) e h

  pub results_to_zip-FileOf :
      (ds : List Document) (cs : List ResultFile)
      → All Mine ds
      → results_to_zip s ds ≡ some cs
      → All FileOf cs
  unfolding results_to_zip
  results_to_zip-FileOf [] cs mine h = subst (All FileOf) (some_inj h) tt
  results_to_zip-FileOf (d ∷ ds) cs mine h =
      by_lists (zip_files s d (object_key d.minio_object_key)) (results_to_zip s ds) h
        (λ xs e. zip_files-FileOf d (object_key d.minio_object_key) xs mine.0 refl e) refl
        (λ xs e. results_to_zip-FileOf ds xs mine.1 e) refl
    where
      by_lists :
          (p q : Option (List ResultFile))
          → and_files p q ≡ some cs
          → ((xs : List ResultFile)
              → zip_files s d (object_key d.minio_object_key) ≡ some xs
              → All FileOf xs)
          → zip_files s d (object_key d.minio_object_key) ≡ p
          → ((xs : List ResultFile) → results_to_zip s ds ≡ some xs → All FileOf xs)
          → results_to_zip s ds ≡ q
          → All FileOf cs
      by_lists none q h f e g e' = absurd (none-some h)
      by_lists (some xs) none h f e g e' = absurd (none-some h)
      by_lists (some xs) (some ys) h f e g e' =
          subst (All FileOf) (some_inj h) (All-append FileOf xs ys (f xs e) (g ys e'))

  pub sources_to_zip-FileOf : (ds : List Document) → All Mine ds → All FileOf (sources_to_zip ds)
  unfolding sources_to_zip
  sources_to_zip-FileOf [] mine = tt
  sources_to_zip-FileOf (d ∷ ds) mine =
      by_key (object_key d.minio_object_key) refl (sources_to_zip-FileOf ds mine.1)
    where
      by_key :
          (o : Option Text)
          → object_key d.minio_object_key ≡ o
          → All FileOf (sources_to_zip ds)
          → All FileOf (source_file d o (sources_to_zip ds))
      by_key none at rest = rest
      by_key (some key) at rest =
          let (i, same) = mine.0 in ((d, i, same, (key, at, inl refl)), rest)

  module _ (b : Bucket) where
    pub zip_entries-EntryOf :
        (cs : List ResultFile) (es : List (Text × Text))
        → All FileOf cs
        → zip_entries s b cs ≡ some es
        → All (EntryOf s b db m) es
    unfolding zip_entries
    zip_entries-EntryOf [] es f h = subst (All (EntryOf s b db m)) (some_inj h) tt
    zip_entries-EntryOf (c ∷ cs) es f h =
        by_load (s.load_object b c.key) refl h (λ xs e. zip_entries-EntryOf cs xs f.1 e)
      where
        by_rest :
            (bytes : Text) (o : Option (List (Text × Text)))
            → s.load_object b c.key ≡ loaded bytes
            → zip_entries s b cs ≡ o
            → add_entry (c.filename, bytes) o ≡ some es
            → ((xs : List (Text × Text)) → zip_entries s b cs ≡ some xs → All (EntryOf s b db m) xs)
            → All (EntryOf s b db m) es
        by_rest bytes none e e' h ih = absurd (none-some h)
        by_rest bytes (some xs) e e' h ih =
            let (d, i, mine, key) = f.0 in
            subst (All (EntryOf s b db m)) (some_inj h) ((d, i, mine, (c.key, key, e)), ih xs e')

        by_load :
            (l : Load)
            → s.load_object b c.key ≡ l
            → (elim l [
              | loaded bytes ↦ add_entry (c.filename, bytes) (zip_entries s b cs)
              | no_object ↦ zip_entries s b cs
              | failed ↦ none
            ])
              ≡ some es
            → ((xs : List (Text × Text)) → zip_entries s b cs ≡ some xs → All (EntryOf s b db m) xs)
            → All (EntryOf s b db m) es
        by_load (loaded bytes) e h ih = by_rest bytes (zip_entries s b cs) e refl h ih
        by_load no_object e h ih = ih es h
        by_load failed e h ih = absurd (none-some h)
