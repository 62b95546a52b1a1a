-- ===== src/Web/Files/Served.antt =====
-- Which files the routes send, and to whom.
use mathlib.Core.Path.{subst}
use orders_agent.Base.{
  ℕ, ◌≡◌, ◌≢◌, refl, Bool, true, false, Option, none, some, some_inj, none-some, inl, inr, ◌⊎◌,
  if◌then◌else◌,
}
use orders_agent.Base.Text.{Text, codes, text_beq}
use orders_agent.Database.Models.{Email, Document, Database}
use orders_agent.Database.Emails.{get_email, get_document}
use orders_agent.Web.{User, can_see}
use orders_agent.Web.Files.{
  Bucket, Load, loaded, no_object, failed, Storage, display_name, object_key, with_articles,
  articles_key, stream, file_error,
}
use orders_agent.Web.Files.Downloads.{
  document_seen, document_in, document_row, articles_of, variant_file, stream_reply, variant_reply,
  key_reply, for_document, download_document_by_id,
}

-- The keys of a document's objects: its own, and that of its articles.
abbrev pub KeyOf : Storage → Document → Text → Type 0
KeyOf s d k =
    (key : Text) × (object_key d.minio_object_key ≡ some key)
    × ((k ≡ key) ⊎ (articles_key s key ≡ some k))

-- The bytes are those of an object of the document.
abbrev pub BytesOf : Storage → Bucket → Document → Text → Type 0
BytesOf s b d bytes = (k : Text) × KeyOf s d k × (s.load_object b k ≡ loaded bytes)

module _ (s : Storage) (b : Bucket) (name bytes : Text) where
  not_error : (n : ℕ) → file_error n ≢ stream name bytes
  not_error n h = cc

  stream_loaded :
      (name' : Text) (l : Load) → stream_reply name' l ≡ stream name bytes → l ≡ loaded bytes
  stream_loaded name' (loaded x) h = cc
  stream_loaded name' no_object h = absurd (not_error 404 h)
  stream_loaded name' failed h = absurd (not_error 500 h)

  key_BytesOf :
      (variant : Text) (d : Document) (o : Option Text)
      → object_key d.minio_object_key ≡ o
      → key_reply s b variant d o ≡ stream name bytes
      → BytesOf s b d bytes
  key_BytesOf variant d none at h = absurd (not_error 404 h)
  key_BytesOf variant d (some key) at h =
      by_main (text_beq variant (codes "main")) (text_beq variant (codes "articles"))
        (unfold variant_file in h)
    where
      shown : Text
      shown = display_name d.id d.filename

      by_articles :
          (o : Option Text)
          → articles_key s key ≡ o
          → variant_reply s b (articles_of s shown o) ≡ stream name bytes
          → BytesOf s b d bytes
      by_articles none e h = absurd (not_error 500 h)
      by_articles (some k) e h =
          (k, (key, at, inr e), stream_loaded (with_articles s shown) (s.load_object b k) h)

      by_main :
          (m a : Bool)
          → variant_reply s b (
              if m
              then some (some (key, shown))
              else if a
              then articles_of s shown (articles_key s key)
              else none)
            ≡ stream name bytes
          → BytesOf s b d bytes
      by_main true a h = (key, (key, at, inl refl), stream_loaded shown (s.load_object b key) h)
      by_main false true h = by_articles (articles_key s key) refl h
      by_main false false h = absurd (not_error 400 h)

-- The user sees the mailbox of the document's email.
abbrev pub SeesDocument : User → ℕ → Database → Document → Type 0
SeesDocument user n db d =
    (get_document n db ≡ some d)
    × ((e : Email) × (get_email d.email_id db ≡ some e) × (can_see user e ≡ true))

document_row-SeesDocument :
    (user : User) (n : ℕ) (db : Database) (d : Document)
    → document_row user n db ≡ some d
    → SeesDocument user n db d
unfolding document_row
document_row-SeesDocument user n db d h = by_document (get_document n db) refl h
  where
    by_sight :
        (x : Document) (e : Email) (c : Bool)
        → get_document n db ≡ some x
        → get_email x.email_id db ≡ some e
        → can_see user e ≡ c
        → ◌≡◌ {A = Option Document} (if c then some x else none) (some d)
        → SeesDocument user n db d
    by_sight x e true at there sees h =
        subst (SeesDocument user n db) (some_inj h) (at, (e, there, sees))
    by_sight x e false at there hidden h = absurd (none-some h)

    by_email :
        (x : Document) (o : Option Email)
        → get_document n db ≡ some x
        → get_email x.email_id db ≡ o
        → document_seen user x o ≡ some d
        → SeesDocument user n db d
    by_email x none at there h = absurd (none-some h)
    by_email x (some e) at there h = by_sight x e (can_see user e) at there refl h

    by_document :
        (o : Option Document)
        → get_document n db ≡ o
        → document_in user db o ≡ some d
        → SeesDocument user n db d
    by_document none at h = absurd (none-some h)
    by_document (some x) at h = by_email x (get_email x.email_id db) at refl h

-- A file is sent only to a user with a session who sees the mailbox of its email, and what is sent
-- is what MinIO has under the key of the document or of its articles, whatever the `variant`.
pub download_document_by_id_served :
    (s : Storage) (b : Bucket) (variant : Text) (session : Option User) (n : ℕ) (db : Database)
    (name bytes : Text)
    → download_document_by_id s b variant session n db ≡ stream name bytes
    → (user : User) × (d : Document) × (session ≡ some user)
      × SeesDocument user n db d
      × BytesOf s b d bytes
unfolding download_document_by_id
download_document_by_id_served s b variant none n db name bytes h =
    absurd (not_error s b name bytes 401 h)
download_document_by_id_served s b variant (some user) n db name bytes h =
    by_row (document_row user n db) refl h
  where
    by_row :
        (o : Option Document)
        → document_row user n db ≡ o
        → for_document (λ d. key_reply s b variant d (object_key d.minio_object_key)) o
          ≡ stream name bytes
        → (u : User) × (d : Document) × (some user ≡ some u)
          × SeesDocument u n db d
          × BytesOf s b d bytes
    by_row none e h = absurd (not_error s b name bytes 404 h)
    by_row (some d) e h = (
      user,
      d,
      refl,
      document_row-SeesDocument user n db d e,
      key_BytesOf s b name bytes variant d (object_key d.minio_object_key) refl h,
    )
