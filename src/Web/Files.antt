-- ===== src/Web/Files.antt =====
-- frontend/mail-client/app/routers/queue.py: what the routes for files share. `Storage` is what they
-- use of MinIO and `pathlib`. A stream is its name and bytes, an archive its name and entries.
pub mod Results
pub mod Downloads
pub mod Served
pub mod Entries
pub mod Sent
pub mod Archives
use Prim.Native.Nat.{◌/◌, ◌%◌}
use orders_agent.Base.{
  ℕ, zero, suc, ◌+◌, Bool, true, false, Option, none, some, List, [], ◌∷◌, ◌++◌, ltb, if◌then◌else◌,
}
use orders_agent.Base.Text.{Text, codes, text_beq}
use orders_agent.Database.Models.{Task, Email, Document, Database}
use orders_agent.Database.Emails.{get_email, get_document}
use orders_agent.Web.{User, can_see, task_row}
use orders_agent.Web.Archive.{seen}
use orders_agent.Web.Listing.Items.{email_documents}

pub data Bucket : Type 0 where
  source_attachments results : Bucket

-- `stat_object`: the object is there; the error names `NoSuchKey` or `NoSuchObject`; or another.
pub data Stat : Type 0 where
  found absent unknown : Stat

-- `get_object` and `read`, in the same way.
pub data Load : Type 0 where
  loaded : Text → Load
  no_object : Load
  failed : Load

pub record Storage : Type 0 where
  pub stat_object : Bucket → Text → Stat
  pub load_object : Bucket → Text → Load
  -- `Path(x).stem` and `Path(x).suffix`.
  pub stem : Text → Text
  pub suffix : Text → Text
  -- `str(Path(x).with_name(name))`, with none where it raises.
  pub with_name : Text → Text → Option Text

-- The digits of `str(n)`; `fuel` is at least their number.
decimal_from : ℕ → ℕ → Text
decimal_from zero n = []
decimal_from (suc fuel) n =
    let higher = decimal_from fuel (n / 10) in
    let digit = 48 + n % 10 in if ltb n 10 then digit ∷ [] else higher ++ digit ∷ []

unfoldable pub decimal : ℕ → Text
unfolding decimal_from
decimal n = decimal_from (suc n) n

-- `filename or f"document-{id}"`
unfoldable pub display_name : ℕ → Option Text → Text
unfolding decimal
display_name id none = codes "document-" ++ decimal id
display_name id (some []) = codes "document-" ++ decimal id
display_name id (some (c ∷ s)) = c ∷ s

-- A text that is there and not empty.
abbrev pub object_key : Option Text → Option Text
object_key none = none
object_key (some []) = none
object_key (some (c ∷ s)) = some (c ∷ s)

pub data Variant : Type 0 where
  main articles : Variant

pub record ResultFile : Type 0 where
  pub document : ℕ
  pub variant : Variant
  pub key : Text
  pub filename : Text

abbrev pub articles_part : Text
articles_part = codes "_(articles)"

-- `Path(name).stem + "_(articles)" + Path(name).suffix`
unfoldable pub with_articles : Storage → Text → Text
with_articles s name = s.stem name ++ articles_part ++ s.suffix name

unfoldable pub articles_key : Storage → Text → Option Text
unfolding with_articles
articles_key s key = s.with_name key (with_articles s key)

abbrev pub main_file : ℕ → Text → Text → ResultFile
main_file id key name = record { document = id; variant = main; key = key; filename = name }

abbrev pub articles_file : Storage → ℕ → Text → Text → ResultFile
articles_file s id key name = record {
  document = id;
  variant = articles;
  key = key;
  filename = with_articles s name;
}

abbrev pub files_of : Option (List ResultFile) → List ResultFile → Option (List ResultFile)
files_of none cs = none
files_of (some rest) cs = some (cs ++ rest)

pub data FileReply : Type 0 where
  documents : List ResultFile → FileReply
  stream : Text → Text → FileReply
  archive : Text → List (Text × Text) → FileReply
  file_error : ℕ → FileReply

abbrev pub for_task : (Task → FileReply) → Option (Task × Email) → FileReply
for_task f none = file_error 404
for_task f (some (t, e)) = f t

abbrev pub and_files :
    Option (List ResultFile) → Option (List ResultFile) → Option (List ResultFile)
and_files none rest = none
and_files (some cs) rest = files_of rest cs
