-- ===== src/Processing.antt =====
-- processors/: what the processor works with. `Services` is the code that is not in the repository:
-- MinIO, the workbook libraries, the trained classifier, and the database's verdict on a
-- statement. `World` is what a handler can change: the database and the bucket of the results.
pub mod Threshold
pub mod Features
pub mod Documents
pub mod Handlers
use orders_agent.Base.{ℕ, Bool, Option, List}
use orders_agent.Base.Text.{Text}
use orders_agent.Base.Dict.{Dict}
use orders_agent.Materials.Block.{ℤ}
use orders_agent.Database.Models.{Prob, Database, Mapping}
use orders_agent.Table.Cell.{TextLib}
use orders_agent.Table.Open.{Loaders}
use Features.{TextFeatures, FileFeatures}
use orders_agent.Table.Workbook.{Sheet}

-- What is stored under a name: a workbook of requests, or one of articles.
pub data Stored : Type 0 where
  requests : List Sheet → Stored
  articles : Sheet → Stored

pub record Services : Type 0 where
  -- `client.get_object` of the attachments, with none where it raises.
  pub get_object : Option Text → Option Text
  -- Whether `client.put_object` returns.
  pub can_put : Option Text → Bool
  pub text_lib : TextLib
  pub loaders : Loaders
  -- `int(float(x))`, with none where it raises.
  pub int_float : Text → Option ℤ
  -- Whether openpyxl takes the text for a cell: `ws.cell` raises where it does not.
  pub legal : Text → Bool
  -- Whether `Workbook.save` returns.
  pub can_save : Stored → Bool
  -- The classifier's labels, indexes and probabilities for the features of a text and of its
  -- files; none is an exception.
  pub predict : TextFeatures → FileFeatures → Option (List Text × List ℕ × List Prob)
  -- The name of the articles file, by `pathlib`.
  pub articles_name : Option Text → Option Text
  -- Whether the database takes the statement of `batch_add`.
  pub accepts : List Mapping → Bool

pub record World : Type 0 where
  pub db : Database
  pub results : Dict (Option Text) Stored
