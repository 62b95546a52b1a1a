-- ===== src/Processing/Handlers/Unanswered.antt =====
-- The work on an attachment after a manual review that has not answered every part.
use orders_agent.Base.{◌≡◌, refl, true, Option, none, some, List, [], some_inj, none-some}
use orders_agent.Base.Text.{Text, text_eq}
use orders_agent.Base.Dict.{Dict, lookup}
use orders_agent.Materials.Parser.{ParseResults}
use orders_agent.Database.Models.{Answer, Task, Document, Database}
use orders_agent.Database.Mappings.{text_elem}
use orders_agent.Database.Rows.Order.{In}
use orders_agent.Table.Sheet.{TableParseResults}
use orders_agent.Processing.{Services}
use orders_agent.Processing.Documents.{
  tables, read_document, unique_materials, Known, parse_materials, manual_matches, search_materials,
  append_matches,
}
use orders_agent.Processing.Documents.Questions.{lookup-manual, append_matches-none}
use orders_agent.Processing.Handlers.Excel.{Progress, Save, match_and_save, process_document}

-- An attachment raises after a manual review where a part of any material found so far, of this
-- attachment or of an earlier one, is not among the answers, whichever workbooks are to be saved:
-- nothing is saved, and only the materials are kept.
pub process_document-unanswered :
    (svc : Services) (save : Save) (t : Task) (db : Database) (doc : Document) (p : Progress)
    (res : List TableParseResults) (known : Known) (decision : Dict Text Answer)
    (part material : Text) (r : ParseResults)
    → t.manual_decision ≡ some decision
    → read_document svc doc.minio_object_key ≡ tables res
    → parse_materials (unique_materials res []) p.known ≡ some known
    → In (material, r) known.materials
    → text_elem part r.parts ≡ true
    → lookup part decision ≡ none
    → process_document svc save t db doc p ≡ (record p { known = known }, true)
unfolding process_document
process_document-unanswered svc save t db doc p res known decision part material r given read parsed
      i there gone =
    rw (process_document, read) (rw (process_document, parsed) (by_answers t.manual_decision given))
  where
    missing : append_matches (manual_matches decision) known.materials ≡ none
    missing =
        append_matches-none (manual_matches decision) part material r known.materials
          (lookup-manual part decision gone) there i

    by_answers :
        (o : Option (Dict Text Answer))
        → o ≡ some decision
        → match_and_save save doc.minio_object_key res
            (record p { known = known })
            (search_materials o known.parts db.mappings)
          ≡ (record p { known = known }, true)
    by_answers none e = absurd (none-some e)
    by_answers (some d) e =
        unfold search_materials match_and_save in
        rw (some_inj e) (rw (match_and_save, missing) refl)
