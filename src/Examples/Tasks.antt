-- ===== src/Examples/Tasks.antt =====
-- The processor at work: services that read one attachment, and the tasks of two emails.
use Prim.Native.Nat.{◌^◌}
use orders_agent.Base.{
  inl, ℕ, ◌≡◌, refl, Bool, true, false, is_some, Option, none, some, List, [], ◌∷◌, nat_eq, arith,
}
use orders_agent.Base.Lists.{All}
use orders_agent.Base.Text.{Text, codes, text_beq, text_eq, strip}
use orders_agent.Base.Dict.{Dict, lookup, insert}
use orders_agent.Materials.Block.{add_block}
use orders_agent.Materials.Parser.{ParseResults}
use orders_agent.Database.Models.{
  new, ml_classified, downloaded, Answer, Task, Email, Document, Mapping,
}
use orders_agent.Database.Rows.{find_row, where_rows, order_by}
use orders_agent.Database.Tasks.{fetch_pending, is_pending}
use orders_agent.Database.Mappings.{find}
use orders_agent.Database.Mappings.Find.{UniqueSources}
use orders_agent.Table.Open.{xlsx}
use orders_agent.Processing.{Services, World}
use orders_agent.Processing.Threshold.{
  AllDecide, threshold_default, decide_by_thresholds, decide_by_thresholds-AllDecide,
}
use orders_agent.Processing.Documents.{
  Known, tables, read_document, unique_materials, parse_materials, search_materials, append_matches,
  unanswered,
}
use orders_agent.Processing.Documents.Questions.{lookup-questions, search_materials_complete}
use orders_agent.Processing.Handlers.{process_single_task, process_tasks, round}
use orders_agent.Processing.Handlers.Excel.{
  no_progress, save_request, save_calculation, process_document,
}
use orders_agent.Processing.Handlers.Moves.{Others, Ends, Next, has_handler}
use orders_agent.Processing.Handlers.Single.{process_single_task-Next}
use orders_agent.Processing.Handlers.Round.{process_tasks-Next, round-no_handler}
use orders_agent.Processing.Handlers.Drain.{drain, Drained, drain_terminates}
use orders_agent.Processing.Handlers.Unanswered.{process_document-unanswered}
use orders_agent.Processing.Handlers.Returns.{process_document-returns}
use orders_agent.Examples.Rows.{task}
use orders_agent.Examples.Sheets.{
  exact, order_values, order_results, order_table, truncate, printable,
}

abbrev services : Services
services = record {
  get_object = λ name. some (codes "data");
  can_put = λ name. true;
  text_lib = exact;
  loaders = record {
    suffix = λ name. some xlsx;
    load_xls = λ d. none;
    load_xlsx = λ d. some (order_values ∷ []);
  };
  int_float = truncate;
  legal = printable;
  can_save = λ b. true;
  predict = λ features files. some (codes "request" ∷ [], 2 ∷ [], 2 ^ 1074 ∷ []);
  articles_name = λ name. name;
  accepts = λ items. true;
}

abbrev email : ℕ → Option Text → Email
email id decision = record {
  id = id;
  mailbox = codes "a@b";
  email_uid = id;
  message_id = none;
  in_reply_to = none;
  references_header = none;
  email_from = none;
  reply_to = none;
  email_subject = some (codes "Заявка");
  raw_email = none;
  email_date = none;
  prob_1 = none;
  predicted_class = none;
  model_decision = decision;
  archived = false;
  is_read = false;
  created_at = 1;
}

abbrev attachment : Document
attachment = record {
  id = 1;
  email_id = 2;
  filename = some (codes "order.xlsx");
  minio_object_key = some (codes "order.xlsx");
  content_type = none;
  size_bytes = none;
  created_at = 1;
}

abbrev mapping : Text → Bool → Mapping
mapping s bl = record { source = s; target = some s; article = none; black_list = bl }

abbrev shop : World
shop = record {
  db = record {
    emails = email 1 none ∷ email 2 (some (codes "request")) ∷ [];
    documents = attachment ∷ [];
    tasks = task 1 new 10 ∷ task 2 ml_classified 20 ∷ [];
    mappings = mapping (codes "4") false ∷ mapping (codes "16") true ∷ [];
  };
  results = [];
}

process_single_task-Next_example :
    Others 2 shop.db (process_single_task services 30 (task 2 ml_classified 20) shop).db
    × Ends 2
        (Next ml_classified)
        (process_single_task services 30 (task 2 ml_classified 20) shop).db
unfolding find_row
process_single_task-Next_example =
    process_single_task-Next services 30 (task 2 ml_classified 20) shop refl

abbrev batch : List Task
batch = task 1 new 10 ∷ task 2 ml_classified 20 ∷ []

process_tasks-Next_example :
    All (λ t. Ends t.id (Next t.status) (process_tasks services 30 batch shop).db) batch
unfolding find_row
process_tasks-Next_example =
    process_tasks-Next services 30 batch shop ((λ e. omega (arith, e), tt), (tt, tt))
      (refl, (refl, tt))

drain_terminates_example :
    (w' : World) × (drain services (λ k. k) 7 shop ≡ some w') × Drained shop.db w'
unfolding is_pending has_handler
drain_terminates_example =
    drain_terminates services (λ k. k) shop ((λ e. omega (arith, e), tt), (tt, tt))
      ((λ p. refl), ((λ p. refl), tt)) ((λ answers e. refl), ((λ answers e. refl), tt))

abbrev stuck : World
stuck = record shop { db = record shop.db { tasks = task 1 downloaded 10 ∷ [] } }

round-no_handler_example : round services 30 stuck ≡ some stuck
unfolding fetch_pending has_handler is_pending where_rows order_by
round-no_handler_example = round-no_handler services 30 stuck (λ e. cc) (refl, tt)

decide_by_thresholds-AllDecide_example :
    AllDecide
      (codes "request" ∷ codes "question" ∷ [])
      (2 ∷ 1 ∷ [])
      (2 ^ 1074 ∷ 2 ^ 1073 ∷ [])
      threshold_default
      (decide_by_thresholds
        (codes "request" ∷ codes "question" ∷ [])
        (2 ∷ 1 ∷ [])
        (2 ^ 1074 ∷ 2 ^ 1073 ∷ [])
        threshold_default)
decide_by_thresholds-AllDecide_example =
    decide_by_thresholds-AllDecide (codes "request" ∷ codes "question" ∷ []) (2 ∷ 1 ∷ [])
      (2 ^ 1074 ∷ 2 ^ 1073 ∷ []) threshold_default refl refl

shop-UniqueSources : UniqueSources shop.db.mappings
unfolding find_row text_beq
shop-UniqueSources = (refl, (refl, tt))

lookup-questions_example :
    lookup (codes "16") (search_materials none (codes "4" ∷ codes "16" ∷ []) shop.db.mappings).1
    ≡ some (unanswered true)
unfolding find find_row text_beq
lookup-questions_example =
    lookup-questions (codes "16") (codes "4" ∷ codes "16" ∷ []) shop.db.mappings shop-UniqueSources

abbrev four : ParseResults
four = record {
  material = some (codes "4-4");
  prefix = none;
  postfix = none;
  parts = codes "4" ∷ codes "4" ∷ [];
  parts_count = 2;
  matches = [];
}

abbrev known_four : Dict Text ParseResults
known_four = (codes "4-4", four) ∷ []

search_materials_complete_example :
    is_some (append_matches (search_materials none (codes "4" ∷ []) shop.db.mappings).0 known_four)
    ≡ true
unfolding text_beq search_materials lookup where_rows insert
search_materials_complete_example =
    search_materials_complete (codes "4" ∷ []) shop.db.mappings known_four shop-UniqueSources
      ((refl, (refl, tt)), tt) refl

-- The user has answered for "16", and "4" was known.
abbrev answers : Dict Text Answer
answers = (codes "16", unanswered false) ∷ []

order_read : read_document services (some (codes "order.xlsx")) ≡ tables (order_results.0 ∷ [])
unfolding read_document order_results order_table strip lookup insert text_beq
order_read = refl

order_known :
    (k : Known) × (parse_materials
        (unique_materials (order_results.0 ∷ []) [])
        (record { materials = []; parts = [] })
      ≡ some k)
unfolding parse_materials unique_materials order_results lookup insert add_block text_beq
order_known = (_, refl)

process_document-returns_example :
    ((process_document services
        (save_request services)
        (task 2 ml_classified 20)
        shop.db
        attachment
        (no_progress [])).1
      ≡ false)
    × ((process_document services
          (save_calculation services)
          (task 2 ml_classified 20)
          shop.db
          attachment
          (no_progress [])).1
        ≡ false)
process_document-returns_example =
    process_document-returns services (task 2 ml_classified 20) shop.db attachment (no_progress [])
      (order_results.0 ∷ []) order_known.0 refl shop-UniqueSources tt order_read order_known.1
      (record { request = λ elements sheets made. refl; calculation = λ elements sheet made. refl })

-- The task of the order, after a review that has answered for "16" only.
abbrev reviewed_task : Task
reviewed_task = record (task 2 ml_classified 20) { manual_decision = some answers }

process_document-unanswered_example :
    process_document services
      (save_request services)
      reviewed_task
      shop.db
      attachment
      (no_progress [])
    ≡ (record (no_progress []) { known = order_known.0 }, true)
unfolding order_known lookup text_beq
process_document-unanswered_example =
    process_document-unanswered services (save_request services) reviewed_task shop.db attachment
      (no_progress []) (order_results.0 ∷ []) order_known.0 answers (codes "4") (codes "4-16-4") _
      refl order_read order_known.1 (inl refl) refl refl
