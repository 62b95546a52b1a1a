-- ===== src/Lib.antt =====
-- OrdersAgent: orders arrive as emails with attached tables; a processor classifies each email,
-- reads the tables, looks the parts of the materials up and writes workbooks with the results,
-- and asks a user where a part is unknown.
--
-- The parts, and how they interact. A row of `tasks` stands for the work on an email.
-- processors/main.py polls `TaskRepository.fetch_pending` and runs, by the status of a task, one
-- handler: `process_new` classifies the email, `process_classified_excel` reads its attachments
-- (`TableWorker`), takes the material names apart (`ParserV2`), finds the matches of the parts
-- (`MappingRepository`) and saves the workbooks, and `process_manual_matching` stores the answers
-- of a user, which the web client has sent: the routes of frontend/mail-client/app/routers/queue.py
-- set the status from which the processor goes on. All that a handler leaves behind is the status
-- and fields of the task, the result of the classification in the email, the mappings, and the
-- objects in the bucket of results.
--
--   Base/       texts as lists of code points with strip, split and search by regular expressions,
--               dicts as lists of pairs, and lists measured by native numbers.
--   Database/   processors/database. The rows are records (Models), a table is the list of its
--               rows (Rows); the methods of `TaskRepository` are in Tasks, those of
--               `MappingRepository` in Mappings, those of `EmailRepository` and
--               `DocumentRepository` in Emails, those of `UserRepository` in Users. A method
--               takes the database and returns it changed; the time and new ids are arguments.
--   Materials/  processors/materials/parser.py: `Block` and `BlockLevels` (Block),
--               `_symbols_tree` (Tree), `ParserV2` (Parser). Exceptions are the errors of
--               `Result`.
--   Table/      processors/table: `Cell` (Cell), `Table` with its indexes (Index), `TableWorker`
--               (Open, Sheet), the workbooks (Workbook), HEADERS_CALLCULATION (Config).
--   Processing/ processors/main.py: the work on one attachment (Documents), the handlers of
--               excel files (Handlers/Excel), all handlers with `process_single_task` and the
--               batch and inner loop of `main_loop` (Handlers, Handlers/Drain);
--               processors/classify/features.py (Features) and `decide_by_thresholds` of model.py
--               (Threshold). `World` is the state, `Services` the code outside the repository.
--   Web/        frontend/mail-client/app: the routes of routers/queue.py that change the database
--               (decisions in Web itself, Archive, Answers); the list of emails, of
--               services/queue.py and `get_queue` (Listing); the routes for files (Files); the reply
--               to an email (Replies); sessions, sign-in and services/users.py (Web, Users).
--   Examples/   the theorems at concrete inputs.
--
-- Numbers. Ids, times, rows and columns are natural numbers; a probability and a ratio, which are
-- doubles, count units of 2^-1074, of which every finite double is a multiple. The inner loop of
-- `main_loop` takes fuel, one unit for a round. A task counts the handlers that it can still meet,
-- three at most (Handlers/Weight), and each round lowers the count of every task that it takes, so
-- three rounds for each task, and one, are enough. The digits of a number take fuel too: the number
-- and one. All other recursion is on lists.
--
-- Parameters. MinIO (`get_object`, `can_put`, and for the web `stat_object` and `load_object`), xlrd
-- and openpyxl as far as they load a file (`Loaders`), the texts that openpyxl takes for a cell
-- (`legal`), whether `Workbook.save` returns (`can_save`), rapidfuzz and Unicode tables (`TextLib`),
-- `int(float(x))`, the trained classifier, pathlib, whether PostgreSQL takes the statement of
-- `batch_add`, `json.loads` and what asyncpg gives for a `jsonb` column, the replies of Yandex, and
-- those of the mail service. Where a theorem asks something of them, it says so among its
-- conditions; else it holds for all of them.
--
-- Left out: the training of the classifier, processors/utils, the MinIO and SQLAlchemy set-up, merged
-- cells and row heights of the workbooks, the set-up, templates and static files of
-- frontend/mail-client, the start of a sign-in (`auth_yandex`, a redirect), shared, and the mail
-- service in Go. The outer endless loop of `main_loop` is not modelled, nor is its sleeping. Writes
-- of other processes between two calls of a handler are not modelled, nor are failing database
-- connections and the lengths of VARCHAR columns. A set of texts is taken in the order in which its
-- members came; SQL and Python leave that order open. A method of a repository runs with no other
-- session between its reads and its writes, but for two calls of `assign` that both read first
-- (`assign_both`).
pub mod Base
pub mod Database
pub mod Materials
pub mod Table
pub mod Processing
pub mod Web
pub mod Examples
