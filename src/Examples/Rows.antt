-- ===== src/Examples/Rows.antt =====
-- A database of two tasks and two mappings.
use orders_agent.Base.{ℕ, ◌≤◌, ◌≡◌, refl, ◌⊎◌, inl, true, false, none, some, List, [], ◌∷◌}
use orders_agent.Base.Lists.{length, All}
use orders_agent.Base.Text.{codes, text_beq, text_eq}
use orders_agent.Base.Dict.{lookup}
use orders_agent.Database.Models.{TaskStatus, new, completed, Task, Mapping, Database}
use orders_agent.Database.Rows.{find_row}
use orders_agent.Database.Rows.Order.{In, IsSorted}
use orders_agent.Database.Tasks.{get_task, fetch_pending, is_pending, assign, assign_both}
use orders_agent.Database.Tasks.Queue.{fetch_pending_sound, fetch_pending_complete}
use orders_agent.Database.Tasks.Updates.{assign_twice}
use orders_agent.Database.Mappings.{find, batch_find, upsert_all}
use orders_agent.Database.Mappings.Find.{UniqueSources, lookup-batch_find, find-upsert_all}
use orders_agent.Database.Mappings.Store.{
  Command, add_one, change, remove, view, call_all, promised_all,
}
use orders_agent.Database.Mappings.Promise.{Refines, call_all-promised_all}

abbrev pub task : ℕ → TaskStatus → ℕ → Task
task id status created = record {
  id = id;
  email_id = id;
  document_id = none;
  status = status;
  output_data = some [];
  manual_decision = none;
  assigned_to = none;
  error_message = none;
  retry_count = some 0;
  created_at = created;
  updated_at = created;
  completed_at = none;
}

abbrev glass : Mapping
glass = record {
  source = codes "4";
  target = some (codes "М1");
  article = none;
  black_list = false;
}

abbrev frame : Mapping
frame = record {
  source = codes "16";
  target = none;
  article = some (codes "A-16");
  black_list = true;
}

abbrev office : Database
office = record {
  emails = [];
  documents = [];
  tasks = task 2 new 20 ∷ task 1 new 10 ∷ task 3 completed 5 ∷ [];
  mappings = glass ∷ frame ∷ [];
}

office-UniqueSources : UniqueSources office.mappings
unfolding find_row text_beq
office-UniqueSources = (refl, (refl, tt))

lookup-batch_find_example :
    lookup (codes "16") (batch_find (codes "16" ∷ codes "8" ∷ []) office.mappings)
    ≡ some (some (none, some (codes "A-16"), true))
unfolding find find_row text_beq
lookup-batch_find_example =
    lookup-batch_find (codes "16") (codes "16" ∷ codes "8" ∷ []) office.mappings
      office-UniqueSources

-- The new answer has a target and no article; the old article stays.
abbrev answer_16 : Mapping
answer_16 = record {
  source = codes "16";
  target = some (codes "Рамка");
  article = none;
  black_list = false;
}

find-upsert_all_example :
    find (codes "16") (upsert_all (answer_16 ∷ []) office.mappings)
    ≡ some (some (codes "Рамка"), some (codes "A-16"), false)
unfolding find find_row text_beq
find-upsert_all_example = find-upsert_all (codes "16") (answer_16 ∷ []) office.mappings (refl, tt)

fetch_pending_sound_example :
    (length (fetch_pending 1 office) ≤ 1)
    × IsSorted (λ t. t.created_at) (fetch_pending 1 office)
    × ((t : Task)
        → In t (fetch_pending 1 office)
        → (is_pending t.status ≡ true) × In t office.tasks)
fetch_pending_sound_example = fetch_pending_sound 1 office

fetch_pending_complete_example :
    In (task 2 new 20) (fetch_pending 1 office)
    ⊎ ((length (fetch_pending 1 office) ≡ 1)
        × All (λ x. x.created_at ≤ 20) (fetch_pending 1 office))
unfolding is_pending
fetch_pending_complete_example = fetch_pending_complete 1 office (task 2 new 20) refl (inl refl)

assign_twice_example :
    let (db', done) = assign 30 1 7 office in
    let (both, first, second) = assign_both 30 1 7 31 8 office in
    (done ≡ true)
    × (get_task 1 db' ≡ some (record (task 1 new 10) { assigned_to = some 7; updated_at = 30 }))
    × (assign 31 1 8 db' ≡ (db', false))
    × (first ≡ true)
    × (second ≡ true)
    × (get_task 1 both ≡ some (record (task 1 new 10) { assigned_to = some 8; updated_at = 31 }))
unfolding find_row
assign_twice_example = assign_twice 30 1 7 31 8 (task 1 new 10) office refl refl

-- A row is added, changed and removed.
abbrev calls : List Command
calls =
    add_one answer_16 ∷ change (codes "4") none (some (codes "A-4")) none ∷ remove (codes "16") ∷ []

call_all-promised_all_example :
    Refines
      (call_all (λ items. true) calls office.mappings)
      (promised_all (λ items. true) calls (view office.mappings))
call_all-promised_all_example =
    call_all-promised_all (λ items. true) calls office.mappings office-UniqueSources
