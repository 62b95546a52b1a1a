-- ===== src/Processing/Handlers/Serviceable.antt =====
-- processors/main.py: what the tasks need for the inner loop of `main_loop` to end, and that it keeps it.
use mathlib.Core.Path.{subst}
use orders_agent.Base.{
  ℕ, ◌+◌, ◌≤◌, ◌≡◌, refl, sym, ap, ◌∙◌, Bool, true, some, List, [], ◌∷◌, arith, inl, inr,
  Bool-cases, map, ◌==◌, ==_iff, some_inj,
}
use orders_agent.Base.Text.{Text}
use orders_agent.Base.Dict.{Dict}
use orders_agent.Base.Lists.{All, length}
use orders_agent.Database.Models.{TaskStatus, Answer, Task, Database}
use orders_agent.Database.Rows.Order.{In}
use orders_agent.Database.Rows.Total.{All-In, All-of}
use orders_agent.Database.Tasks.{get_task, is_pending}
use orders_agent.Database.Tasks.Ids.{
  Distinct, Current, ids, In-Current, Current-In, Different, ids-Different, Different-Distinct,
}
use orders_agent.Processing.{Services, World}
use orders_agent.Processing.Handlers.{answer_row, process_single_task, process_tasks}
use orders_agent.Processing.Handlers.Moves.{has_handler, Moves}
use orders_agent.Processing.Handlers.Single.{process_single_task-Moves}
use orders_agent.Processing.Handlers.Steps.{
  Goes, Refuses, reviewed, classified, new_failed, unclassified, asked, parts_unknown, done,
  excel_failed, answered, not_stored, not_classified, matching_failed, no_handler,
}
use orders_agent.Processing.Handlers.Round.{Current-kept}
use orders_agent.Processing.Handlers.Weight.{left, process_single_task-left}

-- A task that the loop fetches has a handler.
abbrev pub Handled : Task → Type 0
Handled t = is_pending t.status ≡ true → has_handler t.status ≡ true

-- The database takes the rows of the answers to the task, where there are answers.
abbrev pub Taken : Services → Task → Type 0
Taken svc t =
    (answers : Dict Text Answer)
    → t.manual_decision ≡ some answers
    → svc.accepts (map answer_row answers) ≡ true

abbrev pub Serviceable : Services → Task → Type 0
Serviceable svc t = Handled t × Taken svc t

Taken-Refuses : (svc : Services) (t : Task) → Taken svc t → ¬ Refuses svc t
unfolding Refuses
Taken-Refuses svc t taken (answers, given, refused) = let e = taken answers given in cc

Taken-same :
    (svc : Services) (t t' : Task)
    → t'.manual_decision ≡ t.manual_decision
    → Taken svc t
    → Taken svc t'
Taken-same svc t t' same taken answers given = taken answers (sym same ∙ given)

Goes-Handled :
    {Refused : Type 0} {s s' : TaskStatus} {b b' : Bool}
    → has_handler s ≡ true
    → Goes Refused s b s' b'
    → is_pending s' ≡ true
    → has_handler s' ≡ true
unfolding is_pending has_handler
Goes-Handled h reviewed p = cc
Goes-Handled h classified p = refl
Goes-Handled h new_failed p = cc
Goes-Handled h unclassified p = refl
Goes-Handled h asked p = cc
Goes-Handled h parts_unknown p = cc
Goes-Handled h done p = cc
Goes-Handled h excel_failed p = cc
Goes-Handled h answered p = refl
Goes-Handled h (not_stored refused) p = refl
Goes-Handled h not_classified p = refl
Goes-Handled h matching_failed p = cc
Goes-Handled h (no_handler none_) p = cc

-- What the loop keeps: the ids, and that every pending task has a handler, with answers that the
-- database takes.
pub record Keeps (svc : Services) (db db' : Database) : Type 0 where
  pub same_ids : ids db'.tasks ≡ ids db.tasks
  pub handled : All (Serviceable svc) db'.tasks

pub Distinct-after :
    (db db' : Database) → ids db'.tasks ≡ ids db.tasks → Distinct db.tasks → Distinct db'.tasks
Distinct-after db db' same d =
    Different-Distinct db'.tasks (subst Different (sym same) (ids-Different db.tasks d))

module _ (svc : Services) (now : ℕ) where
  single-Keeps :
      (t : Task) (w : World)
      → Distinct w.db.tasks
      → Current w.db t
      → has_handler t.status ≡ true
      → Taken svc t
      → All (Serviceable svc) w.db.tasks
      → Keeps svc w.db (process_single_task svc now t w).db
  unfolding Moves
  single-Keeps t w d current h taken handled =
      let m = process_single_task-Moves svc now t w current in
      let db' : Database = (process_single_task svc now t w).db in
      let (t', there, same, goes) = m.4 (t, current, refl) in
      let answers : t'.manual_decision ≡ t.manual_decision =
        some_inj (rw (there, current) at m.3) in
      let d' = Distinct-after w.db db' m.1 d in
      record {
        same_ids = m.1;
        handled = All-of (Serviceable svc) db'.tasks (λ u i. elim (Bool-cases (t.id == u.id)) [
          | inl e ↦
              subst (Serviceable svc)
                (some_inj (
                  sym there
                  ∙ ap (λ n. get_task n db') ((==_iff t.id u.id).0 e)
                  ∙ In-Current db' u d' i))
                (Goes-Handled h goes, Taken-same svc t t' answers taken)
          | inr e ↦ All-In (Serviceable svc) u w.db.tasks handled (
              Current-In w.db u.id u
                (sym (m.0 u.id (λ x. ground (arith, e, x))) ∙ In-Current db' u d' i))
        ]);
      }

  -- Each task of a batch lowers what is left, and the loop can go on.
  pub tasks-left :
      (ns : List ℕ) (ts : List Task) (w : World)
      → Different ns
      → Distinct w.db.tasks
      → All (Serviceable svc) w.db.tasks
      → Distinct ts
      → All (Current w.db) ts
      → All (λ t. In t.id ns × (has_handler t.status ≡ true) × Taken svc t) ts
      → (left ns (process_tasks svc now ts w).db + length ts ≤ left ns w.db)
        × Keeps svc w.db (process_tasks svc now ts w).db
  unfolding process_tasks Moves
  tasks-left ns [] w different d handled dt c h =
      (omega arith, record { same_ids = refl; handled = handled })
  tasks-left ns (t ∷ ts) w different d handled dt c h =
      let m = process_single_task-Moves svc now t w c.0 in
      let w' = process_single_task svc now t w in
      let k = single-Keeps t w d c.0 h.0.1 h.0.2 handled in
      let (lower, rest) =
        tasks-left ns ts w' different (Distinct-after w.db w'.db k.same_ids d) k.handled dt.1
          (Current-kept t.id w.db w'.db ts m.0 dt.0 c.1) h.1 in
      let falls =
        process_single_task-left svc now ns t w different h.0.0 c.0 h.0.1
          (Taken-Refuses svc t h.0.2) in
      (
        omega (arith, falls, lower),
        record { same_ids = rest.same_ids ∙ k.same_ids; handled = rest.handled },
      )
