-- ===== src/Processing/Handlers/Manual.antt =====
-- What `process_manual_matching` does to the tasks.
use orders_agent.Base.{
  ℕ, ◌≡◌, refl, Bool, true, false, Option, none, some, [], Option-cases, Bool-cases, inl, inr, map,
}
use orders_agent.Base.Text.{Text}
use orders_agent.Base.Dict.{Dict}
use orders_agent.Database.Models.{
  new, ml_classified, manual_review_done, error, Answer, Task, Email, Database,
}
use orders_agent.Database.Tasks.{get_task, update_status, mark_error}
use orders_agent.Database.Mappings.{batch_add, upsert_all}
use orders_agent.Database.Emails.{get_email}
use orders_agent.Processing.{Services, World}
use orders_agent.Processing.Handlers.{
  returned, raised, answer_row, add_answers, process_manual_matching, no_answers,
}
use orders_agent.Processing.Handlers.Decided.{unsettled, settled-some}
use orders_agent.Processing.Handlers.Moves.{
  settled, Moves, Good, update_status-Moves, status_error-Moves,
}
use orders_agent.Processing.Handlers.Steps.{
  Refuses, To, Does, answered, not_stored, not_classified, matching_failed,
}

module _ (svc : Services) (now : ℕ) (t : Task) where
  not_classified_of : {b b' : Bool} → b ≡ false → To svc t manual_review_done b new b'
  not_classified_of h = rw h not_classified

  answered_of : {b b' : Bool} → b' ≡ true → To svc t manual_review_done b ml_classified b'
  answered_of h = rw h answered

  abbrev before : World → Bool
  before w = settled t.email_id w.db

  add_answers-Good :
      (answers : Dict Text Answer) (w : World)
      → t.manual_decision ≡ some answers
      → before w ≡ true
      → get_task t.id w.db ≡ some t
      → t.status ≡ manual_review_done
      → Does svc t manual_review_done
          (before w)
          w.db
          (add_answers now t (batch_add svc.accepts (map answer_row answers) w.db.mappings) w)
  unfolding Good batch_add
  add_answers-Good answers w asked d e s =
      elim (Bool-cases (svc.accepts (map answer_row answers))) [
        | inl taken ↦
            let db' : Database = record w.db {
              mappings = upsert_all (map answer_row answers) w.db.mappings;
            } in
            rw taken (
              unfold Moves settled in
              update_status-Moves t.id t.email_id (To svc t manual_review_done (before w)) now
                ml_classified [] db' tt (answered_of d))
        | inr refused ↦ rw refused (
            unfold Moves in
            (
              λ k h. refl,
              refl,
              λ k h. h,
              refl,
              λ p. (t, e, refl, rw s (not_stored (unfold Refuses in (answers, asked, refused)))),
            ))
      ]

  pub process_manual_matching-Good :
      (w : World)
      → get_task t.id w.db ≡ some t
      → t.status ≡ manual_review_done
      → Does svc t manual_review_done (before w) w.db (process_manual_matching svc now t w)
  unfolding process_manual_matching
  process_manual_matching-Good w current s = by_answers t.manual_decision refl
    where
      by_decision :
          (answers : Dict Text Answer)
          → t.manual_decision ≡ some answers
          → (x : Email) → get_email t.email_id w.db ≡ some x
          → (o : Option Text) → x.model_decision ≡ o
          → Does svc t manual_review_done (before w) w.db (elim o [
            | none ↦ (record w { db = update_status now t.id new [] w.db }, false)
            | some c ↦
                add_answers now t (batch_add svc.accepts (map answer_row answers) w.db.mappings) w
          ])
      by_decision answers asked x there none e =
          unfold Good in
          update_status-Moves t.id t.email_id (To svc t manual_review_done (before w)) now new []
            w.db tt (not_classified_of (unsettled t.email_id w.db x there e))
      by_decision answers asked x there (some c) e =
          add_answers-Good answers w asked (settled-some t.email_id w.db x c there e) current s

      by_answers :
          (o : Option (Dict Text Answer))
          → t.manual_decision ≡ o
          → Does svc t manual_review_done (before w) w.db (elim o [
            | none ↦
                returned (mark_error now t.id no_answers (update_status now t.id error [] w.db)) w
            | some answers ↦ elim (get_email t.email_id w.db) [
              | none ↦ raised w
              | some e ↦ elim e.model_decision [
                | none ↦ returned (update_status now t.id new [] w.db) w
                | some c ↦
                    add_answers now t
                      (batch_add svc.accepts (map answer_row answers) w.db.mappings)
                      w
              ]
            ]
          ])
      by_answers none e =
          unfold Good in
          status_error-Moves t.id t.email_id (To svc t manual_review_done (before w)) now no_answers
            w.db matching_failed
      by_answers (some answers) e = elim (Option-cases (get_email t.email_id w.db)) [
        | inl gone ↦ rw gone (unfold Good in refl)
        | inr (x, there) ↦ rw there (by_decision answers e x there x.model_decision refl)
      ]
