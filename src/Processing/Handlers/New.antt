-- ===== src/Processing/Handlers/New.antt =====
-- What `process_new` does to the tasks and to the decisions.
use orders_agent.Base.{
  ℕ, ◌≡◌, refl, ap, ◌∙◌, Bool, true, Option, none, some, List, [], ◌∷◌, Option-cases, ==_iff, inl,
  inr,
}
use orders_agent.Database.Models.{new, Task, Email, Database}
use orders_agent.Database.Rows.{find_row-true}
use orders_agent.Database.Emails.{email_is, get_email, get_by_email_id}
use orders_agent.Database.Emails
use orders_agent.Processing.{Services, World}
use orders_agent.Processing.Features.{extract_text_features, extract_files_features}
use orders_agent.Processing.Threshold.{Decision, threshold_default, decide_by_thresholds}
use orders_agent.Processing.Handlers.{
  file_names, email_text, status_of, store_decision, process_new, email_not_found,
}
use orders_agent.Processing.Handlers.Decided.{set_ml_result-settled, set_ml_result-Kept}
use orders_agent.Processing.Handlers.Moves.{Moves, Good, update_status-Moves, mark_error-Moves}
use orders_agent.Processing.Handlers.Steps.{To, Does, reviewed, classified, new_failed}

-- `id` of the row that `session.get` finds.
id_of : (m : ℕ) (db : Database) (x : Email) → get_email m db ≡ some x → x.id ≡ m
id_of m db x there = (==_iff x.id m).0 (find_row-true (email_is m) db.emails there)

module _ (svc : Services) (now : ℕ) (t : Task) where
  status_of-Goes : (p : Option ℕ) {b b' : Bool} → b' ≡ true → To svc t new b (status_of p) b'
  status_of-Goes none h = reviewed
  status_of-Goes (some i) h = rw h classified

  store_decision-Good :
      (b : Bool) (e : Email) (ds : List Decision) (w : World)
      → get_email t.email_id w.db ≡ some e
      → Does svc t new b w.db (store_decision now t e ds w)
  unfolding Good store_decision
  store_decision-Good b e [] w there = refl
  store_decision-Good b e (d ∷ ds) w there =
      let db' : Database = Emails.set_ml_result e.id d.prob d.predicted d.decision w.db in
      let same = id_of t.email_id w.db e there in
      let set =
        set_ml_result-settled e.id d.prob d.predicted d.decision w.db t.email_id e same there in
      let m =
        update_status-Moves t.id t.email_id (To svc t new b) now (status_of d.predicted) [] db' tt
          (status_of-Goes d.predicted set) in
      unfold Moves Emails.set_ml_result in
      (
        m.0,
        m.1,
        λ k h. m.2 k (
            set_ml_result-Kept e.id d.prob d.predicted d.decision w.db e
              (ap (λ n. get_email n w.db) same ∙ there) k h),
        m.3,
        m.4,
      )

  pub process_new-Good : (b : Bool) (w : World) → Does svc t new b w.db (process_new svc now t w)
  unfolding process_new Good
  process_new-Good b w = elim (Option-cases (get_email t.email_id w.db)) [
    | inl e ↦
        rw (process_new, e)
          (mark_error-Moves t.id t.email_id (To svc t new b) now email_not_found w.db new_failed)
    | inr (x, e) ↦
        let names = file_names (get_by_email_id t.email_id w.db) in
        let features = extract_text_features svc.text_lib (email_text x names) in
        rw (process_new, e)
          (elim (Option-cases (svc.predict features (extract_files_features names))) [
            | inl raises ↦ rw (process_new, raises) refl
            | inr ((labels, indexes, proba), predicted) ↦
                rw (process_new, predicted)
                  (store_decision-Good b x
                    (decide_by_thresholds labels indexes proba threshold_default) w e)
          ])
  ]
