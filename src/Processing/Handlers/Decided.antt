-- ===== src/Processing/Handlers/Decided.antt =====
-- What `EmailRepository.set_ml_result` does to the decisions on the emails.
use orders_agent.Base.{
  ℕ, ◌≡◌, ◌≢◌, refl, sym, ap, ◌∙◌, true, false, Option, none, some, arith, ◌==◌, Bool-cases, inl,
  inr, ==_iff,
}
use orders_agent.Base.Text.{Text}
use orders_agent.Database.Models.{Prob, Email, Database}
use orders_agent.Database.Rows.{find_row-update_rows, find_row-update_rows_ne}
use orders_agent.Database.Emails.{email_is, get_email}
use orders_agent.Database.Emails
use orders_agent.Processing.Handlers.Moves.{settled, Kept}

-- An email without a decision, and one with a decision.
pub unsettled :
    (m : ℕ) (db : Database) (x : Email)
    → get_email m db ≡ some x
    → x.model_decision ≡ none
    → settled m db ≡ false
unfolding settled
unsettled m db x there e = rw (there, e) refl

pub settled-some :
    (m : ℕ) (db : Database) (x : Email) (c : Text)
    → get_email m db ≡ some x
    → x.model_decision ≡ some c
    → settled m db ≡ true
unfolding settled
settled-some m db x c there e = rw (there, e) refl

decided_same :
    (m : ℕ) (db db' : Database)
    → get_email m db' ≡ get_email m db
    → settled m db ≡ true
    → settled m db' ≡ true
unfolding settled
decided_same m db db' e h = rw e h

module _ (n : ℕ) (p : Prob) (i : Option ℕ) (c : Text) (db : Database) where
  abbrev with_result : Email → Email
  with_result e = record e { prob_1 = some p; predicted_class = i; model_decision = some c }

  get_email-set_ml_result :
      (m : ℕ) (x : Email)
      → n ≡ m
      → get_email m db ≡ some x
      → get_email m (Emails.set_ml_result n p i c db) ≡ some (with_result x)
  unfolding Emails.set_ml_result
  get_email-set_ml_result m x e there =
      find_row-update_rows (email_is n) (email_is m) with_result db.emails (λ y. refl)
        (λ y. rw e refl)
      ∙ rw there refl

  get_email-set_ml_result_ne :
      (m : ℕ) → n ≢ m → get_email m (Emails.set_ml_result n p i c db) ≡ get_email m db
  unfolding Emails.set_ml_result
  get_email-set_ml_result_ne m apart =
      find_row-update_rows_ne (email_is n) (email_is m) with_result db.emails (λ y. refl)
        (λ y h. ground (arith, apart))

  pub set_ml_result-settled :
      (m : ℕ) (x : Email)
      → n ≡ m
      → get_email m db ≡ some x
      → settled m (Emails.set_ml_result n p i c db) ≡ true
  set_ml_result-settled m x e there =
      settled-some m (Emails.set_ml_result n p i c db) (with_result x) c
        (get_email-set_ml_result m x e there) refl

  pub set_ml_result-Kept :
      (x : Email) → get_email n db ≡ some x → Kept db (Emails.set_ml_result n p i c db)
  set_ml_result-Kept x there m h = elim (Bool-cases (n == m)) [
    | inl e ↦
        set_ml_result-settled m x ((==_iff n m).0 e)
          (ap (λ k. get_email k db) (sym ((==_iff n m).0 e)) ∙ there)
    | inr e ↦
        decided_same m db (Emails.set_ml_result n p i c db)
          (get_email-set_ml_result_ne m (λ same. ground (arith, e, same))) h
  ]
