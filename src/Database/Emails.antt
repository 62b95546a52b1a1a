-- ===== src/Database/Emails.antt =====
-- processors/database/repositories.py: `EmailRepository` and `DocumentRepository`.
use orders_agent.Base.{
  ℕ, Bool, true, false, Option, none, some, List, [], ◌∷◌, ◌++◌, ◌==◌, ◌&&◌, leb, if◌then◌else◌,
  is_some,
}
use orders_agent.Base.Lists.{take, drop}
use orders_agent.Base.Text.{Text, text_beq}
use orders_agent.Database.Models.{Prob, Email, Document, Database}
use orders_agent.Database.Rows.{find_row, update_rows, where_rows, order_by}

abbrev pub email_is : ℕ → Email → Bool
email_is n e = e.id == n

abbrev pub get_email : ℕ → Database → Option Email
get_email n db = find_row (email_is n) db.emails

abbrev has_uid : Text → ℕ → Email → Bool
has_uid mailbox uid e = text_beq e.mailbox mailbox && e.email_uid == uid

unfoldable pub get_by_mailbox_and_uid : Text → ℕ → Database → Option Email
get_by_mailbox_and_uid mailbox uid db = find_row (has_uid mailbox uid) db.emails

-- `create`: `none` for an email that is there already; the id and the time are the database's. The
-- columns that are not given are NULL or have their defaults.
unfoldable pub create_email :
    ℕ
    → ℕ
    → Text
    → ℕ
    → Option Text
    → Option Text
    → Option Text
    → Option ℕ
    → Database
    → Option Email × Database
create_email now n mailbox email_uid email_from email_subject raw_email email_date db =
    let e : Email = record {
      id = n;
      mailbox = mailbox;
      email_uid = email_uid;
      message_id = none;
      in_reply_to = none;
      references_header = none;
      email_from = email_from;
      reply_to = none;
      email_subject = email_subject;
      raw_email = raw_email;
      email_date = email_date;
      prob_1 = none;
      predicted_class = none;
      model_decision = none;
      archived = false;
      is_read = false;
      created_at = now;
    } in
    if is_some (find_row (has_uid mailbox email_uid) db.emails)
    then (none, db)
    else (some e, record db { emails = db.emails ++ e ∷ [] })

-- PostgreSQL puts NULL dates first in descending order.
abbrev later_date : Option ℕ → Option ℕ → Bool
later_date none b = true
later_date (some a) none = false
later_date (some a) (some b) = leb b a

unfoldable pub get_emails_by_mailbox : Text → ℕ → ℕ → Database → List Email
get_emails_by_mailbox mailbox limit offset db = take limit (
    drop offset (
      order_by (λ a b. later_date a.email_date b.email_date)
        (where_rows (λ e. text_beq e.mailbox mailbox) db.emails)))

unfoldable pub get_all_emails : ℕ → ℕ → Database → List Email
get_all_emails limit offset db =
    take limit (drop offset (order_by (λ a b. later_date a.email_date b.email_date) db.emails))

unfoldable pub set_ml_result : ℕ → Prob → Option ℕ → Text → Database → Database
set_ml_result n prob predicted decision db = record db {
  emails =
      update_rows (email_is n)
        (λ e. record e {
          prob_1 = some prob;
          predicted_class = predicted;
          model_decision = some decision;
        })
        db.emails;
}

unfoldable pub create_document : Document → Database → Document × Database
create_document d db = (d, record db { documents = db.documents ++ d ∷ [] })

unfoldable pub get_by_email_id : ℕ → Database → List Document
get_by_email_id n db =
    order_by (λ a b. leb a.created_at b.created_at) (where_rows (λ d. d.email_id == n) db.documents)

unfoldable pub get_document : ℕ → Database → Option Document
get_document n db = find_row (λ d. d.id == n) db.documents
