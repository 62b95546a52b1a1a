-- ===== src/Examples/Routes.antt =====
-- A user of one mailbox, and a task of another.
use orders_agent.Base.{refl, false, none, some, [], ◌∷◌}
use orders_agent.Base.Text.{Text, codes, text_beq, strip}
use orders_agent.Database.Models.{ml_review, materials_review, Answer, Email, Database}
use orders_agent.Database.Rows.{find_row}
use orders_agent.Web.{User, DecisionUpdate, can_see, update_queue_decision}
use orders_agent.Web.Answers.{update_materials_manual_decision}
use orders_agent.Base.Dict.{Dict}
use orders_agent.Web.Accepted.{IsAccepted, manual_decision-IsAccepted}
use orders_agent.Web.Safe.{Untouched, decisions_hidden}
use orders_agent.Examples.Rows.{task}

abbrev pub letter : Email
letter = record {
  id = 1;
  mailbox = codes "sales@b";
  email_uid = 5;
  message_id = none;
  in_reply_to = none;
  references_header = none;
  email_from = none;
  reply_to = none;
  email_subject = none;
  raw_email = none;
  email_date = none;
  prob_1 = none;
  predicted_class = none;
  model_decision = none;
  archived = false;
  is_read = false;
  created_at = 1;
}

abbrev pub inbox : Database
inbox = record {
  emails = letter ∷ [];
  documents = [];
  tasks = task 1 ml_review 10 ∷ [];
  mappings = [];
}

abbrev stranger : User
stranger = record { id = 9; email = codes "other@b"; is_admin = false }

abbrev decision : DecisionUpdate
decision = record { predicted_class = none; model_decision = some (codes "request"); status = none }

decisions_hidden_example :
    Untouched 1 1 inbox (update_queue_decision 30 (some stranger) decision 1 inbox).0
    × Untouched 1 1 inbox (update_materials_manual_decision 30 (some stranger) [] 1 inbox).0
unfolding find_row can_see text_beq
decisions_hidden_example =
    decisions_hidden 30 1 stranger decision [] inbox 1 (task 1 ml_review 10) letter refl refl refl

abbrev pub clerk : User
clerk = record { id = 2; email = codes "sales@b"; is_admin = false }

abbrev desk : Database
desk = record inbox { tasks = task 1 materials_review 10 ∷ [] }

abbrev answers : Dict Text Answer
answers =
    (
      codes "16",
      record { target = some (codes " Рамка "); article = some (codes " "); black_list = false },
    )
    ∷ []

manual_decision-IsAccepted_example :
    IsAccepted 1 desk (update_materials_manual_decision 30 (some clerk) answers 1 desk).0
unfolding update_materials_manual_decision find_row can_see text_beq strip
manual_decision-IsAccepted_example = manual_decision-IsAccepted 30 1 clerk answers desk refl
