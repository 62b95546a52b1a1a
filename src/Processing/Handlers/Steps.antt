-- ===== src/Processing/Handlers/Steps.antt =====
-- The steps of the workflow on a status together with whether the classifier has decided on the
-- email of the task: what the handlers can do, told finer than by `Next`.
use orders_agent.Base.{◌≡◌, Bool, true, false, some, map}
use orders_agent.Base.Text.{Text}
use orders_agent.Base.Dict.{Dict}
use orders_agent.Database.Models.{
  TaskStatus, new, ml_classified, question, ml_review, materials_review, manual_review_done,
  completed, error, Answer, Task, Database,
}
use orders_agent.Processing.{Services}
use orders_agent.Processing.Handlers.{Outcome, answer_row}
use orders_agent.Processing.Handlers.Moves.{Good, has_handler, Next}

-- From a status and whether the email was decided on, to both after the handler; `Refused` tells
-- that the database has refused the statement of `batch_add`.
pub data Goes (Refused : Type 0) : TaskStatus → Bool → TaskStatus → Bool → Type 0 where
  reviewed : {b b' : Bool} → Goes Refused new b ml_review b'
  classified : {b : Bool} → Goes Refused new b ml_classified true
  new_failed : {b b' : Bool} → Goes Refused new b error b'
  unclassified : {b' : Bool} → Goes Refused ml_classified false new b'
  asked : {b b' : Bool} → Goes Refused ml_classified b question b'
  parts_unknown : {b b' : Bool} → Goes Refused ml_classified b materials_review b'
  done : {b b' : Bool} → Goes Refused ml_classified b completed b'
  excel_failed : {b b' : Bool} → Goes Refused ml_classified b error b'
  answered : {b : Bool} → Goes Refused manual_review_done b ml_classified true
  not_stored : {b b' : Bool} → Refused → Goes Refused manual_review_done b manual_review_done b'
  not_classified : {b' : Bool} → Goes Refused manual_review_done false new b'
  matching_failed : {b b' : Bool} → Goes Refused manual_review_done b error b'
  no_handler : {s : TaskStatus} {b b' : Bool} → has_handler s ≡ false → Goes Refused s b s b'

pub Goes-Next :
    {Refused : Type 0} {s s' : TaskStatus} {b b' : Bool} → Goes Refused s b s' b' → Next s s'
Goes-Next reviewed = Next.reviewed
Goes-Next classified = Next.classified
Goes-Next new_failed = Next.new_failed
Goes-Next unclassified = Next.unclassified
Goes-Next asked = Next.asked
Goes-Next parts_unknown = Next.parts_unknown
Goes-Next done = Next.done
Goes-Next excel_failed = Next.excel_failed
Goes-Next answered = Next.answered
Goes-Next (not_stored h) = Next.not_stored
Goes-Next not_classified = Next.not_classified
Goes-Next matching_failed = Next.matching_failed
Goes-Next (no_handler h) = Next.no_handler h

-- The database refuses the rows of the answers to this task.
unfoldable pub Refuses : Services → Task → Type 0
Refuses svc t =
    (answers : Dict Text Answer) × (t.manual_decision ≡ some answers)
    × (svc.accepts (map answer_row answers) ≡ false)

abbrev pub To : Services → Task → TaskStatus → Bool → TaskStatus → Bool → Type 0
To svc t = Goes (Refuses svc t)

-- What a handler does from the status `s`, where `b` tells whether the email was decided on.
abbrev pub Does : Services → Task → TaskStatus → Bool → Database → Outcome → Type 0
Does svc t s b = Good t.id t.email_id (To svc t s b)
