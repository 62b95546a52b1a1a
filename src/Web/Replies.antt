-- ===== src/Web/Replies.antt =====
-- frontend/mail-client/app/routers/queue.py: `reply_to_email`. `post` is the mail service: the status
-- of its reply to a request, or none where it cannot be reached. The route returns the request that
-- it made, if any, and its reply; its success is the status 204.
use orders_agent.Base.{
  sym, ap, ◌∙◌, some_inj, ℕ, ◌≡◌, ◌≢◌, refl, ◌⊎◌, inl, inr, Bool, true, false, Option, none, some,
  List, [], ◌∷◌, ◌==◌, ==_iff, map, if◌then◌else◌,
}
use orders_agent.Base.Text.{Text, codes, strip}
use orders_agent.Database.Models.{Email, Database}
use orders_agent.Database.Emails.{get_email}
use orders_agent.Web.{User, Reply, reply, http_error, can_see}
use orders_agent.Web.Archive.{seen}

pub record Upload : Type 0 where
  pub filename : Option Text
  pub content : Text
  pub content_type : Option Text

pub record Part : Type 0 where
  pub filename : Text
  pub content : Text
  pub content_type : Text

abbrev or_else : Option Text → Text → Text
or_else none d = d
or_else (some []) d = d
or_else (some (c ∷ s)) d = c ∷ s

unfoldable pub part_of : Upload → Part
part_of a = record {
  filename = or_else a.filename (codes "attachment");
  content = a.content;
  content_type = or_else a.content_type (codes "application/octet-stream");
}

-- A request: the email, the body and the files.
pub record Sent : Type 0 where
  pub email : ℕ
  pub body : Text
  pub files : List Part

abbrev pub MailService : Type 0
MailService = Sent → Option ℕ

-- The reply by what the service says.
unfoldable pub mail_reply : Option ℕ → Reply
mail_reply none = http_error 502
mail_reply (some status) = if status == 204 then reply else http_error status

abbrev pub forwarded : MailService → Sent → Option Sent × Reply
forwarded post request = (some request, mail_reply (post request))

abbrev pub reply_to : MailService → ℕ → Text → List Upload → Option Email → Option Sent × Reply
reply_to post email_id body attachments none = (none, http_error 404)
reply_to post email_id body attachments (some e) =
    forwarded post (record { email = email_id; body = body; files = map part_of attachments })

abbrev pub with_body :
    MailService → User → ℕ → Text → List Upload → Database → Text → Option Sent × Reply
with_body post user email_id body attachments db [] = (none, http_error 400)
with_body post user email_id body attachments db (c ∷ s) =
    reply_to post email_id body attachments (seen user (get_email email_id db))

unfoldable pub reply_to_email :
    MailService → Option User → ℕ → Text → List Upload → Database → Option Sent × Reply
unfolding can_see strip part_of mail_reply
reply_to_email post none email_id body attachments db = (none, http_error 401)
reply_to_email post (some user) email_id body attachments db =
    with_body post user email_id body attachments db (strip body)

-- What a request is, and for whom it is made.
abbrev pub IsRequest : Option User → ℕ → Text → List Upload → Database → Sent → Type 0
IsRequest session email_id body attachments db request =
    (request ≡ record { email = email_id; body = body; files = map part_of attachments })
    × (strip body ≢ [])
    × ((user : User) × (e : Email) × (session ≡ some user)
        × (get_email email_id db ≡ some e)
        × (can_see user e ≡ true))

unfoldable pub IsForwarded :
    MailService → Option User → ℕ → Text → List Upload → Database → Option Sent × Reply → Type 0
IsForwarded post session email_id body attachments db (none, r) =
    (n : ℕ) × (r ≡ http_error n) × ((n ≡ 401) ⊎ (n ≡ 400) ⊎ (n ≡ 404))
IsForwarded post session email_id body attachments db (some request, r) =
    IsRequest session email_id body attachments db request
    × ((r ≡ reply → post request ≡ some 204) × (post request ≡ some 204 → r ≡ reply))

status_iff :
    (n : ℕ) (b : Bool)
    → (n == 204) ≡ b
    → ((if b then reply else http_error n) ≡ reply → some n ≡ some 204)
      × (some n ≡ some 204 → (if b then reply else http_error n) ≡ reply)
status_iff n true e = (λ h. ap some ((==_iff n 204).0 e), λ h. refl)
status_iff n false e = (λ h. cc, λ h. absurd (differs ((==_iff n 204).1 (some_inj h))))
  where
    differs : (n == 204) ≢ true
    differs h = cc

mail_reply_iff :
    (o : Option ℕ) → (mail_reply o ≡ reply → o ≡ some 204) × (o ≡ some 204 → mail_reply o ≡ reply)
unfolding mail_reply
mail_reply_iff none = (λ h. cc, λ h. cc)
mail_reply_iff (some n) = status_iff n (n == 204) refl

-- The route asks the mail service only for a user with a session who sees the mailbox of the email,
-- with a body that is more than spaces; the request has the email, the body as it is and one part
-- for each attachment. The route succeeds just when the service then answers 204. Where it asks for
-- nothing, the reply is 401, 400 or 404.
pub reply_to_email-IsForwarded :
    (post : MailService) (session : Option User) (email_id : ℕ) (body : Text)
    (attachments : List Upload) (db : Database)
    → IsForwarded post session email_id body attachments db
        (reply_to_email post session email_id body attachments db)
unfolding reply_to_email IsForwarded
reply_to_email-IsForwarded post none email_id body attachments db = (401, refl, inl refl)
reply_to_email-IsForwarded post (some user) email_id body attachments db = by_body (strip body) refl
  where
    Result : Option Sent × Reply → Type 0
    Result = IsForwarded post (some user) email_id body attachments db

    request : Sent
    request = record { email = email_id; body = body; files = map part_of attachments }

    by_sight :
        (e : Email) (b : Bool)
        → strip body ≢ []
        → get_email email_id db ≡ some e
        → can_see user e ≡ b
        → Result (reply_to post email_id body attachments (if b then some e else none))
    by_sight e true h at sees =
        ((refl, h, (user, e, refl, at, sees)), mail_reply_iff (post request))
    by_sight e false h at hidden = (404, refl, inr (inr refl))

    by_email :
        (o : Option Email)
        → strip body ≢ []
        → get_email email_id db ≡ o
        → Result (reply_to post email_id body attachments (seen user o))
    by_email none h at = (404, refl, inr (inr refl))
    by_email (some e) h at = by_sight e (can_see user e) h at refl

    by_body :
        (b : Text) → strip body ≡ b → Result (with_body post user email_id body attachments db b)
    by_body [] h = (400, refl, inr (inl refl))
    by_body (c ∷ s) h = by_email (get_email email_id db) (λ e. not_cons (sym h ∙ e)) refl
      where
        not_cons : (c ∷ s) ≢ []
        not_cons e = cc
