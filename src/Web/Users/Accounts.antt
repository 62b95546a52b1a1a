-- ===== src/Web/Users/Accounts.antt =====
-- The rows that a sign-in finds, makes and changes, and the session that it opens.
use orders_agent.Base.{
  ℕ, ◌≡◌, refl, sym, ap, ◌∙◌, Bool, true, false, ◌||◌, Option, none, some, List, [], ◌∷◌, ◌++◌,
  some_inj, none-some, is_some, if◌then◌else◌,
}
use orders_agent.Base.Text.{Text, text_beq_iff, text_eq}
use orders_agent.Base.Dict.{Dict, insert, lookup-insert_self, lookup-erase}
use orders_agent.Database.Rows.{update_rows, find_row-true, find_row-update_rows}
use orders_agent.Database.Users.{
  Account, account_is, has_email, get_account, get_by_email, get_by_login, new_account,
  create_account,
}
use orders_agent.Web.{User, get_current_user, logout}
use orders_agent.Web.Users.{
  default_role, login_or, found_or_new, get_or_create_user_by_email, with_tokens,
  update_user_mail_tokens,
}

module _ (c : ℕ) (s : Text) (user : User) (sessions : Dict Text User) where
  pub current_session : get_current_user (some (c ∷ s)) (insert (c ∷ s) user sessions) ≡ some user
  current_session = unfold get_current_user in lookup-insert_self (c ∷ s) user sessions

  pub ended_session :
      get_current_user (some (c ∷ s)) (logout (some (c ∷ s)) (insert (c ∷ s) user sessions)) ≡ none
  ended_session =
      unfold get_current_user logout in
      rw lookup-insert_self (
        lookup-erase (c ∷ s) (c ∷ s) (insert (c ∷ s) user sessions)
        ∙ rw ((text_beq_iff (c ∷ s) (c ∷ s)).1 refl) refl)

-- The row that was found or made has the email.
pub get_or_create_row :
    (id : ℕ) (hash email login : Text) (accounts after : List Account) (a : Account)
    → get_or_create_user_by_email id hash email login accounts ≡ some (a, after)
    → a.email ≡ email
unfolding get_or_create_user_by_email create_account
get_or_create_row id hash email login accounts after a h =
    by_row (get_by_email email accounts) refl h
  where
    first : Option (Account × List Account) → Text → Text
    first none e = e
    first (some (x, xs)) e = x.email

    made : Account
    made = new_account id (login_or login email) email hash default_role

    by_taken :
        (b : Bool)
        → ◌≡◌ {A = Option (Account × List Account)}
            (if b then none else some (made, accounts ++ made ∷ []))
            (some (a, after))
        → a.email ≡ email
    by_taken true h = absurd (none-some h)
    by_taken false h = sym (ap (λ o. first o email) h)

    by_row :
        (o : Option Account)
        → get_by_email email accounts ≡ o
        → found_or_new id hash email login accounts o ≡ some (a, after)
        → a.email ≡ email
    by_row none e h =
        by_taken
          (is_some (get_by_login (login_or login email) accounts)
            || is_some (get_by_email email accounts))
          h
    by_row (some x) e h =
        sym (ap (λ o. first o email) h)
        ∙ (text_beq_iff x.email email).0 (find_row-true (has_email email) accounts e)

pub saved_row :
    (n expires : ℕ) (access : Text) (refresh : Option Text) (accounts after : List Account)
    → update_user_mail_tokens n access refresh expires accounts ≡ some after
    → (row : Account) × (get_account n after ≡ some row) × (row.mail_access_token ≡ some access)
unfolding update_user_mail_tokens
saved_row n expires access refresh accounts after h = by_row (get_account n accounts) refl h
  where
    by_row :
        (o : Option Account)
        → get_account n accounts ≡ o
        → (if is_some o
            then some (update_rows (account_is n) (with_tokens access refresh expires) accounts)
            else none)
          ≡ some after
        → (row : Account) × (get_account n after ≡ some row) × (row.mail_access_token ≡ some access)
    by_row none e h = absurd (none-some h)
    by_row (some x) e h = (
      with_tokens access refresh expires x,
      ap (get_account n) (sym (some_inj h))
          ∙ find_row-update_rows (account_is n) (account_is n) (with_tokens access refresh expires)
              accounts (λ y. refl) (λ y. refl)
          ∙ rw e refl,
      refl,
    )
