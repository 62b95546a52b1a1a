-- ===== src/Database/Users.antt =====
-- processors/database/repositories.py: `UserRepository`, over a list of rows; the web application
-- uses the same table, with columns for mail tokens that storage/init/01-schema.sql adds.
use orders_agent.Base.{
  ℕ, Bool, Option, none, some, List, [], ◌∷◌, ◌++◌, ◌==◌, ◌||◌, is_some, if◌then◌else◌,
}
use orders_agent.Base.Text.{Text, codes, text_beq}
use orders_agent.Database.Rows.{find_row, where_rows}

-- A row of `users`.
pub record Account : Type 0 where
  pub id : ℕ
  pub login : Text
  pub email : Text
  pub pass_hash : Text
  pub role : Text
  pub mail_access_token : Option Text
  pub mail_refresh_token : Option Text
  pub mail_access_expires_at : Option ℕ

abbrev pub account_is : ℕ → Account → Bool
account_is n a = a.id == n

abbrev pub has_email : Text → Account → Bool
has_email email a = text_beq a.email email

abbrev pub has_login : Text → Account → Bool
has_login login a = text_beq a.login login

abbrev pub get_account : ℕ → List Account → Option Account
get_account n accounts = find_row (account_is n) accounts

abbrev pub get_by_login : Text → List Account → Option Account
get_by_login login accounts = find_row (has_login login) accounts

abbrev pub get_by_email : Text → List Account → Option Account
get_by_email email accounts = find_row (has_email email) accounts

unfoldable pub get_all_managers : List Account → List Account
get_all_managers accounts = where_rows (λ a. text_beq a.role (codes "manager")) accounts

abbrev pub new_account : ℕ → Text → Text → Text → Text → Account
new_account id login email pass_hash role = record {
  id = id;
  login = login;
  email = email;
  pass_hash = pass_hash;
  role = role;
  mail_access_token = none;
  mail_refresh_token = none;
  mail_access_expires_at = none;
}

-- `create`, with the id that the database gives; none where the login or the email is taken.
unfoldable pub create_account :
    ℕ → Text → Text → Text → Text → List Account → Option (Account × List Account)
create_account id login email pass_hash role accounts =
    if is_some (get_by_login login accounts) || is_some (get_by_email email accounts)
    then none
    else (let a = new_account id login email pass_hash role in some (a, accounts ++ a ∷ []))
