-- ===== src/Web/Users.antt =====
-- frontend/mail-client/app/services/users.py, and `auth_callback` of routers/auth.py. `Yandex` is what
-- the two HTTP calls return. The database gives a new row its id, and `crypt` its hash. A session holds the
-- name and the login too, which only pages show.
pub mod Accounts
pub mod SignIn
use orders_agent.Base.{
  ℕ, ◌+◌, Bool, true, false, Option, none, some, List, [], ◌∷◌, ◌++◌, ◌==◌, is_some, if◌then◌else◌,
}
use orders_agent.Base.Text.{Text, codes, text_beq, text_eq}
use orders_agent.Base.Dict.{Dict, insert}
use orders_agent.Database.Rows.{find_row, update_rows}
use orders_agent.Database.Users.{Account, account_is, get_account, get_by_email, create_account}
use orders_agent.Web.{User}

-- `login or email`
abbrev login_or : Text → Text → Text
login_or [] email = email
login_or (c ∷ s) email = c ∷ s

-- The role that the schema gives.
abbrev pub default_role : Text
default_role = codes "standart"

abbrev pub found_or_new :
    ℕ → Text → Text → Text → List Account → Option Account → Option (Account × List Account)
found_or_new id pass_hash email login accounts (some a) = some (a, accounts)
found_or_new id pass_hash email login accounts none =
    create_account id (login_or login email) email pass_hash default_role accounts

-- None is an error of the database: the login is taken.
unfoldable pub get_or_create_user_by_email :
    ℕ → Text → Text → Text → List Account → Option (Account × List Account)
unfolding create_account
get_or_create_user_by_email id pass_hash email login accounts =
    found_or_new id pass_hash email login accounts (get_by_email email accounts)

abbrev pub with_tokens : Text → Option Text → ℕ → Account → Account
with_tokens access refresh expires a = record a {
  mail_access_token = some access;
  mail_refresh_token = refresh;
  mail_access_expires_at = some expires;
}

-- None is the `ValueError`.
unfoldable pub update_user_mail_tokens :
    ℕ → Text → Option Text → ℕ → List Account → Option (List Account)
update_user_mail_tokens n access refresh expires accounts =
    if is_some (get_account n accounts)
    then some (update_rows (account_is n) (with_tokens access refresh expires) accounts)
    else none

pub record Token : Type 0 where
  pub access_token : Option Text
  pub refresh_token : Option Text
  pub expires_in : Option ℕ

pub record UserInfo : Type 0 where
  pub default_email : Option Text
  pub login : Option Text

-- An HTTP call: it raises, its status is not 200, or it has data.
pub data Http (A : Type 0) : Type 0 where
  failed : Http A
  refused : Http A
  ok : A → Http A

pub record Yandex : Type 0 where
  pub token : Text → Http Token
  pub user_info : Text → Http UserInfo

pub record Site : Type 0 where
  pub accounts : List Account
  pub sessions : Dict Text User

pub data SignedIn : Type 0 where
  redirected : Text → SignedIn
  sign_in_error : SignedIn
  crashed : SignedIn

abbrev pub session_user : Account → User
session_user a = record { id = a.id; email = a.email; is_admin = text_beq a.role (codes "admin") }

-- A text that is there and not empty.
abbrev pub given : Option Text → Option Text
given none = none
given (some []) = none
given (some (c ∷ s)) = some (c ∷ s)

-- `int(expires_in or 0)`, then `expires_in or 3600`.
abbrev pub seconds : Option ℕ → ℕ
seconds none = 3600
seconds (some n) = if n == 0 then 3600 else n

-- What the database and `generate_state` give a call, and the time of the call.
pub record Fresh : Type 0 where
  pub now : ℕ
  pub account_id : ℕ
  pub pass_hash : Text
  pub session_id : Text

abbrev pub open_session : Fresh → Account → Site → Option (List Account) → Site × SignedIn
open_session fresh a site none = (site, sign_in_error)
open_session fresh a site (some accounts) = (
  record { accounts = accounts; sessions = insert fresh.session_id (session_user a) site.sessions },
  redirected fresh.session_id,
)

-- From the row of the user on; it stays where the tokens cannot be saved.
unfoldable pub save_tokens :
    Fresh → Text → Token → Site → Option (Account × List Account) → Site × SignedIn
unfolding update_user_mail_tokens
save_tokens fresh access token site none = (site, sign_in_error)
save_tokens fresh access token site (some (a, accounts)) =
    open_session fresh a (record site { accounts = accounts })
      (update_user_mail_tokens a.id access token.refresh_token
        (fresh.now + seconds token.expires_in) accounts)

-- `user_data.get("login") or email`
abbrev pub login_of : Option Text → Text → Text
login_of none email = email
login_of (some []) email = email
login_of (some (c ∷ s)) email = c ∷ s

abbrev pub with_info : Fresh → Text → Token → Site → UserInfo → Option Text → Site × SignedIn
with_info fresh access token site info none = (site, sign_in_error)
with_info fresh access token site info (some email) = save_tokens fresh access token site (
    get_or_create_user_by_email fresh.account_id fresh.pass_hash email (login_of info.login email)
      site.accounts)

abbrev pub asked_info : Fresh → Text → Token → Site → Http UserInfo → Site × SignedIn
asked_info fresh access token site failed = (site, crashed)
asked_info fresh access token site refused = (site, sign_in_error)
asked_info fresh access token site (ok info) =
    with_info fresh access token site info (given info.default_email)

abbrev pub with_access : Fresh → Yandex → Token → Site → Option Text → Site × SignedIn
with_access fresh yandex token site none = (site, sign_in_error)
with_access fresh yandex token site (some access) =
    asked_info fresh access token site (yandex.user_info access)

abbrev pub asked_token : Fresh → Yandex → Site → Http Token → Site × SignedIn
asked_token fresh yandex site failed = (site, crashed)
asked_token fresh yandex site refused = (site, sign_in_error)
asked_token fresh yandex site (ok token) =
    with_access fresh yandex token site (given token.access_token)

abbrev pub with_code : Fresh → Yandex → Site → Option Text → Site × SignedIn
with_code fresh yandex site none = (site, sign_in_error)
with_code fresh yandex site (some code) = asked_token fresh yandex site (yandex.token code)

abbrev pub no_error : Option Text → Bool
no_error e = not_some (given e)
  where
    not_some : Option Text → Bool
    not_some none = true
    not_some (some _) = false

-- `code` and `error` of the request; its `state` is not looked at.
unfoldable pub auth_callback : Fresh → Yandex → Option Text → Option Text → Site → Site × SignedIn
unfolding get_or_create_user_by_email save_tokens
auth_callback fresh yandex code error site =
    if no_error error then with_code fresh yandex site (given code) else (site, sign_in_error)
