-- ===== src/Web/Users/SignIn.antt =====
-- Who is signed in after `auth_callback`.
use orders_agent.Base.{
  ℕ, ◌+◌, ◌≡◌, ◌≢◌, refl, Bool, true, false, Option, none, some, List, ◌∷◌, if◌then◌else◌,
}
use orders_agent.Base.Text.{Text, text_eq}
use orders_agent.Base.Dict.{lookup, lookup-insert_ne}
use orders_agent.Database.Users.{Account, get_account}
use orders_agent.Web.{get_current_user, logout}
use orders_agent.Web.Users.{
  get_or_create_user_by_email, update_user_mail_tokens, Token, UserInfo, Http, failed, refused, ok,
  Yandex, Site, SignedIn, redirected, sign_in_error, crashed, session_user, given, seconds, Fresh,
  open_session, save_tokens, login_of, with_info, asked_info, with_access, asked_token, with_code,
  no_error, auth_callback,
}
use orders_agent.Web.Users.Accounts.{current_session, ended_session, get_or_create_row, saved_row}

-- Yandex has confirmed the email, for the code of the request.
abbrev pub Confirmed : Yandex → Option Text → Text → Text → Type 0
Confirmed yandex code email access =
    (c : Text) × (token : Token) × (info : UserInfo) × (given code ≡ some c)
    × (yandex.token c ≡ ok token)
    × (given token.access_token ≡ some access)
    × (yandex.user_info access ≡ ok info)
    × (given info.default_email ≡ some email)

-- The session of an account with the email, whose row keeps the token; no other session changes,
-- and the session ends with `logout`.
abbrev pub HasSession : Text → Text → Text → Site → Site → Type 0
HasSession sid email access site site' =
    (a : Account) × (a.email ≡ email)
    × ((row : Account) × (get_account a.id site'.accounts ≡ some row)
        × (row.mail_access_token ≡ some access))
    × (get_current_user (some sid) site'.sessions ≡ some (session_user a))
    × ((k : Text) → sid ≢ k → lookup k site'.sessions ≡ lookup k site.sessions)
    × (get_current_user (some sid) (logout (some sid) site'.sessions) ≡ none)

unfoldable pub IsSignIn : Fresh → Yandex → Option Text → Site → Site × SignedIn → Type 0
IsSignIn fresh yandex code site (site', redirected sid) =
    (sid ≡ fresh.session_id)
    × ((email : Text) × (access : Text) × Confirmed yandex code email access
        × HasSession sid email access site site')
IsSignIn fresh yandex code site (site', sign_in_error) = site'.sessions ≡ site.sessions
IsSignIn fresh yandex code site (site', crashed) = site' ≡ site

module _ (fresh : Fresh) (yandex : Yandex) (code : Option Text) (site : Site) (c : ℕ) (s : Text)
    (sid : fresh.session_id ≡ c ∷ s) where
  abbrev Done : Site × SignedIn → Type 0
  Done = IsSignIn fresh yandex code site

  save_tokens-IsSignIn :
      (email access login : Text) (token : Token)
      → Confirmed yandex code email access
      → Done (
          save_tokens fresh access token site (
            get_or_create_user_by_email fresh.account_id fresh.pass_hash email login site.accounts))
  unfolding save_tokens IsSignIn
  save_tokens-IsSignIn email access login token confirmed =
      by_row
        (get_or_create_user_by_email fresh.account_id fresh.pass_hash email login site.accounts)
        refl
    where
      expires : ℕ
      expires = fresh.now + seconds token.expires_in

      by_tokens :
          (a : Account) (accounts : List Account) (o : Option (List Account))
          → a.email ≡ email
          → update_user_mail_tokens a.id access token.refresh_token expires accounts ≡ o
          → Done (open_session fresh a (record site { accounts = accounts }) o)
      by_tokens a accounts none at h = refl
      by_tokens a accounts (some after) at h = (
        refl,
        (
          email,
          access,
          confirmed,
          (
            a,
            at,
            saved_row a.id expires access token.refresh_token accounts after h,
            rw sid (current_session c s (session_user a) site.sessions),
            (λ k apart. lookup-insert_ne fresh.session_id k (session_user a) site.sessions apart),
            rw sid (ended_session c s (session_user a) site.sessions),
          ),
        ),
      )

      by_row :
          (o : Option (Account × List Account))
          → get_or_create_user_by_email fresh.account_id fresh.pass_hash email login site.accounts
            ≡ o
          → Done (save_tokens fresh access token site o)
      by_row none h = refl
      by_row (some (a, accounts)) h =
          by_tokens a accounts
            (update_user_mail_tokens a.id access token.refresh_token expires accounts)
            (get_or_create_row fresh.account_id fresh.pass_hash email login site.accounts accounts a
              h)
            refl

-- Where `generate_state` gives an id that is not empty: `auth_callback` opens a session only under
-- this id and only for an account with the email that Yandex has confirmed for the code of the
-- request; it stores the access token in the row with the account's id, and `get_current_user`
-- finds the account's user until `logout`. No other session changes; on an error none does.
pub auth_callback-IsSignIn :
    (fresh : Fresh) (yandex : Yandex) (code error : Option Text) (site : Site) (c : ℕ) (s : Text)
    → fresh.session_id ≡ c ∷ s
    → IsSignIn fresh yandex code site (auth_callback fresh yandex code error site)
unfolding auth_callback IsSignIn
auth_callback-IsSignIn fresh yandex code error site c s sid = by_error (no_error error)
  where
    by_info :
        (code_ access : Text) (token : Token) (info : UserInfo) (o : Option Text)
        → given code ≡ some code_
        → yandex.token code_ ≡ ok token
        → given token.access_token ≡ some access
        → yandex.user_info access ≡ ok info
        → given info.default_email ≡ o
        → IsSignIn fresh yandex code site (with_info fresh access token site info o)
    by_info code_ access token info none h1 h2 h3 h4 h5 = refl
    by_info code_ access token info (some email) h1 h2 h3 h4 h5 =
        save_tokens-IsSignIn fresh yandex code site c s sid email access (login_of info.login email)
          token (code_, token, info, h1, h2, h3, h4, h5)

    by_user :
        (code_ access : Text) (token : Token) (r : Http UserInfo)
        → given code ≡ some code_
        → yandex.token code_ ≡ ok token
        → given token.access_token ≡ some access
        → yandex.user_info access ≡ r
        → IsSignIn fresh yandex code site (asked_info fresh access token site r)
    by_user code_ access token failed h1 h2 h3 h4 = refl
    by_user code_ access token refused h1 h2 h3 h4 = refl
    by_user code_ access token (ok info) h1 h2 h3 h4 =
        by_info code_ access token info (given info.default_email) h1 h2 h3 h4 refl

    by_access :
        (code_ : Text) (token : Token) (o : Option Text)
        → given code ≡ some code_
        → yandex.token code_ ≡ ok token
        → given token.access_token ≡ o
        → IsSignIn fresh yandex code site (with_access fresh yandex token site o)
    by_access code_ token none h1 h2 h3 = refl
    by_access code_ token (some access) h1 h2 h3 =
        by_user code_ access token (yandex.user_info access) h1 h2 h3 refl

    by_token :
        (code_ : Text) (r : Http Token)
        → given code ≡ some code_
        → yandex.token code_ ≡ r
        → IsSignIn fresh yandex code site (asked_token fresh yandex site r)
    by_token code_ failed h1 h2 = refl
    by_token code_ refused h1 h2 = refl
    by_token code_ (ok token) h1 h2 = by_access code_ token (given token.access_token) h1 h2 refl

    by_code :
        (o : Option Text)
        → given code ≡ o
        → IsSignIn fresh yandex code site (with_code fresh yandex site o)
    by_code none h = refl
    by_code (some code_) h = by_token code_ (yandex.token code_) h refl

    by_error :
        (b : Bool)
        → IsSignIn fresh yandex code site
            (if b then with_code fresh yandex site (given code) else (site, sign_in_error))
    by_error true = by_code (given code) refl
    by_error false = refl
