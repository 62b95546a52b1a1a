-- ===== src/Examples/Users.antt =====
-- A clerk signs in, and replies to an email.
use orders_agent.Base.{refl, none, some, [], ◌∷◌}
use orders_agent.Base.Text.{codes}
use orders_agent.Web.Users.{ok, Yandex, Site, Fresh, auth_callback}
use orders_agent.Web.Users.SignIn.{IsSignIn, auth_callback-IsSignIn}
use orders_agent.Web.Replies.{Upload, IsForwarded, reply_to_email, reply_to_email-IsForwarded}
use orders_agent.Examples.Routes.{inbox, clerk}

abbrev yandex : Yandex
yandex = record {
  token = λ code.
      ok (record {
        access_token = some (codes "token");
        refresh_token = none;
        expires_in = some 60;
      });
  user_info = λ access. ok (record { default_email = some (codes "sales@b"); login = none });
}

abbrev site : Site
site = record { accounts = []; sessions = (codes "old", clerk) ∷ [] }

abbrev fresh : Fresh
fresh = record { now = 30; account_id = 5; pass_hash = codes "$2a$"; session_id = codes "x1" }

auth_callback-IsSignIn_example :
    IsSignIn fresh yandex
      (some (codes "7"))
      site
      (auth_callback fresh yandex (some (codes "7")) none site)
auth_callback-IsSignIn_example =
    auth_callback-IsSignIn fresh yandex (some (codes "7")) none site 120 (codes "1") refl

abbrev offer : Upload
offer = record { filename = some (codes "o.xls"); content = codes "bytes"; content_type = none }

reply_to_email-IsForwarded_example :
    IsForwarded
      (λ request. some 204)
      (some clerk)
      1
      (codes "Готово")
      (offer ∷ [])
      inbox
      (reply_to_email (λ request. some 204) (some clerk) 1 (codes "Готово") (offer ∷ []) inbox)
reply_to_email-IsForwarded_example =
    reply_to_email-IsForwarded (λ request. some 204) (some clerk) 1 (codes "Готово") (offer ∷ [])
      inbox
