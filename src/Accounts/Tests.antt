-- ===== src/Accounts/Tests.antt =====
-- An admin and an operator with a session each, and the theorems there.
use saz.Prelude.{
  ℕ, String, ◌≡◌, refl, true, false, none, some, List, [], ◌∷◌, ok, err, ◌==◌, string_eq, arith,
}
use saz.Runs.{Role, admin, operator, viewer}
use saz.Accounts.{
  UserRow, AuthSession, Accounts, Security, Claims, count_active_admins, last_admin, user_entity,
  session_entity,
}
use saz.Accounts.Sessions.{granted, refresh_session, user_from_token}
use saz.Accounts.Admin.{set_active, set_role, reset_password, guard_last_admin}
use saz.Accounts.Requests.{Request, refresh, activation, promotion, serve_all}
use saz.Accounts.Admins.{HasAdmin, admin_remains}
use saz.Accounts.Revoked.{is_accepted}
use saz.Accounts.Ended.{disabled_tokens_refused, reset_tokens_refused}
use saz.Accounts.Replay.{rotated_secret_refused}
use saz.Accounts.Theft.{replay_revokes}

abbrev plain : Security
plain = record {
  hash_refresh_secret = λ s. s;
  hash_password = λ salt s. s;
  verify_password = λ s t. s == t;
  strip = λ s. s;
  size = λ s. 8;
  idle_timeout = 100;
  absolute_timeout = 1000;
}

abbrev user : String → Role → UserRow
user name r = record {
  id = name;
  username = name;
  email = name;
  password_hash = "old password";
  is_active = true;
  role = r;
  must_change_password = false;
  last_login_at = none;
}

abbrev session : String → String → AuthSession
session name secret = record {
  id = secret;
  user_id = name;
  refresh_secret_hash = secret;
  previous_refresh_secret_hash = none;
  last_used_at = 0;
  idle_expires_at = 100;
  absolute_expires_at = 1000;
  revoked_at = none;
  revoked_reason = none;
}

abbrev accounts : Accounts
accounts = record {
  users = user "ann" admin ∷ user "bob" operator ∷ [];
  sessions = session "ann" "s1" ∷ session "bob" "s2" ∷ [];
}

abbrev token : Claims
token = record { sub = "bob"; sid = some "s2" }

abbrev requests : List (ℕ × Request)
requests =
    (3, activation "ann" "bob" true)
    ∷ (4, refresh "s1" "s3")
    ∷ (5, promotion "bob" "ann" viewer)
    ∷ []

accepted_before : is_accepted (user_from_token plain token 1 accounts) ≡ true
unfolding user_from_token
accepted_before = refl

last_admin_stays : (set_role "bob" "ann" viewer accounts).1 ≡ err last_admin
unfolding set_role guard_last_admin count_active_admins
last_admin_stays = refl

has_admin : HasAdmin accounts.users
unfolding count_active_admins
has_admin = ((refl, (refl, tt)), omega arith)

admin_remains_example : HasAdmin (serve_all plain requests accounts).users
admin_remains_example = admin_remains plain requests accounts has_admin

disabled : (set_active "ann" "bob" false 2 accounts).1 ≡ ok tt
unfolding set_active guard_last_admin count_active_admins
disabled = refl

disabled_tokens_refused_example :
    is_accepted (
      user_from_token plain token 9
        (serve_all plain requests (set_active "ann" "bob" false 2 accounts).0))
    ≡ false
disabled_tokens_refused_example =
    disabled_tokens_refused plain requests accounts (user "bob" operator) (session "bob" "s2") token
      "s2" "ann" "bob" 2 9 refl refl refl refl refl disabled

was_reset : (reset_password plain "bob" "new password" "salt" 2 accounts).1 ≡ ok tt
unfolding reset_password
was_reset = refl

reset_tokens_refused_example :
    is_accepted (
      user_from_token plain token 9
        (serve_all plain requests (reset_password plain "bob" "new password" "salt" 2 accounts).0))
    ≡ false
reset_tokens_refused_example =
    reset_tokens_refused plain requests accounts (user "bob" operator) (session "bob" "s2") token
      "s2" "bob" "new password" "salt" 2 9 refl refl refl refl was_reset

refreshed :
    (refresh_session plain "s2" "s4" 2 accounts).1 ≡ ok (granted (user "bob" operator) "s2" "s4")
unfolding refresh_session
refreshed = refl

rotated_secret_refused_example :
    is_accepted
      (refresh_session plain "s2" "s6" 9
        (serve_all plain requests (refresh_session plain "s2" "s4" 2 accounts).0)).1
    ≡ false
rotated_secret_refused_example =
    rotated_secret_refused plain requests accounts (granted (user "bob" operator) "s2" "s4") "s2"
      "s4" "s6" 2 9 (omega arith) refl (tt, (refl, (tt, tt))) refreshed

replay_revokes_example :
    is_accepted (
      user_from_token plain (granted (user "bob" operator) "s2" "s4").claims 9 (
        serve_all plain requests
          (refresh_session plain "s2" "s5" 3 (refresh_session plain "s2" "s4" 2 accounts).0).0))
    ≡ false
replay_revokes_example =
    replay_revokes plain requests accounts (granted (user "bob" operator) "s2" "s4") "s2" "s4" "s5"
      2 3 9 (omega arith) refl refl refreshed
