-- ===== src/Accounts/Sessions.antt =====
-- backend/saz/services/auth_service.py, and the login route of backend/saz/api/routes/auth.py: logins,
-- refresh sessions and their revocation, and the change of one's own password. A method returns
-- what is committed with its answer; ids, secrets and salts that are generated are arguments.
use saz.Prelude.{
  ℕ, ◌+◌, String, Bool, true, false, not, ◌||◌, Option, none, some, List, [], ◌∷◌, ◌++◌, ◌==◌,
  string_eq, if◌then◌else◌, Result, ok, err, ltb, guard, ◌>>◌,
}
use saz.Prelude.Table.{get, modify, first}
use saz.Accounts.{
  UserRow, AuthSession, Accounts, Security, Claims, Refusal, invalid_credentials, account_disabled,
  invalid_refresh_token, session_inactive, account_unavailable, user_gone, wrong_password,
  short_password, same_password, is_usable, is_named, revoke, revoke_all_for_user, has_hash,
  had_hash, duplicate_key, user_entity, session_entity,
}

-- A response with an access token, its session's id and the secret of the refresh cookie.
pub record Grant : Type 0 where
  pub claims : Claims
  pub session_id : String
  pub refresh_secret : String

abbrev pub set_sessions : List AuthSession → Accounts → Accounts
set_sessions sessions a = record a { sessions = sessions }

abbrev pub record_login : String → ℕ → Accounts → Accounts
record_login user_id now a = record a {
  users = modify user_id (λ u. record u { last_login_at = some now }) a.users;
}

abbrev pub granted : UserRow → String → String → Grant
granted u session_id secret = record {
  claims = record { sub = u.id; sid = some session_id };
  session_id = session_id;
  refresh_secret = secret;
}

module _ (sec : Security) where
  -- `authenticate`
  abbrev pub check_password : String → UserRow → Result Refusal UserRow
  check_password password u =
      if not (sec.verify_password password u.password_hash)
      then err invalid_credentials
      else if u.is_active
      then ok u
      else err account_disabled

  abbrev pub known : String → Option UserRow → Result Refusal UserRow
  known password none = err invalid_credentials
  known password (some u) = check_password password u

  unfoldable pub authenticate : String → String → Accounts → Result Refusal UserRow
  authenticate identifier password a =
      if identifier == "" || password == ""
      then err invalid_credentials
      else known password (first (is_named (sec.strip identifier)) a.users)

  abbrev pub new_session : String → String → String → ℕ → AuthSession
  new_session user_id id secret now = record {
    id = id;
    user_id = user_id;
    refresh_secret_hash = sec.hash_refresh_secret secret;
    previous_refresh_secret_hash = none;
    last_used_at = now;
    idle_expires_at = now + sec.idle_timeout;
    absolute_expires_at = now + sec.absolute_timeout;
    revoked_at = none;
    revoked_reason = none;
  }

  -- `start_session`. The insertion fails on an id that is taken.
  abbrev pub inserted :
      UserRow
      → String
      → String
      → ℕ
      → Accounts
      → Option AuthSession
      → Accounts × Result Refusal Grant
  inserted u id secret now a (some s) = (a, err duplicate_key)
  inserted u id secret now a none = (
    record_login u.id now (set_sessions (a.sessions ++ new_session u.id id secret now ∷ []) a),
    ok (granted u id secret),
  )

  unfoldable pub start_session :
      UserRow → String → String → ℕ → Accounts → Accounts × Result Refusal Grant
  start_session u id secret now a = inserted u id secret now a (get id a.sessions)

  -- The route `/login`, after `authenticate` has committed its `record_login`.
  abbrev pub authenticated :
      String → String → ℕ → Accounts → Result Refusal UserRow → Accounts × Result Refusal Grant
  authenticated id secret now a (err e) = (a, err e)
  authenticated id secret now a (ok u) = start_session u id secret now (record_login u.id now a)

  unfoldable pub login :
      String → String → String → String → ℕ → Accounts → Accounts × Result Refusal Grant
  unfolding start_session authenticate
  login identifier password id secret now a =
      authenticated id secret now a (authenticate identifier password a)

  -- `refresh_session`. A secret that was rotated away shows a theft.
  abbrev pub replayed : ℕ → Accounts → Option AuthSession → Accounts × Result Refusal Grant
  replayed now a none = (a, err invalid_refresh_token)
  replayed now a (some s) = (
    set_sessions (modify s.id (revoke "refresh_replay" now) a.sessions) a,
    err invalid_refresh_token,
  )

  abbrev pub rotate : String → ℕ → AuthSession → AuthSession
  rotate new_secret now s = record s {
    previous_refresh_secret_hash = some s.refresh_secret_hash;
    refresh_secret_hash = sec.hash_refresh_secret new_secret;
    last_used_at = now;
    idle_expires_at = now + sec.idle_timeout;
  }

  abbrev pub owned :
      String → ℕ → Accounts → AuthSession → Option UserRow → Accounts × Result Refusal Grant
  owned new_secret now a s none = (
    set_sessions (modify s.id (revoke "user_unavailable" now) a.sessions) a,
    err account_unavailable,
  )
  owned new_secret now a s (some u) =
      if u.is_active
      then (
        set_sessions (modify s.id (rotate new_secret now) a.sessions) a,
        ok (granted u s.id new_secret),
      )
      else (
        set_sessions (modify s.id (revoke "user_unavailable" now) a.sessions) a,
        err account_unavailable,
      )

  abbrev pub resolved :
      String → String → ℕ → Accounts → Option AuthSession → Accounts × Result Refusal Grant
  resolved h new_secret now a none = replayed now a (first (had_hash h) a.sessions)
  resolved h new_secret now a (some s) =
      if is_usable now s
      then owned new_secret now a s (get s.user_id a.users)
      else (a, err session_inactive)

  unfoldable pub refresh_session : String → String → ℕ → Accounts → Accounts × Result Refusal Grant
  refresh_session refresh_secret new_secret now a =
      let h = sec.hash_refresh_secret refresh_secret in
      resolved h new_secret now a (first (has_hash h) a.sessions)

  -- `revoke_session_by_secret`, on logout
  abbrev pub log_out : ℕ → Accounts → Option AuthSession → Accounts
  log_out now a none = a
  log_out now a (some s) = set_sessions (modify s.id (revoke "logout" now) a.sessions) a

  unfoldable pub revoke_session_by_secret : String → ℕ → Accounts → Accounts
  revoke_session_by_secret secret now a =
      log_out now a (first (has_hash (sec.hash_refresh_secret secret)) a.sessions)

  -- `user_from_token`, of a token that `decode_access_token` has accepted
  abbrev pub session_checked : UserRow → ℕ → Option AuthSession → Result Refusal UserRow
  session_checked u now none = err session_inactive
  session_checked u now (some s) = if is_usable now s then ok u else err session_inactive

  abbrev pub by_session : UserRow → ℕ → Accounts → Option String → Result Refusal UserRow
  by_session u now a none = ok u
  by_session u now a (some sid) = session_checked u now (get sid a.sessions)

  abbrev pub by_user : Claims → ℕ → Accounts → Option UserRow → Result Refusal UserRow
  by_user c now a none = err user_gone
  by_user c now a (some u) = if u.is_active then by_session u now a c.sid else err account_disabled

  unfoldable pub user_from_token : Claims → ℕ → Accounts → Result Refusal UserRow
  user_from_token c now a = by_user c now a (get c.sub a.users)

  -- `change_password`, whose route commits
  abbrev pub new_password : String → String → UserRow → UserRow
  new_password password salt u = record u {
    password_hash = sec.hash_password salt password;
    must_change_password = false;
  }

  abbrev pub password_checked : String → String → UserRow → Result Refusal (Unit {0})
  password_checked current next u =
      guard u.is_active account_disabled
      >> guard (sec.verify_password current u.password_hash) wrong_password
      >> guard (not (ltb (sec.size next) 8)) short_password
      >> guard (not (sec.verify_password next u.password_hash)) same_password

  abbrev pub password_changed :
      String
      → String
      → Option String
      → ℕ
      → Accounts
      → UserRow
      → Result Refusal (Unit {0})
      → Accounts × Result Refusal (Unit {0})
  password_changed next salt keep_id now a u (err e) = (a, err e)
  password_changed next salt keep_id now a u (ok t) = (
    record a {
      users = modify u.id (new_password next salt) a.users;
      sessions = revoke_all_for_user u.id "password_changed" keep_id now a.sessions;
    },
    ok t,
  )

  abbrev pub changed :
      String
      → String
      → String
      → Option String
      → ℕ
      → Accounts
      → Option UserRow
      → Accounts × Result Refusal (Unit {0})
  changed current next salt keep_id now a none = (a, err user_gone)
  changed current next salt keep_id now a (some u) =
      password_changed next salt keep_id now a u (password_checked current next u)

  unfoldable pub change_password :
      String
      → String
      → String
      → String
      → Option String
      → ℕ
      → Accounts
      → Accounts × Result Refusal (Unit {0})
  change_password user_id current next salt keep_id now a =
      changed current next salt keep_id now a (get user_id a.users)

-- `revoke_session`, of one's own sessions
abbrev pub own_session : String → ℕ → Accounts → Option AuthSession → Accounts × Bool
own_session user_id now a none = (a, false)
own_session user_id now a (some s) =
    if s.user_id == user_id
    then (set_sessions (modify s.id (revoke "user_revoked" now) a.sessions) a, true)
    else (a, false)

unfoldable pub revoke_session : String → String → ℕ → Accounts → Accounts × Bool
revoke_session user_id session_id now a = own_session user_id now a (get session_id a.sessions)

unfoldable pub revoke_all_sessions : String → ℕ → Accounts → Accounts
revoke_all_sessions user_id now a =
    set_sessions (revoke_all_for_user user_id "logout_all" none now a.sessions) a
