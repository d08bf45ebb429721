-- ===== src/Accounts/Changes.antt =====
-- What the requests of backend/saz/services/auth_service.py and admin_service.py can do to the rows
-- of sessions.
use saz.Prelude.{
  ℕ, String, Bool, true, false, not, Option, none, some, List, [], ◌∷◌, ◌++◌, ◌==◌, string_eq,
  Result, ok, err, guard, ltb, if-holds,
}
use saz.Prelude.Table.{get, modify, first}
use saz.Runs.{Role}
use saz.Accounts.{
  same_role, short_password, UserRow, AuthSession, Accounts, Security, Refusal, revoke,
  revoke_all_for_user, user_entity, session_entity, is_usable, had_hash,
}
use saz.Accounts.Sessions.{
  record_login, authenticated, authenticate, start_session, inserted, login, replayed, owned,
  resolved, rotate, new_session, refresh_session, log_out, revoke_session_by_secret,
  change_password, changed, password_changed, password_checked, revoke_session, own_session,
  revoke_all_sessions,
}
use saz.Accounts.Admin.{
  applied, activate, disabling, activated, set_active, with_role, demoting, role_changed, set_role,
  temporary, reset_for, reset_password, created, may_create, new_user, create_user, session_revoked,
  revoke_user_session, all_revoked, revoke_all_user_sessions,
}
use saz.Accounts.Requests.{
  Request, log_in, refresh, log_out as log_out_request, log_out_all, revoke_own,
  new_password as new_password_request, create, activation, promotion, reset, revoke_one,
  revoke_every, serve, serve_all,
}

-- A property of the sessions that revocations, rotations and insertions keep, where the secrets that
-- are generated are good.
pub record IsKept (sec : Security) (Good : String → Type 0) (P : List AuthSession → Type 0)
    : Type 0 where
  pub by_revoke :
      (k reason : String) (now : ℕ) (rows : List AuthSession)
      → P rows
      → P (modify k (revoke reason now) rows)
  pub by_revoke_all :
      (user_id reason : String) (except : Option String) (now : ℕ) (rows : List AuthSession)
      → P rows
      → P (revoke_all_for_user user_id reason except now rows)
  pub by_rotate :
      (k secret : String) (now : ℕ) (rows : List AuthSession)
      → Good secret
      → P rows
      → P (modify k (rotate sec secret now) rows)
  pub by_insert :
      (user_id id secret : String) (now : ℕ) (rows : List AuthSession)
      → Good secret
      → P rows
      → P (rows ++ new_session sec user_id id secret now ∷ [])

abbrev pub IsGood : (String → Type 0) → Request → Type 0
IsGood Good (log_in identifier password id secret) = Good secret
IsGood Good (refresh secret new_secret) = Good new_secret
IsGood Good _ = Unit

abbrev pub AllGood : (String → Type 0) → List (ℕ × Request) → Type 0
AllGood Good [] = Unit
AllGood Good ((now, q) ∷ requests) = IsGood Good q × AllGood Good requests

module _ (sec : Security) (Good : String → Type 0) (P : List AuthSession → Type 0)
    (c : IsKept sec Good P) where
  abbrev Kept {ℓ} : {R : Type ℓ} → Accounts × R → Type 0
  Kept x = P x.0.sessions

  applied-keeps :
      (f : UserRow → UserRow) (g : List AuthSession → List AuthSession) (a : Accounts) (u : UserRow)
      (r : Result Refusal (Unit {0}))
      → P (g a.sessions)
      → P a.sessions
      → Kept (applied f g a u r)
  applied-keeps f g a u (err e) done h = h
  applied-keeps f g a u (ok t) done h = done

  activated-keeps :
      (actor : String) (b : Bool) (now : ℕ) (a : Accounts) (o : Option UserRow)
      → P a.sessions
      → Kept (activated actor b now a o)
  activated-keeps actor b now a none h = h
  activated-keeps actor true now a (some u) h = if-holds Kept u.is_active _ _ (λ e. h) (λ e. h)
  activated-keeps actor false now a (some u) h =
      if-holds Kept (not u.is_active) _ _ (λ e. h)
        λ e.
          applied-keeps (activate false) (revoke_all_for_user u.id "user_disabled" none now) a u
            (disabling actor a u) (c.by_revoke_all u.id "user_disabled" none now a.sessions h) h

  role_changed-keeps :
      (actor : String) (r : Role) (a : Accounts) (o : Option UserRow)
      → P a.sessions
      → Kept (role_changed actor r a o)
  role_changed-keeps actor r a none h = h
  role_changed-keeps actor r a (some u) h =
      if-holds Kept (same_role u.role r) _ _ (λ e. h)
        λ e. applied-keeps (with_role r) (λ s. s) a u (demoting actor r a u) h h

  reset_for-keeps :
      (password salt : String) (now : ℕ) (a : Accounts) (o : Option UserRow)
      → P a.sessions
      → Kept (reset_for sec password salt now a o)
  reset_for-keeps password salt now a none h = h
  reset_for-keeps password salt now a (some u) h =
      applied-keeps (temporary sec password salt)
        (revoke_all_for_user u.id "password_reset" none now) a u
        (guard (not (ltb (sec.size password) 8)) short_password)
        (c.by_revoke_all u.id "password_reset" none now a.sessions h) h

  created-keeps :
      (u : UserRow) (a : Accounts) (r : Result Refusal (Unit {0}))
      → P a.sessions
      → Kept (created sec u a r)
  created-keeps u a (err e) h = h
  created-keeps u a (ok t) h = h

  password_changed-keeps :
      (next salt : String) (keep_id : Option String) (now : ℕ) (a : Accounts) (u : UserRow)
      (r : Result Refusal (Unit {0}))
      → P a.sessions
      → Kept (password_changed sec next salt keep_id now a u r)
  password_changed-keeps next salt keep_id now a u (err e) h = h
  password_changed-keeps next salt keep_id now a u (ok t) h =
      c.by_revoke_all u.id "password_changed" keep_id now a.sessions h

  changed-keeps :
      (current next salt : String) (keep_id : Option String) (now : ℕ) (a : Accounts)
      (o : Option UserRow)
      → P a.sessions
      → Kept (changed sec current next salt keep_id now a o)
  changed-keeps current next salt keep_id now a none h = h
  changed-keeps current next salt keep_id now a (some u) h =
      password_changed-keeps next salt keep_id now a u (password_checked sec current next u) h

  inserted-keeps :
      (u : UserRow) (id secret : String) (now : ℕ) (a : Accounts) (o : Option AuthSession)
      → Good secret
      → P a.sessions
      → Kept (inserted sec u id secret now a o)
  inserted-keeps u id secret now a none good h = c.by_insert u.id id secret now a.sessions good h
  inserted-keeps u id secret now a (some s) good h = h

  authenticated-keeps :
      (id secret : String) (now : ℕ) (a : Accounts) (r : Result Refusal UserRow)
      → Good secret
      → P a.sessions
      → Kept (authenticated sec id secret now a r)
  unfolding start_session
  authenticated-keeps id secret now a (err e) good h = h
  authenticated-keeps id secret now a (ok u) good h =
      inserted-keeps u id secret now (record_login u.id now a) (get id a.sessions) good h

  owned-keeps :
      (new_secret : String) (now : ℕ) (a : Accounts) (s : AuthSession) (o : Option UserRow)
      → Good new_secret
      → P a.sessions
      → Kept (owned sec new_secret now a s o)
  owned-keeps new_secret now a s none good h = c.by_revoke s.id "user_unavailable" now a.sessions h
  owned-keeps new_secret now a s (some u) good h =
      if-holds Kept u.is_active _ _ (λ e. c.by_rotate s.id new_secret now a.sessions good h)
        (λ e. c.by_revoke s.id "user_unavailable" now a.sessions h)

  replayed-keeps :
      (now : ℕ) (a : Accounts) (o : Option AuthSession) → P a.sessions → Kept (replayed sec now a o)
  replayed-keeps now a none h = h
  replayed-keeps now a (some s) h = c.by_revoke s.id "refresh_replay" now a.sessions h

  resolved-keeps :
      (h new_secret : String) (now : ℕ) (a : Accounts) (o : Option AuthSession)
      → Good new_secret
      → P a.sessions
      → Kept (resolved sec h new_secret now a o)
  resolved-keeps h new_secret now a none good p =
      replayed-keeps now a (first (had_hash h) a.sessions) p
  resolved-keeps h new_secret now a (some s) good p =
      if-holds Kept (is_usable now s) _ _
        (λ e. owned-keeps new_secret now a s (get s.user_id a.users) good p) (λ e. p)

  log_out-keeps :
      (now : ℕ) (a : Accounts) (o : Option AuthSession)
      → P a.sessions
      → P (log_out sec now a o).sessions
  log_out-keeps now a none h = h
  log_out-keeps now a (some s) h = c.by_revoke s.id "logout" now a.sessions h

  own_session-keeps :
      (user_id : String) (now : ℕ) (a : Accounts) (o : Option AuthSession)
      → P a.sessions
      → Kept (own_session user_id now a o)
  own_session-keeps user_id now a none h = h
  own_session-keeps user_id now a (some s) h =
      if-holds Kept (s.user_id == user_id) _ _
        (λ e. c.by_revoke s.id "user_revoked" now a.sessions h) (λ e. h)

  session_revoked-keeps :
      (user_id : String) (now : ℕ) (a : Accounts) (o : Option AuthSession)
      → P a.sessions
      → Kept (session_revoked user_id now a o)
  session_revoked-keeps user_id now a none h = h
  session_revoked-keeps user_id now a (some s) h =
      if-holds Kept (s.user_id == user_id) _ _
        (λ e. c.by_revoke s.id "admin_revoked" now a.sessions h) (λ e. h)

  all_revoked-keeps :
      (user_id : String) (now : ℕ) (a : Accounts) (o : Option UserRow)
      → P a.sessions
      → Kept (all_revoked user_id now a o)
  all_revoked-keeps user_id now a none h = h
  all_revoked-keeps user_id now a (some u) h =
      c.by_revoke_all user_id "admin_revoked" none now a.sessions h

  serve-keeps :
      (now : ℕ) (q : Request) (a : Accounts)
      → IsGood Good q
      → P a.sessions
      → P (serve sec now q a).sessions
  unfolding serve login refresh_session revoke_session_by_secret change_password revoke_session
      revoke_all_sessions set_active set_role reset_password create_user revoke_user_session
      revoke_all_user_sessions
  serve-keeps now (log_in identifier password id secret) a good h =
      authenticated-keeps id secret now a (authenticate sec identifier password a) good h
  serve-keeps now (refresh secret new_secret) a good h =
      resolved-keeps (sec.hash_refresh_secret secret) new_secret now a _ good h
  serve-keeps now (log_out_request secret) a good h = log_out-keeps now a _ h
  serve-keeps now (log_out_all user_id) a good h =
      c.by_revoke_all user_id "logout_all" none now a.sessions h
  serve-keeps now (revoke_own user_id session_id) a good h =
      own_session-keeps user_id now a (get session_id a.sessions) h
  serve-keeps now (new_password_request user_id current next salt keep_id) a good h =
      changed-keeps current next salt keep_id now a (get user_id a.users) h
  serve-keeps now (create id username email password salt r b must_change) a good h =
      let u = new_user sec id username email password salt r b must_change in
      created-keeps u a (may_create sec password u a) h
  serve-keeps now (activation actor user_id b) a good h =
      activated-keeps actor b now a (get user_id a.users) h
  serve-keeps now (promotion actor user_id r) a good h =
      role_changed-keeps actor r a (get user_id a.users) h
  serve-keeps now (reset user_id password salt) a good h =
      reset_for-keeps password salt now a (get user_id a.users) h
  serve-keeps now (revoke_one user_id session_id) a good h =
      session_revoked-keeps user_id now a (get session_id a.sessions) h
  serve-keeps now (revoke_every user_id) a good h =
      all_revoked-keeps user_id now a (get user_id a.users) h

  pub serve_all-keeps :
      (requests : List (ℕ × Request)) (a : Accounts)
      → AllGood Good requests
      → P a.sessions
      → P (serve_all sec requests a).sessions
  unfolding serve_all
  serve_all-keeps [] a good h = h
  serve_all-keeps ((now, q) ∷ requests) a good h =
      serve_all-keeps requests (serve sec now q a) good.1 (serve-keeps now q a good.0 h)
